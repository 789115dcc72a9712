-- ===== src/Gateway/Tests.antt =====
-- Runs of the gateway on concrete requests.
use seyal_run.Prelude.{◌≡◌, refl, true, false, none, some, [], ◌∷◌, arith, mem, Result, ok, err}
use seyal_run.Rbac.{primary_role}
use seyal_run.Sessions.{Identity, AuthError}
use seyal_run.Gateway.Access.{is_authorized, sees_all_hosts, downstream_role}
use seyal_run.Gateway.Access.Roles.{is_authorized_mono}
use seyal_run.Gateway.Admission.{
  Forwarded, upstream, route, gateway, identify, authenticated, check, is_internal, not_found,
}
use seyal_run.Gateway.Admission.Laws.{IsAdmitted, gateway_admits}
use seyal_run.Gateway.Proxy.{text, Headers, Caller, forward_headers}
use seyal_run.Gateway.Proxy.Headers.{Lacks, no_forged_headers}

abbrev operator : Identity
operator = record {
  user_id = "u1";
  username = "kumar";
  role = "support";
  roles = "support" ∷ [];
  scopes = [];
  is_pat = false;
  pwc = false;
  mfa_pending = false;
  mfa_setup_required = false;
  kiosk_host_id = none;
  elevated_until = 0;
}

abbrev operator_forwarded : Forwarded
operator_forwarded = record { identity = operator; real_role = "support"; role = "support" }

hosts_admitted :
    gateway [] true "GET" "hosts" (ok operator) ≡ ok (upstream (some operator_forwarded))
unfolding gateway identify authenticated check route is_internal is_authorized downstream_role
    sees_all_hosts primary_role
hosts_admitted = refl

internal_refused : gateway [] true "GET" "internal/authz/resolve" (ok operator) ≡ err not_found
unfolding gateway
internal_refused = refl

gateway_admits_example :
    (f : Forwarded) × ◌≡◌ {A = Result AuthError Identity} (ok operator) (ok f.identity)
    × IsAdmitted [] "GET" "hosts" f
    × (true ≡ true)
    × (upstream (some operator_forwarded) ≡ route "GET" "hosts" (some f))
unfolding mem
gateway_admits_example =
    gateway_admits [] true "GET" "hosts" (ok operator) (upstream (some operator_forwarded)) refl
      hosts_admitted

is_authorized_mono_example : is_authorized [] ("support" ∷ "user" ∷ []) "GET" "hosts/7" ≡ true
unfolding is_authorized mem
is_authorized_mono_example =
    is_authorized_mono [] ("user" ∷ []) ("support" ∷ "user" ∷ []) "GET" "hosts/7"
      (λ r h. ground (arith, h)) refl

abbrev forged : Headers
forged =
    ("X-Elevated-UNTIL", text "9999999999")
    ∷ ("x-user-role", text "superadmin")
    ∷ ("Accept", text "*/*")
    ∷ []

abbrev plain_caller : Caller
plain_caller = record {
  user_id = "u1";
  role = "user";
  real_role = "user";
  username = "kumar";
  kiosk_host_id = "";
  scopes = [];
  elevated_until = 0;
}

no_forged_headers_example :
    (plain_caller.elevated_until ≡ 0
      → Lacks "x-elevated-until" (forward_headers forged "token" plain_caller))
    × (plain_caller.scopes ≡ []
        → Lacks "x-user-scopes" (forward_headers forged "token" plain_caller))
    × (plain_caller.kiosk_host_id ≡ ""
        → Lacks "x-kiosk-host-id" (forward_headers forged "token" plain_caller))
no_forged_headers_example = no_forged_headers forged "token" plain_caller
