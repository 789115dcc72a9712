-- ===== src/Gateway/Admission/Laws.antt =====
-- What holds of every request that the gateway lets through.
use seyal_run.Prelude.{
  String, ◌≡◌, sym, ap, ◌⊎◌, inl, inr, Bool, true, false, some, arith, mem, first_segment, Dict,
  Result, ok, err, Result-cases,
}
use seyal_run.Rbac.{RoleDoc, primary_role}
use seyal_run.Scopes.{scope_allows}
use seyal_run.Sessions.{Identity, AuthError}
use seyal_run.Gateway.Access.{is_authorized, downstream_role}
use seyal_run.Gateway.Admission.{
  public_paths, password_paths, verify_paths, bypass_paths, enroll_paths, Forwarded, caller_roles,
  is_internal, check, authenticated, identify, Target, route, gateway,
}

-- Zero trust: what the gateway has established about a request that it forwards for `f`.
pub record IsAdmitted (cache : Dict RoleDoc) (method path : String) (f : Forwarded) : Type 0 where
  pub external : is_internal path ≡ false
  pub permitted :
      (is_authorized cache (caller_roles f.identity) method path ≡ true)
      ⊎ ((f.identity.mfa_setup_required ≡ true) × (mem path bypass_paths ≡ true))
  pub scoped :
      f.identity.is_pat ≡ true
      → scope_allows f.identity.scopes (first_segment path) method path ≡ true
  pub rotated : f.identity.pwc ≡ true → mem path password_paths ≡ true
  pub verified : f.identity.mfa_pending ≡ true → mem path verify_paths ≡ true
  pub enrolled : f.identity.mfa_setup_required ≡ true → mem path enroll_paths ≡ true
  pub real : f.real_role ≡ primary_role (caller_roles f.identity)
  pub vouched : f.role ≡ downstream_role (caller_roles f.identity) method (first_segment path)

check-IsAdmitted :
    (cache : Dict RoleDoc) (method path : String) (identity : Identity) (f : Forwarded)
    → is_internal path ≡ false
    → check cache method path identity ≡ ok f
    → IsAdmitted cache method path f × (f.identity ≡ identity)
unfolding check
check-IsAdmitted cache method path identity f ext h = (
  record {
    external = ext;
    permitted = ground arith;
    scoped = λ is. ground arith;
    rotated = λ is. ground arith;
    verified = λ is. ground arith;
    enrolled = λ is. ground arith;
    real = ground arith;
    vouched = ground arith;
  },
  ground arith,
)

-- A request for a path that is not public passes only for a caller whom the gateway has resolved,
-- within the rate limit, after every check; and it goes where `route` sends that caller.
pub gateway_admits :
    (cache : Dict RoleDoc) (allowed : Bool) (method path : String)
    (resolved : Result AuthError Identity) (target : Target)
    → mem path public_paths ≡ false
    → gateway cache allowed method path resolved ≡ ok target
    → (f : Forwarded) × (resolved ≡ ok f.identity)
      × IsAdmitted cache method path f
      × (allowed ≡ true)
      × (target ≡ route method path (some f))
unfolding gateway identify authenticated
gateway_admits cache allowed method path (err e) target private h = absurd (ground arith)
gateway_admits cache allowed method path (ok identity) target private h =
    elim (Result-cases (check cache method path identity)) [
      | inl (f, checked) ↦
          let (admitted, same) =
            check-IsAdmitted cache method path identity f (ground arith) checked in
          (f, ap ok (sym same), admitted, ground (arith, checked), ground (arith, checked))
      | inr (e, refused) ↦ absurd (ground (arith, refused))
    ]
