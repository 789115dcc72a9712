-- ===== src/Login/Mint.antt =====
-- `_mint_session`, which each way to log in goes through, and what it stands on: auth.py.
use seyal_run.Prelude.{
  ℕ, String, Bool, false, not, ◌&&◌, ◌||◌, Option, none, some, List, [], ◌∷◌, ◌==◌, if◌then◌else◌,
  Result, ok, ◌>>◌,
}
use seyal_run.Identity.Effective.{effective_roles}
use seyal_run.Sessions.{Request, truthy}
use seyal_run.Login.{User, Policies, OtpStore, State, World, effective_group_policies, primary_of}
use seyal_run.Login.Otp.{issue_otp}

-- What a response says beside the user.
pub record Minted : Type 0 where
  pub access_token : String
  pub mfa_required : Bool
  pub mfa_method : Option String
  pub mfa_setup_required : Bool
  pub needs_setup_wizard : Bool

-- `_resolve_kiosk_host`
abbrev pub host_named : String → List (String × String) → Option String
host_named target [] = none
host_named target ((id, zabbix_id) ∷ hosts) =
    if id == target || zabbix_id == target then some id else host_named target hosts

unfoldable pub resolve_kiosk_host : World → Option String → Option String
resolve_kiosk_host w none = none
resolve_kiosk_host w (some target) =
    if target == ""
    then none
    else elim w.inventory [ none ↦ none | some hosts ↦ host_named target hosts ]

abbrev pub policies_of : World → User → Policies
policies_of w u = effective_group_policies (w.groups_of u.id)

abbrev pub is_single : World → User → Bool
is_single w u = u.single_session_enabled || (policies_of w u).single_session_enabled

abbrev pub needs_wizard : World → User → Bool
needs_wizard w u = (policies_of w u).setup_wizard && not u.setup_completed

-- The call of create_session.
abbrev pub session_for : World → User → List String → Option String → Bool → Bool → Bool → Request
session_for w u roles kiosk pwc pending setup = record {
  session_id = w.session_id;
  user_id = u.id;
  username = u.username;
  role = primary_of roles;
  roles = roles;
  idle_minutes = w.idle_minutes;
  kiosk_host_id = kiosk;
  pwc = pwc;
  mfa_pending = pending;
  mfa_setup_required = setup;
  single_session_enabled = is_single w u;
}

abbrev pub has_mfa : User → Bool
has_mfa u = truthy u.mfa_method

abbrev pub is_method : String → User → Bool
is_method name u = elim u.mfa_method [ none ↦ false | some m ↦ m == name ]

abbrev pub must_enroll : World → User → Bool
must_enroll w u = (policies_of w u).mfa_enforced && not (has_mfa u)

module _ (store : OtpStore) where
  abbrev pub Otps : Type 0
  Otps = store.State

  abbrev pub add_session : Request → State Otps → State Otps
  add_session r s = record s { sessions = r ∷ s.sessions }

  abbrev pub logged : String → String → State Otps → State Otps
  logged user_id action s = record s { log = record { user_id = user_id; action = action } ∷ s.log }

  -- The error of a mail that fails comes after the session was created.
  unfoldable pub mint_session :
      World → User → Option String → Bool → State Otps → Result ℕ Minted × State Otps
  unfolding issue_otp effective_roles
  mint_session w u kiosk pwc s =
      let pending = has_mfa u in
      let setup = must_enroll w u in
      let s' : State Otps =
        add_session (session_for w u (effective_roles s.tables u.id) kiosk pwc pending setup) s in
      let m : Minted = record {
        access_token = w.session_id;
        mfa_required = pending;
        mfa_method = if pending then u.mfa_method else none;
        mfa_setup_required = setup;
        needs_setup_wizard = needs_wizard w u;
      } in
      if pending && is_method "email" u
      then (
        ((issue_otp store w u "login" s.otps).0 >> ok m),
        record s' { otps = (issue_otp store w u "login" s.otps).1 },
      )
      else (ok m, s')
