-- ===== src/Login/Provider.antt =====
-- The identity providers: local.py, zabbix_sso.py and jumpserver.py of identity-service.
use seyal_run.Prelude.{
  ℕ, ◌+◌, ◌*◌, String, Bool, true, false, not, ◌&&◌, ◌||◌, Option, none, some, List, [], ◌∷◌, ◌++◌,
  ◌==◌, leb, eqb, if◌then◌else◌, is_some, any, keep, after_prefix, Dict, lookup, insert, erase,
}
use seyal_run.Identity.Lockout.{second}
use seyal_run.Login.{User, State, World}

abbrev pub user_named : String → Dict User → Option User
user_named name [] = none
user_named name ((id, u) ∷ users) = if u.username == name then some u else user_named name users

-- `LocalIdentityProvider.authenticate`
unfoldable pub authenticate_local : World → String → String → Dict User → Option User
authenticate_local w name password users = elim (user_named name users) [
  | none ↦ none
  | some u ↦ if u.is_active && w.verify_password password u.password_hash then some u else none
]

abbrev pub role_named : String → List (String × String) → Option String
role_named name [] = none
role_named name ((id, n) ∷ roles) = if n == name then some id else role_named name roles

-- The account that a provider makes: the defaults of the table.
abbrev pub new_account : World → String → Option String → User
new_account w name role_id = record {
  id = w.new_user_id;
  username = name;
  email = "";
  role_id = role_id;
  password_hash = "";
  must_change_password = false;
  is_active = true;
  totp_secret = "";
  totp_enabled = false;
  mfa_method = none;
  allowed_ips = [];
  ip_restriction_enabled = false;
  single_session_enabled = false;
  setup_completed = false;
}

abbrev pub links_of : String → List (String × String) → List (String × String)
links_of user_id rows = keep (λ r. r.0 == user_id) rows

-- The direct roles of the user become the one role, unless it is among them.
abbrev pub relinked : Bool → String → String → List (String × String) → List (String × String)
relinked is_new user_id role_id rows =
    if is_new || not (any (λ r. r.1 == role_id) (links_of user_id rows))
    then keep (λ r. not (r.0 == user_id)) rows ++ (user_id, role_id) ∷ []
    else rows

-- `_ROLE_BY_USER_TYPE`
abbrev pub role_by_user_type : ℕ → String
role_by_user_type n = if eqb n 2 then "admin" else if eqb n 3 then "superadmin" else "user"

module _ {Otps : Type 0} where
  abbrev pub with_role : Bool → User → Option String → State Otps → User × State Otps
  with_role is_new u none s = (u, record s { users = insert u.id u s.users })
  with_role is_new u (some role_id) s =
      let u' : User = record u { role_id = some role_id } in
      (
        u',
        record s {
          users = insert u.id u' s.users;
          tables = record s.tables {
            user_roles = relinked is_new u.id role_id s.tables.user_roles;
          };
        },
      )

  -- The second half of both `authenticate` methods, on the user name and the role's name
  unfoldable pub provision : World → String → String → State Otps → User × State Otps
  unfolding insert
  provision w name role_name s =
      let role = role_named role_name s.tables.roles in
      elim (user_named name s.users) [
        | none ↦ with_role true (new_account w name none) role s
        | some u ↦ with_role false u role s
      ]

  -- `init_sso`, with the new code
  unfoldable pub init_sso : World → String → ℕ → String → State Otps → State Otps
  unfolding insert
  init_sso w name user_type code s = record s {
    sso_codes =
        insert code
          (record {
            username = name;
            zabbix_user_type = user_type;
            expires_at = w.now + 120 * second;
          })
          (keep (λ c. leb w.now c.1.expires_at) s.sso_codes);
  }

  -- `ZabbixSSOProvider.authenticate`
  unfoldable pub authenticate_sso : World → String → State Otps → Option User × State Otps
  unfolding provision lookup erase
  authenticate_sso w code s =
      let codes' = keep (λ c. leb w.now c.1.expires_at) s.sso_codes in
      let s' : State Otps = record s { sso_codes = erase code codes' } in
      elim (lookup code codes') [
        | none ↦ (none, s')
        | some c ↦
            let done = provision w c.username (role_by_user_type c.zabbix_user_type) s' in
            (some done.0, done.1)
      ]

-- A JumpServer profile, its role names in lower case.
pub record Profile : Type 0 where
  pub username : String
  pub is_superuser : Bool
  pub is_org_admin : Bool
  pub role_names : List String

-- `t in s`
unfoldable pub contains : String → String → Bool
unfolding after_prefix
contains String.[] t = is_some (after_prefix "" t)
contains (String.◌∷◌ c s) t = is_some (after_prefix (String.◌∷◌ c s) t) || contains s t

-- `role_for_profile`: the names are joined by spaces there, which "admin" does not have.
unfoldable pub role_for_profile : Profile → String
unfolding contains
role_for_profile p =
    if p.is_superuser
    then "superadmin"
    else if p.is_org_admin || any (λ n. contains n "admin") p.role_names
    then "admin"
    else "user"

-- `JumpServerProvider.authenticate`, on the profile that JumpServer returned
unfoldable pub authenticate_jumpserver :
    {Otps : Type 0} → World → Option Profile → State Otps → Option User × State Otps
unfolding provision role_for_profile
authenticate_jumpserver w none s = (none, s)
authenticate_jumpserver w (some p) s =
    let done = provision w p.username (role_for_profile p) s in (some done.0, done.1)
