-- ===== src/Accounts.antt =====
-- core/services/identity-service/app/api/users.py: accounts, roles and groups, and the guards that
-- keep the superadmins. A handler that raises rolls back, so a failure has no state.
pub mod Handlers
pub mod Guards
mod Tests
use seyal_run.Prelude.{
  ℕ, zero, suc, ◌+◌, ◌-◌, ◌*◌, ◌/◌, ◌≤◌, ◌<◌, min, max, String, ◌≡◌, refl, sym, subst, ap, fun_ext,
  ◌∙◌, ◌≢◌, ◌↔◌, ◌⊎◌, inl, inr, Bool, true, false, not, ◌&&◌, ◌||◌, false≢true, Option, none, some,
  List, [], ◌∷◌, ◌++◌, map, arith, ◌==◌, eq_iff, eq_refl, ltb, leb, eqb, if◌then◌else◌, ltb→lt,
  leb→le, Bool-cases, Option-cases, is_some, or_else, and_true, or_true, length, drop, any, all,
  keep, null, length-append, length-drop, any-append, All, All-keep, any_mono, mem, after_prefix,
  strip, lower_is, first_segment, ends_with, strip_slashes, codes, upper_code, mem-append,
  mem-cons_self, keep_nil, all_of_mem, mem-keep, any_of_mem, Dict, lookup, insert, erase, keys,
  lookup-insert, lookup-erase, dict_laws, All-insert, Result, ok, err, ◌>>=◌, ◌>>◌, guard,
  some_injective, guard-eq-ok, ok-injective, bind-eq-ok, Result-cases,
}
use seyal_run.Rbac.{RoleDoc}
use seyal_run.Identity.Effective.{RoleTables, effective_roles}
use seyal_run.Identity.Authz.{add_missing}
use seyal_run.Login.Provider.{role_named}

pub record Account : Type 0 where
  pub username : String
  pub display_name : String
  pub email : String
  pub zabbix_userid : Option String
  pub role_id : Option String
  pub password_hash : String
  pub is_active : Bool
  pub totp_secret : String
  pub totp_enabled : Bool
  pub mfa_method : Option String
  pub allowed_ips : List String
  pub ip_restriction_enabled : Bool
  pub single_session_enabled : Bool
  pub is_service_account : Bool

pub record RoleRow : Type 0 where
  pub name : String
  pub description : String
  pub permissions : RoleDoc
  pub is_builtin : Bool

pub record GroupRow : Type 0 where
  pub name : String
  pub description : String
  pub zabbix_usrgrpid : Option String
  pub mfa_enforced : Bool
  pub setup_wizard : Bool
  pub notifications_enabled : Bool
  pub single_session_enabled : Bool
  pub ip_restriction_enabled : Bool

-- The tables, by id, with the three link tables as rows, and the users whose terminal sessions were
-- asked to end.
pub record Directory : Type 0 where
  pub accounts : Dict Account
  pub roles : Dict RoleRow
  pub groups : Dict GroupRow
  pub user_roles : List (String × String)
  pub members : List (String × String)
  pub group_roles : List (String × String)
  pub terminated : List String

abbrev pub role_names_of : Dict RoleRow → List (String × String)
role_names_of [] = []
role_names_of ((id, r) ∷ rs) = (id, r.name) ∷ role_names_of rs

abbrev pub tables_of : Directory → RoleTables
tables_of d = record {
  roles = role_names_of d.roles;
  user_roles = d.user_roles;
  members = d.members;
  group_roles = d.group_roles;
}

-- `_superadmin_role_id`
abbrev pub superadmin_role_id : Directory → Option String
superadmin_role_id d = role_named "superadmin" (role_names_of d.roles)

-- `_guard_superadmin_bind`
unfoldable pub guard_superadmin_bind : List String → Option String → String → Result ℕ (Unit {0})
unfolding mem
guard_superadmin_bind role_ids none actor_role = ok tt
guard_superadmin_bind role_ids (some sid) actor_role =
    guard (not (mem sid role_ids && not (actor_role == "superadmin"))) 403

abbrev pub firsts_with : String → List (String × String) → List String
firsts_with x [] = []
firsts_with x ((a, b) ∷ rows) = if b == x then a ∷ firsts_with x rows else firsts_with x rows

abbrev pub firsts_in : List String → List (String × String) → List String
firsts_in xs [] = []
firsts_in xs ((a, b) ∷ rows) = if mem b xs then a ∷ firsts_in xs rows else firsts_in xs rows

-- Everybody who has the role, by itself or through a group.
abbrev pub holders : String → Directory → List String
holders sid d = firsts_with sid d.user_roles ++ firsts_in (firsts_with sid d.group_roles) d.members

abbrev pub active_among : List String → Dict Account → ℕ
active_among ids [] = 0
active_among ids ((id, a) ∷ rows) =
    let rest = active_among ids rows in if mem id ids && a.is_active then suc rest else rest

-- `_effective_superadmin_count`
unfoldable pub effective_superadmin_count : Directory → ℕ
unfolding mem
effective_superadmin_count d = elim (superadmin_role_id d) [
  | none ↦ 0
  | some sid ↦ active_among (holders sid d) d.accounts
]

-- `_guard_last_superadmin`, before the commit of a changed directory
abbrev pub guard_last_superadmin : Directory → Result ℕ Directory
guard_last_superadmin d = guard (not (eqb (effective_superadmin_count d) 0)) 409 >> ok d

unfoldable pub target_is_superadmin : Directory → String → Bool
unfolding mem effective_roles
target_is_superadmin d user_id = mem "superadmin" (effective_roles (tables_of d) user_id)

-- `_guard_superadmin_target`
abbrev pub guard_superadmin_target : Bool → String → Result ℕ (Unit {0})
guard_superadmin_target is_super actor_role =
    guard (not (is_super && not (actor_role == "superadmin"))) 403

-- `_guard_grants_allpower`
unfoldable pub guard_grants_allpower : RoleDoc → String → Result ℕ (Unit {0})
unfolding mem
guard_grants_allpower doc actor_role =
    guard (not ((doc.all || mem "reveal" doc.flags) && not (actor_role == "superadmin"))) 403

-- `_guard_group_mfa_enforce`
abbrev pub same_bool : Bool → Bool → Bool
same_bool true b = b
same_bool false b = not b

abbrev pub guard_group_mfa_enforce : Bool → Bool → String → Result ℕ (Unit {0})
guard_group_mfa_enforce current new actor_role =
    guard (not (not (same_bool current new) && not (actor_role == "superadmin"))) 403

abbrev pub without : String → List (String × String) → List (String × String)
without key rows = keep (λ r. not (r.0 == key)) rows

abbrev pub without_second : String → List (String × String) → List (String × String)
without_second key rows = keep (λ r. not (r.1 == key)) rows

abbrev pub each_with : String → List String → List (String × String)
each_with key [] = []
each_with key (x ∷ xs) = (key, x) ∷ each_with key xs

abbrev pub each_to : String → List String → List (String × String)
each_to key [] = []
each_to key (x ∷ xs) = (x, key) ∷ each_to key xs

-- `_set_user_roles`, and the same of the roles of a group: the links anew, each role once
unfoldable pub links_anew : String → List String → List (String × String) → List (String × String)
unfolding add_missing
links_anew key ids rows = without key rows ++ each_with key (add_missing [] ids)

abbrev pub known {ℓ} : {A : Type ℓ} → Option A → Result ℕ A
known none = err 404
known (some a) = ok a

abbrev pub is_admin : String → Bool
is_admin role = role == "admin" || role == "superadmin"
