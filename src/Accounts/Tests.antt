-- ===== src/Accounts/Tests.antt =====
-- Two superadmins, one of them through a group, and a plain admin.
use seyal_run.Prelude.{String, ◌≡◌, refl, true, false, none, some, [], ◌∷◌, mem, lookup, ok, err}
use seyal_run.Rbac.{RoleDoc, doc_allows, merge_roles, dedup}
use seyal_run.Identity.Effective.{direct_roles, granted_roles}
use seyal_run.Accounts.{Account, RoleRow, GroupRow, Directory, target_is_superadmin}
use seyal_run.Accounts.Handlers.{
  UserUpdate, create_role, update_user, deprovision_user, deactivated,
}
use seyal_run.Accounts.Guards.{HasSuperadmin}
use seyal_run.Accounts.Guards.Remain.{deprovision, superadmin_remains}
use seyal_run.Accounts.Guards.Protect.{
  IsUntouched, superadmin_account-IsUntouched, wildcard, wildcard_role_created,
}

abbrev account : String → Account
account name = record {
  username = name;
  display_name = name;
  email = "";
  zabbix_userid = none;
  role_id = none;
  password_hash = "h";
  is_active = true;
  totp_secret = "";
  totp_enabled = false;
  mfa_method = none;
  allowed_ips = [];
  ip_restriction_enabled = false;
  single_session_enabled = false;
  is_service_account = false;
}

abbrev empty_doc : RoleDoc
empty_doc = record { all = true; perms = []; flags = [] }

abbrev role : String → RoleRow
role name = record { name = name; description = ""; permissions = empty_doc; is_builtin = true }

abbrev ops : GroupRow
ops = record {
  name = "ops";
  description = "";
  zabbix_usrgrpid = none;
  mfa_enforced = false;
  setup_wizard = false;
  notifications_enabled = false;
  single_session_enabled = false;
  ip_restriction_enabled = false;
}

abbrev directory : Directory
directory = record {
  accounts = ("u1", account "ann") ∷ ("u2", account "bob") ∷ ("u3", account "cy") ∷ [];
  roles = ("r1", role "superadmin") ∷ ("r2", role "admin") ∷ [];
  groups = ("g1", ops) ∷ [];
  user_roles = ("u1", "r1") ∷ ("u3", "r2") ∷ [];
  members = ("u2", "g1") ∷ [];
  group_roles = ("g1", "r1") ∷ [];
  terminated = [];
}

abbrev after_ann : Directory
after_ann = record (deactivated "u1" (account "ann") directory) { terminated = "u1" ∷ [] }

superadmin_remains_example : HasSuperadmin after_ann
unfolding deprovision_user lookup mem
superadmin_remains_example =
    superadmin_remains (deprovision ("deprovision" ∷ []) "u1") directory after_ann refl

abbrev only_ann : Directory
only_ann = record directory { members = [] }

last_one_stays : deprovision_user ("deprovision" ∷ []) "u1" only_ann ≡ err 409
unfolding deprovision_user
last_one_stays = refl

abbrev renaming : UserUpdate
renaming = record {
  display_name = some "Ann";
  email = none;
  role_id = none;
  role_ids = none;
  is_active = none;
  password_hash = none;
  allowed_ips = none;
  ip_restriction_enabled = none;
  single_session_enabled = none;
  is_service_account = none;
}

abbrev renamed : Directory
renamed = record directory {
  accounts =
      ("u1", record (account "ann") { display_name = "Ann" })
      ∷ ("u2", account "bob")
      ∷ ("u3", account "cy")
      ∷ [];
}

superadmin_account-IsUntouched_example : IsUntouched "u1" (account "ann") directory renamed
unfolding update_user target_is_superadmin merge_roles dedup lookup direct_roles granted_roles
superadmin_account-IsUntouched_example =
    superadmin_account-IsUntouched "admin" "u1" renaming (account "ann") directory renamed refl refl
      refl refl

no_password_reset :
    update_user "admin" "u1" (record renaming { password_hash = some "x" }) directory ≡ err 403
unfolding update_user merge_roles dedup direct_roles granted_roles
no_password_reset = refl

wildcard_role_created_example :
    (t : Directory) × (r : RoleRow) × (create_role "admin" "r9" "deputy" "" wildcard directory
      ≡ ok t)
    × (lookup "r9" t.roles ≡ some r)
    × ((method seg : String) → doc_allows r.permissions method seg ≡ true)
unfolding mem
wildcard_role_created_example = wildcard_role_created "r9" "deputy" "" directory refl refl refl
