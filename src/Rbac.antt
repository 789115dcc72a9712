-- ===== src/Rbac.antt =====
-- core/libs/rbaccore/__init__.py: the built-in permission documents and the pure role helpers.
-- A document's keys `all`, `flags` and `perms` are the fields of `RoleDoc`; a key that is absent
-- is `false` or an empty collection, as the source's `get` and `or` read it.
pub mod Merge
pub mod Capability
pub mod Tests
use seyal_run.Prelude.{
  [], String, Bool, true, false, not, ◌||◌, Option, none, some, List, ◌∷◌, ◌++◌, Dict, lookup, mem,
  any, keep, if◌then◌else◌, ◌==◌,
}

abbrev pub all_methods : List String
all_methods = "GET" ∷ "POST" ∷ "PUT" ∷ "PATCH" ∷ "DELETE" ∷ []

abbrev pub precedence : List String
precedence = "superadmin" ∷ "admin" ∷ "support" ∷ "user" ∷ []

-- `_AUTHZ_BYPASS`
abbrev pub authz_bypass : List String
authz_bypass = "superadmin" ∷ "admin" ∷ []

abbrev pub inventory : List String
inventory = "hosts" ∷ "host-groups" ∷ "credentials" ∷ "credential-templates" ∷ []

abbrev pub zones : List String
zones = "zones" ∷ []

abbrev pub automation : List String
automation =
    "projects" ∷ "job-templates" ∷ "schedules" ∷ "job-runs" ∷ "secret-management-jobs"
    ∷ "trigger-bindings" ∷ "triggers" ∷ []

abbrev pub system : List String
system =
    "log-backend" ∷ "settings" ∷ "integrations" ∷ "command-filters" ∷ "command-groups"
    ∷ "login-acls" ∷ "housekeeping" ∷ []

abbrev pub self_service : List String
self_service = "ssh" ∷ "sftp" ∷ "recordings" ∷ "metrics" ∷ "api-tokens" ∷ "notifications" ∷ []

-- `_grant`
abbrev pub grant : List String → List String → Dict (List String)
grant [] methods = []
grant (s ∷ segments) methods = (s, methods) ∷ grant segments methods

pub record RoleDoc : Type 0 where
  pub all : Bool
  pub flags : List String
  pub perms : Dict (List String)

abbrev pub superadmin_doc : RoleDoc
superadmin_doc = record { all = true; flags = "reveal" ∷ []; perms = [] }

abbrev pub admin_doc : RoleDoc
admin_doc = record {
  all = false;
  flags = "reveal" ∷ "mfa" ∷ [];
  perms =
      grant (inventory ++ (zones ++ (automation ++ self_service))) all_methods
      ++ ("authorizations", all_methods)
        ∷ ("access-reviews", all_methods)
        ∷ ("audit", "GET" ∷ [])
        ∷ ("users", "GET" ∷ "PUT" ∷ [])
        ∷ ("roles", "GET" ∷ [])
        ∷ [];
}

abbrev pub support_doc : RoleDoc
support_doc = record {
  all = false;
  flags = [];
  perms =
      grant (inventory ++ automation) all_methods
      ++ ("authorizations", all_methods)
        ∷ ("ssh", "GET" ∷ "POST" ∷ "DELETE" ∷ [])
        ∷ ("sftp", all_methods)
        ∷ ("recordings", "GET" ∷ [])
        ∷ ("metrics", "GET" ∷ [])
        ∷ ("api-tokens", all_methods)
        ∷ ("notifications", "GET" ∷ [])
        ∷ ("users", "GET" ∷ "PUT" ∷ [])
        ∷ ("roles", "GET" ∷ [])
        ∷ [];
}

abbrev pub user_doc : RoleDoc
user_doc = record {
  all = false;
  flags = [];
  perms =
      ("hosts", "GET" ∷ [])
      ∷ ("ssh", "GET" ∷ "POST" ∷ "DELETE" ∷ [])
      ∷ ("sftp", all_methods)
      ∷ ("job-runs", "GET" ∷ [])
      ∷ ("job-templates", "GET" ∷ [])
      ∷ ("api-tokens", all_methods)
      ∷ ("notifications", "GET" ∷ [])
      ∷ ("playbook-run", "POST" ∷ [])
      ∷ ("recordings", "GET" ∷ [])
      ∷ [];
}

abbrev pub builtin_role_perms : Dict RoleDoc
builtin_role_perms =
    ("superadmin", superadmin_doc)
    ∷ ("admin", admin_doc)
    ∷ ("support", support_doc)
    ∷ ("user", user_doc)
    ∷ []

-- The loop of `merge_roles` that fills `seen`, over the names still to come.
unfoldable pub dedup : List String → List String → List String
unfolding mem
dedup seen [] = seen
dedup seen (r ∷ rs) = dedup (if r == "" || mem r seen then seen else seen ++ r ∷ []) rs

unfoldable pub merge_roles : List String → List String → List String
unfolding dedup mem
merge_roles direct group_roles =
    let seen = dedup [] (direct ++ group_roles) in
    keep (λ r. mem r seen) precedence ++ keep (λ r. not (mem r precedence)) seen

abbrev pub head_or : List String → String → String
head_or [] d = d
head_or (r ∷ rs) d = r

unfoldable pub primary_role : List String → String
unfolding mem
primary_role roles = head_or (keep (λ r. mem r roles) precedence) (head_or roles "user")

-- `a or b` on lists of methods that may be missing
abbrev pub methods_or : Option (List String) → List String → List String
methods_or none d = d
methods_or (some []) d = d
methods_or (some (m ∷ ms)) d = m ∷ ms

unfoldable pub methods_of : RoleDoc → String → List String
unfolding lookup
methods_of doc seg = methods_or (lookup seg doc.perms) (methods_or (lookup "*" doc.perms) [])

unfoldable pub doc_allows : RoleDoc → String → String → Bool
unfolding methods_of mem
doc_allows doc method seg =
    let methods = methods_of doc seg in doc.all || mem method methods || mem "*" methods

unfoldable pub role_allows : Option RoleDoc → String → String → Bool
unfolding doc_allows
role_allows none method seg = false
role_allows (some doc) method seg = doc_allows doc method seg

unfoldable pub doc_can_reveal : Option RoleDoc → Bool
unfolding mem
doc_can_reveal none = false
doc_can_reveal (some doc) = doc.all || mem "reveal" doc.flags

unfoldable pub doc_can_mfa : Option RoleDoc → Bool
unfolding mem
doc_can_mfa none = false
doc_can_mfa (some doc) = doc.all || mem "mfa" doc.flags

unfoldable pub bypasses_authz : List String → Bool
unfolding mem
bypasses_authz roles = any (λ r. mem r authz_bypass) roles
