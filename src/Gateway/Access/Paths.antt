-- ===== src/Gateway/Access/Paths.antt =====
-- How the decision depends on the path, for the built-in roles while the cache is cold.
use mathlib.Core.Option
use seyal_run.Prelude.{
  [], String, ◌≡◌, refl, sym, ◌≢◌, inl, inr, Bool, true, false, not, ◌&&◌, false≢true, some, List,
  ◌∷◌, arith, ◌==◌, eq_iff, Bool-cases, mem, first_segment, ends_with, Dict, lookup, insert,
  lookup-insert,
}
use seyal_run.Rbac.{RoleDoc, methods_of}
use seyal_run.Gateway.Access.{is_authorized, flag_at, nav_segments, nav_table, nav_permissions}

abbrev enroll : List String
enroll = "auth/mfa/setup" ∷ "auth/mfa/setup-email" ∷ []

not_enroll : (path : String) → (first_segment path == "auth") ≡ false → mem path enroll ≡ false
unfolding mem first_segment
not_enroll path h = elim (Bool-cases (path == "auth/mfa/setup")) [
  | inl e ↦ absurd (false≢true (sym (rw ((eq_iff path "auth/mfa/setup").0 e) at h)))
  | inr e ↦ elim (Bool-cases (path == "auth/mfa/setup-email")) [
    | inl e' ↦ absurd (false≢true (sym (rw ((eq_iff path "auth/mfa/setup-email").0 e') at h)))
    | inr e' ↦ rw (e, e')
  ]
]

-- A `user` may run an existing playbook, and may not create or edit a template: both are POST on
-- the segment `job-templates`.
pub user_runs_only :
    (path : String)
    → first_segment path ≡ "job-templates"
    → is_authorized [] ("user" ∷ []) "POST" path ≡ ends_with path "/run"
unfolding is_authorized methods_of
user_runs_only path seg = rw (not_enroll path (rw seg), seg, is_authorized) (ground arith)

-- A `support` caller reads every credential record and reveals no secret.
pub support_reveals_nothing :
    (path : String)
    → first_segment path ≡ "credentials"
    → is_authorized [] ("support" ∷ []) "GET" path ≡ not (ends_with path "/reveal")
unfolding is_authorized methods_of
support_reveals_nothing path seg = rw (seg, is_authorized) (ground arith)

lookup-nav_table :
    (cache : Dict RoleDoc) (roles : List String) (table : Dict (String × String)) (area : String)
    → lookup area (nav_table cache roles table)
      ≡ Option.map (λ t. is_authorized cache roles t.0 t.1) (lookup area table)
unfolding nav_table lookup
lookup-nav_table cache roles [] area = refl
lookup-nav_table cache roles ((a, (m, seg)) ∷ table) area =
    ground (arith, lookup-nav_table cache roles table area)

assets_needs_hosts :
    (perms : Dict Bool) (w : Bool)
    → lookup "assets" (insert "assets" (flag_at "hosts" perms && w) perms) ≡ some true
    → lookup "hosts" (insert "assets" (flag_at "hosts" perms && w) perms) ≡ some true
assets_needs_hosts perms w h =
    let v = flag_at "hosts" perms && w in
    ground (arith, lookup-insert "assets" "assets" v perms, lookup-insert "assets" "hosts" v perms)

-- Every area but `assets` is shown exactly when its request would be admitted, and `assets` only
-- with read access to hosts.
pub nav_permissions_lem :
    (cache : Dict RoleDoc) (roles : List String) (area : String)
    → (area ≢ "assets"
        → lookup area (nav_permissions cache roles)
          ≡ Option.map (λ t. is_authorized cache roles t.0 t.1) (lookup area nav_segments))
      × (lookup "assets" (nav_permissions cache roles) ≡ some true
          → lookup "hosts" (nav_permissions cache roles) ≡ some true)
unfolding nav_permissions
nav_permissions_lem cache roles area = (
  λ ne.
      rw lookup-insert
        (ground (arith, eq_iff "assets" area, lookup-nav_table cache roles nav_segments area)),
  assets_needs_hosts (nav_table cache roles nav_segments) _,
)
