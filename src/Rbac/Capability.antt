-- ===== src/Rbac/Capability.antt =====
-- What the permission documents grant, for every segment and method.
use seyal_run.Prelude.{
  [], String, ◌≡◌, refl, Bool, true, false, not, ◌&&◌, Option, none, some, List, ◌∷◌, arith, ◌==◌,
  eq_iff, all, null, mem, all_of_mem, Dict, lookup,
}
use seyal_run.Rbac.{
  RoleDoc, doc_allows, methods_of, methods_or, admin_doc, support_doc, system, role_allows,
  builtin_role_perms,
}

-- Every method of `ms` is allowed by `doc` on `seg`.
covers_methods : RoleDoc → String → List String → Bool
covers_methods doc seg ms = all (λ m. doc_allows doc m seg) ms

covers : RoleDoc → Dict (List String) → Bool
covers doc [] = true
covers doc ((seg, ms) ∷ perms) = covers_methods doc seg ms && covers doc perms

-- `*` is neither a segment nor a method.
abbrev pub is_plain : Dict (List String) → Bool
is_plain [] = true
is_plain ((seg, ms) ∷ perms) = not (seg == "*") && (not (mem "*" ms) && is_plain perms)

covers_methods_sound :
    (doc : RoleDoc) (seg m : String) (ms : List String)
    → covers_methods doc seg ms ≡ true
    → mem m ms ≡ true
    → doc_allows doc m seg ≡ true
unfolding covers_methods mem
covers_methods_sound doc seg m [] h k = ground arith
covers_methods_sound doc seg m (n ∷ ns) h k =
    ground (arith, eq_iff m n, covers_methods_sound doc seg m ns)

lookup-star : (perms : Dict (List String)) → is_plain perms ≡ true → lookup "*" perms ≡ none
unfolding lookup
lookup-star [] h = refl
lookup-star ((seg, ms) ∷ perms) h = ground (arith, lookup-star perms)

covers_sound :
    (doc : RoleDoc) (perms : Dict (List String)) (m seg : String)
    → covers doc perms ≡ true
    → mem m (methods_or (lookup seg perms) []) ≡ true
    → doc_allows doc m seg ≡ true
unfolding covers lookup mem
covers_sound doc [] m seg h k = cc
covers_sound doc ((s, []) ∷ perms) m seg h k =
    ground (arith, eq_iff s seg, covers_sound doc perms m seg)
covers_sound doc ((s, n ∷ ns) ∷ perms) m seg h k =
    ground
      (arith, eq_iff s seg, covers_methods_sound doc seg m (n ∷ ns), covers_sound doc perms m seg)

star_free :
    (perms : Dict (List String)) (seg : String)
    → is_plain perms ≡ true
    → mem "*" (methods_or (lookup seg perms) []) ≡ false
unfolding lookup mem
star_free [] seg h = refl
star_free ((s, []) ∷ perms) seg h = ground (arith, star_free perms seg)
star_free ((s, n ∷ ns) ∷ perms) seg h = ground (arith, star_free perms seg)

-- A document that allows every listed pair of a plain one allows whatever that one does.
covers_allows :
    (strong weak : RoleDoc) (m seg : String)
    → weak.all ≡ false
    → is_plain weak.perms ≡ true
    → covers strong weak.perms ≡ true
    → doc_allows weak m seg ≡ true
    → doc_allows strong m seg ≡ true
covers_allows strong weak m seg no_all plain cov h =
    covers_sound strong weak.perms m seg cov
      (unfold doc_allows in ground (arith, lookup-star weak.perms, star_free weak.perms seg, h))

-- Whatever a `support` role may do on a segment, an `admin` role may do too.
pub support_within_admin :
    (m seg : String) → doc_allows support_doc m seg ≡ true → doc_allows admin_doc m seg ≡ true
unfolding covers covers_methods doc_allows
support_within_admin m seg = covers_allows admin_doc support_doc m seg refl refl refl

abbrev pub delegated_roles : List String
delegated_roles = "admin" ∷ "support" ∷ "user" ∷ []

-- The platform's own segments, and `test-connection`, which no group lists.
abbrev pub reserved_segments : List String
reserved_segments = "test-connection" ∷ system

grants_nothing : Option RoleDoc → String → Bool
grants_nothing none seg = true
grants_nothing (some doc) seg = not doc.all && null (methods_of doc seg)

mem-null : (m : String) (methods : List String) → null methods ≡ true → mem m methods ≡ false
unfolding mem
mem-null m [] h = refl
mem-null m (n ∷ ns) h = cc

grants_nothing_sound :
    (doc : Option RoleDoc) (m seg : String)
    → grants_nothing doc seg ≡ true
    → role_allows doc m seg ≡ false
unfolding grants_nothing role_allows
grants_nothing_sound none m seg h = refl
grants_nothing_sound (some doc) m seg h =
    ground (arith, mem-null m (methods_of doc seg), mem-null "*" (methods_of doc seg))

builtin_grants_nothing : String → String → Bool
builtin_grants_nothing role seg = grants_nothing (lookup role builtin_role_perms) seg

all_reserved : String → Bool
all_reserved role = all (builtin_grants_nothing role) reserved_segments

reserved_table : all all_reserved delegated_roles ≡ true
unfolding all_reserved builtin_grants_nothing grants_nothing methods_of lookup
reserved_table = refl

-- No built-in role but `superadmin` has any method on a reserved segment.
pub reserved_to_superadmin :
    (role m seg : String)
    → mem role delegated_roles ≡ true
    → mem seg reserved_segments ≡ true
    → role_allows (lookup role builtin_role_perms) m seg ≡ false
unfolding all_reserved builtin_grants_nothing
reserved_to_superadmin role m seg r s =
    grants_nothing_sound (lookup role builtin_role_perms) m seg (
      all_of_mem (builtin_grants_nothing role) seg reserved_segments
        (all_of_mem all_reserved role delegated_roles reserved_table r) s)
