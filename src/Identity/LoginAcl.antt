-- ===== src/Identity/LoginAcl.antt =====
-- core/services/identity-service/app/api/internal.py: login_acls_check. The test of an address in
-- a network is the standard library's, with nothing for a text that is no address or network. A
-- time `HH:MM` is its minute of the day: such texts compare as their minutes do. The rules come
-- from the database by descending priority.
pub mod Laws
use seyal_run.Prelude.{
  ℕ, String, Bool, true, false, not, ◌&&◌, ◌||◌, Option, none, some, List, [], ◌∷◌, ◌==◌, ltb, leb,
  eqb, if◌then◌else◌, is_some, or_else, length, any, keep, null, mem, ◌>>=◌, ◌>>◌,
}

pub record LoginAcl : Type 0 where
  pub name : String
  pub user_id : Option String
  pub user_group_id : Option String
  pub enabled : Bool
  pub ip_cidr : Option String
  pub time_start : Option ℕ
  pub time_end : Option ℕ
  pub days_of_week : Option (List ℕ)
  pub action : String

pub record AclVerdict : Type 0 where
  pub allowed : Bool
  pub matched_rule : Option String

-- The login that is asked about: the address, the minute of the day and the day of the week.
pub record Login : Type 0 where
  pub user_id : String
  pub group_ids : List String
  pub ip : String
  pub minute : ℕ
  pub weekday : ℕ

-- The condition of the query.
unfoldable pub selected : Login → LoginAcl → Bool
unfolding mem
selected login acl =
    acl.enabled
    && (elim acl.user_id [ none ↦ false | some u ↦ u == login.user_id ]
        || (elim acl.user_group_id [
          | none ↦ false
          | some g ↦ mem g (if null login.group_ids then "" ∷ [] else login.group_ids)
        ]
            || (not (is_some acl.user_id) && not (is_some acl.user_group_id))))

unfoldable pub in_hours : Login → LoginAcl → Bool
in_hours login acl = elim acl.time_start [
  | none ↦ true
  | some s ↦ elim acl.time_end [ none ↦ true | some e ↦ leb s login.minute && leb login.minute e ]
]

unfoldable pub on_day : Login → LoginAcl → Bool
on_day login acl = elim acl.days_of_week [
  | none ↦ true
  | some days ↦ if ltb (length days) 7 then any (eqb login.weekday) days else true
]

module _ (in_network : String → String → Option Bool) where
  unfoldable pub from_network : Login → LoginAcl → Bool
  from_network login acl = elim acl.ip_cidr [
    | none ↦ true
    | some cidr ↦
        if cidr == "" || login.ip == "" then true else or_else (in_network login.ip cidr) false
  ]

  unfoldable pub acl_matches : Login → LoginAcl → Bool
  unfolding from_network in_hours on_day
  acl_matches login acl = from_network login acl && (in_hours login acl && on_day login acl)

  -- The loop over the rules that the query selects.
  unfoldable pub first_verdict : Login → List LoginAcl → AclVerdict
  unfolding acl_matches
  first_verdict login [] = record { allowed = true; matched_rule = none }
  first_verdict login (acl ∷ acls) =
      let rest = first_verdict login acls in
      if acl_matches login acl
      then record { allowed = acl.action == "allow"; matched_rule = some acl.name }
      else rest

  unfoldable pub login_acls_check : Login → List LoginAcl → AclVerdict
  unfolding first_verdict selected
  login_acls_check login acls = first_verdict login (keep (selected login) acls)
