-- ===== src/Identity/Authz.antt =====
-- core/services/identity-service/app/api/internal.py: the resource authorizations. Sets of ids are
-- lists read by membership; times are in seconds since the epoch.
pub mod Sweep
pub mod Best
use seyal_run.Prelude.{
  [], ℕ, ◌+◌, min, String, Bool, true, false, not, ◌&&◌, ◌||◌, Option, none, some, List, ◌∷◌, ◌++◌,
  ◌==◌, ltb, eqb, if◌then◌else◌, any, null, mem,
}

pub record Rule : Type 0 where
  pub name : String
  pub user_id : Option String
  pub user_ids : List String
  pub user_group_id : Option String
  pub user_group_ids : List String
  pub host_id : Option String
  pub host_ids : List String
  pub host_group_id : Option String
  pub host_group_ids : List String
  pub credential_id : Option String
  pub credential_ids : List String
  pub actions : List String
  pub enabled : Bool
  pub status : String
  pub date_start : Option ℕ
  pub date_expired : Option ℕ

-- `s.add(x)` where `x` is set to a text that is not empty.
abbrev pub with_single : Option String → List String → List String
with_single none xs = xs
with_single (some x) xs = if x == "" then xs else x ∷ xs

abbrev pub meets : List String → List String → Bool
meets xs ys = any (λ x. mem x ys) xs

unfoldable pub matches_principal : Rule → String → List String → Bool
unfolding mem
matches_principal rule user groups =
    mem user (with_single rule.user_id rule.user_ids)
    || meets (with_single rule.user_group_id rule.user_group_ids) groups

unfoldable pub rule_hosts : Rule → List String
rule_hosts rule = with_single rule.host_id rule.host_ids

unfoldable pub rule_host_groups : Rule → List String
rule_host_groups rule = with_single rule.host_group_id rule.host_group_ids

-- Enabled, started and not expired.
unfoldable pub in_window : ℕ → Rule → Bool
in_window now rule =
    rule.enabled
    && (not (elim rule.date_start [ none ↦ false | some t ↦ ltb now t ])
        && not (elim rule.date_expired [ none ↦ false | some t ↦ ltb t now ]))

unfoldable pub has_credential : Rule → Bool
has_credential rule =
    elim rule.credential_id [ none ↦ false | some c ↦ not (c == "") ]
    || not (null rule.credential_ids)

-- The least number of a list that is not empty.
abbrev pub least : ℕ → List (ℕ × Rule) → ℕ
least m [] = m
least m ((r, _) ∷ rest) = least (min m r) rest

abbrev pub min_rank : List (ℕ × Rule) → ℕ
min_rank [] = 0
min_rank ((r, _) ∷ rest) = least r rest

-- `for act in actions: if act not in out: out.append(act)`
unfoldable pub add_missing : List String → List String → List String
unfolding mem
add_missing out [] = out
add_missing out (act ∷ acts) = add_missing (if mem act out then out else out ++ (act ∷ [])) acts

unfoldable pub union_at : ℕ → List String → List (ℕ × Rule) → List String
unfolding add_missing
union_at best out [] = out
union_at best out ((r, rule) ∷ rest) =
    union_at best (if eqb r best then add_missing out rule.actions else out) rest

unfoldable pub union_best_rank_actions : List (ℕ × Rule) → List String
unfolding union_at
union_best_rank_actions ranked = union_at (min_rank ranked) [] ranked

-- `next(a for rank, a in qualifying if rank == best_rank)`
abbrev pub first_at : ℕ → List (ℕ × Rule) → Option Rule
first_at best [] = none
first_at best ((r, rule) ∷ rest) = if eqb r best then some rule else first_at best rest

unfoldable pub credentials_of : Rule → List String
credentials_of rule =
    if null rule.credential_ids then with_single rule.credential_id [] else rule.credential_ids

pub record Resolved : Type 0 where
  pub credential_id : Option String
  pub credential_ids : List String
  pub actions : List String

abbrev pub head : List String → Option String
head [] = none
head (x ∷ xs) = some x

unfoldable pub answer : List (ℕ × Rule) → Resolved
unfolding union_best_rank_actions credentials_of
answer ranked = elim (first_at (min_rank ranked) ranked) [
  | none ↦ record { credential_id = none; credential_ids = []; actions = [] }
  | some best ↦ record {
    credential_id = head (credentials_of best);
    credential_ids = credentials_of best;
    actions = union_best_rank_actions ranked;
  }
]

pub record HostIds : Type 0 where
  pub granted_hosts : List String
  pub granted_groups : List String
  pub is_admin : Bool

-- `hosts_in_groups` is the answer of the inventory service, nothing when the request fails.
module _ (hosts_in_groups : List String → List String) where
  -- The function returns before any request when there is no group.
  unfoldable pub expand : List String → List String
  expand groups = if null groups then [] else hosts_in_groups groups

  unfoldable pub covers_by_group : String → Rule → Bool
  unfolding mem rule_host_groups expand
  covers_by_group host rule = mem host (expand (rule_host_groups rule))

  unfoldable pub rank : String → Rule → ℕ
  unfolding mem rule_hosts has_credential covers_by_group
  rank host rule =
      let direct = mem host (rule_hosts rule) in
      if direct && has_credential rule
      then 0
      else if direct
      then 1
      else if covers_by_group host rule && has_credential rule
      then 2
      else 3

  -- The rule grants the user something on the host now.
  unfoldable pub qualifies : ℕ → String → List String → String → Rule → Bool
  unfolding mem matches_principal rule_hosts covers_by_group in_window
  qualifies now user groups host rule =
      in_window now rule
      && (matches_principal rule user groups
          && (mem host (rule_hosts rule) || covers_by_group host rule))

  unfoldable pub qualifying : ℕ → String → List String → String → List Rule → List (ℕ × Rule)
  unfolding qualifies rank
  qualifying now user groups host [] = []
  qualifying now user groups host (rule ∷ rules) =
      let rest = qualifying now user groups host rules in
      if qualifies now user groups host rule then (rank host rule, rule) ∷ rest else rest

  unfoldable pub authz_resolve : ℕ → String → List String → String → List Rule → Resolved
  unfolding qualifying answer
  authz_resolve now user groups host rules = answer (qualifying now user groups host rules)

  -- The hosts and the host groups that the rules of a user name.
  unfoldable pub granted : (Rule → List String) → ℕ → String → List String → List Rule → List String
  unfolding in_window matches_principal
  granted names now user groups [] = []
  granted names now user groups (rule ∷ rules) =
      let rest = granted names now user groups rules in
      if in_window now rule && matches_principal rule user groups then names rule ++ rest else rest

  -- The user is absent, or comes with whether its roles bypass the rules.
  unfoldable pub authz_host_ids :
      Option Bool → Bool → ℕ → String → List String → List Rule → HostIds
  unfolding granted expand rule_hosts rule_host_groups
  authz_host_ids none strict now user groups rules = record {
    granted_hosts = [];
    granted_groups = [];
    is_admin = false;
  }
  authz_host_ids (some bypass) strict now user groups rules =
      let host_groups = granted rule_host_groups now user groups rules in
      if not strict && bypass
      then record { granted_hosts = []; granted_groups = []; is_admin = true }
      else record {
        granted_hosts = granted rule_hosts now user groups rules ++ expand host_groups;
        granted_groups = host_groups;
        is_admin = false;
      }

unfoldable pub is_overdue : ℕ → Rule → Bool
is_overdue now rule = rule.enabled && elim rule.date_expired [ none ↦ false | some t ↦ ltb t now ]

-- The rules after the sweep, and the number that it expired.
unfoldable pub sweep_expired : ℕ → List Rule → List Rule × ℕ
unfolding is_overdue
sweep_expired now [] = ([], 0)
sweep_expired now (rule ∷ rules) =
    let (swept, n) = sweep_expired now rules in
    if is_overdue now rule
    then (record rule { enabled = false; status = "expired" } ∷ swept, n + 1)
    else (rule ∷ swept, n)
