-- ===== src/Automation.antt =====
-- core/services/automation-service/app: the rows of models.py that the job runs use, and the
-- parameter rules of _params.py. A value of a JSON dict is a Param; times are in seconds.
pub mod Runs
pub mod Approval
pub mod Runner
pub mod Dispatch
pub mod Chain
pub mod Params
pub mod Tests
use seyal_run.Prelude.{
  [], ℕ, String, Bool, true, not, Option, none, some, List, ◌∷◌, ◌++◌, ◌==◌, eqb, if◌then◌else◌,
  is_some, or_else, keep, null, mem, after_prefix, Dict, lookup, insert, keys, Result, ok, ◌>>◌,
  guard,
}

pub record ChainStep : Type 0 where
  pub template_id : String
  pub continue_on_failure : Bool

pub data Param : Type 0 where
  nothing : Param
  flag : Bool → Param
  number : ℕ → Param
  text : String → Param
  texts : List String → Param
  by_host : Dict String → Param
  steps : List ChainStep → Param

-- `{**a, **b}`
unfoldable pub merge {ℓ} : {V : Type ℓ} → Dict V → Dict V → Dict V
unfolding insert
merge a [] = a
merge a ((k, v) ∷ b) = merge (insert k v a) b

-- One item of a survey's `fields`.
pub record Field : Type 0 where
  pub name : String
  pub default : Option Param
  pub is_dropdown : Bool
  pub options : List String
  pub validation : Option String

-- A survey schema as the items of its containers; an item is a dict, other shapes contribute no
-- name. `fields` holds the same items as `lists` does under that name, read as Fields.
pub record Survey : Type 0 where
  pub lists : Dict (List (Dict Param))
  pub fields : List Field

pub record Template : Type 0 where
  pub id : String
  pub enabled : Bool
  pub action_type : String
  pub script_content : String
  pub playbook_path : String
  pub default_params : Dict Param
  pub allowed_param_keys : List String
  pub survey_schema : Survey
  pub target_host_ids : List String
  pub credential_id : Option String
  pub subject_credential_id : Option String
  pub requires_approval : Bool
  pub approver_role : Option String
  pub timeout_seconds : Option ℕ
  pub retry_count : ℕ
  pub max_parallel : ℕ
  pub forks : ℕ
  pub chain_steps : List ChainStep

abbrev pub reserved_param_keys : List String
reserved_param_keys = "script_content" ∷ "playbook_path" ∷ []

abbrev pub flow_params : String → List String
flow_params action = if action == "rotate_secret" then "subject_credential_id" ∷ [] else []

-- `not x` for the result of a `get`.
abbrev pub falsy : Option Param → Bool
falsy none = true
falsy (some nothing) = true
falsy (some (flag b)) = not b
falsy (some (number n)) = eqb n 0
falsy (some (text s)) = s == ""
falsy (some (texts xs)) = null xs
falsy (some (by_host d)) = null d
falsy (some (steps xs)) = null xs

abbrev text_of : Option Param → List String
text_of (some (text s)) = if s == "" then [] else s ∷ []
text_of _ = []

-- `item.get("name") or item.get("variable")`, when it is a text that is not empty.
unfoldable pub item_name : Dict Param → List String
unfolding lookup
item_name item =
    let name = lookup "name" item in text_of (if falsy name then lookup "variable" item else name)

unfoldable pub item_names : List (Dict Param) → List String
unfolding item_name
item_names [] = []
item_names (item ∷ items) = item_name item ++ item_names items

unfoldable pub survey_field_names : Survey → List String
unfolding item_names lookup
survey_field_names survey =
    item_names (or_else (lookup "fields" survey.lists) [])
    ++ (item_names (or_else (lookup "spec" survey.lists) [])
        ++ item_names (or_else (lookup "questions" survey.lists) []))

unfoldable pub allowed_param_keys_for : Template → List String
unfolding keys mem survey_field_names
allowed_param_keys_for tmpl =
    keep (λ k. not (mem k reserved_param_keys))
      (tmpl.allowed_param_keys
        ++ (keys tmpl.default_params
            ++ (survey_field_names tmpl.survey_schema ++ flow_params tmpl.action_type)))

-- The error names the first rule that is broken and the keys that break it.
pub data ParamError : Type 0 where
  reserved : List String → ParamError
  control : List String → ParamError
  unknown : List String → ParamError

-- `k.startswith("_")`
abbrev pub is_control : String → Bool
is_control k = is_some (after_prefix k "_")

unfoldable pub filter_caller_params : Template → Dict Param → Result ParamError (Dict Param)
unfolding keys mem allowed_param_keys_for after_prefix
filter_caller_params tmpl supplied =
    let bad = keep (λ k. mem k reserved_param_keys) (keys supplied) in
    let internal = keep is_control (keys supplied) in
    let extra = keep (λ k. not (mem k (allowed_param_keys_for tmpl))) (keys supplied) in
    guard (null bad) (reserved bad)
    >> (guard (null internal) (control internal)
        >> (guard (null extra) (unknown extra) >> ok supplied))

unfoldable pub template_code_params : Template → Dict Param
template_code_params tmpl =
    (if tmpl.script_content == "" then [] else ("script_content", text tmpl.script_content) ∷ [])
    ++ (if tmpl.playbook_path == "" then [] else ("playbook_path", text tmpl.playbook_path) ∷ [])
