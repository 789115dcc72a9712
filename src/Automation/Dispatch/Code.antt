-- ===== src/Automation/Dispatch/Code.antt =====
-- The code that the dispatchers hand over with a run: _params.py, job_templates.py, internal.py.
use seyal_run.Prelude.{
  is_some, ◌||◌, [], String, ◌≡◌, refl, sym, subst, ap, ◌∙◌, inl, inr, Bool, true, false, not,
  Option, none, some, List, ◌∷◌, arith, ◌==◌, eq_iff, eq_refl, if◌then◌else◌, Bool-cases, all, mem,
  Dict, lookup, insert, lookup-insert, ok, guard-eq-ok, bind-eq-ok, ok-injective, Result-cases,
  and_true,
}
use seyal_run.Automation.{
  Param, text, merge, Field, Template, reserved_param_keys, filter_caller_params,
  template_code_params,
}
use seyal_run.Automation.Params.{lookup-accepted, lookup-merge-none}
use seyal_run.Automation.Runs.{
  new_run, live_run_id, any_production_hosts, Request, Request, Runs, Outcome, refused, held,
  started, no_executor, hand_over,
}
use seyal_run.Automation.Dispatch.{
  plain_request, effective_credential, create, first_status, run_targets, World, Payload,
  field_passes, field_value, check_fields, with_arguments, with_subject, stored_params,
  control_params, run_params, run_template, create_run_internal,
}

-- The column of the template for the key.
abbrev pub code_column : String → Template → String
code_column k tmpl = if k == "script_content" then tmpl.script_content else tmpl.playbook_path

-- What a run finds under the key: the template's column, or its default where that is empty.
abbrev pub column_or_default : String → Template → Option Param
column_or_default k tmpl =
    if code_column k tmpl == ""
    then lookup k tmpl.default_params
    else some (text (code_column k tmpl))

-- What holds for both keys.
reserved-cases :
    (P : String → Type 0) (k : String)
    → mem k reserved_param_keys ≡ true
    → P "script_content"
    → P "playbook_path"
    → P k
unfolding mem
reserved-cases P k r s p = elim (Bool-cases (k == "script_content")) [
  | inl e ↦ subst P (sym ((eq_iff k "script_content").0 e)) s
  | inr e ↦ subst P (sym ((eq_iff k "playbook_path").0 (ground (arith, r, e)))) p
]

other_key :
    (k j : String) (v : Param) (d : Dict Param)
    → j == k ≡ false
    → lookup k (insert j v d) ≡ lookup k d
other_key k j v d e = lookup-insert j k v d ∙ rw e refl

own_key : (k : String) (v : Param) (d : Dict Param) → lookup k (insert k v d) ≡ some v
own_key k v d = lookup-insert k k v d ∙ rw (eq_refl k) refl

abbrev Covers : Template → Dict Param → String → Type 0
Covers tmpl d k =
    lookup k d ≡ lookup k tmpl.default_params
    → lookup k (merge d (template_code_params tmpl)) ≡ column_or_default k tmpl

script-Covers : (tmpl : Template) (d : Dict Param) → Covers tmpl d "script_content"
unfolding template_code_params merge
script-Covers tmpl d h =
    let k : String = "script_content" in
    let s = text tmpl.script_content in
    let p = text tmpl.playbook_path in
    elim (Bool-cases (tmpl.script_content == "")) [
      | inl e ↦ elim (Bool-cases (tmpl.playbook_path == "")) [
        | inl f ↦ rw (template_code_params, e, f) h
        | inr f ↦ rw (template_code_params, e, f) (other_key k "playbook_path" p d refl ∙ h)
      ]
      | inr e ↦ elim (Bool-cases (tmpl.playbook_path == "")) [
        | inl f ↦ rw (template_code_params, e, f) (own_key k s d)
        | inr f ↦
            rw (template_code_params, e, f)
              (other_key k "playbook_path" p (insert k s d) refl ∙ own_key k s d)
      ]
    ]

playbook-Covers : (tmpl : Template) (d : Dict Param) → Covers tmpl d "playbook_path"
unfolding template_code_params merge
playbook-Covers tmpl d h =
    let k : String = "playbook_path" in
    let s = text tmpl.script_content in
    let p = text tmpl.playbook_path in
    elim (Bool-cases (tmpl.playbook_path == "")) [
      | inl f ↦ elim (Bool-cases (tmpl.script_content == "")) [
        | inl e ↦ rw (template_code_params, e, f) h
        | inr e ↦ rw (template_code_params, e, f) (other_key k "script_content" s d refl ∙ h)
      ]
      | inr f ↦ elim (Bool-cases (tmpl.script_content == "")) [
        | inl e ↦ rw (template_code_params, e, f) (own_key k p d)
        | inr e ↦ rw (template_code_params, e, f) (own_key k p (insert "script_content" s d))
      ]
    ]

code-Covers :
    (tmpl : Template) (d : Dict Param) (k : String)
    → mem k reserved_param_keys ≡ true
    → Covers tmpl d k
code-Covers tmpl d k r =
    reserved-cases (Covers tmpl d) k r (script-Covers tmpl d) (playbook-Covers tmpl d)

-- A key that is put in under a test.
insert_if :
    (k j : String) (v : Param) (d : Dict Param) (b : Bool)
    → j == k ≡ false
    → lookup k (if b then insert j v d else d) ≡ lookup k d
insert_if k j v d true e = other_key k j v d e
insert_if k j v d false e = refl

insert_option :
    (k j : String) (d : Dict Param) (b : Bool) (o : Option String)
    → j == k ≡ false
    → lookup k
        (if b then elim o [ none ↦ d | some c ↦ if c == "" then d else insert j (text c) d ] else d)
      ≡ lookup k d
insert_option k j d true none e = refl
insert_option k j d true (some c) e = elim (Bool-cases (c == "")) [
  | inl f ↦ rw f refl
  | inr f ↦ rw f (other_key k j (text c) d e)
]
insert_option k j d false o e = refl

-- Where the runner gets the run, it gets the code of the template under the key.
abbrev pub RunsTemplate : String → Template → Outcome → Type 0
RunsTemplate k tmpl (started id request) = lookup k request.params ≡ column_or_default k tmpl
RunsTemplate k tmpl _ = Unit

handed :
    (k : String) (tmpl : Template) (b : Bool) (run_id : String) (request : Request)
    → lookup k request.params ≡ column_or_default k tmpl
    → RunsTemplate k tmpl (if b then started run_id request else no_executor run_id)
handed k tmpl true run_id request c = c
handed k tmpl false run_id request c = tt

-- A call of one of the two handlers that take parameters of a caller.
pub data Call : Type 0 where
  by_webhook : Dict Param → List String → Call
  by_hand : Payload → Call

-- On the manual path, no survey field has the name.
abbrev pub IsUndeclared : String → Template → Call → Type 0
IsUndeclared k tmpl (by_webhook supplied hosts) = Unit
IsUndeclared k tmpl (by_hand payload) =
    all (λ f. not (f.name == k)) tmpl.survey_schema.fields ≡ true

module _ (w : World) where
  lookup-check_fields :
      (k : String) (fs : List Field) (d d' : Dict Param)
      → all (λ f. not (f.name == k)) fs ≡ true
      → check_fields w fs d ≡ ok d'
      → lookup k d' ≡ lookup k d
  unfolding check_fields
  lookup-check_fields k [] d d' a h = ap (λ x. lookup k x) (sym (ok-injective h))
  lookup-check_fields k (f ∷ fs) d d' a h =
      let (n, ns) = and_true (not (f.name == k)) _ a in
      let (_, h') = guard-eq-ok (field_passes w f (field_value w f d)) 400 _ h in
      lookup-check_fields k fs (insert f.name (text (field_value w f d)) d) d' ns h'
      ∙ other_key k f.name (text (field_value w f d)) d (ground (arith, n))

  lookup-with_arguments :
      (tmpl : Template) (d : Dict Param) (k : String)
      → mem k reserved_param_keys ≡ true
      → lookup k (with_arguments w tmpl d) ≡ lookup k d
  lookup-with_arguments tmpl d k r =
      insert_if k "script_args" _ d _
        (reserved-cases (λ k. "script_args" == k ≡ false) k r refl refl)

  lookup-with_subject :
      (tmpl : Template) (d : Dict Param) (k : String)
      → mem k reserved_param_keys ≡ true
      → lookup k (with_subject w tmpl d) ≡ lookup k d
  unfolding with_subject
  lookup-with_subject tmpl d k r =
      insert_option k "subject_credential_id" d _ tmpl.subject_credential_id
        (reserved-cases (λ k. "subject_credential_id" == k ≡ false) k r refl refl)

  lookup-stored_params :
      (tmpl : Template) (p : Payload) (run_id : String) (d : Dict Param) (k : String)
      → mem k reserved_param_keys ≡ true
      → lookup k (stored_params w tmpl p run_id d) ≡ lookup k d
  unfolding stored_params control_params lookup
  lookup-stored_params tmpl p run_id d k r =
      reserved-cases (λ k. lookup k (stored_params w tmpl p run_id d) ≡ lookup k d) k r
        (lookup-merge-none "script_content" d (control_params w tmpl p run_id) refl)
        (lookup-merge-none "playbook_path" d (control_params w tmpl p run_id) refl)

  if-RunsTemplate :
      (k : String) (tmpl : Template) (b : Bool) (x y : Outcome × Runs)
      → RunsTemplate k tmpl x.0
      → RunsTemplate k tmpl y.0
      → RunsTemplate k tmpl (if b then x else y).0
  if-RunsTemplate k tmpl true x y h g = h
  if-RunsTemplate k tmpl false x y h g = g

  create-RunsTemplate :
      (k : String) (tmpl : Template) (hold : Bool) (run_id : String) (request : Request)
      → lookup k request.params ≡ column_or_default k tmpl
      → RunsTemplate k tmpl (if hold then held run_id else hand_over w.executors run_id request)
  unfolding mem
  create-RunsTemplate k tmpl true run_id request c = tt
  create-RunsTemplate k tmpl false run_id request c =
      handed k tmpl (mem request.action_type w.executors) run_id request c

  lookup-run_params :
      (tmpl : Template) (payload : Payload) (params : Dict Param) (k : String)
      → mem k reserved_param_keys ≡ true
      → all (λ f. not (f.name == k)) tmpl.survey_schema.fields ≡ true
      → run_params w tmpl payload ≡ ok params
      → lookup k params ≡ lookup k tmpl.default_params
  unfolding run_params
  lookup-run_params tmpl payload params k r a =
      elim (Result-cases (filter_caller_params tmpl payload.params)) [
        | inr (bad, p) ↦ rw (run_params, p) λ h. cc
        | inl (caller, p) ↦
            rw (run_params, p)
              λ h.
                let start = merge tmpl.default_params caller in
                let (checked, c, d) =
                  bind-eq-ok (check_fields w tmpl.survey_schema.fields start) _ h in
                ap (λ x. lookup k x) (sym (ok-injective d))
                ∙ lookup-with_subject tmpl (with_arguments w tmpl checked) k r
                ∙ lookup-with_arguments tmpl checked k r
                ∙ lookup-check_fields k tmpl.survey_schema.fields start checked a c
                ∙ lookup-accepted tmpl payload.params caller k p r
      ]

  webhook-RunsTemplate :
      (templates : Dict Template) (tmpl : Template) (template_id run_id trigger k : String)
      (runs : Runs) (supplied : Dict Param) (hosts : List String)
      → lookup template_id templates ≡ some tmpl
      → mem k reserved_param_keys ≡ true
      → RunsTemplate k tmpl
          (create_run_internal w templates template_id supplied hosts run_id trigger runs).0
  unfolding create_run_internal
  webhook-RunsTemplate templates tmpl template_id run_id trigger k runs supplied hosts e r =
      elim (Result-cases (filter_caller_params tmpl supplied)) [
        | inr (bad, p) ↦ rw (create_run_internal, e, p) tt
        | inl (caller, p) ↦
            rw (create_run_internal, e, p)
              (create-RunsTemplate k tmpl
                (any_production_hosts w.check_production (run_targets w hosts tmpl)) run_id
                (plain_request w tmpl (run_targets w hosts tmpl)
                  (merge (merge tmpl.default_params caller) (template_code_params tmpl)) trigger)
                (code-Covers tmpl (merge tmpl.default_params caller) k r
                  (lookup-accepted tmpl supplied caller k p r)))
      ]

  manual-RunsTemplate :
      (templates : Dict Template) (tmpl : Template) (template_id run_id trigger k : String)
      (runs : Runs) (payload : Payload)
      → lookup template_id templates ≡ some tmpl
      → mem k reserved_param_keys ≡ true
      → all (λ f. not (f.name == k)) tmpl.survey_schema.fields ≡ true
      → RunsTemplate k tmpl (run_template w templates template_id payload run_id trigger runs).0
  unfolding run_template
  manual-RunsTemplate templates tmpl template_id run_id trigger k runs payload e r a =
      elim (Result-cases (run_params w tmpl payload)) [
        | inr (bad, p) ↦
            rw (run_template, e, p)
              (if-RunsTemplate k tmpl (not tmpl.enabled) (refused 400, runs) (refused bad, runs) tt
                tt)
        | inl (params, p) ↦
            let stored = stored_params w tmpl payload run_id params in
            let same =
              lookup-stored_params tmpl payload run_id params k r
              ∙ lookup-run_params tmpl payload params k r a p in
            let targets = run_targets w payload.target_host_ids tmpl in
            let hold = tmpl.requires_approval || any_production_hosts w.check_production targets in
            let request : Request = record {
              action_type = tmpl.action_type;
              target_host_ids = targets;
              credential_id = some (effective_credential w tmpl payload);
              params = merge stored (template_code_params tmpl);
              triggered_by = trigger;
            } in
            let made =
              create w hold run_id (new_run w.now template_id trigger (first_status w hold) stored)
                request runs in
            let busy = is_some (live_run_id template_id runs) in
            rw (run_template, e, p)
              (if-RunsTemplate k tmpl (not tmpl.enabled) (refused 400, runs)
                (if busy then (refused 409, runs) else made) tt
                (if-RunsTemplate k tmpl busy (refused 409, runs) made tt
                  (create-RunsTemplate k tmpl hold run_id request
                    (code-Covers tmpl stored k r same))))
      ]

  abbrev pub outcome_of : Dict Template → String → String → String → Runs → Call → Outcome
  outcome_of templates template_id run_id trigger runs (by_webhook supplied hosts) =
      (create_run_internal w templates template_id supplied hosts run_id trigger runs).0
  outcome_of templates template_id run_id trigger runs (by_hand payload) =
      (run_template w templates template_id payload run_id trigger runs).0

  -- When create_run_internal, or run_template for a template without a survey field of the name,
  -- hands a run to the runner, the runner gets, under either of the two keys that select the code
  -- of a run, the template's column, and the template's default where the column is empty, whatever
  -- parameters the caller supplies.
  pub code_from_template :
      (templates : Dict Template) (tmpl : Template) (template_id run_id trigger k : String)
      (runs : Runs) (c : Call)
      → lookup template_id templates ≡ some tmpl
      → mem k reserved_param_keys ≡ true
      → IsUndeclared k tmpl c
      → RunsTemplate k tmpl (outcome_of templates template_id run_id trigger runs c)
  code_from_template templates tmpl template_id run_id trigger k runs (by_webhook supplied hosts) e
        r a =
      webhook-RunsTemplate templates tmpl template_id run_id trigger k runs supplied hosts e r
  code_from_template templates tmpl template_id run_id trigger k runs (by_hand payload) e r a =
      manual-RunsTemplate templates tmpl template_id run_id trigger k runs payload e r a
