-- ===== src/Automation/Runner/Execute.antt =====
-- The row of a run after the runner has executed it, and the cache of disabled executors.
use seyal_run.Prelude.{
  ℕ, ◌+◌, ◌-◌, ◌≤◌, String, ◌≡◌, refl, ◌⊎◌, inl, inr, true, false, none, some, List, arith, eq_refl,
  ltb, Bool-cases, Option-cases, lookup, lookup-insert,
}
use seyal_run.Automation.Runs.{Run, Runs}
use seyal_run.Automation.Runner.{
  StateCache, get_state, state_ttl, executor_disabled, Finish, newer, finish_run,
}

pub lookup-finish_run :
    (now : ℕ) (id : String) (f : Finish) (runs : Runs) (run : Run)
    → lookup id runs ≡ some run
    → lookup id (finish_run now id f runs)
      ≡ some (record run {
        status = f.final_status;
        exit_code = f.exit_code;
        diff_summary = newer f.diff_summary run.diff_summary;
        ended_at = some now;
      })
unfolding finish_run
lookup-finish_run now id f runs run e =
    rw
      (
        finish_run,
        e,
        lookup-insert id id
            (record run {
              status = f.final_status;
              exit_code = f.exit_code;
              diff_summary = newer f.diff_summary run.diff_summary;
              ended_at = some now;
            })
            runs,
        eq_refl id,
      )
      refl

get_state-read :
    (t : ℕ) (fresh : List String) (cache : StateCache)
    → (cache.disabled ≡ none) ⊎ (cache.at + state_ttl ≤ t)
    → (get_state t (some fresh) cache).1 ≡ record { at = t; disabled = some fresh }
unfolding get_state
get_state-read t fresh cache (inl h) = rw (get_state, h) refl
get_state-read t fresh cache (inr h) =
    let late : ltb (t - cache.at) state_ttl ≡ false = ground (arith, h) in
    elim (Option-cases cache.disabled) [
      | inl e ↦ rw (get_state, e) refl
      | inr (known, e) ↦ rw (get_state, e, late) refl
    ]

get_state-kept :
    (t now : ℕ) (fresh : List String)
    → (get_state now none (record { at = t; disabled = some fresh })).0 ≡ fresh
unfolding get_state
get_state-kept t now fresh = elim (Bool-cases (ltb (now - t) state_ttl)) [
  | inl e ↦ rw (e) refl
  | inr e ↦ rw (e) refl
]

-- Once the disabled executors have been read, a lookup that fails, however late, answers with the
-- last good reading, so an executor that was disabled stays disabled.
pub disabled_survives_outage :
    (t now : ℕ) (fresh : List String) (cache : StateCache) (name : String)
    → (cache.disabled ≡ none) ⊎ (cache.at + state_ttl ≤ t)
    → executor_disabled fresh name ≡ true
    → executor_disabled (get_state now none (get_state t (some fresh) cache).1).0 name ≡ true
disabled_survives_outage t now fresh cache name h k =
    rw (get_state-read t fresh cache h, get_state-kept t now fresh) k
