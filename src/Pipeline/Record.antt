-- ===== src/Pipeline/Record.antt =====
-- The records of a whole run (internal/pipeline/runner.go, audit.go).
use baxi.Base.{
  ◌≡◌, refl, ◌∙◌, sym, ap, ◌≢◌, ◌⊎◌, inl, inr, ◌||◌, Bool, false, Option, none, some, List, [], ◌∷◌,
  ◌++◌, String, ◌==◌, ℤ, ℕ, ◌+◌, ◌≤◌, ◌<◌, arith, Option-cases, Result-cases, Bool-cases, eq_refl,
}
use baxi.Pipeline.{
  begin, commit, insert_step_run, update_step_run, insert_run, update_run, Step, StepOutput,
  StepRun, PipelineRun, World, Env, RunInput, create_run, complete_run, create_step_run,
  complete_step_run, fail_step, end_step, transact, run_step, run_steps, end_run, run, close_run,
  null_if_empty,
}
use baxi.Pipeline.Data.{outcome-cases, run_steps_failed, run_steps_fine}
use baxi.Pipeline.Trail.{Matches, has_id, run_steps-Trail}

abbrev pub has_run : String → List PipelineRun → Bool
has_run id [] = false
has_run id (r ∷ rs) = r.run_id == id || has_run id rs

close_run-snoc :
    (now : ℤ) (id status message : String) (rs : List PipelineRun) (r : PipelineRun)
    → has_run id rs ≡ false
    → r.run_id ≡ id
    → close_run now id status message (rs ++ r ∷ [])
      ≡ rs
        ++ record r {
          status = status;
          finished_at = some now;
          error_message = null_if_empty message;
        }
          ∷ []
close_run-snoc now id status message [] r fresh is_id = rw (is_id, eq_refl id) refl
close_run-snoc now id status message (s ∷ rs) r fresh is_id = elim (Bool-cases (s.run_id == id)) [
  | inl same ↦ absurd (ground arith)
  | inr other ↦
      let rest = close_run-snoc now id status message rs r (ground arith) is_id in
      rw (other, rest) refl
]

module _ {Data : Type 0} where
  fail_step-runs :
      (env : Env) (order : ℕ) (m reported : String) (w : World Data)
      → (fail_step env order m reported w).1.runs ≡ w.runs
  unfolding complete_step_run
  fail_step-runs env order m reported w = elim (Option-cases (env.driver (update_step_run order))) [
    | inl accepted ↦ rw (accepted, complete_step_run) refl
    | inr (e, refused) ↦ rw (refused, complete_step_run) refl
  ]

  end_step-runs :
      (env : Env) (order : ℕ) (name : String) (o : Option StepOutput) (w : World Data)
      → (end_step env order name o w).1.runs ≡ w.runs
  unfolding complete_step_run
  end_step-runs env order name o w = elim (Option-cases (env.driver (update_step_run order))) [
    | inl accepted ↦ rw (accepted, end_step, complete_step_run) refl
    | inr (e, refused) ↦ rw (refused, end_step, complete_step_run) refl
  ]

  transact-runs :
      (env : Env) (order : ℕ) (step : Step Data) (w : World Data)
      → (transact env order step w).1.runs ≡ w.runs
  unfolding transact
  transact-runs env order step w = elim (Option-cases (env.driver (begin order))) [
    | inr (m, refused) ↦ rw (refused, transact) (fail_step-runs env order m "" w)
    | inl begun ↦ elim (Result-cases (step.work w.stored)) [
      | inr (m, failed) ↦ rw (begun, failed, transact) (fail_step-runs env order m "" w)
      | inl ((d, o), worked) ↦ elim (Option-cases (env.driver (commit order))) [
        | inr (m, refused) ↦ rw (begun, worked, refused, transact) (fail_step-runs env order m "" w)
        | inl committed ↦
            rw (begun, worked, committed, transact)
              (end_step-runs env order step.name o (record w { stored = d }))
      ]
    ]
  ]

  run_step-runs :
      (env : Env) (order : ℕ) (step : Step Data) (w : World Data)
      → (run_step env order step w).1.runs ≡ w.runs
  unfolding run_step create_step_run
  run_step-runs env order step w = elim (Option-cases (env.driver (insert_step_run order))) [
    | inr (m, refused) ↦ rw (refused, run_step, create_step_run) refl
    | inl accepted ↦ rw (accepted, run_step, create_step_run) (transact-runs env order step _)
  ]

  run_steps-runs :
      (env : Env) (order : ℕ) (steps : List (Step Data)) (w : World Data)
      → (run_steps env order steps w).1.runs ≡ w.runs
  unfolding run_steps
  run_steps-runs env order [] w = refl
  run_steps-runs env order (step ∷ steps) w = elim (outcome-cases (run_step env order step w)) [
    | inl (m, w1, failed) ↦
        rw (run_steps_failed env order step steps w w1 m failed)
          (ap (λ r. r.1.runs) (sym failed) ∙ run_step-runs env order step w)
    | inr (w1, fine) ↦ rw (run_steps_fine env order step steps w w1 fine) (
        run_steps-runs env (order + 1) steps w1
        ∙ (ap (λ r. r.1.runs) (sym fine) ∙ run_step-runs env order step w))
  ]

  -- The records that a run leaves: one of the run, closed with the status of its outcome, and those of
  -- its steps.
  pub record Audited (env : Env) (steps : List (Step Data)) (w : World Data) (e : Option String)
      (w' : World Data) : Type 0 where
    pub step_rows : List StepRun
    pub steps_added : w'.step_runs ≡ w.step_runs ++ step_rows
    pub steps_match : Matches env 0 steps e step_rows
    pub run_row : PipelineRun
    pub run_added : w'.runs ≡ w.runs ++ run_row ∷ []
    pub is_run : run_row.run_id ≡ env.run_id
    pub finished : run_row.finished_at ≡ some env.now
    pub outcome :
        ((run_row.status ≡ "completed") × (e ≡ none))
        ⊎ ((run_row.status ≡ "failed") × (m : String) × (e ≡ some m))

  -- The outcome of the loop, closed.
  end_run-Audited :
      (env : Env) (steps : List (Step Data)) (w : World Data) (e : Option String) (w1 : World Data)
      (row : PipelineRun) (rows : List StepRun)
      → env.driver update_run ≡ none
      → has_run env.run_id w.runs ≡ false
      → row.run_id ≡ env.run_id
      → w1.runs ≡ w.runs ++ row ∷ []
      → w1.step_runs ≡ w.step_runs ++ rows
      → Matches env 0 steps e rows
      → Audited env steps w (end_run env (e, w1)).0 (end_run env (e, w1)).1
  unfolding complete_run
  end_run-Audited env steps w none w1 row rows accepted fresh is_run runs added matches =
      rw (accepted, end_run, complete_run)
        (record {
          step_rows = rows;
          steps_added = added;
          steps_match = matches;
          run_row = record row {
            status = "completed";
            finished_at = some env.now;
            error_message = none;
          };
          run_added =
              ap (close_run env.now env.run_id "completed" "") runs
              ∙ close_run-snoc env.now env.run_id "completed" "" w.runs row fresh is_run;
          is_run = is_run;
          finished = refl;
          outcome = inl (refl, refl);
        })
  end_run-Audited env steps w (some m) w1 row rows accepted fresh is_run runs added matches =
      rw (accepted, complete_run)
        (record {
          step_rows = rows;
          steps_added = added;
          steps_match = matches;
          run_row = record row {
            status = "failed";
            finished_at = some env.now;
            error_message = null_if_empty m;
          };
          run_added =
              ap (close_run env.now env.run_id "failed" m) runs
              ∙ close_run-snoc env.now env.run_id "failed" m w.runs row fresh is_run;
          is_run = is_run;
          finished = refl;
          outcome = inr (refl, m, refl);
        })

  -- Where the audit statements are carried out and the ids are new and distinct, a run adds one record
  -- of itself, which ends as completed or failed as the run does, and one for each step that it came to,
  -- in their order: all completed, but for a failed one at the end exactly if the run fails.
  pub run-Audited :
      (env : Env) (input : RunInput) (steps : List (Step Data)) (w : World Data)
      → env.driver insert_run ≡ none
      → env.driver update_run ≡ none
      → ((n : ℕ) → env.driver (insert_step_run n) ≡ none)
      → ((n : ℕ) → env.driver (update_step_run n) ≡ none)
      → ((i j : ℕ) → i < j → env.step_run_id i ≢ env.step_run_id j)
      → ((n : ℕ) → 0 ≤ n → has_id (env.step_run_id n) w.step_runs ≡ false)
      → has_run env.run_id w.runs ≡ false
      → Audited env steps w (run env input steps w).0 (run env input steps w).1
  unfolding run create_run
  run-Audited env input steps w inserted updated inserts updates distinct unused fresh =
      rw (inserted, run, create_run)
        (let (rows, added, matches) =
            run_steps-Trail env inserts updates distinct 0 steps _ unused in
          end_run-Audited env steps w _ _ _ rows updated fresh refl (run_steps-runs env 0 steps _)
            added matches)
