-- ===== src/Pipeline/Trail.antt =====
-- What a run leaves in the audit tables (internal/pipeline/runner.go, audit.go).
use mathlib.Core.Path.{subst}
use baxi.Base.{
  ◌≡◌, refl, ◌∙◌, sym, ap, ◌≢◌, ◌⊎◌, inl, inr, ◌||◌, Bool, false, Option, none, some, List, [], ◌∷◌,
  ◌++◌, String, ◌==◌, ℤ, ℕ, ◌+◌, ◌≤◌, ◌<◌, arith, Option-cases, Result-cases, Bool-cases,
  snoc-append, append-nil, eq_refl, ==_of_ne, pos,
}
use baxi.Pipeline.{
  begin, commit, insert_step_run, update_step_run, Step, StepOutput, StepRun, World, Env,
  create_step_run, complete_step_run, fail_step, end_step, transact, run_step, run_steps, step_row,
  close_step, null_if_empty, counts_of,
}
use baxi.Pipeline.Data.{outcome-cases, run_steps_failed, run_steps_fine}

abbrev pub has_id : String → List StepRun → Bool
has_id id [] = false
has_id id (r ∷ rs) = r.step_run_id == id || has_id id rs

abbrev closed : ℤ → String → ℤ × ℤ → String → StepRun → StepRun
closed now status counts message r = record r {
  status = status;
  finished_at = some now;
  counts = counts;
  error_message = null_if_empty message;
}

-- Closing the record that was added last.
close_step-snoc :
    (now : ℤ) (id status : String) (counts : ℤ × ℤ) (message : String) (rs : List StepRun)
    (r : StepRun)
    → has_id id rs ≡ false
    → r.step_run_id ≡ id
    → close_step now id status counts message (rs ++ r ∷ [])
      ≡ rs ++ closed now status counts message r ∷ []
close_step-snoc now id status counts message [] r fresh is_id = rw (is_id, eq_refl id) refl
close_step-snoc now id status counts message (s ∷ rs) r fresh is_id =
    elim (Bool-cases (s.step_run_id == id)) [
      | inl same ↦ absurd (ground arith)
      | inr other ↦
          let rest = close_step-snoc now id status counts message rs r (ground arith) is_id in
          rw (other, rest) refl
    ]

has_id-snoc :
    (id : String) (rs : List StepRun) (r : StepRun)
    → has_id id rs ≡ false
    → (r.step_run_id == id) ≡ false
    → has_id id (rs ++ r ∷ []) ≡ false
has_id-snoc id [] r fresh other = ground arith
has_id-snoc id (s ∷ rs) r fresh other = ground (arith, has_id-snoc id rs r)

-- The record of a step, once it is closed.
pub record Recorded (env : Env) (order : ℕ) (name status : String) (row : StepRun) : Type 0 where
  pub has_key : row.step_run_id ≡ env.step_run_id order
  pub of_run : row.pipeline_run_id ≡ env.run_id
  pub at_place : row.step_order ≡ order
  pub named : row.step_name ≡ name
  pub has_status : row.status ≡ status
  pub finished : row.finished_at ≡ some env.now

close_Recorded :
    (env : Env) (order : ℕ) (name status message : String) (counts : ℤ × ℤ)
    → Recorded env order name status
        (closed env.now status counts message (step_row env name order))
close_Recorded env order name status message counts = record {
  has_key = refl;
  of_run = refl;
  at_place = refl;
  named = refl;
  has_status = refl;
  finished = refl;
}

-- The ids from the place on are unused.
abbrev pub Unused : Env → ℕ → List StepRun → Type 0
Unused env order rows = (n : ℕ) → order ≤ n → has_id (env.step_run_id n) rows ≡ false

Unused-snoc :
    (env : Env) (order : ℕ) (rows : List StepRun) (row : StepRun)
    → ((i j : ℕ) → i < j → env.step_run_id i ≢ env.step_run_id j)
    → row.step_run_id ≡ env.step_run_id order
    → Unused env order rows
    → Unused env (order + 1) (rows ++ row ∷ [])
Unused-snoc env order rows row distinct is_id unused n later =
    has_id-snoc (env.step_run_id n) rows row (unused n (omega (arith, later))) (
      ap (λ s. s == env.step_run_id n) is_id
      ∙ ==_of_ne (env.step_run_id order) (env.step_run_id n)
          (distinct order n (omega (arith, later))))

module _ {Data : Type 0} where
  -- Records for the steps in their order, each completed, up to a failed one, which is the last; there is an
  -- error exactly if one has failed.
  abbrev pub Matches : Env → ℕ → List (Step Data) → Option String → List StepRun → Type 0
  Matches env order [] e rows = (rows ≡ []) × (e ≡ none)
  Matches env order (step ∷ steps) e rows =
      (row : StepRun) × (rest : List StepRun) × (rows ≡ row ∷ rest)
      × ((Recorded env order step.name "completed" row × Matches env (order + 1) steps e rest)
          ⊎ (Recorded env order step.name "failed" row × (rest ≡ []) × (m : String) × (e ≡ some m)))

  -- One step has added its closed record.
  abbrev StepTrail : Env → ℕ → Step Data → List StepRun → Option String × World Data → Type 0
  StepTrail env order step before (e, w) =
      (row : StepRun) × (w.step_runs ≡ before ++ row ∷ [])
      × ((Recorded env order step.name "completed" row × (e ≡ none))
          ⊎ (Recorded env order step.name "failed" row × (m : String) × (e ≡ some m)))

  module _ (env : Env) (inserts : (n : ℕ) → env.driver (insert_step_run n) ≡ none)
      (updates : (n : ℕ) → env.driver (update_step_run n) ≡ none) where
    fail_step-Trail :
        (order : ℕ) (step : Step Data) (m reported : String) (rows : List StepRun) (w : World Data)
        → has_id (env.step_run_id order) rows ≡ false
        → w.step_runs ≡ rows ++ step_row env step.name order ∷ []
        → StepTrail env order step rows (fail_step env order m reported w)
    unfolding complete_step_run
    fail_step-Trail order step m reported rows w fresh running = (
      closed env.now "failed" (pos 0, pos 0) m (step_row env step.name order),
      rw (updates order, complete_step_run)
          (ap (close_step env.now (env.step_run_id order) "failed" (pos 0, pos 0) m) running
            ∙ close_step-snoc env.now (env.step_run_id order) "failed" (pos 0, pos 0) m rows
                (step_row env step.name order) fresh refl),
      inr (close_Recorded env order step.name "failed" m (pos 0, pos 0), reported, refl),
    )

    end_step-Trail :
        (order : ℕ) (step : Step Data) (o : Option StepOutput) (rows : List StepRun)
        (w : World Data)
        → has_id (env.step_run_id order) rows ≡ false
        → w.step_runs ≡ rows ++ step_row env step.name order ∷ []
        → StepTrail env order step rows (end_step env order step.name o w)
    unfolding complete_step_run
    end_step-Trail order step o rows w fresh running = (
      closed env.now "completed" (counts_of o) "" (step_row env step.name order),
      rw (updates order, end_step, complete_step_run)
          (ap (close_step env.now (env.step_run_id order) "completed" (counts_of o) "") running
            ∙ close_step-snoc env.now (env.step_run_id order) "completed" (counts_of o) "" rows
                (step_row env step.name order) fresh refl),
      inl (
        close_Recorded env order step.name "completed" "" (counts_of o),
        rw (updates order, end_step, complete_step_run) refl,
      ),
    )

    transact-Trail :
        (order : ℕ) (step : Step Data) (rows : List StepRun) (w : World Data)
        → has_id (env.step_run_id order) rows ≡ false
        → w.step_runs ≡ rows ++ step_row env step.name order ∷ []
        → StepTrail env order step rows (transact env order step w)
    unfolding transact
    transact-Trail order step rows w fresh running =
        elim (Option-cases (env.driver (begin order))) [
          | inr (m, refused) ↦
              rw (refused, transact) (fail_step-Trail order step m _ rows w fresh running)
          | inl begun ↦ elim (Result-cases (step.work w.stored)) [
            | inr (m, failed) ↦
                rw (begun, failed, transact) (fail_step-Trail order step m _ rows w fresh running)
            | inl ((d, o), worked) ↦ elim (Option-cases (env.driver (commit order))) [
              | inr (m, refused) ↦
                  rw (begun, worked, refused, transact)
                    (fail_step-Trail order step m _ rows w fresh running)
              | inl committed ↦
                  rw (begun, worked, committed, transact)
                    (end_step-Trail order step o rows (record w { stored = d }) fresh running)
            ]
          ]
        ]

    run_step-Trail :
        (order : ℕ) (step : Step Data) (w : World Data)
        → has_id (env.step_run_id order) w.step_runs ≡ false
        → StepTrail env order step w.step_runs (run_step env order step w)
    unfolding run_step create_step_run
    run_step-Trail order step w fresh =
        rw (inserts order, run_step, create_step_run)
          (transact-Trail order step w.step_runs _ fresh refl)

    module _ (distinct : (i j : ℕ) → i < j → env.step_run_id i ≢ env.step_run_id j) where
      -- The rows that the loop adds.
      abbrev pub LoopTrail :
          ℕ → List (Step Data) → List StepRun → Option String × World Data → Type 0
      LoopTrail order steps before (e, w) =
          (rows : List StepRun) × (w.step_runs ≡ before ++ rows) × Matches env order steps e rows

      loop_stopped :
          (order : ℕ) (step : Step Data) (steps : List (Step Data)) (before : List StepRun)
          (m : String) (w : World Data)
          → StepTrail env order step before (some m, w)
          → LoopTrail order (step ∷ steps) before (some m, w)
      loop_stopped order step steps before m w (row, added, inl (recorded, fine)) = absurd (cc)
      loop_stopped order step steps before m w (row, added, inr (recorded, m', is)) =
          (row ∷ [], added, (row, [], refl, inr (recorded, refl, m', is)))

      loop_continued :
          (order : ℕ) (step : Step Data) (steps : List (Step Data)) (before : List StepRun)
          (w : World Data) (r : Option String × World Data)
          → StepTrail env order step before (none, w)
          → LoopTrail (order + 1) steps w.step_runs r
          → LoopTrail order (step ∷ steps) before r
      loop_continued order step steps before w r (row, added, inr (recorded, m, other)) h =
          absurd (cc)
      loop_continued order step steps before w (e, w') (row, added, inl (recorded, fine))
            (rows, more, matches) =
          (
            row ∷ rows,
            more ∙ (ap (λ l. l ++ rows) added ∙ snoc-append before row rows),
            (row, rows, refl, inl (recorded, matches)),
          )

      step_key :
          (order : ℕ) (step : Step Data) (before : List StepRun) (w : World Data)
          → StepTrail env order step before (none, w)
          → Unused env order before
          → Unused env (order + 1) w.step_runs
      step_key order step before w (row, added, inl (recorded, fine)) unused n later =
          ap (has_id (env.step_run_id n)) added
          ∙ Unused-snoc env order before row distinct recorded.has_key unused n later
      step_key order step before w (row, added, inr (recorded, m, other)) unused n later =
          absurd (cc)

      pub run_steps-Trail :
          (order : ℕ) (steps : List (Step Data)) (w : World Data)
          → Unused env order w.step_runs
          → LoopTrail order steps w.step_runs (run_steps env order steps w)
      unfolding run_steps
      run_steps-Trail order [] w unused = ([], sym (append-nil w.step_runs), (refl, refl))
      run_steps-Trail order (step ∷ steps) w unused =
          let trail = run_step-Trail order step w (unused order (omega arith)) in
          elim (outcome-cases (run_step env order step w)) [
            | inl (m, w1, failed) ↦ rw (run_steps_failed env order step steps w w1 m failed) (
                loop_stopped order step steps w.step_runs m w1
                  (subst (StepTrail env order step w.step_runs) failed trail))
            | inr (w1, fine) ↦
                let first = subst (StepTrail env order step w.step_runs) fine trail in
                rw (run_steps_fine env order step steps w w1 fine) (
                  loop_continued order step steps w.step_runs w1
                    (run_steps env (order + 1) steps w1) first
                    (run_steps-Trail (order + 1) steps w1
                      (step_key order step w.step_runs w1 first unused)))
          ]
