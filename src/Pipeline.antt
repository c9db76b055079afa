-- ===== src/Pipeline.antt =====
-- The pipeline (internal/pipeline): steps that run one after the other, each in a transaction of its
-- own, and the records of them in the audit tables, which are written outside the transactions.
-- `Data` is what the steps read and write. Log lines are left out; the random ids are parameters.
pub mod Data
pub mod Trail
pub mod Record
mod Tests
use baxi.Base.{
  Bool, true, false, Option, none, some, List, [], ◌∷◌, ◌++◌, String, str_append, ◌==◌,
  if◌then◌else◌, ℤ, ℕ, ◌+◌, pos, Driver, Result, ok, err,
}

-- The statements of a run: those of a step are told apart by the step's place.
pub data Stmt : Type 0 where
  insert_run update_run : Stmt
  insert_step_run update_step_run begin commit : ℕ → Stmt

-- `StepOutput`.
pub record StepOutput : Type 0 where
  pub input_count : ℤ
  pub output_count : ℤ

-- A `Step`: an error discards what it did, since the transaction is rolled back. A nil output is
-- `none`.
pub record Step (Data : Type 0) : Type 0 where
  pub name : String
  pub work : Data → Result (Data × Option StepOutput)

-- A row of audit.pipeline_run.
pub record PipelineRun : Type 0 where
  pub run_id : String
  pub run_type : String
  pub mode : String
  pub status : String
  pub started_at : ℤ
  pub finished_at : Option ℤ
  pub error_message : Option String

-- A row of audit.pipeline_step_run.
pub record StepRun : Type 0 where
  pub step_run_id : String
  pub pipeline_run_id : String
  pub step_name : String
  pub step_order : ℕ
  pub status : String
  pub started_at : ℤ
  pub finished_at : Option ℤ
  pub counts : ℤ × ℤ
  pub error_message : Option String

pub record World (Data : Type 0) : Type 0 where
  pub stored : Data
  pub runs : List PipelineRun
  pub step_runs : List StepRun

pub record Env : Type 0 where
  pub driver : Driver Stmt
  pub now : ℤ
  pub run_id : String
  pub step_run_id : ℕ → String

-- `RunInput`; the directory of the files is a part of the steps.
pub record RunInput : Type 0 where
  pub run_type : String
  pub mode : String

-- `NULLIF($1, '')`.
abbrev pub null_if_empty : String → Option String
null_if_empty s = if s == "" then none else some s

abbrev pub close_run : ℤ → String → String → String → List PipelineRun → List PipelineRun
close_run now id status message [] = []
close_run now id status message (r ∷ rs) =
    (if r.run_id == id
      then record r {
        status = status;
        finished_at = some now;
        error_message = null_if_empty message;
      }
      else r)
    ∷ close_run now id status message rs

abbrev pub close_step : ℤ → String → String → ℤ × ℤ → String → List StepRun → List StepRun
close_step now id status counts message [] = []
close_step now id status counts message (r ∷ rs) =
    (if r.step_run_id == id
      then record r {
        status = status;
        finished_at = some now;
        counts = counts;
        error_message = null_if_empty message;
      }
      else r)
    ∷ close_step now id status counts message rs

abbrev pub step_row : Env → String → ℕ → StepRun
step_row env name order = record {
  step_run_id = env.step_run_id order;
  pipeline_run_id = env.run_id;
  step_name = name;
  step_order = order;
  status = "running";
  started_at = env.now;
  finished_at = none;
  counts = (pos 0, pos 0);
  error_message = none;
}

abbrev pub step_error : String → String → String → String
step_error what name m = str_append what (str_append name (str_append ": " m))

abbrev pub counts_of : Option StepOutput → ℤ × ℤ
counts_of none = (pos 0, pos 0)
counts_of (some o) = (o.input_count, o.output_count)

module _ {Data : Type 0} where
  -- `CreateRun`.
  unfoldable pub create_run : Env → RunInput → World Data → Result (World Data)
  create_run env input w = elim (env.driver insert_run) [
    | some m ↦ err (str_append "create pipeline run: " m)
    | none ↦ ok (record w {
      runs =
          w.runs
          ++ record {
            run_id = env.run_id;
            run_type = input.run_type;
            mode = input.mode;
            status = "running";
            started_at = env.now;
            finished_at = none;
            error_message = none;
          }
            ∷ [];
    })
  ]

  -- `CompleteRun`.
  unfoldable pub complete_run : Env → String → String → World Data → Result (World Data)
  complete_run env status message w = elim (env.driver update_run) [
    | some m ↦ err (str_append "complete pipeline run: " m)
    | none ↦ ok (record w { runs = close_run env.now env.run_id status message w.runs })
  ]

  -- `CreateStepRun`.
  unfoldable pub create_step_run : Env → String → ℕ → World Data → Result (World Data)
  create_step_run env name order w = elim (env.driver (insert_step_run order)) [
    | some m ↦ err (str_append "create step run for " (str_append name (str_append ": " m)))
    | none ↦ ok (record w { step_runs = w.step_runs ++ step_row env name order ∷ [] })
  ]

  -- `CompleteStepRun`.
  unfoldable pub complete_step_run :
      Env → ℕ → String → ℤ × ℤ → String → World Data → Result (World Data)
  complete_step_run env order status counts message w = elim (env.driver (update_step_run order)) [
    | some m ↦ err (str_append "complete step run: " m)
    | none ↦ ok (record w {
      step_runs = close_step env.now (env.step_run_id order) status counts message w.step_runs;
    })
  ]

  -- A call whose error is dropped.
  abbrev pub attempt : Result (World Data) → World Data → World Data
  attempt (ok w') w = w'
  attempt (err m) w = w

  -- The failure of a step after its record was created.
  abbrev pub fail_step : Env → ℕ → String → String → World Data → Option String × World Data
  fail_step env order m reported w =
      (some reported, attempt (complete_step_run env order "failed" (pos 0, pos 0) m w) w)

  -- `runStep` after its commit.
  abbrev pub end_step :
      Env → ℕ → String → Option StepOutput → World Data → Option String × World Data
  end_step env order name output w =
      elim (complete_step_run env order "completed" (counts_of output) "" w) [
        | err m ↦ (some (step_error "complete step run for " name m), w)
        | ok w' ↦ (none, w')
      ]

  -- `runStep` in its transaction.
  unfoldable pub transact : Env → ℕ → Step Data → World Data → Option String × World Data
  transact env order step w = elim (env.driver (begin order)) [
    | some m ↦ fail_step env order m (step_error "begin tx for " step.name m) w
    | none ↦ elim (step.work w.stored) [
      | err m ↦ fail_step env order m (step_error "step " step.name m) w
      | ok result ↦ elim (env.driver (commit order)) [
        | some m ↦ fail_step env order m (step_error "commit tx for " step.name m) w
        | none ↦ end_step env order step.name result.1 (record w { stored = result.0 })
      ]
    ]
  ]

  -- `runStep`.
  unfoldable pub run_step : Env → ℕ → Step Data → World Data → Option String × World Data
  unfolding transact
  run_step env order step w = elim (create_step_run env step.name order w) [
    | err m ↦ (some (step_error "create step run for " step.name m), w)
    | ok w' ↦ transact env order step w'
  ]

  -- The loop of `Run`, from the step at `order`.
  unfoldable pub run_steps : Env → ℕ → List (Step Data) → World Data → Option String × World Data
  unfolding run_step
  run_steps env order [] w = (none, w)
  run_steps env order (step ∷ steps) w =
      let (e, w') = run_step env order step w in
      elim e [ some m ↦ (some m, w') | none ↦ run_steps env (order + 1) steps w' ]

  -- `Run` after its loop.
  abbrev pub end_run : Env → Option String × World Data → Option String × World Data
  end_run env (some m, w) = (some m, attempt (complete_run env "failed" m w) w)
  end_run env (none, w) = elim (complete_run env "completed" "" w) [
    | err m ↦ (some (str_append "complete run: " m), w)
    | ok w' ↦ (none, w')
  ]

  -- `Run`.
  unfoldable pub run : Env → RunInput → List (Step Data) → World Data → Option String × World Data
  unfolding run_steps
  run env input steps w = elim (create_run env input w) [
    | err m ↦ (some (str_append "create run: " m), w)
    | ok w' ↦ end_run env (run_steps env 0 steps w')
  ]
