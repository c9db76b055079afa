-- ===== src/Pipeline/Tests.antt =====
-- Runs of concrete steps over a number.
use text.Mathlib.TextPositions.{len-append}
use baxi.Base.{
  ◌≡◌, refl, ap, ◌≢◌, Option, none, some, List, [], ◌∷◌, String, str_append, len, ℕ, zero, suc, ◌+◌,
  ◌<◌, arith, pos, ok, err, map, ◌∙◌, sym,
}
use baxi.Pipeline.{
  Stmt, update_step_run, Step, World, Env, RunInput, create_run, complete_run, create_step_run,
  complete_step_run, transact, run_step, run_steps, run,
}
use baxi.Pipeline.Data.{Prefix, run-Prefix}
use baxi.Pipeline.Record.{Audited, run-Audited}

abbrev adding : ℕ → Step ℕ
adding k = record {
  name = "add";
  work = λ d. ok (d + k, some (record { input_count = pos d; output_count = pos (d + k) }));
}

abbrev failing : Step ℕ
failing = record { name = "fail"; work = λ d. err "bad row" }

abbrev ids : ℕ → String
ids zero = "s"
ids (suc n) = str_append "s" (ids n)

len-ids : (n : ℕ) → len (ids n) ≡ n + 1
len-ids zero = refl
len-ids (suc n) = len-append "s" (ids n) ∙ omega (arith, len-ids n)

ids_distinct : (i j : ℕ) → i < j → ids i ≢ ids j
ids_distinct i j less same =
    let lengths : i + 1 ≡ j + 1 = sym (len-ids i) ∙ (ap len same ∙ len-ids j) in
    absurd (omega (arith, less, lengths))

abbrev env : Env
env = record { driver = λ s. none; now = pos 5; run_id = "run_1"; step_run_id = ids }

abbrev input : RunInput
input = record { run_type = "full"; mode = "manual" }

abbrev start : World ℕ
start = record { stored = 1; runs = []; step_runs = [] }

abbrev steps : List (Step ℕ)
steps = adding 2 ∷ failing ∷ adding 4 ∷ []

-- The record of the second step cannot be closed.
abbrev no_update : Stmt → Option String
no_update (update_step_run (suc zero)) = some "conn closed"
no_update s = none

-- The third step does not run; and a step whose record cannot be closed fails the run, though its
-- work is committed.
runs :
    ((run env input steps start).0 ≡ some "step fail: bad row")
    × ((run env input steps start).1.stored ≡ 3)
    × (map (λ r. r.status) (run env input steps start).1.step_runs ≡ "completed" ∷ "failed" ∷ [])
    × (map (λ r. r.status) (run env input steps start).1.runs ≡ "failed" ∷ [])
    × ((run
          (record env { driver = no_update })
          input
          (adding 2 ∷ adding 4 ∷ adding 8 ∷ [])
          start).1.stored
        ≡ 7)
    × (map
          (λ r. r.status)
          (run
            (record env { driver = no_update })
            input
            (adding 2 ∷ adding 4 ∷ adding 8 ∷ [])
            start).1.step_runs
        ≡ "completed" ∷ "running" ∷ [])
unfolding run create_run run_steps run_step create_step_run transact complete_step_run complete_run
runs = (refl, refl, refl, refl, refl, refl)

run-Prefix_example : Prefix steps 1 (run env input steps start).0 (run env input steps start).1
run-Prefix_example = run-Prefix env input steps start

run-Audited_example :
    Audited env steps start (run env input steps start).0 (run env input steps start).1
run-Audited_example =
    run-Audited env input steps start refl refl (λ n. refl) (λ n. refl) ids_distinct
      (λ n later. refl) refl
