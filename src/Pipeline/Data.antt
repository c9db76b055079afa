-- ===== src/Pipeline/Data.antt =====
-- What a run does to the data (internal/pipeline/runner.go).
use mathlib.Core.Path.{subst}
use baxi.Base.{
  ◌≡◌, refl, ◌∙◌, sym, ap, ◌⊎◌, inl, inr, Option, none, some, List, [], ◌∷◌, String, ℕ, suc, ◌+◌,
  ◌≤◌, arith, Option-cases, Result-cases, ok, err, length, take, str_append,
}
use baxi.Pipeline.{
  begin, commit, insert_step_run, update_step_run, insert_run, update_run, Step, StepOutput, World,
  Env, RunInput, create_run, complete_run, create_step_run, complete_step_run, end_step, transact,
  run_step, run_steps, end_run, run, attempt,
}

module _ {Data : Type 0} where
  -- The works of the steps alone, one after the other, until one fails.
  abbrev pub through : List (Step Data) → Data → Option Data
  through [] d = some d
  through (step ∷ steps) d = elim (step.work d) [
    | err m ↦ none
    | ok result ↦ through steps result.0
  ]

  complete_step_run-stored :
      (env : Env) (order : ℕ) (status m : String) (counts : _) (w : World Data)
      → (attempt (complete_step_run env order status counts m w) w).stored ≡ w.stored
  unfolding complete_step_run
  complete_step_run-stored env order status m counts w =
      elim (Option-cases (env.driver (update_step_run order))) [
        | inl accepted ↦ rw (accepted, complete_step_run) refl
        | inr (e, refused) ↦ rw (refused, complete_step_run) refl
      ]

  -- A step has failed and left the data, or its work is stored.
  abbrev pub StepData : Step Data → Data → Option String × World Data → Type 0
  StepData step d (e, w) =
      ((w.stored ≡ d) × (m : String) × (e ≡ some m))
      ⊎ ((o : Option StepOutput) × (step.work d ≡ ok (w.stored, o)))

  end_step-stored :
      (env : Env) (order : ℕ) (name : String) (output : Option StepOutput) (w : World Data)
      → (end_step env order name output w).1.stored ≡ w.stored
  unfolding complete_step_run
  end_step-stored env order name output w =
      elim (Option-cases (env.driver (update_step_run order))) [
        | inl accepted ↦ rw (accepted, end_step, complete_step_run) refl
        | inr (e, refused) ↦ rw (refused, end_step, complete_step_run) refl
      ]

  transact-StepData :
      (env : Env) (order : ℕ) (step : Step Data) (w : World Data)
      → StepData step w.stored (transact env order step w)
  unfolding transact
  transact-StepData env order step w = elim (Option-cases (env.driver (begin order))) [
    | inr (m, refused) ↦
        rw (refused, transact) (inl (complete_step_run-stored env order "failed" m _ w, _, refl))
    | inl begun ↦ elim (Result-cases (step.work w.stored)) [
      | inr (m, failed) ↦
          rw (begun, failed, transact)
            (inl (complete_step_run-stored env order "failed" m _ w, _, refl))
      | inl ((d, o), worked) ↦ elim (Option-cases (env.driver (commit order))) [
        | inr (m, refused) ↦
            rw (begun, worked, refused, transact)
              (inl (complete_step_run-stored env order "failed" m _ w, _, refl))
        | inl committed ↦
            let kept = end_step-stored env order step.name o (record w { stored = d }) in
            inr (o, rw (begun, worked, committed, transact) (ap (λ x. ok (x, o)) (sym kept)))
      ]
    ]
  ]

  run_step-StepData :
      (env : Env) (order : ℕ) (step : Step Data) (w : World Data)
      → StepData step w.stored (run_step env order step w)
  unfolding run_step create_step_run
  run_step-StepData env order step w = elim (Option-cases (env.driver (insert_step_run order))) [
    | inr (m, refused) ↦ rw (refused, run_step, create_step_run) (inl (refl, _, refl))
    | inl accepted ↦ rw (accepted, run_step, create_step_run) (transact-StepData env order step _)
  ]

  -- The data are those after the first `done` steps, and these are all steps if there is no error.
  pub record Prefix (steps : List (Step Data)) (d : Data) (e : Option String) (w : World Data)
      : Type 0 where
    pub done : ℕ
    pub bounded : done ≤ length steps
    pub reached : through (take done steps) d ≡ some w.stored
    pub ending : ((m : String) × (e ≡ some m)) ⊎ ((e ≡ none) × (done ≡ length steps))

  pub outcome-cases :
      (r : Option String × World Data)
      → ((m : String) × (w : World Data) × (r ≡ (some m, w))) ⊎ ((w : World Data) × (r ≡ (none, w)))
  outcome-cases (some m, w) = inl (m, w, refl)
  outcome-cases (none, w) = inr (w, refl)

  stopped :
      (step : Step Data) (steps : List (Step Data)) (d : Data) (m : String) (w : World Data)
      → StepData step d (some m, w)
      → Prefix (step ∷ steps) d (some m) w
  stopped step steps d m w (inl (kept, _, _)) = record {
    done = 0;
    bounded = omega arith;
    reached = ap some (sym kept);
    ending = inl (m, refl);
  }
  stopped step steps d m w (inr (o, worked)) = record {
    done = 1;
    bounded = omega arith;
    reached = rw worked refl;
    ending = inl (m, refl);
  }

  continued :
      (step : Step Data) (steps : List (Step Data)) (d : Data) (w : World Data) (e : Option String)
      (w' : World Data)
      → StepData step d (none, w)
      → Prefix steps w.stored e w'
      → Prefix (step ∷ steps) d e w'
  continued step steps d w e w' (inl (kept, m, other)) h = absurd (cc)
  continued step steps d w e w' (inr (o, worked)) h = record {
    done = suc h.done;
    bounded = omega (arith, h.bounded);
    reached = rw worked h.reached;
    ending = elim h.ending [ inl failed ↦ inl failed | inr (fine, all) ↦ inr (fine, ap suc all) ];
  }

  -- `run_steps` at the answer of its first step.
  abbrev after_step :
      Env → ℕ → List (Step Data) → Option String × World Data → Option String × World Data
  after_step env order steps r = elim (r.0) [
    | some m ↦ (some m, r.1)
    | none ↦ run_steps env (order + 1) steps r.1
  ]

  pub run_steps_failed :
      (env : Env) (order : ℕ) (step : Step Data) (steps : List (Step Data)) (w w1 : World Data)
      (m : String)
      → run_step env order step w ≡ (some m, w1)
      → run_steps env order (step ∷ steps) w ≡ (some m, w1)
  unfolding run_steps
  run_steps_failed env order step steps w w1 m h = ap (after_step env order steps) h

  pub run_steps_fine :
      (env : Env) (order : ℕ) (step : Step Data) (steps : List (Step Data)) (w w1 : World Data)
      → run_step env order step w ≡ (none, w1)
      → run_steps env order (step ∷ steps) w ≡ run_steps env (order + 1) steps w1
  unfolding run_steps
  run_steps_fine env order step steps w w1 h = ap (after_step env order steps) h

  run_steps-Prefix :
      (env : Env) (order : ℕ) (steps : List (Step Data)) (w : World Data)
      → Prefix steps w.stored (run_steps env order steps w).0 (run_steps env order steps w).1
  unfolding run_steps
  run_steps-Prefix env order [] w = record {
    done = 0;
    bounded = omega arith;
    reached = refl;
    ending = inr (refl, refl);
  }
  run_steps-Prefix env order (step ∷ steps) w = elim (outcome-cases (run_step env order step w)) [
    | inl (m, w1, failed) ↦ rw (run_steps_failed env order step steps w w1 m failed) (
        stopped step steps w.stored m w1
          (subst (StepData step w.stored) failed (run_step-StepData env order step w)))
    | inr (w1, fine) ↦ rw (run_steps_fine env order step steps w w1 fine) (
        continued step steps w.stored w1 _ _
          (subst (StepData step w.stored) fine (run_step-StepData env order step w))
          (run_steps-Prefix env (order + 1) steps w1))
  ]

  end_run-stored :
      (env : Env) (e : Option String) (w : World Data) → (end_run env (e, w)).1.stored ≡ w.stored
  unfolding complete_run
  end_run-stored env none w = elim (Option-cases (env.driver update_run)) [
    | inl accepted ↦ rw (accepted, end_run, complete_run) refl
    | inr (m, refused) ↦ rw (refused, end_run, complete_run) refl
  ]
  end_run-stored env (some m) w = elim (Option-cases (env.driver update_run)) [
    | inl accepted ↦ rw (accepted, end_run, complete_run) refl
    | inr (m', refused) ↦ rw (refused, end_run, complete_run) refl
  ]

  end_run-error :
      (env : Env) (e : Option String) (w : World Data)
      → ((m : String) × ((end_run env (e, w)).0 ≡ some m))
        ⊎ (((end_run env (e, w)).0 ≡ none) × (e ≡ none))
  unfolding complete_run
  end_run-error env none w = elim (Option-cases (env.driver update_run)) [
    | inl accepted ↦ inr (rw (accepted, end_run, complete_run) refl, refl)
    | inr (m, refused) ↦ inl (
      str_append "complete run: " (str_append "complete pipeline run: " m),
      rw (refused, end_run, complete_run) refl,
    )
  ]
  end_run-error env (some m) w = inl (m, refl)

  end_run-Prefix :
      (env : Env) (steps : List (Step Data)) (d : Data) (e : Option String) (w : World Data)
      → Prefix steps d e w
      → Prefix steps d (end_run env (e, w)).0 (end_run env (e, w)).1
  end_run-Prefix env steps d e w h = record {
    done = h.done;
    bounded = h.bounded;
    reached = h.reached ∙ ap some (sym (end_run-stored env e w));
    ending = elim (end_run-error env e w) [
      | inl failed ↦ inl failed
      | inr (fine, was_fine) ↦ inr (fine, all_done h.ending was_fine)
    ];
  }
    where
      all_done :
          ((m : String) × (e ≡ some m)) ⊎ ((e ≡ none) × (h.done ≡ length steps))
          → e ≡ none
          → h.done ≡ length steps
      all_done (inl (m, failed)) fine = absurd (cc)
      all_done (inr (_, all)) fine = all

  -- A run leaves the data that some first steps alone make of it, each of them whole, whatever the
  -- database refuses. Without an error these are all the steps.
  pub run-Prefix :
      (env : Env) (input : RunInput) (steps : List (Step Data)) (w : World Data)
      → Prefix steps w.stored (run env input steps w).0 (run env input steps w).1
  unfolding run create_run
  run-Prefix env input steps w = elim (Option-cases (env.driver insert_run)) [
    | inr (m, refused) ↦
        rw (refused, run, create_run)
          (record { done = 0; bounded = omega arith; reached = refl; ending = inl (_, refl) })
    | inl accepted ↦
        rw (accepted, run, create_run)
          (end_run-Prefix env steps w.stored _ _ (run_steps-Prefix env 0 steps _))
  ]
