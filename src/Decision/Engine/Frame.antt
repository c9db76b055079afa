-- ===== src/Decision/Engine/Frame.antt =====
-- What a decision run preserves (internal/decision/engine.go): it writes to the database by
-- `saveDecision` and `updateCaseStatus` alone.
use baxi.Base.{
  ◌≡◌, inl, inr, Option, none, some, List, String, Bool-cases, Result-cases, Result, ok, err, [],
}
use baxi.Store.{Db}
use baxi.Llm.Model.{DecisionOutput, LlmSafeContext}
use baxi.Llm.Validator.{ValidationError, validate_decision}
use baxi.Decision.Engine.{
  Env, World, DecisionContext, build_llm_safe_context, told, save_decision, set_case_status, finish,
  try_db, give_up, handle_provider_error, fall_back, handle_invalid_output, generate_decision,
  after_repair, after_answer, called,
}

module _ (env : Env) (case_id : String) (Inv : Db → Type 0)
    (saves : (output : Option DecisionOutput) (status : String) (errors : List ValidationError)
        (reason : Option String) (db db' : Db)
      → save_decision env case_id output status errors reason db ≡ ok db'
      → Inv db
      → Inv db')
    (sets : (status : String) (db db' : Db)
      → set_case_status env case_id status db ≡ ok db'
      → Inv db
      → Inv db') where
  finish_preserves :
      (output : Option DecisionOutput) (status : String) (errors : List ValidationError)
      (reason : Option String) (w : World)
      → Inv w.db
      → Inv (finish env case_id output status errors reason w).1.db
  unfolding finish
  finish_preserves output status errors reason w before =
      elim (Result-cases (save_decision env case_id output status errors reason w.db)) [
        | inr (m, refused) ↦ rw (refused, finish) before
        | inl (db, saved) ↦
            let after = saves output status errors reason w.db db saved before in
            elim (Result-cases (set_case_status env case_id "decision_generated" db)) [
              | inr (m, refused) ↦ rw (saved, refused, finish) after
              | inl (db', set) ↦
                  rw (saved, set, finish) (sets "decision_generated" db db' set after)
            ]
      ]

  try_saves :
      (output : Option DecisionOutput) (status : String) (errors : List ValidationError)
      (reason : Option String) (db : Db)
      → Inv db
      → Inv (try_db (save_decision env case_id output status errors reason db) db)
  try_saves output status errors reason db before =
      elim (Result-cases (save_decision env case_id output status errors reason db)) [
        | inr (m, refused) ↦ rw refused before
        | inl (db', saved) ↦ rw saved (saves output status errors reason db db' saved before)
      ]

  try_sets :
      (status : String) (db : Db) → Inv db → Inv (try_db (set_case_status env case_id status db) db)
  try_sets status db before = elim (Result-cases (set_case_status env case_id status db)) [
    | inr (m, refused) ↦ rw refused before
    | inl (db', set) ↦ rw set (sets status db db' set before)
  ]

  give_up_preserves :
      (output : Option DecisionOutput) (errors : List ValidationError) (reason message : String)
      (w : World)
      → Inv w.db
      → Inv (give_up env case_id output errors reason message w).1.db
  unfolding give_up
  give_up_preserves output errors reason message w before =
      try_sets "failed" _ (try_saves output "failed" errors (some reason) w.db before)

  fall_back_preserves :
      (c : LlmSafeContext) (output : Option DecisionOutput) (errors : List ValidationError)
      (w : World)
      → Inv w.db
      → Inv (fall_back env case_id c output errors w).1.db
  unfolding fall_back
  fall_back_preserves c output errors w before = elim (Result-cases (env.fallback c)) [
    | inl (answer, answered) ↦
        rw (answered, fall_back)
          (finish_preserves answer "fallback" errors _ (told "fallback_used" w) before)
    | inr (e, refused) ↦
        rw (refused, fall_back)
          (give_up_preserves output errors _ _ (told "fallback_used" w) before)
  ]

  provider_error_preserves :
      (c : LlmSafeContext) (m : String) (w : World)
      → Inv w.db
      → Inv (handle_provider_error env case_id c m w).1.db
  unfolding handle_provider_error
  provider_error_preserves c m w before = elim (Result-cases (env.fallback c)) [
    | inl (answer, answered) ↦
        rw (answered, handle_provider_error)
          (finish_preserves answer "fallback" [] _ (told "fallback_used" w) before)
    | inr (e, refused) ↦
        rw (refused, handle_provider_error)
          (give_up_preserves none [] _ _ (told "case_failed" (told "fallback_used" w)) before)
  ]

  after_repair_preserves :
      (c : LlmSafeContext) (output : Option DecisionOutput) (errors : List ValidationError)
      (answer : Result (Option DecisionOutput)) (w : World)
      → Inv w.db
      → Inv (after_repair env case_id c output errors answer w).1.db
  unfolding after_repair
  after_repair_preserves c output errors (err m) w before =
      fall_back_preserves c output errors (told "repair_failed" w) before
  after_repair_preserves c output errors (ok repaired) w before =
      elim (Bool-cases (validate_decision env.print repaired c.allowed_actions).valid) [
        | inl valid ↦
            simp (valid, after_repair)
              (finish_preserves repaired "valid" [] none
                (told "decision_generated" (told "repair_succeeded" w)) before)
        | inr invalid ↦
            simp (invalid, after_repair)
              (fall_back_preserves c output errors (told "repair_failed" w) before)
      ]

  invalid_preserves :
      (c : LlmSafeContext) (output : Option DecisionOutput) (errors : List ValidationError)
      (w : World)
      → Inv w.db
      → Inv (handle_invalid_output env case_id c output errors w).1.db
  unfolding handle_invalid_output
  invalid_preserves c output errors w before = elim (Bool-cases env.repair) [
    | inr never ↦
        simp (never, handle_invalid_output)
          (fall_back_preserves c output errors (told "validation_failed" w) before)
    | inl repairs ↦
        simp (repairs, handle_invalid_output)
          (after_repair_preserves c output errors _
            (called (told "repair_attempted" (told "validation_failed" w))) before)
  ]

  after_answer_preserves :
      (c : LlmSafeContext) (answer : Result (Option DecisionOutput)) (w : World)
      → Inv w.db
      → Inv (after_answer env case_id c answer w).1.db
  unfolding after_answer
  after_answer_preserves c (err m) w before = provider_error_preserves c m w before
  after_answer_preserves c (ok output) w before =
      elim (Bool-cases (validate_decision env.print output c.allowed_actions).valid) [
        | inl valid ↦
            simp (valid, after_answer)
              (finish_preserves output "valid" [] none (told "decision_generated" w) before)
        | inr invalid ↦ simp (invalid, after_answer) (invalid_preserves c output _ w before)
      ]

  -- What a save of the decision and an update of the case preserve, the run preserves.
  pub generate_decision_preserves :
      (dc : DecisionContext) (w : World) → Inv w.db → Inv (generate_decision env case_id dc w).1.db
  unfolding generate_decision
  generate_decision_preserves dc w before =
      after_answer_preserves (build_llm_safe_context dc) _ (called (told "decision_requested" w))
        before
