-- ===== src/Decision/Engine/Totality.antt =====
-- That a decision run ends, and with what (internal/decision/engine.go).
use baxi.Base.{
  ◌≡◌, refl, ◌∙◌, ◌⊎◌, inl, inr, Bool, true, Option, none, some, List, [], ◌∷◌, ◌++◌, String, ℕ,
  ◌+◌, arith, Bool-cases, Result-cases, Result, ok, err, eq_refl,
}
use baxi.Store.{Db, CaseRow, DecisionRow, find_case, update_case, find_case-update_case}
use baxi.Llm.Model.{DecisionOutput, LlmSafeContext}
use baxi.Llm.Validator.{ValidationError, validate_decision}
use baxi.Decision.Repository.{
  Stmt, create_decision, update_case_status, set_case, insert_decision, update_case_row,
}
use baxi.Decision.Engine.{
  Env, World, Reply, DecisionContext, build_llm_safe_context, told, decision_row, save_decision,
  set_case_status, finish, give_up, handle_provider_error, fall_back, handle_invalid_output,
  generate_decision, after_repair, after_answer, called,
}

finish-calls :
    (env : Env) (case_id : String) (output : Option DecisionOutput) (status : String)
    (errors : List ValidationError) (reason : Option String) (w : World)
    → (finish env case_id output status errors reason w).1.calls ≡ w.calls
unfolding finish
finish-calls env case_id output status errors reason w =
    elim (Result-cases (save_decision env case_id output status errors reason w.db)) [
      | inr (m, refused) ↦ ground arith
      | inl (db, saved) ↦
          elim (Result-cases (set_case_status env case_id "decision_generated" db)) [
            | inr (m, refused) ↦ ground arith
            | inl (db', updated) ↦ ground arith
          ]
    ]

fall_back-calls :
    (env : Env) (case_id : String) (c : LlmSafeContext) (output : Option DecisionOutput)
    (errors : List ValidationError) (w : World)
    → (fall_back env case_id c output errors w).1.calls ≡ w.calls
unfolding fall_back give_up
fall_back-calls env case_id c output errors w = elim (Result-cases (env.fallback c)) [
  | inl (answer, answered) ↦
      rw (answered, fall_back)
        (finish-calls env case_id answer "fallback" errors _ (told "fallback_used" w))
  | inr (e, refused) ↦ rw (refused, fall_back, give_up) refl
]

provider_error-calls :
    (env : Env) (case_id : String) (c : LlmSafeContext) (m : String) (w : World)
    → (handle_provider_error env case_id c m w).1.calls ≡ w.calls
unfolding handle_provider_error give_up
provider_error-calls env case_id c m w = elim (Result-cases (env.fallback c)) [
  | inl (answer, answered) ↦
      rw (answered, handle_provider_error)
        (finish-calls env case_id answer "fallback" [] _ (told "fallback_used" w))
  | inr (e, refused) ↦ rw (refused, handle_provider_error, give_up) refl
]

after_repair-calls :
    (env : Env) (case_id : String) (c : LlmSafeContext) (output : Option DecisionOutput)
    (errors : List ValidationError) (answer : Result (Option DecisionOutput)) (w : World)
    → (after_repair env case_id c output errors answer w).1.calls ≡ w.calls
unfolding after_repair
after_repair-calls env case_id c output errors (err m) w =
    fall_back-calls env case_id c output errors (told "repair_failed" w)
after_repair-calls env case_id c output errors (ok repaired) w =
    elim (Bool-cases (validate_decision env.print repaired c.allowed_actions).valid) [
      | inl valid ↦
          simp (valid, after_repair)
            (finish-calls env case_id repaired "valid" [] none
              (told "decision_generated" (told "repair_succeeded" w)))
      | inr invalid ↦
          simp (invalid, after_repair)
            (fall_back-calls env case_id c output errors (told "repair_failed" w))
    ]

-- A further call is a repair, and is made only where the engine repairs.
abbrev pub Calls : Bool → ℕ → ℕ → Type 0
Calls repair before after = (after ≡ before) ⊎ ((repair ≡ true) × (after ≡ before + 1))

after_answer-Calls :
    (env : Env) (case_id : String) (c : LlmSafeContext) (answer : Result (Option DecisionOutput))
    (w : World)
    → Calls env.repair w.calls (after_answer env case_id c answer w).1.calls
unfolding after_answer handle_invalid_output
after_answer-Calls env case_id c (err m) w = inl (provider_error-calls env case_id c m w)
after_answer-Calls env case_id c (ok output) w =
    let errors = (validate_decision env.print output c.allowed_actions).errors in
    elim (Bool-cases (validate_decision env.print output c.allowed_actions).valid) [
      | inl valid ↦
          simp (valid, after_answer)
            (inl (finish-calls env case_id output "valid" [] none (told "decision_generated" w)))
      | inr invalid ↦ elim (Bool-cases env.repair) [
        | inr never ↦
            simp (invalid, never, after_answer, handle_invalid_output)
              (inl (fall_back-calls env case_id c output errors (told "validation_failed" w)))
        | inl repairs ↦ inr (
          repairs,
          simp (invalid, repairs, after_answer, handle_invalid_output)
              (after_repair-calls env case_id c output errors _
                (called (told "repair_attempted" (told "validation_failed" w)))),
        )
      ]
    ]

-- A run calls the provider once, or, where the engine repairs, once or twice: however often the
-- answers are invalid, no further call is made.
pub generate_decision-Calls :
    (env : Env) (case_id : String) (dc : DecisionContext) (w : World)
    → Calls env.repair (w.calls + 1) (generate_decision env case_id dc w).1.calls
unfolding generate_decision
generate_decision-Calls env case_id dc w =
    after_answer-Calls env case_id (build_llm_safe_context dc) _
      (called (told "decision_requested" w))

-- No error is returned, one decision is stored, and the case has the status, while its context, the
-- hash of it and its governance snapshot are NULL.
abbrev pub Completed : Env → String → CaseRow → Db → Reply × World → Type 0
Completed env case_id row db (reply, w) =
    (reply.error ≡ none)
    × (d : DecisionRow) × (w.db.decisions ≡ db.decisions ++ d ∷ [])
    × (d.case_id ≡ case_id)
    × (find_case case_id w.db.cases
        ≡ some (record row {
          status = "decision_generated";
          context_json = none;
          context_hash = none;
          governance_snapshot = none;
          updated_at = some env.now;
        }))

module _ (env : Env) (accepts : (s : Stmt) → env.driver s ≡ none)
    (marshals : (o : DecisionOutput) → (text : String) × (env.marshal o ≡ ok text))
    (falls_back : (c : LlmSafeContext) → (o : Option DecisionOutput) × (env.fallback c ≡ ok o))
    (case_id : String) (row : CaseRow) where
  saves :
      (output : Option DecisionOutput) (status : String) (errors : List ValidationError)
      (reason : Option String) (db : Db)
      → (d : DecisionRow) × (d.case_id ≡ case_id)
        × (save_decision env case_id output status errors reason db
            ≡ ok (record db { decisions = db.decisions ++ d ∷ [] }))
  unfolding save_decision create_decision
  saves none status errors reason db = (
    decision_row env case_id none none status errors reason,
    refl,
    rw (accepts insert_decision, save_decision, create_decision) refl,
  )
  saves (some o) status errors reason db =
      let (text, marshalled) = marshals o in
      (
        decision_row env case_id (some text) (some o) status errors reason,
        refl,
        rw (marshalled, accepts insert_decision, save_decision, create_decision) refl,
      )

  updates :
      (db : Db)
      → find_case case_id db.cases ≡ some row
      → set_case_status env case_id "decision_generated" db
        ≡ ok (record db {
          cases =
              update_case case_id (set_case env.now "decision_generated" none none none) db.cases;
        })
  unfolding set_case_status update_case_status
  updates db there = rw (accepts update_case_row, there, set_case_status, update_case_status) refl

  finish-Completed :
      (output : Option DecisionOutput) (status : String) (errors : List ValidationError)
      (reason : Option String) (w : World)
      → find_case case_id w.db.cases ≡ some row
      → Completed env case_id row w.db (finish env case_id output status errors reason w)
  unfolding finish
  finish-Completed output status errors reason w there =
      let (d, of_case, saved) = saves output status errors reason w.db in
      let updated = updates (record (w.db) { decisions = w.db.decisions ++ d ∷ [] }) there in
      let set = set_case env.now "decision_generated" none none none in
      let seen : find_case case_id (update_case case_id set w.db.cases) ≡ some (set row) =
        find_case-update_case case_id case_id set w.db.cases (λ r. refl)
        ∙ rw (eq_refl case_id, there) refl in
      rw (saved, finish, updated) (refl, d, refl, of_case, seen)

  fall_back-Completed :
      (c : LlmSafeContext) (output : Option DecisionOutput) (errors : List ValidationError)
      (w : World)
      → find_case case_id w.db.cases ≡ some row
      → Completed env case_id row w.db (fall_back env case_id c output errors w)
  unfolding fall_back
  fall_back-Completed c output errors w there =
      let (answer, answered) = falls_back c in
      rw (answered, fall_back)
        (finish-Completed answer "fallback" errors _ (told "fallback_used" w) there)

  after_repair-Completed :
      (c : LlmSafeContext) (output : Option DecisionOutput) (errors : List ValidationError)
      (answer : Result (Option DecisionOutput)) (w : World)
      → find_case case_id w.db.cases ≡ some row
      → Completed env case_id row w.db (after_repair env case_id c output errors answer w)
  unfolding after_repair
  after_repair-Completed c output errors (err m) w there =
      fall_back-Completed c output errors (told "repair_failed" w) there
  after_repair-Completed c output errors (ok repaired) w there =
      elim (Bool-cases (validate_decision env.print repaired c.allowed_actions).valid) [
        | inl valid ↦
            simp (valid, after_repair)
              (finish-Completed repaired "valid" [] none
                (told "decision_generated" (told "repair_succeeded" w)) there)
        | inr invalid ↦
            simp (invalid, after_repair)
              (fall_back-Completed c output errors (told "repair_failed" w) there)
      ]

  invalid-Completed :
      (c : LlmSafeContext) (output : Option DecisionOutput) (errors : List ValidationError)
      (w : World)
      → find_case case_id w.db.cases ≡ some row
      → Completed env case_id row w.db (handle_invalid_output env case_id c output errors w)
  unfolding handle_invalid_output
  invalid-Completed c output errors w there = elim (Bool-cases env.repair) [
    | inr never ↦
        simp (never, handle_invalid_output)
          (fall_back-Completed c output errors (told "validation_failed" w) there)
    | inl repairs ↦
        simp (repairs, handle_invalid_output)
          (after_repair-Completed c output errors _
            (called (told "repair_attempted" (told "validation_failed" w))) there)
  ]

  after_answer-Completed :
      (c : LlmSafeContext) (answer : Result (Option DecisionOutput)) (w : World)
      → find_case case_id w.db.cases ≡ some row
      → Completed env case_id row w.db (after_answer env case_id c answer w)
  unfolding after_answer handle_provider_error
  after_answer-Completed c (err m) w there =
      let (answer, answered) = falls_back c in
      rw (answered, handle_provider_error)
        (finish-Completed answer "fallback" [] _ (told "fallback_used" w) there)
  after_answer-Completed c (ok output) w there =
      elim (Bool-cases (validate_decision env.print output c.allowed_actions).valid) [
        | inl valid ↦
            simp (valid, after_answer)
              (finish-Completed output "valid" [] none (told "decision_generated" w) there)
        | inr invalid ↦ simp (invalid, after_answer) (invalid-Completed c output _ w there)
      ]

-- A run ends with a decision stored for the case and no error, whatever the provider answers, if the
-- statements are carried out, outputs can be written as JSON, the fallback answers, and the case is
-- there. The case then has the status of a decision, and has lost its context, the hash of it and
-- its governance snapshot.
pub generate_decision-Completed :
    (env : Env) (case_id : String) (row : CaseRow) (dc : DecisionContext) (w : World)
    → ((s : Stmt) → env.driver s ≡ none)
    → ((o : DecisionOutput) → (text : String) × (env.marshal o ≡ ok text))
    → ((c : LlmSafeContext) → (o : Option DecisionOutput) × (env.fallback c ≡ ok o))
    → find_case case_id w.db.cases ≡ some row
    → Completed env case_id row w.db (generate_decision env case_id dc w)
unfolding generate_decision
generate_decision-Completed env case_id row dc w accepts marshals falls_back there =
    after_answer-Completed env accepts marshals falls_back case_id row (build_llm_safe_context dc) _
      (called (told "decision_requested" w)) there
