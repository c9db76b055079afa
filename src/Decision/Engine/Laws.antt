-- ===== src/Decision/Engine/Laws.antt =====
-- What a decision run writes (internal/decision/engine.go).
use baxi.Base.{
  ◌≡◌, refl, ◌⊎◌, inl, inr, true, Option, none, some, List, [], ◌∷◌, ◌++◌, String, arith,
  Bool-cases, Result-cases, Result, ok, err,
}
use baxi.Store.{Db, DecisionRow}
use baxi.Llm.Model.{DecisionOutput, LlmSafeContext}
use baxi.Llm.Validator.{ValidationError, validate_decision}
use baxi.Decision.Repository.{create_decision, update_case_status}
use baxi.Decision.Engine.{
  Env, World, DecisionContext, build_llm_safe_context, told, decision_row, save_decision,
  set_case_status, finish, give_up, handle_provider_error, fall_back, handle_invalid_output,
  generate_decision, after_repair, after_answer, called,
}

-- The text under which an output is stored.
abbrev pub Written : Env → Option DecisionOutput → Option String → Type 0
Written env none json = json ≡ none
Written env (some o) json = (text : String) × (env.marshal o ≡ ok text) × (json ≡ some text)

pub save-row :
    (env : Env) (case_id : String) (output : Option DecisionOutput) (status : String)
    (errors : List ValidationError) (reason : Option String) (db db' : Db)
    → save_decision env case_id output status errors reason db ≡ ok db'
    → (json : Option String) × Written env output json
      × (db' ≡ record db {
        decisions = db.decisions ++ decision_row env case_id json output status errors reason ∷ [];
      })
unfolding save_decision create_decision
save-row env case_id none status errors reason db db' h = (none, refl, ground arith)
save-row env case_id (some o) status errors reason db db' h = elim (Result-cases (env.marshal o)) [
  | inr (m, refused) ↦ absurd (ground arith)
  | inl (text, marshalled) ↦ (some text, (text, marshalled, refl), ground arith)
]

status-decisions :
    (env : Env) (case_id status : String) (db db' : Db)
    → set_case_status env case_id status db ≡ ok db'
    → db'.decisions ≡ db.decisions
unfolding set_case_status update_case_status
status-decisions env case_id status db db' h = ground arith

-- At most one row is added: it has the status, and holds the output.
abbrev pub Adds :
    Env → Option DecisionOutput → String → List DecisionRow → List DecisionRow → Type 0
Adds env output status rows rows' =
    (rows' ≡ rows)
    ⊎ ((d : DecisionRow) × (rows' ≡ rows ++ d ∷ [])
        × (d.status ≡ status)
        × Written env output d.output_json)

finish-Adds :
    (env : Env) (case_id : String) (output : Option DecisionOutput) (status : String)
    (errors : List ValidationError) (reason : Option String) (w : World)
    → Adds env output status w.db.decisions
        (finish env case_id output status errors reason w).1.db.decisions
unfolding finish
finish-Adds env case_id output status errors reason w =
    elim (Result-cases (save_decision env case_id output status errors reason w.db)) [
      | inr (m, refused) ↦ inl (ground arith)
      | inl (db, saved) ↦
          let (json, written, is_db) =
            save-row env case_id output status errors reason w.db db saved in
          elim (Result-cases (set_case_status env case_id "decision_generated" db)) [
            | inr (m, refused) ↦ inr (
              decision_row env case_id json output status errors reason,
              ground arith,
              refl,
              written,
            )
            | inl (db', updated) ↦
                let kept = status-decisions env case_id "decision_generated" db db' updated in
                inr (
                  decision_row env case_id json output status errors reason,
                  ground arith,
                  refl,
                  written,
                )
          ]
    ]

give_up-Adds :
    (env : Env) (case_id : String) (output : Option DecisionOutput) (errors : List ValidationError)
    (reason message : String) (w : World)
    → Adds env output "failed" w.db.decisions
        (give_up env case_id output errors reason message w).1.db.decisions
unfolding give_up
give_up-Adds env case_id output errors reason message w =
    elim (Result-cases (save_decision env case_id output "failed" errors (some reason) w.db)) [
      | inr (m, refused) ↦ elim (Result-cases (set_case_status env case_id "failed" w.db)) [
        | inr (m', refused') ↦ inl (ground arith)
        | inl (db', updated) ↦
            let kept = status-decisions env case_id "failed" w.db db' updated in inl (ground arith)
      ]
      | inl (db, saved) ↦
          let (json, written, is_db) =
            save-row env case_id output "failed" errors (some reason) w.db db saved in
          elim (Result-cases (set_case_status env case_id "failed" db)) [
            | inr (m, refused) ↦ inr (
              decision_row env case_id json output "failed" errors (some reason),
              ground arith,
              refl,
              written,
            )
            | inl (db', updated) ↦
                let kept = status-decisions env case_id "failed" db db' updated in
                inr (
                  decision_row env case_id json output "failed" errors (some reason),
                  ground arith,
                  refl,
                  written,
                )
          ]
    ]

-- A stored decision that is not marked as a fallback or a failure is marked as valid, and holds an
-- output that the validator accepts.
abbrev pub Sound : Env → List String → DecisionRow → Type 0
Sound env allowed d =
    (d.status ≡ "fallback")
    ⊎ ((d.status ≡ "failed")
        ⊎ ((d.status ≡ "valid")
            × (o : DecisionOutput) × ((validate_decision env.print (some o) allowed).valid ≡ true)
            × Written env (some o) d.output_json))

-- At most one decision is added, and it is sound.
abbrev pub Keeps : Env → List String → List DecisionRow → List DecisionRow → Type 0
Keeps env allowed rows rows' =
    (rows' ≡ rows) ⊎ ((d : DecisionRow) × (rows' ≡ rows ++ d ∷ []) × Sound env allowed d)

module _ (env : Env) (allowed : List String) (rows rows' : List DecisionRow) where
  valid-Keeps :
      (output : Option DecisionOutput)
      → (validate_decision env.print output allowed).valid ≡ true
      → Adds env output "valid" rows rows'
      → Keeps env allowed rows rows'
  unfolding validate_decision
  valid-Keeps none valid adds = absurd (cc)
  valid-Keeps (some o) valid (inl same) = inl same
  valid-Keeps (some o) valid (inr (d, added, status, written)) =
      inr (d, added, inr (inr (status, o, valid, written)))

  fallback-Keeps :
      (output : Option DecisionOutput)
      → Adds env output "fallback" rows rows'
      → Keeps env allowed rows rows'
  fallback-Keeps output (inl same) = inl same
  fallback-Keeps output (inr (d, added, status, written)) = inr (d, added, inl status)

  failed-Keeps :
      (output : Option DecisionOutput)
      → Adds env output "failed" rows rows'
      → Keeps env allowed rows rows'
  failed-Keeps output (inl same) = inl same
  failed-Keeps output (inr (d, added, status, written)) = inr (d, added, inr (inl status))

provider_error-Keeps :
    (env : Env) (allowed : List String) (case_id : String) (c : LlmSafeContext) (m : String)
    (w : World)
    → Keeps env allowed w.db.decisions (handle_provider_error env case_id c m w).1.db.decisions
unfolding handle_provider_error
provider_error-Keeps env allowed case_id c m w = elim (Result-cases (env.fallback c)) [
  | inl (output, answered) ↦
      rw (answered, handle_provider_error)
        (fallback-Keeps env allowed w.db.decisions _ output
          (finish-Adds env case_id output "fallback" [] _ (told "fallback_used" w)))
  | inr (e, refused) ↦
      rw (refused, handle_provider_error)
        (failed-Keeps env allowed w.db.decisions _ none
          (give_up-Adds env case_id none [] _ _ (told "case_failed" (told "fallback_used" w))))
]

fall_back-Keeps :
    (env : Env) (allowed : List String) (case_id : String) (c : LlmSafeContext)
    (output : Option DecisionOutput) (errors : List ValidationError) (w : World)
    → Keeps env allowed w.db.decisions (fall_back env case_id c output errors w).1.db.decisions
unfolding fall_back
fall_back-Keeps env allowed case_id c output errors w = elim (Result-cases (env.fallback c)) [
  | inl (answer, answered) ↦
      rw (answered, fall_back)
        (fallback-Keeps env allowed w.db.decisions _ answer
          (finish-Adds env case_id answer "fallback" errors _ (told "fallback_used" w)))
  | inr (e, refused) ↦
      rw (refused, fall_back)
        (failed-Keeps env allowed w.db.decisions _ output
          (give_up-Adds env case_id output errors _ _ (told "fallback_used" w)))
]

after_repair-Keeps :
    (env : Env) (case_id : String) (c : LlmSafeContext) (output : Option DecisionOutput)
    (errors : List ValidationError) (answer : Result (Option DecisionOutput)) (w : World)
    → Keeps env c.allowed_actions w.db.decisions
        (after_repair env case_id c output errors answer w).1.db.decisions
unfolding after_repair
after_repair-Keeps env case_id c output errors (err m) w =
    fall_back-Keeps env c.allowed_actions case_id c output errors (told "repair_failed" w)
after_repair-Keeps env case_id c output errors (ok repaired) w =
    elim (Bool-cases (validate_decision env.print repaired c.allowed_actions).valid) [
      | inl valid ↦
          simp (valid, after_repair)
            (valid-Keeps env c.allowed_actions w.db.decisions _ repaired valid (
              finish-Adds env case_id repaired "valid" [] none
                (told "decision_generated" (told "repair_succeeded" w))))
      | inr invalid ↦
          simp (invalid, after_repair)
            (fall_back-Keeps env c.allowed_actions case_id c output errors (told "repair_failed" w))
    ]

invalid-Keeps :
    (env : Env) (case_id : String) (c : LlmSafeContext) (output : Option DecisionOutput)
    (errors : List ValidationError) (w : World)
    → Keeps env c.allowed_actions w.db.decisions
        (handle_invalid_output env case_id c output errors w).1.db.decisions
unfolding handle_invalid_output
invalid-Keeps env case_id c output errors w = elim (Bool-cases env.repair) [
  | inr no_repair ↦
      simp (no_repair, handle_invalid_output)
        (fall_back-Keeps env c.allowed_actions case_id c output errors (told "validation_failed" w))
  | inl repairs ↦
      simp (repairs, handle_invalid_output)
        (after_repair-Keeps env case_id c output errors _
          (called (told "repair_attempted" (told "validation_failed" w))))
]

after_answer-Keeps :
    (env : Env) (case_id : String) (c : LlmSafeContext) (answer : Result (Option DecisionOutput))
    (w : World)
    → Keeps env c.allowed_actions w.db.decisions
        (after_answer env case_id c answer w).1.db.decisions
unfolding after_answer
after_answer-Keeps env case_id c (err m) w =
    provider_error-Keeps env c.allowed_actions case_id c m w
after_answer-Keeps env case_id c (ok output) w =
    elim (Bool-cases (validate_decision env.print output c.allowed_actions).valid) [
      | inl valid ↦
          simp (valid, after_answer)
            (valid-Keeps env c.allowed_actions w.db.decisions _ output valid
              (finish-Adds env case_id output "valid" [] none (told "decision_generated" w)))
      | inr invalid ↦
          simp (invalid, after_answer)
            (invalid-Keeps env case_id c output
              (validate_decision env.print output c.allowed_actions).errors w)
    ]

-- A run of the engine stores at most one decision, whatever the provider answers at its calls and
-- whatever the database refuses. It is marked as valid only if it holds an output that the validator
-- accepts for the actions allowed, and else as a fallback or a failure.
pub generate_decision-Keeps :
    (env : Env) (case_id : String) (dc : DecisionContext) (w : World)
    → Keeps env dc.allowed_actions w.db.decisions
        (generate_decision env case_id dc w).1.db.decisions
unfolding generate_decision build_llm_safe_context
generate_decision-Keeps env case_id dc w =
    after_answer-Keeps env case_id (build_llm_safe_context dc) _
      (called (told "decision_requested" w))
