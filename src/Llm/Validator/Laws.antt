-- ===== src/Llm/Validator/Laws.antt =====
-- What the validator accepts (internal/llm/schema_validator.go).
use baxi.Base.{
  ◌≡◌, refl, ◌∙◌, inl, inr, ◌&&◌, ◌||◌, not, Bool, true, false, Number, below_zero, above_one, some,
  List, [], ◌∷◌, ◌++◌, String, ◌==◌, elem, ℕ, ◌+◌, arith, Bool-cases,
}
use baxi.Llm.Model.{DecisionOutput, RecommendedAction}
use baxi.Llm.Validator.{
  ValidationError, valid_types, valid_severity, valid_actions, unless, action_errors, output_errors,
  is_empty, validate_decision,
}

is_empty-append :
    (xs ys : List ValidationError) → is_empty (xs ++ ys) ≡ (is_empty xs && is_empty ys)
is_empty-append [] ys = refl
is_empty-append (x ∷ xs) ys = refl

is_empty-unless : (b : Bool) (name message : String) → is_empty (unless b name message) ≡ b
is_empty-unless true name message = refl
is_empty-unless false name message = refl

-- One check before the others.
unless_first :
    (b : Bool) (name message : String) (rest : List ValidationError)
    → is_empty (unless b name message ++ rest) ≡ (b && is_empty rest)
unless_first true name message rest = refl
unless_first false name message rest = refl

-- Every recommended action is allowed, and is one that the validator knows.
abbrev pub permits : List String → List RecommendedAction → Bool
permits allowed [] = true
permits allowed (a ∷ actions) =
    (elem a.action_type allowed && elem a.action_type valid_actions) && permits allowed actions

-- The tests of the validator, in their order.
abbrev pub checked : DecisionOutput → List String → Bool
checked o allowed =
    (o.schema_version == "" || o.schema_version == "decision_output.v1")
    && (elem o.decision_type valid_types
        && (elem o.severity valid_severity
            && (not (below_zero o.confidence || above_one o.confidence)
                && (o.requires_human_review && permits allowed o.recommended_actions))))

actions-permits :
    (allowed : List String) (i : ℕ) (actions : List RecommendedAction)
    → is_empty (action_errors allowed i actions) ≡ permits allowed actions
unfolding action_errors
actions-permits allowed i [] = refl
actions-permits allowed i (a ∷ actions) =
    let rest = actions-permits allowed (i + 1) actions in
    elim (Bool-cases (elem a.action_type allowed)) [
      | inr out ↦ ground arith
      | inl listed ↦ elim (Bool-cases (elem a.action_type valid_actions)) [
        | inr unknown ↦ ground arith
        | inl known ↦ ground arith
      ]
    ]

-- An output is valid exactly if every test passes.
pub validate_decision-checked :
    (print : Number → String) (o : DecisionOutput) (allowed : List String)
    → (validate_decision print (some o) allowed).valid ≡ checked o allowed
unfolding validate_decision output_errors
validate_decision-checked print o allowed =
    let listed = actions-permits allowed 0 o.recommended_actions in
    unless_first (o.schema_version == "" || o.schema_version == "decision_output.v1") _ _ _
    ∙ rw
        (
          unless_first (elem o.decision_type valid_types),
          unless_first (elem o.severity valid_severity),
          unless_first (not (below_zero o.confidence || above_one o.confidence)),
          unless_first o.requires_human_review,
          listed,
        )
        refl
