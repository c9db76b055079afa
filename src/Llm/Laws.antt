-- ===== src/Llm/Laws.antt =====
-- Which decisions of the rules the validator accepts (internal/llm/rule_provider.go,
-- schema_validator.go).
use mathlib.Core.Path.{subst}
use baxi.Base.{
  sym, ap, ◌≡◌, refl, ◌∙◌, inl, inr, ◌&&◌, ◌||◌, Bool, true, false, Number, some, List, String,
  ◌==◌, elem, Bool-cases, String-cases,
}
use baxi.Llm.Model.{DecisionOutput, TriggerInfo}
use baxi.Llm.Validator.{validate_decision, valid_severity}
use baxi.Llm.Validator.Laws.{checked, validate_decision-checked}
use baxi.Llm.RuleProvider.{decide}

-- When the validator accepts the rules' decision for an alert of the severity.
abbrev pub accepts_rules : String → List String → Bool
accepts_rules severity allowed =
    (severity == "medium" && (elem "notify_owner" allowed && elem "create_followup_task" allowed))
    || (severity == "low" && elem "create_followup_task" allowed)

-- The goal at a severity.
abbrev Characterized : (Number → String) → TriggerInfo → List String → String → Type 0
Characterized print t allowed s =
    checked (decide print (record t { severity = s })) allowed ≡ accepts_rules s allowed

medium_case :
    (print : Number → String) (t : TriggerInfo) (allowed : List String)
    → Characterized print t allowed "medium"
unfolding decide
medium_case print t allowed = elim (Bool-cases (elem "notify_owner" allowed)) [
  | inr no_notice ↦ rw no_notice refl
  | inl notice ↦ elim (Bool-cases (elem "create_followup_task" allowed)) [
    | inr no_task ↦ rw (notice, no_task) refl
    | inl task ↦ rw (notice, task) refl
  ]
]

low_case :
    (print : Number → String) (t : TriggerInfo) (allowed : List String)
    → Characterized print t allowed "low"
unfolding decide
low_case print t allowed = elim (Bool-cases (elem "create_followup_task" allowed)) [
  | inr no_task ↦ rw no_task refl
  | inl task ↦ rw task refl
]

upper_case :
    (print : Number → String) (t : TriggerInfo) (allowed : List String)
    → Characterized print t allowed "critical" × Characterized print t allowed "high"
unfolding decide
upper_case print t allowed = (refl, refl)

decide-severity :
    (print : Number → String) (t : TriggerInfo) → (decide print t).severity ≡ t.severity
unfolding decide
decide-severity print t = elim (Bool-cases (t.severity == "critical")) [
  | inl a ↦ rw (a, decide) refl
  | inr a ↦ elim (Bool-cases (t.severity == "high")) [
    | inl b ↦ rw (a, b, decide) refl
    | inr b ↦ elim (Bool-cases (t.severity == "medium")) [
      | inl c ↦ rw (a, b, c, decide) refl
      | inr c ↦ elim (Bool-cases (t.severity == "low")) [
        | inl d ↦ rw (a, b, c, d, decide) refl
        | inr d ↦ rw (a, b, c, d, decide) refl
      ]
    ]
  ]
]

unknown_severity :
    (o : DecisionOutput) (allowed : List String)
    → elem o.severity valid_severity ≡ false
    → checked o allowed ≡ false
unknown_severity o allowed unknown = rw unknown (two_false _ _)
  where
    two_false : (a b : Bool) → (a && (b && false)) ≡ false
    two_false true true = refl
    two_false true false = refl
    two_false false b = refl

decide-checked :
    (print : Number → String) (t : TriggerInfo) (allowed : List String)
    → Characterized print t allowed t.severity
decide-checked print t allowed = elim (String-cases t.severity "critical") [
  | inl critical ↦
      subst (Characterized print t allowed) (sym critical) (upper_case print t allowed).0
  | inr a ↦ elim (String-cases t.severity "high") [
    | inl high ↦ subst (Characterized print t allowed) (sym high) (upper_case print t allowed).1
    | inr b ↦ elim (String-cases t.severity "medium") [
      | inl medium ↦
          subst (Characterized print t allowed) (sym medium) (medium_case print t allowed)
      | inr c ↦ elim (String-cases t.severity "low") [
        | inl low ↦ subst (Characterized print t allowed) (sym low) (low_case print t allowed)
        | inr d ↦
            let unknown : elem t.severity valid_severity ≡ false = rw (a, b, c, d) refl in
            unknown_severity (decide print t) allowed
              (ap (λ s. elem s valid_severity) (decide-severity print t) ∙ unknown)
            ∙ rw (c, d) refl
      ]
    ]
  ]
]

-- The validator accepts a decision of the rules exactly for a medium alert whose two actions are
-- allowed, and for a low one whose follow-up task is allowed: no decision for a high, a critical or
-- an unknown severity is valid.
pub decide-valid :
    (print : Number → String) (t : TriggerInfo) (allowed : List String)
    → (validate_decision print (some (decide print t)) allowed).valid
      ≡ accepts_rules t.severity allowed
decide-valid print t allowed =
    validate_decision-checked print (decide print t) allowed ∙ decide-checked print t allowed
