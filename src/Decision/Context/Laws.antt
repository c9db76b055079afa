-- ===== src/Decision/Context/Laws.antt =====
-- What of an object a decision sees (internal/decision/context_builder.go).
use mathlib.Core.Path.{subst}
use baxi.Base.{
  ◌≡◌, refl, ◌∙◌, sym, ap, inl, inr, ◌||◌, not, Bool, true, false, Option, none, some, [], String,
  ◌==◌, if◌then◌else◌, lookup, is_some, Bool-cases, Option-cases, String-cases, Result-cases,
  eq_iff, Result, ok, err, arith,
}
use baxi.Json.{Fields, end, field, get_field}
use baxi.Store.{Db, CaseRow}
use baxi.Llm.Model.{ObjectContext, TriggerInfo}
use baxi.Governance.Redaction.{classification_redacts}
use baxi.Governance.Redaction.Laws.{hides, level_of, hides-eq, redact_object_context-hides}
use baxi.Decision.Repository.{get_case_by_id}
use baxi.Decision.Engine.{DecisionContext}
use baxi.Decision.Context.{
  Env, deref_string, map_classification, classify, build_trigger, governed, context_of,
  build_decision_context,
}

-- A property is shown, unless it is PII or of level L3; it is shown too where its marking cannot be read.
abbrev pub shows : Result (String × Bool) → Bool
shows (err m) = true
shows (ok (level, is_pii)) = not (is_pii || level == "L3")

unfoldable pub class_of : Result (String × Bool) → Option String
unfolding map_classification
class_of (err m) = none
class_of (ok (level, is_pii)) = some (map_classification level is_pii)

pub class_of-shows :
    (m : Result (String × Bool))
    → level_of (λ c. classification_redacts c "agent_readonly") (class_of m) ≡ not (shows m)
unfolding class_of map_classification
class_of-shows (err m) = refl
class_of-shows (ok (level, true)) = refl
class_of-shows (ok (level, false)) = elim (Bool-cases (level == "L3")) [
  | inl l3 ↦ rw (l3, class_of, map_classification) refl
  | inr other3 ↦ elim (Bool-cases (level == "L2")) [
    | inl l2 ↦ rw (other3, l2, class_of, map_classification) refl
    | inr other2 ↦ elim (Bool-cases (level == "L1")) [
      | inl l1 ↦ rw (other3, other2, l1, class_of, map_classification) refl
      | inr other1 ↦ rw (other3, other2, other1, class_of, map_classification) refl
    ]
  ]
]

pub if_same {ℓ} : {A : Type ℓ} (b : Bool) (x : A) → (if b then x else x) ≡ x
if_same true x = refl
if_same false x = refl

pub if_not {ℓ} : {A : Type ℓ} (b : Bool) (x y : A) → (if not b then x else y) ≡ (if b then y else x)
if_not true x y = refl
if_not false x y = refl

lookup-classify :
    (marking : String → Result (String × Bool)) (props : Fields) (k : String)
    → lookup k (classify marking props)
      ≡ (if is_some (get_field k props) then class_of (marking k) else none)
unfolding classify class_of
lookup-classify marking end k = refl
lookup-classify marking (field j v rest) k =
    let before = lookup-classify marking rest k in
    elim (String-cases k j) [
      | inr other ↦ elim (Result-cases (marking j)) [
        | inr (m, unreadable) ↦ rw (unreadable, other, classify) before
        | inl (found, read) ↦ rw (read, classify) (rw other before)
      ]
      | inl same ↦
          let is_key = (eq_iff k j).1 same in
          elim (Result-cases (marking j)) [
            | inr (m, unreadable) ↦
                let nothing : class_of (marking k) ≡ none =
                  ap (λ i. class_of (marking i)) same ∙ rw unreadable refl in
                rw (unreadable, is_key, classify)
                  (before
                    ∙ (ap (λ c. if is_some (get_field k rest) then c else none) nothing
                        ∙ (if_same (is_some (get_field k rest)) none ∙ sym nothing)))
            | inl (found, read) ↦
                let class : class_of (marking k) ≡ some (map_classification found.0 found.1) =
                  ap (λ i. class_of (marking i)) same ∙ rw read refl in
                rw (read, classify) (rw is_key (sym class))
          ]
    ]

shown-get :
    (marking : String → Result (String × Bool)) (props : Fields) (k : String)
    → (if hides (classify marking props) [] "agent_readonly" k then none else get_field k props)
      ≡ (if shows (marking k) then get_field k props else none)
shown-get marking props k = elim (Option-cases (get_field k props)) [
  | inl absent ↦ rw absent (
      if_same (hides (classify marking props) [] "agent_readonly" k) none
      ∙ sym (if_same (shows (marking k)) none))
  | inr (v, there) ↦
      let class : lookup k (classify marking props) ≡ class_of (marking k) =
        lookup-classify marking props k ∙ rw there refl in
      let hidden : hides (classify marking props) [] "agent_readonly" k ≡ not (shows (marking k)) =
        hides-eq (classify marking props) [] "agent_readonly" k
        ∙ (ap (level_of (λ c. classification_redacts c "agent_readonly")) class
            ∙ class_of-shows (marking k)) in
      rw hidden (if_not (shows (marking k)) none (get_field k props))
]

-- The properties of the object that a row names, as its provider gives them.
abbrev pub Shows : Env → CaseRow → ObjectContext → DecisionContext → Type 0
Shows env c object dc =
    (env.object_context (deref_string c.object_type) (deref_string c.object_id) ≡ ok object)
    × (dc.decision_case_id ≡ c.case_id)
    × ((k : String)
        → get_field k dc.object_context.properties ≡ (
            if shows (env.field_marking (deref_string c.object_type) k)
            then get_field k object.properties
            else none))

governed-Shows :
    (env : Env) (c : CaseRow) (trigger : TriggerInfo) (object : ObjectContext)
    → env.object_context (deref_string c.object_type) (deref_string c.object_id) ≡ ok object
    → Shows env c object (governed env c trigger object (deref_string c.object_type))
governed-Shows env c trigger object provided =
    let marking = env.field_marking (deref_string c.object_type) in
    (
      provided,
      refl,
      λ k.
          (redact_object_context-hides object.properties (classify marking object.properties) []
            "agent_readonly" k).0
          ∙ shown-get marking object.properties k,
    )

-- A context that is built has of its object exactly the properties that are not PII and not of level L3,
-- as they are, and those whose marking cannot be read.
pub build_decision_context-Shows :
    (env : Env) (id : String) (db : Db) (dc : DecisionContext)
    → build_decision_context env id db ≡ ok dc
    → (c : CaseRow) × (get_case_by_id env.driver id db ≡ ok c)
      × (object : ObjectContext) × Shows env c object dc
unfolding build_decision_context context_of
build_decision_context-Shows env id db dc built =
    elim (Result-cases (get_case_by_id env.driver id db)) [
      | inr (m, missing) ↦ absurd (ground arith)
      | inl (c, there) ↦
          elim (Bool-cases (deref_string c.object_type == "" || deref_string c.object_id == "")) [
            | inl nameless ↦ absurd (ground arith)
            | inr named ↦ elim (Result-cases (build_trigger env c (deref_string c.severity))) [
              | inr (m, failed) ↦ absurd (ground arith)
              | inl (trigger, triggered) ↦
                  elim (Result-cases
                    (env.object_context (deref_string c.object_type) (deref_string c.object_id))) [
                      | inr (m, failed) ↦ absurd (ground arith)
                      | inl (object, provided) ↦
                          let is : governed env c trigger object (deref_string c.object_type) ≡ dc =
                            ground arith in
                          (
                            c,
                            there,
                            object,
                            subst (Shows env c object) is
                                (governed-Shows env c trigger object provided),
                          )
                    ]
            ]
          ]
    ]
