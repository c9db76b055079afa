-- ===== src/Decision/Context/V2/Laws.antt =====
-- What of an object version 2 of the builder shows (internal/decision/context_builder_v2.go).
use mathlib.Core.Path.{subst}
use baxi.Base.{
  ◌≡◌, refl, ◌∙◌, sym, ap, inl, inr, not, Bool, Option, none, some, [], String, if◌then◌else◌,
  lookup, is_some, Option-cases, String-cases, Result-cases, eq_iff, Result, ok, err, arith,
}
use baxi.Json.{Fields, end, field, get_field}
use baxi.Store.{Db, CaseRow}
use baxi.Llm.Model.{ObjectContext, TriggerInfo}
use baxi.Governance.Redaction.{classification_redacts}
use baxi.Governance.Redaction.Laws.{hides, level_of, hides-eq, redact_object_context-hides}
use baxi.Decision.Repository.{get_case_by_id}
use baxi.Decision.Context.{deref_string, map_classification}
use baxi.Decision.Context.Laws.{shows, class_of, class_of-shows, if_same, if_not}
use baxi.Decision.Context.V2.{
  Env, ContextV2, class_of_marking, build_classifications, build_trigger_v2, governed_v2,
  build_decision_context_v2,
}

abbrev redacts : Option String → Bool
redacts c = level_of (λ s. classification_redacts s "agent_readonly") c

class_of_marking-shows :
    (m : Result (String × Bool)) → redacts (some (class_of_marking m)) ≡ not (shows m)
unfolding class_of map_classification
class_of_marking-shows (err m) = refl
class_of_marking-shows (ok found) = class_of-shows (ok found)

lookup-build_classifications :
    (marking : String → Result (String × Bool)) (props : Fields) (k : String)
    → lookup k (build_classifications marking props)
      ≡ (if is_some (get_field k props) then some (class_of_marking (marking k)) else none)
unfolding build_classifications
lookup-build_classifications marking end k = refl
lookup-build_classifications marking (field j v rest) k = elim (String-cases k j) [
  | inr other ↦ ground (arith, lookup-build_classifications marking rest k, eq_iff k j)
  | inl same ↦ ground (arith, eq_iff k j, ap (λ i. class_of_marking (marking i)) same)
]

shown-get :
    (marking : String → Result (String × Bool)) (props : Fields) (k : String)
    → (if hides (build_classifications marking props) [] "agent_readonly" k
        then none
        else get_field k props)
      ≡ (if shows (marking k) then get_field k props else none)
shown-get marking props k = elim (Option-cases (get_field k props)) [
  | inl absent ↦ rw absent (
      if_same (hides (build_classifications marking props) [] "agent_readonly" k) none
      ∙ sym (if_same (shows (marking k)) none))
  | inr (v, there) ↦
      let class : lookup k (build_classifications marking props)
          ≡ some (class_of_marking (marking k)) =
        lookup-build_classifications marking props k ∙ rw there refl in
      let hidden : hides (build_classifications marking props) [] "agent_readonly" k
          ≡ not (shows (marking k)) =
        hides-eq (build_classifications marking props) [] "agent_readonly" k
        ∙ (ap redacts class ∙ class_of_marking-shows (marking k)) in
      rw hidden (if_not (shows (marking k)) none (get_field k props))
]

-- The properties of the object that a row names, as its repository gives them.
abbrev pub ShowsV2 : Env → CaseRow → ObjectContext → ContextV2 → Type 0
ShowsV2 env c object ctx =
    (env.get_object (deref_string c.object_type) (deref_string c.object_id) ≡ ok object)
    × (ctx.base.decision_case_id ≡ c.case_id)
    × ((k : String)
        → get_field k ctx.base.object_context.properties ≡ (
            if shows (env.field_marking (deref_string c.object_type) k)
            then get_field k object.properties
            else none))

governed_v2-Shows :
    (env : Env) (c : CaseRow) (trigger : TriggerInfo) (object : ObjectContext) (id : String)
    → env.get_object (deref_string c.object_type) (deref_string c.object_id) ≡ ok object
    → ShowsV2 env c object (governed_v2 env c trigger object (deref_string c.object_type) id)
governed_v2-Shows env c trigger object id provided =
    let marking = env.field_marking (deref_string c.object_type) in
    (
      provided,
      refl,
      λ k.
          (redact_object_context-hides object.properties
            (build_classifications marking object.properties) [] "agent_readonly" k).0
          ∙ shown-get marking object.properties k,
    )

-- A context that version 2 builds has of its object exactly the properties that are not PII and not of
-- level L3, and those whose marking cannot be read.
pub build_decision_context_v2-Shows :
    (env : Env) (id : String) (db : Db) (ctx : ContextV2)
    → build_decision_context_v2 env id db ≡ ok ctx
    → (c : CaseRow) × (get_case_by_id env.driver id db ≡ ok c)
      × (object : ObjectContext) × ShowsV2 env c object ctx
unfolding build_decision_context_v2
build_decision_context_v2-Shows env id db ctx built =
    elim (Result-cases (get_case_by_id env.driver id db)) [
      | inr (m, missing) ↦ absurd (ground arith)
      | inl (c, there) ↦ elim (Result-cases (build_trigger_v2 env c (deref_string c.severity))) [
        | inr (m, failed) ↦ absurd (ground arith)
        | inl (trigger, triggered) ↦
            elim (Result-cases
              (env.get_object (deref_string c.object_type) (deref_string c.object_id))) [
                | inr (m, failed) ↦ absurd (ground arith)
                | inl (object, provided) ↦
                    let is : governed_v2 env c trigger object (deref_string c.object_type) id
                        ≡ ctx =
                      ground arith in
                    (
                      c,
                      there,
                      object,
                      subst (ShowsV2 env c object) is
                          (governed_v2-Shows env c trigger object id provided),
                    )
              ]
      ]
    ]
