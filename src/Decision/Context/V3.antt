-- ===== src/Decision/Context/V3.antt =====
-- Version 3 of the context builder (internal/decision/context_builder_v3.go): the objects that links
-- reach in two steps. The delegate, the links of a type, and the queries answer from the environment;
-- `print` is the format `%v` of a value.
pub mod Laws
mod Tests
use baxi.Base.{
  ◌||◌, Bool, true, false, Option, none, some, List, [], ◌∷◌, ◌++◌, String, str_append, ◌==◌,
  if◌then◌else◌, ℕ, zero, suc, ◌+◌, Result, ok, err,
}
use baxi.Json.{Fields, Value, null, get_field}
use baxi.Llm.Model.{ObjectContext, EnrichedObjectData}
use baxi.Decision.Engine.{DecisionContext}

-- `ObjectLink`.
pub record ObjectLink : Type 0 where
  pub name : String
  pub target_type : String
  pub via : String

pub record Env : Type 0 where
  pub delegate : String → Result DecisionContext
  pub get_links : String → Result (List ObjectLink)
  pub object_context : String → String → Result ObjectContext
  pub print : Value → String

-- The text of the property that a link goes by; none where the link is passed over.
abbrev pub via_text : Env → ObjectLink → Fields → Option String
via_text env link props = elim (get_field link.via props) [
  | none ↦ none
  | some null ↦ none
  | some v ↦ if env.print v == "" then none else some (env.print v)
]

abbrev pub linked_object : Env → ObjectLink → Fields → Option ObjectContext
linked_object env link props = elim (via_text env link props) [
  | none ↦ none
  | some id ↦ elim (env.object_context link.target_type id) [ err m ↦ none | ok o ↦ some o ]
]

abbrev pub path_name : String → String → String
path_name prefix name = if prefix == "" then name else str_append prefix (str_append "." name)

abbrev pub entry_of : ℕ → String → ObjectContext → EnrichedObjectData
entry_of depth name o = record {
  link_name = name;
  depth = depth;
  object_type = o.object_type;
  object_id = o.object_id;
  properties = o.properties;
}

-- The loop over the links of one object. `deeper` is the call for a linked object, by its type, its id
-- and the path of its link.
abbrev pub follow :
    Env
    → (String → String → String → List EnrichedObjectData)
    → ℕ
    → String
    → Fields
    → List ObjectLink
    → List EnrichedObjectData
follow env deeper depth prefix props [] = []
follow env deeper depth prefix props (link ∷ links) = elim (linked_object env link props) [
  | none ↦ follow env deeper depth prefix props links
  | some o ↦
      (entry_of depth (path_name prefix link.name) o
        ∷ deeper o.object_type o.object_id (path_name prefix link.name))
      ++ follow env deeper depth prefix props links
]

-- `traverseAtDepth`, with `more` levels below the maximum: none is `currentDepth > maxDepth`. Where a
-- call fails it returns no objects and no error.
unfoldable pub traverse_at_depth : Env → ℕ → ℕ → String → String → String → List EnrichedObjectData
traverse_at_depth env zero depth object_type object_id prefix = []
traverse_at_depth env (suc more) depth object_type object_id prefix =
    elim (env.get_links object_type) [
      | err m ↦ []
      | ok [] ↦ []
      | ok (link ∷ links) ↦ elim (env.object_context object_type object_id) [
        | err m ↦ []
        | ok source ↦
            follow env (traverse_at_depth env more (depth + 1)) depth prefix source.properties
              (link ∷ links)
      ]
    ]

-- `BuildDecisionContext`.
unfoldable pub build_decision_context_v3 : Env → String → Result DecisionContext
unfolding traverse_at_depth
build_decision_context_v3 env case_id = elim (env.delegate case_id) [
  | err m ↦ err (str_append "v3: build base context: " m)
  | ok base ↦
      let o = base.object_context in
      if o.object_type == "" || o.object_id == ""
      then ok base
      else elim (traverse_at_depth env 2 1 o.object_type o.object_id "") [
        | [] ↦ ok base
        | e ∷ es ↦ ok (record base { enriched_objects = e ∷ es })
      ]
]
