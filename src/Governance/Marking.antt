-- ===== src/Governance/Marking.antt =====
-- Field markings (internal/governance/classification.go, marking_service.go, marking_adapter.go): the
-- classification of a field, with the ontology's sensitivity where it is stricter.
pub mod Laws
mod Tests
use Prim.Native.Nat.{◌<◌}
use baxi.Base.{
  ℕ, ◌&&◌, ◌||◌, not, Bool, true, false, Option, none, some, List, [], ◌∷◌, String, ◌==◌,
  if◌then◌else◌, str_append, lookup, ltb, leb, Result, ok, err,
}

-- `DataClassificationRow`: the columns that are read.
pub record DataClassificationRow : Type 0 where
  pub field_path : String
  pub classification_level : String

-- `FieldMarking`.
pub record FieldMarking : Type 0 where
  pub object_type : String
  pub field_name : String
  pub classification : String
  pub pii : Bool
  pub llm_allowed : Bool
  pub sensitivity : String

-- `ObjectProperty`: the fields that are read.
pub record ObjectProperty : Type 0 where
  pub sensitivity : String
  pub llm_readable : Bool

-- The object types of the ontology, each with its properties.
abbrev pub Ontology : Type 0
Ontology = List (String × List (String × ObjectProperty))

-- `ResolveLevel`.
unfoldable pub resolve_level : String → String
resolve_level level =
    if level == "pii" || level == "sensitive"
    then "L3"
    else if level == "internal" || level == "derived_sensitive"
    then "L2"
    else if level == "public_internal"
    then "L1"
    else "L2"

abbrev pub find_classification : String → List DataClassificationRow → Option String
find_classification path [] = none
find_classification path (c ∷ cs) =
    let rest = find_classification path cs in
    if c.field_path == path then some c.classification_level else rest

-- The level, whether it is PII, and whether the LLM may see it.
abbrev pub Classified : Type 0
Classified = String × Bool × Bool

abbrev pub classified : String → Classified
classified raw = (resolve_level raw, raw == "pii", not (resolve_level raw == "L3"))

-- `ClassificationService.GetFieldMarking`, over the classifications that the repository returns.
unfoldable pub classification_marking :
    Result (List DataClassificationRow) → String → String → Result Classified
classification_marking rows object_type property = elim rows [
  | err m ↦ err (str_append "load classifications: " m)
  | ok cs ↦ elim (find_classification (str_append object_type (str_append "." property)) cs) [
    | some raw ↦ ok (classified raw)
    | none ↦ ok (resolve_level "internal", false, true)
  ]
]

abbrev pub property_of : Ontology → String → String → Option ObjectProperty
property_of registry object_type property = elim (lookup object_type registry) [
  | none ↦ none
  | some props ↦ lookup property props
]

-- `getOntologySensitivity`.
unfoldable pub get_ontology_sensitivity : Ontology → String → String → String
get_ontology_sensitivity registry object_type property =
    elim (property_of registry object_type property) [ none ↦ "" | some p ↦ p.sensitivity ]

-- `IsLLMReadable`.
abbrev pub is_llm_readable : Ontology → String → String → Bool
is_llm_readable registry object_type property = elim (property_of registry object_type property) [
  | none ↦ false
  | some p ↦ p.llm_readable
]

-- `sensitivityToLevel`.
unfoldable pub sensitivity_to_level : String → ℕ
sensitivity_to_level s =
    if s == "L0"
    then 0
    else if s == "L1"
    then 1
    else if s == "L2"
    then 2
    else if s == "L3"
    then 3
    else if s == "L4"
    then 4
    else 0

-- `levelToPriority`.
unfoldable pub level_to_priority : String → ℕ
level_to_priority level =
    if level == "L1" then 1 else if level == "L2" then 2 else if level == "L3" then 3 else 2

-- `priorityToLevel`.
unfoldable pub priority_to_level : ℕ → String
priority_to_level p = if leb 3 p then "L3" else if leb 2 p then "L2" else "L1"

-- The raise by the ontology's sensitivity.
unfoldable pub raised : Classified → String → Classified
raised (level, is_pii, llm) sensitivity =
    if level == resolve_level "internal"
      && (not is_pii && (llm && not (sensitivity == "")))
      && ltb (level_to_priority level) (sensitivity_to_level sensitivity)
    then (
      priority_to_level (sensitivity_to_level sensitivity),
      leb 3 (sensitivity_to_level sensitivity),
      ltb (sensitivity_to_level sensitivity) 3,
    )
    else (level, is_pii, llm)

abbrev pub marking_of : String → String → String → Classified → FieldMarking
marking_of object_type property sensitivity (level, is_pii, llm) = record {
  object_type = object_type;
  field_name = property;
  classification = level;
  pii = is_pii;
  llm_allowed = llm;
  sensitivity = sensitivity;
}

-- `MarkingAdapter.GetFieldMarking`.
unfoldable pub get_field_marking :
    Result (List DataClassificationRow) → Ontology → String → String → Result FieldMarking
get_field_marking rows registry object_type property =
    elim (classification_marking rows object_type property) [
      | err m ↦ err (
          str_append "marking: get classification for "
            (str_append object_type (str_append "." (str_append property (str_append ": " m)))))
      | ok c ↦
          let sensitivity = get_ontology_sensitivity registry object_type property in
          ok (marking_of object_type property sensitivity (raised c sensitivity))
    ]

-- `MarkingAdapter.IsLLMAllowed`.
unfoldable pub is_llm_allowed :
    Result (List DataClassificationRow) → Ontology → String → String → Result Bool
is_llm_allowed rows registry object_type property =
    elim (classification_marking rows object_type property) [
      | err m ↦ err (
          str_append "marking: check LLM allowance for "
            (str_append object_type (str_append "." (str_append property (str_append ": " m)))))
      | ok (level, is_pii, llm) ↦
          if level == "L3" then ok false else ok (is_llm_readable registry object_type property)
    ]
