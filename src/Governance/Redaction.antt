-- ===== src/Governance/Redaction.antt =====
-- Redaction of an object's properties for a role (internal/governance/redaction.go). Go ranges over
-- the properties in no fixed order, and sorts the redacted fields; their names are distinct.
pub mod Laws
mod Tests
use Prim.Native.String.{compare}
use Prim.Native.Nat.{Ordering}
use baxi.Base.{
  ◌||◌, not, Bool, true, false, Option, none, some, List, [], ◌∷◌, String, ◌==◌, if◌then◌else◌,
  str_append, lookup,
}
use baxi.Json.{Value, Fields, end, field}

-- `RedactedFieldEntry`.
pub record RedactedFieldEntry : Type 0 where
  pub field_name : String
  pub reason : String
  pub rule : String

-- `RedactionResult`.
pub record RedactionResult : Type 0 where
  pub properties : Fields
  pub redacted_fields : List RedactedFieldEntry

abbrev pub Levels : Type 0
Levels = List (String × String)

-- The two switches.
abbrev pub marking_redacts : String → String → Bool
marking_redacts marking role =
    if marking == "PII" || marking == "FINANCIAL_INTERNAL" || marking == "RAW_DATA"
    then not (role == "admin")
    else if marking == "OPERATIONAL_INTERNAL"
    then role == "viewer"
    else false

abbrev pub classification_redacts : String → String → Bool
classification_redacts classification role =
    if classification == "pii"
    then true
    else if classification == "sensitive" || classification == "derived_sensitive"
    then role == "viewer" || role == "agent_readonly"
    else if classification == "internal"
    then role == "viewer"
    else false

abbrev entry : String → String → String → RedactedFieldEntry
entry name prefix rule = record { field_name = name; reason = str_append prefix rule; rule = rule }

-- `checkMarking`.
unfoldable pub check_marking : String → Levels → String → Option RedactedFieldEntry
check_marking name markings role = elim (lookup name markings) [
  | none ↦ none
  | some marking ↦
      if marking_redacts marking role then some (entry name "marking: " marking) else none
]

-- `checkClassification`.
unfoldable pub check_classification : String → Levels → String → Option RedactedFieldEntry
check_classification name classifications role = elim (lookup name classifications) [
  | none ↦ none
  | some classification ↦
      if classification_redacts classification role
      then some (entry name "classification: " classification)
      else none
]

-- The entry of a field, the marking's before the classification's.
abbrev pub check_field : Levels → Levels → String → String → Option RedactedFieldEntry
check_field classifications markings role name = elim (check_marking name markings role) [
  | some e ↦ some e
  | none ↦ check_classification name classifications role
]

abbrev before : String → String → Bool
before s t = elim (compare s t) [ Ordering.lt ↦ true | _ ↦ false ]

abbrev insert_entry : RedactedFieldEntry → List RedactedFieldEntry → List RedactedFieldEntry
insert_entry e [] = e ∷ []
insert_entry e (d ∷ ds) =
    let rest = insert_entry e ds in
    if before e.field_name d.field_name then e ∷ d ∷ ds else d ∷ rest

-- The loop, with the sort: what is kept, and the entries in order.
redact_loop : Levels → Levels → String → Fields → Fields × List RedactedFieldEntry
redact_loop classifications markings role end = (end, [])
redact_loop classifications markings role (field name value rest) =
    let (kept, entries) = redact_loop classifications markings role rest in
    elim (check_field classifications markings role name) [
      | some e ↦ (kept, insert_entry e entries)
      | none ↦ (field name value kept, entries)
    ]

-- `RedactObjectContext`.
unfoldable pub redact_object_context : Fields → Levels → Levels → String → RedactionResult
unfolding redact_loop
redact_object_context properties classifications markings role =
    let (kept, entries) = redact_loop classifications markings role properties in
    record { properties = kept; redacted_fields = entries }
