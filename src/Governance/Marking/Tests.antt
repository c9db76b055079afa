-- ===== src/Governance/Marking/Tests.antt =====
-- Markings of concrete fields.
use baxi.Base.{◌≡◌, refl, true, false, List, [], ◌∷◌, ok}
use baxi.Governance.Marking.{
  DataClassificationRow, FieldMarking, ObjectProperty, Ontology, resolve_level,
  classification_marking, get_ontology_sensitivity, raised, marking_of, get_field_marking,
}

abbrev rows : List DataClassificationRow
rows =
    record { field_path = "customer.email"; classification_level = "pii" }
    ∷ record { field_path = "order.price"; classification_level = "public_internal" }
    ∷ []

abbrev score : ObjectProperty
score = record { sensitivity = "L4"; llm_readable = true }

abbrev registry : Ontology
registry = ("customer", ("score", score) ∷ []) ∷ []

abbrev email : FieldMarking
email = marking_of "customer" "email" "" ("L3", true, false)

email_marking : get_field_marking (ok rows) registry "customer" "email" ≡ ok email
unfolding get_field_marking classification_marking raised get_ontology_sensitivity resolve_level
email_marking = refl
