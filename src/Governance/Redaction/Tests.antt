-- ===== src/Governance/Redaction/Tests.antt =====
-- Redactions of a small object.
use baxi.Base.{◌≡◌, refl, true, [], ◌∷◌}
use baxi.Json.{str, Fields, end, field}
use baxi.Governance.Redaction.{
  Levels, check_marking, check_classification, redact_loop, redact_object_context,
}
use baxi.Governance.Redaction.Laws.{hides}

abbrev customer : Fields
customer =
    field "zip" (str "10115")
      (field "email" (str "a@b") (field "city" (str "Berlin") (field "orders" (str "3") end)))

abbrev classes : Levels
classes = ("email", "pii") ∷ ("zip", "sensitive") ∷ ("orders", "internal") ∷ []

abbrev marks : Levels
marks = ("orders", "RAW_DATA") ∷ []

redactions :
    ((redact_object_context customer classes marks "admin").properties
      ≡ field "zip" (str "10115") (field "city" (str "Berlin") (field "orders" (str "3") end)))
    × ((redact_object_context customer classes marks "viewer").properties
        ≡ field "city" (str "Berlin") end)
    × ((redact_object_context customer classes marks "viewer").redacted_fields
        ≡ record { field_name = "email"; reason = "classification: pii"; rule = "pii" }
          ∷ record { field_name = "orders"; reason = "marking: RAW_DATA"; rule = "RAW_DATA" }
          ∷ record { field_name = "zip"; reason = "classification: sensitive"; rule = "sensitive" }
          ∷ [])
unfolding redact_object_context redact_loop check_marking check_classification
redactions = (refl, refl, refl)

hidden_from_agent : hides classes marks "agent_readonly" "zip" ≡ true
unfolding check_marking check_classification
hidden_from_agent = refl
