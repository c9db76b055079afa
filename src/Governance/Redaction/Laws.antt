-- ===== src/Governance/Redaction/Laws.antt =====
-- What redaction hides, and from whom (internal/governance/redaction.go).
use baxi.Base.{
  ◌≡◌, refl, inl, inr, ◌∙◌, not, ◌&&◌, ◌||◌, Bool, true, false, Option, none, some, List, [], ◌∷◌,
  String, ◌==◌, if◌then◌else◌, lookup, is_some, arith, eq_iff, eq_refl, Bool-cases, Option-cases,
  String-cases,
}
use baxi.Json.{Fields, end, field, get_field}
use baxi.Governance.Redaction.{
  RedactedFieldEntry, Levels, marking_redacts, classification_redacts, check_marking,
  check_classification, check_field, before, insert_entry, redact_loop, redact_object_context,
}

-- Whether the field is hidden from the role.
abbrev pub hides : Levels → Levels → String → String → Bool
hides classifications markings role name = is_some (check_field classifications markings role name)

abbrev pub names : String → List RedactedFieldEntry → Bool
names k [] = false
names k (e ∷ es) = k == e.field_name || names k es

names-insert :
    (k : String) (e : RedactedFieldEntry) (es : List RedactedFieldEntry)
    → names k (insert_entry e es) ≡ (k == e.field_name || names k es)
names-insert k e [] = refl
names-insert k e (d ∷ ds) = elim (Bool-cases (before e.field_name d.field_name)) [
  | inl first ↦ rw first refl
  | inr later ↦ ground (arith, names-insert k e ds)
]

check_field-name :
    (classifications markings : Levels) (role name : String) (e : RedactedFieldEntry)
    → check_field classifications markings role name ≡ some e
    → e.field_name ≡ name
unfolding check_marking check_classification
check_field-name classifications markings role name e h =
    elim (Option-cases (lookup name markings)) [
      | inl unmarked ↦ elim (Option-cases (lookup name classifications)) [
        | inl unclassified ↦ absurd (ground arith)
        | inr (c, classified) ↦ ground arith
      ]
      | inr (m, marked) ↦ elim (Bool-cases (marking_redacts m role)) [
        | inl hidden ↦ ground arith
        | inr shown ↦ elim (Option-cases (lookup name classifications)) [
          | inl unclassified ↦ absurd (ground arith)
          | inr (c, classified) ↦ ground arith
        ]
      ]
    ]

loop-partition :
    (properties : Fields) (classifications markings : Levels) (role k : String)
    → (get_field k (redact_loop classifications markings role properties).0
        ≡ (if hides classifications markings role k then none else get_field k properties))
      × (names k (redact_loop classifications markings role properties).1
          ≡ (is_some (get_field k properties) && hides classifications markings role k))
unfolding redact_loop
loop-partition end classifications markings role k =
    elim (Bool-cases (hides classifications markings role k)) [
      | inl hidden ↦ (rw hidden refl, refl)
      | inr shown ↦ (rw shown refl, refl)
    ]
loop-partition (field j v rest) classifications markings role k =
    let (kept, listed) = loop-partition rest classifications markings role k in
    elim (Option-cases (check_field classifications markings role j)) [
      | inl shown ↦ elim (String-cases k j) [
        | inl same ↦ (ground arith, ground arith)
        | inr other ↦ (ground arith, ground arith)
      ]
      | inr (e, hidden) ↦
          let named = check_field-name classifications markings role j e hidden in
          let added = names-insert k e (redact_loop classifications markings role rest).1 in
          elim (String-cases k j) [
            | inl same ↦ (ground arith, ground arith)
            | inr other ↦ (ground arith, ground arith)
          ]
    ]

-- Every property is either kept as it was or listed as redacted, by the entry that the loop asks for.
pub redact_object_context-hides :
    (properties : Fields) (classifications markings : Levels) (role k : String)
    → (get_field k (redact_object_context properties classifications markings role).properties
        ≡ (if hides classifications markings role k then none else get_field k properties))
      × (names k (redact_object_context properties classifications markings role).redacted_fields
          ≡ (is_some (get_field k properties) && hides classifications markings role k))
unfolding redact_object_context
redact_object_context-hides = loop-partition

-- A level of the table, tested.
abbrev pub level_of : (String → Bool) → Option String → Bool
level_of f none = false
level_of f (some level) = f level

marking-hides :
    (markings : Levels) (role k : String)
    → is_some (check_marking k markings role)
      ≡ level_of (λ m. marking_redacts m role) (lookup k markings)
unfolding check_marking
marking-hides markings role k = elim (Option-cases (lookup k markings)) [
  | inl unmarked ↦ ground arith
  | inr (m, marked) ↦ elim (Bool-cases (marking_redacts m role)) [
    | inl hidden ↦ ground arith
    | inr shown ↦ ground arith
  ]
]

classification-hides :
    (classifications : Levels) (role k : String)
    → is_some (check_classification k classifications role)
      ≡ level_of (λ c. classification_redacts c role) (lookup k classifications)
unfolding check_classification
classification-hides classifications role k = elim (Option-cases (lookup k classifications)) [
  | inl unclassified ↦ ground arith
  | inr (c, classified) ↦ elim (Bool-cases (classification_redacts c role)) [
    | inl hidden ↦ ground arith
    | inr shown ↦ ground arith
  ]
]

either_hides :
    (classifications markings : Levels) (role k : String)
    → hides classifications markings role k ≡ (
        is_some (check_marking k markings role)
        || is_some (check_classification k classifications role))
either_hides classifications markings role k = elim (Option-cases (check_marking k markings role)) [
  | inl shown ↦ ground arith
  | inr (e, hidden) ↦ ground arith
]

pub hides-eq :
    (classifications markings : Levels) (role k : String)
    → hides classifications markings role k ≡ (
        level_of (λ m. marking_redacts m role) (lookup k markings)
        || level_of (λ c. classification_redacts c role) (lookup k classifications))
hides-eq classifications markings role k =
    either_hides classifications markings role k
    ∙ rw (marking-hides markings role k, classification-hides classifications role k) refl

marking_monotone :
    (m role : String) → marking_redacts m role ≡ true → marking_redacts m "viewer" ≡ true
marking_monotone m role h =
    ground (arith, eq_iff "viewer" "admin", eq_iff role "viewer", eq_refl "viewer")

classification_monotone :
    (c role : String)
    → classification_redacts c role ≡ true
    → classification_redacts c "viewer" ≡ true
classification_monotone c role h = ground (arith, eq_refl "viewer")

-- A viewer sees the least: what is hidden from any role is hidden from a viewer.
pub hides-viewer :
    (classifications markings : Levels) (role k : String)
    → hides classifications markings role k ≡ true
    → hides classifications markings "viewer" k ≡ true
hides-viewer classifications markings role k h =
    let of_role = hides-eq classifications markings role k in
    let of_viewer = hides-eq classifications markings "viewer" k in
    elim (Option-cases (lookup k markings)) [
      | inl unmarked ↦ elim (Option-cases (lookup k classifications)) [
        | inl unclassified ↦ absurd (ground arith)
        | inr (c, classified) ↦ ground (arith, classification_monotone c role)
      ]
      | inr (m, marked) ↦ elim (Option-cases (lookup k classifications)) [
        | inl unclassified ↦ ground (arith, marking_monotone m role)
        | inr (c, classified) ↦
            ground (arith, marking_monotone m role, classification_monotone c role)
      ]
    ]

-- A property classified as `pii` is shown to no role, whatever its marking.
pub pii-hidden :
    (properties : Fields) (classifications markings : Levels) (role k : String)
    → lookup k classifications ≡ some "pii"
    → get_field k (redact_object_context properties classifications markings role).properties ≡ none
pii-hidden properties classifications markings role k pii =
    let (kept, listed) = redact_object_context-hides properties classifications markings role k in
    let hidden = hides-eq classifications markings role k in
    elim (Option-cases (lookup k markings)) [
      | inl unmarked ↦ ground (arith, eq_refl "pii")
      | inr (m, marked) ↦ ground (arith, eq_refl "pii")
    ]

-- Whether a marking keeps a field from the role: one of personal, financial or raw data keeps it from
-- every role but `admin`, and an operational one from `viewer`.
abbrev pub marking_conceals : String → String → Bool
marking_conceals m role =
    ((m == "PII" || m == "FINANCIAL_INTERNAL" || m == "RAW_DATA") && not (role == "admin"))
    || (m == "OPERATIONAL_INTERNAL" && role == "viewer")

-- Whether a class keeps a field from the role: `pii` from every role, the two sensitive classes from
-- `viewer` and `agent_readonly`, and `internal` from `viewer`.
abbrev pub class_conceals : String → String → Bool
class_conceals c role =
    c == "pii"
    || ((c == "sensitive" || c == "derived_sensitive")
        && (role == "viewer" || role == "agent_readonly"))
    || (c == "internal" && role == "viewer")

-- Whether the field's marking or its class, if it has them, keep it from the role.
abbrev pub concealed : Levels → Levels → String → String → Bool
concealed classifications markings role name =
    level_of (λ m. marking_conceals m role) (lookup name markings)
    || level_of (λ c. class_conceals c role) (lookup name classifications)
