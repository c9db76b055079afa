-- ===== src/Governance/Marking/Laws.antt =====
-- How a marking's parts go together (internal/governance/marking_adapter.go).
use baxi.Base.{
  ℕ, ◌≡◌, refl, inl, inr, ◌∙◌, sym, ap, ◌&&◌, ◌||◌, not, Bool, true, false, none, some, List,
  String, ◌==◌, if◌then◌else◌, arith, eq_iff, Bool-cases, String-cases, Option-cases, Result-cases,
  Result, ok, err, ltb, leb, str_append,
}
use baxi.Governance.Marking.{
  DataClassificationRow, FieldMarking, ObjectProperty, Ontology, resolve_level, find_classification,
  Classified, classified, classification_marking, property_of, get_ontology_sensitivity,
  sensitivity_to_level, level_to_priority, priority_to_level, raised, marking_of, get_field_marking,
  is_llm_allowed,
}

-- The three parts of a classification agree: PII is level L3, and the LLM may see exactly what is
-- below it.
abbrev pub agrees : Classified → Bool
agrees (level, is_pii, llm) =
    (if level == "L3" then not llm else llm) && (if is_pii then level == "L3" else true)

classified-agrees : (raw : String) → agrees (classified raw) ≡ true
unfolding resolve_level
classified-agrees raw = elim (Bool-cases (raw == "pii")) [
  | inl pii ↦ rw (pii, resolve_level) refl
  | inr other ↦ elim (Bool-cases (raw == "sensitive")) [
    | inl sensitive ↦ ground arith
    | inr other2 ↦ ground arith
  ]
]

priority-agrees : (n : ℕ) → agrees (priority_to_level n, leb 3 n, ltb n 3) ≡ true
unfolding priority_to_level
priority-agrees n = elim (Bool-cases (leb 3 n)) [
  | inl high ↦
      let below : ltb n 3 ≡ false = ground arith in rw (high, below, priority_to_level) refl
  | inr low ↦
      let below : ltb n 3 ≡ true = ground arith in
      elim (Bool-cases (leb 2 n)) [
        | inl middle ↦ rw (low, below, middle, priority_to_level) refl
        | inr least ↦ rw (low, below, least, priority_to_level) refl
      ]
]

raised-agrees :
    (c : Classified) (sensitivity : String) → agrees c ≡ true → agrees (raised c sensitivity) ≡ true
unfolding raised
raised-agrees (level, is_pii, llm) sensitivity h =
    elim (Bool-cases (
      level == resolve_level "internal"
      && (not is_pii && (llm && not (sensitivity == "")))
      && ltb (level_to_priority level) (sensitivity_to_level sensitivity))) [
        | inl raises ↦ rw raises (priority-agrees (sensitivity_to_level sensitivity))
        | inr keeps ↦ rw keeps h
      ]

abbrev ok_agrees : Result Classified → Bool
ok_agrees (ok c) = agrees c
ok_agrees (err m) = true

internal-agrees : agrees (resolve_level "internal", false, true) ≡ true
unfolding resolve_level
internal-agrees = refl

rows-agree :
    (rows : List DataClassificationRow) (object_type property : String)
    → ok_agrees (classification_marking (ok rows) object_type property) ≡ true
unfolding classification_marking
rows-agree rows object_type property =
    elim (Option-cases
      (find_classification (str_append object_type (str_append "." property)) rows)) [
        | inl missing ↦ rw (missing, ok_agrees) internal-agrees
        | inr (raw, found) ↦ rw (found, ok_agrees) (classified-agrees raw)
      ]

refused-agrees :
    (m object_type property : String)
    → ok_agrees (classification_marking (err m) object_type property) ≡ true
unfolding classification_marking
refused-agrees m object_type property = refl

classification-agrees :
    (rows : Result (List DataClassificationRow)) (object_type property : String) (c : Classified)
    → classification_marking rows object_type property ≡ ok c
    → agrees c ≡ true
classification-agrees (err m) object_type property c h =
    ap ok_agrees (sym h) ∙ refused-agrees m object_type property
classification-agrees (ok rows) object_type property c h =
    ap ok_agrees (sym h) ∙ rows-agree rows object_type property

abbrev pub is_consistent : FieldMarking → Bool
is_consistent m = agrees (m.classification, m.pii, m.llm_allowed)

-- What `GetFieldMarking` returns is consistent: the LLM is allowed to see exactly the fields below L3,
-- and a PII field is L3.
pub get_field_marking-is_consistent :
    (rows : Result (List DataClassificationRow)) (registry : Ontology)
    (object_type property : String) (m : FieldMarking)
    → get_field_marking rows registry object_type property ≡ ok m
    → is_consistent m ≡ true
unfolding get_field_marking
get_field_marking-is_consistent rows registry object_type property m h =
    elim (Result-cases (classification_marking rows object_type property)) [
      | inr (e, refused) ↦ absurd (ground arith)
      | inl (c, marked) ↦
          let s = get_ontology_sensitivity registry object_type property in
          let consistent =
            raised-agrees c s (classification-agrees rows object_type property c marked) in
          let same : m ≡ marking_of object_type property s (raised c s) = ground arith in
          ap is_consistent same ∙ consistent
    ]

raised_strict :
    (s : String)
    → (s == "L3" || s == "L4") ≡ true
    → raised (resolve_level "internal", false, true) s ≡ ("L3", true, false)
unfolding raised resolve_level level_to_priority sensitivity_to_level priority_to_level
raised_strict s strict = elim (String-cases s "L3") [
  | inl same ↦ rw same refl
  | inr other ↦ let four : s ≡ "L4" = (eq_iff s "L4").0 (ground arith) in rw four refl
]

sensitivity_of :
    (registry : Ontology) (object_type property : String) (p : ObjectProperty)
    → property_of registry object_type property ≡ some p
    → get_ontology_sensitivity registry object_type property ≡ p.sensitivity
unfolding get_ontology_sensitivity
sensitivity_of registry object_type property p there = ground arith

-- For a field without a classification that the ontology marks as readable and as L3 or L4, the two
-- answers differ: the marking says that the LLM may not see it, and `IsLLMAllowed` says it may.
pub llm_answers_differ :
    (cs : List DataClassificationRow) (registry : Ontology) (object_type property : String)
    (p : ObjectProperty)
    → find_classification (str_append object_type (str_append "." property)) cs ≡ none
    → property_of registry object_type property ≡ some p
    → (p.sensitivity == "L3" || p.sensitivity == "L4") ≡ true
    → p.llm_readable ≡ true
    → (get_field_marking (ok cs) registry object_type property
        ≡ ok (marking_of object_type property p.sensitivity ("L3", true, false)))
      × (is_llm_allowed (ok cs) registry object_type property ≡ ok true)
unfolding get_field_marking is_llm_allowed classification_marking get_ontology_sensitivity
    resolve_level
llm_answers_differ cs registry object_type property p unclassified there strict readable =
    let strictest = raised_strict p.sensitivity strict in
    let sensitivity = sensitivity_of registry object_type property p there in
    (
      rw (unclassified, get_field_marking)
          (ap
              (λ s. ok (
                marking_of object_type property s
                  (raised (resolve_level "internal", false, true) s)))
              sensitivity
            ∙ ap (λ c. ok (marking_of object_type property p.sensitivity c)) strictest),
      ground arith,
    )
