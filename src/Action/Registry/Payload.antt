-- ===== src/Action/Registry/Payload.antt =====
-- `ValidatePayload` (internal/action/registry.go). Go ranges over the payload's keys in no fixed
-- order; this is the order of the map's fields. `sprint` is `%v` of a value.
use baxi.Base.{
  ◌≡◌, refl, ◌∙◌, inl, inr, ◌&&◌, ◌||◌, not, Bool, true, false, none, some, List, [], ◌∷◌, ◌++◌,
  String, str_append, len, ◌==◌, ap, String-cases, if◌then◌else◌, ltb_ℤ, pos, ℤ, arith, lookup,
  Bool-cases, elem,
}
use baxi.Json.{
  Value, null, bool, int, str, arr, obj, Items, nil, cons, Fields, end, field, get_field,
}
use baxi.Action.Registry.{ActionConfig, ActionRegistry}

abbrev pub is_null : Value → Bool
is_null null = true
is_null _ = false

abbrev pub is_str : Value → Bool
is_str (str s) = true
is_str _ = false

abbrev pub is_bool : Value → Bool
is_bool (bool b) = true
is_bool _ = false

-- The texts among the elements of `required`.
abbrev pub texts : Items → List String
texts nil = []
texts (cons (str s) xs) = s ∷ texts xs
texts (cons _ xs) = texts xs

-- `schema["required"].([]interface{})`.
abbrev pub required_fields : Fields → List String
required_fields schema = elim (get_field "required" schema) [ some (arr xs) ↦ texts xs | _ ↦ [] ]

-- `payload[field]` is there and is not nil.
abbrev pub is_present : String → Fields → Bool
is_present k payload = elim (get_field k payload) [ none ↦ false | some v ↦ not (is_null v) ]

unfoldable pub missing_fields : List String → Fields → List String
missing_fields [] payload = []
missing_fields (k ∷ ks) payload =
    let rest = missing_fields ks payload in
    if is_present k payload then rest else str_append "missing required field: " k ∷ rest

-- The type check of one field.
abbrev type_errors : String → Value → Fields → List String
type_errors k v def = elim (get_field "type" def) [
  | some (str t) ↦
      if t == "string" && not (is_str v) && not (is_null v)
      then str_append "field '" (str_append k "' must be a string") ∷ []
      else if t == "boolean" && not (is_bool v) && not (is_null v)
      then str_append "field '" (str_append k "' must be a boolean") ∷ []
      else []
  | _ ↦ []
]

abbrev has_text : (Value → String) → String → Items → Bool
has_text sprint s nil = false
has_text sprint s (cons v vs) = sprint v == s || has_text sprint s vs

abbrev enum_errors : (Value → String) → String → Value → Fields → List String
enum_errors sprint k v def = elim (get_field "enum" def) [
  | some (arr vs) ↦
      if has_text sprint (sprint v) vs || is_null v
      then []
      else str_append "field '"
          (str_append k (str_append "' value '" (str_append (sprint v) "' not in allowed values")))
        ∷ []
  | _ ↦ []
]

-- `print` is `%d` of the maximal length.
abbrev length_errors : (ℤ → String) → String → Value → Fields → List String
length_errors print k v def = elim (get_field "maxLength" def) [
  | some (int n) ↦ elim v [
    | str s ↦
        if ltb_ℤ n (pos (len s))
        then str_append "field '" (str_append k (str_append "' exceeds max length of " (print n)))
          ∷ []
        else []
    | _ ↦ []
  ]
  | _ ↦ []
]

abbrev field_errors : (Value → String) → (ℤ → String) → Fields → String → Value → List String
field_errors sprint print props k v = elim (get_field k props) [
  | some (obj def) ↦
      type_errors k v def ++ (enum_errors sprint k v def ++ length_errors print k v def)
  | _ ↦ []
]

unfoldable pub property_errors : (Value → String) → (ℤ → String) → Fields → Fields → List String
property_errors sprint print props end = []
property_errors sprint print props (field k v rest) =
    field_errors sprint print props k v ++ property_errors sprint print props rest

abbrev declared_errors : (Value → String) → (ℤ → String) → Fields → Fields → List String
declared_errors sprint print schema payload = elim (get_field "properties" schema) [
  | some (obj props) ↦ property_errors sprint print props payload
  | _ ↦ []
]

abbrev pub is_end : Fields → Bool
is_end end = true
is_end _ = false

-- `ValidatePayload`.
unfoldable pub validate_payload :
    (Value → String) → (ℤ → String) → ActionRegistry → String → Fields → List String
unfolding missing_fields property_errors
validate_payload sprint print r action_type payload = elim (lookup action_type r.actions) [
  | none ↦ "action type not found" ∷ []
  | some cfg ↦ elim cfg.payload_schema [
    | none ↦ []
    | some schema ↦
        if is_end schema
        then []
        else missing_fields (required_fields schema) payload
          ++ declared_errors sprint print schema payload
  ]
]

++-eq-nil : (xs ys : List String) → xs ++ ys ≡ [] → xs ≡ []
++-eq-nil [] ys h = refl
++-eq-nil (x ∷ xs) ys h = absurd (cc)

missing_fields_complete :
    (ks : List String) (payload : Fields) (k : String)
    → missing_fields ks payload ≡ []
    → elem k ks ≡ true
    → is_present k payload ≡ true
unfolding missing_fields
missing_fields_complete [] payload k h listed = absurd (cc)
missing_fields_complete (j ∷ ks) payload k h listed = elim (Bool-cases (is_present j payload)) [
  | inr absent ↦ absurd (ground arith)
  | inl there ↦ elim (String-cases k j) [
    | inl same ↦ ap (λ i. is_present i payload) same ∙ there
    | inr other ↦ missing_fields_complete ks payload k (ground arith) (ground arith)
  ]
]

-- A payload that `ValidatePayload` finds no error in has every field that the schema of its action
-- requires, with a value that is not nil.
pub validate_payload-required :
    (sprint : Value → String) (print : ℤ → String) (r : ActionRegistry) (t : String)
    (payload : Fields) (cfg : ActionConfig) (schema : Fields) (k : String)
    → lookup t r.actions ≡ some cfg
    → cfg.payload_schema ≡ some schema
    → validate_payload sprint print r t payload ≡ []
    → elem k (required_fields schema) ≡ true
    → is_present k payload ≡ true
unfolding validate_payload
validate_payload-required sprint print r t payload cfg end k found has h listed = absurd (cc)
validate_payload-required sprint print r t payload cfg (field j v rest) k found has h listed =
    missing_fields_complete (required_fields (field j v rest)) payload k
      (++-eq-nil (missing_fields (required_fields (field j v rest)) payload)
        (declared_errors sprint print (field j v rest) payload) (ground arith))
      listed
