-- ===== src/Review/Sandbox/Laws.antt =====
-- What a comparison of sandboxes reports (internal/review/sandbox.go).
use baxi.Base.{
  ◌≡◌, refl, ◌∙◌, sym, ap, inl, inr, ◌&&◌, ◌||◌, not, Bool, true, false, none, some, List, [], ◌∷◌,
  ◌++◌, String, ◌==◌, elem, is_some, arith, Bool-cases, Option-cases, String-cases, eq_iff, eq_refl,
  ok,
}
use baxi.Json.{Fields, Value, end, field, get_field}
use baxi.Review.Sandbox.{
  Env, Difference, SandboxRow, create_sandbox, get_sandbox, insert_sandbox, select_sandbox,
  find_sandbox, add_keys, compare_key, compare_keys, compare_data,
}

-- Whether the two maps differ at a key: only one has it, or the values have different JSON texts.
abbrev pub differs : (Value → String) → String → Fields → Fields → Bool
differs marshal k d1 d2 = elim (get_field k d1) [
  | none ↦ is_some (get_field k d2)
  | some v1 ↦ elim (get_field k d2) [ none ↦ true | some v2 ↦ not (marshal v1 == marshal v2) ]
]

abbrev pub reports : String → List Difference → Bool
reports k [] = false
reports k (d ∷ ds) = k == d.field_name || reports k ds

reports-append :
    (k : String) (xs ys : List Difference) → reports k (xs ++ ys) ≡ (reports k xs || reports k ys)
reports-append k [] ys = refl
reports-append k (x ∷ xs) ys = ground (arith, reports-append k xs ys)

elem-add_keys :
    (k : String) (d : Fields) (keys : List String)
    → elem k (add_keys d keys) ≡ (is_some (get_field k d) || elem k keys)
elem-add_keys k end keys = refl
elem-add_keys k (field j v d) keys = elim (Bool-cases (elem j (add_keys d keys))) [
  | inl there ↦ elim (String-cases k j) [
    | inl same ↦
        let is_key = (eq_iff k j).1 same in
        rw (there, is_key) (ap (λ i. elem i (add_keys d keys)) same ∙ there)
    | inr other ↦ rw (there, other) (elem-add_keys k d keys)
  ]
  | inr added ↦ ground (arith, elem-add_keys k d keys)
]

reports-compare_key :
    (marshal : Value → String) (d1 d2 : Fields) (k j : String)
    → reports k (compare_key marshal d1 d2 j) ≡ (k == j && differs marshal j d1 d2)
reports-compare_key marshal d1 d2 k j = elim (Option-cases (get_field j d1)) [
  | inl no1 ↦ elim (Option-cases (get_field j d2)) [
    | inl no2 ↦ ground arith
    | inr (v2, has2) ↦ ground arith
  ]
  | inr (v1, has1) ↦ elim (Option-cases (get_field j d2)) [
    | inl no2 ↦ ground arith
    | inr (v2, has2) ↦ ground arith
  ]
]

reports-compare_keys :
    (marshal : Value → String) (d1 d2 : Fields) (k : String) (ks : List String)
    → reports k (compare_keys marshal d1 d2 ks) ≡ (elem k ks && differs marshal k d1 d2)
reports-compare_keys marshal d1 d2 k [] = refl
reports-compare_keys marshal d1 d2 k (j ∷ ks) =
    reports-append k (compare_key marshal d1 d2 j) (compare_keys marshal d1 d2 ks)
    ∙ rw (reports-compare_key marshal d1 d2 k j, reports-compare_keys marshal d1 d2 k ks)
        (elim (String-cases k j) [
          | inr other ↦ rw other refl
          | inl same ↦
              let is_key = (eq_iff k j).1 same in
              rw is_key (
                ap (λ i. differs marshal i d1 d2 || (elem k ks && differs marshal k d1 d2))
                  (sym same)
                ∙ absorbs (differs marshal k d1 d2) (elem k ks))
        ])
  where
    absorbs : (a b : Bool) → (a || (b && a)) ≡ a
    absorbs true b = refl
    absorbs false true = refl
    absorbs false false = refl

-- A comparison reports a key exactly if the two maps differ there.
pub compare_data-differs :
    (marshal : Value → String) (d1 d2 : Fields) (k : String)
    → reports k (compare_data marshal d1 d2) ≡ differs marshal k d1 d2
unfolding compare_data
compare_data-differs marshal d1 d2 k =
    reports-compare_keys marshal d1 d2 k (add_keys d1 (add_keys d2 []))
    ∙ rw (elem-add_keys k d1 (add_keys d2 []), elem-add_keys k d2 [])
        (elim (Option-cases (get_field k d1)) [
          | inr (v1, has1) ↦ rw has1 refl
          | inl no1 ↦ elim (Option-cases (get_field k d2)) [
            | inr (v2, has2) ↦ rw (no1, has2) refl
            | inl no2 ↦ ground arith
          ]
        ])

find_sandbox-snoc :
    (id : String) (rows : List SandboxRow) (r : SandboxRow)
    → find_sandbox id rows ≡ none
    → r.sandbox_id ≡ id
    → find_sandbox id (rows ++ r ∷ []) ≡ some r
find_sandbox-snoc id [] r absent is_id = rw (is_id, eq_refl id) refl
find_sandbox-snoc id (s ∷ rows) r absent is_id = elim (Bool-cases (s.sandbox_id == id)) [
  | inl same ↦ absurd (ground arith)
  | inr other ↦ rw other (find_sandbox-snoc id rows r (ground arith) is_id)
]

-- What a sandbox is created with is read back, if its JSON text can be read back, its id is new, and the
-- statements are carried out; it is a draft without a proposal.
pub get_sandbox-create_sandbox :
    (env : Env) (case_id : String) (d : Fields) (rows : List SandboxRow) (text : String)
    → env.marshal d ≡ ok text
    → env.unmarshal text ≡ some d
    → env.driver insert_sandbox ≡ none
    → env.driver select_sandbox ≡ none
    → find_sandbox env.sandbox_id rows ≡ none
    → (rows' : List SandboxRow) × (create_sandbox env case_id d rows ≡ ok (env.sandbox_id, rows'))
      × (get_sandbox env env.sandbox_id rows'
          ≡ ok (
              some (record {
                sandbox_id = env.sandbox_id;
                case_id = case_id;
                proposal_id = none;
                sandbox_data = d;
                status = "draft";
                created_at = env.now;
                updated_at = none;
              })))
unfolding create_sandbox get_sandbox
get_sandbox-create_sandbox env case_id d rows text marshalled readable inserts selects fresh =
    let row : SandboxRow = record {
      sandbox_id = env.sandbox_id;
      case_id = case_id;
      proposal_id = none;
      sandbox_data = text;
      status = "draft";
      created_at = env.now;
      updated_at = none;
    } in
    (
      rows ++ row ∷ [],
      rw (marshalled, inserts, create_sandbox) refl,
      rw (selects, find_sandbox-snoc env.sandbox_id rows row fresh refl, get_sandbox)
          (rw readable refl),
    )
