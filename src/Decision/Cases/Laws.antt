-- ===== src/Decision/Cases/Laws.antt =====
-- How often an alert gets a case (internal/decision/case_service.go).
use baxi.Base.{
  ◌≡◌, refl, ◌≢◌, ◌∙◌, sym, inl, inr, ap, ◌&&◌, ◌||◌, Bool, true, false, Option, none, some, List,
  [], ◌∷◌, ◌++◌, String, ◌==◌, arith, eq_refl, Option-cases, ==_of_ne, Result, ok, err,
}
use baxi.Store.{Db, CaseRow}
use baxi.Decision.Repository.{
  create_case, get_case_by_source, same_text, find_source, sought, is_active, any_conflict,
  select_case_by_source, insert_case,
}
use baxi.Decision.Cases.{Env, AlertRow, DecisionCase, row_to_case, new_case, create_case_from_alert}

abbrev pub is_error : Result DecisionCase → Bool
is_error (ok c) = false
is_error (err m) = true

sought_named : (s : String) → (s == "") ≡ false → sought s ≡ some s
sought_named s named = rw named refl

-- The case that `GetCaseBySource` finds for an alert.
abbrev pub case_of : String → Db → Option CaseRow
case_of alert_id db = find_source (some "alert") (sought alert_id) db.cases

find_source-snoc :
    (t s : Option String) (c : CaseRow) (cs : List CaseRow)
    → find_source t s cs ≡ none
    → (same_text c.source_type t && same_text c.source_id s) ≡ true
    → find_source t s (cs ++ c ∷ []) ≡ some c
find_source-snoc t s c [] h same = ground arith
find_source-snoc t s c (d ∷ cs) h same = ground (arith, find_source-snoc t s c cs)

-- A case that is active is returned as it is.
existing :
    (env : Env) (alert_id by : String) (db : Db) (a : AlertRow) (c : CaseRow)
    → env.alert alert_id ≡ ok a
    → env.driver select_case_by_source ≡ none
    → case_of alert_id db ≡ some c
    → is_active c ≡ true
    → create_case_from_alert env alert_id by db ≡ (ok (row_to_case c), db)
unfolding create_case_from_alert get_case_by_source
existing env alert_id by db a c alert selects found active = ground arith

with_case : CaseRow → Db → Db
with_case c db = record db { cases = db.cases ++ c ∷ [] }

first_case :
    (env : Env) (alert_id by : String) (db : Db) (a : AlertRow)
    → env.alert alert_id ≡ ok a
    → env.driver select_case_by_source ≡ none
    → env.driver insert_case ≡ none
    → case_of alert_id db ≡ none
    → any_conflict (new_case env alert_id by a) db.cases ≡ false
    → create_case_from_alert env alert_id by db
      ≡ (ok (row_to_case (new_case env alert_id by a)), with_case (new_case env alert_id by a) db)
unfolding create_case_from_alert get_case_by_source create_case with_case
first_case env alert_id by db a alert selects inserts fresh free = ground arith

-- The first call for an alert adds a case, and a second one, in whichever surroundings, returns that
-- case and adds none, if their statements are carried out.
pub create_case_from_alert_idem :
    (env env' : Env) (alert_id by by' : String) (db : Db) (a a' : AlertRow)
    → alert_id ≢ ""
    → env.alert alert_id ≡ ok a
    → env'.alert alert_id ≡ ok a'
    → env.driver select_case_by_source ≡ none
    → env.driver insert_case ≡ none
    → env'.driver select_case_by_source ≡ none
    → case_of alert_id db ≡ none
    → any_conflict (new_case env alert_id by a) db.cases ≡ false
    → let (r, db1) = create_case_from_alert env alert_id by db in
      (r ≡ ok (row_to_case (new_case env alert_id by a)))
      × (db1.cases ≡ db.cases ++ new_case env alert_id by a ∷ [])
      × (create_case_from_alert env' alert_id by' db1 ≡ (r, db1))
unfolding with_case
create_case_from_alert_idem env env' alert_id by by' db a a' named alert alert' selects inserts
      selects' fresh free =
    let c = new_case env alert_id by a in
    let other = ==_of_ne alert_id "" named in
    let first = first_case env alert_id by db a alert selects inserts fresh free in
    let is_there : case_of alert_id (with_case c db) ≡ some c = rw other (
      find_source-snoc (some "alert") (some alert_id) c db.cases
        (ap (λ t. find_source (some "alert") t db.cases) (sym (sought_named alert_id other))
          ∙ fresh)
        (eq_refl alert_id)) in
    (
      ap (λ r. r.0) first,
      ap (λ r. r.1.cases) first,
      ap (λ r. create_case_from_alert env' alert_id by' r.1) first
          ∙ (existing env' alert_id by' (with_case c db) a' c alert' selects' is_there refl
              ∙ sym first),
    )

-- Some case of the alert is active.
abbrev pub has_active : String → List CaseRow → Bool
has_active alert_id [] = false
has_active alert_id (c ∷ cs) =
    (is_active c
      && (same_text (some "alert") c.source_type && same_text (some alert_id) c.source_id))
    || has_active alert_id cs

has_active-conflict :
    (env : Env) (alert_id by : String) (a : AlertRow) (cs : List CaseRow)
    → has_active alert_id cs ≡ true
    → any_conflict (new_case env alert_id by a) cs ≡ true
has_active-conflict env alert_id by a [] h = absurd (cc)
has_active-conflict env alert_id by a (c ∷ cs) h = elim (Option-cases c.source_type) [
  | inl no_type ↦ ground (arith, has_active-conflict env alert_id by a cs)
  | inr (t, type) ↦ elim (Option-cases c.source_id) [
    | inl no_id ↦ ground (arith, has_active-conflict env alert_id by a cs)
    | inr (i, id) ↦ ground (arith, has_active-conflict env alert_id by a cs)
  ]
]

-- Once the case that the query finds for an alert is closed or failed while another one of the alert
-- is active, the call fails on the unique index and returns neither.
pub create_case_from_alert-blocked :
    (env : Env) (alert_id by : String) (db : Db) (a : AlertRow) (c : CaseRow)
    → env.alert alert_id ≡ ok a
    → env.driver select_case_by_source ≡ none
    → env.driver insert_case ≡ none
    → case_of alert_id db ≡ some c
    → is_active c ≡ false
    → has_active alert_id db.cases ≡ true
    → (is_error (create_case_from_alert env alert_id by db).0 ≡ true)
      × ((create_case_from_alert env alert_id by db).1 ≡ db)
unfolding create_case_from_alert get_case_by_source create_case
create_case_from_alert-blocked env alert_id by db a c alert selects inserts found closed active =
    let conflict = has_active-conflict env alert_id by a db.cases active in
    (ground arith, ground arith)
