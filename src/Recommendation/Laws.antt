-- ===== src/Recommendation/Laws.antt =====
-- What a run of the generator leaves, and the tasks made of it (internal/recommendation/generator.go).
use Prim.Native.Char.{code}
use Prim.Native.String.append
use text.Mathlib.Text.{starts_with}
use text.Mathlib.TextPositions.{starts_with-append, slice-append_right, len-append}
use text.Mathlib.TextEquality.{starts_with_iff}
use mathlib.Core.Path.{subst}
use baxi.Base.{
  ◌≡◌, refl, sym, ap, ◌∙◌, inl, inr, Bool, true, false, Option, none, some, List, [], ◌∷◌, ◌++◌,
  String, str_append, ◌==◌, if◌then◌else◌, eq_refl, ℕ, suc, ◌+◌, nat_eq, length, Bool-cases,
  String-cases, Option-cases, ok, arith,
}
use baxi.Recommendation.{
  TaskRecord, Recommendation, Env, insert_recommendation, select_alerts, recommend, row_of, has_id,
  insert_missing, insert_all, generate, task_of, derive_task_id, derive_task_source,
  derive_priority, risk_of, texts_of, trunc_str,
}
use baxi.Recommendation.Templates.{AlertData}

abbrev pub find : String → List Recommendation → Option Recommendation
find k [] = none
find k (r ∷ rs) = if r.recommendation_id == k then some r else find k rs

abbrev pub or_found : Option Recommendation → Option Recommendation → Option Recommendation
or_found none o = o
or_found (some r) o = some r

or_found_nil : (o : Option Recommendation) → o ≡ or_found o none
or_found_nil none = refl
or_found_nil (some r) = refl

or_found_assoc :
    (a b c : Option Recommendation) → or_found (or_found a b) c ≡ or_found a (or_found b c)
or_found_assoc none b c = refl
or_found_assoc (some r) b c = refl

find-cons :
    (k : String) (r : Recommendation) (rs : List Recommendation)
    → or_found (find k (r ∷ [])) (find k rs) ≡ find k (r ∷ rs)
find-cons k r rs = ground arith

find-append :
    (k : String) (table : List Recommendation) (r : Recommendation)
    → find k (table ++ r ∷ []) ≡ or_found (find k table) (find k (r ∷ []))
find-append k [] r = refl
find-append k (q ∷ qs) r = elim (Bool-cases (q.recommendation_id == k)) [
  | inl e ↦ rw e refl
  | inr e ↦ rw (e, find-append k qs r) refl
]

find-has_id :
    (k : String) (table : List Recommendation)
    → has_id k table ≡ true
    → (r : Recommendation) × (find k table ≡ some r)
find-has_id k [] h = absurd (ground arith)
find-has_id k (q ∷ qs) h = elim (Bool-cases (q.recommendation_id == k)) [
  | inl e ↦ (q, rw e refl)
  | inr e ↦ rw e (find-has_id k qs (ground arith))
]

find-insert_missing :
    (k : String) (r : Recommendation) (table : List Recommendation)
    → find k (insert_missing r table) ≡ or_found (find k table) (find k (r ∷ []))
find-insert_missing k r table = elim (Bool-cases (has_id r.recommendation_id table)) [
  | inr fresh ↦ rw fresh (find-append k table r)
  | inl taken ↦ elim (String-cases r.recommendation_id k) [
    | inl e ↦
        let found = find-has_id k table (subst (λ x. has_id x table ≡ true) e taken) in
        rw (taken, found.1) refl
    | inr e ↦ elim (Option-cases (find k table)) [
      | inl none_there ↦ rw (taken, none_there, e) refl
      | inr (q, there) ↦ rw (taken, there) refl
    ]
  ]
]

has_id-insert_missing :
    (k : String) (r : Recommendation) (table : List Recommendation)
    → has_id k table ≡ true
    → has_id k (insert_missing r table) ≡ true
has_id-insert_missing k r table h = elim (Bool-cases (has_id r.recommendation_id table)) [
  | inl taken ↦ rw taken h
  | inr fresh ↦ rw fresh (go table h)
]
  where
    go : (t : List Recommendation) → has_id k t ≡ true → has_id k (t ++ r ∷ []) ≡ true
    go [] e = absurd (ground arith)
    go (q ∷ qs) e = ground (arith, go qs)

has_id-inserted :
    (r : Recommendation) (table : List Recommendation)
    → has_id r.recommendation_id (insert_missing r table) ≡ true
has_id-inserted r table = elim (Bool-cases (has_id r.recommendation_id table)) [
  | inl taken ↦ rw taken taken
  | inr fresh ↦ rw fresh (go table)
]
  where
    go : (t : List Recommendation) → has_id r.recommendation_id (t ++ r ∷ []) ≡ true
    go [] = ground (arith, eq_refl r.recommendation_id)
    go (q ∷ qs) = ground (arith, go qs)

module _ {F : Type 0} where
  -- The rows that the alerts stand for.
  abbrev pub rows_of : Env F → List (AlertData F) → List Recommendation
  rows_of env [] = []
  rows_of env (a ∷ alerts) = elim (recommend env a) [
    | none ↦ rows_of env alerts
    | some r ↦ r ∷ rows_of env alerts
  ]

  -- Every alert has a row that the database takes, and its id is there.
  abbrev AllThere : Env F → List (AlertData F) → List Recommendation → Type 0
  AllThere env [] table = Unit
  AllThere env (a ∷ alerts) table =
      ((r : Recommendation) × (recommend env a ≡ some r)
        × (env.driver (insert_recommendation r.recommendation_id) ≡ none)
        × (has_id r.recommendation_id table ≡ true))
      × AllThere env alerts table

  record Inserted (env : Env F) (n : ℕ) (alerts : List (AlertData F))
      (before after : List Recommendation) (m : ℕ) : Type 0 where
    counted : m ≡ n + length alerts
    there : AllThere env alerts after
    kept : (k : String) → has_id k before ≡ true → has_id k after ≡ true
    found : (k : String) → find k after ≡ or_found (find k before) (find k (rows_of env alerts))

  insert_all-Inserted :
      (env : Env F) (n : ℕ) (alerts : List (AlertData F)) (before after : List Recommendation)
      (m : ℕ)
      → insert_all env n alerts before ≡ (ok m, after)
      → Inserted env n alerts before after m
  unfolding insert_all
  insert_all-Inserted env n [] before after m done =
      let same : before ≡ after = ap (λ x. x.1) done in
      record {
        counted = ground arith;
        there = tt;
        kept = λ k h. subst (λ t. has_id k t ≡ true) same h;
        found = λ k. ap (find k) (sym same) ∙ or_found_nil (find k before);
      }
  insert_all-Inserted env n (a ∷ alerts) before after m done =
      elim (Option-cases (recommend env a)) [
        | inl cut ↦ absurd (ground arith)
        | inr (r, row) ↦
            elim (Option-cases (env.driver (insert_recommendation r.recommendation_id))) [
              | inr (e, refused) ↦ absurd (ground arith)
              | inl taken ↦
                  let rest =
                    insert_all-Inserted env (suc n) alerts (insert_missing r before) after m
                      (ground arith) in
                  let rows : rows_of env (a ∷ alerts) ≡ r ∷ rows_of env alerts =
                    rw (row, rows_of) refl in
                  record {
                    counted = ground (arith, rest.counted);
                    there = (
                      (r, row, taken, rest.kept r.recommendation_id (has_id-inserted r before)),
                      rest.there,
                    );
                    kept = λ k h. rest.kept k (has_id-insert_missing k r before h);
                    found = λ k.
                        rest.found k
                        ∙ (ap (λ o. or_found o (find k (rows_of env alerts)))
                              (find-insert_missing k r before)
                            ∙ (or_found_assoc (find k before) (find k (r ∷ []))
                                  (find k (rows_of env alerts))
                                ∙ (ap (or_found (find k before))
                                      (find-cons k r (rows_of env alerts))
                                    ∙ ap (λ rs. or_found (find k before) (find k rs)) (sym rows))));
                  }
            ]
      ]

  AllThere-insert_all :
      (env : Env F) (n : ℕ) (alerts : List (AlertData F)) (table : List Recommendation)
      → AllThere env alerts table
      → insert_all env n alerts table ≡ (ok (n + length alerts), table)
  unfolding insert_all
  AllThere-insert_all env n [] table h = ap (λ x. (ok x, table)) (omega arith)
  AllThere-insert_all env n (a ∷ alerts) table ((r, row, taken, there), rest) =
      ground (arith, AllThere-insert_all env (suc n) alerts table rest)

  -- After a run that succeeds, each id has the row that it had before, or else that of the first alert
  -- with this id, and the count is that of the alerts. A second run counts them again and changes
  -- nothing.
  pub generate-idempotent :
      (env : Env F) (alerts : List (AlertData F)) (before after : List Recommendation) (n : ℕ)
      → generate env alerts before ≡ (ok n, after)
      → (n ≡ length alerts)
        × ((k : String) → find k after ≡ or_found (find k before) (find k (rows_of env alerts)))
        × (generate env alerts after ≡ (ok n, after))
  unfolding generate
  generate-idempotent env alerts before after n done =
      elim (Option-cases (env.driver select_alerts)) [
        | inr (m, refused) ↦ absurd (ground arith)
        | inl answers ↦
            let run : Inserted env 0 alerts before after n =
              insert_all-Inserted env 0 alerts before after n (ground arith) in
            let count : 0 + length alerts ≡ length alerts = omega arith in
            (
              run.counted ∙ count,
              run.found,
              rw (answers, generate)
                  (AllThere-insert_all env 0 alerts after run.there
                    ∙ ap (λ x. (ok x, after)) (sym run.counted)),
            )
      ]

first_is_d : String → Bool
first_is_d String.[] = false
first_is_d (String.◌∷◌ c s) = nat_eq (code c) 100

rec_is_not_dimrec : (id : String) → starts_with (str_append "rec-" id) "dimrec-" ≡ false
unfolding first_is_d
rec_is_not_dimrec id = elim (Bool-cases (starts_with (str_append "rec-" id) "dimrec-")) [
  | inr no_prefix ↦ no_prefix
  | inl is_prefix ↦
      let (rest, e) = (starts_with_iff (str_append "rec-" id) "dimrec-").0 is_prefix in
      absurd
        (ground (arith, ap first_is_d e, append.cons "d" "imrec-" rest, append.cons "r" "ec-" id))
]

derive_task_id-rec : (id : String) → derive_task_id (str_append "rec-" id) ≡ str_append "task-" id
unfolding derive_task_id
derive_task_id-rec id =
    rw (rec_is_not_dimrec id, starts_with-append "rec-" id)
      (ap (str_append "task-") (rw (len-append "rec-" id) (slice-append_right "rec-" id)))

priority_of_severity :
    (severity : String)
    → derive_priority (risk_of severity)
      ≡ (if severity == "high" then "high" else if severity == "low" then "low" else "medium")
unfolding derive_priority
priority_of_severity severity = elim (String-cases severity "") [
  | inl e ↦ rw e refl
  | inr e ↦ elim (String-cases severity "high") [
    | inl high ↦ rw high refl
    | inr low ↦ elim (String-cases severity "low") [ inl e' ↦ rw e' refl | inr e' ↦ ground arith ]
  ]
]

abbrev pub IsTaskOf : {F : Type 0} → AlertData F → TaskRecord → Type 0
IsTaskOf a t =
    (t.task_id ≡ str_append "task-" a.alert_id)
    × (t.alert_id ≡ a.alert_id)
    × (t.task_source ≡ "heuristic_strategy")
    × (t.priority ≡ (
        if a.severity == "high" then "high" else if a.severity == "low" then "low" else "medium"))

-- The task of the recommendation for an alert: its id is that of the alert behind `task-`, its source
-- is the heuristic strategy also where the alert is dimensional, and its priority is the severity
-- where that is high or low, and else medium, for a critical alert too.
pub task_of-recommend :
    {F : Type 0} (env : Env F) (a : AlertData F) (r : Recommendation)
    → recommend env a ≡ some r
    → IsTaskOf a (task_of r)
unfolding recommend task_of
task_of-recommend env a r made = elim (Option-cases (texts_of env a)) [
  | inl cut ↦ absurd (ground arith)
  | inr (t, texts) ↦ elim (Option-cases (trunc_str env.trim_space t.detail 1000)) [
    | inl cut ↦ absurd (ground arith)
    | inr (detail, kept) ↦
        let is : row_of a t detail ≡ r = ground arith in
        subst (λ x. IsTaskOf a (task_of x)) is
          (
            derive_task_id-rec a.alert_id,
            refl,
            rw (rec_is_not_dimrec a.alert_id, derive_task_source) refl,
            priority_of_severity a.severity,
          )
  ]
]
