-- ===== src/Decision/Cases/Tests.antt =====
-- Cases from alerts at concrete tables.
use baxi.Base.{◌≡◌, refl, ◌≢◌, ap, true, false, Option, none, [], ◌∷◌, String, ◌==◌, pos, ok}
use baxi.Store.{Db, CaseRow}
use baxi.Decision.Repository.{Stmt, create_case, get_case_by_source}
use baxi.Decision.Cases.{Env, AlertRow, new_case, create_case_from_alert}
use baxi.Decision.Cases.Laws.{is_error, create_case_from_alert-blocked}

abbrev accept : Stmt → Option String
accept s = none

abbrev alert : AlertRow
alert = record { object_type = "seller"; object_id = "s_1"; severity = "high" }

abbrev env : Env
env = record { driver = accept; now = pos 5; case_id = "case_2"; alert = λ id. ok alert }

abbrev next : Env
next = record env { case_id = "case_3"; now = pos 6 }

abbrev empty : Db
empty = record {
  proposals = [];
  cases = [];
  decisions = [];
  reviews = [];
  audit = [];
  lineage = [];
  outbox = [];
}

abbrev first : CaseRow
first = new_case (record env { case_id = "case_1" }) "alert_1" "alice" alert

-- The first case of the alert is closed, the second one is active.
abbrev reopened : Db
reopened = record empty {
  cases = record first { status = "closed" } ∷ new_case env "alert_1" "alice" alert ∷ [];
}

named : ◌≢◌ {A = String} "alert_1" ""
named e = let conflict : false ≡ true = ap (λ s. s == "") e in absurd (cc)

once :
    (create_case_from_alert next "alert_1" "bob"
      (create_case_from_alert env "alert_1" "alice" empty).1).1.cases
    ≡ new_case env "alert_1" "alice" alert ∷ []
unfolding create_case_from_alert get_case_by_source create_case
once = refl

create_case_from_alert-blocked_example :
    (is_error (create_case_from_alert next "alert_1" "bob" reopened).0 ≡ true)
    × ((create_case_from_alert next "alert_1" "bob" reopened).1 ≡ reopened)
create_case_from_alert-blocked_example =
    create_case_from_alert-blocked next "alert_1" "bob" reopened alert
      (record first { status = "closed" }) refl refl refl refl refl refl
