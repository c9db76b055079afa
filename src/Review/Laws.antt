-- ===== src/Review/Laws.antt =====
-- What one review does (internal/review/service.go, `transitionProposal`).
use mathlib.Core.Path.{subst}
use baxi.Base.{
  ◌≡◌, refl, ◌⊎◌, inl, inr, ◌≢◌, none, some, [], ◌∷◌, ◌++◌, String, ◌==◌, arith, eq_iff,
  Option-cases, Bool-cases, ==_of_ne,
}
use baxi.Store.{
  Db, ProposalRow, ReviewRecord, LineageEvent, find_proposal, update_proposal, find_case,
}
use baxi.Review.{
  Env, Transition, Outcome, done, failed, ReviewError, invalid_state, Stmt, transition_proposal,
  transition_body, write_review, update_apply_status, exec, ◌>>=◌, update_case_status_if_needed,
  review_record, audit_row, record_lineage, lineage_event,
}

-- The case update touches the cases alone.
case_update_keeps :
    (env : Env) (case_id : String) (db db' : Db)
    → update_case_status_if_needed env case_id db ≡ done db'
    → (db'.proposals ≡ db.proposals)
      × (db'.reviews ≡ db.reviews)
      × (db'.audit ≡ db.audit)
      × (db'.outbox ≡ db.outbox)
unfolding update_case_status_if_needed
case_update_keeps env case_id db db' h = elim (Option-cases (find_case case_id db.cases)) [
  | inl missing ↦ (ground arith, ground arith, ground arith, ground arith)
  | inr (c, found) ↦ (ground arith, ground arith, ground arith, ground arith)
]

abbrev pub set_status : String → ProposalRow → ProposalRow
set_status status p = record p { apply_status = status }

-- What a review that succeeds has done.
pub record Reviewed (env : Env) (t : Transition) (db db' : Db) : Type 0 where
  pub before : ProposalRow
  pub found : find_proposal t.proposal_id db.proposals ≡ some before
  pub was_proposed : before.apply_status ≡ "proposed"
  pub proposals :
      db'.proposals ≡ update_proposal t.proposal_id (set_status t.new_status) db.proposals
  pub reviews : db'.reviews ≡ db.reviews ++ review_record env t ∷ []
  pub audit : db'.audit ≡ db.audit ++ audit_row t ∷ []
  pub outbox : db'.outbox ≡ db.outbox

>>=-eq-done :
    {A B : Type 0} (m : Outcome A) (f : A → Outcome B) {b : B}
    → (m >>= f) ≡ done b
    → (a : A) × (m ≡ done a) × (f a ≡ done b)
>>=-eq-done (done a) f h = (a, refl, h)
>>=-eq-done (failed e) f h = cc

pub Outcome-cases :
    {A : Type 0} (m : Outcome A) → ((a : A) × (m ≡ done a)) ⊎ ((e : ReviewError) × (m ≡ failed e))
Outcome-cases (done a) = inl (a, refl)
Outcome-cases (failed e) = inr (e, refl)

-- The tables that the recorder leaves alone.
lineage_keeps :
    (env : Env) (e : LineageEvent) (db : Db)
    → ((record_lineage env e db).proposals ≡ db.proposals)
      × ((record_lineage env e db).reviews ≡ db.reviews)
      × ((record_lineage env e db).audit ≡ db.audit)
      × ((record_lineage env e db).outbox ≡ db.outbox)
lineage_keeps env e db = elim (Option-cases env.recorder) [
  | inl none_attached ↦ (ground arith, ground arith, ground arith, ground arith)
  | inr (writes, attached) ↦ (ground arith, ground arith, ground arith, ground arith)
]

status_update :
    (env : Env) (id status : String) (db db' : Db)
    → update_apply_status env id status db ≡ done db'
    → db' ≡ record db { proposals = update_proposal id (set_status status) db.proposals }
status_update env id status db db' h = elim (Option-cases (find_proposal id db.proposals)) [
  | inl missing ↦ ground arith
  | inr (p, found) ↦ ground arith
]

write_review-effect :
    (env : Env) (t : Transition) (p : ProposalRow) (db db' : Db)
    → write_review env t p db ≡ done db'
    → (db'.proposals ≡ update_proposal t.proposal_id (set_status t.new_status) db.proposals)
      × (db'.reviews ≡ db.reviews ++ review_record env t ∷ [])
      × (db'.audit ≡ db.audit ++ audit_row t ∷ [])
      × (db'.outbox ≡ db.outbox)
unfolding write_review
write_review-effect env t p db db' h =
    let (db1, status, h1) =
      >>=-eq-done (update_apply_status env t.proposal_id t.new_status db) _ h in
    let (_, inserted, h2) =
      >>=-eq-done (exec env.driver Stmt.insert_review "insert review record") _ h1 in
    let db2 : Db = record db1 { reviews = db1.reviews ++ review_record env t ∷ [] } in
    let (db3, case_done, h3) =
      >>=-eq-done
        (update_case_status_if_needed env p.case_id (record_lineage env (lineage_event t p) db2)) _
        h2 in
    let (_, audited, h4) =
      >>=-eq-done (exec env.driver Stmt.insert_audit "insert audit log") _ h3 in
    let updated = status_update env t.proposal_id t.new_status db db1 status in
    let kept =
      case_update_keeps env p.case_id (record_lineage env (lineage_event t p) db2) db3 case_done in
    let recorded = lineage_keeps env (lineage_event t p) db2 in (cc, cc, cc, cc)

body-Reviewed :
    (env : Env) (t : Transition) (db db' : Db)
    → transition_body env t db ≡ done db'
    → Reviewed env t db db'
unfolding transition_body
body-Reviewed env t db db' h =
    let (_, began, h1) = >>=-eq-done (exec env.driver Stmt.begin "begin transaction") _ h in
    let (_, selected, h2) =
      >>=-eq-done (exec env.driver Stmt.select_proposal "select proposal for update") _ h1 in
    elim (Option-cases (find_proposal t.proposal_id db.proposals)) [
      | inl missing ↦ absurd (ground arith)
      | inr (p, found) ↦ elim (Bool-cases (p.apply_status == "proposed")) [
        | inr other ↦ absurd (ground arith)
        | inl proposed ↦
            let (proposals, reviews, audit, outbox) =
              write_review-effect env t p db db' (ground arith) in
            record {
              before = p;
              found = found;
              was_proposed = (eq_iff p.apply_status "proposed").0 proposed;
              proposals = proposals;
              reviews = reviews;
              audit = audit;
              outbox = outbox;
            }
      ]
    ]

pub transition-Reviewed :
    (env : Env) (t : Transition) (db db' : Db) (rec : ReviewRecord)
    → transition_proposal env t db ≡ (done rec, db')
    → (rec ≡ review_record env t) × Reviewed env t db db'
unfolding transition_proposal
transition-Reviewed env t db db' rec h = elim (Outcome-cases (transition_body env t db)) [
  | inr (e, ran) ↦ absurd (ground arith)
  | inl (db1, ran) ↦ elim (Option-cases (env.driver Stmt.commit)) [
    | inr (m, refused) ↦ absurd (ground arith)
    | inl committed ↦
        let last : db1 ≡ db' = ground arith in
        (ground arith, subst (Reviewed env t db) last (body-Reviewed env t db db1 ran))
  ]
]

-- A review that fails leaves the database as it was.
pub transition_atomic :
    (env : Env) (t : Transition) (db db' : Db) (e : ReviewError)
    → transition_proposal env t db ≡ (failed e, db')
    → db' ≡ db
unfolding transition_proposal
transition_atomic env t db db' e h = ground arith

-- A proposal that is not `proposed` cannot be reviewed: the review returns the status that it found,
-- and changes nothing.
pub transition_invalid :
    (env : Env) (t : Transition) (db : Db) (p : ProposalRow)
    → ((s : Stmt) → env.driver s ≡ none)
    → find_proposal t.proposal_id db.proposals ≡ some p
    → p.apply_status ≢ "proposed"
    → transition_proposal env t db ≡ (failed (invalid_state p.apply_status), db)
unfolding transition_proposal transition_body
transition_invalid env t db p accept found ne =
    let other = ==_of_ne p.apply_status "proposed" ne in
    ground (arith, accept Stmt.begin, accept Stmt.select_proposal)
