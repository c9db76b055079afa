-- ===== src/Review.antt =====
-- The review of action proposals (internal/review): verdicts, and the transaction that approves,
-- rejects or cancels a proposal.
pub mod Laws
pub mod Sandbox
pub mod Once
mod Tests
use baxi.Base.{
  ◌≡◌, ◌||◌, not, Bool, true, false, Option, none, some, List, [], ◌∷◌, ◌++◌, String, ◌==◌,
  if◌then◌else◌, ℤ, Driver, str_append,
}
use baxi.Json.{Fields, end, field, str}
use baxi.Store.{
  Db, ProposalRow, CaseRow, ReviewRecord, AuditRow, LineageEvent, find_proposal, update_proposal,
  find_case, update_case,
}

-- `Verdict.IsValid`.
unfoldable pub is_valid_verdict : String → Bool
is_valid_verdict v = v == "approve" || v == "reject" || v == "cancel"

-- `ReviewRequest`.
pub record ReviewRequest : Type 0 where
  pub reviewer_id : String
  pub verdict : String
  pub feedback : String

-- `ReviewRequest.Validate`: the error's text, if there is one.
unfoldable pub validate_request : ReviewRequest → Option String
unfolding is_valid_verdict
validate_request r =
    if r.reviewer_id == ""
    then some "reviewer_id is required"
    else if is_valid_verdict r.verdict
    then none
    else some "invalid verdict: must be approve, reject, or cancel"

-- What a transition returns in place of a record: the two sentinel errors, the second with the
-- status found, or the context and the cause of a wrapped one.
pub data ReviewError : Type 0 where
  proposal_not_found : ReviewError
  invalid_state : String → ReviewError
  wrapped : String → String → ReviewError

pub data Outcome (A : Type 0) : Type 0 where
  done : A → Outcome A
  failed : ReviewError → Outcome A

infixl 5 ◌>>=◌ ◌>>◌
abbrev pub ◌>>=◌ : {A B : Type 0} → Outcome A → (A → Outcome B) → Outcome B
done a >>= f = f a
failed e >>= f = failed e

abbrev pub ◌>>◌ : {B : Type 0} → Outcome (Unit {0}) → Outcome B → Outcome B
m >> k = m >>= λ _. k

-- The statements of the transaction.
pub data Stmt : Type 0 where
  begin select_proposal update_status insert_review select_case update_case_status : Stmt
  insert_audit commit : Stmt

abbrev pub exec : Driver Stmt → Stmt → String → Outcome (Unit {0})
exec drv s context = elim (drv s) [ none ↦ done tt | some m ↦ failed (wrapped context m) ]

-- What a review sees of the outside. `recorder` is the lineage recorder, if one is attached: it
-- tells whether the event could be written; its error is dropped.
pub record Env : Type 0 where
  pub driver : Driver Stmt
  pub now : ℤ
  pub review_id : String
  pub recorder : Option (LineageEvent → Bool)

-- The arguments of `transitionProposal`.
pub record Transition : Type 0 where
  pub proposal_id : String
  pub reviewer_id : String
  pub feedback : String
  pub verdict : String
  pub new_status : String
  pub audit_action : String

-- `UpdateProposalApplyStatus`.
abbrev pub update_apply_status : Env → String → String → Db → Outcome Db
update_apply_status env id status db = do
  exec env.driver update_status "update proposal status"
  elim (find_proposal id db.proposals) [
    | none ↦ failed (
        wrapped "update proposal status"
          (str_append "action proposal " (str_append id " not found")))
    | some r ↦ done (record db {
      proposals = update_proposal id (λ p. record p { apply_status = status }) db.proposals;
    })
  ]

-- `updateCaseStatusIfNeeded`.
unfoldable pub update_case_status_if_needed : Env → String → Db → Outcome Db
update_case_status_if_needed env case_id db =
    if case_id == ""
    then done db
    else (exec env.driver select_case "select case status" >> elim (find_case case_id db.cases) [
      | none ↦ done db
      | some c ↦
          if c.status == "proposal_generated"
          then (exec env.driver update_case_status "update case status"
              >> done (record db {
                cases =
                    update_case case_id
                      (λ c. record c { status = "review_required"; updated_at = some env.now })
                      db.cases;
              }))
          else done db
    ])

abbrev pub review_record : Env → Transition → ReviewRecord
review_record env t = record {
  record_id = env.review_id;
  proposal_id = t.proposal_id;
  reviewer_id = t.reviewer_id;
  verdict = t.verdict;
  feedback = t.feedback;
  created_at = env.now;
}

abbrev pub audit_row : Transition → AuditRow
audit_row t = record {
  category = "review";
  action = t.audit_action;
  actor = t.reviewer_id;
  resource_type = "action_proposal";
  resource_id = t.proposal_id;
  metadata = field "verdict" (str t.verdict) (field "feedback" (str t.feedback) end);
}

abbrev pub lineage_event : Transition → ProposalRow → LineageEvent
lineage_event t p = record {
  case_id = p.case_id;
  event_type = t.audit_action;
  actor = t.reviewer_id;
  event_data = field "proposal_id" (str t.proposal_id) (
      field "action_type" (str p.action_type)
        (field "verdict" (str t.verdict) (field "feedback" (str t.feedback) end)));
}

-- Step 5: the lineage event, if a recorder is attached and writes it.
abbrev pub record_lineage : Env → LineageEvent → Db → Db
record_lineage env e db = elim env.recorder [
  | none ↦ db
  | some writes ↦ if writes e then record db { lineage = db.lineage ++ e ∷ [] } else db
]

-- Steps 3 to 7, once the proposal `p` is found and is proposed.
unfoldable pub write_review : Env → Transition → ProposalRow → Db → Outcome Db
write_review env t p db = do
  db1 ← update_apply_status env t.proposal_id t.new_status db
  exec env.driver insert_review "insert review record"
  db3 ← update_case_status_if_needed env p.case_id (
      record_lineage env (lineage_event t p)
        (record db1 { reviews = db1.reviews ++ review_record env t ∷ [] }))
  exec env.driver insert_audit "insert audit log"
  done (record db3 { audit = db3.audit ++ audit_row t ∷ [] })

-- The statements between `Begin` and `Commit`, in order.
unfoldable pub transition_body : Env → Transition → Db → Outcome Db
transition_body env t db = do
  exec env.driver begin "begin transaction"
  exec env.driver select_proposal "select proposal for update"
  elim (find_proposal t.proposal_id db.proposals) [
    | none ↦ failed proposal_not_found
    | some p ↦
        if p.apply_status == "proposed"
        then write_review env t p db
        else failed (invalid_state p.apply_status)
  ]

-- `transitionProposal`. The statements write to the transaction's own state, and only the commit makes
-- it that of the tables; the deferred `Rollback`, the database's own, drops it on every error.
unfoldable pub transition_proposal : Env → Transition → Db → Outcome ReviewRecord × Db
transition_proposal env t db = elim (transition_body env t db) [
  | failed e ↦ (failed e, db)
  | done db' ↦ elim (env.driver commit) [
    | some m ↦ (failed (wrapped "commit transaction" m), db)
    | none ↦ (done (review_record env t), db')
  ]
]

-- `ApproveProposal`, `RejectProposal`, `CancelProposal`.
abbrev pub transition : String → String → String → String → String → String → Transition
transition id reviewer feedback verdict status action = record {
  proposal_id = id;
  reviewer_id = reviewer;
  feedback = feedback;
  verdict = verdict;
  new_status = status;
  audit_action = action;
}

unfoldable pub approve_proposal : Env → String → String → String → Db → Outcome ReviewRecord × Db
approve_proposal env id reviewer feedback =
    transition_proposal env
      (transition id reviewer feedback "approve" "approved" "proposal_approved")

unfoldable pub reject_proposal : Env → String → String → String → Db → Outcome ReviewRecord × Db
reject_proposal env id reviewer feedback =
    transition_proposal env
      (transition id reviewer feedback "reject" "rejected" "proposal_rejected")

unfoldable pub cancel_proposal : Env → String → String → String → Db → Outcome ReviewRecord × Db
cancel_proposal env id reviewer feedback =
    transition_proposal env
      (transition id reviewer feedback "cancel" "rejected" "proposal_cancelled")
