-- ===== src/Action/Apply/Laws.antt =====
-- What the steps of a live execution do (internal/action/apply_service.go, outbox_integration.go).
use baxi.Base.{
  ◌≡◌, refl, ◌⊎◌, inl, inr, ◌∙◌, Bool, true, false, none, some, List, [], ◌∷◌, ◌++◌, String, arith,
  eq_refl, Bool-cases, Option-cases, Result-cases, ok, is_some, if◌then◌else◌,
}
use baxi.Outbox.{Table, OutboxEvent, Row, find_row, inserted_row, create_event}
use baxi.Outbox
use baxi.Store.{Db, ProposalRow, find_proposal, update_proposal, find_proposal-update_proposal}
use baxi.Action.Model.{ActionProposal, ExecutionResult}
use baxi.Action.Apply.{
  Env, Outcome, done, failed, ApplyError, Stmt, update_proposal_status, update_proposal_to_applied,
  create_outbox_event_from_proposal, insert_audit_log, set_status, set_applied, settle, give_up,
  proposal_event, envelope, or_else,
}

pub Outcome-cases :
    {A : Type 0} (m : Outcome A) → ((a : A) × (m ≡ done a)) ⊎ ((e : ApplyError) × (m ≡ failed e))
Outcome-cases (done a) = inl (a, refl)
Outcome-cases (failed e) = inr (e, refl)

abbrev pub with_proposals : String → (ProposalRow → ProposalRow) → Db → Db
with_proposals id f db = record db { proposals = update_proposal id f db.proposals }

pub status_update :
    (env : Env) (id status : String) (db db' : Db)
    → update_proposal_status env id status db ≡ done db'
    → db' ≡ with_proposals id (set_status status) db
unfolding update_proposal_status
status_update env id status db db' h = elim (Option-cases (find_proposal id db.proposals)) [
  | inl missing ↦ ground arith
  | inr (row, found) ↦ ground arith
]

applied_update :
    (env : Env) (id actor : String) (db db' : Db)
    → update_proposal_to_applied env id actor db ≡ done db'
    → db' ≡ with_proposals id (set_applied env.now actor) db
unfolding update_proposal_to_applied
applied_update env id actor db db' h = elim (Option-cases (find_proposal id db.proposals)) [
  | inl missing ↦ ground arith
  | inr (row, found) ↦ ground arith
]

-- The outbox with the event of the proposal, unless a row has its id.
abbrev pub with_event : Env → ActionProposal → String → Table → Table
with_event env p payload t =
    if is_some (find_row env.event_id t)
    then t
    else t ++ inserted_row env.now (proposal_event env p payload) ∷ []

event_created :
    (env : Env) (p : ActionProposal) (db db' : Db) (event : OutboxEvent)
    → create_outbox_event_from_proposal env p db ≡ done (event, db')
    → (payload : String) × (env.marshal (envelope env p) ≡ ok payload)
      × (event ≡ proposal_event env p payload)
      × (db' ≡ record db { outbox = with_event env p payload db.outbox })
unfolding create_outbox_event_from_proposal create_event
event_created env p db db' event h = elim (Result-cases (env.marshal (envelope env p))) [
  | inr (m, refused) ↦ absurd (ground arith)
  | inl (payload, marshalled) ↦
      elim (Option-cases (env.outbox_driver (Outbox.Stmt.insert env.event_id))) [
        | inr (m, refused) ↦ absurd (ground arith)
        | inl inserted ↦ elim (Bool-cases (is_some (find_row env.event_id db.outbox))) [
          | inl there ↦ (payload, marshalled, ground arith, ground arith)
          | inr fresh ↦ (payload, marshalled, ground arith, ground arith)
        ]
      ]
]

pub settled_applied :
    (env : Env) (actor : String) (p : ActionProposal) (r r' : ExecutionResult) (db db' : Db)
    → settle env actor p r db ≡ done (r', db')
    → r.success ≡ true
    → (payload : String) × (env.marshal (envelope env p) ≡ ok payload)
      × (r' ≡ record r { outbox_event_id = env.event_id })
      × (db' ≡ record (with_proposals p.proposal_id (set_applied env.now actor) db) {
        outbox = with_event env p payload db.outbox;
      })
unfolding settle
settled_applied env actor p r r' db db' h success =
    elim (Outcome-cases (update_proposal_to_applied env p.proposal_id actor db)) [
      | inr (e, refused) ↦ absurd (ground arith)
      | inl (db1, applied) ↦
          let updated = applied_update env p.proposal_id actor db db1 applied in
          elim (Outcome-cases (create_outbox_event_from_proposal env p db1)) [
            | inr (e, refused) ↦ absurd (ground arith)
            | inl ((event, db2), created) ↦
                let (payload, marshalled, is_event, is_db) =
                  event_created env p db1 db2 event created in
                (payload, marshalled, ground arith, ground arith)
          ]
    ]

pub settled_failed :
    (env : Env) (actor : String) (p : ActionProposal) (r r' : ExecutionResult) (db db' : Db)
    → settle env actor p r db ≡ done (r', db')
    → r.success ≡ false
    → (r' ≡ r) × (db' ≡ with_proposals p.proposal_id (set_status "failed") db)
unfolding settle
settled_failed env actor p r r' db db' h fails =
    elim (Outcome-cases (update_proposal_status env p.proposal_id "failed" db)) [
      | inr (e, refused) ↦ absurd (ground arith)
      | inl (db1, updated) ↦
          let is_db = status_update env p.proposal_id "failed" db db1 updated in
          (ground arith, ground arith)
    ]

-- The audit row touches the audit table alone.
pub audit_keeps :
    (env : Env) (actor : String) (p : ActionProposal) (b : Bool) (msg : String) (db : Db)
    → ((or_else (insert_audit_log env actor p b msg db) db).proposals ≡ db.proposals)
      × ((or_else (insert_audit_log env actor p b msg db) db).outbox ≡ db.outbox)
unfolding insert_audit_log
audit_keeps env actor p b msg db = elim (Option-cases (env.driver Stmt.insert_audit)) [
  | inl accepted ↦ (ground arith, ground arith)
  | inr (m, refused) ↦ (ground arith, ground arith)
]

-- A proposal that is there stays there under an update of its status.
pub find-set_status :
    (id status : String) (rows : List ProposalRow) (row : ProposalRow)
    → find_proposal id rows ≡ some row
    → find_proposal id (update_proposal id (set_status status) rows) ≡ some (set_status status row)
find-set_status id status rows row found =
    find_proposal-update_proposal id id (set_status status) rows (λ r. refl)
    ∙ rw (eq_refl id, found) refl

pub status_accepted :
    (env : Env) (id status : String) (db : Db) (row : ProposalRow)
    → env.driver (Stmt.update_status status) ≡ none
    → find_proposal id db.proposals ≡ some row
    → update_proposal_status env id status db ≡ done (with_proposals id (set_status status) db)
unfolding update_proposal_status
status_accepted env id status db row accepts found = ground arith

pub status_found :
    (env : Env) (id status : String) (db db' : Db)
    → update_proposal_status env id status db ≡ done db'
    → (row : ProposalRow) × (find_proposal id db.proposals ≡ some row)
unfolding update_proposal_status
status_found env id status db db' h = elim (Option-cases (find_proposal id db.proposals)) [
  | inl missing ↦ absurd (ground arith)
  | inr there ↦ there
]

-- Where no executor serves the channel, the proposal is marked as failed, if the driver does so.
pub given_up :
    (env : Env) (actor : String) (p : ActionProposal) (db : Db) (row : ProposalRow)
    → env.driver (Stmt.update_status "failed") ≡ none
    → find_proposal p.proposal_id db.proposals ≡ some row
    → ((give_up env actor p db).proposals
        ≡ update_proposal p.proposal_id (set_status "failed") db.proposals)
      × ((give_up env actor p db).outbox ≡ db.outbox)
unfolding give_up insert_audit_log
given_up env actor p db row accepts found =
    let failed_now = status_accepted env p.proposal_id "failed" db row accepts found in
    elim (Option-cases (env.driver Stmt.insert_audit)) [
      | inl accepted ↦ (ground arith, ground arith)
      | inr (m, refused) ↦ (ground arith, ground arith)
    ]

pub settle_success :
    (env : Env) (actor : String) (p : ActionProposal) (r r' : ExecutionResult) (db db' : Db)
    → settle env actor p r db ≡ done (r', db')
    → r'.success ≡ r.success
unfolding settle
settle_success env actor p r r' db db' h = elim (Bool-cases r.success) [
  | inr broke ↦ elim (Outcome-cases (update_proposal_status env p.proposal_id "failed" db)) [
    | inr (e, refused) ↦ absurd (ground arith)
    | inl (db1, updated) ↦ ground arith
  ]
  | inl worked ↦ elim (Outcome-cases (update_proposal_to_applied env p.proposal_id actor db)) [
    | inr (e, refused) ↦ absurd (ground arith)
    | inl (db1, applied) ↦ elim (Outcome-cases (create_outbox_event_from_proposal env p db1)) [
      | inr (e, refused) ↦ absurd (ground arith)
      | inl ((event, db2), created) ↦ ground arith
    ]
  ]
]
