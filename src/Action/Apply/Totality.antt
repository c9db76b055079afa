-- ===== src/Action/Apply/Totality.antt =====
-- When a live execution succeeds, and what a refused commit leaves (internal/action/apply_service.go).
use baxi.Base.{
  ◌≡◌, inl, inr, true, false, none, some, [], ◌∷◌, ◌++◌, String, arith, Option-cases, Result-cases,
  lookup, ok,
}
use baxi.Outbox
use baxi.Outbox.{create_event, find_row}
use baxi.Store.{Db, ProposalRow, find_proposal}
use baxi.Action.Model.{ActionProposal, Executor, ExecutionResult, execute, action_channel}
use baxi.Action.Apply.{
  Env, World, Outcome, done, failed, wrapped, Stmt, set_status, set_applied, settle, run_executor,
  proposal_event, envelope, update_proposal_to_applied, create_outbox_event_from_proposal,
  execute_for_real,
}
use baxi.Action.Apply.Laws.{with_proposals, find-set_status, status_accepted}

-- The surroundings in which a live execution of `p` has what it needs, the commit aside.
pub record Ready (env : Env) (p : ActionProposal) (w : World) : Type 0 where
  pub row : ProposalRow
  pub executor : Executor
  pub result : ExecutionResult
  pub payload : String
  pub found : find_proposal p.proposal_id w.db.proposals ≡ some row
  pub served : lookup (action_channel p.action_type) env.executors ≡ some executor
  pub runs : execute executor p false ≡ ok result
  pub succeeds : result.success ≡ true
  pub marshalled : env.marshal (envelope env p) ≡ ok payload
  pub began : env.driver Stmt.begin ≡ none
  pub applying : env.driver (Stmt.update_status "applying") ≡ none
  pub applied : env.driver Stmt.update_applied ≡ none
  pub inserts : env.outbox_driver (Outbox.Stmt.insert env.event_id) ≡ none

created :
    (env : Env) (p : ActionProposal) (payload : String) (db : Db)
    → env.marshal (envelope env p) ≡ ok payload
    → env.outbox_driver (Outbox.Stmt.insert env.event_id) ≡ none
    → (db' : Db) × (create_outbox_event_from_proposal env p db
        ≡ done (proposal_event env p payload, db'))
unfolding create_outbox_event_from_proposal create_event
created env p payload db marshalled inserts =
    elim (Result-cases
      (create_event env.outbox_driver env.now (proposal_event env p payload) db.outbox)) [
        | inl ((inserted, t), made) ↦ (record db { outbox = t }, ground arith)
        | inr (m, refused) ↦ absurd (ground arith)
      ]

settled :
    (env : Env) (actor : String) (p : ActionProposal) (w : World) (k : Ready env p w)
    → (db : Db) × (settle env actor p k.result
          (with_proposals p.proposal_id (set_status "applying") w.db)
        ≡ done (record (k.result) { outbox_event_id = env.event_id }, db))
unfolding settle update_proposal_to_applied
settled env actor p w k =
    let started = with_proposals p.proposal_id (set_status "applying") w.db in
    let there = find-set_status p.proposal_id "applying" w.db.proposals k.row k.found in
    let succeeds = k.succeeds in
    let applied = k.applied in
    let (db, made) =
      created env p k.payload (with_proposals p.proposal_id (set_applied env.now actor) started)
        k.marshalled k.inserts in
    (db, ground arith)

abbrev pub committed : Env → ExecutionResult → Outcome ExecutionResult
committed env r = elim (env.driver Stmt.commit) [
  | none ↦ done (record r { outbox_event_id = env.event_id })
  | some m ↦ failed (wrapped "commit transaction" m)
]

-- With what it needs at hand a live execution calls the executor once, and returns the executor's
-- result with the event's id if the commit is carried out, and else the commit's error. The status
-- that the proposal's row has by then does not matter.
pub execute_for_real-runs :
    (env : Env) (actor : String) (p : ActionProposal) (w : World) (k : Ready env p w)
    → ((execute_for_real env actor p w).0 ≡ committed env k.result)
      × ((execute_for_real env actor p w).1.calls ≡ w.calls ++ p.proposal_id ∷ [])
unfolding execute_for_real run_executor
execute_for_real-runs env actor p w k =
    let began = k.began in
    let runs = k.runs in
    let served = k.served in
    let (db, settles) = settled env actor p w k in
    let opens = status_accepted env p.proposal_id "applying" w.db k.row k.applying k.found in
    elim (Option-cases (env.driver Stmt.commit)) [
      | inl carried_out ↦ (ground arith, ground arith)
      | inr (m, refused) ↦ (ground arith, ground arith)
    ]
