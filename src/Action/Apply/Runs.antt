-- ===== src/Action/Apply/Runs.antt =====
-- What a live execution leaves behind (internal/action/apply_service.go).
use baxi.Base.{
  ◌≡◌, ◌⊎◌, inl, inr, ◌∙◌, ap, true, false, none, some, [], ◌∷◌, ◌++◌, String, arith, Bool-cases,
  Option-cases, lookup, ok, is_some, if◌then◌else◌, Result-cases,
}
use baxi.Json.{Fields, end, field, str, obj}
use baxi.Outbox.{Row, find_row}
use baxi.Store.{Db, ProposalRow, find_proposal, update_proposal}
use baxi.Action.Model.{ActionProposal, Executor, ExecutionResult, execute, action_channel}
use baxi.Action.Apply.{
  Env, World, Outcome, done, failed, ApplyError, Stmt, exec, ◌>>◌, update_proposal_status,
  set_status, set_applied, settle, give_up, run_executor, execution_result, envelope,
  execute_for_real,
}
use baxi.Action.Apply.Laws.{
  Outcome-cases, with_proposals, status_update, settled_applied, settled_failed, audit_keeps,
  find-set_status, status_found, with_event, given_up, settle_success,
}

-- The row that an execution adds to the outbox.
abbrev pub event_row : Env → ActionProposal → String → Row
event_row env p payload = record {
  event = record {
    event_id = env.event_id;
    source_type = "action_execution";
    source_id = p.proposal_id;
    event_type = p.action_type;
    status = "pending";
    payload = payload;
    target_channel = action_channel p.action_type;
    created_at = env.now;
    dispatch_attempts = 0;
    next_retry_at = none;
  };
  last_dispatch_at = none;
  error_message = none;
}

-- The envelope that an event carries as its payload.
abbrev pub envelope_fields : String → ActionProposal → Fields
envelope_fields created_at p = field "proposal_id" (str p.proposal_id) (
    field "case_id" (str p.case_id) (
      field "action_type" (str p.action_type) (
        field "created_at" (str created_at)
          (elim p.payload [ none ↦ end | some payload ↦ field "payload" (obj payload) end ]))))

-- A live execution that returned success.
pub record Applied (env : Env) (actor : String) (p : ActionProposal) (w w' : World)
    (r : ExecutionResult) : Type 0 where
  pub executor : Executor
  pub served : lookup (action_channel p.action_type) env.executors ≡ some executor
  pub payload : String
  pub marshalled : env.marshal (envelope_fields env.now_text p) ≡ ok payload
  pub proposals :
      w'.db.proposals
      ≡ update_proposal p.proposal_id
          (λ row. record row {
            apply_status = "applied";
            applied_at = some env.now;
            applied_by = some actor;
          })
          (update_proposal p.proposal_id
            (λ row. record row { apply_status = "applying" })
            w.db.proposals)
  pub outbox : w'.db.outbox ≡ (
      if is_some (find_row env.event_id w.db.outbox)
      then w.db.outbox
      else w.db.outbox ++ event_row env p payload ∷ [])
  pub calls : w'.calls ≡ w.calls ++ p.proposal_id ∷ []
  pub returned : ExecutionResult
  pub ran : execute executor p false ≡ ok returned
  pub succeeded : returned.success ≡ true
  pub result : r ≡ record returned { outbox_event_id = env.event_id }

-- An executor whose outcome counts as a success has returned a result.
ran_well :
    (env : Env) (p : ActionProposal) (x : Executor) (r : ExecutionResult)
    → r ≡ record (execution_result (execute x p false)) { outbox_event_id = env.event_id }
    → r.success ≡ true
    → (returned : ExecutionResult) × (execute x p false ≡ ok returned)
      × (returned.success ≡ true)
      × (r ≡ record returned { outbox_event_id = env.event_id })
ran_well env p x r is success = elim (Result-cases (execute x p false)) [
  | inr (m, refused) ↦ absurd (ground arith)
  | inl (returned, ran) ↦ (returned, ran, ground arith, ground arith)
]

run_applied :
    (env : Env) (actor : String) (p : ActionProposal) (x : Executor) (db : Db) (w w' : World)
    (r : ExecutionResult)
    → run_executor env actor p x db w ≡ (done r, w')
    → r.success ≡ true
    → (payload : String) × (env.marshal (envelope env p) ≡ ok payload)
      × (w'.db.proposals ≡ update_proposal p.proposal_id (set_applied env.now actor) db.proposals)
      × (w'.db.outbox ≡ with_event env p payload db.outbox)
      × (w'.calls ≡ w.calls ++ p.proposal_id ∷ [])
      × (r ≡ record (execution_result (execute x p false)) { outbox_event_id = env.event_id })
unfolding run_executor
run_applied env actor p x db w w' r h success =
    let r0 : ExecutionResult = execution_result (execute x p false) in
    elim (Outcome-cases (settle env actor p r0 db)) [
      | inr (e, stopped) ↦ absurd (ground arith)
      | inl ((r1, db1), settled) ↦ elim (Bool-cases (r0.success)) [
        | inr broke ↦
            let (same, _) = settled_failed env actor p r0 r1 db db1 settled broke in
            absurd (ground arith)
        | inl worked ↦
            let (payload, marshalled, is_r, is_db) =
              settled_applied env actor p r0 r1 db db1 settled worked in
            let (kp, ko) = audit_keeps env actor p r1.success r1.error db1 in
            elim (Option-cases (env.driver Stmt.commit)) [
              | inr (m, refused) ↦ absurd (ground arith)
              | inl committed ↦
                  (payload, marshalled, ground arith, ground arith, ground arith, ground arith)
            ]
      ]
    ]

run_failed :
    (env : Env) (actor : String) (p : ActionProposal) (x : Executor) (db : Db) (w w' : World)
    (r : ExecutionResult)
    → run_executor env actor p x db w ≡ (done r, w')
    → r.success ≡ false
    → (w'.db.proposals ≡ update_proposal p.proposal_id (set_status "failed") db.proposals)
      × (w'.db.outbox ≡ db.outbox)
unfolding run_executor settle
run_failed env actor p x db w w' r h fails =
    let r0 : ExecutionResult = execution_result (execute x p false) in
    elim (Outcome-cases (settle env actor p r0 db)) [
      | inr (e, stopped) ↦ absurd (ground arith)
      | inl ((r1, db1), settled) ↦ elim (Option-cases (env.driver Stmt.commit)) [
        | inr (m, refused) ↦ absurd (ground arith)
        | inl committed ↦ elim (Bool-cases (r0.success)) [
          | inl worked ↦
              let kept = settle_success env actor p r0 r1 db db1 settled in absurd (ground arith)
          | inr broke ↦
              let (same, is_db) = settled_failed env actor p r0 r1 db db1 settled broke in
              let (kp, ko) = audit_keeps env actor p r1.success r1.error db1 in
              (ground arith, ground arith)
        ]
      ]
    ]

abbrev opened : Env → ActionProposal → World → Outcome Db
opened env p w =
    exec env.driver Stmt.begin "begin transaction"
    >> update_proposal_status env p.proposal_id "applying" w.db

opened_update :
    (env : Env) (p : ActionProposal) (w : World) (db : Db)
    → opened env p w ≡ done db
    → db ≡ with_proposals p.proposal_id (set_status "applying") w.db
opened_update env p w db h = elim (Option-cases (env.driver Stmt.begin)) [
  | inr (m, refused) ↦ absurd (ground arith)
  | inl began ↦ status_update env p.proposal_id "applying" w.db db (ground arith)
]

opened_found :
    (env : Env) (p : ActionProposal) (w : World) (db : Db)
    → opened env p w ≡ done db
    → (row : ProposalRow) × (find_proposal p.proposal_id w.db.proposals ≡ some row)
opened_found env p w db h = elim (Option-cases (env.driver Stmt.begin)) [
  | inr (m, refused) ↦ absurd (ground arith)
  | inl began ↦ status_found env p.proposal_id "applying" w.db db (ground arith)
]

-- A live execution that returns success called the executor of the action's channel once, live, which
-- returned a result with success, and returns that result with the id of the event. The proposal's row
-- went through `applying` to `applied`, with the time and the actor, and the outbox has one row more,
-- unless a row has the event's id: a pending event, not attempted yet, for the proposal and the
-- channel, with the envelope of the proposal as its payload.
pub execute_for_real-Applied :
    (env : Env) (actor : String) (p : ActionProposal) (w w' : World) (r : ExecutionResult)
    → execute_for_real env actor p w ≡ (done r, w')
    → r.success ≡ true
    → Applied env actor p w w' r
unfolding execute_for_real
execute_for_real-Applied env actor p w w' r h success = elim (Outcome-cases (opened env p w)) [
  | inr (e, refused) ↦ absurd (ground arith)
  | inl (db, began) ↦
      let is_db = opened_update env p w db began in
      elim (Option-cases (lookup (action_channel p.action_type) env.executors)) [
        | inl nobody ↦ elim (Option-cases (env.driver Stmt.commit)) [
          | inr (m, refused) ↦ absurd (ground arith)
          | inl committed ↦ absurd (ground arith)
        ]
        | inr (x, served) ↦
            let (payload, marshalled, proposals, outbox, calls, result) =
              run_applied env actor p x db w w' r (ground arith) success in
            let (returned, ran, worked, is_result) = ran_well env p x r result success in
            record {
              executor = x;
              served = served;
              payload = payload;
              marshalled = marshalled;
              proposals = ground arith;
              outbox = ground arith;
              calls = calls;
              returned = returned;
              ran = ran;
              succeeded = worked;
              result = is_result;
            }
      ]
]

-- Whatever error a live execution returns, the tables are as they were, and at most the one call of
-- the executor has happened.
pub execute_for_real_atomic :
    (env : Env) (actor : String) (p : ActionProposal) (w w' : World) (e : ApplyError)
    → execute_for_real env actor p w ≡ (failed e, w')
    → (w'.db ≡ w.db) × ((w'.calls ≡ w.calls) ⊎ (w'.calls ≡ w.calls ++ p.proposal_id ∷ []))
unfolding execute_for_real run_executor
execute_for_real_atomic env actor p w w' e h = elim (Outcome-cases (opened env p w)) [
  | inr (e', refused) ↦ (ground arith, inl (ground arith))
  | inl (db, began) ↦ elim (Option-cases (lookup (action_channel p.action_type) env.executors)) [
    | inl nobody ↦ elim (Option-cases (env.driver Stmt.commit)) [
      | inr (m, refused) ↦ (ground arith, inl (ground arith))
      | inl committed ↦ absurd (ground arith)
    ]
    | inr (x, served) ↦
        elim (Outcome-cases (settle env actor p (execution_result (execute x p false)) db)) [
          | inr (e', stopped) ↦ (ground arith, inr (ground arith))
          | inl ((r1, db1), settled) ↦ elim (Option-cases (env.driver Stmt.commit)) [
            | inr (m, refused) ↦ (ground arith, inr (ground arith))
            | inl committed ↦ absurd (ground arith)
          ]
        ]
  ]
]

-- A live execution that returns a result without success leaves the proposal `failed`, if the driver
-- carries out that update, and adds no event.
pub execute_for_real-failed :
    (env : Env) (actor : String) (p : ActionProposal) (w w' : World) (r : ExecutionResult)
    → execute_for_real env actor p w ≡ (done r, w')
    → r.success ≡ false
    → env.driver (Stmt.update_status "failed") ≡ none
    → (w'.db.proposals
        ≡ update_proposal p.proposal_id
            (set_status "failed")
            (update_proposal p.proposal_id (set_status "applying") w.db.proposals))
      × (w'.db.outbox ≡ w.db.outbox)
unfolding execute_for_real run_executor give_up
execute_for_real-failed env actor p w w' r h fails accepts = elim (Outcome-cases (opened env p w)) [
  | inr (e, refused) ↦ absurd (ground arith)
  | inl (db, began) ↦
      let is_db = opened_update env p w db began in
      elim (Option-cases (lookup (action_channel p.action_type) env.executors)) [
        | inl nobody ↦ elim (Option-cases (env.driver Stmt.commit)) [
          | inr (m, refused) ↦ absurd (ground arith)
          | inl committed ↦
              let (row, found) = opened_found env p w db began in
              let (gp, go) = given_up env actor p db (set_status "applying" row) accepts (
                ap (λ d. find_proposal p.proposal_id d.proposals) is_db
                ∙ find-set_status p.proposal_id "applying" w.db.proposals row found) in
              (ground arith, ground arith)
        ]
        | inr (x, served) ↦
            let (rp, ro) = run_failed env actor p x db w w' r (ground arith) fails in
            (ground arith, ground arith)
      ]
]
