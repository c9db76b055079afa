-- ===== src/Action/Apply/Guards.antt =====
-- When an execution may touch anything (internal/action/apply_service.go, `ExecuteProposal`).
use baxi.Base.{
  ◌≡◌, refl, ◌⊎◌, inl, inr, Bool, true, false, none, some, List, String, ◌==◌, arith, eq_iff,
  Bool-cases, Option-cases,
}
use baxi.Store.{ProposalRow, find_proposal}
use baxi.Action.Model.{ActionProposal}
use baxi.Action.Registry.{is_allowed}
use baxi.Action.Apply.{
  Env, World, Outcome, done, failed, ApplyError, Stmt, dry_run_from, to_proposal, admit,
  lineage_complete, execute_proposal, execute_for_real,
}

-- What a live execution of the proposal needs.
pub record Permitted (env : Env) (id : String) (opts : List Bool) (w : World) : Type 0 where
  pub row : ProposalRow
  pub asked_live : dry_run_from true opts ≡ false
  pub enabled : env.allow_live ≡ "true"
  pub found : find_proposal id w.db.proposals ≡ some row
  pub approved : row.apply_status ≡ "approved"
  pub allowed : is_allowed env.registry row.action_type ≡ true
  pub lineage : lineage_complete env false (to_proposal env.unmarshal row) ≡ true

admit-passes :
    (env : Env) (dry_run : Bool) (p : ActionProposal)
    → admit env dry_run p ≡ done tt
    → (p.apply_status ≡ "approved")
      × (is_allowed env.registry p.action_type ≡ true)
      × (lineage_complete env dry_run p ≡ true)
unfolding admit
admit-passes env dry_run p h = elim (Bool-cases (p.apply_status == "approved")) [
  | inr other ↦ absurd (ground arith)
  | inl approved ↦ elim (Bool-cases (is_allowed env.registry p.action_type)) [
    | inr other ↦ absurd (ground arith)
    | inl allowed ↦ elim (Bool-cases (lineage_complete env dry_run p)) [
      | inr other ↦ absurd (ground arith)
      | inl complete ↦ ((eq_iff p.apply_status "approved").0 approved, allowed, complete)
    ]
  ]
]

admit-cases : (m : Outcome (Unit {0})) → (m ≡ done tt) ⊎ ((e : ApplyError) × (m ≡ failed e))
admit-cases (done tt) = inl refl
admit-cases (failed e) = inr (e, refl)

-- A dry run leaves the tables alone and calls no executor of an adapter, whatever it returns.
pub execute_proposal-dry :
    (env : Env) (id actor : String) (opts : List Bool) (w : World)
    → dry_run_from true opts ≡ true
    → (execute_proposal env id actor opts w).1 ≡ w
unfolding execute_proposal
execute_proposal-dry env id actor opts w dry =
    elim (Option-cases (env.driver Stmt.select_proposal)) [
      | inr (m, refused) ↦ ground arith
      | inl selected ↦ elim (Option-cases (find_proposal id w.db.proposals)) [
        | inl missing ↦ ground arith
        | inr (row, found) ↦ elim (admit-cases (admit env true (to_proposal env.unmarshal row))) [
          | inr (e, stopped) ↦ ground arith
          | inl passed ↦ ground arith
        ]
      ]
    ]

-- An execution leaves the tables alone and calls no executor, unless it was asked to be live, live
-- execution is enabled, and the proposal is there, approved, of an allowed action type, and with
-- complete lineage as far as a verifier is attached.
pub execute_proposal-guarded :
    (env : Env) (id actor : String) (opts : List Bool) (w : World)
    → ((execute_proposal env id actor opts w).1 ≡ w) ⊎ Permitted env id opts w
unfolding execute_proposal
execute_proposal-guarded env id actor opts w = elim (Bool-cases (dry_run_from true opts)) [
  | inl dry ↦ inl (execute_proposal-dry env id actor opts w dry)
  | inr live ↦ elim (Bool-cases (env.allow_live == "true")) [
    | inr disabled ↦ inl (rw (live, execute_proposal) (rw (disabled, execute_proposal) refl))
    | inl enabled ↦ elim (Option-cases (env.driver Stmt.select_proposal)) [
      | inr (m, refused) ↦ inl (ground arith)
      | inl selected ↦ elim (Option-cases (find_proposal id w.db.proposals)) [
        | inl missing ↦ inl (ground arith)
        | inr (row, found) ↦ elim (admit-cases (admit env false (to_proposal env.unmarshal row))) [
          | inr (e, stopped) ↦ inl (ground arith)
          | inl passed ↦
              let (approved, allowed, complete) =
                admit-passes env false (to_proposal env.unmarshal row) passed in
              inr (record {
                row = row;
                asked_live = live;
                enabled = (eq_iff env.allow_live "true").0 enabled;
                found = found;
                approved = approved;
                allowed = allowed;
                lineage = complete;
              })
        ]
      ]
    ]
  ]
]

-- Where the loader's query is carried out, a live execution that is permitted is exactly the run of
-- `executeForReal` on the loaded proposal.
pub execute_proposal-live :
    (env : Env) (id actor : String) (opts : List Bool) (w : World)
    (ok_to_run : Permitted env id opts w)
    → env.driver Stmt.select_proposal ≡ none
    → execute_proposal env id actor opts w
      ≡ execute_for_real env actor (to_proposal env.unmarshal ok_to_run.row) w
unfolding execute_proposal admit
execute_proposal-live env id actor opts w k selects =
    let same_live = eq_iff env.allow_live "true" in
    let same_status = eq_iff k.row.apply_status "approved" in
    let live = k.asked_live in
    let enabled = k.enabled in
    let found = k.found in
    let approved = k.approved in let allowed = k.allowed in let complete = k.lineage in ground arith
