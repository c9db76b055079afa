-- ===== src/Action/Generate/Review.antt =====
-- A proposal between its generation and its review (internal/action/proposal_service.go,
-- apply_service.go).
use baxi.Base.{
  ◌≡◌, refl, ◌∙◌, sym, ap, inl, inr, Bool, true, false, none, some, List, [], ◌∷◌, ◌++◌, String,
  ◌==◌, arith, Bool-cases, All,
}
use baxi.Store.{Db, ProposalRow, find_proposal}
use baxi.Action.Generate.{Env, Request, generate_proposals}
use baxi.Action.Generate.Rows.{IsProposed}
use baxi.Action.Generate.Laws.{generate_proposals-Generated}
use baxi.Action.Apply
use baxi.Action.Apply.{World, execute_proposal}
use baxi.Action.Apply.Guards.{execute_proposal-guarded}

-- What a lookup finds among the rows that were added, it finds waiting.
found_waits :
    (env : Env) (q : Request) (id : String) (old new : List ProposalRow) (row : ProposalRow)
    → find_proposal id old ≡ none
    → All (IsProposed env q q.dec.recommended_actions) new
    → find_proposal id (old ++ new) ≡ some row
    → row.apply_status ≡ "proposed"
found_waits env q id [] [] row absent waiting found = absurd (cc)
found_waits env q id [] (r ∷ rs) row absent waiting found =
    elim (Bool-cases (r.proposal_id == id)) [
      | inl here ↦
          let same : r ≡ row = ground arith in ap (λ p. p.apply_status) (sym same) ∙ waiting.0.waits
      | inr there ↦ found_waits env q id [] rs row refl waiting.1 (ground arith)
    ]
found_waits env q id (r ∷ rs) new row absent waiting found =
    elim (Bool-cases (r.proposal_id == id)) [
      | inl here ↦ absurd (ground arith)
      | inr there ↦ found_waits env q id rs new row (ground arith) waiting (ground arith)
    ]

not_both : (s : String) → s ≡ "approved" → s ≡ "proposed" → ⊥
not_both s approved proposed =
    let conflict : true ≡ false = ap (λ t. t == "approved") (sym approved ∙ proposed) in absurd (cc)

-- After a generation, whatever it returned, no execution of a proposal that was not there before
-- touches the tables or calls an executor: a proposal is reviewed first.
pub generate_proposals-inert :
    (env : Env) (q : Request) (db : Db) (actor_env : Apply.Env) (id actor : String)
    (opts : List Bool) (w : World)
    → find_proposal id db.proposals ≡ none
    → w.db.proposals ≡ (generate_proposals env q db).1.proposals
    → (execute_proposal actor_env id actor opts w).1 ≡ w
generate_proposals-inert env q db actor_env id actor opts w absent after =
    let made = generate_proposals-Generated env q db in
    elim (execute_proposal-guarded actor_env id actor opts w) [
      | inl kept ↦ kept
      | inr permitted ↦
          let there : find_proposal id (db.proposals ++ made.new) ≡ some permitted.row =
            ap (find_proposal id) (sym (after ∙ made.added)) ∙ permitted.found in
          let waits =
            found_waits env q id db.proposals made.new permitted.row absent made.proposed there in
          absurd (not_both permitted.row.apply_status permitted.approved waits)
    ]
