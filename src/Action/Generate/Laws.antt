-- ===== src/Action/Generate/Laws.antt =====
-- What the generation of proposals writes and returns (internal/action/proposal_service.go).
use mathlib.Core.Path.{subst}
use baxi.Base.{
  ◌≡◌, refl, ◌∙◌, ap, ◌⊎◌, inl, inr, none, some, str_append, List, ◌++◌, String, arith,
  Result-cases, Result, ok, err, All, map, length,
}
use baxi.Store.{Db, ProposalRow, update_case}
use baxi.Decision.Repository.{update_case_status, set_case}
use baxi.Action.Model.{ActionProposal}
use baxi.Action.Generate.{Env, Request, conclude, generate_proposals, row_to_proposal}
use baxi.Action.Generate.Rows.{IsProposed, types, wanted, Stopped, Adds, create_all-Adds}

-- What a generation adds, and what it returns and does to the cases.
pub record Generated (env : Env) (q : Request) (db : Db) (result : Result (List ActionProposal))
    (db' : Db) : Type 0 where
  pub new : List ProposalRow
  pub added : db'.proposals ≡ db.proposals ++ new
  pub proposed : All (IsProposed env q q.dec.recommended_actions) new
  pub decisions_kept : db'.decisions ≡ db.decisions
  pub ending :
      ((result ≡ ok (map (row_to_proposal env) new))
        × (types new ≡ wanted env q.dec.recommended_actions)
        × (db'.cases
            ≡ update_case q.case_id
                (λ c. record c {
                  status = "proposal_generated";
                  context_json = none;
                  context_hash = none;
                  governance_snapshot = none;
                  updated_at = some (env.now (length q.dec.recommended_actions));
                })
                db.cases))
      ⊎ ((m : String) × (result ≡ err m)
          × (db'.cases ≡ db.cases)
          × (Stopped env q q.dec.recommended_actions new db' m
              ⊎ (types new ≡ wanted env q.dec.recommended_actions)))

updated :
    (env : Env) (q : Request) (db db' : Db)
    → update_case_status env.driver
        (env.now (length q.dec.recommended_actions))
        q.case_id
        "proposal_generated"
        none
        none
        none
        db
      ≡ ok db'
    → db' ≡ record db {
      cases =
          update_case q.case_id
            (set_case
              (env.now (length q.dec.recommended_actions))
              "proposal_generated"
              none
              none
              none)
            db.cases;
    }
unfolding update_case_status
updated env q db db' h = ground arith

ok-new :
    (env : Env) (q : Request) (rows new : List ProposalRow) (db' : Db)
    → ((◌≡◌ {A = Result (List ProposalRow)} (ok rows) (ok new))
        × (types new ≡ wanted env q.dec.recommended_actions))
      ⊎ ((m : String) × (◌≡◌ {A = Result (List ProposalRow)} (ok rows) (err m))
          × Stopped env q q.dec.recommended_actions new db' m)
    → (rows ≡ new) × (types new ≡ wanted env q.dec.recommended_actions)
ok-new env q rows new db' (inl (same, all)) = (cc, all)
ok-new env q rows new db' (inr (m, other, h)) = absurd (cc)

err-new :
    (env : Env) (q : Request) (m : String) (new : List ProposalRow) (db' : Db)
    → ((◌≡◌ {A = Result (List ProposalRow)} (err m) (ok new))
        × (types new ≡ wanted env q.dec.recommended_actions))
      ⊎ ((m' : String) × (◌≡◌ {A = Result (List ProposalRow)} (err m) (err m'))
          × Stopped env q q.dec.recommended_actions new db' m')
    → Stopped env q q.dec.recommended_actions new db' m
err-new env q m new db' (inl (other, all)) = absurd (cc)
err-new env q m new db' (inr (m', same, h)) =
    let is : m' ≡ m = cc in subst (Stopped env q q.dec.recommended_actions new db') is h

conclude-Generated :
    (env : Env) (q : Request) (db : Db) (result : Result (List ProposalRow)) (db' : Db)
    → Adds env q q.dec.recommended_actions db result db'
    → Generated env q db (conclude env q (result, db')).0 (conclude env q (result, db')).1
conclude-Generated env q db (err m) db' h = record {
  new = h.new;
  added = h.added;
  proposed = h.proposed;
  decisions_kept = h.decisions_kept;
  ending = inr (m, refl, h.cases_kept, inl (err-new env q m h.new db' h.returned));
}
conclude-Generated env q db (ok rows) db' h =
    let now = env.now (length q.dec.recommended_actions) in
    let (same, all) = ok-new env q rows h.new db' h.returned in
    elim (Result-cases
      (update_case_status env.driver now q.case_id "proposal_generated" none none none db')) [
        | inr (m, refused) ↦
            rw (refused, conclude)
              (record {
                new = h.new;
                added = h.added;
                proposed = h.proposed;
                decisions_kept = h.decisions_kept;
                ending = inr (
                  str_append "update case status to proposal_generated: " m,
                  refl,
                  h.cases_kept,
                  inr all,
                );
              })
        | inl (db1, done) ↦
            let is_db = updated env q db' db1 done in
            rw (done, conclude)
              (record {
                new = h.new;
                added = ap (λ d. d.proposals) is_db ∙ h.added;
                proposed = h.proposed;
                decisions_kept = ap (λ d. d.decisions) is_db ∙ h.decisions_kept;
                ending = inl (
                  ap (λ rs. ok (map (row_to_proposal env) rs)) same,
                  all,
                  ap (λ d. d.cases) is_db
                      ∙ ap
                          (update_case q.case_id (set_case now "proposal_generated" none none none))
                          h.cases_kept,
                );
              })
      ]

-- Whatever ends a generation, the rows it has added wait for a review, each for an action of the
-- decision whose payload has no error. With a result there is one row for every such action, in their
-- order, the result holds these rows, and the case is at `proposal_generated` with its context, the
-- hash and the governance snapshot NULL. With an error no case has changed, and the rows added before
-- stay: those of all such actions before the one that failed, or of all where the update of the case
-- failed.
pub generate_proposals-Generated :
    (env : Env) (q : Request) (db : Db)
    → Generated env q db (generate_proposals env q db).0 (generate_proposals env q db).1
unfolding generate_proposals
generate_proposals-Generated env q db =
    conclude-Generated env q db _ _ (create_all-Adds env q 0 q.dec.recommended_actions db)
