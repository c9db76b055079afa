-- ===== src/Service/Decision/Laws.antt =====
-- How the proposals of a decision are tied to it (internal/service/decision_service.go).
use baxi.Base.{
  ◌≡◌, refl, ◌∙◌, sym, ap, ◌≢◌, inl, inr, ◌||◌, Bool, false, Option, some, List, [], ◌∷◌, ◌++◌,
  String, ◌==◌, arith, Option-cases, Result-cases, Result, ok, err, All, All-map, append-nil,
  ==_of_ne, ==_comm,
}
use baxi.Store.{Db, DecisionRow, ProposalRow}
use baxi.Llm.Model.{DecisionOutput}
use baxi.Llm.Validator.{ValidationError}
use baxi.Decision.Repository.{update_case_status}
use baxi.Decision.Cases.{get_case}
use baxi.Decision.Engine
use baxi.Decision.Engine.{
  DecisionContext, World, Reply, decision_row, save_decision, set_case_status, generate_decision,
}
use baxi.Decision.Engine.Laws.{save-row}
use baxi.Decision.Engine.Frame.{generate_decision_preserves}
use baxi.Action.Model.{ActionProposal}
use baxi.Action.Generate.{generate_proposals}
use baxi.Action.Generate.Rows.{IsProposed}
use baxi.Action.Generate.Laws.{generate_proposals-Generated}
use baxi.Service.Decision.{Env, request, proposed, after_decision, decide}

-- A decision with the id is stored.
abbrev pub has_decision : String → List DecisionRow → Bool
has_decision id [] = false
has_decision id (d ∷ ds) = d.decision_id == id || has_decision id ds

has_decision-snoc :
    (id : String) (ds : List DecisionRow) (d : DecisionRow)
    → (d.decision_id == id) ≡ false
    → has_decision id ds ≡ false
    → has_decision id (ds ++ d ∷ []) ≡ false
has_decision-snoc id [] d other none_there = ground arith
has_decision-snoc id (e ∷ ds) d other none_there = ground (arith, has_decision-snoc id ds d other)

-- The proposals are as before, and no decision has the id.
abbrev Lacks : String → List ProposalRow → Db → Type 0
Lacks id ps db = (db.proposals ≡ ps) × (has_decision id db.decisions ≡ false)

module _ (env : Engine.Env) (case_id id : String) (ps : List ProposalRow)
    (other : (env.decision_id == id) ≡ false) where
  save-Lacks :
      (output : Option DecisionOutput) (status : String) (errors : List ValidationError)
      (reason : Option String) (db db' : Db)
      → save_decision env case_id output status errors reason db ≡ ok db'
      → Lacks id ps db
      → Lacks id ps db'
  save-Lacks output status errors reason db db' saved (same, absent) =
      let (json, written, is_db) = save-row env case_id output status errors reason db db' saved in
      (
        ap (λ d. d.proposals) is_db ∙ same,
        ap (λ d. has_decision id d.decisions) is_db
            ∙ has_decision-snoc id db.decisions _ other absent,
      )

  set-Lacks :
      (status : String) (db db' : Db)
      → set_case_status env case_id status db ≡ ok db'
      → Lacks id ps db
      → Lacks id ps db'
  unfolding set_case_status update_case_status
  set-Lacks status db db' set (same, absent) = (ground arith, ground arith)

-- The rows added refer to the id.
abbrev pub Refers : String → List ProposalRow → List ProposalRow → Type 0
Refers id before after =
    (new : List ProposalRow) × (after ≡ before ++ new) × All (λ p. p.decision_id ≡ some id) new

-- The proposals that were added refer to the id, which no decision has.
abbrev pub Unlinked : String → List ProposalRow → Db → Type 0
Unlinked id before db = Refers id before db.proposals × (has_decision id db.decisions ≡ false)

unchanged : (id : String) (ps : List ProposalRow) (db : Db) → Lacks id ps db → Unlinked id ps db
unchanged id ps db (same, absent) = (([], same ∙ sym (append-nil ps), tt), absent)

proposed-db :
    (dc : DecisionContext) (output : DecisionOutput) (w : World)
    (result : Result (List ActionProposal)) (db : Db)
    → (proposed dc output w (result, db)).1.db ≡ db
proposed-db dc output w (ok ps) db = refl
proposed-db dc output w (err m) db = refl

made-Unlinked :
    (env : Env) (case_id : String) (dc : DecisionContext) (output : DecisionOutput) (w : World)
    (ps : List ProposalRow)
    → Lacks env.decision_id ps w.db
    → let q = request env case_id dc output in
      Unlinked env.decision_id ps
        (proposed dc output w (generate_proposals env.proposals q w.db)).1.db
made-Unlinked env case_id dc output w ps (same, absent) =
    let q = request env case_id dc output in
    let made = generate_proposals-Generated env.proposals q w.db in
    let is_db = proposed-db dc output w _ (generate_proposals env.proposals q w.db).1 in
    (
      (
        made.new,
        ap (λ d. d.proposals) is_db ∙ (made.added ∙ ap (λ l. l ++ made.new) same),
        All-map (IsProposed env.proposals q output.recommended_actions) _ (λ p h. h.of_decision)
            made.new made.proposed,
      ),
      ap (λ d. has_decision env.decision_id d.decisions) is_db
          ∙ (ap (has_decision env.decision_id) made.decisions_kept ∙ absent),
    )

after_decision-Unlinked :
    (env : Env) (case_id : String) (dc : DecisionContext) (reply : Reply) (w : World)
    (ps : List ProposalRow)
    → Lacks env.decision_id ps w.db
    → Unlinked env.decision_id ps (after_decision env case_id dc (reply, w)).1.db
unfolding after_decision
after_decision-Unlinked env case_id dc reply w ps (same, absent) = elim (Option-cases reply.error) [
  | inr (m, failed) ↦
      simp (failed, after_decision) (unchanged env.decision_id ps w.db (same, absent))
  | inl fine ↦ elim (Option-cases reply.output) [
    | inl nil ↦ simp (fine, nil, after_decision) (unchanged env.decision_id ps w.db (same, absent))
    | inr (output, answered) ↦
        simp (fine, answered, after_decision)
          (made-Unlinked env case_id dc output w ps (same, absent))
  ]
]

-- Where the id that `Decide` draws differs from the one that the engine stores its decision under, and
-- no stored decision had it, every proposal that the call adds refers to a decision that is not stored,
-- however the call ends.
pub decide-Unlinked :
    (env : Env) (case_id : String) (w : World)
    → env.decision_id ≢ env.engine.decision_id
    → has_decision env.decision_id w.db.decisions ≡ false
    → Unlinked env.decision_id w.db.proposals (decide env case_id w).1.db
unfolding decide
decide-Unlinked env case_id w differ absent =
    let other = ==_comm env.engine.decision_id env.decision_id ∙ ==_of_ne _ _ differ in
    elim (Result-cases (get_case env.cases case_id w.db)) [
      | inr (m, refused) ↦
          rw (refused, decide) (unchanged env.decision_id w.db.proposals w.db (refl, absent))
      | inl (c, found) ↦ elim (Result-cases (env.build_context case_id w.db)) [
        | inr (m, refused) ↦
            rw (found, refused, decide)
              (unchanged env.decision_id w.db.proposals w.db (refl, absent))
        | inl (dc, built) ↦
            rw (found, built, decide)
              (after_decision-Unlinked env case_id dc _ _ w.db.proposals (
                generate_decision_preserves env.engine case_id
                  (Lacks env.decision_id w.db.proposals)
                  (save-Lacks env.engine case_id env.decision_id w.db.proposals other)
                  (set-Lacks env.engine case_id env.decision_id w.db.proposals other) dc w
                  (refl, absent)))
      ]
    ]
