-- ===== src/Review/Once.antt =====
-- A proposal is reviewed once (internal/review/service.go). The row lock of `SELECT … FOR UPDATE`
-- makes the transactions on one proposal follow one another, so concurrent reviewers are a list of
-- requests in some order.
use mathlib.Core.Path.{subst}
use baxi.Base.{
  ℕ, suc, ◌+◌, ◌≡◌, refl, ap, ◌∙◌, ◌⊎◌, inl, inr, none, some, List, [], ◌∷◌, ◌++◌, String, ◌==◌,
  if◌then◌else◌, arith, eq_iff, Bool-cases,
}
use baxi.Store.{Db, ProposalRow, ReviewRecord, find_proposal, find_proposal-update_proposal}
use baxi.Review.{
  Env, Transition, Outcome, transition_proposal, approve_proposal, reject_proposal, cancel_proposal,
  review_record,
}
use baxi.Review.Laws.{Reviewed, Outcome-cases, transition-Reviewed, transition_atomic, set_status}

pub data Verb : Type 0 where
  approve reject cancel : Verb

pub record Request : Type 0 where
  pub env : Env
  pub verb : Verb
  pub proposal_id : String
  pub reviewer_id : String
  pub feedback : String

abbrev dispatch : Verb → Env → String → String → String → Db → Outcome ReviewRecord × Db
dispatch approve = approve_proposal
dispatch reject = reject_proposal
dispatch cancel = cancel_proposal

-- The database after the requests, in their order.
unfoldable pub run_reviews : List Request → Db → Db
run_reviews [] db = db
run_reviews (r ∷ rs) db =
    run_reviews rs (dispatch r.verb r.env r.proposal_id r.reviewer_id r.feedback db).1

-- The number of review records of a proposal.
abbrev pub count_reviews : String → List ReviewRecord → ℕ
count_reviews id [] = 0
count_reviews id (r ∷ rs) =
    let rest = count_reviews id rs in if r.proposal_id == id then suc rest else rest

count_reviews-append :
    (id : String) (rs : List ReviewRecord) (r : ReviewRecord)
    → count_reviews id (rs ++ r ∷ []) ≡ count_reviews id rs + (if r.proposal_id == id then 1 else 0)
count_reviews-append id [] r = ground arith
count_reviews-append id (s ∷ rs) r = ground (arith, count_reviews-append id rs r)

-- The proposal waits for its review and has none, or it is decided and has one.
pub data State (id : String) (db : Db) : Type 0 where
  waiting :
      (p : ProposalRow)
      → find_proposal id db.proposals ≡ some p
      → p.apply_status ≡ "proposed"
      → count_reviews id db.reviews ≡ 0
      → State id db
  decided :
      (p : ProposalRow)
      → find_proposal id db.proposals ≡ some p
      → (p.apply_status ≡ "approved") ⊎ (p.apply_status ≡ "rejected")
      → count_reviews id db.reviews ≡ 1
      → State id db

not_proposed : (s : String) → (s ≡ "approved") ⊎ (s ≡ "rejected") → s ≡ "proposed" → ⊥
not_proposed s (inl a) p = ground (arith, eq_iff "approved" "proposed")
not_proposed s (inr r) p = ground (arith, eq_iff "rejected" "proposed")

module _ (env : Env) (t : Transition) (id : String) (db db' : Db) (r : Reviewed env t db db') where
  lookup_after : find_proposal id db'.proposals ≡ (
      if t.proposal_id == id
      then (elim (find_proposal id db.proposals) [
        | none ↦ none
        | some p ↦ some (set_status t.new_status p)
      ])
      else find_proposal id db.proposals)
  lookup_after =
      ap (find_proposal id) r.proposals
      ∙ find_proposal-update_proposal id t.proposal_id (set_status t.new_status) db.proposals
          (λ p. refl)

  count_after :
      count_reviews id db'.reviews
      ≡ count_reviews id db.reviews + (if t.proposal_id == id then 1 else 0)
  count_after =
      ap (count_reviews id) r.reviews ∙ count_reviews-append id db.reviews (review_record env t)

  after_review :
      (t.new_status ≡ "approved") ⊎ (t.new_status ≡ "rejected") → State id db → State id db'
  after_review new s = elim (Bool-cases (t.proposal_id == id)) [
    | inr other ↦
        let same : find_proposal id db'.proposals ≡ find_proposal id db.proposals =
          lookup_after ∙ rw other in
        let count : count_reviews id db'.reviews ≡ count_reviews id db.reviews =
          count_after ∙ rw other (omega arith) in
        (elim s [
          | waiting p found proposed none_yet ↦ waiting p (same ∙ found) proposed (count ∙ none_yet)
          | decided p found status one ↦ decided p (same ∙ found) status (count ∙ one)
        ])
    | inl mine ↦ elim s [
      | waiting p found proposed none_yet ↦
          decided (set_status t.new_status p) (lookup_after ∙ rw (mine, found)) new
            (count_after ∙ rw (mine, none_yet) refl)
      | decided p found status one ↦
          let at : find_proposal id db.proposals ≡ some r.before =
            subst (λ x. find_proposal x db.proposals ≡ some r.before)
              ((eq_iff t.proposal_id id).0 mine) r.found in
          let before : p ≡ r.before = cc in
          absurd (not_proposed p.apply_status status (rw before r.was_proposed))
    ]
  ]

transition-State :
    (env : Env) (t : Transition) (id : String) (db : Db)
    → (t.new_status ≡ "approved") ⊎ (t.new_status ≡ "rejected")
    → State id db
    → State id (transition_proposal env t db).1
transition-State env t id db new s = elim (Outcome-cases (transition_proposal env t db).0) [
  | inr (e, f) ↦
      rw
        (transition_atomic env t db (transition_proposal env t db).1 e
          (λ i. (f i, (transition_proposal env t db).1)))
        s
  | inl (rec, d) ↦
      after_review env t id db (transition_proposal env t db).1
        (transition-Reviewed env t db (transition_proposal env t db).1 rec
          (λ i. (d i, (transition_proposal env t db).1))).1
        new s
]

dispatch-State :
    (r : Request) (id : String) (db : Db)
    → State id db
    → State id (dispatch r.verb r.env r.proposal_id r.reviewer_id r.feedback db).1
unfolding approve_proposal reject_proposal cancel_proposal
dispatch-State r id db s = go r.verb
  where
    go : (v : Verb) → State id (dispatch v r.env r.proposal_id r.reviewer_id r.feedback db).1
    go approve = transition-State r.env _ id db (inl refl) s
    go reject = transition-State r.env _ id db (inr refl) s
    go cancel = transition-State r.env _ id db (inr refl) s

-- After any reviews in any order, whatever the database refuses among them: a proposal that waits
-- for its review with no record, or is decided with one, is in one of these two states again. So no
-- proposal is decided twice, and none is decided with no record of who did it.
pub run_reviews-State :
    (rs : List Request) (id : String) (db : Db) → State id db → State id (run_reviews rs db)
unfolding run_reviews
run_reviews-State [] id db s = s
run_reviews-State (r ∷ rs) id db s =
    run_reviews-State rs id (dispatch r.verb r.env r.proposal_id r.reviewer_id r.feedback db).1
      (dispatch-State r id db s)
