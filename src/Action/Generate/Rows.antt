-- ===== src/Action/Generate/Rows.antt =====
-- The rows that the loop over the recommended actions writes (internal/action/proposal_service.go).
use mathlib.Core.Path.{subst}
use baxi.Base.{
  ◌≡◌, refl, ◌∙◌, sym, ap, ◌⊎◌, inl, inr, true, Option, some, List, [], ◌∷◌, ◌++◌, String, ℕ, ◌+◌,
  arith, Option-cases, Result-cases, Result, ok, err, All, All-map, append-nil, snoc-append, map,
}
use baxi.Store.{Db, ProposalRow}
use baxi.Llm.Model.{RecommendedAction}
use baxi.Decision.Repository.{create_proposal}
use baxi.Action.Generate.{
  Env, Request, payload_errors, marshal_payload, cut_title, full_title, proposal_row, create_one,
  prepend, create_all,
}

-- Some recommended action that is not skipped has the action type.
abbrev pub ComesFrom : Env → String → List RecommendedAction → Type 0
ComesFrom env action_type [] = ⊥
ComesFrom env action_type (a ∷ actions) =
    ((action_type ≡ a.action_type) × (payload_errors env a ≡ []))
    ⊎ ComesFrom env action_type actions

-- A row that waits for a review, of an action of the decision that is not skipped.
pub record IsProposed (env : Env) (q : Request) (actions : List RecommendedAction)
    (row : ProposalRow) : Type 0 where
  pub of_case : row.case_id ≡ q.case_id
  pub of_decision : row.decision_id ≡ some q.decision_id
  pub waits : row.apply_status ≡ "proposed"
  pub needs_review : row.requires_human_review ≡ true
  pub comes : ComesFrom env row.action_type actions

created :
    (env : Env) (q : Request) (i : ℕ) (a : RecommendedAction) (db : Db) (row : ProposalRow)
    (db' : Db)
    → create_one env q i a db ≡ ok (row, db')
    → (title : String) × (payload : Option String) × (row ≡ proposal_row env q i a title payload)
      × (db' ≡ record db { proposals = db.proposals ++ row ∷ [] })
unfolding create_one create_proposal
created env q i a db row db' h = elim (Result-cases (marshal_payload env a)) [
  | inr (m, refused) ↦ absurd (ground arith)
  | inl (payload, marshalled) ↦ elim (Option-cases (cut_title (full_title a q.dec))) [
    | inl no_text ↦ absurd (ground arith)
    | inr (title, is_text) ↦
        elim (Result-cases (create_proposal env.driver (proposal_row env q i a title payload) db)) [
          | inr (m, refused) ↦ absurd (ground arith)
          | inl (db1, done) ↦ (title, payload, ground arith, ground arith)
        ]
  ]
]

-- The action types of the rows, and those of the actions whose payload has no error.
abbrev pub types : List ProposalRow → List String
types rows = map (λ row. row.action_type) rows

abbrev pub wanted : Env → List RecommendedAction → List String
wanted env [] = []
wanted env (a ∷ actions) = elim (payload_errors env a) [
  | [] ↦ a.action_type ∷ wanted env actions
  | e ∷ es ↦ wanted env actions
]

-- The error is that of an action, and the rows are those of the actions before it.
pub record Stopped (env : Env) (q : Request) (actions : List RecommendedAction)
    (new : List ProposalRow) (db' : Db) (m : String) : Type 0 where
  pub before : List RecommendedAction
  pub after : List RecommendedAction
  pub action : RecommendedAction
  pub index : ℕ
  pub split : actions ≡ before ++ action ∷ after
  pub rows_before : types new ≡ wanted env before
  pub fails : create_one env q index action db' ≡ err m

-- The rows `new` are added: with a result they are all that it holds, one for each action that is not
-- skipped, and with an error those of the actions before the one that failed.
pub record Adds (env : Env) (q : Request) (actions : List RecommendedAction) (db : Db)
    (result : Result (List ProposalRow)) (db' : Db) : Type 0 where
  pub new : List ProposalRow
  pub added : db'.proposals ≡ db.proposals ++ new
  pub proposed : All (IsProposed env q actions) new
  pub cases_kept : db'.cases ≡ db.cases
  pub decisions_kept : db'.decisions ≡ db.decisions
  pub returned :
      ((result ≡ ok new) × (types new ≡ wanted env actions))
      ⊎ ((m : String) × (result ≡ err m) × Stopped env q actions new db' m)

later :
    (env : Env) (q : Request) (a : RecommendedAction) (actions : List RecommendedAction)
    (row : ProposalRow)
    → IsProposed env q actions row
    → IsProposed env q (a ∷ actions) row
later env q a actions row h = record {
  of_case = h.of_case;
  of_decision = h.of_decision;
  waits = h.waits;
  needs_review = h.needs_review;
  comes = inr h.comes;
}

errors-cases : (xs : List String) → (xs ≡ []) ⊎ ((e : String) × (es : List String) × (xs ≡ e ∷ es))
errors-cases [] = inl refl
errors-cases (e ∷ es) = inr (e, es, refl)

wanted-skip :
    (env : Env) (a : RecommendedAction) (actions : List RecommendedAction) (e : String)
    (es : List String)
    → payload_errors env a ≡ e ∷ es
    → wanted env (a ∷ actions) ≡ wanted env actions
wanted-skip env a actions e es skipped = rw (skipped, wanted) refl

wanted-keep :
    (env : Env) (a : RecommendedAction) (actions : List RecommendedAction)
    → payload_errors env a ≡ []
    → wanted env (a ∷ actions) ≡ a.action_type ∷ wanted env actions
wanted-keep env a actions valid = rw (valid, wanted) refl

-- A run over the actions that follow, after one more action: with the rows that this one has added.
later-Stopped :
    (env : Env) (q : Request) (a : RecommendedAction) (actions : List RecommendedAction)
    (new more : List ProposalRow) (db' : Db) (m : String)
    → ((before : List RecommendedAction)
        → types new ≡ wanted env before
        → types more ≡ wanted env (a ∷ before))
    → Stopped env q actions new db' m
    → Stopped env q (a ∷ actions) more db' m
later-Stopped env q a actions new more db' m rows h = record {
  before = a ∷ h.before;
  after = h.after;
  action = h.action;
  index = h.index;
  split = ap (◌∷◌ a) h.split;
  rows_before = rows h.before h.rows_before;
  fails = h.fails;
}

skip-returned :
    (env : Env) (q : Request) (a : RecommendedAction) (actions : List RecommendedAction)
    (e : String) (es : List String) (result : Result (List ProposalRow)) (new : List ProposalRow)
    (db' : Db)
    → payload_errors env a ≡ e ∷ es
    → ((result ≡ ok new) × (types new ≡ wanted env actions))
      ⊎ ((m : String) × (result ≡ err m) × Stopped env q actions new db' m)
    → ((result ≡ ok new) × (types new ≡ wanted env (a ∷ actions)))
      ⊎ ((m : String) × (result ≡ err m) × Stopped env q (a ∷ actions) new db' m)
skip-returned env q a actions e es result new db' skipped (inl (all, is)) =
    inl (all, is ∙ sym (wanted-skip env a actions e es skipped))
skip-returned env q a actions e es result new db' skipped (inr (m, failed, h)) = inr (
  m,
  failed,
  later-Stopped env q a actions new new db' m
      (λ before is. is ∙ sym (wanted-skip env a before e es skipped)) h,
)

skip-Adds :
    (env : Env) (q : Request) (a : RecommendedAction) (actions : List RecommendedAction) (db : Db)
    (result : Result (List ProposalRow)) (db' : Db) (e : String) (es : List String)
    → payload_errors env a ≡ e ∷ es
    → Adds env q actions db result db'
    → Adds env q (a ∷ actions) db result db'
skip-Adds env q a actions db result db' e es skipped h = record {
  new = h.new;
  added = h.added;
  proposed =
      All-map (IsProposed env q actions) (IsProposed env q (a ∷ actions)) (later env q a actions)
        h.new h.proposed;
  cases_kept = h.cases_kept;
  decisions_kept = h.decisions_kept;
  returned = skip-returned env q a actions e es result h.new db' skipped h.returned;
}

prepend-db :
    (row : ProposalRow) (result : Result (List ProposalRow)) (db' : Db)
    → (prepend row (result, db')).1 ≡ db'
prepend-db row (ok rows) db' = refl
prepend-db row (err m) db' = refl

prepended :
    (env : Env) (q : Request) (a : RecommendedAction) (actions : List RecommendedAction)
    (row : ProposalRow) (new : List ProposalRow) (result : Result (List ProposalRow)) (db' : Db)
    → payload_errors env a ≡ []
    → row.action_type ≡ a.action_type
    → ((result ≡ ok new) × (types new ≡ wanted env actions))
      ⊎ ((m : String) × (result ≡ err m) × Stopped env q actions new db' m)
    → (((prepend row (result, db')).0 ≡ ok (row ∷ new))
        × (types (row ∷ new) ≡ wanted env (a ∷ actions)))
      ⊎ ((m : String) × ((prepend row (result, db')).0 ≡ err m)
          × Stopped env q (a ∷ actions) (row ∷ new) (prepend row (result, db')).1 m)
prepended env q a actions row new result db' valid named (inl (all, is)) = inl (
  rw all refl,
  ap (◌∷◌ row.action_type) is
      ∙ (ap (λ t. t ∷ wanted env actions) named ∙ sym (wanted-keep env a actions valid)),
)
prepended env q a actions row new result db' valid named (inr (m, failed, h)) = inr (
  m,
  rw failed refl,
  subst (λ d. Stopped env q (a ∷ actions) (row ∷ new) d m) (sym (prepend-db row result db'))
      (later-Stopped env q a actions new (row ∷ new) db' m
        (λ before is.
          ap (◌∷◌ row.action_type) is
          ∙ (ap (λ t. t ∷ wanted env before) named ∙ sym (wanted-keep env a before valid)))
        h),
)

prepend-Adds :
    (env : Env) (q : Request) (a : RecommendedAction) (actions : List RecommendedAction) (db : Db)
    (row : ProposalRow) (result : Result (List ProposalRow)) (db' : Db)
    → payload_errors env a ≡ []
    → row.action_type ≡ a.action_type
    → IsProposed env q (a ∷ actions) row
    → Adds env q actions (record db { proposals = db.proposals ++ row ∷ [] }) result db'
    → Adds env q (a ∷ actions) db (prepend row (result, db')).0 (prepend row (result, db')).1
prepend-Adds env q a actions db row result db' valid named first h =
    let there = prepend-db row result db' in
    record {
      new = row ∷ h.new;
      added = ap (λ d. d.proposals) there ∙ (h.added ∙ snoc-append db.proposals row h.new);
      proposed = (
        first,
        All-map (IsProposed env q actions) (IsProposed env q (a ∷ actions)) (later env q a actions)
            h.new h.proposed,
      );
      cases_kept = ap (λ d. d.cases) there ∙ h.cases_kept;
      decisions_kept = ap (λ d. d.decisions) there ∙ h.decisions_kept;
      returned = prepended env q a actions row h.new result db' valid named h.returned;
    }

-- The row that an action gives is proposed.
row-IsProposed :
    (env : Env) (q : Request) (i : ℕ) (a : RecommendedAction) (actions : List RecommendedAction)
    (title : String) (payload : Option String)
    → payload_errors env a ≡ []
    → IsProposed env q (a ∷ actions) (proposal_row env q i a title payload)
row-IsProposed env q i a actions title payload valid = record {
  of_case = refl;
  of_decision = refl;
  waits = refl;
  needs_review = refl;
  comes = inl (refl, valid);
}

pub create_all-Adds :
    (env : Env) (q : Request) (i : ℕ) (actions : List RecommendedAction) (db : Db)
    → Adds env q actions db (create_all env q i actions db).0 (create_all env q i actions db).1
unfolding create_all
create_all-Adds env q i [] db = record {
  new = [];
  added = sym (append-nil db.proposals);
  proposed = tt;
  cases_kept = refl;
  decisions_kept = refl;
  returned = inl (refl, refl);
}
create_all-Adds env q i (a ∷ actions) db = elim (errors-cases (payload_errors env a)) [
  | inr (e, es, skipped) ↦
      rw (skipped, create_all)
        (skip-Adds env q a actions db _ _ e es skipped (create_all-Adds env q (i + 1) actions db))
  | inl valid ↦ elim (Result-cases (create_one env q i a db)) [
    | inr (m, failed) ↦
        rw (valid, failed, create_all)
          (record {
            new = [];
            added = sym (append-nil db.proposals);
            proposed = tt;
            cases_kept = refl;
            decisions_kept = refl;
            returned = inr (
              m,
              refl,
              record {
                before = [];
                after = actions;
                action = a;
                index = i;
                split = refl;
                rows_before = refl;
                fails = failed;
              },
            );
          })
    | inl ((row, db1), done) ↦
        let (title, payload, is_row, is_db) = created env q i a db row db1 done in
        rw (valid, done, create_all)
          (prepend-Adds env q a actions db row _ _ valid (ap (λ r. r.action_type) is_row)
            (subst (IsProposed env q (a ∷ actions)) (sym is_row)
              (row-IsProposed env q i a actions title payload valid))
            (subst
              (λ d.
                Adds env q actions d (create_all env q (i + 1) actions db1).0
                  (create_all env q (i + 1) actions db1).1)
              is_db (create_all-Adds env q (i + 1) actions db1)))
  ]
]
