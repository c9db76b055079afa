-- ===== src/Review/Tests.antt =====
-- Runs of the review, and its theorems at inputs that meet their hypotheses.
use baxi.Base.{◌≡◌, refl, ◌≢◌, true, Option, none, some, [], ◌∷◌, String, pos, arith, eq_iff}
use baxi.Store.{Db, ProposalRow, CaseRow}
use baxi.Review.{
  Env, Transition, done, failed, wrapped, Stmt, transition, transition_proposal, transition_body,
  write_review, update_case_status_if_needed, approve_proposal, review_record, validate_request,
}
use baxi.Review.Once.{Verb, Request, State, waiting, run_reviews, run_reviews-State}

abbrev proposal : ProposalRow
proposal = record {
  proposal_id = "prop_1";
  case_id = "case_1";
  decision_id = none;
  action_type = "notify_owner";
  payload = none;
  apply_status = "proposed";
  created_at = pos 1;
  applied_at = none;
  applied_by = none;
  title = "notify";
  description = none;
  risk_level = some "low";
  requires_human_review = true;
  context_hash = none;
  action_schema_version = none;
  evidence_refs = none;
  recipe_id = none;
}

abbrev decision_case : CaseRow
decision_case = record {
  case_id = "case_1";
  alert_id = none;
  status = "proposal_generated";
  context_json = none;
  created_at = pos 1;
  source_type = none;
  source_id = none;
  object_type = none;
  object_id = none;
  severity = none;
  context_hash = none;
  governance_snapshot = none;
  created_by = none;
  updated_at = none;
}

abbrev db : Db
db = record {
  proposals = proposal ∷ [];
  cases = decision_case ∷ [];
  decisions = [];
  reviews = [];
  audit = [];
  lineage = [];
  outbox = [];
}

abbrev env : Env
env = record { driver = λ s. none; now = pos 9; review_id = "rev_1"; recorder = some (λ e. true) }

abbrev approval : Transition
approval = transition "prop_1" "alice" "fine" "approve" "approved" "proposal_approved"

abbrev approved_db : Db
approved_db = (transition_proposal env approval db).1

statuses :
    let (r, d) = approve_proposal env "prop_1" "alice" "fine" db in
    (d.proposals ≡ record proposal { apply_status = "approved" } ∷ [])
    × (d.cases
        ≡ record decision_case { status = "review_required"; updated_at = some (pos 9) } ∷ [])
    × (r ≡ done (review_record env approval))
unfolding approve_proposal transition_proposal transition_body write_review
    update_case_status_if_needed
statuses = (refl, refl, refl)

-- A refused audit row takes the whole review back.
refuses : Stmt → Option String
refuses Stmt.insert_audit = some "disk full"
refuses s = none

rolled_back :
    approve_proposal (record env { driver = refuses }) "prop_1" "alice" "fine" db
    ≡ (failed (wrapped "insert audit log" "disk full"), db)
unfolding approve_proposal transition_proposal transition_body write_review
    update_case_status_if_needed refuses
rolled_back = refl

no_reviewer :
    validate_request (record { reviewer_id = ""; verdict = "approve"; feedback = "" })
    ≡ some "reviewer_id is required"
unfolding validate_request
no_reviewer = refl

abbrev decided_db : Db
decided_db = record db { proposals = record proposal { apply_status = "rejected" } ∷ [] }

rejected_ne_proposed : ◌≢◌ {A = String} "rejected" "proposed"
rejected_ne_proposed = ground (arith, eq_iff "rejected" "proposed")

abbrev request : Verb → String → Request
request v reviewer = record {
  env = env;
  verb = v;
  proposal_id = "prop_1";
  reviewer_id = reviewer;
  feedback = "";
}

run_reviews-State_example :
    State "prop_1" (run_reviews (request Verb.cancel "bob" ∷ request Verb.approve "alice" ∷ []) db)
run_reviews-State_example =
    run_reviews-State (request Verb.cancel "bob" ∷ request Verb.approve "alice" ∷ []) "prop_1" db
      (waiting proposal refl refl refl)
