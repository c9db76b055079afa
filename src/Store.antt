-- ===== src/Store.antt =====
-- The tables that the review and the execution of a proposal share: ai.action_proposal,
-- ai.decision_case, ai.review_record, audit.audit_log, the lineage events and ops.outbox_event
-- (internal/review/repository.go, internal/review/service.go, internal/action/apply_service.go).
use baxi.Base.{
  ◌≡◌, Number, Bool, Option, none, some, List, [], ◌∷◌, String, ◌==◌, if◌then◌else◌, ℤ, arith,
  eq_iff,
}
use baxi.Json.{Fields}
use baxi.Outbox.{Table}

-- `ActionProposalRow`. The review does not read the last four columns.
pub record ProposalRow : Type 0 where
  pub proposal_id : String
  pub case_id : String
  pub decision_id : Option String
  pub action_type : String
  pub payload : Option String
  pub apply_status : String
  pub created_at : ℤ
  pub applied_at : Option ℤ
  pub applied_by : Option String
  pub title : String
  pub description : Option String
  pub risk_level : Option String
  pub requires_human_review : Bool
  pub context_hash : Option String
  pub action_schema_version : Option String
  pub evidence_refs : Option String
  pub recipe_id : Option String

-- `DecisionCaseRow`, less the columns that nothing here writes.
pub record CaseRow : Type 0 where
  pub case_id : String
  pub alert_id : Option String
  pub status : String
  pub context_json : Option String
  pub created_at : ℤ
  pub source_type : Option String
  pub source_id : Option String
  pub object_type : Option String
  pub object_id : Option String
  pub severity : Option String
  pub context_hash : Option String
  pub governance_snapshot : Option String
  pub created_by : Option String
  pub updated_at : Option ℤ

-- `LLMDecisionRow`, less the columns that nothing here writes. The validation errors are kept as
-- their field and message.
pub record DecisionRow : Type 0 where
  pub decision_id : String
  pub case_id : String
  pub output_json : Option String
  pub confidence : Option Number
  pub created_at : ℤ
  pub status : String
  pub fallback_reason : Option String
  pub validation_errors : List (String × String)

-- `ReviewRecord`, as it is stored.
pub record ReviewRecord : Type 0 where
  pub record_id : String
  pub proposal_id : String
  pub reviewer_id : String
  pub verdict : String
  pub feedback : String
  pub created_at : ℤ

pub record AuditRow : Type 0 where
  pub category : String
  pub action : String
  pub actor : String
  pub resource_type : String
  pub resource_id : String
  pub metadata : Fields

pub record LineageEvent : Type 0 where
  pub case_id : String
  pub event_type : String
  pub actor : String
  pub event_data : Fields

pub record Db : Type 0 where
  pub proposals : List ProposalRow
  pub cases : List CaseRow
  pub decisions : List DecisionRow
  pub reviews : List ReviewRecord
  pub audit : List AuditRow
  pub lineage : List LineageEvent
  pub outbox : Table

-- `SELECT … FROM ai.action_proposal WHERE proposal_id = $1`.
abbrev pub find_proposal : String → List ProposalRow → Option ProposalRow
find_proposal id [] = none
find_proposal id (r ∷ rs) = if r.proposal_id == id then some r else find_proposal id rs

-- `UPDATE ai.action_proposal SET … WHERE proposal_id = $1`.
abbrev pub update_proposal :
    String → (ProposalRow → ProposalRow) → List ProposalRow → List ProposalRow
update_proposal id f [] = []
update_proposal id f (r ∷ rs) = (if r.proposal_id == id then f r else r) ∷ update_proposal id f rs

abbrev pub find_case : String → List CaseRow → Option CaseRow
find_case id [] = none
find_case id (r ∷ rs) = if r.case_id == id then some r else find_case id rs

abbrev pub update_case : String → (CaseRow → CaseRow) → List CaseRow → List CaseRow
update_case id f [] = []
update_case id f (r ∷ rs) = (if r.case_id == id then f r else r) ∷ update_case id f rs

-- An update by key that keeps the key, seen through a lookup.
pub find_proposal-update_proposal :
    (j id : String) (f : ProposalRow → ProposalRow) (rs : List ProposalRow)
    → ((r : ProposalRow) → (f r).proposal_id ≡ r.proposal_id)
    → find_proposal j (update_proposal id f rs) ≡ (
        if id == j
        then (elim (find_proposal j rs) [ none ↦ none | some r ↦ some (f r) ])
        else find_proposal j rs)
find_proposal-update_proposal j id f [] k = ground arith
find_proposal-update_proposal j id f (r ∷ rs) k = ground (
  arith,
  k r,
  eq_iff r.proposal_id id,
  eq_iff r.proposal_id j,
  eq_iff (f r).proposal_id j,
  eq_iff id j,
  find_proposal-update_proposal j id f rs k,
)

pub find_case-update_case :
    (j id : String) (f : CaseRow → CaseRow) (rs : List CaseRow)
    → ((r : CaseRow) → (f r).case_id ≡ r.case_id)
    → find_case j (update_case id f rs) ≡ (
        if id == j
        then (elim (find_case j rs) [ none ↦ none | some r ↦ some (f r) ])
        else find_case j rs)
find_case-update_case j id f [] k = ground arith
find_case-update_case j id f (r ∷ rs) k = ground (
  arith,
  k r,
  eq_iff r.case_id id,
  eq_iff r.case_id j,
  eq_iff (f r).case_id j,
  eq_iff id j,
  find_case-update_case j id f rs k,
)
