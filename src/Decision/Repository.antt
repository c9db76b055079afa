-- ===== src/Decision/Repository.antt =====
-- The repository of cases, decisions and proposals (internal/repository/decision/repository.go), on
-- the tables of Store, with the unique index of migrations/013_fix_decision_case_index.sql. Where
-- several rows match and SQL leaves open which comes first, this takes the first of the table.
use baxi.Base.{
  ◌&&◌, ◌||◌, not, Bool, true, false, Option, none, some, List, [], ◌∷◌, ◌++◌, String, str_append,
  ◌==◌, if◌then◌else◌, ℤ, Driver, Result, ok, err, check, guard, ◌>>◌, is_some, filter,
}
use baxi.Store.{Db, CaseRow, DecisionRow, ProposalRow, find_case, update_case, find_proposal}

pub data Stmt : Type 0 where
  insert_case select_case select_case_by_source update_case_row : Stmt
  insert_decision insert_proposal select_proposals : Stmt

abbrev pub same_text : Option String → Option String → Bool
same_text none none = true
same_text (some s) (some t) = s == t
same_text _ _ = false

-- A case that the partial index covers: its source is not NULL, and it is neither closed nor failed.
abbrev pub is_active : CaseRow → Bool
is_active c = not (c.status == "closed" || c.status == "failed")

abbrev pub is_indexed : CaseRow → Bool
is_indexed c = (is_some c.source_type && is_some c.source_id) && is_active c

abbrev pub same_source : CaseRow → CaseRow → Bool
same_source a b = same_text a.source_type b.source_type && same_text a.source_id b.source_id

-- Whether the primary key or the index forbids the row beside one that is there.
abbrev pub conflicts : CaseRow → CaseRow → Bool
conflicts new c = new.case_id == c.case_id || (is_indexed new && is_indexed c && same_source new c)

abbrev pub any_conflict : CaseRow → List CaseRow → Bool
any_conflict new [] = false
any_conflict new (c ∷ cs) = conflicts new c || any_conflict new cs

-- `CreateCase`.
unfoldable pub create_case : Driver Stmt → CaseRow → Db → Result Db
create_case drv row db = do
  check (drv insert_case) (λ m. str_append "insert ai.decision_case: " m)
  guard (not (any_conflict row db.cases))
      "insert ai.decision_case: duplicate key value violates unique constraint"
  ok (record db { cases = db.cases ++ row ∷ [] })

-- `GetCaseByID`.
unfoldable pub get_case_by_id : Driver Stmt → String → Db → Result CaseRow
get_case_by_id drv id db = do
  check (drv select_case) (λ m. str_append "query ai.decision_case by id: " m)
  elim (find_case id db.cases) [
    | none ↦ err "query ai.decision_case by id: no rows in result set"
    | some c ↦ ok c
  ]

-- An empty text stands for NULL.
abbrev pub sought : String → Option String
sought s = if s == "" then none else some s

abbrev pub find_source : Option String → Option String → List CaseRow → Option CaseRow
find_source source_type source_id [] = none
find_source source_type source_id (c ∷ cs) =
    let rest = find_source source_type source_id cs in
    if same_text c.source_type source_type && same_text c.source_id source_id then some c else rest

-- `GetCaseBySource`: no row is an error that the callers tell apart.
pub data Found : Type 0 where
  row : CaseRow → Found
  no_rows : Found
  refused : String → Found

unfoldable pub get_case_by_source : Driver Stmt → String → String → Db → Found
get_case_by_source drv source_type source_id db = elim (drv select_case_by_source) [
  | some m ↦ refused (str_append "query ai.decision_case by source: " m)
  | none ↦ elim (find_source (sought source_type) (sought source_id) db.cases) [
    | none ↦ no_rows
    | some c ↦ row c
  ]
]

-- The SET clause: all four columns are written, also with NULL.
abbrev pub set_case : ℤ → String → Option String → Option String → Option String → CaseRow → CaseRow
set_case now status context_json context_hash governance_snapshot c = record c {
  status = status;
  context_json = context_json;
  context_hash = context_hash;
  governance_snapshot = governance_snapshot;
  updated_at = some now;
}

-- `UpdateCaseStatus`.
unfoldable pub update_case_status :
    Driver Stmt
    → ℤ
    → String
    → String
    → Option String
    → Option String
    → Option String
    → Db
    → Result Db
update_case_status drv now id status context_json context_hash governance_snapshot db = do
  check (drv update_case_row) (λ m. str_append "update ai.decision_case status: " m)
  guard (is_some (find_case id db.cases)) (str_append "decision case " (str_append id " not found"))
  ok (record db {
    cases =
        update_case id (set_case now status context_json context_hash governance_snapshot) db.cases;
  })

-- `CreateDecision`.
unfoldable pub create_decision : Driver Stmt → DecisionRow → Db → Result Db
create_decision drv d db = do
  check (drv insert_decision) (λ m. str_append "insert ai.llm_decision: " m)
  ok (record db { decisions = db.decisions ++ d ∷ [] })

-- `CreateProposal`.
unfoldable pub create_proposal : Driver Stmt → ProposalRow → Db → Result Db
create_proposal drv p db = do
  check (drv insert_proposal) (λ m. str_append "insert ai.action_proposal: " m)
  guard (not (is_some (find_proposal p.proposal_id db.proposals)))
      "insert ai.action_proposal: duplicate key value violates unique constraint"
  ok (record db { proposals = db.proposals ++ p ∷ [] })

-- `ListProposalsByCase`; the rows are kept in the order of their creation.
unfoldable pub list_proposals_by_case : Driver Stmt → String → Db → Result (List ProposalRow)
list_proposals_by_case drv id db = do
  check (drv select_proposals) (λ m. str_append "query ai.action_proposal by case: " m)
  ok (filter (λ p. p.case_id == id) db.proposals)
