-- ===== src/Decision/Cases.antt =====
-- The cases of alerts (internal/decision/case_service.go). `alert` is the answer of the alert
-- repository.
pub mod Laws
mod Tests
use baxi.Base.{
  ◌&&◌, ◌||◌, not, Bool, true, false, Option, none, some, List, [], ◌∷◌, ◌++◌, String, str_append,
  ◌==◌, if◌then◌else◌, ℤ, Driver, Result, ok, err,
}
use baxi.Store.{Db, CaseRow}
use baxi.Decision.Repository.{
  Stmt, create_case, get_case_by_id, get_case_by_source, Found, row, no_rows, refused, is_active,
  update_case_status,
}

-- `AlertRow`: the columns that are read.
pub record AlertRow : Type 0 where
  pub object_type : String
  pub object_id : String
  pub severity : String

pub record Env : Type 0 where
  pub driver : Driver Stmt
  pub now : ℤ
  pub case_id : String
  pub alert : String → Result AlertRow

-- `DecisionCase`: the fields that come from the columns of Store.
pub record DecisionCase : Type 0 where
  pub case_id : String
  pub alert_id : Option String
  pub status : String
  pub context_json : Option String
  pub created_at : ℤ
  pub source_type : Option String
  pub source_id : Option String
  pub object_type : String
  pub object_id : String
  pub severity : String
  pub context_hash : String
  pub governance_snapshot : Option String
  pub created_by : String
  pub updated_at : Option ℤ

abbrev text : Option String → String
text none = ""
text (some s) = s

-- `rowToCase`.
unfoldable pub row_to_case : CaseRow → DecisionCase
row_to_case c = record {
  case_id = c.case_id;
  alert_id = c.alert_id;
  status = c.status;
  context_json = c.context_json;
  created_at = c.created_at;
  source_type = c.source_type;
  source_id = c.source_id;
  object_type = text c.object_type;
  object_id = text c.object_id;
  severity = text c.severity;
  context_hash = text c.context_hash;
  governance_snapshot = c.governance_snapshot;
  created_by = text c.created_by;
  updated_at = c.updated_at;
}

-- The row of a new case.
abbrev pub new_case : Env → String → String → AlertRow → CaseRow
new_case env alert_id created_by a = record {
  case_id = env.case_id;
  alert_id = some alert_id;
  status = "created";
  context_json = none;
  created_at = env.now;
  source_type = some "alert";
  source_id = some alert_id;
  object_type = some a.object_type;
  object_id = some a.object_id;
  severity = some a.severity;
  context_hash = none;
  governance_snapshot = none;
  created_by = some created_by;
  updated_at = none;
}

-- The end of `CreateCaseFromAlert`.
abbrev pub insert_new : Env → String → String → AlertRow → Db → Result DecisionCase × Db
insert_new env alert_id created_by a db =
    elim (create_case env.driver (new_case env alert_id created_by a) db) [
      | err m ↦
          (err (str_append "create case for alert " (str_append alert_id (str_append ": " m))), db)
      | ok db' ↦ (ok (row_to_case (new_case env alert_id created_by a)), db')
    ]

-- `CreateCaseFromAlert`.
unfoldable pub create_case_from_alert : Env → String → String → Db → Result DecisionCase × Db
create_case_from_alert env alert_id created_by db = elim (env.alert alert_id) [
  | err m ↦ (err (str_append "get alert " (str_append alert_id (str_append ": " m))), db)
  | ok a ↦ elim (get_case_by_source env.driver "alert" alert_id db) [
    | refused m ↦ (
      err (str_append "check existing case for alert " (str_append alert_id (str_append ": " m))),
      db,
    )
    | no_rows ↦ insert_new env alert_id created_by a db
    | row c ↦
        if is_active c then (ok (row_to_case c), db) else insert_new env alert_id created_by a db
  ]
]

-- `GetCase`.
unfoldable pub get_case : Env → String → Db → Result DecisionCase
get_case env id db = elim (get_case_by_id env.driver id db) [
  | err m ↦ err m
  | ok c ↦ ok (row_to_case c)
]

-- `UpdateCaseStatus` of the service.
unfoldable pub set_status : Env → String → String → Db → Result Db
set_status env id status = update_case_status env.driver env.now id status none none none
