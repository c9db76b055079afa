-- ===== src/Recommendation.antt =====
-- Recommendations from alerts and tasks from recommendations (internal/recommendation/generator.go).
-- `print4`, `print2`, `print_percent` and `print_int` are the formats of `Sprintf`, `trim_space` is of
-- the strings library, and `comes_before` is the collation of the database.
pub mod Templates
pub mod Laws
mod Tests
use Prim.Native.String.{slice}
use text.Mathlib.Text.{starts_with}
use baxi.Base.{
  not, ◌&&◌, Bool, true, false, Option, none, some, List, [], ◌∷◌, ◌++◌, map, String, str_append,
  len, ◌==◌, if◌then◌else◌, ℕ, suc, leb, nat_eq, length, Driver, Result, ok, err,
}
use baxi.Recommendation.Templates.{
  AlertData, Texts, Formats, dimensional_texts, template_global_rule,
}

-- The row of ops.recommendation that `Generate` writes.
pub record Recommendation : Type 0 where
  pub recommendation_id : String
  pub alert_id : Option String
  pub decision_source : String
  pub rule_id : String
  pub strategy_title : String
  pub strategy_detail : Option String
  pub target_object_type : Option String
  pub target_object_id : Option String
  pub expected_impact : String
  pub risk_level : Option String
  pub confidence : String
  pub requires_approval : Bool
  pub approval_status : String
  pub execution_status : String
  pub owner_role : Option String
  pub success_metric : String

-- `TaskRecord`.
pub record TaskRecord : Type 0 where
  pub task_id : String
  pub recommendation_id : String
  pub alert_id : String
  pub task_title : String
  pub task_description : String
  pub target_object_type : String
  pub target_object_id : String
  pub task_source : String
  pub owner_role : String
  pub priority : String
  pub status : String

pub data Stmt : Type 0 where
  select_alerts : Stmt
  insert_recommendation : String → Stmt
  select_recommendations : Stmt

pub record Env (F : Type 0) : Type 0 where
  pub driver : Driver Stmt
  pub formats : Formats F
  pub trim_space : String → String
  pub comes_before : String → String → Bool

-- `truncStr`. A cut inside a character leaves bytes that are no text.
unfoldable pub trunc_str : (String → String) → String → ℕ → Option String
trunc_str trim_space s n =
    if leb (len s) n
    then some s
    else if nat_eq (len (slice s 0 n)) n
    then some (trim_space (slice s 0 n))
    else none

abbrev pub risk_of : String → String
risk_of severity = if severity == "" then "medium" else severity

module _ {F : Type 0} where
  abbrev pub is_dimensional : AlertData F → Bool
  is_dimensional a = not (a.object_type == "") && not (a.object_type == "global")

  -- The texts of an alert: of its rule's template, or of the one for global rules.
  unfoldable pub texts_of : Env F → AlertData F → Option Texts
  texts_of env a =
      let global : Option Texts = elim (trunc_str env.trim_space a.description 60) [
        | none ↦ none
        | some cut ↦ some (template_global_rule env.formats a cut)
      ] in
      if is_dimensional a
      then (elim (dimensional_texts env.formats a) [ some t ↦ some t | none ↦ global ])
      else global

  abbrev row_of : AlertData F → Texts → String → Recommendation
  row_of a t detail = record {
    recommendation_id = str_append "rec-" a.alert_id;
    alert_id = some a.alert_id;
    decision_source = "rule_based";
    rule_id = a.rule_id;
    strategy_title = t.title;
    strategy_detail = some detail;
    target_object_type = some a.object_type;
    target_object_id = some a.object_id;
    expected_impact = t.impact;
    risk_level = some (risk_of a.severity);
    confidence = t.confidence;
    requires_approval = t.requires_approval;
    approval_status = "draft";
    execution_status = "draft";
    owner_role = some a.owner_role;
    success_metric = t.success_metric;
  }

  -- The row of an alert; none where a text was cut inside a character.
  unfoldable pub recommend : Env F → AlertData F → Option Recommendation
  unfolding texts_of trunc_str
  recommend env a = elim (texts_of env a) [
    | none ↦ none
    | some t ↦ elim (trunc_str env.trim_space t.detail 1000) [
      | none ↦ none
      | some detail ↦ some (row_of a t detail)
    ]
  ]

abbrev pub has_id : String → List Recommendation → Bool
has_id k [] = false
has_id k (r ∷ rs) = if r.recommendation_id == k then true else has_id k rs

-- INSERT … ON CONFLICT (recommendation_id) DO NOTHING.
abbrev pub insert_missing : Recommendation → List Recommendation → List Recommendation
insert_missing r table = if has_id r.recommendation_id table then table else table ++ r ∷ []

abbrev pub insert_error : String → String → String
insert_error id m =
    str_append "insert recommendation for alert " (str_append id (str_append ": " m))

module _ {F : Type 0} where
  -- The loop of `Generate`, with the count of the alerts before. The transaction is the caller's: after
  -- an error the rows so far are still in it.
  unfoldable pub insert_all :
      Env F → ℕ → List (AlertData F) → List Recommendation → Result ℕ × List Recommendation
  insert_all env n [] table = (ok n, table)
  insert_all env n (a ∷ alerts) table = elim (recommend env a) [
    | none ↦ (err (insert_error a.alert_id "invalid byte sequence for encoding"), table)
    | some r ↦ elim (env.driver (insert_recommendation r.recommendation_id)) [
      | some m ↦ (err (insert_error a.alert_id m), table)
      | none ↦ insert_all env (suc n) alerts (insert_missing r table)
    ]
  ]

  -- `Generate`, on the alerts in the order of the query.
  unfoldable pub generate :
      Env F → List (AlertData F) → List Recommendation → Result ℕ × List Recommendation
  unfolding insert_all
  generate env alerts table = elim (env.driver select_alerts) [
    | some m ↦ (err (str_append "query ops.metric_alert: " m), table)
    | none ↦ insert_all env 0 alerts table
  ]

-- `deriveTaskID`.
unfoldable pub derive_task_id : String → String
derive_task_id id =
    if starts_with id "dimrec-"
    then str_append "dimtask-" (slice id 7 (len id))
    else if starts_with id "rec-"
    then str_append "task-" (slice id 4 (len id))
    else str_append "task-" id

-- `deriveTaskSource`.
unfoldable pub derive_task_source : String → String
derive_task_source id =
    if starts_with id "dimrec-" then "dimensional_rule" else "heuristic_strategy"

-- `derivePriority`.
unfoldable pub derive_priority : String → String
derive_priority risk =
    if risk == "high"
    then "high"
    else if risk == "medium"
    then "medium"
    else if risk == "low"
    then "low"
    else "medium"

-- COALESCE.
abbrev pub or_else : String → Option String → String
or_else s none = s
or_else s (some t) = t

unfoldable pub task_of : Recommendation → TaskRecord
unfolding derive_task_id derive_task_source derive_priority
task_of r = record {
  task_id = derive_task_id r.recommendation_id;
  recommendation_id = r.recommendation_id;
  alert_id = or_else "" r.alert_id;
  task_title = r.strategy_title;
  task_description = or_else "" r.strategy_detail;
  target_object_type = or_else "" r.target_object_type;
  target_object_id = or_else "" r.target_object_id;
  task_source = derive_task_source r.recommendation_id;
  owner_role = or_else "" r.owner_role;
  priority = derive_priority (or_else "medium" r.risk_level);
  status = "pending";
}

-- ORDER BY recommendation_id.
abbrev insert_ordered :
    (String → String → Bool) → Recommendation → List Recommendation → List Recommendation
insert_ordered before r [] = r ∷ []
insert_ordered before r (q ∷ qs) =
    let rest = insert_ordered before r qs in
    if before q.recommendation_id r.recommendation_id then q ∷ rest else r ∷ q ∷ qs

abbrev pub order_by_id : (String → String → Bool) → List Recommendation → List Recommendation
order_by_id before [] = []
order_by_id before (r ∷ rs) = insert_ordered before r (order_by_id before rs)

module _ {F : Type 0} where
  -- `GenerateTasks`.
  unfoldable pub generate_tasks : Env F → List Recommendation → Result (List TaskRecord)
  unfolding task_of
  generate_tasks env table = elim (env.driver select_recommendations) [
    | some m ↦ err (str_append "query recommendations: " m)
    | none ↦ ok (map task_of (order_by_id env.comes_before table))
  ]
