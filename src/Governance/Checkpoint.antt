-- ===== src/Governance/Checkpoint.antt =====
-- Checkpoints of sensitive actions (internal/governance/checkpoint.go), with the rows of
-- gov.config_snapshot as internal/repository/governance/repository.go returns them. `unmarshal` is
-- the JSON decoder of the rules.
pub mod Laws
mod Tests
use baxi.Base.{
  ◌||◌, not, Bool, true, false, Option, none, some, List, [], ◌∷◌, ◌++◌, String, ◌==◌,
  if◌then◌else◌, elem, filter, map, Result, ok, err, str_append,
}

-- `CheckpointRule`.
pub record CheckpointRule : Type 0 where
  pub action : String
  pub requires_reason : Bool
  pub requires_human_review : Bool

-- `ConfigSnapshotRow`.
pub record ConfigSnapshotRow : Type 0 where
  pub config_key : String
  pub status : String

-- `GetConfigSnapshots` of the repository, over the keys of the table.
unfoldable pub get_config_snapshots : Option String → List String → Result (List ConfigSnapshotRow)
get_config_snapshots (some m) keys = err (str_append "query gov.config_snapshot: " m)
get_config_snapshots none keys = ok (map (λ k. record { config_key = k; status = "loaded" }) keys)

abbrev pub sensitive_actions : List String
sensitive_actions = "execute_dispatch" ∷ "modify_business_policy" ∷ "trigger_pipeline" ∷ []

abbrev pub is_rules_key : String → Bool
is_rules_key k = k == "checkpoint_rules" || k == "checkpoint_rules.yml"

-- The rules of one row: none where its key is another or its text cannot be decoded.
abbrev pub rules_of :
    (String → Option (List CheckpointRule)) → ConfigSnapshotRow → List CheckpointRule
rules_of unmarshal row =
    if is_rules_key row.config_key
    then (elim (unmarshal row.status) [ none ↦ [] | some rules ↦ rules ])
    else []

abbrev pub has_action : String → List CheckpointRule → Bool
has_action action [] = false
has_action action (r ∷ rs) = r.action == action || has_action action rs

-- The loop of `RequiresCheckpoint`.
row_requires : (String → Option (List CheckpointRule)) → String → List ConfigSnapshotRow → Bool
row_requires unmarshal action [] = false
row_requires unmarshal action (row ∷ rows) =
    has_action action (rules_of unmarshal row) || row_requires unmarshal action rows

-- `RequiresCheckpoint`.
unfoldable pub requires_checkpoint :
    (String → Option (List CheckpointRule)) → Result (List ConfigSnapshotRow) → String → Bool
unfolding row_requires
requires_checkpoint unmarshal snapshots action =
    if elem action sensitive_actions
    then true
    else elim snapshots [ err m ↦ false | ok rows ↦ row_requires unmarshal action rows ]

-- The rules that are always there.
abbrev pub built_in : List CheckpointRule
built_in =
    record { action = "execute_dispatch"; requires_reason = true; requires_human_review = true }
    ∷ record {
      action = "modify_business_policy";
      requires_reason = true;
      requires_human_review = true;
    }
    ∷ record { action = "trigger_pipeline"; requires_reason = true; requires_human_review = false }
    ∷ []

collect_rules :
    (String → Option (List CheckpointRule)) → List ConfigSnapshotRow → List CheckpointRule
collect_rules unmarshal [] = []
collect_rules unmarshal (row ∷ rows) = rules_of unmarshal row ++ collect_rules unmarshal rows

-- `GetRules`. An error of the query gives no rules.
unfoldable pub get_rules :
    (String → Option (List CheckpointRule)) → Result (List ConfigSnapshotRow) → List CheckpointRule
unfolding collect_rules
get_rules unmarshal (err m) = []
get_rules unmarshal (ok rows) =
    let rules = collect_rules unmarshal rows in
    rules ++ filter (λ r. not (has_action r.action rules)) built_in
