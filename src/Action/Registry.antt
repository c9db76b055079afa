-- ===== src/Action/Registry.antt =====
-- The action registry (internal/action/registry.go): the whitelist over the four canonical action
-- types, and what the rest of the program asks of it. The YAML file is parsed outside: a load gives
-- the parsed map, or says that there is no file.
pub mod Payload
pub mod Laws
pub mod Listed
mod Tests
use baxi.Base.{
  ◌&&◌, not, Bool, true, false, Option, none, some, List, [], ◌∷◌, String, ◌==◌, if◌then◌else◌,
  elem, lookup, is_some, filter, map,
}
use baxi.Json.{Fields, Value}

-- `CanonicalActions`.
abbrev pub canonical_actions : List String
canonical_actions =
    "create_followup_task" ∷ "notify_owner" ∷ "export_report" ∷ "create_outbox_message" ∷ []

-- `ActionConfig`. A nil `Enabled` is `none`.
pub record ActionConfig : Type 0 where
  pub enabled : Option Bool
  pub version : String
  pub description : String
  pub risk_level : String
  pub requires_approval : Bool
  pub dry_run_default : Bool
  pub adapter : String
  pub allowed_by : List String
  pub llm_visible : Bool
  pub llm_description : String
  pub payload_schema : Option Fields

abbrev pub Actions : Type 0
Actions = List (String × ActionConfig)

-- `ActionRegistry`: the whitelist is the list of the keys that it maps to true.
pub record ActionRegistry : Type 0 where
  pub actions : Actions
  pub whitelist : List String
  pub config_loaded : Bool

abbrev pub default_config : ActionConfig
default_config = record {
  enabled = none;
  version = "";
  description = "";
  risk_level = "medium";
  requires_approval = true;
  dry_run_default = false;
  adapter = "";
  allowed_by = [];
  llm_visible = false;
  llm_description = "";
  payload_schema = none;
}

-- `isCanonical`.
unfoldable pub is_canonical : String → Bool
is_canonical action = elem action canonical_actions

-- `delete(m, key)`.
abbrev pub delete : String → Actions → Actions
delete k m = filter (λ e. not (e.0 == k)) m

-- `cfg.Enabled == nil || *cfg.Enabled`.
abbrev pub is_enabled : ActionConfig → Bool
is_enabled cfg = elim cfg.enabled [ none ↦ true | some b ↦ b ]

-- The second loop of `whitelistActions`, over the canonical actions `keys`: the whitelist, and the
-- map with the disabled actions deleted.
whitelist_loop : List String → Actions → List String × Actions
whitelist_loop [] m = ([], m)
whitelist_loop (key ∷ keys) m = elim (lookup key m) [
  | none ↦ whitelist_loop keys m
  | some cfg ↦ elim (is_enabled cfg) [
    | true ↦ (key ∷ (whitelist_loop keys m).0, (whitelist_loop keys m).1)
    | false ↦ whitelist_loop keys (delete key m)
  ]
]

-- `NewActionRegistry`, with `loadFile` and `whitelistActions`: `none` where the file does not
-- exist, else its `actions` map.
unfoldable pub new_action_registry : Option Actions → ActionRegistry
unfolding whitelist_loop is_canonical
new_action_registry none = record {
  actions = map (λ key. (key, default_config)) canonical_actions;
  whitelist = canonical_actions;
  config_loaded = false;
}
new_action_registry (some m) =
    let (w, m') = whitelist_loop canonical_actions (filter (λ e. is_canonical e.0) m) in
    record { actions = m'; whitelist = w; config_loaded = true }

-- `NewEmptyRegistry`.
unfoldable pub new_empty_registry : ActionRegistry
new_empty_registry = record { actions = []; whitelist = []; config_loaded = false }

-- `IsAllowed`.
unfoldable pub is_allowed : ActionRegistry → String → Bool
is_allowed r action_type = elem action_type r.whitelist

-- `GetActionConfig`.
unfoldable pub get_action_config : ActionRegistry → String → Option ActionConfig
get_action_config r action_type =
    if elem action_type r.whitelist then lookup action_type r.actions else none

-- `AllowedActions`.
unfoldable pub allowed_actions : ActionRegistry → List String
allowed_actions r = filter (λ a. elem a r.whitelist) canonical_actions

-- The tests of the loop of `GetLLMVisibleActions`.
abbrev pub is_visible : ActionRegistry → String → Bool
is_visible r a = elim (lookup a r.actions) [
  | none ↦ false
  | some cfg ↦ elem a r.whitelist && cfg.llm_visible
]

-- `GetLLMVisibleActions`, by the types of the contracts.
unfoldable pub get_llm_visible_actions : ActionRegistry → List String
get_llm_visible_actions r = filter (is_visible r) canonical_actions
