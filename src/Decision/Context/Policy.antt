-- ===== src/Decision/Context/Policy.antt =====
-- What the registry says of the actions of a context (`buildPolicyResult` of
-- internal/decision/context_builder_v2.go), through internal/action/adapter.go.
pub mod Laws
use Prim.Native.String.{compare}
use Prim.Native.Nat.{Ordering}
use baxi.Base.{
  ◌||◌, Bool, true, false, Option, none, some, List, [], ◌∷◌, ◌++◌, map, String, ◌==◌,
  if◌then◌else◌, elem,
}
use baxi.Action.Registry.{Actions, ActionRegistry, get_action_config, is_allowed}

-- `ActionPolicy`.
pub record ActionPolicy : Type 0 where
  pub risk_level : String
  pub requires_approval : Bool
  pub allowed_by : List String

-- `PolicyResult`. A nil list or map is an empty one.
pub record PolicyResult : Type 0 where
  pub allowed_actions : List String
  pub blocked_actions : List (String × String)
  pub risk_levels : List (String × String)
  pub human_approval_required : Bool
  pub requires_approval_actions : List String
  pub evidence_sources : List String

abbrev before : String → String → Bool
before s t = elim (compare s t) [ Ordering.lt ↦ true | _ ↦ false ]

abbrev insert_text : String → List String → List String
insert_text s [] = s ∷ []
insert_text s (t ∷ ts) = let rest = insert_text s ts in if before s t then s ∷ t ∷ ts else t ∷ rest

abbrev sort_texts : List String → List String
sort_texts [] = []
sort_texts (s ∷ ss) = insert_text s (sort_texts ss)

-- `ListActionTypes`.
unfoldable pub list_action_types : ActionRegistry → List String
list_action_types r = sort_texts (map (λ e. e.0) r.actions)

-- `GetActionPolicy`.
unfoldable pub get_action_policy : ActionRegistry → String → Option ActionPolicy
unfolding get_action_config
get_action_policy r a = elim (get_action_config r a) [
  | none ↦ none
  | some c ↦ some (record {
    risk_level = c.risk_level;
    requires_approval = c.requires_approval;
    allowed_by = c.allowed_by;
  })
]

abbrev pub no_result : PolicyResult
no_result = record {
  allowed_actions = [];
  blocked_actions = [];
  risk_levels = [];
  human_approval_required = false;
  requires_approval_actions = [];
  evidence_sources = [];
}

-- `m[k] = v`.
abbrev pub set_key : String → String → List (String × String) → List (String × String)
set_key k v [] = (k, v) ∷ []
set_key k v ((j, w) ∷ m) = let rest = set_key k v m in if k == j then (j, v) ∷ m else (j, w) ∷ rest

abbrev pub add_sources : List String → List String → List String
add_sources [] seen = seen
add_sources (s ∷ ss) seen = add_sources ss (if elem s seen then seen else seen ++ s ∷ [])

-- What an enabled action with a policy adds.
abbrev with_policy : String → ActionPolicy → PolicyResult → PolicyResult
with_policy a p r = record r {
  allowed_actions = r.allowed_actions ++ a ∷ [];
  risk_levels = if p.risk_level == "" then r.risk_levels else set_key a p.risk_level r.risk_levels;
  human_approval_required = r.human_approval_required || p.requires_approval;
  requires_approval_actions =
      if p.requires_approval
      then r.requires_approval_actions ++ a ∷ []
      else r.requires_approval_actions;
  evidence_sources = add_sources p.allowed_by r.evidence_sources;
}

-- One round of the loop.
abbrev pub add_action : ActionRegistry → String → PolicyResult → PolicyResult
add_action reg a r = elim (get_action_policy reg a) [
  | none ↦
      if is_allowed reg a
      then record r { allowed_actions = r.allowed_actions ++ a ∷ [] }
      else record r {
        blocked_actions = set_key a "not configured in action registry" r.blocked_actions;
      }
  | some p ↦ if is_allowed reg a then with_policy a p r else record r {
    blocked_actions = set_key a "disabled by action registry policy" r.blocked_actions;
  }
]

unfoldable pub add_actions : ActionRegistry → List String → PolicyResult → PolicyResult
add_actions reg [] r = r
add_actions reg (a ∷ as') r = add_actions reg as' (add_action reg a r)

-- `buildPolicyResult`.
unfoldable pub build_policy_result : ActionRegistry → PolicyResult
unfolding add_actions list_action_types
build_policy_result reg = add_actions reg (list_action_types reg) no_result
