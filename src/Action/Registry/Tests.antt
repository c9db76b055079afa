-- ===== src/Action/Registry/Tests.antt =====
-- Loads of the registry, and its theorems at files that meet their hypotheses.
use baxi.Base.{◌≡◌, refl, true, false, none, some, [], ◌∷◌, elem, pos}
use baxi.Json.{str, arr, obj, cons, nil, int, Fields, end, field}
use baxi.Action.Registry.{
  ActionConfig, Actions, ActionRegistry, canonical_actions, default_config, is_canonical,
  whitelist_loop, new_action_registry, new_empty_registry, is_allowed, allowed_actions,
  get_llm_visible_actions,
}
use baxi.Action.Registry.Payload.{validate_payload, missing_fields, property_errors}

abbrev off : ActionConfig
off = record default_config { enabled = some false }

abbrev shown : ActionConfig
shown = record default_config { enabled = some true; llm_visible = true }

-- One action that is enabled, one that is disabled, one that is not canonical.
abbrev file : Actions
file = ("notify_owner", shown) ∷ ("export_report", off) ∷ ("drop_tables", shown) ∷ []

loads :
    (allowed_actions (new_action_registry (some file)) ≡ "notify_owner" ∷ [])
    × (get_llm_visible_actions (new_action_registry (some file)) ≡ "notify_owner" ∷ [])
    × (allowed_actions (new_action_registry none) ≡ canonical_actions)
    × (allowed_actions new_empty_registry ≡ [])
    × (is_allowed (new_action_registry (some file)) "drop_tables" ≡ false)
unfolding allowed_actions new_action_registry get_llm_visible_actions whitelist_loop is_canonical
    new_empty_registry is_allowed
loads = (refl, refl, refl, refl, refl)

notify_visible :
    elem "notify_owner" (get_llm_visible_actions (new_action_registry (some file))) ≡ true
unfolding get_llm_visible_actions new_action_registry whitelist_loop is_canonical
notify_visible = refl

-- A schema with one required text of at most three characters.
abbrev schema : Fields
schema = field "required" (arr (cons (str "title") nil)) (
    field "properties"
      (obj (
        field "title" (obj (field "type" (str "string") (field "maxLength" (int (pos 3)) end)))
          end))
      end)

abbrev registry : ActionRegistry
registry = record {
  actions = ("notify_owner", record shown { payload_schema = some schema }) ∷ [];
  whitelist = "notify_owner" ∷ [];
  config_loaded = true;
}

abbrev payload : Fields
payload = field "title" (str "ok") end

accepted : validate_payload (λ v. "") (λ n. "3") registry "notify_owner" payload ≡ []
unfolding validate_payload missing_fields property_errors
accepted = refl

refused :
    (validate_payload (λ v. "") (λ n. "3") registry "notify_owner" end
      ≡ "missing required field: title" ∷ [])
    × (validate_payload
          (λ v. "")
          (λ n. "3")
          registry
          "notify_owner"
          (field "title" (str "long") end)
        ≡ "field 'title' exceeds max length of 3" ∷ [])
unfolding validate_payload missing_fields property_errors
refused = (refl, refl)
