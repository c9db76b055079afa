-- ===== src/Governance/Access/Tests.antt =====
-- Checks of access at a small table of policies.
use baxi.Base.{◌≡◌, refl, ◌&&◌, not, true, Option, none, some, List, [], ◌∷◌, String}
use baxi.Json.{end, field, bool}
use baxi.Governance.Access.{
  AccessPolicyRow, AccessDecision, access_allowed, access_denied, access_conditional,
  matches_resource, matches_action, check_access,
}
use baxi.Governance.Access.Laws.{any, applies, is_granted, check_access-granted}

abbrev policy : String → String → String → String → Option String → AccessPolicyRow
policy role resource act effect conditions = record {
  policy_name = "p";
  resource_type = "table";
  resource_pattern = resource;
  action = act;
  principal_type = "role";
  principal_pattern = role;
  effect = effect;
  conditions_jsonb = conditions;
}

abbrev table : List AccessPolicyRow
table =
    policy "analyst" "dwd_*" "read" "allow" none
    ∷ policy "analyst" "*" "export" "allow" (some "{}")
    ∷ policy "analyst" "dwd_pay" "*" "deny" none
    ∷ policy "admin" "*" "*" "allow" none
    ∷ []

abbrev ask : String → String → String → AccessDecision
ask = check_access (λ s. some (field "hours" (bool true) end)) (λ s. none) table

answers :
    (ask "analyst" "dwd_order" "read" ≡ access_allowed)
    × (ask "analyst" "ods_order" "read" ≡ access_denied)
    × (ask "analyst" "ods_order" "export" ≡ access_conditional)
    × (ask "analyst" "dwd_pay" "read" ≡ access_denied)
    × (ask "guest" "dwd_order" "read" ≡ access_denied)
    × (ask "admin" "dwd_pay" "drop" ≡ access_allowed)
unfolding check_access matches_resource matches_action
answers = (refl, refl, refl, refl, refl, refl)

check_access-granted_example : is_granted (ask "analyst" "dwd_order" "read") ≡ (
    any (applies "allow" "analyst" "dwd_order" "read") table
    && not (any (applies "deny" "analyst" "dwd_order" "read") table))
check_access-granted_example =
    check_access-granted (λ s. some (field "hours" (bool true) end)) (λ s. none) table "analyst"
      "dwd_order" "read" refl refl

pay_denied : any (applies "deny" "analyst" "dwd_pay" "read") table ≡ true
unfolding matches_resource matches_action
pay_denied = refl
