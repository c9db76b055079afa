-- ===== src/Governance/Access.antt =====
-- Access policies (internal/governance/access_policy.go), with the queries of
-- internal/repository/governance/repository.go over the rows of gov.access_policy, in the order of
-- their names.
pub mod Laws
mod Tests
use baxi.Base.{
  ◌&&◌, ◌||◌, not, Bool, true, false, Option, none, some, List, [], ◌∷◌, String, str_append, len,
  ◌-◌, ◌==◌, if◌then◌else◌, filter, Driver, Result, ok, err, check, ◌>>=◌, ◌>>◌,
}
use Prim.Native.String.{slice}
use text.Mathlib.Text.{starts_with}
use baxi.Json.{Fields, end, field}

-- `AccessPolicyRow`. A NULL condition is `none`.
pub record AccessPolicyRow : Type 0 where
  pub policy_name : String
  pub resource_type : String
  pub resource_pattern : String
  pub action : String
  pub principal_type : String
  pub principal_pattern : String
  pub effect : String
  pub conditions_jsonb : Option String

-- `model.AccessDecision`.
pub data AccessDecision : Type 0 where
  access_allowed access_denied access_conditional : AccessDecision

pub data Stmt : Type 0 where
  select_by_role select_all : Stmt

-- `filterByRole`.
abbrev pub filter_by_role : List AccessPolicyRow → String → List AccessPolicyRow
filter_by_role policies role = filter (λ p. p.principal_pattern == role) policies

-- `GetAccessPoliciesByRole`.
abbrev pub get_access_policies_by_role :
    Driver Stmt → List AccessPolicyRow → String → Result (List AccessPolicyRow)
get_access_policies_by_role drv table role = do
  check (drv select_by_role) (λ m. str_append "query access_policy by role: " m)
  ok (filter (λ p. p.principal_pattern == role) table)

-- `GetAccessPolicies`.
abbrev pub get_access_policies : Driver Stmt → List AccessPolicyRow → Result (List AccessPolicyRow)
get_access_policies drv table = do
  check (drv select_all) (λ m. str_append "query gov.access_policy: " m)
  ok table

-- `strings.HasSuffix(p, "*")` and `strings.TrimSuffix(p, "*")` of a text that has it.
abbrev pub has_star : String → Bool
has_star p = slice p (len p - 1) (len p) == "*"

abbrev pub trim_star : String → String
trim_star p = slice p 0 (len p - 1)

abbrev pub matches : String → String → Bool
matches pattern x =
    if pattern == "*" || pattern == ""
    then true
    else if pattern == x
    then true
    else if has_star pattern
    then starts_with x (trim_star pattern)
    else false

-- `matchesResource`.
unfoldable pub matches_resource : AccessPolicyRow → String → Bool
matches_resource p object_type = matches p.resource_pattern object_type

-- `matchesAction`.
unfoldable pub matches_action : AccessPolicyRow → String → Bool
matches_action p action = matches p.action action

-- The first loop of `CheckAccess`: whether it returns a denial.
denied_by : List AccessPolicyRow → String → String → Bool
denied_by [] object_type action = false
denied_by (p ∷ ps) object_type action =
    let rest = denied_by ps object_type action in
    if not (p.effect == "deny")
    then rest
    else if not (matches_resource p object_type)
    then rest
    else if not (matches_action p action)
    then rest
    else true

abbrev pub is_empty : Fields → Bool
is_empty end = true
is_empty (field k v m) = false

-- A policy's conditions ask for more only if they are a JSON object with a key.
abbrev pub decision_of : (String → Option Fields) → AccessPolicyRow → AccessDecision
decision_of unmarshal p = elim p.conditions_jsonb [
  | none ↦ access_allowed
  | some text ↦ elim (unmarshal text) [
    | none ↦ access_allowed
    | some conditions ↦ if is_empty conditions then access_allowed else access_conditional
  ]
]

-- The second loop, and the default.
allowed_by : (String → Option Fields) → List AccessPolicyRow → String → String → AccessDecision
allowed_by unmarshal [] object_type action = access_denied
allowed_by unmarshal (p ∷ ps) object_type action =
    let rest = allowed_by unmarshal ps object_type action in
    if not (p.effect == "allow")
    then rest
    else if not (matches_resource p object_type)
    then rest
    else if not (matches_action p action)
    then rest
    else decision_of unmarshal p

abbrev decide : (String → Option Fields) → List AccessPolicyRow → String → String → AccessDecision
decide unmarshal policies object_type action =
    if denied_by policies object_type action
    then access_denied
    else allowed_by unmarshal policies object_type action

-- `CheckAccess`. `unmarshal` reads a JSON object.
unfoldable pub check_access :
    (String → Option Fields)
    → Driver Stmt
    → List AccessPolicyRow
    → String
    → String
    → String
    → AccessDecision
unfolding denied_by allowed_by
check_access unmarshal drv table role object_type action =
    elim (get_access_policies_by_role drv table role) [
      | err m ↦ access_denied
      | ok [] ↦ elim (get_access_policies drv table) [
        | err m ↦ access_denied
        | ok all ↦ decide unmarshal (filter_by_role all role) object_type action
      ]
      | ok (p ∷ ps) ↦ decide unmarshal (p ∷ ps) object_type action
    ]
