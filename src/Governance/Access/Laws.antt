-- ===== src/Governance/Access/Laws.antt =====
-- What an access check grants (internal/governance/access_policy.go).
use baxi.Base.{
  ◌≡◌, refl, ◌⊎◌, inl, inr, ◌&&◌, ◌||◌, not, Bool, true, false, Option, none, List, [], ◌∷◌, String,
  ◌==◌, Driver, arith, Bool-cases, Option-cases,
}
use baxi.Json.{Fields, end, field}
use baxi.Governance.Access.{
  AccessPolicyRow, AccessDecision, access_denied, Stmt, select_by_role, select_all, filter_by_role,
  matches_resource, matches_action, denied_by, allowed_by, decide, decision_of, check_access,
}

abbrev pub any : (AccessPolicyRow → Bool) → List AccessPolicyRow → Bool
any f [] = false
any f (p ∷ ps) = f p || any f ps

-- A policy for the role that has the effect on the action.
abbrev pub applies : String → String → String → String → AccessPolicyRow → Bool
applies effect role object_type action p =
    p.principal_pattern == role
    && (p.effect == effect && (matches_resource p object_type && matches_action p action))

-- Allowed, with or without conditions.
abbrev pub is_granted : AccessDecision → Bool
is_granted access_denied = false
is_granted _ = true

decision_granted :
    (unmarshal : String → Option Fields) (p : AccessPolicyRow)
    → is_granted (decision_of unmarshal p) ≡ true
decision_granted unmarshal p = elim (Option-cases p.conditions_jsonb) [
  | inl without ↦ ground arith
  | inr (text, there) ↦ elim (Option-cases (unmarshal text)) [
    | inl unread ↦ ground arith
    | inr (end, read) ↦ ground arith
    | inr (field k v m, read) ↦ ground arith
  ]
]

denied_by-eq :
    (role object_type action : String) (table : List AccessPolicyRow)
    → denied_by (filter_by_role table role) object_type action
      ≡ any (applies "deny" role object_type action) table
unfolding denied_by
denied_by-eq role object_type action [] = refl
denied_by-eq role object_type action (p ∷ ps) =
    ground (arith, denied_by-eq role object_type action ps)

allowed_by-eq :
    (unmarshal : String → Option Fields) (role object_type action : String)
    (table : List AccessPolicyRow)
    → is_granted (allowed_by unmarshal (filter_by_role table role) object_type action)
      ≡ any (applies "allow" role object_type action) table
unfolding allowed_by
allowed_by-eq unmarshal role object_type action [] = refl
allowed_by-eq unmarshal role object_type action (p ∷ ps) =
    let rest = allowed_by-eq unmarshal role object_type action ps in
    let granted = decision_granted unmarshal p in ground arith

decide-granted :
    (unmarshal : String → Option Fields) (role object_type action : String)
    (table : List AccessPolicyRow)
    → is_granted (decide unmarshal (filter_by_role table role) object_type action) ≡ (
        any (applies "allow" role object_type action) table
        && not (any (applies "deny" role object_type action) table))
decide-granted unmarshal role object_type action table =
    let denies = denied_by-eq role object_type action table in
    let allows = allowed_by-eq unmarshal role object_type action table in
    elim (Bool-cases (any (applies "deny" role object_type action) table)) [
      | inl denied ↦ ground arith
      | inr free ↦ ground arith
    ]

-- A list that is empty or not, with its equation.
list_cases :
    (xs : List AccessPolicyRow)
    → (xs ≡ []) ⊎ ((x : AccessPolicyRow) × (ys : List AccessPolicyRow) × (xs ≡ x ∷ ys))
list_cases [] = inl refl
list_cases (x ∷ xs) = inr (x, xs, refl)

-- Where both queries are carried out, access is granted exactly if some policy of the table allows
-- the action to the role and none denies it, whatever the order of the policies.
pub check_access-granted :
    (unmarshal : String → Option Fields) (drv : Driver Stmt) (table : List AccessPolicyRow)
    (role object_type action : String)
    → drv select_by_role ≡ none
    → drv select_all ≡ none
    → is_granted (check_access unmarshal drv table role object_type action) ≡ (
        any (applies "allow" role object_type action) table
        && not (any (applies "deny" role object_type action) table))
unfolding check_access
check_access-granted unmarshal drv table role object_type action by_role all =
    let granted = decide-granted unmarshal role object_type action table in
    elim (list_cases (filter_by_role table role)) [
      | inl nothing ↦ ground arith
      | inr (p, ps, something) ↦ ground arith
    ]

-- Whatever the queries do, a policy that denies the action to the role prevails.
pub check_access-denied :
    (unmarshal : String → Option Fields) (drv : Driver Stmt) (table : List AccessPolicyRow)
    (role object_type action : String)
    → any (applies "deny" role object_type action) table ≡ true
    → check_access unmarshal drv table role object_type action ≡ access_denied
unfolding check_access
check_access-denied unmarshal drv table role object_type action denied =
    let denies = denied_by-eq role object_type action table in
    elim (Option-cases (drv select_by_role)) [
      | inr (m, refused) ↦ ground arith
      | inl by_role ↦ elim (list_cases (filter_by_role table role)) [
        | inr (p, ps, something) ↦ ground arith
        | inl nothing ↦ elim (Option-cases (drv select_all)) [
          | inr (m, refused) ↦ ground arith
          | inl all ↦ ground arith
        ]
      ]
    ]
