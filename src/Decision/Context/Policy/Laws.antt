-- ===== src/Decision/Context/Policy/Laws.antt =====
-- The policy of a context against the registry (`buildPolicyResult` of
-- internal/decision/context_builder_v2.go).
use baxi.Base.{
  ◌≡◌, refl, ap, ◌∙◌, inl, inr, ◌&&◌, ◌||◌, Bool, true, false, Option, none, some, List, [], ◌∷◌,
  ◌++◌, map, String, ◌==◌, elem, arith, eq_iff, eq_refl, Bool-cases,
}
use baxi.Action.Registry.{Actions, ActionRegistry, new_action_registry, is_allowed}
use baxi.Action.Registry.Listed.{listed-eq-is_allowed}
use baxi.Decision.Context.{is_any}
use baxi.Decision.Context.Policy.{
  PolicyResult, insert_text, sort_texts, list_action_types, get_action_policy, no_result,
  add_action, add_actions, build_policy_result, before,
}

elem-insert_text :
    (k s : String) (ts : List String) → elem k (insert_text s ts) ≡ (k == s || elem k ts)
elem-insert_text k s [] = refl
elem-insert_text k s (t ∷ ts) = elim (Bool-cases (before s t)) [
  | inl e ↦ rw e refl
  | inr e ↦ ground (arith, elem-insert_text k s ts)
]

elem-sort_texts : (k : String) (ss : List String) → elem k (sort_texts ss) ≡ elem k ss
elem-sort_texts k [] = refl
elem-sort_texts k (s ∷ ss) =
    elem-insert_text k s (sort_texts ss) ∙ ap (λ b. k == s || b) (elem-sort_texts k ss)

elem-snoc : (k a : String) (ss : List String) → elem k (ss ++ a ∷ []) ≡ (elem k ss || k == a)
elem-snoc k a [] = ground arith
elem-snoc k a (s ∷ ss) = ground (arith, elem-snoc k a ss)

is_any-snoc : (a : String) (ss : List String) → is_any (ss ++ a ∷ []) ≡ true
is_any-snoc a [] = refl
is_any-snoc a (s ∷ ss) = refl

-- The registry has a policy for the action that asks for an approval.
abbrev pub requires : ActionRegistry → String → Bool
requires reg k = elim (get_action_policy reg k) [ none ↦ false | some p ↦ p.requires_approval ]

module _ (reg : ActionRegistry) where
  step-allowed :
      (k a : String) (r : PolicyResult)
      → elem k (add_action reg a r).allowed_actions
        ≡ (elem k r.allowed_actions || (k == a && is_allowed reg k))
  step-allowed k a r = ground (arith, elem-snoc k a r.allowed_actions, eq_iff k a)

  step-requires :
      (k a : String) (r : PolicyResult)
      → elem k (add_action reg a r).requires_approval_actions
        ≡ (elem k r.requires_approval_actions || (k == a && is_allowed reg k && requires reg k))
  step-requires k a r = ground (arith, elem-snoc k a r.requires_approval_actions, eq_iff k a)

  step-approval :
      (a : String) (r : PolicyResult)
      → r.human_approval_required ≡ is_any r.requires_approval_actions
      → (add_action reg a r).human_approval_required
        ≡ is_any (add_action reg a r).requires_approval_actions
  step-approval a r h = ground (arith, is_any-snoc a r.requires_approval_actions)

  step-blocked :
      (a : String) (r : PolicyResult)
      → is_allowed reg a ≡ true
      → (add_action reg a r).blocked_actions ≡ r.blocked_actions
  step-blocked a r on = ground arith

  record Reports (listed : List String) (before after : PolicyResult) : Type 0 where
    allowed :
        (k : String)
        → elem k after.allowed_actions
          ≡ (elem k before.allowed_actions || (elem k listed && is_allowed reg k))
    approvals :
        (k : String)
        → elem k after.requires_approval_actions ≡ (
            elem k before.requires_approval_actions
            || (elem k listed && is_allowed reg k && requires reg k))
    blocked : after.blocked_actions ≡ before.blocked_actions
    approval :
        before.human_approval_required ≡ is_any before.requires_approval_actions
        → after.human_approval_required ≡ is_any after.requires_approval_actions

  add_actions-Reports :
      (listed : List String) (r : PolicyResult)
      → ((k : String) → elem k listed ≡ true → is_allowed reg k ≡ true)
      → Reports listed r (add_actions reg listed r)
  unfolding add_actions
  add_actions-Reports [] r all = record {
    allowed = λ k. ground arith;
    approvals = λ k. ground arith;
    blocked = refl;
    approval = λ h. h;
  }
  add_actions-Reports (a ∷ listed) r all =
      let rest = add_actions-Reports listed (add_action reg a r) (λ k h. all k (ground arith)) in
      record {
        allowed = λ k. ground (arith, rest.allowed k, step-allowed k a r);
        approvals = λ k. ground (arith, rest.approvals k, step-requires k a r);
        blocked = rest.blocked ∙ step-blocked a r (all a (ground (arith, eq_refl a)));
        approval = λ h. rest.approval (step-approval a r h);
      }

-- With a registry that was loaded, the policy allows exactly what the registry allows, and blocks
-- nothing. The actions for approval are those of them whose configuration asks for one, and a human
-- approval is required if there is any. The types that the context lists are the allowed ones too.
pub build_policy_result-Loaded :
    (file : Option Actions)
    → let reg = new_action_registry file in
      let policy = build_policy_result reg in
      ((k : String) → elem k policy.allowed_actions ≡ is_allowed reg k)
      × ((k : String)
          → elem k policy.requires_approval_actions ≡ (is_allowed reg k && requires reg k))
      × (policy.blocked_actions ≡ [])
      × (policy.human_approval_required ≡ is_any policy.requires_approval_actions)
      × ((k : String) → elem k (list_action_types reg) ≡ is_allowed reg k)
unfolding build_policy_result list_action_types
build_policy_result-Loaded file =
    let reg = new_action_registry file in
    let listed : (k : String) → elem k (list_action_types reg) ≡ is_allowed reg k =
      λ k. elem-sort_texts k (map (λ e. e.0) reg.actions) ∙ listed-eq-is_allowed file k in
    let reports =
      add_actions-Reports reg (list_action_types reg) no_result (λ k h. ground (arith, listed k)) in
    (
      λ k. ground (arith, reports.allowed k, listed k),
      λ k. ground (arith, reports.approvals k, listed k),
      reports.blocked,
      reports.approval refl,
      listed,
    )
