-- ===== src/Action/Registry/Laws.antt =====
-- What the registry allows (internal/action/registry.go).
use baxi.Base.{
  ◌≡◌, refl, ap, ◌∙◌, sym, inl, inr, ◌&&◌, not, Bool, true, false, Option, none, some, List, [],
  ◌∷◌, String, ◌==◌, if◌then◌else◌, elem, lookup, filter, arith, eq_iff, eq_refl, Bool-cases,
  Option-cases, String-cases,
}
use baxi.Action.Registry.{
  ActionConfig, Actions, ActionRegistry, canonical_actions, is_canonical, delete, is_enabled,
  whitelist_loop, new_action_registry, is_allowed, get_action_config, allowed_actions, is_visible,
  get_llm_visible_actions,
}

lookup-filter :
    (k : String) (p : String → Bool) (m : Actions)
    → lookup k (filter (λ e. p e.0) m) ≡ (if p k then lookup k m else none)
lookup-filter k p [] = elim (Bool-cases (p k)) [ inl e ↦ rw e | inr e ↦ rw e ]
lookup-filter k p ((j, c) ∷ m) = elim (String-cases k j) [
  | inl same ↦ ground (arith, lookup-filter k p m, eq_refl j, eq_iff k j, ap p same)
  | inr other ↦ ground (arith, lookup-filter k p m)
]

-- The action is in the file and not disabled there.
abbrev pub enabled_config : Option ActionConfig → Bool
enabled_config none = false
enabled_config (some cfg) = is_enabled cfg

abbrev pub enabled_in : String → Actions → Bool
enabled_in t m = enabled_config (lookup t m)

restrict-enabled :
    (b : Bool) (x y : Option ActionConfig)
    → x ≡ (if b then y else none)
    → (b && enabled_config x) ≡ (b && enabled_config y)
restrict-enabled true x y h = ap enabled_config h
restrict-enabled false x y h = refl

and_left : (a b : Bool) → (a && b) ≡ true → a ≡ true
and_left true b h = refl
and_left false b h = h

and_right : (a b : Bool) → (a && b) ≡ true → b ≡ true
and_right true b h = h
and_right false b h = absurd (cc)

pub lookup-delete :
    (t key : String) (m : Actions)
    → lookup t (delete key m) ≡ (if t == key then none else lookup t m)
lookup-delete t key m = lookup-filter t (λ k. not (k == key)) m ∙ ground arith

loop-elem :
    (t : String) (keys : List String) (m : Actions)
    → elem t (whitelist_loop keys m).0 ≡ (elem t keys && enabled_in t m)
unfolding whitelist_loop
loop-elem t [] m = refl
loop-elem t (key ∷ keys) m = elim (Option-cases (lookup key m)) [
  | inl absent ↦
      rw (absent, whitelist_loop)
        (elim (String-cases t key) [
          | inl same ↦ ground (arith, loop-elem t keys m, eq_iff t key, ap (λ k. lookup k m) same)
          | inr other ↦ ground (arith, loop-elem t keys m)
        ])
  | inr (cfg, there) ↦ elim (Bool-cases (is_enabled cfg)) [
    | inl on ↦
        rw (there, whitelist_loop)
          (rw (on, whitelist_loop)
            (elim (String-cases t key) [
              | inl same ↦
                  ground (arith, loop-elem t keys m, eq_iff t key, ap (λ k. lookup k m) same)
              | inr other ↦ ground (arith, loop-elem t keys m)
            ]))
    | inr off ↦
        rw (there, whitelist_loop)
          (rw (off, whitelist_loop)
            (elim (String-cases t key) [
              | inl same ↦ ground (
                arith,
                loop-elem t keys (delete key m),
                lookup-delete t key m,
                eq_iff t key,
                ap (λ k. lookup k m) same,
              )
              | inr other ↦ ground (arith, loop-elem t keys (delete key m), lookup-delete t key m)
            ]))
  ]
]

loop-lookup :
    (t : String) (keys : List String) (m : Actions)
    → enabled_in t m ≡ true
    → lookup t (whitelist_loop keys m).1 ≡ lookup t m
unfolding whitelist_loop
loop-lookup t [] m h = refl
loop-lookup t (key ∷ keys) m h = elim (Option-cases (lookup key m)) [
  | inl absent ↦ rw (absent, whitelist_loop) (loop-lookup t keys m h)
  | inr (cfg, there) ↦ elim (Bool-cases (is_enabled cfg)) [
    | inl on ↦ rw (there, whitelist_loop) (rw (on, whitelist_loop) (loop-lookup t keys m h))
    | inr off ↦
        rw (there, whitelist_loop)
          (rw (off, whitelist_loop)
            (elim (String-cases t key) [
              | inl same ↦ absurd (ground (arith, ap (λ k. lookup k m) same))
              | inr other ↦
                  loop-lookup t keys (delete key m) (ground (arith, lookup-delete t key m))
                  ∙ (lookup-delete t key m ∙ rw other refl)
            ]))
  ]
]

-- What the registry is meant to allow: the canonical actions if there is no file, else those of
-- them that the file lists and does not disable.
abbrev pub allows : Option Actions → String → Bool
allows none t = elem t canonical_actions
allows (some m) t = elem t canonical_actions && enabled_in t m

pub canonical-lookup :
    (t : String) (m : Actions)
    → lookup t (filter (λ e. is_canonical e.0) m)
      ≡ (if elem t canonical_actions then lookup t m else none)
unfolding is_canonical
canonical-lookup t m = lookup-filter t (λ k. elem k canonical_actions) m

-- `IsAllowed` after a load is exactly that, for every action type and every file.
pub is_allowed-eq-allows :
    (file : Option Actions) (t : String) → is_allowed (new_action_registry file) t ≡ allows file t
unfolding is_allowed new_action_registry
is_allowed-eq-allows none t = refl
is_allowed-eq-allows (some m) t =
    loop-elem t canonical_actions (filter (λ e. is_canonical e.0) m)
    ∙ restrict-enabled (elem t canonical_actions) _ _ (canonical-lookup t m)

-- The configuration that `GetActionConfig` returns is the file's own entry, for an action that is
-- allowed, and there is none for any other.
pub get_action_config-eq :
    (m : Actions) (t : String)
    → get_action_config (new_action_registry (some m)) t
      ≡ (if allows (some m) t then lookup t m else none)
unfolding get_action_config new_action_registry
get_action_config-eq m t = elim (Bool-cases (allows (some m) t)) [
  | inr off ↦
      let out : elem t (whitelist_loop canonical_actions kept).0 ≡ false = allowed ∙ off in
      rw out (rw off refl)
  | inl on ↦
      let listed : elem t (whitelist_loop canonical_actions kept).0 ≡ true = allowed ∙ on in
      rw listed (
        rw on (
          loop-lookup t canonical_actions kept
            (and_right (elem t canonical_actions) (enabled_in t kept) (restricted ∙ on))
          ∙ (canonical-lookup t m
              ∙ rw (and_left (elem t canonical_actions) (enabled_in t m) on) refl)))
]
  where
    kept : Actions
    kept = filter (λ e. is_canonical e.0) m

    restricted : (elem t canonical_actions && enabled_in t kept) ≡ allows (some m) t
    restricted = restrict-enabled (elem t canonical_actions) _ _ (canonical-lookup t m)

    allowed : elem t (whitelist_loop canonical_actions kept).0 ≡ allows (some m) t
    allowed = loop-elem t canonical_actions kept ∙ restricted

elem-filter :
    (t : String) (p : String → Bool) (ts : List String) → elem t (filter p ts) ≡ (elem t ts && p t)
elem-filter t p [] = refl
elem-filter t p (u ∷ us) = elim (String-cases t u) [
  | inl same ↦ ground (arith, elem-filter t p us, eq_iff t u, ap p same)
  | inr other ↦ ground (arith, elem-filter t p us)
]

visible-listed :
    (r : ActionRegistry) (t : String)
    → elem t (get_llm_visible_actions r) ≡ true
    → (elem t canonical_actions ≡ true) × (elem t r.whitelist ≡ true)
unfolding get_llm_visible_actions
visible-listed r t h =
    let both = sym (elem-filter t (is_visible r) canonical_actions) ∙ h in
    let shown : is_visible r t ≡ true =
      and_right (elem t canonical_actions) (is_visible r t) both in
    (
      and_left (elem t canonical_actions) (is_visible r t) both,
      elim (Option-cases (lookup t r.actions)) [
        | inl absent ↦ ground arith
        | inr (cfg, there) ↦ ground arith
      ],
    )

whitelist-allows :
    (file : Option Actions) (t : String)
    → elem t (new_action_registry file).whitelist ≡ allows file t
unfolding is_allowed
whitelist-allows file t = is_allowed-eq-allows file t

-- What the LLM is shown is allowed, and `AllowedActions` lists the actions that are allowed.
pub llm_visible-allowed :
    (file : Option Actions) (t : String)
    → elem t (get_llm_visible_actions (new_action_registry file)) ≡ true
    → (elem t (allowed_actions (new_action_registry file)) ≡ true) × (allows file t ≡ true)
unfolding allowed_actions
llm_visible-allowed file t h =
    let r : ActionRegistry = new_action_registry file in
    let (canonical, listed) = visible-listed r t h in
    (
      elem-filter t (λ a. elem a r.whitelist) canonical_actions ∙ rw (canonical, listed) refl,
      sym (whitelist-allows file t) ∙ listed,
    )
