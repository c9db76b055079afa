-- ===== src/Action/Registry/Listed.antt =====
-- The actions that a loaded registry keeps in its map (internal/action/registry.go).
use baxi.Base.{
  ◌≡◌, refl, ap, ◌∙◌, sym, inl, inr, ◌&&◌, ◌||◌, not, Option, none, some, List, [], ◌∷◌, map,
  String, elem, lookup, is_some, filter, arith, eq_iff, Bool-cases, Option-cases, String-cases,
}
use baxi.Action.Registry.{
  ActionConfig, Actions, canonical_actions, is_canonical, is_enabled, delete, whitelist_loop,
  new_action_registry, is_allowed,
}
use baxi.Action.Registry.Laws.{
  enabled_in, enabled_config, lookup-delete, canonical-lookup, is_allowed-eq-allows, allows,
}

abbrev keys_of : Actions → List String
keys_of m = map (λ e. e.0) m

elem-keys : (t : String) (m : Actions) → elem t (keys_of m) ≡ is_some (lookup t m)
elem-keys t [] = refl
elem-keys t ((k, c) ∷ m) = ground (arith, elem-keys t m)

loop-kept :
    (t : String) (keys : List String) (m : Actions)
    → is_some (lookup t (whitelist_loop keys m).1)
      ≡ (is_some (lookup t m) && (not (elem t keys) || enabled_in t m))
unfolding whitelist_loop
loop-kept t [] m = ground arith
loop-kept t (key ∷ keys) m = elim (Option-cases (lookup key m)) [
  | inl absent ↦
      rw (absent, whitelist_loop)
        (elim (String-cases t key) [
          | inl same ↦ ground (arith, loop-kept t keys m, ap (λ k. lookup k m) same)
          | inr other ↦ ground (arith, loop-kept t keys m)
        ])
  | inr (cfg, there) ↦ elim (Bool-cases (is_enabled cfg)) [
    | inl on ↦
        rw (there, whitelist_loop)
          (rw (on, whitelist_loop)
            (elim (String-cases t key) [
              | inl same ↦ ground (arith, loop-kept t keys m, ap (λ k. lookup k m) same)
              | inr other ↦ ground (arith, loop-kept t keys m)
            ]))
    | inr off ↦
        rw (there, whitelist_loop)
          (rw (off, whitelist_loop)
            (elim (String-cases t key) [
              | inl same ↦ ground (
                arith,
                loop-kept t keys (delete key m),
                lookup-delete t key m,
                eq_iff t key,
                ap (λ k. lookup k m) same,
              )
              | inr other ↦ ground (arith, loop-kept t keys (delete key m), lookup-delete t key m)
            ]))
  ]
]

enabled-there : (o : Option ActionConfig) → (is_some o && enabled_config o) ≡ enabled_config o
enabled-there none = refl
enabled-there (some c) = refl

kept-eq-allows :
    (t : String) (m : Actions)
    → is_some (lookup t (whitelist_loop canonical_actions (filter (λ e. is_canonical e.0) m)).1)
      ≡ allows (some m) t
unfolding is_canonical
kept-eq-allows t m =
    loop-kept t canonical_actions (filter (λ e. is_canonical e.0) m)
    ∙ ground (arith, canonical-lookup t m, enabled-there (lookup t m))

-- The keys of the map of a registry that was loaded are the actions that it allows.
pub listed-eq-is_allowed :
    (file : Option Actions) (t : String)
    → elem t (map (λ e. e.0) (new_action_registry file).actions)
      ≡ is_allowed (new_action_registry file) t
unfolding new_action_registry
listed-eq-is_allowed none t = sym (is_allowed-eq-allows none t)
listed-eq-is_allowed (some m) t =
    elem-keys t (new_action_registry (some m)).actions
    ∙ (kept-eq-allows t m ∙ sym (is_allowed-eq-allows (some m) t))
