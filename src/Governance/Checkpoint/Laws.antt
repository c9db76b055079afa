-- ===== src/Governance/Checkpoint/Laws.antt =====
-- Which actions need a checkpoint (internal/governance/checkpoint.go).
use baxi.Base.{
  ◌≡◌, refl, inl, inr, ◌∙◌, ap, ◌&&◌, ◌||◌, not, Bool, false, Option, none, some, List, [], ◌∷◌,
  ◌++◌, String, elem, filter, ok, arith, eq_iff, ==_comm, Bool-cases, String-cases, map,
}
use baxi.Governance.Checkpoint.{
  CheckpointRule, ConfigSnapshotRow, get_config_snapshots, sensitive_actions, rules_of, has_action,
  row_requires, requires_checkpoint, built_in, collect_rules, get_rules,
}

has_action-append :
    (a : String) (xs ys : List CheckpointRule)
    → has_action a (xs ++ ys) ≡ (has_action a xs || has_action a ys)
has_action-append a [] ys = refl
has_action-append a (x ∷ xs) ys = ground (arith, has_action-append a xs ys)

has_action-collect :
    (unmarshal : String → Option (List CheckpointRule)) (a : String) (rows : List ConfigSnapshotRow)
    → has_action a (collect_rules unmarshal rows) ≡ row_requires unmarshal a rows
unfolding collect_rules row_requires
has_action-collect unmarshal a [] = refl
has_action-collect unmarshal a (row ∷ rows) =
    has_action-append a (rules_of unmarshal row) (collect_rules unmarshal rows)
    ∙ rw (has_action-collect unmarshal a rows) refl

has_action-filter :
    (a : String) (p : String → Bool) (rs : List CheckpointRule)
    → has_action a (filter (λ r. p r.action) rs) ≡ (p a && has_action a rs)
has_action-filter a p [] = elim (Bool-cases (p a)) [ inl e ↦ rw e refl | inr e ↦ rw e refl ]
has_action-filter a p (r ∷ rs) = elim (String-cases r.action a) [
  | inl same ↦ ground (arith, has_action-filter a p rs, ap p same, eq_iff r.action a)
  | inr other ↦ ground (arith, has_action-filter a p rs)
]

built_in-sensitive : (a : String) → has_action a built_in ≡ elem a sensitive_actions
built_in-sensitive a =
    rw
      (
        ==_comm a "execute_dispatch",
        ==_comm a "modify_business_policy",
        ==_comm a "trigger_pipeline",
      )
      refl

-- Where the snapshots can be read, `RequiresCheckpoint` asks for a checkpoint exactly of the actions
-- that `GetRules` has a rule for.
pub get_rules-requires :
    (unmarshal : String → Option (List CheckpointRule)) (rows : List ConfigSnapshotRow) (a : String)
    → has_action a (get_rules unmarshal (ok rows)) ≡ requires_checkpoint unmarshal (ok rows) a
unfolding get_rules requires_checkpoint
get_rules-requires unmarshal rows a =
    let rules = collect_rules unmarshal rows in
    has_action-append a rules (filter (λ r. not (has_action r.action rules)) built_in)
    ∙ ground (
      arith,
      has_action-filter a (λ k. not (has_action k rules)) built_in,
      has_action-collect unmarshal a rows,
      built_in-sensitive a,
    )

loaded_rows :
    (unmarshal : String → Option (List CheckpointRule)) (keys : List String) (a : String)
    → unmarshal "loaded" ≡ none
    → row_requires unmarshal a (map (λ k. record { config_key = k; status = "loaded" }) keys)
      ≡ false
unfolding row_requires
loaded_rows unmarshal [] a undecodable = refl
loaded_rows unmarshal (k ∷ keys) a undecodable =
    ground (arith, loaded_rows unmarshal keys a undecodable)

-- With the rows that the repository returns, whose status is the word `loaded` and so no JSON text,
-- no configured rule counts: only the three built-in actions need a checkpoint.
pub requires_checkpoint-built_in :
    (unmarshal : String → Option (List CheckpointRule)) (refusal : Option String)
    (keys : List String) (a : String)
    → unmarshal "loaded" ≡ none
    → requires_checkpoint unmarshal (get_config_snapshots refusal keys) a ≡ elem a sensitive_actions
unfolding requires_checkpoint get_config_snapshots
requires_checkpoint-built_in unmarshal (some m) keys a undecodable = ground arith
requires_checkpoint-built_in unmarshal none keys a undecodable =
    ground (arith, loaded_rows unmarshal keys a undecodable)
