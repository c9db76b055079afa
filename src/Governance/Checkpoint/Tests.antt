-- ===== src/Governance/Checkpoint/Tests.antt =====
-- Checkpoint rules at concrete rows.
use baxi.Base.{
  ◌≡◌, refl, true, false, Option, none, some, List, [], ◌∷◌, String, ok, ◌==◌, if◌then◌else◌,
}
use baxi.Governance.Checkpoint.{
  CheckpointRule, ConfigSnapshotRow, get_config_snapshots, requires_checkpoint, row_requires,
}

-- A decoder that reads one text.
abbrev decode : String → Option (List CheckpointRule)
decode s =
    if s == "[drop]"
    then some
        (record { action = "drop"; requires_reason = true; requires_human_review = false } ∷ [])
    else none

abbrev rows : List ConfigSnapshotRow
rows =
    record { config_key = "checkpoint_rules"; status = "loaded" }
    ∷ record { config_key = "checkpoint_rules.yml"; status = "[drop]" }
    ∷ []

rules :
    (requires_checkpoint decode (ok rows) "drop" ≡ true)
    × (requires_checkpoint decode (ok rows) "read" ≡ false)
    × (requires_checkpoint decode (get_config_snapshots none ("checkpoint_rules" ∷ [])) "drop"
        ≡ false)
unfolding requires_checkpoint get_config_snapshots row_requires
rules = (refl, refl, refl)
