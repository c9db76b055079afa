-- ===== src/Governance/Versions.antt =====
-- The versions of the governance configurations (internal/governance/config_version.go), over the
-- table ops.config_versions. `read_file`, `digest` and `stamp` are the file system, the SHA-256 of a
-- text in hexadecimal, and the format of a time. The clocks are three: `formatted_at` and
-- `returned_at` are the two calls of time.Now(), and `sql_now` is NOW() of the upsert.
pub mod Laws
mod Tests
use baxi.Base.{
  ◌&&◌, Bool, true, false, Option, none, some, List, [], ◌∷◌, String, str_append, ◌==◌,
  if◌then◌else◌, ℤ, Driver, Result, ok, err,
}

-- `ConfigVersion`, which is also the row of the table.
pub record ConfigVersion : Type 0 where
  pub config_name : String
  pub version : String
  pub content_hash : String
  pub loaded_at : ℤ
  pub active : Bool

pub data Stmt : Type 0 where
  upsert_version : Stmt
  select_active : Stmt

pub record Env : Type 0 where
  pub driver : Driver Stmt
  pub formatted_at : ℤ
  pub sql_now : ℤ
  pub returned_at : ℤ
  pub read_file : String → Result String
  pub digest : String → String
  pub stamp : ℤ → String

-- INSERT … ON CONFLICT (config_name) DO UPDATE.
abbrev pub insert_or_update : ConfigVersion → List ConfigVersion → List ConfigVersion
insert_or_update v [] = v ∷ []
insert_or_update v (w ∷ ws) =
    let rest = insert_or_update v ws in if w.config_name == v.config_name then v ∷ ws else w ∷ rest

-- SELECT … WHERE config_name = $1 AND active = true.
abbrev pub find_active : String → List ConfigVersion → Option ConfigVersion
find_active name [] = none
find_active name (w ∷ ws) =
    let rest = find_active name ws in if w.config_name == name && w.active then some w else rest

-- The version of a content, loaded at the time: the row is loaded at `sql_now`, the struct that is
-- returned at `returned_at`.
abbrev pub new_version : Env → String → String → ℤ → ConfigVersion
new_version env name content at = record {
  config_name = name;
  version = env.stamp env.formatted_at;
  content_hash = env.digest content;
  loaded_at = at;
  active = true;
}

-- `LoadConfig`.
unfoldable pub load_config :
    Env → String → String → List ConfigVersion → Result ConfigVersion × List ConfigVersion
load_config env name path table = elim (env.read_file path) [
  | err m ↦ (err (str_append "read config file " (str_append path (str_append ": " m))), table)
  | ok content ↦ elim (env.driver upsert_version) [
    | some m ↦
        (err (str_append "upsert config version for " (str_append name (str_append ": " m))), table)
    | none ↦ (
      ok (new_version env name content env.returned_at),
      insert_or_update (new_version env name content env.sql_now) table,
    )
  ]
]

-- `GetActiveConfig`. No row is an error of the driver too.
unfoldable pub get_active_config : Env → String → List ConfigVersion → Result ConfigVersion
get_active_config env name table = elim (env.driver select_active) [
  | some m ↦ err (str_append "get active config " (str_append name (str_append ": " m)))
  | none ↦ elim (find_active name table) [
    | none ↦ err (str_append "get active config " (str_append name ": no rows in result set"))
    | some v ↦ ok v
  ]
]
