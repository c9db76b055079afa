-- ===== src/Governance/Versions/Tests.antt =====
-- Loading a concrete configuration.
use baxi.Base.{
  ◌≡◌, refl, ◌==◌, if◌then◌else◌, true, none, List, [], ◌∷◌, String, str_append, pos, ok,
}
use baxi.Governance.Versions.{ConfigVersion, Env, load_config, get_active_config, new_version}
use baxi.Governance.Versions.Laws.{get_active_config-load_config}

abbrev env : Env
env = record {
  driver = λ s. none;
  formatted_at = pos 60;
  sql_now = pos 61;
  returned_at = pos 62;
  read_file = λ path. ok (str_append "content of " path);
  digest = λ content. str_append "sha256 of " content;
  stamp = λ t. "20260102030405";
}

abbrev row : String → ConfigVersion
row name = record {
  config_name = name;
  version = "20250102030405";
  content_hash = "00";
  loaded_at = pos 1;
  active = true;
}

abbrev table : List ConfigVersion
table = row "action_registry" ∷ row "access_policy" ∷ []

abbrev loaded : ConfigVersion
loaded = new_version env "access_policy" "content of access_policy.yml" (pos 62)

get_active_config-load_config_example :
    get_active_config env "access_policy"
      (load_config env "access_policy" "access_policy.yml" table).1
    ≡ (if "access_policy" == "access_policy"
        then ok (record loaded { loaded_at = pos 61 })
        else get_active_config env "access_policy" table)
unfolding load_config
get_active_config-load_config_example =
    get_active_config-load_config env "access_policy" "access_policy.yml" table loaded refl refl
      "access_policy"
