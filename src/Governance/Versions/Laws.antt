-- ===== src/Governance/Versions/Laws.antt =====
-- A version that was loaded is the active one (internal/governance/config_version.go).
use baxi.Base.{
  ◌≡◌, refl, ◌∙◌, ap, inl, inr, true, none, some, List, [], ◌∷◌, String, ◌==◌, if◌then◌else◌,
  String-cases, Option-cases, Result-cases, ==_comm, eq_refl, ok, arith,
}
use baxi.Governance.Versions.{
  ConfigVersion, select_active, upsert_version, Env, insert_or_update, find_active, new_version,
  load_config, get_active_config,
}

find_active-insert_or_update :
    (v : ConfigVersion) (k : String) (table : List ConfigVersion)
    → v.active ≡ true
    → find_active k (insert_or_update v table)
      ≡ (if k == v.config_name then some v else find_active k table)
find_active-insert_or_update v k [] on = ground (arith, ==_comm k v.config_name)
find_active-insert_or_update v k (w ∷ ws) on = elim (String-cases w.config_name v.config_name) [
  | inl e ↦ rw e (ground (arith, ==_comm k v.config_name, eq_refl v.config_name))
  | inr e ↦ elim (String-cases w.config_name k) [
    | inl f ↦ ground (
      arith,
      e,
      ap (λ x. x == v.config_name) f,
      ap (λ x. x == k) f,
      eq_refl k,
      find_active-insert_or_update v k ws on,
    )
    | inr f ↦ ground (arith, e, f, find_active-insert_or_update v k ws on)
  ]
]

get_active_config-insert :
    (env : Env) (v : ConfigVersion) (k : String) (table : List ConfigVersion)
    → v.active ≡ true
    → env.driver select_active ≡ none
    → get_active_config env k (insert_or_update v table)
      ≡ (if k == v.config_name then ok v else get_active_config env k table)
unfolding get_active_config
get_active_config-insert env v k table on answers =
    ground (arith, answers, find_active-insert_or_update v k table on)

-- After a load that succeeds, and where the database answers, the active version of the name is the
-- one that was returned except for the time of the load, which is the database's, and that of any
-- other name is what it was.
pub get_active_config-load_config :
    (env : Env) (name path : String) (table : List ConfigVersion) (v : ConfigVersion)
    → (load_config env name path table).0 ≡ ok v
    → env.driver select_active ≡ none
    → (k : String)
    → get_active_config env k (load_config env name path table).1 ≡ (
        if k == name
        then ok (record v { loaded_at = env.sql_now })
        else get_active_config env k table)
unfolding load_config get_active_config
get_active_config-load_config env name path table v loaded answers k =
    elim (Result-cases (env.read_file path)) [
      | inr (m, unread) ↦ absurd (ground arith)
      | inl (content, readable) ↦ elim (Option-cases (env.driver upsert_version)) [
        | inr (m, refused) ↦ absurd (ground arith)
        | inl done ↦
            let is : new_version env name content env.returned_at ≡ v = ground arith in
            let stored : (load_config env name path table).1
                ≡ insert_or_update (new_version env name content env.sql_now) table =
              ground arith in
            rw stored (
              get_active_config-insert env (new_version env name content env.sql_now) k table refl
                answers)
            ∙ ap
                (λ r.
                  if k == name
                  then ok (record r { loaded_at = env.sql_now })
                  else get_active_config env k table)
                is
      ]
    ]
