-- ===== src/Governance/Lineage.antt =====
-- The lineage of tables (internal/governance/lineage.go), over the table gov.data_lineage as
-- internal/repository/governance/repository.go reads it. The order of texts is the collation of the
-- database.
pub mod Laws
mod Tests
use baxi.Base.{
  Bool, true, false, Number, List, [], ◌∷◌, String, str_append, ◌==◌, if◌then◌else◌, elem, filter,
  Driver, Result, ok, err, check, ◌>>◌, ◌>>=◌,
}

-- `DataLineageRow`.
pub record DataLineageRow : Type 0 where
  pub source_table : String
  pub source_column : String
  pub target_table : String
  pub target_column : String
  pub transformation_logic : String
  pub confidence : Number

-- `LineageResult`.
pub record LineageResult : Type 0 where
  pub resource : String
  pub upstream : List String
  pub downstream : List String

pub data Stmt : Type 0 where
  select_by_source : Stmt
  select_by_target : Stmt
  select_lineage : Stmt

pub record Env : Type 0 where
  pub driver : Driver Stmt
  pub comes_before : String → String → Bool

abbrev pub source : DataLineageRow → String
source r = r.source_table

abbrev pub target : DataLineageRow → String
target r = r.target_table

-- ORDER BY a column.
abbrev pub insert_row :
    Env → (DataLineageRow → String) → DataLineageRow → List DataLineageRow → List DataLineageRow
insert_row env column r [] = r ∷ []
insert_row env column r (q ∷ qs) =
    let rest = insert_row env column r qs in
    if env.comes_before (column q) (column r) then q ∷ rest else r ∷ q ∷ qs

abbrev pub order_by : Env → (DataLineageRow → String) → List DataLineageRow → List DataLineageRow
order_by env column [] = []
order_by env column (r ∷ rs) = insert_row env column r (order_by env column rs)

-- `GetLineageBySource`.
unfoldable pub get_lineage_by_source :
    Env → String → List DataLineageRow → Result (List DataLineageRow)
get_lineage_by_source env name table =
    check (env.driver select_by_source) (λ m. str_append "query data_lineage by source: " m)
    >> ok (order_by env target (filter (λ r. source r == name) table))

-- `GetLineageByTarget`.
unfoldable pub get_lineage_by_target :
    Env → String → List DataLineageRow → Result (List DataLineageRow)
get_lineage_by_target env name table =
    check (env.driver select_by_target) (λ m. str_append "query data_lineage by target: " m)
    >> ok (order_by env source (filter (λ r. target r == name) table))

-- `GetDataLineage`, which `GetAll` passes on: ordered by the source, then by the target.
unfoldable pub get_data_lineage : Env → List DataLineageRow → Result (List DataLineageRow)
get_data_lineage env table =
    check (env.driver select_lineage) (λ m. str_append "query gov.data_lineage: " m)
    >> ok (order_by env source (order_by env target table))

-- The loops that keep the first of equal names.
abbrev pub names_once : (DataLineageRow → String) → List String → List DataLineageRow → List String
names_once column seen [] = []
names_once column seen (r ∷ rs) =
    let fresh = names_once column (column r ∷ seen) rs in
    let rest = names_once column seen rs in if elem (column r) seen then rest else column r ∷ fresh

abbrev pub wrapped {ℓ} : {A : Type ℓ} → String → String → Result A → Result A
wrapped what name (ok a) = ok a
wrapped what name (err m) = err (str_append what (str_append name (str_append ": " m)))

-- `GetUpstream`.
unfoldable pub get_upstream : Env → String → List DataLineageRow → Result (List String)
unfolding get_lineage_by_target
get_upstream env name table =
    wrapped "get upstream for " name (get_lineage_by_target env name table) >>= λ rows.
    ok (names_once source [] rows)

-- `GetDownstream`.
unfoldable pub get_downstream : Env → String → List DataLineageRow → Result (List String)
unfolding get_lineage_by_source
get_downstream env name table =
    wrapped "get downstream for " name (get_lineage_by_source env name table) >>= λ rows.
    ok (names_once target [] rows)

-- `GetLineage`.
unfoldable pub get_lineage : Env → String → List DataLineageRow → Result LineageResult
unfolding get_upstream get_downstream
get_lineage env name table = get_upstream env name table >>= λ upstream.
    get_downstream env name table >>= λ downstream.
    ok (record { resource = name; upstream = upstream; downstream = downstream })
