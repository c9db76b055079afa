-- ===== src/Governance/Lineage/Laws.antt =====
-- The lineage of tables against the edges of the table (internal/governance/lineage.go).
use baxi.Base.{
  ◌≡◌, refl, inl, inr, ◌∙◌, ap, ◌&&◌, ◌||◌, not, Bool, true, false, none, List, [], ◌∷◌, map,
  String, ◌==◌, Bool-cases, String-cases, ==_comm, eq_refl, elem, filter, ok, arith,
}
use baxi.Governance.Lineage.{
  DataLineageRow, LineageResult, select_by_source, select_by_target, Env, source, target,
  insert_row, order_by, names_once, get_lineage, get_upstream, get_downstream,
  get_lineage_by_source, get_lineage_by_target,
}

-- Whether a row leads from one table to another.
abbrev pub is_edge : String → String → List DataLineageRow → Bool
is_edge s t [] = false
is_edge s t (r ∷ rs) = (s == r.source_table && t == r.target_table) || is_edge s t rs

abbrev pub is_distinct : List String → Bool
is_distinct [] = true
is_distinct (k ∷ ks) = not (elem k ks) && is_distinct ks

elem-insert_row :
    (env : Env) (column : DataLineageRow → String) (k : String) (r : DataLineageRow)
    → (rs : List DataLineageRow)
    → elem k (map column (insert_row env column r rs)) ≡ k == column r || elem k (map column rs)
elem-insert_row env column k r [] = refl
elem-insert_row env column k r (q ∷ qs) =
    elim (Bool-cases (env.comes_before (column q) (column r))) [
      | inr e ↦ rw e refl
      | inl e ↦ ground (arith, elem-insert_row env column k r qs)
    ]

elem-order_by :
    (env : Env) (column : DataLineageRow → String) (k : String) (rs : List DataLineageRow)
    → elem k (map column (order_by env column rs)) ≡ elem k (map column rs)
elem-order_by env column k [] = refl
elem-order_by env column k (r ∷ rs) =
    elem-insert_row env column k r (order_by env column rs)
    ∙ ap (λ b. k == column r || b) (elem-order_by env column k rs)

elem-sources :
    (s t : String) (rs : List DataLineageRow)
    → elem s (map source (filter (λ r. target r == t) rs)) ≡ is_edge s t rs
elem-sources s t [] = refl
elem-sources s t (r ∷ rs) = ground (arith, ==_comm t (target r), elem-sources s t rs)

elem-targets :
    (s t : String) (rs : List DataLineageRow)
    → elem t (map target (filter (λ r. source r == s) rs)) ≡ is_edge s t rs
elem-targets s t [] = refl
elem-targets s t (r ∷ rs) = ground (arith, ==_comm s (source r), elem-targets s t rs)

elem-names_once :
    (column : DataLineageRow → String) (k : String) (seen : List String) (rs : List DataLineageRow)
    → elem k (names_once column seen rs) ≡ not (elem k seen) && elem k (map column rs)
elem-names_once column k seen [] = ground arith
elem-names_once column k seen (r ∷ rs) = elim (String-cases k (column r)) [
  | inl e ↦ ground (
    arith,
    eq_refl (column r),
    ap (λ x. x == column r) e,
    ap (λ x. elem x seen) e,
    elem-names_once column k seen rs,
  )
  | inr e ↦
      ground
        (arith, e, elem-names_once column k seen rs, elem-names_once column k (column r ∷ seen) rs)
]

names_once_distinct :
    (column : DataLineageRow → String) (seen : List String) (rs : List DataLineageRow)
    → is_distinct (names_once column seen rs) ≡ true
names_once_distinct column seen [] = refl
names_once_distinct column seen (r ∷ rs) = ground (
  arith,
  eq_refl (column r),
  elem-names_once column (column r) (column r ∷ seen) rs,
  names_once_distinct column seen rs,
  names_once_distinct column (column r ∷ seen) rs,
)

-- What the rows of a table say of the lineage of a name.
abbrev pub Edges : String → List DataLineageRow → LineageResult → Type 0
Edges name table r =
    (r.resource ≡ name)
    × ((k : String) → elem k r.upstream ≡ is_edge k name table)
    × ((k : String) → elem k r.downstream ≡ is_edge name k table)
    × (is_distinct r.upstream ≡ true)
    × (is_distinct r.downstream ≡ true)

-- Where the queries answer, `GetLineage` returns the resource with exactly the tables that have a row
-- into it as upstream and those that it has a row into as downstream, each of them once.
pub get_lineage-Edges :
    (env : Env) (name : String) (table : List DataLineageRow)
    → env.driver select_by_target ≡ none
    → env.driver select_by_source ≡ none
    → (r : LineageResult) × (get_lineage env name table ≡ ok r) × Edges name table r
unfolding get_lineage get_upstream get_downstream get_lineage_by_source get_lineage_by_target
get_lineage-Edges env name table into from = (
  record {
    resource = name;
    upstream = names_once source [] (order_by env source (filter (λ r. target r == name) table));
    downstream = names_once target [] (order_by env target (filter (λ r. source r == name) table));
  },
  rw into (rw from refl),
  (
    refl,
    (λ k. elem-names_once source k [] _ ∙ elem-order_by env source k _ ∙ elem-sources k name table),
    (λ k. elem-names_once target k [] _ ∙ elem-order_by env target k _ ∙ elem-targets name k table),
    names_once_distinct source [] (order_by env source (filter (λ r. target r == name) table)),
    names_once_distinct target [] (order_by env target (filter (λ r. source r == name) table)),
  ),
)
