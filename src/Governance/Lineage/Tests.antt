-- ===== src/Governance/Lineage/Tests.antt =====
-- The lineage of a concrete table.
use baxi.Base.{◌≡◌, refl, none, List, [], ◌∷◌, String, ok, pos, true, false}
use Prim.Native.String.{compare}
use Prim.Native.Nat.{Ordering}
use baxi.Governance.Lineage.{
  DataLineageRow, LineageResult, Env, get_lineage, get_upstream, get_downstream,
  get_lineage_by_source, get_lineage_by_target,
}
use baxi.Governance.Lineage.Laws.{Edges, get_lineage-Edges}

abbrev edge : String → String → String → DataLineageRow
edge s c t = record {
  source_table = s;
  source_column = c;
  target_table = t;
  target_column = c;
  transformation_logic = "";
  confidence = record { mantissa = pos 1; places = 0 };
}

abbrev table : List DataLineageRow
table =
    edge "dwd.orders" "id" "mart.sales"
    ∷ edge "dwd.orders" "price" "mart.sales"
    ∷ edge "ods.items" "id" "mart.sales"
    ∷ edge "mart.sales" "id" "ai.alerts"
    ∷ []

abbrev env : Env
env = record {
  driver = λ s. none;
  comes_before = λ s t. elim (compare s t) [ Ordering.lt ↦ true | _ ↦ false ];
}

get_lineage-Edges_test :
    get_lineage env "mart.sales" table
    ≡ ok (record {
      resource = "mart.sales";
      upstream = "dwd.orders" ∷ "ods.items" ∷ [];
      downstream = "ai.alerts" ∷ [];
    })
unfolding get_lineage get_upstream get_downstream get_lineage_by_source get_lineage_by_target
get_lineage-Edges_test = refl

get_lineage-Edges_example :
    (r : LineageResult) × (get_lineage env "mart.sales" table ≡ ok r) × Edges "mart.sales" table r
get_lineage-Edges_example = get_lineage-Edges env "mart.sales" table refl refl
