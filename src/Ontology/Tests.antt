-- ===== src/Ontology/Tests.antt =====
-- Identifiers and links at concrete values.
use mathlib.Core.List.{Mem}
use baxi.Base.{
  List, lookup, ◌≡◌, refl, ◌⊎◌, true, false, some, [], ◌∷◌, String, str_append, pos, ok,
}
use baxi.Ontology.Quoting.{double_quotes, quote_ident, read_ident, read_ident-quote_ident}
use baxi.Ontology.Links.{
  Env, ObjectLink, ObjectRef, Objects, plan_of, compile_link, compile_links, compile_all_links,
  get_linked_objects, linked_query,
}
use baxi.Ontology.Links.Laws.{linked_query_empty}

quotes : quote_ident "a\"b" ≡ "\"a\"\"b\""
unfolding quote_ident double_quotes
quotes = refl

read_ident-quote_ident_example :
    read_ident (str_append (quote_ident "x\" OR \"1") " = $1") ≡ some ("x\" OR \"1", " = $1")
read_ident-quote_ident_example = read_ident-quote_ident "x\" OR \"1" " = $1" refl

abbrev env : Env
env = record {
  print = λ n. "0";
  contains = λ s t. false;
  to_upper = λ s. s;
  to_lower = λ s. s;
  trim_space = λ s. s;
  sort_matches = λ s. true;
  has_comment = λ s. false;
  schemas_of = λ s. [];
}

abbrev orders : ObjectLink
orders = record {
  name = "recent_orders";
  target_type = "order";
  cardinality = "one_to_many";
  strategy = "reverse_lookup";
  target = record { schema = "dwd"; table = "orders"; key = "seller_id" };
  limit = pos 50;
  sort = "created_at DESC";
  fields = [];
}

abbrev seller : ObjectRef
seller = record { object_type = "seller"; object_id = "s_1" }

abbrev objects : Objects
objects = ("seller", orders ∷ []) ∷ []

abbrev sql : String
sql =
    "SELECT * FROM \"dwd\".\"orders\" WHERE \"seller_id\" = $1 ORDER BY created_at DESC LIMIT 0 OFFSET 0"

-- The link has a limit of 50, and is queried with 0.
queries : linked_query env objects seller "recent_orders" ≡ ok (plan_of seller orders sql)
unfolding linked_query get_linked_objects compile_all_links compile_links compile_link quote_ident
    double_quotes
queries = refl

linked_query_empty_example :
    (links : List ObjectLink) × (lookup seller.object_type objects ≡ some links)
    × (link : ObjectLink) × Mem link links
    × (link.name ≡ "recent_orders")
    × (compile_link env seller link (pos 0) (pos 0) ≡ ok (plan_of seller orders sql))
    × (((text : String) × (sql ≡ str_append text " LIMIT 0 OFFSET 0"))
        ⊎ ((link.strategy ≡ "query_ref")
            × (env.contains (env.to_upper link.target.key) "LIMIT" ≡ true)
            × (sql ≡ link.target.key)))
linked_query_empty_example =
    linked_query_empty env objects seller "recent_orders" (plan_of seller orders sql) refl queries
