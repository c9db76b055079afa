-- ===== src/Ontology/Links.antt =====
-- The plans of links (internal/ontology/link_plan.go, queryref_validator.go), and how the MCP server
-- uses them (cmd/baxi-mcp/main.go). Of a plan's columns nothing is ever set, and they are left out.
-- Messages leave out what `%q` puts around a name. `Env` holds the functions of Go's strings, regexp and fmt packages that the plans are built with.
pub mod Laws
use baxi.Base.{
  ◌&&◌, ◌||◌, not, Bool, true, false, Option, none, some, List, [], ◌∷◌, String, str_append, ◌==◌,
  if◌then◌else◌, elem, lookup, ℤ, pos, ltb_ℤ, Result, ok, err, map,
}
use text.Mathlib.Text.{starts_with}
use baxi.Ontology.Quoting.{quote_ident}

-- `LinkTarget`.
pub record LinkTarget : Type 0 where
  pub schema : String
  pub table : String
  pub key : String

-- `ObjectLinkV2`: the fields that are read.
pub record ObjectLink : Type 0 where
  pub name : String
  pub target_type : String
  pub cardinality : String
  pub strategy : String
  pub target : LinkTarget
  pub limit : ℤ
  pub sort : String
  pub fields : List String

-- `ObjectRef`.
pub record ObjectRef : Type 0 where
  pub object_type : String
  pub object_id : String

-- `LinkOptions`, less the role and the depth, which decide nothing.
pub record LinkOptions : Type 0 where
  pub limit : ℤ
  pub offset : ℤ

-- `CompiledLink`.
pub record CompiledLink : Type 0 where
  pub sql : String
  pub args : List String
  pub target_type : String
  pub link_name : String
  pub cardinality : String

-- `LinkedObjectResult`; its list of objects is empty.
pub record LinkedObjectResult : Type 0 where
  pub object_type : String
  pub object_id : String
  pub link_name : String
  pub target_type : String
  pub cardinality : String

-- The patterns: `sort_matches` is `validSortExpr`, `has_comment` is `commentPattern`, and `schemas_of`
-- gives the submatches of `schemaTablePattern`.
pub record Env : Type 0 where
  pub print : ℤ → String
  pub contains : String → String → Bool
  pub to_upper : String → String
  pub to_lower : String → String
  pub trim_space : String → String
  pub sort_matches : String → Bool
  pub has_comment : String → Bool
  pub schemas_of : String → List String

-- The links of an object type, by its name.
abbrev pub Objects : Type 0
Objects = List (String × List ObjectLink)

-- `isValidSort`.
abbrev pub is_valid_sort : Env → String → Bool
is_valid_sort env sort = sort == "" || env.sort_matches sort

abbrev join : List String → String
join [] = ""
join (s ∷ []) = s
join (s ∷ (t ∷ ts)) = str_append s (str_append ", " (join (t ∷ ts)))

-- `resolveFields`.
abbrev pub resolve_fields : ObjectLink → String
resolve_fields link = elim (link.fields) [ [] ↦ "*" | f ∷ fs ↦ join (map quote_ident (f ∷ fs)) ]

-- `resolveSort`.
abbrev pub resolve_sort : Env → ObjectLink → String
resolve_sort env link =
    if not (link.sort == "") && is_valid_sort env link.sort
    then str_append " ORDER BY " link.sort
    else ""

-- ` LIMIT %d OFFSET %d`.
abbrev pub page : Env → ℤ → ℤ → String
page env limit offset =
    str_append " LIMIT " (str_append (env.print limit) (str_append " OFFSET " (env.print offset)))

abbrev pub plan_of : ObjectRef → ObjectLink → String → CompiledLink
plan_of source link sql = record {
  sql = sql;
  args = source.object_id ∷ [];
  target_type = link.target_type;
  link_name = link.name;
  cardinality = link.cardinality;
}

-- The query up to its page.
abbrev pub select : Env → ObjectLink → String
select env link = str_append "SELECT " (
    str_append (resolve_fields link) (
      str_append " FROM " (
        str_append (quote_ident link.target.schema) (
          str_append "." (
            str_append (quote_ident link.target.table) (
              str_append " WHERE " (
                str_append (quote_ident link.target.key)
                  (str_append " = $1" (resolve_sort env link)))))))))

-- `compileDirectKey`.
abbrev pub compile_direct_key : Env → ObjectRef → ObjectLink → ℤ → ℤ → CompiledLink
compile_direct_key env source link limit offset =
    plan_of source link (str_append (select env link) (page env limit offset))

-- `compileReverseLookup`.
abbrev pub compile_reverse_lookup : Env → ObjectRef → ObjectLink → ℤ → ℤ → CompiledLink
compile_reverse_lookup env source link limit offset =
    plan_of source link (str_append (select env link) (page env limit offset))

-- `compileBridgeTable`.
abbrev pub compile_bridge_table : Env → ObjectRef → ObjectLink → ℤ → ℤ → CompiledLink
compile_bridge_table env source link limit offset =
    plan_of source link (str_append (select env link) (page env limit offset))

-- `dmlKeywordsQueryRef`.
abbrev pub dml_keywords : List String
dml_keywords =
    "INSERT" ∷ "UPDATE" ∷ "DELETE" ∷ "DROP" ∷ "ALTER" ∷ "TRUNCATE" ∷ "EXECUTE" ∷ "COPY" ∷ []

-- The first keyword that the text contains.
abbrev pub first_keyword : Env → String → List String → Option String
first_keyword env upper [] = none
first_keyword env upper (k ∷ ks) =
    let rest = first_keyword env upper ks in if env.contains upper k then some k else rest

-- `validateQueryRefSchemas`: the first schema that is not allowed.
abbrev pub bad_schema : Env → List String → Option String
bad_schema env [] = none
bad_schema env (s ∷ ss) =
    let rest = bad_schema env ss in
    if elem (env.to_lower s) ("dwd" ∷ "mart" ∷ "ops" ∷ []) then rest else some (env.to_lower s)

-- `ValidateQueryRef`: the error, if there is one.
unfoldable pub validate_query_ref : Env → String → Option String
validate_query_ref env template =
    if template == ""
    then some "query_ref template must not be empty"
    else if env.contains template ";"
    then some "query_ref template contains semicolon (not allowed)"
    else elim (first_keyword env (env.to_upper template) dml_keywords) [
      | some k ↦ some (str_append "query_ref template contains forbidden DML keyword: " k)
      | none ↦
          if env.has_comment template
          then some "query_ref template contains SQL comments (not allowed)"
          else if not (starts_with (env.to_upper (env.trim_space template)) "SELECT")
          then some "query_ref template must start with SELECT"
          else if not (env.contains template "$1")
          then some "query_ref template must contain $1 parameter placeholder"
          else elim (bad_schema env (env.schemas_of template)) [
            | none ↦ none
            | some s ↦ some (str_append "query_ref template references disallowed schema " s)
          ]
    ]

-- `compileQueryRef`.
unfoldable pub compile_query_ref : Env → ObjectRef → ObjectLink → ℤ → ℤ → Result CompiledLink
compile_query_ref env source link limit offset =
    if link.target.key == ""
    then err "query_ref strategy requires target.key as the SQL template placeholder"
    else elim (validate_query_ref env link.target.key) [
      | some m ↦ err (str_append "query_ref validation failed: " m)
      | none ↦ ok (
          plan_of source link (
            if env.contains (env.to_upper link.target.key) "LIMIT"
            then link.target.key
            else str_append link.target.key
                (str_append (resolve_sort env link) (page env limit offset))))
    ]

-- `compileLink`.
unfoldable pub compile_link : Env → ObjectRef → ObjectLink → ℤ → ℤ → Result CompiledLink
compile_link env source link limit offset =
    if link.strategy == "direct_key" || link.strategy == "lookup"
    then ok (compile_direct_key env source link limit offset)
    else if link.strategy == "reverse_lookup"
    then ok (compile_reverse_lookup env source link limit offset)
    else if link.strategy == "bridge_table"
    then ok (compile_bridge_table env source link limit offset)
    else if link.strategy == "query_ref"
    then compile_query_ref env source link limit offset
    else err (str_append "unknown link strategy " link.strategy)

abbrev pub find_link : String → List ObjectLink → Option ObjectLink
find_link name [] = none
find_link name (l ∷ ls) = let rest = find_link name ls in if l.name == name then some l else rest

-- The limit of `GetLinkedObjects`.
unfoldable pub resolve_limit : ObjectLink → ℤ → ℤ
resolve_limit link limit =
    let asked = if ltb_ℤ (pos 0) limit then limit else link.limit in
    let bounded = if ltb_ℤ (pos 0) asked then asked else pos 20 in
    if link.cardinality == "one_to_one" then pos 1 else bounded

-- `GetLinkedObjects`.
unfoldable pub get_linked_objects :
    Env → Objects → ObjectRef → String → LinkOptions → Result LinkedObjectResult
get_linked_objects env objects source name opts = elim (lookup source.object_type objects) [
  | none ↦ err (str_append "link_resolver: unknown object type " source.object_type)
  | some links ↦ elim (find_link name links) [
    | none ↦ err (str_append "link_resolver: link not found on object type: " name)
    | some link ↦ elim (compile_link env source link (resolve_limit link opts.limit) opts.offset) [
      | err m ↦
          err (str_append "link_resolver: compile link " (str_append name (str_append ": " m)))
      | ok plan ↦ ok (record {
        object_type = source.object_type;
        object_id = source.object_id;
        link_name = name;
        target_type = link.target_type;
        cardinality = link.cardinality;
      })
    ]
  ]
]

-- The loop of `CompileAllLinks`.
unfoldable pub compile_links :
    Env → ObjectRef → LinkOptions → List ObjectLink → Result (List CompiledLink)
compile_links env source opts [] = ok []
compile_links env source opts (l ∷ ls) = elim (compile_link env source l opts.limit opts.offset) [
  | err m ↦ err (str_append "link_resolver: compile link " (str_append l.name (str_append ": " m)))
  | ok plan ↦ elim (compile_links env source opts ls) [
    | err m ↦ err m
    | ok plans ↦ ok (plan ∷ plans)
  ]
]

-- `CompileAllLinks`.
unfoldable pub compile_all_links :
    Env → Objects → ObjectRef → LinkOptions → Result (List CompiledLink)
unfolding compile_links
compile_all_links env objects source opts = elim (lookup source.object_type objects) [
  | none ↦ err (str_append "link_resolver: unknown object type " source.object_type)
  | some links ↦ compile_links env source opts links
]

abbrev pub find_plan : String → List CompiledLink → Option CompiledLink
find_plan name [] = none
find_plan name (p ∷ ps) =
    let rest = find_plan name ps in if p.link_name == name then some p else rest

-- `getLinkedObjectsV2`, up to the query that it runs.
unfoldable pub linked_query : Env → Objects → ObjectRef → String → Result CompiledLink
linked_query env objects source name =
    let opts : LinkOptions = record { limit = pos 0; offset = pos 0 } in
    elim (get_linked_objects env objects source name opts) [
      | err m ↦ err m
      | ok found ↦ elim (compile_all_links env objects source opts) [
        | err m ↦ err (str_append "compile links: " m)
        | ok plans ↦ elim (find_plan name plans) [
          | none ↦ err "link not found in compiled plans"
          | some plan ↦ ok plan
        ]
      ]
    ]
