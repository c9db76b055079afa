-- ===== src/Ontology/Links/Laws.antt =====
-- What the plans of links are (internal/ontology/link_plan.go, cmd/baxi-mcp/main.go).
use mathlib.Core.Path.{subst}
use mathlib.Core.List.{Mem, mem-cons_self, mem-cons_of_mem}
use text.Mathlib.TextLemmas.{append_assoc}
use baxi.Base.{
  ◌≡◌, refl, ◌∙◌, sym, ap, ◌≢◌, ◌⊎◌, inl, inr, ◌||◌, true, false, some, List, [], ◌∷◌, String,
  str_append, ◌==◌, if◌then◌else◌, ℤ, pos, ltb_ℤ, Result, ok, err, lookup, Bool-cases, Option-cases,
  Result-cases, String-cases, eq_iff, arith,
}
use baxi.Ontology.Links.{
  Env, ObjectLink, ObjectRef, LinkOptions, CompiledLink, Objects, plan_of, select, page,
  compile_link, compile_query_ref, validate_query_ref, resolve_sort, resolve_limit, compile_links,
  compile_all_links, find_plan, linked_query, get_linked_objects,
}

bounded :
    (own limit : ℤ)
    → ltb_ℤ (pos 0) (
        if ltb_ℤ (pos 0) (if ltb_ℤ (pos 0) limit then limit else own)
        then (if ltb_ℤ (pos 0) limit then limit else own)
        else pos 20)
      ≡ true
bounded own limit = elim (Bool-cases (ltb_ℤ (pos 0) (if ltb_ℤ (pos 0) limit then limit else own))) [
  | inl positive ↦ rw positive positive
  | inr negative ↦ rw negative refl
]

not_named : (s : String) → s ≡ "one_to_one" → (s == "one_to_one") ≡ false → ⊥
not_named s one other =
    let conflict : true ≡ false = sym ((eq_iff s "one_to_one").1 one) ∙ other in absurd (cc)

-- The limit that `GetLinkedObjects` compiles with is positive, and is 1 for a link to one object.
pub resolve_limit_bounds :
    (link : ObjectLink) (limit : ℤ)
    → (ltb_ℤ (pos 0) (resolve_limit link limit) ≡ true)
      × ((link.cardinality ≢ "one_to_one") ⊎ (resolve_limit link limit ≡ pos 1))
unfolding resolve_limit
resolve_limit_bounds link limit = elim (String-cases link.cardinality "one_to_one") [
  | inl one ↦
      let named = (eq_iff link.cardinality "one_to_one").1 one in
      (rw (named, resolve_limit) refl, inr (rw (named, resolve_limit) refl))
  | inr other ↦ (
    rw (other, resolve_limit) (bounded link.limit limit),
    inl (λ one. absurd (not_named link.cardinality one other)),
  )
]

-- How a plan comes from its link: its only argument is the id of the object, and its query is for the
-- page asked for, or is a template whose text contains LIMIT.
abbrev pub Paged : Env → ObjectRef → ObjectLink → ℤ → ℤ → CompiledLink → Type 0
Paged env source link limit offset plan =
    (sql : String) × (plan ≡ plan_of source link sql)
    × (((text : String) × (sql ≡ str_append text (page env limit offset)))
        ⊎ ((link.strategy ≡ "query_ref")
            × (env.contains (env.to_upper link.target.key) "LIMIT" ≡ true)
            × (sql ≡ link.target.key)))

is_plan :
    (source : ObjectRef) (link : ObjectLink) (sql : String) (plan : CompiledLink)
    → ok (plan_of source link sql) ≡ ok plan
    → plan ≡ plan_of source link sql
is_plan source link sql plan h = let same : plan_of source link sql ≡ plan = cc in sym same

refused : (m : String) (plan : CompiledLink) → ◌≡◌ {A = Result CompiledLink} (err m) (ok plan) → ⊥
refused m plan h = absurd (cc)

query_ref-Paged :
    (env : Env) (source : ObjectRef) (link : ObjectLink) (limit offset : ℤ) (plan : CompiledLink)
    → link.strategy ≡ "query_ref"
    → compile_query_ref env source link limit offset ≡ ok plan
    → Paged env source link limit offset plan
unfolding compile_query_ref
query_ref-Paged env source link limit offset plan template h =
    elim (Bool-cases (link.target.key == "")) [
      | inl empty ↦ absurd (refused _ _ (simp (empty, compile_query_ref) at h))
      | inr named ↦ elim (Option-cases (validate_query_ref env link.target.key)) [
        | inr (m, invalid) ↦ absurd (refused _ _ (simp (named, invalid, compile_query_ref) at h))
        | inl valid ↦ elim (Bool-cases (env.contains (env.to_upper link.target.key) "LIMIT")) [
          | inl own ↦ (
            link.target.key,
            is_plan source link _ plan (simp (named, valid, own, compile_query_ref) at h),
            inr (template, own, refl),
          )
          | inr paged ↦ (
            str_append link.target.key (str_append (resolve_sort env link) (page env limit offset)),
            is_plan source link _ plan (simp (named, valid, paged, compile_query_ref) at h),
            inl (
              str_append link.target.key (resolve_sort env link),
              sym (append_assoc link.target.key (resolve_sort env link) (page env limit offset)),
            ),
          )
        ]
      ]
    ]

table-Paged :
    (env : Env) (source : ObjectRef) (link : ObjectLink) (limit offset : ℤ) (plan : CompiledLink)
    → ok (plan_of source link (str_append (select env link) (page env limit offset))) ≡ ok plan
    → Paged env source link limit offset plan
table-Paged env source link limit offset plan h = (
  str_append (select env link) (page env limit offset),
  is_plan source link (str_append (select env link) (page env limit offset)) plan h,
  inl (select env link, refl),
)

-- What a link is compiled to, whichever its strategy.
pub compile_link-Paged :
    (env : Env) (source : ObjectRef) (link : ObjectLink) (limit offset : ℤ) (plan : CompiledLink)
    → compile_link env source link limit offset ≡ ok plan
    → Paged env source link limit offset plan
unfolding compile_link
compile_link-Paged env source link limit offset plan h =
    let of_table = table-Paged env source link limit offset plan in
    elim (Bool-cases (link.strategy == "direct_key" || link.strategy == "lookup")) [
      | inl direct ↦ of_table (simp (direct, compile_link) at h)
      | inr a ↦ elim (Bool-cases (link.strategy == "reverse_lookup")) [
        | inl reverse ↦ of_table (simp (a, reverse, compile_link) at h)
        | inr b ↦ elim (Bool-cases (link.strategy == "bridge_table")) [
          | inl bridge ↦ of_table (simp (a, b, bridge, compile_link) at h)
          | inr c ↦ elim (Bool-cases (link.strategy == "query_ref")) [
            | inr d ↦ absurd (refused _ _ (simp (a, b, c, d, compile_link) at h))
            | inl template ↦
                query_ref-Paged env source link limit offset plan
                  ((eq_iff link.strategy "query_ref").0 template)
                  (simp (a, b, c, template, compile_link) at h)
          ]
        ]
      ]
    ]

-- The plan that one of the links compiles to, which has the name.
abbrev pub PlanOf : Env → ObjectRef → String → LinkOptions → List ObjectLink → CompiledLink → Type 0
PlanOf env source name opts links plan =
    (link : ObjectLink) × Mem link links
    × (link.name ≡ name)
    × (compile_link env source link opts.limit opts.offset ≡ ok plan)

found_first :
    (env : Env) (source : ObjectRef) (name : String) (opts : LinkOptions) (link : ObjectLink)
    (links : List ObjectLink) (plan : CompiledLink)
    → (plan.link_name == name) ≡ true
    → compile_link env source link opts.limit opts.offset ≡ ok plan
    → PlanOf env source name opts (link ∷ links) plan
found_first env source name opts link links plan named compiled =
    let (sql, is, query) =
      compile_link-Paged env source link opts.limit opts.offset plan compiled in
    (
      link,
      mem-cons_self,
      ap (λ p. p.link_name) (sym is) ∙ (eq_iff plan.link_name name).0 named,
      compiled,
    )

compile_links-PlanOf :
    (env : Env) (source : ObjectRef) (name : String) (opts : LinkOptions) (links : List ObjectLink)
    (plans : List CompiledLink) (plan : CompiledLink)
    → compile_links env source opts links ≡ ok plans
    → find_plan name plans ≡ some plan
    → PlanOf env source name opts links plan
unfolding compile_links
compile_links-PlanOf env source name opts [] plans plan compiled found =
    let none_there : plans ≡ [] = ground arith in absurd (ground arith)
compile_links-PlanOf env source name opts (l ∷ ls) plans plan compiled found =
    elim (Result-cases (compile_link env source l opts.limit opts.offset)) [
      | inr (m, failed) ↦ absurd (ground arith)
      | inl (first, is_first) ↦ elim (Result-cases (compile_links env source opts ls)) [
        | inr (m, failed) ↦ absurd (ground arith)
        | inl (rest, is_rest) ↦
            let all : plans ≡ first ∷ rest = ground arith in
            elim (Bool-cases (first.link_name == name)) [
              | inl named ↦
                  let same : first ≡ plan = ground arith in
                  subst (PlanOf env source name opts (l ∷ ls)) same
                    (found_first env source name opts l ls first named is_first)
              | inr other ↦
                  let (link, there, is_name, is_plan) =
                    compile_links-PlanOf env source name opts ls rest plan is_rest (ground arith) in
                  (link, mem-cons_of_mem l there, is_name, is_plan)
            ]
      ]
    ]

abbrev no_options : LinkOptions
no_options = record { limit = pos 0; offset = pos 0 }

page_at_zero :
    (env : Env) → env.print (pos 0) ≡ "0" → page env (pos 0) (pos 0) ≡ " LIMIT 0 OFFSET 0"
page_at_zero env prints = rw prints refl

at_zero :
    (env : Env) (link : ObjectLink) (plan : CompiledLink) (sql : String)
    → env.print (pos 0) ≡ "0"
    → plan.sql ≡ sql
    → ((text : String) × (sql ≡ str_append text (page env (pos 0) (pos 0))))
      ⊎ ((link.strategy ≡ "query_ref")
          × (env.contains (env.to_upper link.target.key) "LIMIT" ≡ true)
          × (sql ≡ link.target.key))
    → ((text : String) × (plan.sql ≡ str_append text " LIMIT 0 OFFSET 0"))
      ⊎ ((link.strategy ≡ "query_ref")
          × (env.contains (env.to_upper link.target.key) "LIMIT" ≡ true)
          × (plan.sql ≡ link.target.key))
at_zero env link plan sql prints is (inl (text, paged)) =
    inl (text, is ∙ (paged ∙ ap (str_append text) (page_at_zero env prints)))
at_zero env link plan sql prints is (inr (template, limited, own)) =
    inr (template, limited, is ∙ own)

-- The query that the MCP server runs is that of one of the links that the ontology lists for the type
-- of the object, by the name asked for, compiled with limit 0 and offset 0: it ends in LIMIT 0 OFFSET 0
-- and so asks for no rows, unless the link's strategy is `query_ref`, where the link's template
-- itself is run, unchanged, if its upper-case text contains LIMIT. `%d` prints zero as 0.
pub linked_query_empty :
    (env : Env) (objects : Objects) (source : ObjectRef) (name : String) (plan : CompiledLink)
    → env.print (pos 0) ≡ "0"
    → linked_query env objects source name ≡ ok plan
    → (links : List ObjectLink) × (lookup source.object_type objects ≡ some links)
      × (link : ObjectLink) × Mem link links
      × (link.name ≡ name)
      × (compile_link env source link (pos 0) (pos 0) ≡ ok plan)
      × (((text : String) × (plan.sql ≡ str_append text " LIMIT 0 OFFSET 0"))
          ⊎ ((link.strategy ≡ "query_ref")
              × (env.contains (env.to_upper link.target.key) "LIMIT" ≡ true)
              × (plan.sql ≡ link.target.key)))
unfolding linked_query compile_all_links
linked_query_empty env objects source name plan prints h =
    elim (Result-cases (get_linked_objects env objects source name no_options)) [
      | inr (m, missing) ↦ absurd (ground arith)
      | inl (result, there) ↦ elim (Option-cases (lookup source.object_type objects)) [
        | inl no_type ↦ absurd (ground arith)
        | inr (links, typed) ↦ elim (Result-cases (compile_links env source no_options links)) [
          | inr (m, failed) ↦ absurd (ground arith)
          | inl (plans, compiled) ↦ elim (Option-cases (find_plan name plans)) [
            | inl no_plan ↦ absurd (ground arith)
            | inr (p, found) ↦
                let same : p ≡ plan = ground arith in
                let (link, there, named, is_plan) =
                  compile_links-PlanOf env source name no_options links plans p compiled found in
                let compiles : compile_link env source link (pos 0) (pos 0) ≡ ok plan =
                  is_plan ∙ ap ok same in
                let (sql, is, query) =
                  compile_link-Paged env source link (pos 0) (pos 0) plan compiles in
                (
                  links,
                  typed,
                  link,
                  there,
                  named,
                  compiles,
                  at_zero env link plan sql prints (ap (λ q. q.sql) is) query,
                )
          ]
        ]
      ]
    ]
