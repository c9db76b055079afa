-- ===== src/Decision/Context/V3/Laws.antt =====
-- The objects that version 3 of the builder adds (internal/decision/context_builder_v3.go).
use mathlib.Core.Path.{subst}
use baxi.Base.{
  ◌≡◌, refl, ◌⊎◌, inl, inr, ◌||◌, some, List, [], ◌∷◌, String, ◌==◌, ℕ, zero, suc, ◌+◌, ◌*◌, ◌≤◌,
  length, length-append, All, All-append, All-map, Bool-cases, Option-cases, Result-cases, ok,
  arith,
}
use baxi.Json.{Fields}
use baxi.Llm.Model.{ObjectContext, EnrichedObjectData}
use baxi.Decision.Engine.{DecisionContext}
use baxi.Decision.Context.V3.{
  ObjectLink, Env, via_text, linked_object, path_name, entry_of, follow, traverse_at_depth,
  build_decision_context_v3,
}

-- The entry has the whole object that a query returned, at a depth from `low` on and below `high`.
abbrev pub IsFetched : Env → ℕ → ℕ → EnrichedObjectData → Type 0
IsFetched env low high e =
    (low ≤ e.depth)
    × (suc e.depth ≤ high)
    × (t : String) × (i : String) × (env.object_context t i
        ≡ ok (record {
          object_type = e.object_type;
          object_id = e.object_id;
          properties = e.properties;
        }))

linked_object-IsFetched :
    (env : Env) (link : ObjectLink) (props : Fields) (o : ObjectContext)
    → linked_object env link props ≡ some o
    → (t : String) × (i : String) × (env.object_context t i ≡ ok o)
linked_object-IsFetched env link props o there = elim (Option-cases (via_text env link props)) [
  | inl nowhere ↦ absurd (ground arith)
  | inr (id, via) ↦ elim (Result-cases (env.object_context link.target_type id)) [
    | inr (m, failed) ↦ absurd (ground arith)
    | inl (found, fetched) ↦ (link.target_type, id, ground arith)
  ]
]

follow-IsFetched :
    (env : Env) (deeper : String → String → String → List EnrichedObjectData) (low high : ℕ)
    → suc low ≤ high
    → ((t i p : String) → All (IsFetched env low high) (deeper t i p))
    → (prefix : String) (props : Fields) (links : List ObjectLink)
    → All (IsFetched env low high) (follow env deeper low prefix props links)
follow-IsFetched env deeper low high below all prefix props [] = tt
follow-IsFetched env deeper low high below all prefix props (link ∷ links) =
    let rest = follow-IsFetched env deeper low high below all prefix props links in
    elim (Option-cases (linked_object env link props)) [
      | inl nowhere ↦ rw (nowhere, All) rest
      | inr (o, there) ↦
          let name = path_name prefix link.name in
          rw (there, All)
            (All-append (IsFetched env low high)
              (entry_of low name o ∷ deeper o.object_type o.object_id name)
              (follow env deeper low prefix props links)
              (
                (let (t, i, fetched) = linked_object-IsFetched env link props o there in
                    (omega arith, below, t, i, fetched)),
                all o.object_type o.object_id name,
              )
              rest)
    ]

traverse_at_depth-IsFetched :
    (env : Env) (more depth : ℕ) (object_type object_id prefix : String)
    → All
        (IsFetched env depth (depth + more))
        (traverse_at_depth env more depth object_type object_id prefix)
unfolding traverse_at_depth
traverse_at_depth-IsFetched env zero depth t i prefix = tt
traverse_at_depth-IsFetched env (suc more) depth t i prefix =
    elim (Result-cases (env.get_links t)) [
      | inr (m, failed) ↦ rw (failed, All) tt
      | inl ([], found) ↦ rw (found, All) tt
      | inl (link ∷ links, found) ↦ elim (Result-cases (env.object_context t i)) [
        | inr (m, failed) ↦ rw (found, failed, All) tt
        | inl (source, there) ↦
            rw (found, there, All)
              (follow-IsFetched env (traverse_at_depth env more (depth + 1)) depth
                (depth + suc more) (omega arith)
                (λ t' i' p.
                  All-map (IsFetched env (depth + 1) (depth + 1 + more))
                    (IsFetched env depth (depth + suc more))
                    (λ e h. (omega (arith, h.0), omega (arith, h.1), h.2, h.3, h.4))
                    (traverse_at_depth env more (depth + 1) t' i' p)
                    (traverse_at_depth-IsFetched env more (depth + 1) t' i' p))
                prefix source.properties (link ∷ links))
      ]
    ]

length-follow :
    (env : Env) (deeper : String → String → String → List EnrichedObjectData) (most : ℕ)
    → ((t i p : String) → length (deeper t i p) ≤ most)
    → (depth : ℕ) (prefix : String) (props : Fields) (links : List ObjectLink)
    → length (follow env deeper depth prefix props links) ≤ length links * suc most
length-follow env deeper most few depth prefix props [] = omega arith
length-follow env deeper most few depth prefix props (link ∷ links) =
    let rest = length-follow env deeper most few depth prefix props links in
    elim (Option-cases (linked_object env link props)) [
      | inl nowhere ↦ rw (nowhere, length) (grind arith)
      | inr (o, there) ↦
          rw (there, length)
            (grind (
              arith,
              length-append (deeper o.object_type o.object_id (path_name prefix link.name))
                  (follow env deeper depth prefix props links),
              few o.object_type o.object_id (path_name prefix link.name),
            ))
    ]

List-cases : {A : Type 0} (l : List A) → (l ≡ []) ⊎ ((x : A) × (xs : List A) × (l ≡ x ∷ xs))
List-cases [] = inl refl
List-cases (x ∷ xs) = inr (x, xs, refl)

-- How many objects `more` levels have, where a type has at most `limit` links.
abbrev pub most_objects : ℕ → ℕ → ℕ
most_objects limit zero = 0
most_objects limit (suc more) = limit * suc (most_objects limit more)

mul_le_mono : (a b c : ℕ) → a ≤ b → a * c ≤ b * c
mul_le_mono a b c h = grind arith

-- No type has more than `limit` links.
abbrev pub HasFewLinks : Env → ℕ → Type 0
HasFewLinks env limit =
    (t : String) (links : List ObjectLink) → env.get_links t ≡ ok links → length links ≤ limit

length-traverse_at_depth :
    (env : Env) (limit : ℕ)
    → HasFewLinks env limit
    → (more depth : ℕ) (t i prefix : String)
    → length (traverse_at_depth env more depth t i prefix) ≤ most_objects limit more
unfolding traverse_at_depth
length-traverse_at_depth env limit few zero depth t i prefix = omega arith
length-traverse_at_depth env limit few (suc more) depth t i prefix =
    elim (Result-cases (env.get_links t)) [
      | inr (m, failed) ↦ rw (failed, length) (omega arith)
      | inl ([], found) ↦ rw (found, length) (omega arith)
      | inl (link ∷ links, found) ↦ elim (Result-cases (env.object_context t i)) [
        | inr (m, failed) ↦ rw (found, failed, length) (omega arith)
        | inl (source, there) ↦
            rw (found, there, length)
              (omega (
                arith,
                length-follow env (traverse_at_depth env more (depth + 1)) (most_objects limit more)
                    (λ t' i' p. length-traverse_at_depth env limit few more (depth + 1) t' i' p)
                    depth prefix source.properties (link ∷ links),
                mul_le_mono (length (link ∷ links)) limit (suc (most_objects limit more))
                    (few t (link ∷ links) found),
              ))
      ]
    ]

-- What a context of version 3 has over the one that the delegate built.
abbrev pub Enriches : Env → ℕ → DecisionContext → DecisionContext → Type 0
Enriches env limit base dc =
    (record dc { enriched_objects = [] } ≡ record base { enriched_objects = [] })
    × ((dc ≡ base)
        ⊎ (All (IsFetched env 1 3) dc.enriched_objects
            × (length dc.enriched_objects ≤ most_objects limit 2)))

-- Version 3 fails only where the delegate fails. Else it returns the delegate's context, which it
-- changes only in the linked objects: each of these is at depth 1 or 2, has all properties of the
-- object that a query returned, with none redacted, and where no type has more than `limit` links they
-- are at most limit * (1 + limit).
pub build_decision_context_v3-Enriches :
    (env : Env) (limit : ℕ) (case_id : String) (base : DecisionContext)
    → HasFewLinks env limit
    → env.delegate case_id ≡ ok base
    → (dc : DecisionContext) × (build_decision_context_v3 env case_id ≡ ok dc)
      × Enriches env limit base dc
unfolding build_decision_context_v3
build_decision_context_v3-Enriches env limit case_id base few built =
    let o = base.object_context in
    let fetched = traverse_at_depth-IsFetched env 2 1 o.object_type o.object_id "" in
    let short = length-traverse_at_depth env limit few 2 1 o.object_type o.object_id "" in
    elim (Bool-cases (o.object_type == "" || o.object_id == "")) [
      | inl nameless ↦ (base, ground arith, (refl, inl refl))
      | inr named ↦ elim (List-cases (traverse_at_depth env 2 1 o.object_type o.object_id "")) [
        | inl alone ↦ (base, ground arith, (refl, inl refl))
        | inr (e, es, found) ↦ (
          record base { enriched_objects = e ∷ es },
          ground arith,
          (
            refl,
            inr (
              subst (All (IsFetched env 1 3)) found fetched,
              subst (λ l. length l ≤ most_objects limit 2) found short,
            ),
          ),
        )
      ]
    ]
