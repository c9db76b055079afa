-- ===== src/Http/Paging/Laws.antt =====
-- What the list parameters can be (internal/httputil/pagination.go).
use baxi.Base.{
  ◌≡◌, ◌∙◌, ap, ◌⊎◌, inl, inr, true, List, [], ◌∷◌, String, str_append, ◌==◌, elem, ℤ, pos, negsuc,
  leb_ℤ, ok, Bool-cases, Result-cases, arith, String-cases,
}
use baxi.Http.Paging.{
  Env, PaginationParams, at_least, at_most, number, parse_pagination, sort_order, sort_by,
  parse_sort,
}

clamped :
    (l : ℤ)
    → (leb_ℤ (pos 1) (at_most (pos 1000) (at_least (pos 1) l)) ≡ true)
      × (leb_ℤ (at_most (pos 1000) (at_least (pos 1) l)) (pos 1000) ≡ true)
clamped (pos n) = (ground arith, ground arith)
clamped (negsuc n) = (ground arith, ground arith)

not_negative : (o : ℤ) → leb_ℤ (pos 0) (at_least (pos 0) o) ≡ true
not_negative (pos n) = ground arith
not_negative (negsuc n) = ground arith

-- A page that is read has a limit from 1 to 1000 and an offset that is not negative, whatever the
-- request asks for.
pub parse_pagination_bounds :
    (env : Env) (limit offset : String) (p : PaginationParams)
    → parse_pagination env limit offset ≡ ok p
    → (leb_ℤ (pos 1) p.limit ≡ true)
      × (leb_ℤ p.limit (pos 1000) ≡ true)
      × (leb_ℤ (pos 0) p.offset ≡ true)
unfolding parse_pagination
parse_pagination_bounds env limit offset p h =
    elim (Result-cases (number env (pos 100) "limit" limit)) [
      | inr (m, refused) ↦ absurd (ground arith)
      | inl (l, read) ↦ elim (Result-cases (number env (pos 0) "offset" offset)) [
        | inr (m, refused) ↦ absurd (ground arith)
        | inl (o, read') ↦
            let limits : p.limit ≡ at_most (pos 1000) (at_least (pos 1) l) = ground arith in
            let offsets : p.offset ≡ at_least (pos 0) o = ground arith in
            (
              ap (leb_ℤ (pos 1)) limits ∙ (clamped l).0,
              ap (λ n. leb_ℤ n (pos 1000)) limits ∙ (clamped l).1,
              ap (leb_ℤ (pos 0)) offsets ∙ not_negative o,
            )
      ]
    ]

-- The clause of a field and an order.
abbrev pub IsClause : List String → String → Type 0
IsClause allowed s =
    (s ≡ "created_at DESC")
    ⊎ ((field : String) × (elem field allowed ≡ true)
        × ((s ≡ str_append field " ASC") ⊎ (s ≡ str_append field " DESC")))

sort_order-cases :
    (env : Env) (rest : List String) (order : String)
    → sort_order env rest ≡ ok order
    → (order ≡ "ASC") ⊎ (order ≡ "DESC")
unfolding sort_order
sort_order-cases env [] order h = inl (ground arith)
sort_order-cases env (w ∷ ws) order h = elim (String-cases (env.to_upper w) "ASC") [
  | inl up ↦ inl (ground arith)
  | inr other ↦ elim (String-cases (env.to_upper w) "DESC") [
    | inl down ↦ inr (ground arith)
    | inr neither ↦ absurd (ground arith)
  ]
]

sort_by-IsClause :
    (env : Env) (allowed words : List String) (s : String)
    → sort_by env allowed words ≡ ok s
    → IsClause allowed s
unfolding sort_by
sort_by-IsClause env allowed [] s h = inl (ground arith)
sort_by-IsClause env allowed (field ∷ rest) s h = elim (Bool-cases (elem field allowed)) [
  | inr unknown ↦ absurd (ground arith)
  | inl known ↦ elim (Result-cases (sort_order env rest)) [
    | inr (m, refused) ↦ absurd (ground arith)
    | inl (order, read) ↦
        let is_clause : s ≡ str_append field (str_append " " order) = ground arith in
        elim (sort_order-cases env rest order read) [
          | inl up ↦
              inr (field, known, inl (is_clause ∙ ap (λ o. str_append field (str_append " " o)) up))
          | inr down ↦
              inr
                (field, known, inr (is_clause ∙ ap (λ o. str_append field (str_append " " o)) down))
        ]
  ]
]

-- A sort clause that is accepted is the default, or an allowed field with an order: nothing else of
-- the request gets into the query.
pub parse_sort-IsClause :
    (env : Env) (allowed : List String) (sort s : String)
    → parse_sort env allowed sort ≡ ok s
    → IsClause allowed s
unfolding parse_sort sort_by
parse_sort-IsClause env allowed sort s h = elim (Bool-cases (sort == "")) [
  | inl empty ↦ inl (ground arith)
  | inr named ↦ sort_by-IsClause env allowed (env.fields sort) s (ground arith)
]
