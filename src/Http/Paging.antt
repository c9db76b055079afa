-- ===== src/Http/Paging.antt =====
-- The parameters of a list (internal/httputil/pagination.go). `atoi`, `fields` and `to_upper` are
-- `strconv.Atoi`, `strings.Fields` and `strings.ToUpper`; a parameter that is not there is empty.
pub mod Laws
use baxi.Base.{
  ◌||◌, Bool, true, false, List, [], ◌∷◌, String, str_append, ◌==◌, if◌then◌else◌, elem, ℤ, pos,
  negsuc, ltb_ℤ, Result, ok, err, ◌>>=◌,
}

-- `PaginationParams`.
pub record PaginationParams : Type 0 where
  pub limit : ℤ
  pub offset : ℤ

pub record Env : Type 0 where
  pub atoi : String → Result ℤ
  pub fields : String → List String
  pub to_upper : String → String

abbrev number : Env → ℤ → String → String → Result ℤ
number env fallback what s = if s == "" then ok fallback else elim (env.atoi s) [
  | err m ↦ err (str_append "invalid " (str_append what (str_append ": " m)))
  | ok n ↦ ok n
]

abbrev pub at_least : ℤ → ℤ → ℤ
at_least low n = if ltb_ℤ n low then low else n

abbrev pub at_most : ℤ → ℤ → ℤ
at_most high n = if ltb_ℤ high n then high else n

-- `ParsePagination`.
unfoldable pub parse_pagination : Env → String → String → Result PaginationParams
parse_pagination env limit offset = number env (pos 100) "limit" limit >>= (λ l.
    number env (pos 0) "offset" offset >>= (λ o.
      ok (record { limit = at_most (pos 1000) (at_least (pos 1) l); offset = at_least (pos 0) o })))

-- The order of a sort parameter: the second word, or ascending without one.
unfoldable pub sort_order : Env → List String → Result String
sort_order env [] = ok "ASC"
sort_order env (w ∷ ws) =
    if env.to_upper w == "ASC" || env.to_upper w == "DESC"
    then ok (env.to_upper w)
    else err (str_append "invalid sort order: " (str_append w " (must be ASC or DESC)"))

unfoldable pub sort_by : Env → List String → List String → Result String
unfolding sort_order
sort_by env allowed [] = ok "created_at DESC"
sort_by env allowed (field ∷ rest) =
    if elem field allowed
    then elim (sort_order env rest) [
      | err m ↦ err m
      | ok order ↦ ok (str_append field (str_append " " order))
    ]
    else err (str_append "invalid sort field: " field)

-- `ParseSort`, with the keys of `allowedSorts`.
unfoldable pub parse_sort : Env → List String → String → Result String
unfolding sort_by
parse_sort env allowed sort =
    if sort == "" then ok "created_at DESC" else sort_by env allowed (env.fields sort)
