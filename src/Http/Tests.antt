-- ===== src/Http/Tests.antt =====
-- Requests and list parameters at concrete values.
use baxi.Base.{◌≡◌, refl, ◌||◌, true, none, some, [], ◌∷◌, String, elem, pos, ok, err}
use baxi.Http.Auth
use baxi.Http.Auth.{
  Answer, next, rejected, UserIdentity, legacy_identity, get_identity, parse_jwt_claims,
  extract_identity, is_weak_token, paths_of, check_token, authenticate, has_any_role, require_roles,
  authorize,
}
use baxi.Http.Auth.Laws.{presents_token, is_next, authenticate-presents}
use baxi.Http.Paging
use baxi.Http.Paging.{PaginationParams, parse_pagination, sort_order, sort_by, parse_sort}

abbrev token : String
token = "0123456789abcdef0123456789abcdef"

abbrev env : Auth.Env
env = record {
  expected_token = token;
  public_paths = [];
  jwt_secret = token;
  segments = λ s. 1;
  verify = λ secret t. err "token is malformed";
}

abbrev bearer : String
bearer = "Bearer 0123456789abcdef0123456789abcdef"

answers :
    (authenticate env "/api/v1/tasks" bearer ≡ next (some legacy_identity))
    × (authenticate env "/api/v1/health" "" ≡ next none)
    × (authenticate env "/api/v1/tasks" "Basic x"
        ≡ rejected 401 "Invalid Authorization header format")
    × (authenticate (record env { expected_token = "changeme" }) "/api/v1/tasks" "Bearer changeme"
        ≡ rejected 401 "Invalid token")
    × (authorize env ("admin" ∷ []) "/api/v1/tasks" bearer
        ≡ rejected 403 "Insufficient permissions")
unfolding authenticate check_token is_weak_token extract_identity parse_jwt_claims authorize
    require_roles
answers = (refl, refl, refl, refl, refl)

authenticate-presents_example :
    is_next (authenticate env "/api/v1/tasks" bearer)
    ≡ (elem "/api/v1/tasks" (paths_of []) || presents_token env bearer)
authenticate-presents_example = authenticate-presents env "/api/v1/tasks" bearer

tasks_pass : authenticate env "/api/v1/tasks" bearer ≡ next (some legacy_identity)
unfolding authenticate check_token is_weak_token extract_identity parse_jwt_claims
tasks_pass = refl

alerts_pass : authenticate env "/api/v1/alerts" bearer ≡ next (some legacy_identity)
unfolding authenticate check_token is_weak_token extract_identity parse_jwt_claims
alerts_pass = refl

viewer_passes : is_next (authorize env ("viewer" ∷ []) "/api/v1/tasks" bearer) ≡ true
unfolding authenticate check_token is_weak_token extract_identity parse_jwt_claims authorize
    require_roles
viewer_passes = refl

-- A request for five thousand rows that sorts by its second word.
abbrev reading : Paging.Env
reading = record {
  atoi = λ s. ok (pos 5000);
  fields = λ s. "status" ∷ "desc" ∷ [];
  to_upper = λ s. "DESC";
}

abbrev full_page : PaginationParams
full_page = record { limit = pos 1000; offset = pos 0 }

reads_page : parse_pagination reading "5000" "" ≡ ok full_page
unfolding parse_pagination
reads_page = refl

sorts : parse_sort reading ("status" ∷ []) "status desc" ≡ ok "status DESC"
unfolding parse_sort sort_by sort_order
sorts = refl
