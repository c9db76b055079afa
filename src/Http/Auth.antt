-- ===== src/Http/Auth.antt =====
-- The authentication of requests (internal/api/middleware/auth.go, identity.go, rbac.go). `segments`
-- counts the parts of a text between dots, and `verify` is the library that checks a signed token
-- under a key and gives its claims. Response bodies are their messages; log lines are left out.
pub mod Laws
use baxi.Base.{
  ◌&&◌, ◌||◌, not, Bool, true, false, Option, none, some, List, [], ◌∷◌, String, len, ◌==◌,
  if◌then◌else◌, elem, ℕ, leb, ltb, nat_eq, Result, ok, err,
}
use Prim.Native.String.{slice}
use text.Mathlib.Text.{starts_with}
use baxi.Json.{Fields, Value, str, arr, get_field}
use baxi.Action.Registry.Payload.{texts}

-- `UserIdentity`.
pub record UserIdentity : Type 0 where
  pub user_id : String
  pub username : String
  pub roles : List String
  pub email : String

-- `jwtClaims`.
pub record JwtClaims : Type 0 where
  pub sub : String
  pub name : String
  pub roles : List String
  pub email : String

pub record Env : Type 0 where
  pub expected_token : String
  pub public_paths : List String
  pub jwt_secret : String
  pub segments : String → ℕ
  pub verify : String → String → Result Fields

-- What the middleware does: it calls the next handler, with the identity it has put into the context,
-- or it answers with a status and a message.
pub data Answer : Type 0 where
  next : Option UserIdentity → Answer
  rejected : ℕ → String → Answer

-- `legacyIdentity`.
abbrev pub legacy_identity : UserIdentity
legacy_identity = record {
  user_id = "qoder";
  username = "qoder";
  roles = "viewer" ∷ [];
  email = "";
}

-- `GetIdentity`.
abbrev pub get_identity : Option UserIdentity → UserIdentity
get_identity none = legacy_identity
get_identity (some i) = i

abbrev text_claim : String → Fields → String
text_claim k claims = elim (get_field k claims) [ some (str s) ↦ s | _ ↦ "" ]

abbrev role_claims : Fields → List String
role_claims claims = elim (get_field "roles" claims) [ some (arr xs) ↦ texts xs | _ ↦ [] ]

-- `parseJWTClaims`.
unfoldable pub parse_jwt_claims : Env → String → Option JwtClaims
parse_jwt_claims env token =
    if not (nat_eq (env.segments token) 3)
    then none
    else if env.jwt_secret == ""
    then none
    else elim (env.verify env.jwt_secret token) [
      | err m ↦ none
      | ok claims ↦ some (record {
        sub = text_claim "sub" claims;
        name = text_claim "name" claims;
        roles = role_claims claims;
        email = text_claim "email" claims;
      })
    ]

abbrev or_viewer : List String → List String
or_viewer [] = "viewer" ∷ []
or_viewer (r ∷ rs) = r ∷ rs

-- `extractIdentity`.
unfoldable pub extract_identity : Env → String → UserIdentity
extract_identity env token = elim (parse_jwt_claims env token) [
  | none ↦ legacy_identity
  | some c ↦ if c.sub == "" && c.name == "" then legacy_identity else record {
    user_id = if c.sub == "" then c.name else c.sub;
    username = if c.name == "" then (if c.sub == "" then c.name else c.sub) else c.name;
    roles = or_viewer c.roles;
    email = c.email;
  }
]

-- `isWeakToken`.
unfoldable pub is_weak_token : String → Bool
is_weak_token token = elem token (
    "test-token" ∷ "changeme" ∷ "admin" ∷ "password" ∷ "REPLACE_ME" ∷ "secret"
    ∷ "your-secret-token-here" ∷ "sk-your-key-here" ∷ [])

-- `publicPaths`, with the default.
abbrev pub paths_of : List String → List String
paths_of [] = "/api/v1/health" ∷ []
paths_of (p ∷ ps) = p ∷ ps

-- `strings.TrimPrefix(s, "Bearer ")` where the prefix is there.
abbrev pub after_bearer : String → String
after_bearer header = slice header 7 (len header)

-- The handler of `NewAuthMiddleware` from the token on.
unfoldable pub check_token : Env → String → Answer
check_token env token =
    if token == ""
    then rejected 401 "Missing token"
    else if ltb (len token) 32
    then rejected 401 "Invalid token"
    else if is_weak_token token
    then rejected 401 "Invalid token"
    else if not (token == env.expected_token)
    then rejected 401 "Invalid token"
    else next (some (extract_identity env token))

-- The handler of `NewAuthMiddleware`, for the path and the Authorization header of a request.
unfoldable pub authenticate : Env → String → String → Answer
unfolding check_token
authenticate env path header =
    if elem path (paths_of env.public_paths)
    then next none
    else if header == ""
    then rejected 401 "Missing Authorization header"
    else if not (starts_with header "Bearer ")
    then rejected 401 "Invalid Authorization header format"
    else check_token env (after_bearer header)

-- `hasAnyRole`.
abbrev pub has_any_role : List String → List String → Bool
has_any_role [] required = false
has_any_role (role ∷ roles) required = elem role required || has_any_role roles required

-- The handler of `NewRBACMiddleware`, for the identity in the context.
unfoldable pub require_roles : List String → Option UserIdentity → Answer
require_roles [] identity = next identity
require_roles (r ∷ rs) identity =
    if has_any_role (get_identity identity).roles (r ∷ rs)
    then next identity
    else rejected 403 "Insufficient permissions"

-- The two in their order.
unfoldable pub authorize : Env → List String → String → String → Answer
authorize env required path header = elim (authenticate env path header) [
  | rejected status message ↦ rejected status message
  | next identity ↦ require_roles required identity
]
