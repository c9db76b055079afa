-- ===== src/Http/Auth/Laws.antt =====
-- Which requests are let through (internal/api/middleware/auth.go, identity.go, rbac.go).
use mathlib.Core.Path.{subst}
use text.Mathlib.Text.{starts_with}
use text.Mathlib.TextEquality.{starts_with_iff}
use text.Mathlib.TextPositions.{starts_with-append, slice-append_right, len-append}
use text.Mathlib.TextLemmas.{append_cancel_left}
use Prim.Native.String.{slice}
use baxi.Base.{
  ◌≡◌, refl, ◌∙◌, sym, ap, ◌⊎◌, inl, inr, ◌&&◌, ◌||◌, not, Bool, true, false, Option, some, List,
  ◌∷◌, String, str_append, len, ◌==◌, elem, ℕ, leb, ltb, arith, Bool-cases, String-cases, eq_iff,
  eq_refl, ◌+◌, ==_of_ne,
}
use baxi.Http.Auth.{
  Env, Answer, next, rejected, UserIdentity, get_identity, extract_identity, is_weak_token,
  paths_of, after_bearer, check_token, authenticate, has_any_role, require_roles, authorize,
}

after_bearer_lem : (t : String) → after_bearer (str_append "Bearer " t) ≡ t
after_bearer_lem t =
    ap (slice (str_append "Bearer " t) 7) (len-append "Bearer " t) ∙ slice-append_right "Bearer " t

-- What is asked of the Authorization header: it is the configured token after the scheme, and that token is
-- long enough and none of the well-known ones.
abbrev pub presents_token : Env → String → Bool
presents_token env header =
    header == str_append "Bearer " env.expected_token
    && (leb 32 (len env.expected_token) && not (is_weak_token env.expected_token))

abbrev pub is_next : Answer → Bool
is_next (next i) = true
is_next (rejected status message) = false

short_empty : (s : String) → (s == "") ≡ true → leb 32 (len s) ≡ false
short_empty s empty = subst (λ t. leb 32 (len t) ≡ false) (sym ((eq_iff s "").0 empty)) refl

leb-ltb : (a b : ℕ) → leb a b ≡ not (ltb b a)
leb-ltb a b = ground arith

check_token-own :
    (env : Env)
    → is_next (check_token env env.expected_token)
      ≡ (leb 32 (len env.expected_token) && not (is_weak_token env.expected_token))
unfolding check_token
check_token-own env =
    let e = env.expected_token in
    elim (Bool-cases (e == "")) [
      | inl empty ↦ rw (empty, short_empty e empty, check_token) refl
      | inr named ↦ elim (Bool-cases (ltb (len e) 32)) [
        | inl short ↦ rw (leb-ltb 32 (len e), named, short, check_token) refl
        | inr long ↦ elim (Bool-cases (is_weak_token e)) [
          | inl weak ↦ rw (leb-ltb 32 (len e), named, long, weak, check_token) refl
          | inr strong ↦ rw (leb-ltb 32 (len e), named, long, strong, eq_refl e, check_token) refl
        ]
      ]
    ]

check_token-other :
    (env : Env) (token : String)
    → (token == env.expected_token) ≡ false
    → is_next (check_token env token) ≡ false
unfolding check_token
check_token-other env token other = elim (Bool-cases (token == "")) [
  | inl empty ↦ rw (empty, check_token) refl
  | inr named ↦ elim (Bool-cases (ltb (len token) 32)) [
    | inl short ↦ rw (named, short, check_token) refl
    | inr long ↦ elim (Bool-cases (is_weak_token token)) [
      | inl weak ↦ rw (named, long, weak, check_token) refl
      | inr strong ↦ rw (named, long, strong, other, check_token) refl
    ]
  ]
]

bearer-same :
    (env : Env) (t : String)
    → t ≡ env.expected_token
    → is_next (check_token env t) ≡ presents_token env (str_append "Bearer " t)
bearer-same env t same =
    subst (λ u. is_next (check_token env u) ≡ presents_token env (str_append "Bearer " u))
      (sym same) (check_token-own env ∙ rw (eq_refl (str_append "Bearer " env.expected_token)) refl)

not_both : (b : Bool) → b ≡ true → b ≡ false → ⊥
not_both b is_true is_false = let conflict : true ≡ false = sym is_true ∙ is_false in absurd (cc)

bearer-other :
    (env : Env) (t : String)
    → (t == env.expected_token) ≡ false
    → is_next (check_token env t) ≡ presents_token env (str_append "Bearer " t)
bearer-other env t other = check_token-other env t other ∙ rw headers_differ refl
  where
    headers_differ : (str_append "Bearer " t == str_append "Bearer " env.expected_token) ≡ false
    headers_differ =
        elim (Bool-cases (str_append "Bearer " t == str_append "Bearer " env.expected_token)) [
          | inr differ ↦ differ
          | inl equal ↦
              let same = append_cancel_left "Bearer " t env.expected_token (
                (eq_iff (str_append "Bearer " t) (str_append "Bearer " env.expected_token)).0
                  equal) in
              absurd
                (not_both (t == env.expected_token) ((eq_iff t env.expected_token).1 same) other)
        ]

-- A header after the scheme.
bearer-presents :
    (env : Env) (t : String)
    → is_next (check_token env (after_bearer (str_append "Bearer " t)))
      ≡ presents_token env (str_append "Bearer " t)
bearer-presents env t =
    ap (λ u. is_next (check_token env u)) (after_bearer_lem t)
    ∙ elim (String-cases t env.expected_token) [
      | inl same ↦ bearer-same env t same
      | inr other ↦ bearer-other env t other
    ]

no_scheme :
    (env : Env) (header : String)
    → starts_with header "Bearer " ≡ false
    → presents_token env header ≡ false
no_scheme env header other = elim (String-cases header (str_append "Bearer " env.expected_token)) [
  | inr differs ↦ rw differs refl
  | inl same ↦
      let begins : true ≡ false =
        sym (starts_with-append "Bearer " env.expected_token)
        ∙ (ap (λ h. starts_with h "Bearer ") (sym same) ∙ other) in
      absurd (cc)
]

bearer_named : (t : String) → (str_append "Bearer " t == "") ≡ false
bearer_named t = ==_of_ne (str_append "Bearer " t) "" (λ e.
    let length_of : 7 + len t ≡ 0 = sym (len-append "Bearer " t) ∙ ap len e in
    absurd (omega (arith, length_of)))

scheme_presents :
    (env : Env) (path t : String)
    → elem path (paths_of env.public_paths) ≡ false
    → is_next (authenticate env path (str_append "Bearer " t))
      ≡ (elem path (paths_of env.public_paths) || presents_token env (str_append "Bearer " t))
unfolding authenticate
scheme_presents env path t closed =
    rw (closed, bearer_named t, starts_with-append "Bearer " t, authenticate)
      (bearer-presents env t)

Answer-cases :
    (a : Answer)
    → ((status : ℕ) × (message : String) × (a ≡ rejected status message))
      ⊎ ((i : Option UserIdentity) × (a ≡ next i))
Answer-cases (next i) = inr (i, refl)
Answer-cases (rejected status message) = inl (status, message, refl)

-- The identity of a token that is accepted.
token_identity :
    (env : Env) (token : String) (i : UserIdentity)
    → check_token env token ≡ next (some i)
    → i ≡ extract_identity env env.expected_token
unfolding check_token
token_identity env token i h = ground (arith, eq_iff token env.expected_token)

identity_of_token :
    (env : Env) (path header : String) (i : UserIdentity)
    → authenticate env path header ≡ next (some i)
    → i ≡ extract_identity env env.expected_token
unfolding authenticate
identity_of_token env path header i h =
    let of_token = token_identity env (after_bearer header) i in
    elim (Bool-cases (elem path (paths_of env.public_paths))) [
      | inl is_public ↦ absurd (ground arith)
      | inr closed ↦ ground arith
    ]

-- A request is let through exactly if its path is public or it presents the configured token; with a
-- configured token that is short or well-known, none is let through but those of public paths.
pub authenticate-presents :
    (env : Env) (path header : String)
    → is_next (authenticate env path header)
      ≡ (elem path (paths_of env.public_paths) || presents_token env header)
unfolding authenticate
authenticate-presents env path header = elim (Bool-cases (elem path (paths_of env.public_paths))) [
  | inl is_public ↦ rw (is_public, authenticate) refl
  | inr closed ↦ elim (Bool-cases (starts_with header "Bearer ")) [
    | inr other ↦ elim (Bool-cases (header == "")) [
      | inl empty ↦ rw (closed, empty, no_scheme env header other, authenticate) refl
      | inr named ↦ rw (closed, named, other, no_scheme env header other, authenticate) refl
    ]
    | inl scheme ↦
        let (t, is_header) = (starts_with_iff header "Bearer ").0 scheme in
        subst
          (λ h.
            is_next (authenticate env path h)
            ≡ (elem path (paths_of env.public_paths) || presents_token env h))
          is_header (scheme_presents env path t closed)
  ]
]

-- Requests that are let through beside the public paths all have one identity: the token that they
-- present is the configured one.
pub authenticate_one_identity :
    (env : Env) (path path' header header' : String) (i i' : UserIdentity)
    → authenticate env path header ≡ next (some i)
    → authenticate env path' header' ≡ next (some i')
    → i ≡ i'
authenticate_one_identity env path path' header header' i i' first second =
    identity_of_token env path header i first ∙ sym (identity_of_token env path' header' i' second)

-- A request with roles required is let through only if the configured token or a public path lets it
-- through, and its identity, the viewer's where it has none, has one of the roles.
pub authorize-requires :
    (env : Env) (role : String) (roles : List String) (path header : String)
    → is_next (authorize env (role ∷ roles) path header) ≡ true
    → ((elem path (paths_of env.public_paths) || presents_token env header) ≡ true)
      × (i : Option UserIdentity) × (authenticate env path header ≡ next i)
      × (has_any_role (get_identity i).roles (role ∷ roles) ≡ true)
unfolding authorize require_roles
authorize-requires env role roles path header through =
    elim (Answer-cases (authenticate env path header)) [
      | inl (status, message, stopped) ↦
          let conflict : false ≡ true = rw (stopped, authorize) at through in absurd (cc)
      | inr (i, passed) ↦ (
        sym (authenticate-presents env path header) ∙ ap is_next passed,
        i,
        passed,
        elim (Bool-cases (has_any_role (get_identity i).roles (role ∷ roles))) [
          | inl has ↦ has
          | inr lacks ↦
              let conflict : false ≡ true =
                simp (passed, lacks, authorize, require_roles) at through in
              absurd (cc)
        ],
      )
    ]
