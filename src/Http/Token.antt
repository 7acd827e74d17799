-- ===== src/Http/Token.antt =====
-- `checkAuth`: a request carries the token or goes to one of three paths.
use Prim.Native.Char.{code}
use text.Mathlib.TextEquality.{Char-path}
use pdatahub.Delegations.Blob.{drop_chars}
use pdatahub.Http.Auth.{
  bearer, RouteAuth, Piece, letter, path_to_regex, test, lookup_auth_strategy, starts_name,
  route_auth, check_bearer, check_auth, is_name_start, check_strategy, drop_name,
}
use pdatahub.Prelude.{
  String, [], some, true, false, inl, inr, refl, Option, List, ◌≡◌, starts_with, ◌∷◌, arith, Memᴰ,
  eq_iff, str_eq, Bool-cases, ap₂, ◌&&◌, sym, none, ◌⊎◌, All-Memᴰ, ◌∙◌, ◌≢◌, All,
}

-- The header carries the token.
abbrev pub HasToken : String → Option String → Type 0
HasToken token authorization =
    (auth : String) × (authorization ≡ some auth)
    × (starts_with auth "Bearer " ≡ true)
    × (drop_chars 7 auth ≡ token)

unfoldable letters : String → List Piece
letters String.[] = []
letters (String.◌∷◌ c s) = letter c ∷ letters s

test-letters : (p s : String) → test (letters p) s ≡ true → s ≡ p
unfolding test letters
test-letters String.[] s h = ground (arith, eq_iff s "")
test-letters (String.◌∷◌ c p) String.[] h = cc
test-letters (String.◌∷◌ c p) (String.◌∷◌ d s) h =
    let same : code c ≡ code d = ground arith in
    let rest : test (letters p) s ≡ true = ground arith in
    ap₂ (λ x y. String.◌∷◌ x y) (Char-path d c (sym same)) (test-letters p s rest)

-- A request that needs no token goes to one of three paths.
pub data IsOpen (method pathname : String) : Type 0 where
  to_health : method ≡ "GET" → pathname ≡ "/health" → IsOpen method pathname
  to_identity : method ≡ "GET" → pathname ≡ "/v1/identity" → IsOpen method pathname
  to_call : method ≡ "POST" → pathname ≡ "/v1/federation/call" → IsOpen method pathname

-- The entry of the table that decides, if any does.
data Found (method pathname : String) (table : List RouteAuth) : Type 0 where
  listed :
      (r : RouteAuth)
      → Memᴰ r table
      → str_eq r.method method ≡ true
      → test (path_to_regex r.path) pathname ≡ true
      → lookup_auth_strategy method pathname table ≡ r.auth
      → Found method pathname table
  unlisted : lookup_auth_strategy method pathname table ≡ bearer → Found method pathname table

lookup_auth-Found :
    (method pathname : String) (table : List RouteAuth) → Found method pathname table
unfolding lookup_auth_strategy
lookup_auth-Found method pathname [] = unlisted refl
lookup_auth-Found method pathname (r ∷ table) =
    elim (Bool-cases (str_eq r.method method && test (path_to_regex r.path) pathname)) [
      | inl e ↦
          listed r (Memᴰ.head refl) (ground (arith, e)) (ground (arith, e)) (ground (arith, e))
      | inr e ↦ elim (lookup_auth-Found method pathname table) [
        | listed q m h t a ↦ listed q (Memᴰ.tail m) h t (ground (arith, e, a))
        | unlisted b ↦ unlisted (ground (arith, e, b))
      ]
    ]

abbrev Decides : String → String → RouteAuth → Type 0
Decides method pathname r =
    str_eq r.method method ≡ true
    → test (path_to_regex r.path) pathname ≡ true
    → (r.auth ≡ bearer) ⊎ IsOpen method pathname

same_text : (s t : String) → str_eq s t ≡ true → t ≡ s
same_text s t h = ground (arith, eq_iff s t)

table-Decides : (method pathname : String) → All (Decides method pathname) route_auth
unfolding path_to_regex letters starts_name is_name_start drop_name
table-Decides method pathname = (
  λ h t. inr (to_health (same_text "GET" method h) (test-letters "/health" pathname t)),
  (
    λ h t. inr (to_identity (same_text "GET" method h) (test-letters "/v1/identity" pathname t)),
    (
      λ h t. inl refl,
      (
        λ h t. inl refl,
        (
          λ h t. inl refl,
          (
            λ h t. inl refl,
            (
              λ h t. inr (
                  to_call (same_text "POST" method h)
                    (test-letters "/v1/federation/call" pathname t)),
              (λ h t. inl refl, (λ h t. inl refl, (λ h t. inl refl, tt))),
            ),
          ),
        ),
      ),
    ),
  ),
)

-- A request needs the token unless it goes to one of the three.
lookup_auth-bearer :
    (method pathname : String)
    → (lookup_auth_strategy method pathname route_auth ≡ bearer) ⊎ IsOpen method pathname
lookup_auth-bearer method pathname = elim (lookup_auth-Found method pathname route_auth) [
  | unlisted b ↦ inl b
  | listed r m h t a ↦
      elim (All-Memᴰ (Decides method pathname) (table-Decides method pathname) m h t) [
        | inl b ↦ inl (a ∙ b)
        | inr free ↦ inr free
      ]
]

check_bearer-token :
    (token : String) (auth : Option String) → check_bearer token auth ≡ true → HasToken token auth
unfolding check_bearer
check_bearer-token token none h = cc
check_bearer-token token (some auth) h =
    (auth, refl, ground arith, ground (arith, eq_iff (drop_chars 7 auth) token))

not_empty : (s : String) → s ≢ "" → str_eq s "" ≡ false
not_empty s h = ground (arith, eq_iff s "")

pub check_auth-token :
    (token method pathname : String) (auth : Option String)
    → token ≢ ""
    → check_auth (some token) method pathname auth ≡ true
    → HasToken token auth ⊎ IsOpen method pathname
unfolding check_auth check_strategy
check_auth-token token method pathname auth set h =
    let checked : check_strategy (lookup_auth_strategy method pathname route_auth) token auth
        ≡ true =
      rw (not_empty token set) at h in
    elim (lookup_auth-bearer method pathname) [
      | inl b ↦ inl (check_bearer-token token auth (rw b at checked))
      | inr free ↦ inr free
    ]
