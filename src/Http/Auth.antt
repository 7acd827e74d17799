-- ===== src/Http/Auth.antt =====
-- packages/hub-core/src/server.ts, `routeAuth` and `checkAuth`: which requests need the token.
use Prim.Native.Char.{code, Char}
use pdatahub.Delegations.Blob.{drop_chars}
use pdatahub.Prelude.{
  String, [], none, some, true, false, List, ℕ, Bool, Option, ◌∷◌, leb, ◌||◌, if◌then◌else◌, str_eq,
  ◌&&◌, ◌==◌, starts_with, not,
}

pub data AuthStrategy : Type 0 where
  public : AuthStrategy
  bearer : AuthStrategy
  ed25519 : AuthStrategy

pub record RouteAuth : Type 0 where
  pub method : String
  pub path : String
  pub auth : AuthStrategy

abbrev route : String → String → AuthStrategy → RouteAuth
route method path auth = record { method = method; path = path; auth = auth }

abbrev pub route_auth : List RouteAuth
route_auth =
    route "GET" "/health" public
    ∷ route "GET" "/v1/identity" public
    ∷ route "GET" "/v1/status" bearer
    ∷ route "GET" "/v1/tools" bearer
    ∷ route "POST" "/v1/tools/:name/call" bearer
    ∷ route "POST" "/v1/federation/invoke" bearer
    ∷ route "POST" "/v1/federation/call" ed25519
    ∷ route "POST" "/v1/federation/delegate" bearer
    ∷ route "GET" "/v1/federation/delegations" bearer
    ∷ route "POST" "/v1/federation/delegations/:id/revoke" bearer
    ∷ []

-- A piece of a path's regular expression: a character, or `([^/]+)`.
pub data Piece : Type 0 where
  letter : Char → Piece
  placeholder : Piece

unfoldable pub is_name_start : ℕ → Bool
is_name_start c = (leb b'A' c && leb c b'Z') || c == b'_' || (leb b'a' c && leb c b'z')

unfoldable pub is_name_part : ℕ → Bool
is_name_part c = is_name_start c || (leb b'0' c && leb c b'9')

unfoldable pub starts_name : String → Bool
starts_name String.[] = false
starts_name (String.◌∷◌ c s) = is_name_start (code c)

-- The letters of the placeholder's name.
unfoldable pub drop_name : List Piece → List Piece
drop_name [] = []
drop_name (placeholder ∷ ps) = placeholder ∷ ps
drop_name (letter c ∷ ps) =
    let rest = drop_name ps in if is_name_part (code c) then rest else letter c ∷ ps

-- `pathToRegex`
unfoldable pub path_to_regex : String → List Piece
path_to_regex String.[] = []
path_to_regex (String.◌∷◌ c s) =
    let rest = path_to_regex s in
    if code c == b':' && starts_name s then placeholder ∷ drop_name rest else letter c ∷ rest

-- `RegExp.test`: a placeholder matches one character or more, none of them a slash.
unfoldable pub test : List Piece → String → Bool
test [] s = str_eq s ""
test (letter c ∷ ps) String.[] = false
test (letter c ∷ ps) (String.◌∷◌ d s) = let rest = test ps s in code c == code d && rest
test (placeholder ∷ ps) String.[] = false
test (placeholder ∷ ps) (String.◌∷◌ d s) =
    let shortest = test ps s in
    let longer = test (placeholder ∷ ps) s in not (code d == b'/') && (shortest || longer)

-- `lookupAuthStrategy`
unfoldable pub lookup_auth_strategy : String → String → List RouteAuth → AuthStrategy
lookup_auth_strategy method pathname [] = bearer
lookup_auth_strategy method pathname (r ∷ table) =
    let rest = lookup_auth_strategy method pathname table in
    if str_eq r.method method && test (path_to_regex r.path) pathname then r.auth else rest

-- The comparison of the token in the header `authorization`.
unfoldable pub check_bearer : String → Option String → Bool
check_bearer expected none = false
check_bearer expected (some auth) =
    if starts_with auth "Bearer " then str_eq (drop_chars 7 auth) expected else false

unfoldable pub check_strategy : AuthStrategy → String → Option String → Bool
check_strategy public expected auth = true
check_strategy ed25519 expected auth = true
check_strategy bearer expected auth = check_bearer expected auth

-- `checkAuth`. An empty token is as none.
unfoldable pub check_auth : Option String → String → String → Option String → Bool
check_auth none method pathname auth = true
check_auth (some expected) method pathname auth =
    if str_eq expected ""
    then true
    else check_strategy (lookup_auth_strategy method pathname route_auth) expected auth
