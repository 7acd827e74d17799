-- ===== src/RateLimit/Route.antt =====
-- rate-limit.ts: the route class of a request, and the client's address.
use pdatahub.Prelude.{
  none, some, String, ℕ, Option, if◌then◌else◌, Bool, str_eq, leb, ◌==◌, ◌||◌, ◌&&◌, starts_with,
}
use Prim.Native.Char.{code}

unfoldable pub route_class_for : String → String → String
route_class_for method pathname =
    if str_eq pathname "/v1/identity" || str_eq pathname "/health"
    then "public"
    else if str_eq pathname "/v1/federation/call"
    then "federation-inbound"
    else if starts_with pathname "/v1/tools/" && str_eq method "POST"
    then "tool-call"
    else if str_eq pathname "/v1/federation/invoke"
    then "federation-outbound"
    else if starts_with pathname "/v1/federation/"
    then "federation-mgmt"
    else if starts_with pathname "/v1/plugins/"
    then "plugin-mgmt"
    else if starts_with pathname "/v1/grants" || starts_with pathname "/v1/tokens"
    then "auth-mgmt"
    else if str_eq pathname "/v1/audit"
    then "audit-read"
    else "other"

-- What `String.prototype.trim` takes away: white space and line ends.
unfoldable pub is_space : ℕ → Bool
is_space c =
    (leb 9 c && leb c 13)
    || c == 32
    || c == 160
    || c == 0x1680
    || (leb 0x2000 c && leb c 0x200a)
    || c == 0x2028
    || c == 0x2029
    || c == 0x202f
    || c == 0x205f
    || c == 0x3000
    || c == 0xfeff

unfoldable pub trim_start : String → String
trim_start String.[] = String.[]
trim_start (String.◌∷◌ c s) =
    let rest = trim_start s in if is_space (code c) then rest else String.◌∷◌ c s

-- White space at the end: a character stays if it or something behind it is no white space.
unfoldable pub trim_end : String → String
trim_end String.[] = String.[]
trim_end (String.◌∷◌ c s) =
    let rest = trim_end s in if str_eq rest "" && is_space (code c) then "" else String.◌∷◌ c rest

unfoldable pub trim : String → String
trim s = trim_end (trim_start s)

-- `s.split(',')[0]`
unfoldable pub first_field : String → String
first_field String.[] = String.[]
first_field (String.◌∷◌ c s) =
    let rest = first_field s in if code c == b',' then String.[] else String.◌∷◌ c rest

-- The header's value, where it is a single string (`none` if absent or repeated), and the address
-- of the socket. An empty string is false in a JavaScript test.
unfoldable pub client_ip : Option String → Option String → String
client_ip forwarded remote =
    let direct : String = elim remote [ none ↦ "unknown" | some a ↦ a ] in
    elim forwarded [
      | none ↦ direct
      | some xff ↦ let first = trim (first_field xff) in if str_eq first "" then direct else first
    ]
