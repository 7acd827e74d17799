-- ===== src/Http/Routes.antt =====
-- packages/hub-core/src/server.ts, `handleRequest`: the tests of method and path that choose a handler.
use pdatahub.Http.Paths.{capture}
use pdatahub.Prelude.{
  String, [], none, some, ok, err, List, Result, ◌∷◌, Option, if◌then◌else◌, str_eq,
}

-- The handlers, with the part of the path that they get.
pub data Endpoint : Type 0 where
  list_tools : Endpoint
  call_tool : String → Endpoint
  audit : Endpoint
  list_grants : Endpoint
  revoke_grant : String → Endpoint
  list_plugins : Endpoint
  install_plugin : Endpoint
  authenticate_plugin : String → Endpoint
  oauth_status : String → Endpoint
  put_oauth_credentials : String → Endpoint
  start_oauth : String → Endpoint
  list_tokens : Endpoint
  delete_token : String → Endpoint
  health : Endpoint
  get_identity : Endpoint
  get_status : Endpoint
  federation_call : Endpoint
  federation_invoke : Endpoint
  create_delegation : Endpoint
  list_delegations : Endpoint
  revoke_delegation : String → Endpoint

-- The test of a path: it is one text, or a part between two texts is taken from it.
pub data Shape : Type 0 where
  exact : String → Endpoint → Shape
  with_part : String → String → (String → Endpoint) → Shape

pub record Handler : Type 0 where
  pub method : String
  pub shape : Shape

abbrev at : String → String → Endpoint → Handler
at method path endpoint = record { method = method; shape = exact path endpoint }

abbrev around : String → String → String → (String → Endpoint) → Handler
around method before after endpoint = record {
  method = method;
  shape = with_part before after endpoint;
}

-- The tests, in their order.
abbrev pub handlers : List Handler
handlers =
    at "GET" "/v1/tools" list_tools
    ∷ around "POST" "/v1/tools/" "/call" call_tool
    ∷ at "GET" "/v1/audit" audit
    ∷ at "GET" "/v1/grants" list_grants
    ∷ around "POST" "/v1/grants/" "/revoke" revoke_grant
    ∷ at "GET" "/v1/plugins" list_plugins
    ∷ at "POST" "/v1/plugins/install" install_plugin
    ∷ around "POST" "/v1/plugins/" "/authenticate" authenticate_plugin
    ∷ around "GET" "/v1/plugins/" "/oauth/status" oauth_status
    ∷ around "PUT" "/v1/plugins/" "/oauth/credentials" put_oauth_credentials
    ∷ around "POST" "/v1/plugins/" "/oauth/start" start_oauth
    ∷ at "GET" "/v1/tokens" list_tokens
    ∷ around "DELETE" "/v1/tokens/" "" delete_token
    ∷ at "GET" "/health" health
    ∷ at "GET" "/v1/identity" get_identity
    ∷ at "GET" "/v1/status" get_status
    ∷ at "POST" "/v1/federation/call" federation_call
    ∷ at "POST" "/v1/federation/invoke" federation_invoke
    ∷ at "POST" "/v1/federation/delegate" create_delegation
    ∷ at "GET" "/v1/federation/delegations" list_delegations
    ∷ around "POST" "/v1/federation/delegations/" "/revoke" revoke_delegation
    ∷ []

unfoldable pub decoded : (String → Endpoint) → Result String → Result Endpoint
decoded endpoint (ok part) = ok (endpoint part)
decoded endpoint (err e) = err e

-- `decodeURIComponent` throws on a malformed escape.
unfoldable pub match_shape : (String → Result String) → Shape → String → Option (Result Endpoint)
match_shape decode (exact path endpoint) pathname =
    if str_eq pathname path then some (ok endpoint) else none
match_shape decode (with_part before after endpoint) pathname =
    elim (capture before after pathname) [
      | none ↦ none
      | some part ↦ some (decoded endpoint (decode part))
    ]

-- The handler of a request, or `none` where the answer is 404.
unfoldable pub dispatch :
    (String → Result String) → String → String → List Handler → Option (Result Endpoint)
dispatch decode method pathname [] = none
dispatch decode method pathname (h ∷ hs) =
    let rest = dispatch decode method pathname hs in
    if str_eq h.method method
    then elim (match_shape decode h.shape pathname) [ none ↦ rest | some e ↦ some e ]
    else rest
