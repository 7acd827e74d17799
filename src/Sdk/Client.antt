-- ===== src/Sdk/Client.antt =====
-- packages/plugin-sdk/src/http-client.ts: the client with which plugins call their services, with the errors of
-- packages/plugin-sdk/src/errors.ts that it throws.
pub mod Token
pub mod Errors
mod Tests
use pdatahub.Prelude.{
  String, ◌∷◌, none, some, true, false, Option, List, Dict, ℕ, Bool, ◌||◌, str_append, [], insert,
  if◌then◌else◌, str_eq, lookup, ◌==◌, starts_with, ltb, leb, length,
}
use pdatahub.Tools.{PluginError}
use pdatahub.Http.Paths.{includes}
use pdatahub.Delegations.Canonical.{Fields}

-- What `mapUpstreamError` reads of a body that is an object. `retry_after` and `retry_after_camel` are the
-- numbers of these fields in thousandths, rounded; `json` and `shown` are `JSON.stringify` and `String`.
pub record BodyFields : Type 0 where
  pub error : Option String
  pub expires_at : Option String
  pub retry_after : Option ℕ
  pub retry_after_camel : Option ℕ
  pub json : String
  pub shown : String

pub data Body : Type 0 where
  null_body : Body
  text : String → Body
  object : BodyFields → Body
  primitive : String → Body

-- `toLowerCase`, `JSON.parse` (`none` if it throws), `new Date(s).toISOString()` (`none` if it throws), the text
-- of `URLSearchParams` for the pairs, the decimal text of a number, and the details of an error with a code.
pub record Library : Type 0 where
  pub to_lower_case : String → String
  pub parse_json : String → Option Body
  pub to_iso_string : String → Option String
  pub to_query : List (String × String) → String
  pub show : ℕ → String
  pub details : String → Option Fields

-- `HttpClientOptions` and the token of `HttpContext`.
pub record Client : Type 0 where
  pub token : String
  pub base_url : Option String
  pub default_headers : List (String × String)
  pub timeout_ms : Option ℕ

-- `HttpRequestOptions`; a parameter without a value is undefined or null.
pub record Options : Type 0 where
  pub params : List (String × Option String)
  pub headers : List (String × String)
  pub body : Option String

-- What `requestFn` is called with.
pub record Sent : Type 0 where
  pub url : String
  pub method : String
  pub headers : Dict String
  pub body : Option String
  pub timeout : ℕ

-- How `requestFn` ends, and then the reading of the body: exceptions have a name and a message.
pub data Reply : Type 0 where
  answered : ℕ → String → Reply
  failed : String → String → Reply
  body_failed : String → String → Reply

-- How `request` ends.
pub data Fetched : Type 0 where
  data_of : ℕ → Body → Fetched
  throws : PluginError → Fetched
  throws_other : String → Fetched

unfoldable pub is_expired_text : Option String → Bool
is_expired_text none = false
is_expired_text (some s) = includes s "expired"

unfoldable pub is_given : Option String → Bool
is_given none = false
is_given (some s) = true

-- Whether the body says that the token is expired.
unfoldable pub says_expired : Body → Bool
says_expired (object b) = is_expired_text b.error || is_given b.expires_at
says_expired b = false

-- The date of the error; an empty one is none.
unfoldable pub expires_at_of : Body → Option String
expires_at_of (object b) = elim b.expires_at [
  | none ↦ none
  | some s ↦ if str_eq s "" then none else some s
]
expires_at_of b = none

unfoldable pub retry_after_of : Body → Option ℕ
retry_after_of (object b) = elim b.retry_after [ some n ↦ some n | none ↦ b.retry_after_camel ]
retry_after_of b = none

-- `bodyStr`
unfoldable pub body_text : Body → String
body_text null_body = ""
body_text (text s) = s
body_text (object b) = b.json
body_text (primitive s) = s

-- `String(body)`
unfoldable pub shown_text : Body → String
shown_text null_body = "null"
shown_text (text s) = s
shown_text (object b) = b.shown
shown_text (primitive s) = s

unfoldable pub rate_limit_text : (ℕ → String) → Option ℕ → String
rate_limit_text show none = "Rate limited"
rate_limit_text show (some ms) = str_append "Rate limited; retry after " (str_append (show ms) "ms")

unfoldable pub with_defaults :
    (String → String) → List (String × String) → Dict String → Dict String
with_defaults lower [] hs = hs
with_defaults lower ((k, v) ∷ more) hs = with_defaults lower more (insert (lower k) v hs)

unfoldable pub with_token : String → Dict String → Dict String
with_token token hs =
    if str_eq token "" then hs else insert "authorization" (str_append "Bearer " token) hs

unfoldable pub with_content_type : Option String → Dict String → Dict String
with_content_type none hs = hs
with_content_type (some body) hs =
    insert "content-type"
      (elim (lookup "content-type" hs) [ some v ↦ v | none ↦ "application/json" ]) hs

-- The headers of one request, of which `authorization` is skipped.
unfoldable pub with_headers : (String → String) → List (String × String) → Dict String → Dict String
with_headers lower [] hs = hs
with_headers lower ((k, v) ∷ more) hs =
    with_headers lower more (if str_eq (lower k) "authorization" then hs else insert (lower k) v hs)

unfoldable pub given : List (String × Option String) → List (String × String)
given [] = []
given ((k, none) ∷ more) = given more
given ((k, some v) ∷ more) = (k, v) ∷ given more

unfoldable pub or_empty : Option String → String
or_empty none = ""
or_empty (some s) = s

unfoldable pub is_timeout_error : String → Bool
is_timeout_error name =
    str_eq name "HeadersTimeoutError"
    || str_eq name "BodyTimeoutError"
    || str_eq name "SocketTimeoutError"

module _ (library : Library) where
  -- The error of a class of errors.ts.
  unfoldable pub plugin_error : String → String → String → Bool → PluginError
  plugin_error name code message retryable = record {
    name = name;
    code = code;
    message = message;
    retryable = retryable;
    details = library.details code;
  }

  -- `new AuthExpiredError(…)`, whose constructor writes the date as ISO text.
  unfoldable pub auth_expired : Option String → Fetched
  auth_expired none =
      throws (plugin_error "AuthExpiredError" "AUTH_EXPIRED" "Authentication expired" true)
  auth_expired (some at) = elim (library.to_iso_string at) [
    | none ↦ throws_other "RangeError"
    | some iso ↦
        throws (plugin_error "AuthExpiredError" "AUTH_EXPIRED" "Authentication expired" true)
  ]

  unfoldable pub status_text : String → ℕ → Body → String
  status_text before status body =
      str_append before (str_append (library.show status) (str_append ": " (body_text body)))

  -- `throw mapUpstreamError(…)`
  unfoldable pub map_upstream_error : ℕ → Body → Fetched
  map_upstream_error status body =
      if status == 401 || status == 403
      then (if says_expired body
          then auth_expired (expires_at_of body)
          else throws
              (plugin_error "AuthError" "AUTH_FAILED" (status_text "HTTP " status body) false))
      else if status == 404
      then throws (
          plugin_error "NotFoundError" "NOT_FOUND"
            (str_append "upstream \"" (str_append (shown_text body) "\" not found")) false)
      else if status == 429
      then throws (
          plugin_error "RateLimitError" "RATE_LIMITED"
            (rate_limit_text library.show (retry_after_of body)) true)
      else if leb 500 status
      then throws
          (plugin_error "PluginError" "UPSTREAM_ERROR" (status_text "Upstream " status body) true)
      else throws
          (plugin_error "PluginError" "CLIENT_ERROR" (status_text "HTTP " status body) false)

  -- `buildUrl`
  unfoldable pub build_url : Client → String → List (String × Option String) → String
  build_url c path params =
      let url = if starts_with path "http" then path else str_append (or_empty c.base_url) path in
      let query = library.to_query (given params) in
      if length params == 0 || str_eq query ""
      then url
      else str_append url (str_append (if includes url "?" then "&" else "?") query)

  -- The headers that `request` puts together.
  unfoldable pub headers_of : Client → Options → Dict String
  headers_of c o = with_headers library.to_lower_case o.headers (
      with_content_type o.body
        (with_token c.token (with_defaults library.to_lower_case c.default_headers [])))

  unfoldable pub sent_of : Client → String → String → Options → Sent
  sent_of c method path o = record {
    url = build_url c path o.params;
    method = method;
    headers = headers_of c o;
    body = o.body;
    timeout = elim c.timeout_ms [ none ↦ 30000 | some ms ↦ ms ];
  }

  unfoldable pub read_body : String → Body
  read_body s =
      if str_eq s "" then null_body else elim (library.parse_json s) [ none ↦ text s | some b ↦ b ]

  -- What `request` does with the end of `requestFn`; the text of an exception of the body is not changed.
  unfoldable pub receive : String → String → ℕ → Reply → Fetched
  receive method path timeout (answered status s) =
      if ltb status 200 || leb 300 status
      then map_upstream_error status (read_body s)
      else data_of status (read_body s)
  receive method path timeout (failed name message) =
      if is_timeout_error name
      then throws (
          plugin_error "TimeoutError" "TIMEOUT"
            (str_append "Operation \"" (
              str_append method (
                str_append " " (
                  str_append path
                    (str_append "\" timed out after " (str_append (library.show timeout) "ms"))))))
            true)
      else throws (
          plugin_error "NetworkError" "NETWORK_ERROR"
            (str_append "Network failure during "
              (str_append method (str_append " " (str_append path (str_append ": " message)))))
            true)
  receive method path timeout (body_failed name message) = throws_other name

  -- `request`, under the function `requestFn`: what is sent, and how it ends.
  unfoldable pub request : (Sent → Reply) → Client → String → String → Options → Sent × Fetched
  request request_fn c method path o =
      let s = sent_of c method path o in (s, receive method path s.timeout (request_fn s))
