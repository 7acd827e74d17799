-- ===== src/Sdk/Client/Tests.antt =====
-- Requests of the client, and the witnesses of its theorems, for a library on fixed texts.
use pdatahub.Prelude.{
  ◌∷◌, [], none, some, true, refl, if◌then◌else◌, insert, ◌≡◌, lookup, str_eq, length, ◌==◌,
}
use pdatahub.Http.Paths.{includes}
use pdatahub.Sdk.Client.{
  Library, Client, Options, answered, throws_other, BodyFields, object, request, sent_of,
  headers_of, build_url, given, or_empty, with_defaults, with_token, with_content_type,
  with_headers, receive, read_body, map_upstream_error, auth_expired, says_expired, is_expired_text,
  is_given, expires_at_of,
}
use pdatahub.Sdk.Client.Token.{request-carries}
use pdatahub.Sdk.Client.Errors.{asks_again, is_expiry, request-asks}

abbrev expired_body : BodyFields
expired_body = record {
  error = some "token expired";
  expires_at = none;
  retry_after = none;
  retry_after_camel = none;
  json = "expired";
  shown = "[object Object]";
}

abbrev library : Library
library = record {
  to_lower_case = λ s. if str_eq s "Authorization" then "authorization" else s;
  parse_json = λ s.
      if str_eq s "expired"
      then some (object expired_body)
      else if str_eq s "soon"
      then some (object (record expired_body { expires_at = some "soon" }))
      else none;
  to_iso_string = λ s. none;
  to_query = λ ps. if length ps == 0 then "" else "q=1";
  show = λ n. "n";
  details = λ code. none;
}

abbrev client : Client
client = record {
  token = "secret";
  base_url = some "https://api";
  default_headers = ("Authorization", "Basic x") ∷ [];
  timeout_ms = none;
}

abbrev options : Options
options = record {
  params = ("q", some "1") ∷ ("r", none) ∷ [];
  headers = ("Authorization", "y") ∷ [];
  body = some "b";
}

sent_headers : sent_of library client "POST" "/mail" options ≡ record {
  url = "https://api/mail?q=1";
  method = "POST";
  headers = ("authorization", "Bearer secret") ∷ ("content-type", "application/json") ∷ [];
  body = some "b";
  timeout = 30000;
}
unfolding sent_of headers_of build_url given or_empty with_defaults with_token with_content_type
    with_headers includes insert lookup
sent_headers = refl

-- A date that is none makes the mapping of the error throw another error.
bad_date :
    (request library (λ s. answered 401 "soon") client "GET" "/mail" options).1
    ≡ throws_other "RangeError"
unfolding request receive read_body map_upstream_error says_expired is_expired_text is_given
    expires_at_of auth_expired includes
bad_date = refl

request-carries_example :
    lookup "authorization"
      (request library (λ s. answered 200 "") client "GET" "/mail" options).0.headers
    ≡ some "Bearer secret"
request-carries_example =
    request-carries library (λ s. answered 200 "") client "GET" "/mail" options refl

request-asks_example :
    asks_again "gmail"
      (request library (λ s. answered 401 "expired") client "GET" "/mail" options).1
    ≡ is_expiry library (answered 401 "expired")
request-asks_example =
    request-asks library (λ s. answered 401 "expired") client "GET" "/mail" options "gmail"

expired_asks : is_expiry library (answered 401 "expired") ≡ true
unfolding read_body says_expired is_expired_text is_given expires_at_of includes
expired_asks = refl
