-- ===== src/Sdk/Client/Token.antt =====
-- http-client.ts: every request carries the token of the vault.
use pdatahub.Prelude.{
  String, ◌∷◌, [], none, some, false, inl, inr, refl, Option, List, str_eq, Dict, ◌≡◌, lookup,
  lookup-insert, Bool-cases, str_append, insert, ◌∙◌, ap,
}
use pdatahub.Sdk.Client.{
  Library, Client, Options, Sent, Reply, request, sent_of, headers_of, with_defaults, with_token,
  with_content_type, with_headers,
}

with_content_type-other :
    (body : Option String) (hs : Dict String)
    → lookup "authorization" (with_content_type body hs) ≡ lookup "authorization" hs
unfolding with_content_type
with_content_type-other none hs = refl
with_content_type-other (some b) hs =
    lookup-insert "content-type" "authorization"
      (elim (lookup "content-type" hs) [ some v ↦ v | none ↦ "application/json" ]) hs

with_headers-other :
    (lower : String → String) (os : List (String × String)) (hs : Dict String)
    → lookup "authorization" (with_headers lower os hs) ≡ lookup "authorization" hs
unfolding with_headers
with_headers-other lower [] hs = refl
with_headers-other lower ((k, v) ∷ more) hs = elim (Bool-cases (str_eq (lower k) "authorization")) [
  | inl e ↦ rw e (with_headers-other lower more hs)
  | inr e ↦ rw e (
      with_headers-other lower more (insert (lower k) v hs)
      ∙ lookup-insert (lower k) "authorization" v hs
      ∙ rw e refl)
]

-- If the context has a token, then the request that a plugin makes carries it in its header `authorization`,
-- whatever headers the client and the call have.
pub request-carries :
    (library : Library) (request_fn : Sent → Reply) (c : Client) (method path : String)
    (o : Options)
    → str_eq c.token "" ≡ false
    → lookup "authorization" (request library request_fn c method path o).0.headers
      ≡ some (str_append "Bearer " c.token)
unfolding request sent_of headers_of with_token
request-carries library request_fn c method path o set =
    let defaults = with_defaults library.to_lower_case c.default_headers [] in
    let authorized : with_token c.token defaults
        ≡ insert "authorization" (str_append "Bearer " c.token) defaults =
      rw (set, with_token) refl in
    with_headers-other library.to_lower_case o.headers
      (with_content_type o.body (with_token c.token defaults))
    ∙ with_content_type-other o.body (with_token c.token defaults)
    ∙ ap (lookup "authorization") authorized
    ∙ lookup-insert "authorization" "authorization" (str_append "Bearer " c.token) defaults
