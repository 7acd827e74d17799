-- ===== src/Sdk/Client/Errors.antt =====
-- http-client.ts: which answers of a service are errors for which `buildPluginReauthNotification` asks the user to
-- authorize again.
use pdatahub.Prelude.{
  String, none, some, true, false, inl, inr, refl, Bool, ℕ, ◌≡◌, ◌==◌, Option-cases, Bool-cases,
  ◌||◌, ◌&&◌, Option, leb, ◌∙◌, ltb, arith, if◌then◌else◌, str_eq, ap,
}
use pdatahub.Tools.{build_plugin_reauth_notification}
use pdatahub.Http.Paths.{includes}
use pdatahub.Sdk.Client.{
  null_body, text, object, primitive, is_expired_text, is_given, Library, Client, Options, Sent,
  Reply, answered, failed, body_failed, Fetched, data_of, throws, throws_other, Body, request,
  sent_of, receive, read_body, map_upstream_error, auth_expired, plugin_error, says_expired,
  expires_at_of, is_timeout_error,
}

-- Whether there is a notification for what `request` throws.
abbrev pub asks_again : String → Fetched → Bool
asks_again plugin (data_of status b) = false
asks_again plugin (throws_other name) = false
asks_again plugin (throws e) = elim (build_plugin_reauth_notification e plugin) [
  | none ↦ false
  | some n ↦ true
]

-- The date, if there is one, can be written.
abbrev pub good_date : Library → Option String → Bool
good_date library none = true
good_date library (some at) = elim (library.to_iso_string at) [ none ↦ false | some iso ↦ true ]

-- What the body is: `null` if there is none, what `JSON.parse` gives, or the text.
abbrev pub body_of : Library → String → Body
body_of library s =
    if str_eq s "" then null_body else elim (library.parse_json s) [ none ↦ text s | some b ↦ b ]

-- An object whose field error is a text with `expired` in it.
abbrev pub has_expired_error : Body → Bool
has_expired_error (object b) = elim b.error [ none ↦ false | some e ↦ includes e "expired" ]
has_expired_error b = false

-- The field expires_at of an object.
abbrev pub expiry_field : Body → Option String
expiry_field (object b) = b.expires_at
expiry_field b = none

abbrev pub is_there : Option String → Bool
is_there none = false
is_there (some s) = true

-- No text, the empty text, or a date.
abbrev pub is_date : Library → Option String → Bool
is_date library none = true
is_date library (some s) =
    str_eq s "" || elim (library.to_iso_string s) [ none ↦ false | some iso ↦ true ]

abbrev pub is_token_expiry : Library → Body → Bool
is_token_expiry library b =
    (has_expired_error b || is_there (expiry_field b)) && is_date library (expiry_field b)

-- The answer says that the token is expired.
abbrev pub is_expiry : Library → Reply → Bool
is_expiry library (failed name message) = false
is_expiry library (body_failed name message) = false
is_expiry library (answered status s) =
    (status == 401 || status == 403) && is_token_expiry library (body_of library s)

is_token_expiry_lem :
    (library : Library) (b : Body)
    → (says_expired b && good_date library (expires_at_of b)) ≡ is_token_expiry library b
unfolding says_expired expires_at_of is_expired_text is_given
is_token_expiry_lem library null_body = refl
is_token_expiry_lem library (text s) = refl
is_token_expiry_lem library (primitive s) = refl
is_token_expiry_lem library (object b) = elim (Option-cases b.expires_at) [
  | inl e ↦ elim (Option-cases b.error) [ inl f ↦ rw (e, f) refl | inr (m, f) ↦ rw (e, f) refl ]
  | inr (at, e) ↦ elim (Bool-cases (str_eq at "")) [
    | inl empty ↦ elim (Option-cases b.error) [
      | inl f ↦ ground (arith, e, f, empty)
      | inr (m, f) ↦ ground (arith, e, f, empty)
    ]
    | inr full ↦ elim (Option-cases b.error) [
      | inl f ↦ ground (arith, e, f, full)
      | inr (m, f) ↦ ground (arith, e, f, full)
    ]
  ]
]

auth_expired-asks :
    (library : Library) (plugin : String) (at : Option String)
    → asks_again plugin (auth_expired library at) ≡ good_date library at
unfolding auth_expired plugin_error build_plugin_reauth_notification
auth_expired-asks library plugin none = refl
auth_expired-asks library plugin (some at) = elim (Option-cases (library.to_iso_string at)) [
  | inl f ↦ rw (f, asks_again, auth_expired, good_date) refl
  | inr (iso, f) ↦ rw (f, asks_again, auth_expired, good_date) refl
]

-- Other answers are other errors.
map_upstream_error-other :
    (library : Library) (plugin : String) (status : ℕ) (b : Body)
    → (status == 401 || status == 403) ≡ false
    → asks_again plugin (map_upstream_error library status b) ≡ false
unfolding map_upstream_error plugin_error build_plugin_reauth_notification
map_upstream_error-other library plugin status b e = elim (Bool-cases (status == 404)) [
  | inl f ↦ rw (e, f) refl
  | inr f ↦ elim (Bool-cases (status == 429)) [
    | inl g ↦ rw (e, f, g) refl
    | inr g ↦ elim (Bool-cases (leb 500 status)) [
      | inl h ↦ rw (e, f, g, h) refl
      | inr h ↦ rw (e, f, g, h) refl
    ]
  ]
]

map_upstream_error-asks :
    (library : Library) (plugin : String) (status : ℕ) (b : Body)
    → asks_again plugin (map_upstream_error library status b)
      ≡ ((status == 401 || status == 403) && says_expired b && good_date library (expires_at_of b))
unfolding map_upstream_error plugin_error build_plugin_reauth_notification
map_upstream_error-asks library plugin status b =
    elim (Bool-cases (status == 401 || status == 403)) [
      | inl e ↦ elim (Bool-cases (says_expired b)) [
        | inl f ↦ rw (e, f) (auth_expired-asks library plugin (expires_at_of b))
        | inr f ↦ rw (e, f) refl
      ]
      | inr e ↦ map_upstream_error-other library plugin status b e ∙ rw e refl
    ]

and-is_token_expiry :
    (library : Library) (a : Bool) (b : Body)
    → (a && says_expired b && good_date library (expires_at_of b))
      ≡ (a && is_token_expiry library b)
and-is_token_expiry library true b = is_token_expiry_lem library b
and-is_token_expiry library false b = refl

read_body-body_of : (library : Library) (s : String) → read_body library s ≡ body_of library s
unfolding read_body
read_body-body_of library s = refl

receive-asks :
    (library : Library) (plugin method path : String) (timeout : ℕ) (r : Reply)
    → asks_again plugin (receive library method path timeout r) ≡ is_expiry library r
unfolding receive plugin_error build_plugin_reauth_notification
receive-asks library plugin method path timeout (body_failed name message) = refl
receive-asks library plugin method path timeout (failed name message) =
    elim (Bool-cases (is_timeout_error name)) [ inl e ↦ rw e refl | inr e ↦ rw e refl ]
receive-asks library plugin method path timeout (answered status s) =
    elim (Bool-cases (ltb status 200 || leb 300 status)) [
      | inl e ↦ rw e (
          map_upstream_error-asks library plugin status (read_body library s)
          ∙ and-is_token_expiry library (status == 401 || status == 403) (read_body library s)
          ∙ ap (λ x. (status == 401 || status == 403) && is_token_expiry library x)
              (read_body-body_of library s))
      | inr e ↦
          let other : (status == 401 || status == 403) ≡ false = ground (arith, e) in
          rw (e, other) refl
    ]

-- For what a request throws, buildPluginReauthNotification gives a notification exactly if the service answered 401
-- or 403, the body is an object whose error says expired or that has an expires_at, and its expires_at, if there
-- and not empty, is a date.
pub request-asks :
    (library : Library) (request_fn : Sent → Reply) (c : Client) (method path : String)
    (o : Options) (plugin : String)
    → asks_again plugin (request library request_fn c method path o).1
      ≡ is_expiry library (request_fn (sent_of library c method path o))
unfolding request
request-asks library request_fn c method path o plugin =
    let s = sent_of library c method path o in
    receive-asks library plugin method path s.timeout (request_fn s)
