-- ===== src/Http/Served.antt =====
-- `handleRequest`: no file of the web UI hides an endpoint.
use text.Mathlib.TextLemmas.{append_assoc}
use text.Mathlib.TextPositions.{starts_with-append}
use pdatahub.RateLimit.{RateLimiter}
use pdatahub.Http.Paths.{capture, capture-append}
use pdatahub.Http.Static.{StaticReply, is_api_path}
use pdatahub.Http.Routes.{
  Endpoint, Shape, exact, with_part, Handler, handlers, dispatch, match_shape,
}
use pdatahub.Http.Handle.{
  limit_request, route_request, guard_request, Request, Context, Reply, static_of, handle_request,
  guard_request,
}
use pdatahub.Prelude.{
  String, none, some, true, inl, inr, ◌≡◌, arith, str_append, sym, str_eq, ◌∙◌, eq_iff, [], refl,
  Option-cases, Result, All, ℕ, ap, List, ◌∷◌, if◌then◌else◌,
}

-- The paths of a test are the API's.
abbrev IsApiShape : Shape → Type 0
IsApiShape (exact path endpoint) = is_api_path path ≡ true
IsApiShape (with_part before after endpoint) = (rest : String) × (before ≡ str_append "/v1/" rest)

abbrev IsApiHandler : Handler → Type 0
IsApiHandler h = IsApiShape h.shape

prefix-IsApi : (s : String) → is_api_path (str_append "/v1/" s) ≡ true
unfolding is_api_path
prefix-IsApi s = ground (arith, starts_with-append "/v1/" s)

match_shape-IsApi :
    (decode : String → Result String) (shape : Shape) (pathname : String) {found : Result Endpoint}
    → IsApiShape shape
    → match_shape decode shape pathname ≡ some found
    → is_api_path pathname ≡ true
unfolding match_shape
match_shape-IsApi decode (exact path endpoint) pathname api h =
    let same : pathname ≡ path = (eq_iff pathname path).0 (ground arith) in rw same api
match_shape-IsApi decode (with_part before after endpoint) pathname (rest, b) h =
    elim (Option-cases (capture before after pathname)) [
      | inl e ↦ absurd (ground (arith, e))
      | inr (part, e) ↦
          let (behind, p) = capture-append before after pathname e in
          let same : pathname ≡ str_append "/v1/" (str_append rest behind) =
            p ∙ ap (λ s. str_append s behind) b ∙ append_assoc "/v1/" rest behind in
          rw same (prefix-IsApi (str_append rest behind))
    ]

dispatch-IsApi :
    (decode : String → Result String) (method pathname : String) (hs : List Handler)
    {found : Result Endpoint}
    → All IsApiHandler hs
    → dispatch decode method pathname hs ≡ some found
    → is_api_path pathname ≡ true
unfolding dispatch
dispatch-IsApi decode method pathname [] api h = cc
dispatch-IsApi decode method pathname (t ∷ hs) {found = found} (a, api) h =
    elim (Option-cases (match_shape decode t.shape pathname)) [
      | inl e ↦ dispatch-IsApi decode method pathname hs {found = found} api (ground (arith, e))
      | inr (x, e) ↦ match_shape-IsApi decode t.shape pathname a e
    ]

handlers-IsApi : All IsApiHandler handlers
unfolding is_api_path
handlers-IsApi = (
  refl,
  (
    ("tools/", refl),
    (
      refl,
      (
        refl,
        (
          ("grants/", refl),
          (
            refl,
            (
              refl,
              (
                ("plugins/", refl),
                (
                  ("plugins/", refl),
                  (
                    ("plugins/", refl),
                    (
                      ("plugins/", refl),
                      (
                        refl,
                        (
                          ("tokens/", refl),
                          (
                            refl,
                            (
                              refl,
                              (
                                refl,
                                (
                                  refl,
                                  (refl, (refl, (refl, (("federation/delegations/", refl), tt)))),
                                ),
                              ),
                            ),
                          ),
                        ),
                      ),
                    ),
                  ),
                ),
              ),
            ),
          ),
        ),
      ),
    ),
  ),
)

static_of-api :
    (ctx : Context) (r : Request)
    → is_api_path r.pathname ≡ true
    → static_of ctx r ≡ StaticReply.passed_on
unfolding static_of
static_of-api ctx r api = elim (Option-cases ctx.web_root) [
  | inl e ↦ ground (arith, e)
  | inr (root, e) ↦ ground (arith, e, api)
]

-- What is not the UI's passes the guards.
handle_request-passed :
    (ctx : Context) (r : Request) (now : ℕ) (rl : RateLimiter)
    → static_of ctx r ≡ StaticReply.passed_on
    → handle_request ctx r now rl
      ≡ (if str_eq r.method "OPTIONS" then (Reply.preflight, rl) else guard_request ctx r now rl)
unfolding handle_request
handle_request-passed ctx r now rl e = rw e refl

-- The guards do not read the setting.
guard_request-web_root :
    (ctx : Context) (r : Request) (now : ℕ) (rl : RateLimiter)
    → guard_request (record ctx { web_root = none }) r now rl ≡ guard_request ctx r now rl
unfolding guard_request limit_request route_request
guard_request-web_root ctx r now rl = refl

-- A request that has an endpoint is handled the same whether or not the hub has a web UI: no file of the
-- UI is sent in place of an endpoint.
pub handle_request-web_root :
    (ctx : Context) (r : Request) (now : ℕ) (rl : RateLimiter) (found : Result Endpoint)
    → dispatch ctx.decode r.method r.pathname handlers ≡ some found
    → handle_request ctx r now rl ≡ handle_request (record ctx { web_root = none }) r now rl
handle_request-web_root ctx r now rl found h =
    let api = dispatch-IsApi ctx.decode r.method r.pathname handlers handlers-IsApi h in
    let without : Context = record ctx { web_root = none } in
    handle_request-passed ctx r now rl (static_of-api ctx r api)
    ∙ ap (λ reply. if str_eq r.method "OPTIONS" then (Reply.preflight, rl) else reply)
        (sym (guard_request-web_root ctx r now rl))
    ∙ sym (handle_request-passed without r now rl (static_of-api without r api))
