-- ===== src/Http/Guarded.antt =====
-- `handleRequest`: what a request has passed when it reaches a handler.
use pdatahub.Http.Auth.{check_auth}
use pdatahub.Http.Routes.{Endpoint, handlers, dispatch, match_shape, decoded}
use pdatahub.RateLimit.{RateLimiter, Verdict, allowed, denied, consume}
use pdatahub.RateLimit.Route.{route_class_for, client_ip}
use pdatahub.Http.Handle.{
  Request, Context, routed, reply_of, route_request, limit_request, guard_request, handle_request,
}
use pdatahub.Http.Paths.{capture, strip_prefix, span_segment}
use pdatahub.Http.Token.{HasToken, IsOpen, to_health, to_identity, to_call, check_auth-token}
use pdatahub.Prelude.{
  String, some, true, false, inl, inr, refl, Bool, ◌≡◌, arith, ok, ◌⊎◌, ◌≢◌, ℕ, Result,
}

-- The endpoints that need no token.
unfoldable pub is_public : Endpoint → Bool
is_public Endpoint.health = true
is_public Endpoint.get_identity = true
is_public Endpoint.federation_call = true
is_public other = false

module _ (decode : String → Result String) where
  health_chosen :
      {e : Endpoint} → dispatch decode "GET" "/health" handlers ≡ some (ok e) → is_public e ≡ true
  unfolding is_public dispatch match_shape capture strip_prefix span_segment decoded
  health_chosen h = ground arith

  identity_chosen :
      {e : Endpoint}
      → dispatch decode "GET" "/v1/identity" handlers ≡ some (ok e)
      → is_public e ≡ true
  unfolding is_public dispatch match_shape capture strip_prefix span_segment decoded
  identity_chosen h = ground arith

  call_chosen :
      {e : Endpoint}
      → dispatch decode "POST" "/v1/federation/call" handlers ≡ some (ok e)
      → is_public e ≡ true
  unfolding is_public dispatch match_shape capture strip_prefix span_segment decoded
  call_chosen h = ground arith

  free-IsPublic :
      (method pathname : String) {e : Endpoint}
      → IsOpen method pathname
      → dispatch decode method pathname handlers ≡ some (ok e)
      → is_public e ≡ true
  free-IsPublic method pathname (to_health m p) h = health_chosen (rw (m, p) at h)
  free-IsPublic method pathname (to_identity m p) h = identity_chosen (rw (m, p) at h)
  free-IsPublic method pathname (to_call m p) h = call_chosen (rw (m, p) at h)

-- What a request that reaches an endpoint has passed: it carries the token or the endpoint is one of the
-- three that need none, the rate limiter lets it through, and its method and path are the endpoint's.
pub record IsGuarded (ctx : Context) (r : Request) (now : ℕ) (rl : RateLimiter) (token : String)
    (e : Endpoint) : Type 0 where
  pub checked : (is_public e ≡ true) ⊎ HasToken token r.authorization
  pub left : ℕ
  pub let_through :
      (consume
        (client_ip r.forwarded_for r.remote_address)
        (route_class_for r.method r.pathname)
        now
        rl).1
      ≡ allowed left
  pub chosen : dispatch ctx.decode r.method r.pathname handlers ≡ some (ok e)

Verdict-cases : (v : Verdict) → ((n : ℕ) × (v ≡ allowed n)) ⊎ ((w : ℕ) × (v ≡ denied w))
Verdict-cases (allowed n) = inl (n, refl)
Verdict-cases (denied w) = inr (w, refl)

module _ (ctx : Context) (r : Request) where
  handle_request-guard :
      (now : ℕ) (rl : RateLimiter) {e : Endpoint}
      → (handle_request ctx r now rl).0 ≡ routed e
      → (guard_request ctx r now rl).0 ≡ routed e
  unfolding handle_request
  handle_request-guard now rl h = ground arith

  guard_request-limit :
      (now : ℕ) (rl : RateLimiter) {e : Endpoint}
      → (guard_request ctx r now rl).0 ≡ routed e
      → (check_auth ctx.api_token r.method r.pathname r.authorization ≡ true)
        × ((limit_request ctx r now rl).0 ≡ routed e)
  unfolding guard_request
  guard_request-limit now rl h = (ground arith, ground arith)

  limit_request-allowed :
      (now : ℕ) (rl : RateLimiter) {e : Endpoint}
      → (limit_request ctx r now rl).0 ≡ routed e
      → (left : ℕ) × ((consume
            (client_ip r.forwarded_for r.remote_address)
            (route_class_for r.method r.pathname)
            now
            rl).1
          ≡ allowed left)
        × (route_request ctx r ≡ routed e)
  unfolding limit_request
  limit_request-allowed now rl h =
      let verdict =
        (consume (client_ip r.forwarded_for r.remote_address) (route_class_for r.method r.pathname)
          now rl).1 in
      elim (Verdict-cases verdict) [
        | inl (n, a) ↦ (n, a, ground (arith, a))
        | inr (w, d) ↦ absurd (ground (arith, d))
      ]

  route_request-chosen :
      {e : Endpoint}
      → route_request ctx r ≡ routed e
      → dispatch ctx.decode r.method r.pathname handlers ≡ some (ok e)
  unfolding route_request reply_of
  route_request-chosen {e} h = ground arith

  -- With a token set, a request reaches a handler only if the rate limiter lets it through and it carries
  -- the token in its header, or the handler is that of the health check, of the hub's identity or of
  -- federation calls.
  pub handle_request-IsGuarded :
      (token : String) (now : ℕ) (rl : RateLimiter) (e : Endpoint)
      → ctx.api_token ≡ some token
      → token ≢ ""
      → (handle_request ctx r now rl).0 ≡ routed e
      → IsGuarded ctx r now rl token e
  handle_request-IsGuarded token now rl e set filled h =
      let (passed, limited) = guard_request-limit now rl (handle_request-guard now rl h) in
      let (left, through, reached) = limit_request-allowed now rl limited in
      let chosen = route_request-chosen reached in
      record {
        checked =
            elim (check_auth-token token r.method r.pathname r.authorization filled
              (rw set at passed)) [
                | inl t ↦ inr t
                | inr free ↦ inl (free-IsPublic ctx.decode r.method r.pathname free chosen)
              ];
        left = left;
        let_through = through;
        chosen = chosen;
      }
