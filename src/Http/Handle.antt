-- ===== src/Http/Handle.antt =====
-- packages/hub-core/src/server.ts, `handleRequest`: what a request passes before its handler. The URL is
-- given as its `pathname`, and CORS headers are left out.
use pdatahub.Http.Static.{FileSystem, StaticReply, serve_static, is_api_path}
use pdatahub.Http.Auth.{check_auth}
use pdatahub.Http.Routes.{Endpoint, handlers, dispatch}
use pdatahub.RateLimit.{RateLimiter, allowed, denied, consume, ceil_div}
use pdatahub.RateLimit.Route.{route_class_for, client_ip}
use pdatahub.Prelude.{String, none, some, ok, err, Option, ℕ, if◌then◌else◌, Result, str_eq, ◌||◌}

-- A request: its method, its path, and the header fields and the address that are read.
pub record Request : Type 0 where
  pub method : String
  pub pathname : String
  pub authorization : Option String
  pub forwarded_for : Option String
  pub remote_address : Option String

-- The configuration, the files, and `decodeURIComponent`.
pub record Context : Type 0 where
  pub api_token : Option String
  pub web_root : Option String
  pub files : FileSystem
  pub decode : String → Result String

-- The answer, or the handler that gives it.
pub data Reply : Type 0 where
  preflight : Reply
  static_reply : StaticReply → Reply
  unauthorized : Reply
  rate_limited : ℕ → Reply
  not_found : Reply
  routed : Endpoint → Reply
  sanitized : String → Reply

unfoldable pub reply_of : Option (Result Endpoint) → Reply
reply_of none = not_found
reply_of (some (ok e)) = routed e
reply_of (some (err e)) = sanitized e

module _ (ctx : Context) where
  -- The dispatch behind the rate limit.
  unfoldable pub route_request : Request → Reply
  route_request r = reply_of (dispatch ctx.decode r.method r.pathname handlers)

  unfoldable pub limit_request : Request → ℕ → RateLimiter → Reply × RateLimiter
  limit_request r now rl =
      let key = client_ip r.forwarded_for r.remote_address in
      let (left, verdict) = consume key (route_class_for r.method r.pathname) now rl in
      elim verdict [
        | allowed n ↦ (route_request r, left)
        | denied wait ↦ (rate_limited (ceil_div wait 1000), left)
      ]

  unfoldable pub guard_request : Request → ℕ → RateLimiter → Reply × RateLimiter
  guard_request r now rl =
      if check_auth ctx.api_token r.method r.pathname r.authorization
      then limit_request r now rl
      else (unauthorized, rl)

  -- `webRoot`, where it is set and the path is not the API's.
  unfoldable pub static_of : Request → StaticReply
  static_of r = elim ctx.web_root [
    | none ↦ StaticReply.passed_on
    | some root ↦
        if str_eq root "" || is_api_path r.pathname
        then StaticReply.passed_on
        else serve_static ctx.files root r.pathname
  ]

  -- `handleRequest`
  unfoldable pub handle_request : Request → ℕ → RateLimiter → Reply × RateLimiter
  handle_request r now rl =
      if str_eq r.method "OPTIONS" then (preflight, rl) else elim (static_of r) [
        | StaticReply.passed_on ↦ guard_request r now rl
        | StaticReply.rejected status ↦ (static_reply (StaticReply.rejected status), rl)
        | StaticReply.served file ↦ (static_reply (StaticReply.served file), rl)
      ]
