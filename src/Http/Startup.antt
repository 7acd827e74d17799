-- ===== src/Http/Startup.antt =====
-- packages/hub-core/src/startup.ts: the test of the token before the hub listens, and what it gives for every
-- request that the hub then handles.
use pdatahub.Prelude.{
  String, none, some, false, refl, ok, err, Bool, Option, ℕ, str_eq, not, Result, ◌≡◌, ◌||◌,
  if◌then◌else◌, ◌≢◌, arith, eq_iff,
}
use pdatahub.RateLimit.{RateLimiter}
use pdatahub.Http.Routes.{Endpoint}
use pdatahub.Http.Handle.{Request, Context, routed, handle_request}
use pdatahub.Http.Guarded.{IsGuarded, handle_request-IsGuarded}

-- `LOOPBACK_HOSTS` and `isLoopbackHost`
unfoldable pub is_loopback_host : String → Bool
is_loopback_host host = str_eq host "127.0.0.1" || str_eq host "::1" || str_eq host "localhost"

unfoldable pub has_token : Option String → Bool
has_token none = false
has_token (some token) = not (str_eq token "")

-- `checkHubApiTokenRequirement`, whose exception ends the start.
unfoldable pub check_hub_api_token_requirement : String → Option String → Result {0} Unit
check_hub_api_token_requirement host api_token =
    if has_token api_token
    then ok tt
    else if is_loopback_host host
    then ok tt
    else err "HUB_API_TOKEN must be set when binding to a non-loopback interface."

requirement-token :
    (host : String) (api_token : Option String)
    → is_loopback_host host ≡ false
    → check_hub_api_token_requirement host api_token ≡ ok tt
    → (token : String) × (api_token ≡ some token) × (token ≢ "")
unfolding check_hub_api_token_requirement has_token
requirement-token host none remote h = absurd (ground (arith, remote, h))
requirement-token host (some token) remote h =
    let filled : str_eq token "" ≡ false = ground (arith, remote, h) in
    (token, refl, λ e. ground (arith, filled, e, eq_iff token ""))

-- A hub that has started on a host that is no loopback address has a token, and each request that it sends to
-- a handler carries that token or has one of the three endpoints that need none, and the rate limiter lets it
-- through.
pub started-IsGuarded :
    (host : String) (ctx : Context) (r : Request) (now : ℕ) (rl : RateLimiter) (e : Endpoint)
    → is_loopback_host host ≡ false
    → check_hub_api_token_requirement host ctx.api_token ≡ ok tt
    → (handle_request ctx r now rl).0 ≡ routed e
    → (token : String) × (ctx.api_token ≡ some token) × IsGuarded ctx r now rl token e
started-IsGuarded host ctx r now rl e remote starts h =
    let (token, set, filled) = requirement-token host ctx.api_token remote starts in
    (token, set, handle_request-IsGuarded ctx r token now rl e set filled h)
