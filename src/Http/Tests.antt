-- ===== src/Http/Tests.antt =====
-- packages/hub-core/src/server.ts and packages/hub-core/src/static.ts: tests, and the theorems at concrete
-- requests.
use pdatahub.Delegations.Blob.{drop_chars}
use pdatahub.RateLimit.{RateLimiter, consume, draw, refill, bucket_at, full, bucket_key}
use pdatahub.RateLimit.Route.{route_class_for, client_ip}
use pdatahub.Http.Paths.{includes, ends_with, capture, strip_prefix, span_segment}
use pdatahub.Http.Static.{
  FileSystem, File, StaticReply, served, is_api_path, resolve_safe_path, is_spa_route, serve_target,
  serve_static, send_file, get_mime_type, extension, cache_control_for,
}
use pdatahub.Http.Auth.{
  path_to_regex, test, lookup_auth_strategy, starts_name, is_name_start, is_name_part, drop_name,
  check_bearer, check_strategy, check_auth,
}
use pdatahub.Http.Routes.{Endpoint, handlers, dispatch, match_shape, decoded}
use pdatahub.Http.Handle.{
  Request, Context, Reply, routed, reply_of, route_request, limit_request, guard_request, static_of,
  handle_request,
}
use pdatahub.Http.Guarded.{IsGuarded, handle_request-IsGuarded}
use pdatahub.Http.Startup.{
  is_loopback_host, has_token, check_hub_api_token_requirement, started-IsGuarded,
}
use pdatahub.Http.Inside.{IsInside, serve_static-IsInside}
use pdatahub.Prelude.{
  String, err, [], none, some, true, false, refl, ok, ◌∷◌, ◌≡◌, ◌≢◌, lookup, str_eq, arith, eq_iff,
}

abbrev files : FileSystem
files = record {
  resolve_root = λ root. root;
  resolve = λ root path. "/web/app.js";
  join = λ root name. "/web/index.html";
  sep = "/";
  exists = λ path. true;
  is_file = λ path. true;
  read = λ path. 60 ∷ [];
  lower_case = λ s. s;
}

abbrev context : Context
context = record {
  api_token = some "secret";
  web_root = some "/web";
  files = files;
  decode = λ s. ok s;
}

abbrev limiter : RateLimiter
limiter = record {
  buckets = [];
  config = record { per_minute = 60; burst_capacity = 60 };
  ttl_ms = 300000;
}

abbrev call : Request
call = record {
  method = "POST";
  pathname = "/v1/tools/search/call";
  authorization = some "Bearer secret";
  forwarded_for = none;
  remote_address = some "127.0.0.1";
}

call_routed : (handle_request context call 5 limiter).0 ≡ routed (Endpoint.call_tool "search")
unfolding handle_request static_of is_api_path guard_request check_auth check_strategy check_bearer
    lookup_auth_strategy path_to_regex test starts_name is_name_start is_name_part drop_name
    drop_chars limit_request consume draw refill bucket_at full bucket_key client_ip route_class_for
    route_request reply_of dispatch match_shape capture strip_prefix span_segment decoded lookup
call_routed = refl

differ : (s t : String) → str_eq s t ≡ false → s ≢ t
differ s t h e = ground (arith, eq_iff s t)

handle_request-IsGuarded_example :
    IsGuarded context call 5 limiter "secret" (Endpoint.call_tool "search")
handle_request-IsGuarded_example =
    handle_request-IsGuarded context call "secret" 5 limiter (Endpoint.call_tool "search") refl
      (differ "secret" "" refl) call_routed

remote_host : is_loopback_host "100.64.0.1" ≡ false
unfolding is_loopback_host
remote_host = refl

token_given : check_hub_api_token_requirement "100.64.0.1" context.api_token ≡ ok tt
unfolding check_hub_api_token_requirement has_token is_loopback_host
token_given = refl

started-IsGuarded_example :
    (token : String) × (context.api_token ≡ some token)
    × IsGuarded context call 5 limiter token (Endpoint.call_tool "search")
started-IsGuarded_example =
    started-IsGuarded "100.64.0.1" context call 5 limiter (Endpoint.call_tool "search") remote_host
      token_given call_routed

-- Without a token the hub does not start on such a host.
refused_start :
    check_hub_api_token_requirement "100.64.0.1" none
    ≡ err "HUB_API_TOKEN must be set when binding to a non-loopback interface."
unfolding check_hub_api_token_requirement is_loopback_host has_token
refused_start = refl

abbrev wrong : Request
wrong = record call { authorization = some "Bearer secre" }

wrong_refused : (handle_request context wrong 5 limiter).0 ≡ Reply.unauthorized
unfolding handle_request static_of is_api_path guard_request check_auth check_strategy check_bearer
    lookup_auth_strategy path_to_regex test starts_name is_name_start is_name_part drop_name
    drop_chars
wrong_refused = refl

-- The path of a tool's call is one segment.
longer_path : test (path_to_regex "/v1/tools/:name/call") "/v1/tools/a/b/call" ≡ false
unfolding path_to_regex test starts_name is_name_start is_name_part drop_name
longer_path = refl

abbrev script : File
script = record {
  target = "/web/app.js";
  content_type = "text/javascript; charset=utf-8";
  cache_control = "public, max-age=3600, must-revalidate";
  content = 60 ∷ [];
}

script_served : serve_static files "/web" "/app.js" ≡ served script
unfolding serve_static is_api_path resolve_safe_path includes is_spa_route serve_target send_file
    get_mime_type extension cache_control_for ends_with lookup
script_served = refl

serve_static-IsInside_example : IsInside files "/web" "/app.js" script
serve_static-IsInside_example = serve_static-IsInside files "/web" "/app.js" script script_served

parent_refused : serve_static files "/web" "/../app.js" ≡ StaticReply.rejected 403
unfolding serve_static is_api_path resolve_safe_path includes
parent_refused = refl

call_dispatched :
    dispatch context.decode "POST" "/v1/tools/search/call" handlers
    ≡ some (ok (Endpoint.call_tool "search"))
unfolding dispatch match_shape capture strip_prefix span_segment decoded
call_dispatched = refl
