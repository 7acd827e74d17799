-- ===== src/Sdk/Plugin/Tests.antt =====
-- A plugin that runs, and the witnesses of the theorems about plugins.
use mathlib.Core.Option
use pdatahub.Delegations.Canonical.{Json, Items}
use pdatahub.Delegations.Canonical
use pdatahub.RateLimit.Route.{trim, trim_start, trim_end, is_space}
use pdatahub.Sdk.Manifest.{
  read_string_field, build_manifest, read_protocol_version, derive_capabilities, has_schema,
  has_overridden_lifecycle_method, PluginManifest, typed_errors, lifecycle_hooks, health_check,
}
use pdatahub.Sdk.Manifest
use pdatahub.Sdk.Transport.{
  Request, Parsed, malformed, value, reply, failure, take_lines, put_char, take_line, process_lines,
  process_line, process_value, handle_request, is_version_2, respond, ignore, conclude, finish,
  is_late, or_text, run_of, and_then, listen_from, listen,
}
use pdatahub.Sdk.Plugin.{
  Subclass, Library, success, apply_list, items_of, hook_named, hook_timeout, hook_failure,
  tool_failure, on_tool_result, call_method, handle_tool_call, run_hook, handle_lifecycle, dispatch,
  answer_of, handle, start, error_response,
}
use pdatahub.Sdk.Async.{fulfils, rejects, never, Instance, Async, delay, after, caught, in_time}
use pdatahub.Sdk.Plugin.Answers
use pdatahub.Prelude.{
  [], none, some, true, false, refl, List, String, ◌∷◌, ℕ, ◌≡◌, ◌+◌, Option, if◌then◌else◌, str_eq,
}

-- The tool `count` gives a text for no arguments and throws for others; no hook ends.
abbrev count : List Json → Async ℕ String
count [] i = (record i { own = i.own + 1 }, fulfils 5 "none")
count (a ∷ more) i = (
  i,
  rejects 5 (
      some (record {
        message = "expired";
        code = some "AUTH_EXPIRED";
        retryable = none;
        details = none;
      })),
)

abbrev methods : String → Option (List Json → Async ℕ String)
methods name = if str_eq name "count" then some count else none

abbrev fields : Manifest.Fields
fields = record {
  name = some "counter";
  version = some "1";
  description = none;
  protocol_version = some 2;
  tools = [];
  oauth = none;
  overridden = false ∷ true ∷ [];
}

abbrev counter : Subclass ℕ
counter = record {
  fields = fields;
  method = methods;
  on_start = λ i. (i, fulfils 1 tt);
  on_shutdown = λ i. (i, fulfils 1 tt);
  on_tool_result = none;
  hook = λ h. some (λ i. (i, never));
}

capabilities : derive_capabilities fields ≡ typed_errors ∷ lifecycle_hooks ∷ health_check ∷ []
unfolding derive_capabilities read_protocol_version has_schema has_overridden_lifecycle_method
capabilities = refl

-- The params `list` are those of a call with one text; every other text is read as an object.
abbrev arguments_in : String → Json
arguments_in s =
    if str_eq s "list"
    then Json.array (Items.cons (Json.string "a") Items.nil)
    else Json.object Canonical.Fields.end

abbrev library : Library
library = record {
  read_tool_call = λ s. record { name = "count"; arguments = some (arguments_in s); token = none };
  read_hook = λ s. some "health";
  array_like = λ fs. [];
  manifest_text = λ m. m.name;
  tools_text = λ ts. "";
  data_text = λ s. s;
  health_text = λ up calls last. "";
  now = 50;
  started_at = 0;
}

abbrev called : String → Request
called params = record {
  jsonrpc = some "2.0";
  id = some "1";
  method = "tools/call";
  params = params;
}

abbrev probed : Request
probed = record { jsonrpc = some "2.0"; id = some "2"; method = "plugin.lifecycle"; params = "" }

abbrev parse : String → Parsed
parse s =
    if str_eq s "list"
    then value (called "list")
    else if str_eq s "object"
    then value (called "object")
    else if str_eq s "health"
    then value probed
    else malformed

abbrev fresh : Instance ℕ
fresh = record { own = 0; token = none; call_count = 0; last_call_at = none; exits = false }

-- The object gives the tool no argument; the code of an exception is not sent; a hook that does not end is
-- answered after its time.
three_requests :
    (start library counter parse ("object\nlist\nhealth\n" ∷ []) fresh).written
    ≡ reply "1" "none"
      ∷ failure "1" 32000 "expired" (
          some (record {
            tool = some "count";
            hook = none;
            error_code = none;
            retryable = none;
            details = none;
          }))
      ∷ failure "2" 32000 "timed out" (
          some (record {
            tool = none;
            hook = some "health";
            error_code = none;
            retryable = none;
            details = none;
          }))
      ∷ []
unfolding start handle dispatch handle_tool_call call_method apply_list items_of on_tool_result
    handle_lifecycle run_hook hook_named hook_timeout in_time after delay caught tool_failure
    hook_failure success answer_of listen listen_from and_then run_of process_lines take_line
    process_line process_value handle_request is_version_2 finish respond ignore conclude is_late
    or_text take_lines put_char trim trim_start trim_end is_space
three_requests = refl

abbrev ping : Request
ping = record { jsonrpc = some "2.0"; id = some "u"; method = "ping"; params = "" }

-- The heartbeat of the hub is answered with an error.
ping_unknown :
    (dispatch library counter ping fresh).1
    ≡ fulfils 0 (failure "u" 32601 "Method not found: ping" none)
unfolding dispatch error_response
ping_unknown = refl
