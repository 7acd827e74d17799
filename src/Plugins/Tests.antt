-- ===== src/Plugins/Tests.antt =====
-- Runs of a plugin's process and of the registry, and the witnesses of their theorems.
use pdatahub.Delegations.Canonical.{Fields}
use pdatahub.Federation.Call.Run.{ToolResult}
use pdatahub.Grants.Ensure.{EnsureContext, approved}
use pdatahub.Tools.{CallToolRequest}
use pdatahub.Tools.Call.{Surroundings, handle_call_tool}
use pdatahub.Plugins.{
  request_id, ping_id, key_eq, writes, settles, kills, crashes, terminations, terminated, has_key,
  delete_key, set_key, Event, step, run, is_crash, spawned, request, beat, on_silence, on_message,
  handle_line, cleanup, pong, settlement, result, error, sends, beats, silence, line, exits,
  not_object, message, Settlement, resolved, plugin_error,
}
use pdatahub.Plugins.Pending.{count, issued, exit-settles}
use pdatahub.Plugins.Answered.{IsAnswered, run-IsAnswered}
use pdatahub.Plugins.Registry.{
  Change, registers, unregisters, apply_change, changed, no_plugins, register, unregister,
  get_plugin, add_routes, drop_routes,
}
use pdatahub.Plugins.Routes.{IsSound, changed-IsSound, plugin_after, get_plugin-apply_change}
use pdatahub.Prelude.{
  Option, [], none, some, false, refl, ok, List, ◌++◌, ℕ, All, lookup, ◌≡◌, ◌∷◌, String, insert,
  Option, remove,
}
use pdatahub.Plugins.Typed.{with_processes, call_tool, IsUntyped, handle_call_tool-IsUntyped}

-- Two calls that are answered in the other order, the second with an error, one that is never answered, and a
-- heartbeat.
abbrev events : List (Event ℕ)
events =
    sends "initialize"
    ∷ sends "tools/call"
    ∷ beats "u"
    ∷ line 10 (
        message (some (request_id 2))
          (error (record { message = "no"; code = 32000; data_text = none })))
    ∷ line 11 (message (some (request_id 1)) (result 7))
    ∷ sends "tools/call"
    ∷ line 12 (message (some (request_id 1)) (result 8))
    ∷ []

answers :
    (run (events ++ exits ∷ []) spawned).1
    ≡ writes (request_id 1) "initialize"
      ∷ writes (request_id 2) "tools/call"
      ∷ writes (ping_id "u") "ping"
      ∷ settles
          (request_id 2)
          (plugin_error (record { message = "no"; code = 32000; data_text = none }))
      ∷ settles (request_id 1) (resolved 7)
      ∷ writes (request_id 3) "tools/call"
      ∷ settles (ping_id "u") terminated
      ∷ settles (request_id 3) terminated
      ∷ []
unfolding run step is_crash request beat handle_line on_message settlement cleanup terminations
    has_key delete_key set_key key_eq pong
answers = refl

-- A plugin that does not answer a heartbeat is killed at its end.
silent :
    (run {R = ℕ} (beats "u" ∷ silence 30000 90000 "u" ∷ []) spawned).1
    ≡ writes (ping_id "u") "ping" ∷ kills ∷ []
unfolding run step is_crash beat on_silence has_key set_key key_eq
silent = refl

-- A line with a number ends the hub, and nothing follows.
number_crashes :
    (run {R = ℕ} (sends "initialize" ∷ line 5 not_object ∷ exits ∷ []) spawned).1
    ≡ writes (request_id 1) "initialize" ∷ crashes ∷ []
unfolding run step is_crash request handle_line has_key set_key key_eq
number_crashes = refl

exit-settles_example :
    count 3 (run (events ++ exits ∷ []) spawned).1
    ≡ issued 3 (run (events ++ exits ∷ []) spawned).0.next_id
exit-settles_example =
    exit-settles 3 events
      (unfold is_crash in (refl, (refl, (refl, (refl, (refl, (refl, (refl, tt))))))))

run-IsAnswered_example : All (IsAnswered events) (run events spawned).1
run-IsAnswered_example = run-IsAnswered events spawned

abbrev changes : List (Change ℕ)
changes =
    registers 1 (record { name = "gmail"; tools = "search" ∷ "send" ∷ [] })
    ∷ registers 2 (record { name = "notes"; tools = "search" ∷ [] })
    ∷ []

-- The tool that both plugins offer goes to the later one, and is lost when that exits.
lost : get_plugin "search" (changed {P = ℕ} (changes ++ unregisters "notes" ∷ []) no_plugins) ≡ none
unfolding get_plugin changed apply_change register unregister add_routes drop_routes lookup insert
    remove
lost = refl

get_plugin-apply_change_example :
    get_plugin "send" (apply_change (unregisters "notes") (changed changes no_plugins))
    ≡ plugin_after (unregisters "notes") "send" (changed changes no_plugins)
get_plugin-apply_change_example = get_plugin-apply_change changes (unregisters "notes") "send" tt

abbrev ensure : EnsureContext
ensure = record {
  now = 100;
  answered_at = 200;
  approval = approved;
  meanwhile = λ rows. rows;
  tool_scope = none;
  new_id = "g1";
}

abbrev around : Surroundings
around = record {
  get_plugin = λ tool.
      some (record { name = "gmail"; tools = ("search", "gmail.read") ∷ []; token_url = none });
  from_env = [];
  store = none;
  is_expiring_soon = λ plugin. false;
  get_access_token = λ tried plugin. ok "t";
  new_request_id = "r1";
  started_at = 90;
  finished_at = 300;
  ensure = ensure;
  call_tool = λ sent. call_tool terminated;
  nothing_error = "null";
  stringify = λ v. "";
}

-- The plugin answers that its token is expired.
abbrev ends : String → Fields → String → String → Option String → Settlement (Option ToolResult)
ends tool arguments agent request token =
    plugin_error
      (record { message = "token expired"; code = 32000; data_text = some "AUTH_EXPIRED" })

abbrev body : CallToolRequest
body = record { arguments = none; context = none }

handle_call_tool-IsUntyped_example :
    IsUntyped (handle_call_tool (with_processes ends around) "search" (ok body) [])
handle_call_tool-IsUntyped_example = handle_call_tool-IsUntyped ends around "search" (ok body) []

changed-IsSound_example : IsSound (changed changes no_plugins)
changed-IsSound_example = changed-IsSound changes
