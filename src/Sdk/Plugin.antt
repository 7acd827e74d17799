-- ===== src/Sdk/Plugin.antt =====
-- packages/plugin-sdk/src/plugin.ts: the base class of plugins. The subclass, with its tools and hooks, is a
-- parameter; log lines are left out.
pub mod Answers
pub mod Arguments
mod Tests
use mathlib.Core.Option
use pdatahub.Prelude.{
  Option, ℕ, ◌+◌, [], none, some, ok, err, String, List, Result, Bool, ◌∷◌, true, if◌then◌else◌,
  ◌-◌, str_append, str_eq, ltb,
}
use pdatahub.Delegations.Canonical.{Json, Items}
use pdatahub.Delegations.Canonical
use pdatahub.Sdk.Manifest.{build_manifest, PluginManifest, ToolDefinition}
use pdatahub.Sdk.Manifest
use pdatahub.Sdk.Transport.{
  Request, Parsed, Response, reply, failure, ErrorData, Answer, settles, Outcome, returns, throws,
  throws_nothing, Run, listen,
}
use pdatahub.Sdk.Transport
use pdatahub.Sdk.Async.{
  Thrown, Settled, fulfils, rejects, never, Instance, Async, delay, after, await, caught, in_time,
}

pub data Hook : Type 0 where
  install uninstall activate deactivate health : Hook

-- The subclass. `method` is a member that is a function, `hook` a lifecycle method, if it is one;
-- `on_tool_result` is there if it is overridden. A result is its text.
pub record Subclass (S : Type 0) : Type 0 where
  pub fields : Manifest.Fields
  pub method : String → Option (List Json → Async S String)
  pub on_start : Async S Unit
  pub on_shutdown : Async S Unit
  pub on_tool_result : Option (String → String → Async S Unit)
  pub hook : Hook → Option (Async S (Option String))

-- The fields of the params of `tools/call`, and the token of the context.
pub record ToolCallParams : Type 0 where
  pub name : String
  pub arguments : Option Json
  pub token : Option String

-- What is read of params, the elements of an object that is taken for an array, the texts of results, and the
-- clock.
pub record Library : Type 0 where
  pub read_tool_call : String → ToolCallParams
  pub read_hook : String → Option String
  pub array_like : Canonical.Fields → List Json
  pub manifest_text : PluginManifest → String
  pub tools_text : List ToolDefinition → String
  pub data_text : String → String
  pub health_text : ℕ → ℕ → Option ℕ → String
  pub now : ℕ
  pub started_at : ℕ

unfoldable pub error_response : Option String → ℕ → String → Response
error_response id number message = failure (Option.get_or id "null") number message none

unfoldable pub success : Option String → String → Response
success id result = reply (Option.get_or id "null") result

unfoldable pub items_of : Items → List Json
items_of Items.nil = []
items_of (Items.cons v vs) = v ∷ items_of vs

-- The arguments that `fn.apply` makes of a value.
unfoldable pub apply_list : Library → Option Json → Result (List Json)
apply_list library none = ok []
apply_list library (some (Json.array vs)) = ok (items_of vs)
apply_list library (some (Json.object fs)) = ok (library.array_like fs)
apply_list library (some Json.null) = ok []
apply_list library (some Json.undefined) = ok []
apply_list library (some other) = err "CreateListFromArrayLike called on non-object"

unfoldable pub hook_named : String → Option Hook
hook_named s =
    if str_eq s "install"
    then some install
    else if str_eq s "uninstall"
    then some uninstall
    else if str_eq s "activate"
    then some activate
    else if str_eq s "deactivate"
    then some deactivate
    else if str_eq s "health"
    then some health
    else none

-- The timeout of a hook, in milliseconds.
unfoldable pub hook_timeout : Hook → ℕ
hook_timeout health = 5000
hook_timeout other = 30000

-- The response to a hook that ends.
unfoldable pub hook_response : Option String → Hook → Option String → Response
hook_response id health status = success id (Option.get_or status "{\"status\":\"healthy\"}")
hook_response id other status = success id "{\"ok\":true}"

unfoldable pub hook_failure : Option String → String → Thrown → Response
hook_failure id name e =
    let message = if str_eq e.message "" then str_append "Lifecycle failed: " name else e.message in
    failure (Option.get_or id "null") 32000 message (
      some (record {
        tool = none;
        hook = some name;
        error_code = e.code;
        retryable = e.retryable;
        details = e.details;
      }))

unfoldable pub tool_failure : Option String → String → Thrown → Response
tool_failure id name e = failure (Option.get_or id "null") 32000 e.message (
    some (record {
      tool = some name;
      hook = none;
      error_code = none;
      retryable = none;
      details = none;
    }))

module _ {S : Type 0} (library : Library) (plugin : Subclass S) where
  -- `onToolResult`, of the subclass or of `Plugin`.
  unfoldable pub on_tool_result : String → String → Async S Unit
  on_tool_result name result i = elim plugin.on_tool_result [
    | some f ↦ f name result i
    | none ↦
        (record i { call_count = i.call_count + 1; last_call_at = some library.now }, fulfils 0 tt)
  ]

  -- `health` of `Plugin`.
  unfoldable pub default_health : Async S (Option String)
  default_health i = (
    i,
    fulfils 0
        (some (library.health_text (library.now - library.started_at) i.call_count i.last_call_at)),
  )

  -- The `try` block of `handleToolCall`.
  unfoldable pub call_method :
      Option String → ToolCallParams → (List Json → Async S String) → Async S Response
  call_method id p fn i = elim (apply_list library p.arguments) [
    | err m ↦ (
      i,
      rejects 0 (some (record { message = m; code = none; retryable = none; details = none })),
    )
    | ok arguments ↦
        await (fn arguments)
          (λ result.
            await (on_tool_result p.name result)
              (λ u j. (j, fulfils 0 (success id (library.data_text result)))))
          i
  ]

  -- `handleToolCall`
  unfoldable pub handle_tool_call : Option String → ToolCallParams → Async S Response
  handle_tool_call id p i = elim (plugin.method p.name) [
    | none ↦ (i, fulfils 0 (error_response id 32602 (str_append "Tool not found: " p.name)))
    | some fn ↦
        let r = call_method id p fn (record i { token = p.token }) in
        (r.0, caught (tool_failure id p.name) r.1)
  ]

  unfoldable pub run_hook : Option String → String → Hook → Async S Response
  run_hook id name h i = elim (plugin.hook h) [
    | none ↦ (i, fulfils 0 (error_response id 32602 "Lifecycle method not implemented"))
    | some f ↦
        let r = f i in
        let s =
          after (in_time (hook_timeout h) r.1)
            (λ status j. (j, fulfils 0 (hook_response id h status))) r.0 in
        (s.0, caught (hook_failure id name) s.1)
  ]

  -- `handleLifecycle`. A name that every object has counts as a hook in the source, and gets the same code with
  -- another text.
  unfoldable pub handle_lifecycle : Option String → Option String → Async S Response
  handle_lifecycle id none i = (i, fulfils 0 (error_response id 32602 "Unknown lifecycle hook"))
  handle_lifecycle id (some name) i = elim (hook_named name) [
    | none ↦ (i, fulfils 0 (error_response id 32602 "Unknown lifecycle hook"))
    | some h ↦ run_hook id name h i
  ]

  -- The manifest, or what is written of it.
  unfoldable pub manifest_response : Option String → (PluginManifest → String) → Response
  manifest_response id show = elim (build_manifest plugin.fields plugin.fields.description) [
    | err m ↦ error_response id 32603 m
    | ok manifest ↦ success id (show manifest)
  ]

  -- `dispatch`
  unfoldable pub dispatch : Request → Async S Response
  dispatch r i =
      if str_eq r.method "initialize"
      then await plugin.on_start
          (λ u j. (j, fulfils 0 (manifest_response r.id library.manifest_text))) i
      else if str_eq r.method "tools/call"
      then handle_tool_call r.id (library.read_tool_call r.params) i
      else if str_eq r.method "shutdown"
      then await plugin.on_shutdown
          (λ u j. (record j { exits = true }, fulfils 0 (success r.id "{\"ok\":true}"))) i
      else if str_eq r.method "tools/list"
      then (i, fulfils 0 (manifest_response r.id (λ m. library.tools_text m.tools)))
      else if str_eq r.method "plugin.lifecycle"
      then handle_lifecycle r.id (library.read_hook r.params) i
      else (i, fulfils 0 (error_response r.id 32601 (str_append "Method not found: " r.method)))

  -- How the transport sees the end of `dispatch`.
  unfoldable pub answer_of : Settled Response → Answer
  answer_of (fulfils t r) = settles t (returns r)
  answer_of (rejects t (some e)) = settles t (throws e.message)
  answer_of (rejects t none) = settles t throws_nothing
  answer_of never = Transport.never

  unfoldable pub handle : Request → Instance S → Instance S × Answer
  handle r i = ((dispatch r i).0, answer_of (dispatch r i).1)

  -- `start`, which gives the transport no timeout: what is written on stdin's chunks, as far as the process lives. The
  -- exit that a `shutdown` schedules is a field of the state, and lines behind that request count as read here.
  unfoldable pub start : (String → Parsed) → List String → Instance S → Run (Instance S)
  start parse chunks i = listen parse handle 0 chunks i
