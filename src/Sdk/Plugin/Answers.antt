-- ===== src/Sdk/Plugin/Answers.antt =====
-- plugin.ts: every request gets a response, through `dispatch` and the transport.
use mathlib.Core.Option
use pdatahub.Delegations.Canonical.{Json}
use pdatahub.Sdk.Transport.{Response, malformed, null_value, value}
use pdatahub.Sdk.Transport.Replies.{response_id}
use pdatahub.Prelude.{none, some, String, Option, List, ◌≡◌, ◌≢◌}
use pdatahub.Sdk.Plugin.{Subclass, on_tool_result, Parsed}
use pdatahub.Sdk.Async.{Settled, fulfils, rejects, never, Instance, Async}

-- The promise comes to an end.
abbrev pub IsEnding : {A : Type 0} → Settled A → Type 0
IsEnding (fulfils t a) = Unit
IsEnding (rejects t e) = Unit
IsEnding never = ⊥

-- The promise comes to an end, and not with null or nothing as its exception.
abbrev pub IsEndingWell : {A : Type 0} → Settled A → Type 0
IsEndingWell (fulfils t a) = Unit
IsEndingWell (rejects t (some e)) = Unit
IsEndingWell (rejects t none) = ⊥
IsEndingWell never = ⊥

-- The start, the shutdown, the tools and the overridden `onToolResult` of a subclass come to an end, the first two not
-- with null or nothing as their exception. Its hooks need not end.
pub record Ends {S : Type 0} (plugin : Subclass S) : Type 0 where
  pub start_ends : (i : Instance S) → IsEndingWell (plugin.on_start i).1
  pub shutdown_ends : (i : Instance S) → IsEndingWell (plugin.on_shutdown i).1
  pub method_ends :
      (name : String) (fn : List Json → Async S String)
      → plugin.method name ≡ some fn
      → (arguments : List Json) (i : Instance S) → IsEnding (fn arguments i).1
  pub result_ends :
      (f : String → String → Async S Unit)
      → plugin.on_tool_result ≡ some f
      → (name result : String) (i : Instance S) → IsEnding (f name result i).1

-- The promise ends, and a response has the id.
abbrev IsFor : Option String → Settled Response → Type 0
IsFor id (fulfils t r) = response_id r ≡ Option.get_or id "null"
IsFor id (rejects t e) = Unit
IsFor id never = ⊥

-- The same, and not with null or nothing as its exception.
abbrev IsAnswerFor : Option String → Settled Response → Type 0
IsAnswerFor id (fulfils t r) = response_id r ≡ Option.get_or id "null"
IsAnswerFor id (rejects t (some e)) = Unit
IsAnswerFor id (rejects t none) = ⊥
IsAnswerFor id never = ⊥

-- The line is not the text of null, and is no request to shut down.
abbrev pub IsKept : Parsed → Type 0
IsKept malformed = Unit
IsKept null_value = ⊥
IsKept (value r) = r.method ≢ "shutdown"
