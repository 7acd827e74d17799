-- ===== src/Sdk/Plugin/Arguments.antt =====
-- plugin.ts: the arguments that a tool's method gets.
use pdatahub.Delegations.Canonical.{Json}
use pdatahub.Delegations.Canonical
use pdatahub.Federation.Call.{field_at}
use pdatahub.Prelude.{[], none, some, refl, ◌≡◌, Option, String, inl, inr, List, Option-cases, ap}
use pdatahub.Sdk.Plugin.{
  Subclass, ToolCallParams, Library, apply_list, call_method, handle_tool_call, tool_failure,
}
use pdatahub.Sdk.Async.{Instance, Async, caught}

-- `fn.apply` takes an object without a `length` for an empty array.
abbrev pub IsArrayLike : Library → Type 0
IsArrayLike library =
    (fs : Canonical.Fields) → field_at "length" fs ≡ none → library.array_like fs ≡ []

call_method-object :
    {S : Type 0} (library : Library) (plugin : Subclass S) (id : Option String) (p : ToolCallParams)
    (fs : Canonical.Fields) (fn : List Json → Async S String) (i : Instance S)
    → IsArrayLike library
    → field_at "length" fs ≡ none
    → call_method library plugin id (record p { arguments = some (Json.object fs) }) fn i
      ≡ call_method library plugin id (record p { arguments = none }) fn i
unfolding call_method apply_list
call_method-object library plugin id p fs fn i like h =
    let no : library.array_like fs ≡ [] = like fs h in rw (no, call_method, apply_list) refl

-- A tool call whose arguments are an object without a field length, as the hub sends them, goes as the call of the same tool
-- without arguments: the method gets none of them.
pub handle_tool_call-object :
    {S : Type 0} (library : Library) (plugin : Subclass S) (id : Option String) (p : ToolCallParams)
    (fs : Canonical.Fields) (i : Instance S)
    → IsArrayLike library
    → field_at "length" fs ≡ none
    → handle_tool_call library plugin id (record p { arguments = some (Json.object fs) }) i
      ≡ handle_tool_call library plugin id (record p { arguments = none }) i
unfolding handle_tool_call
handle_tool_call-object library plugin id p fs i like h =
    elim (Option-cases (plugin.method p.name)) [
      | inl e ↦ rw (e, handle_tool_call) refl
      | inr (fn, e) ↦
          let same =
            call_method-object library plugin id p fs fn (record i { token = p.token }) like h in
          rw (e, handle_tool_call) (ap (λ r. (r.0, caught (tool_failure id p.name) r.1)) same)
    ]
