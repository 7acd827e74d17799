-- ===== src/Delegations/Lookup.antt =====
-- packages/hub-core/src/federation/delegation.ts, `parseBlob` and `getToolInputSchema`.
use pdatahub.Delegations.{Bytes}
use pdatahub.Delegations.Blob.{Platform, base64url_to_bytes}
use pdatahub.Prelude.{
  [], none, some, inl, inr, refl, ok, err, String, List, Result, Option, ◌≡◌, ◌∷◌, Memᴰ,
  if◌then◌else◌, arith, str_eq, Bool-cases, Option-cases, eq_iff,
}
use pdatahub.Delegations.Canonical.{Json}

-- `parseBlob`; `TextDecoder` and `JSON.parse` are parameters.
unfoldable pub parse_blob :
    {B : Type 0} → Platform → (Bytes → String) → (String → Result B) → String → Result B
parse_blob platform decode_text parse_json encoded = elim (base64url_to_bytes platform encoded) [
  | err e ↦ err e
  | ok bytes ↦ parse_json (decode_text bytes)
]

-- What is read of `listPlugins()`; a schema that is null or absent is none.
pub record ToolInfo : Type 0 where
  pub name : String
  pub input_schema : Option Json

pub record PluginInfo : Type 0 where
  pub name : String
  pub tools : List ToolInfo

-- The first tool with the name, and its schema.
unfoldable pub schema_in : String → List ToolInfo → Result Json
schema_in tool [] = err "tool not found in plugin"
schema_in tool (t ∷ ts) =
    let rest = schema_in tool ts in
    let own : Result Json = elim t.input_schema [
      | none ↦ err "plugin did not declare inputSchema"
      | some s ↦ ok s
    ] in
    if str_eq t.name tool then own else rest

-- `getToolInputSchema`, with shorter texts: the first plugin with the name decides.
unfoldable pub get_tool_input_schema : List PluginInfo → String → String → Result Json
get_tool_input_schema [] plugin tool = err "plugin not found in registry"
get_tool_input_schema (p ∷ ps) plugin tool =
    let rest = get_tool_input_schema ps plugin tool in
    if str_eq p.name plugin then schema_in tool p.tools else rest

schema_in-stated :
    (tool : String) (s : Json) (ts : List ToolInfo)
    → schema_in tool ts ≡ ok s
    → (t : ToolInfo) × Memᴰ t ts × (t.name ≡ tool) × (t.input_schema ≡ some s)
unfolding schema_in
schema_in-stated tool s [] k = absurd (ground (arith, k))
schema_in-stated tool s (t ∷ ts) k = elim (Bool-cases (str_eq t.name tool)) [
  | inr e ↦
      let (u, m, a, b) = schema_in-stated tool s ts (ground (arith, k, e)) in (u, Memᴰ.tail m, a, b)
  | inl e ↦ elim (Option-cases t.input_schema) [
    | inl f ↦ absurd (ground (arith, k, e, f))
    | inr (own, f) ↦ (t, Memᴰ.head refl, (eq_iff t.name tool).0 e, ground (arith, k, e, f))
  ]
]

-- A schema comes from a tool with the name that a plugin with the name states.
get_tool_input_schema-stated :
    (ps : List PluginInfo) (plugin tool : String) (s : Json)
    → get_tool_input_schema ps plugin tool ≡ ok s
    → (p : PluginInfo) × (t : ToolInfo) × Memᴰ p ps
      × Memᴰ t p.tools
      × (p.name ≡ plugin)
      × (t.name ≡ tool)
      × (t.input_schema ≡ some s)
unfolding get_tool_input_schema
get_tool_input_schema-stated [] plugin tool s h = absurd (ground (arith, h))
get_tool_input_schema-stated (p ∷ ps) plugin tool s h = elim (Bool-cases (str_eq p.name plugin)) [
  | inr e ↦
      let (q, t, mq, mt, a, b, c) =
        get_tool_input_schema-stated ps plugin tool s (ground (arith, h, e)) in
      (q, t, Memᴰ.tail mq, mt, a, b, c)
  | inl e ↦
      let (t, mt, named, stated) = schema_in-stated tool s p.tools (ground (arith, h, e)) in
      (p, t, Memᴰ.head refl, mt, (eq_iff p.name plugin).0 e, named, stated)
]
