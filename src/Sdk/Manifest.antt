-- ===== src/Sdk/Manifest.antt =====
-- packages/plugin-sdk/src/manifest.ts: the manifest that a plugin states. The subclass that a plugin's author
-- writes is a parameter.
use pdatahub.Prelude.{
  Option, [], none, some, true, false, ok, err, String, ℕ, Bool, List, if◌then◌else◌, any, Result,
  str_eq, ◌==◌, ◌||◌, ◌∷◌, ◌++◌,
}

-- `ToolOptions` with the method that `@Tool` stands on; the schema is its text.
pub record ToolDefinition : Type 0 where
  pub name : String
  pub scope : String
  pub description : String
  pub input_schema : Option String

-- What `buildManifest` reads of an instance: the fields, `none` if they are no texts, the tools and the `@OAuth`
-- that are registered for its class, and which of the lifecycle methods differ from those of `Plugin`.
pub record Fields : Type 0 where
  pub name : Option String
  pub version : Option String
  pub description : Option String
  pub protocol_version : Option ℕ
  pub tools : List ToolDefinition
  pub oauth : Option String
  pub overridden : List Bool

pub data PluginCapability : Type 0 where
  typed_errors schema_validation lifecycle_hooks health_check : PluginCapability

pub record PluginManifest : Type 0 where
  pub name : String
  pub version : String
  pub description : Option String
  pub protocol_version : ℕ
  pub tools : List ToolDefinition
  pub oauth : Option String
  pub capabilities : List PluginCapability

-- `readStringField`
unfoldable pub read_string_field : Option String → Option String
read_string_field none = none
read_string_field (some s) = if str_eq s "" then none else some s

-- `readProtocolVersion`
unfoldable pub read_protocol_version : Option ℕ → ℕ
read_protocol_version none = 1
read_protocol_version (some v) = if v == 1 || v == 2 then v else 1

unfoldable pub has_schema : ToolDefinition → Bool
has_schema t = elim t.input_schema [ none ↦ false | some s ↦ true ]

-- `hasOverriddenLifecycleMethod`
unfoldable pub has_overridden_lifecycle_method : Fields → Bool
has_overridden_lifecycle_method f = any (λ b. b) f.overridden

-- `deriveCapabilities`
unfoldable pub derive_capabilities : Fields → List PluginCapability
derive_capabilities f =
    (if read_protocol_version f.protocol_version == 2 then typed_errors ∷ [] else [])
    ++ (if any has_schema f.tools then schema_validation ∷ [] else [])
    ++ (if has_overridden_lifecycle_method f then lifecycle_hooks ∷ health_check ∷ [] else [])

-- `buildManifest`; an absent description is that of the instance.
unfoldable pub build_manifest : Fields → Option String → Result PluginManifest
build_manifest f description = elim (read_string_field f.name) [
  | none ↦ err "Plugin instance must set `name` string field"
  | some name ↦ elim (read_string_field f.version) [
    | none ↦ err "Plugin instance must set `version` string field"
    | some version ↦ ok (record {
      name = name;
      version = version;
      description = elim description [ none ↦ read_string_field f.description | some d ↦ some d ];
      protocol_version = read_protocol_version f.protocol_version;
      tools = f.tools;
      oauth = f.oauth;
      capabilities = derive_capabilities f;
    })
  ]
]
