-- ===== src/Plugins/Registry.antt =====
-- packages/hub-core/src/plugin-process.ts, `PluginRegistry`: which plugin a tool's call goes to.
use pdatahub.Prelude.{
  Dict, [], none, some, String, insert, List, ◌∷◌, keep, lookup, Option, map, not, remove,
  if◌then◌else◌, ◌≡◌, str_eq, ◌≢◌, ◌++◌,
}

-- What the registry reads of a manifest.
pub record Manifest : Type 0 where
  pub name : String
  pub tools : List String

pub record PluginRegistry (P : Type 0) : Type 0 where
  pub plugins : Dict P
  pub tool_to_plugin : Dict String

-- Every tool's route is set to the plugin, over an older one.
unfoldable pub add_routes : String → List String → Dict String → Dict String
add_routes name [] routes = routes
add_routes name (tool ∷ tools) routes = add_routes name tools (insert tool name routes)

-- The routes that lead to the plugin are deleted.
unfoldable pub drop_routes : String → Dict String → Dict String
drop_routes name routes = keep (λ e. not (str_eq e.1 name)) routes

module _ {P : Type 0} where
  unfoldable pub register : P → Manifest → PluginRegistry P → PluginRegistry P
  register plugin manifest r = record {
    plugins = insert manifest.name plugin r.plugins;
    tool_to_plugin = add_routes manifest.name manifest.tools r.tool_to_plugin;
  }

  -- A plugin that is not registered leaves all as it is.
  unfoldable pub unregister : String → PluginRegistry P → PluginRegistry P
  unregister name r = elim (lookup name r.plugins) [
    | none ↦ r
    | some plugin ↦ record {
      plugins = remove name r.plugins;
      tool_to_plugin = drop_routes name r.tool_to_plugin;
    }
  ]

  -- An empty name of a plugin is none.
  unfoldable pub get_plugin : String → PluginRegistry P → Option P
  get_plugin tool r = elim (lookup tool r.tool_to_plugin) [
    | none ↦ none
    | some name ↦ if str_eq name "" then none else lookup name r.plugins
  ]

  -- `listPlugins`, and `listAllTools` for the tools that a plugin states.
  unfoldable pub list_plugins : PluginRegistry P → List P
  list_plugins r = map (λ (name, plugin). plugin) r.plugins

  -- The tools that the plugins state, one plugin after the other.
  unfoldable pub all_of : {T : Type 0} → (P → List T) → List P → List T
  all_of tools_of [] = []
  all_of tools_of (p ∷ ps) = tools_of p ++ all_of tools_of ps

  unfoldable pub list_all_tools : {T : Type 0} → (P → List T) → PluginRegistry P → List T
  list_all_tools tools_of r = all_of tools_of (list_plugins r)

  -- Every route leads to a registered plugin.
  abbrev pub IsRouted : PluginRegistry P → Type 0
  IsRouted r =
      (tool name : String) → lookup tool r.tool_to_plugin ≡ some name → lookup name r.plugins ≢ none

-- Registering and unregistering, in the order in which plugins start and exit.
pub data Change (P : Type 0) : Type 0 where
  registers : P → Manifest → Change P
  unregisters : String → Change P

unfoldable pub apply_change : {P : Type 0} → Change P → PluginRegistry P → PluginRegistry P
apply_change (registers plugin manifest) r = register plugin manifest r
apply_change (unregisters name) r = unregister name r

unfoldable pub changed : {P : Type 0} → List (Change P) → PluginRegistry P → PluginRegistry P
changed [] r = r
changed (c ∷ cs) r = changed cs (apply_change c r)

abbrev pub no_plugins : {P : Type 0} → PluginRegistry P
no_plugins = record { plugins = []; tool_to_plugin = [] }
