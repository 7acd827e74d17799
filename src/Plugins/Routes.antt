-- ===== src/Plugins/Routes.antt =====
-- plugin-process.ts, `PluginRegistry`: what registering and unregistering do to the routes of tools.
use pdatahub.Prelude.{
  [], none, some, false, inl, inr, refl, String, IsKeyed, List, Dict, Option, lookup, Bool, ◌≡◌,
  ◌∷◌, str_eq, if◌then◌else◌, insert, remove, ◌||◌, arith, insert-IsKeyed, Option-cases, ◌≢◌,
  lookup-insert, lookup-keep, eq_iff, not, lookup-remove, ◌∙◌, keep-IsKeyed,
}
use pdatahub.Plugins.Registry.{
  PluginRegistry, Manifest, add_routes, drop_routes, register, unregister, get_plugin, IsRouted,
  Change, registers, unregisters, apply_change, changed, no_plugins,
}

-- Whether a plugin offers a tool.
abbrev pub offers : String → List String → Bool
offers tool [] = false
offers tool (t ∷ ts) = str_eq t tool || offers tool ts

lookup-add_routes :
    (name tool : String) (tools : List String) (routes : Dict String)
    → lookup tool (add_routes name tools routes)
      ≡ (if offers tool tools then some name else lookup tool routes)
unfolding add_routes
lookup-add_routes name tool [] routes = refl
lookup-add_routes name tool (t ∷ ts) routes =
    ground (
      arith,
      lookup-add_routes name tool ts (insert t name routes),
      lookup-insert t tool name routes,
    )

add_routes-IsKeyed :
    (name : String) (tools : List String) (routes : Dict String)
    → IsKeyed routes
    → IsKeyed (add_routes name tools routes)
unfolding add_routes
add_routes-IsKeyed name [] routes k = k
add_routes-IsKeyed name (t ∷ ts) routes k =
    add_routes-IsKeyed name ts (insert t name routes) (insert-IsKeyed t name routes k)

lookup-drop_routes :
    (name tool : String) (routes : Dict String)
    → IsKeyed routes
    → lookup tool (drop_routes name routes)
      ≡ elim (lookup tool routes) [ none ↦ none | some v ↦ if str_eq v name then none else some v ]
unfolding drop_routes
lookup-drop_routes name tool routes k = elim (Option-cases (lookup tool routes)) [
  | inl e ↦ lookup-keep (λ v. not (str_eq v name)) tool routes k ∙ rw e refl
  | inr (v, e) ↦ lookup-keep (λ v. not (str_eq v name)) tool routes k ∙ ground (arith, e)
]

-- Where a tool's call goes.
abbrev pub route_of : {P : Type 0} → String → PluginRegistry P → Option String
route_of tool r = lookup tool r.tool_to_plugin

-- No tool has two routes, and every route leads to a registered plugin.
abbrev pub IsSound : {P : Type 0} → PluginRegistry P → Type 0
IsSound r = IsKeyed r.tool_to_plugin × IsRouted r

module _ {P : Type 0} where
  register-IsSound :
      (p : P) (m : Manifest) (r : PluginRegistry P) → IsSound r → IsSound (register p m r)
  unfolding register
  register-IsSound p m r (k, routed) =
      (add_routes-IsKeyed m.name m.tools r.tool_to_plugin k, λ tool name e. leads tool name e)
    where
      leads :
          (tool name : String)
          → lookup tool (add_routes m.name m.tools r.tool_to_plugin) ≡ some name
          → lookup name (insert m.name p r.plugins) ≢ none
      leads tool name e = ground (
        arith,
        e,
        eq_iff m.name name,
        lookup-insert m.name name p r.plugins,
        lookup-add_routes m.name tool m.tools r.tool_to_plugin,
        routed tool name,
      )

  unregister-IsSound :
      (name : String) (r : PluginRegistry P) → IsSound r → IsSound (unregister name r)
  unfolding unregister drop_routes
  unregister-IsSound name r (k, routed) = elim (Option-cases (lookup name r.plugins)) [
    | inl e ↦ rw (e, unregister) (k, routed)
    | inr (p, e) ↦
        rw (e, unregister)
          (
            keep-IsKeyed (λ e. not (str_eq e.1 name)) r.tool_to_plugin k,
            λ tool other f. leads tool other f,
          )
  ]
    where
      leads :
          (tool other : String)
          → lookup tool (drop_routes name r.tool_to_plugin) ≡ some other
          → lookup other (remove name r.plugins) ≢ none
      leads tool other f = ground (
        arith,
        f,
        eq_iff name other,
        eq_iff other name,
        lookup-remove name other r.plugins,
        lookup-drop_routes name tool r.tool_to_plugin k,
        routed tool other,
      )

  apply_change-IsSound :
      (c : Change P) (r : PluginRegistry P) → IsSound r → IsSound (apply_change c r)
  unfolding apply_change
  apply_change-IsSound (registers p m) r sound = register-IsSound p m r sound
  apply_change-IsSound (unregisters name) r sound = unregister-IsSound name r sound

  changed-IsSound_from :
      (cs : List (Change P)) (r : PluginRegistry P) → IsSound r → IsSound (changed cs r)
  unfolding changed
  changed-IsSound_from [] r sound = sound
  changed-IsSound_from (c ∷ cs) r sound =
      changed-IsSound_from cs (apply_change c r) (apply_change-IsSound c r sound)

  -- However plugins start and exit, no tool has two routes, and every route leads to a registered plugin.
  pub changed-IsSound : (cs : List (Change P)) → IsSound (changed cs (no_plugins {P = P}))
  changed-IsSound cs =
      changed-IsSound_from cs no_plugins
        (tt, λ tool name e. absurd (unfold lookup in ground (arith, e)))

  -- Whether a tool's route leads to the name.
  abbrev pub goes_to : String → String → PluginRegistry P → Bool
  goes_to tool name r = elim (route_of tool r) [ none ↦ false | some other ↦ str_eq other name ]

  get_plugin-register :
      (tool : String) (p : P) (m : Manifest) (r : PluginRegistry P)
      → str_eq m.name "" ≡ false
      → get_plugin tool (register p m r)
        ≡ (if offers tool m.tools || goes_to tool m.name r then some p else get_plugin tool r)
  unfolding get_plugin register
  get_plugin-register tool p m r named = elim (Option-cases (route_of tool r)) [
    | inl e ↦ ground (
      arith,
      e,
      named,
      lookup-insert m.name m.name p r.plugins,
      eq_iff m.name m.name,
      lookup-add_routes m.name tool m.tools r.tool_to_plugin,
    )
    | inr (other, e) ↦ ground (
      arith,
      e,
      named,
      lookup-insert m.name m.name p r.plugins,
      eq_iff m.name m.name,
      eq_iff m.name other,
      eq_iff other m.name,
      lookup-insert m.name other p r.plugins,
      lookup-add_routes m.name tool m.tools r.tool_to_plugin,
    )
  ]

  get_plugin-unregister :
      (tool name : String) (r : PluginRegistry P)
      → IsSound r
      → get_plugin tool (unregister name r)
        ≡ (if goes_to tool name r then none else get_plugin tool r)
  unfolding get_plugin unregister
  get_plugin-unregister tool name r (k, routed) = elim (Option-cases (lookup name r.plugins)) [
    | inl e ↦ elim (Option-cases (route_of tool r)) [
      | inl f ↦ rw (e, unregister) (rw (f, goes_to, get_plugin) refl)
      | inr (other, f) ↦
          let no : str_eq other name ≡ false =
            ground (arith, eq_iff other name, routed tool other f, e) in
          rw (e, unregister) (rw (f, no, goes_to, get_plugin) refl)
    ]
    | inr (p, e) ↦ elim (Option-cases (route_of tool r)) [
      | inl f ↦
          rw (e, unregister)
            (let g : lookup tool (drop_routes name r.tool_to_plugin) ≡ none =
                lookup-drop_routes name tool r.tool_to_plugin k ∙ rw f refl in
              rw (f, g, goes_to, get_plugin) refl)
      | inr (other, f) ↦
          rw (e, unregister)
            (ground (
              arith,
              f,
              eq_iff name other,
              eq_iff other name,
              lookup-remove name other r.plugins,
              lookup-drop_routes name tool r.tool_to_plugin k,
            ))
    ]
  ]

  -- A name that is not empty.
  abbrev pub IsNamed : Change P → Type 0
  IsNamed (registers p m) = str_eq m.name "" ≡ false
  IsNamed (unregisters name) = Unit

  -- Which plugin a tool's call goes to after a change.
  abbrev pub plugin_after : Change P → String → PluginRegistry P → Option P
  plugin_after (registers p m) tool r =
      if offers tool m.tools || goes_to tool m.name r then some p else get_plugin tool r
  plugin_after (unregisters name) tool r = if goes_to tool name r then none else get_plugin tool r

  -- In every registry that changes lead to: a plugin that registers under a name gets the calls of the tools that
  -- it offers and of those that went to its name; one that is unregistered leaves its tools without a plugin;
  -- every other tool's calls go where they went.
  pub get_plugin-apply_change :
      (cs : List (Change P)) (c : Change P) (tool : String)
      → IsNamed c
      → get_plugin tool (apply_change c (changed cs no_plugins))
        ≡ plugin_after c tool (changed cs no_plugins)
  unfolding apply_change
  get_plugin-apply_change cs (registers p m) tool named =
      get_plugin-register tool p m (changed cs no_plugins) named
  get_plugin-apply_change cs (unregisters name) tool named =
      get_plugin-unregister tool name (changed cs no_plugins) (changed-IsSound cs)
