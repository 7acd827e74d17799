-- ===== src/Federation/Call/Outcomes.antt =====
-- `handleFederationCall`: when the plugin is called, and what is written about it.
use pdatahub.Nonces.{record_nonce}
use pdatahub.Grants.{Grant, GrantTable}
use pdatahub.Grants.Ensure.{Approval, ensure_grant}
use pdatahub.Grants.Ensure.Outcome.{ensure_grant-IsFor}
use pdatahub.Delegations.{GrantedTable}
use pdatahub.Federation.Limit.{limit_key, check_federated_rate_limit}
use pdatahub.Federation.Call.{Services, FederationRequest, failure, Step, go, reject, Rejection}
use pdatahub.Federation.Call.Checks.{Hub, Authorized, authorize}
use pdatahub.Federation.Call.Authorized.{IsAuthorized, authorize-IsAuthorized}
use pdatahub.Federation.Call.Run.{
  PluginInfo, HubState, Surroundings, stop, ensure_input, not_approved, ensure_and_invoke,
  ask_phone, fetch_token, security_stop, find_plugin, limit_rate, admit_call, hub_at,
  handle_federation_call,
}
use pdatahub.Prelude.{
  ◌≡◌, arith, Option-cases, Result-cases, Bool-cases, none, some, true, inl, inr, ◌≢◌, Option,
  String, refl, ok, if◌then◌else◌, ◌==◌, ◌⊎◌, ℕ, false,
}

-- A phone is connected, the call is within the rate limit, the tool has a plugin, the phone approves,
-- and what `ensureGrant` gives on the grants of the hub is a grant for the call under the peer's key.
pub record IsGranted (hub : Hub) (around : Surroundings) (state : HubState) (a : Authorized)
    : Type 0 where
  pub connected : around.connected_clients ≢ 0
  pub within :
      (check_federated_rate_limit (limit_key a.pubkey a.call.agent_id) hub.now state.limits).1
      ≡ none
  pub plugin : PluginInfo
  pub registered : around.get_plugin a.call.tool ≡ some plugin
  pub approved : around.approval ≡ Approval.approved
  pub grant : Grant
  pub given : (ensure_grant (ensure_input a plugin) around.ensure state.grants).result ≡ ok grant
  pub tool : grant.tool_name ≡ a.call.tool
  pub plugin_name : grant.plugin ≡ plugin.name
  pub agent : grant.agent_id ≡ a.call.agent_id
  pub peer : grant.delegated_by ≡ some a.pubkey

module _ (services : Services) (hub : Hub) (around : Surroundings) (a : Authorized) where
  abbrev IsGiven : PluginInfo → GrantTable → Grant → Type 0
  IsGiven plugin grants grant =
      (ensure_grant (ensure_input a plugin) around.ensure grants).result ≡ ok grant

  ensure_and_invoke-invoked :
      (plugin : PluginInfo) (token : Option String) (state : HubState)
      → (ensure_and_invoke services hub around a plugin token state).invoked ≡ true
      → (grant : Grant) × IsGiven plugin state.grants grant
  unfolding ensure_and_invoke not_approved
  ensure_and_invoke-invoked plugin token state h =
      elim (Result-cases (ensure_grant (ensure_input a plugin) around.ensure state.grants).result) [
        | inl (grant, e) ↦ (grant, e)
        | inr (m, e) ↦ absurd (ground (arith, e))
      ]

  -- What `IsGranted` says of the steps from the phone's answer on.
  record IsAsked (plugin : PluginInfo) (grants : GrantTable) : Type 0 where
    said : around.approval ≡ Approval.approved
    grant : Grant
    given : IsGiven plugin grants grant

  ask_phone-invoked :
      (p : Approval) (plugin : PluginInfo) (token : Option String) (state : HubState)
      → (ask_phone services hub around p a plugin token state).invoked ≡ true
      → (p ≡ Approval.approved) × (grant : Grant) × IsGiven plugin state.grants grant
  unfolding ask_phone not_approved
  ask_phone-invoked (Approval.rejected e) plugin token state h = cc
  ask_phone-invoked Approval.denied plugin token state h = cc
  ask_phone-invoked Approval.approved plugin token state h =
      let (grant, given) = ensure_and_invoke-invoked plugin token state h in (refl, grant, given)

  fetch_token-invoked :
      (plugin : PluginInfo) (state : HubState)
      → (fetch_token services hub around a plugin state).invoked ≡ true
      → IsAsked plugin state.grants
  unfolding fetch_token
  fetch_token-invoked plugin state h =
      elim (Result-cases
        (if plugin.has_oauth then around.get_access_token plugin.name else ok none)) [
          | inl (token, e) ↦
              let asked : (ask_phone services hub around around.approval a plugin token
                    state).invoked
                  ≡ true =
                ground (arith, e) in
              let (said, grant, given) =
                ask_phone-invoked around.approval plugin token state asked in
              record { said = said; grant = grant; given = given }
          | inr (m, e) ↦ absurd (ground (arith, e))
        ]

  find_plugin-invoked :
      (state : HubState)
      → (find_plugin services hub around a state).invoked ≡ true
      → (plugin : PluginInfo) × (around.get_plugin a.call.tool ≡ some plugin)
        × IsAsked plugin state.grants
  unfolding find_plugin security_stop
  find_plugin-invoked state h = elim (Option-cases (around.get_plugin a.call.tool)) [
    | inl e ↦ absurd (ground (arith, e))
    | inr (plugin, e) ↦ (plugin, e, fetch_token-invoked plugin state (ground (arith, e)))
  ]

  limit_rate-invoked :
      (state : HubState)
      → (limit_rate services hub around a state).invoked ≡ true
      → ((check_federated_rate_limit (limit_key a.pubkey a.call.agent_id) hub.now state.limits).1
          ≡ none)
        × (plugin : PluginInfo) × (around.get_plugin a.call.tool ≡ some plugin)
        × IsAsked plugin state.grants
  unfolding limit_rate security_stop
  limit_rate-invoked state h =
      let check =
        check_federated_rate_limit (limit_key a.pubkey a.call.agent_id) hub.now state.limits in
      elim (Option-cases check.1) [
        | inl e ↦
            let found : (find_plugin services hub around a
                  (record state { limits = check.0 })).invoked
                ≡ true =
              ground (arith, e) in
            let (plugin, registered, asked) =
              find_plugin-invoked (record state { limits = check.0 }) found in
            (e, plugin, registered, asked)
        | inr (ms, e) ↦ absurd (ground (arith, e))
      ]

  admit_call-IsGranted :
      (state : HubState)
      → (admit_call services hub around a state).invoked ≡ true
      → IsGranted hub around state a
  unfolding admit_call ensure_input
  admit_call-IsGranted state h = elim (Bool-cases (around.connected_clients == 0)) [
    | inl off ↦ absurd (ground (arith, off))
    | inr on ↦
        let (within, plugin, registered, asked) = limit_rate-invoked _ (rw on at h) in
        let fits =
          (ensure_grant-IsFor (ensure_input a plugin) around.ensure state.grants asked.grant
            asked.given).0 in
        record {
          connected = ground (arith, on);
          within = within;
          plugin = plugin;
          registered = registered;
          approved = asked.said;
          grant = asked.grant;
          given = asked.given;
          tool = fits.tool;
          plugin_name = fits.plugin;
          agent = fits.agent;
          peer = fits.delegated;
        }
  ]

-- The checks, by what they give.
pub authorize-cases :
    (services : Services) (hub : Hub) (req : FederationRequest)
    → ((a : Authorized) × (authorize services hub req ≡ go a))
      ⊎ ((r : Rejection) × (authorize services hub req ≡ reject r))
authorize-cases services hub req = go_or_reject (authorize services hub req)
  where
    go_or_reject :
        (m : Step Authorized) → ((a : Authorized) × (m ≡ go a)) ⊎ ((r : Rejection) × (m ≡ reject r))
    go_or_reject (go a) = inl (a, refl)
    go_or_reject (reject r) = inr (r, refl)

pub handle-go :
    (services : Services) (around : Surroundings) (table : GrantedTable) (started_at now : ℕ)
    (req : FederationRequest) (state : HubState) {a : Authorized}
    → authorize services (hub_at started_at now table state) req ≡ go a
    → handle_federation_call services around (some table) started_at now req state
      ≡ admit_call services (hub_at started_at now table state) around a state
unfolding handle_federation_call
handle-go services around table started_at now req state e = ground (arith, e)

-- A plugin is called only for a call that stands in a body signed by the peer's key, near its timestamp, with a
-- request id that the hub's nonces do not hold, under a live delegation of the table to that peer for that tool; and
-- only if a phone is connected and approves, the call is within the rate limit, and ensureGrant gives a grant for its
-- tool, its plugin and its agent under the peer's key.
pub handle-IsAuthorized :
    (services : Services) (around : Surroundings) (table : GrantedTable) (started_at now : ℕ)
    (req : FederationRequest) (state : HubState)
    → (handle_federation_call services around (some table) started_at now req state).invoked ≡ true
    → (a : Authorized) × IsAuthorized services (hub_at started_at now table state) req a
      × IsGranted (hub_at started_at now table state) around state a
unfolding handle_federation_call
handle-IsAuthorized services around table started_at now req state h =
    let hub = hub_at started_at now table state in
    elim (authorize-cases services hub req) [
      | inl (a, e) ↦
          let admitted : (admit_call services hub around a state).invoked ≡ true =
            ground (arith, e) in
          (
            a,
            authorize-IsAuthorized services hub req e,
            admit_call-IsGranted services hub around a state admitted,
          )
      | inr (r, e) ↦ absurd (ground (arith, e))
    ]

-- The state once the nonce is recorded.
abbrev received : Authorized → Hub → HubState → HubState
received a hub state = record state { nonces = record_nonce a.call.request_id hub.now state.nonces }

module _ (services : Services) (hub : Hub) (around : Surroundings) (a : Authorized) where
  ask_phone-unapproved :
      (p : Approval) (plugin : PluginInfo) (token : Option String) (state : HubState)
      → p ≢ Approval.approved
      → ask_phone services hub around p a plugin token state
        ≡ stop state
            (failure 403 "APPROVAL_DENIED")
            (ask_phone services hub around p a plugin token state).audited
  unfolding ask_phone not_approved
  ask_phone-unapproved (Approval.rejected e) plugin token state ne = refl
  ask_phone-unapproved Approval.denied plugin token state ne = refl
  ask_phone-unapproved Approval.approved plugin token state ne = absurd (ne refl)

  fetch_token-unapproved :
      (plugin : PluginInfo) (state : HubState)
      → around.approval ≢ Approval.approved
      → (fetch_token services hub around a plugin state).state ≡ state
  unfolding fetch_token
  fetch_token-unapproved plugin state ne =
      elim (Result-cases
        (if plugin.has_oauth then around.get_access_token plugin.name else ok none)) [
          | inl (token, e) ↦
              ground (arith, e, ask_phone-unapproved around.approval plugin token state ne)
          | inr (m, e) ↦ ground (arith, e)
        ]

  find_plugin-unapproved :
      (state : HubState)
      → around.approval ≢ Approval.approved
      → (find_plugin services hub around a state).state ≡ state
  unfolding find_plugin security_stop
  find_plugin-unapproved state ne = elim (Option-cases (around.get_plugin a.call.tool)) [
    | inl e ↦ ground (arith, e)
    | inr (plugin, e) ↦ ground (arith, e, fetch_token-unapproved plugin state ne)
  ]

  limit_rate-unapproved :
      (state : HubState)
      → around.approval ≢ Approval.approved
      → (limit_rate services hub around a state).state.grants ≡ state.grants
  unfolding limit_rate security_stop
  limit_rate-unapproved state ne =
      let check =
        check_federated_rate_limit (limit_key a.pubkey a.call.agent_id) hub.now state.limits in
      elim (Option-cases check.1) [
        | inl e ↦ ground (arith, e, find_plugin-unapproved (record state { limits = check.0 }) ne)
        | inr (ms, e) ↦ ground (arith, e)
      ]

-- Unless the phone approves, a federated call changes no grant and calls no plugin, however far it
-- gets.
pub handle-unapproved :
    (services : Services) (around : Surroundings) (delegations : Option GrantedTable)
    (started_at now : ℕ) (req : FederationRequest) (state : HubState)
    → around.approval ≢ Approval.approved
    → ((handle_federation_call services around delegations started_at now req state).state.grants
        ≡ state.grants)
      × ((handle_federation_call services around delegations started_at now req state).invoked
          ≡ false)
unfolding handle_federation_call admit_call
handle-unapproved services around none started_at now req state ne = (refl, refl)
handle-unapproved services around (some table) started_at now req state ne =
    let hub = hub_at started_at now table state in
    elim (authorize-cases services hub req) [
      | inr (r, e) ↦ ground (arith, e)
      | inl (a, e) ↦ (
        ground (arith, e, limit_rate-unapproved services hub around a (received a hub state) ne),
        elim (Bool-cases
            (handle_federation_call services around (some table) started_at now req
              state).invoked) [
                | inl called ↦
                    let (b, auth, granted) =
                      handle-IsAuthorized services around table started_at now req state called in
                    absurd (ne granted.approved)
                | inr quiet ↦ quiet
              ],
      )
    ]
