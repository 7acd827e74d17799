-- ===== src/Federation/Call/Replayed.antt =====
-- `handleFederationCall`: a call that was received once is refused when it comes again.
use pdatahub.Nonces.{record_nonce, is_seen_recently, nonce_ttl_ms}
use pdatahub.Nonces.Window.{at_boundary, record-window}
use pdatahub.Grants.Ensure.{Approval}
use pdatahub.Delegations.{GrantedTable}
use pdatahub.Federation.Limit.{limit_key, check_federated_rate_limit}
use pdatahub.Federation.Call.{
  Services, FederationRequest, failure, go, reject, Rejection, security_audit,
}
use pdatahub.Federation.Call.Checks.{
  Hub, Signed, Authorized, authorize, check_request, check_replay, known_call,
}
use pdatahub.Federation.Call.Authorized.{authorize-IsAuthorized}
use pdatahub.Grants.{Grant}
use pdatahub.Grants.Ensure.{ensure_grant}
use pdatahub.Federation.Call.Run.{
  PluginAnswer, gave, gave_nothing, threw, threw_nothing, conclude, ensure_input, PluginInfo,
  HubState, Surroundings, stop, invoke, not_approved, ensure_and_invoke, ask_phone, fetch_token,
  security_stop, find_plugin, limit_rate, admit_call, hub_at, handle_federation_call, conclude,
}
use pdatahub.Prelude.{
  ◌≡◌, arith, Option-cases, Result-cases, ◌<◌, ◌≤◌, [], none, true, inl, inr, refl, ok, Option,
  if◌then◌else◌, str_append, String, ◌∷◌, some, false, ℕ, ◌+◌,
}

module _ (services : Services) (hub : Hub) (around : Surroundings) (a : Authorized) where
  conclude-nonces :
      (grant : Grant) (state : HubState) (answer : PluginAnswer)
      → (conclude services hub around a grant state answer).state.nonces ≡ state.nonces
  unfolding conclude
  conclude-nonces grant state (gave r) = refl
  conclude-nonces grant state gave_nothing = refl
  conclude-nonces grant state (threw e) = refl
  conclude-nonces grant state threw_nothing = refl

  ensure_and_invoke-nonces :
      (plugin : PluginInfo) (token : Option String) (state : HubState)
      → (ensure_and_invoke services hub around a plugin token state).state.nonces ≡ state.nonces
  unfolding ensure_and_invoke not_approved invoke
  ensure_and_invoke-nonces plugin token state =
      let ensured = ensure_grant (ensure_input a plugin) around.ensure state.grants in
      elim (Result-cases ensured.result) [
        | inl (grant, e) ↦
            rw (e, ensure_and_invoke)
              (conclude-nonces grant (record state { grants = ensured.rows }) _)
        | inr (m, e) ↦ rw (e, ensure_and_invoke) refl
      ]

  ask_phone-nonces :
      (p : Approval) (plugin : PluginInfo) (token : Option String) (state : HubState)
      → (ask_phone services hub around p a plugin token state).state.nonces ≡ state.nonces
  unfolding ask_phone not_approved
  ask_phone-nonces (Approval.rejected e) plugin token state = refl
  ask_phone-nonces Approval.denied plugin token state = refl
  ask_phone-nonces Approval.approved plugin token state =
      ensure_and_invoke-nonces plugin token state

  fetch_token-nonces :
      (plugin : PluginInfo) (state : HubState)
      → (fetch_token services hub around a plugin state).state.nonces ≡ state.nonces
  unfolding fetch_token
  fetch_token-nonces plugin state =
      elim (Result-cases
        (if plugin.has_oauth then around.get_access_token plugin.name else ok none)) [
          | inl (token, e) ↦ ground (arith, e, ask_phone-nonces around.approval plugin token state)
          | inr (m, e) ↦ ground (arith, e)
        ]

  find_plugin-nonces :
      (state : HubState) → (find_plugin services hub around a state).state.nonces ≡ state.nonces
  unfolding find_plugin security_stop
  find_plugin-nonces state = elim (Option-cases (around.get_plugin a.call.tool)) [
    | inl e ↦ ground (arith, e)
    | inr (plugin, e) ↦ ground (arith, e, fetch_token-nonces plugin state)
  ]

  limit_rate-nonces :
      (state : HubState) → (limit_rate services hub around a state).state.nonces ≡ state.nonces
  unfolding limit_rate security_stop
  limit_rate-nonces state =
      let check =
        check_federated_rate_limit (limit_key a.pubkey a.call.agent_id) hub.now state.limits in
      elim (Option-cases check.1) [
        | inl e ↦ ground (arith, e, find_plugin-nonces (record state { limits = check.0 }))
        | inr (ms, e) ↦ ground (arith, e)
      ]

  admit_call-nonces :
      (state : HubState)
      → (admit_call services hub around a state).state.nonces
        ≡ record_nonce a.call.request_id hub.now state.nonces
  unfolding admit_call
  admit_call-nonces state = ground (
    arith,
    limit_rate-nonces
        (record state { nonces = record_nonce a.call.request_id hub.now state.nonces }),
  )

abbrev pub replay_rejection : Hub → Signed → Rejection
replay_rejection hub s = record {
  response = failure 409 "REPLAY";
  audited =
      security_audit (known_call hub s.pubkey s.call) "REPLAY"
        (str_append "request_id=" (str_append s.call.request_id " seen within replay window"))
      ∷ [];
}

check_replay-seen :
    (hub : Hub) (s : Signed)
    → is_seen_recently s.call.request_id hub.now hub.nonces ≡ true
    → check_replay hub s ≡ reject (replay_rejection hub s)
unfolding check_replay
check_replay-seen hub s h = ground (arith, h)

authorize-seen :
    (services : Services) (hub : Hub) (req : FederationRequest) {s : Signed}
    → check_request services hub req ≡ go s
    → is_seen_recently s.call.request_id hub.now hub.nonces ≡ true
    → authorize services hub req ≡ reject (replay_rejection hub s)
unfolding authorize
authorize-seen services hub req {s} h seen = ground (arith, h, check_replay-seen hub s seen)

handle-state :
    (services : Services) (around : Surroundings) (table : GrantedTable) (started_at now : ℕ)
    (req : FederationRequest) (state : HubState) {a : Authorized}
    → authorize services (hub_at started_at now table state) req ≡ go a
    → (handle_federation_call services around (some table) started_at now req state).state.nonces
      ≡ record_nonce a.call.request_id now state.nonces
unfolding handle_federation_call
handle-state services around table started_at now req state {a} e =
    ground (arith, e, admit_call-nonces services (hub_at started_at now table state) around a state)

handle-reject :
    (services : Services) (around : Surroundings) (table : GrantedTable) (started_at now : ℕ)
    (req : FederationRequest) (state : HubState) {r : Rejection}
    → authorize services (hub_at started_at now table state) req ≡ reject r
    → handle_federation_call services around (some table) started_at now req state
      ≡ stop state r.response r.audited
unfolding handle_federation_call
handle-reject services around table started_at now req state e = ground (arith, e)

-- A call whose signature holds and whose request_id an authorized call had is answered 409 until the
-- retention window is over, and changes neither nonces, rate limits nor grants, whatever became of the
-- first call. No row of the request_id stands at the edge of the window when the first call comes,
-- and no nonce is recorded between the two.
pub handle-replayed :
    (services : Services) (around again : Surroundings) (table table' : GrantedTable)
    (started_at now started_at' later : ℕ) (req req' : FederationRequest) (state after : HubState)
    (a : Authorized) (s : Signed)
    → authorize services (hub_at started_at now table state) req ≡ go a
    → after.nonces
      ≡ (handle_federation_call services around (some table) started_at now req state).state.nonces
    → check_request services (hub_at started_at' later table' after) req' ≡ go s
    → s.call.request_id ≡ a.call.request_id
    → at_boundary a.call.request_id now state.nonces ≡ false
    → now ≤ later
    → later < now + nonce_ttl_ms
    → handle_federation_call services again (some table') started_at' later req' after
      ≡ stop after
          (failure 409 "REPLAY")
          (replay_rejection (hub_at started_at' later table' after) s).audited
handle-replayed services around again table table' started_at now started_at' later req req' state
      after a s e n f same edge le lt =
    let id = a.call.request_id in
    let auth = authorize-IsAuthorized services (hub_at started_at now table state) req e in
    let seen : is_seen_recently s.call.request_id later after.nonces ≡ true = ground (
      arith,
      same,
      n,
      handle-state services around table started_at now req state e,
      record-window id now later state.nonces auth.unseen edge le,
    ) in
    handle-reject services again table' started_at' later req' after
      (authorize-seen services (hub_at started_at' later table' after) req' f seen)
