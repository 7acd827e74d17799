-- ===== src/Federation/Invoke/Run.antt =====
-- `handleFederationInvoke`: the call is found a delegation, signed, sent, and its answer passed on.
use mathlib.Core.Option
use pdatahub.Audit.{AuditAppendInput}
use pdatahub.Delegations.{
  DelegationReceivedRow, ReceivedTable, find_received_match, is_expired, is_revoked,
}
use pdatahub.Delegations.Blob.{bytes_to_base64url}
use pdatahub.Delegations.Canonical.{Json}
use pdatahub.Federation.Call.{Response, success, failure, thrown, string_of}
use pdatahub.Federation.Names.{parse_federated_tool_name}
use pdatahub.Federation.Invoke.{
  InvokeBody, Upstream, unreachable, cut_off, answered, Outbound, InvokeContext, Invoked,
  InvokeInput, invoke_input, outbound_body, strip_slashes, stop, unsent_audit, federated_audit,
  get_field, forwarded,
}
use pdatahub.Prelude.{
  str_append, leb, ltb, [], none, some, ok, err, ℕ, List, String, ◌-◌, Option, if◌then◌else◌, ◌∷◌,
  str_eq, ◌&&◌, ◌==◌,
}

module _ (ctx : InvokeContext) where
  unfoldable pub upstream_error : ℕ → String → Option Json → String
  unfolding get_field string_of
  upstream_error status text answer = elim (string_of (get_field answer "error")) [
    | some e ↦ e
    | none ↦ if str_eq text "" then str_append "upstream returned " (ctx.decimal status) else text
  ]

  -- What the peer's answer becomes: the response, and the entries about it.
  unfoldable pub conclude :
      DelegationReceivedRow → InvokeInput → Upstream → Response × List AuditAppendInput
  unfolding federated_audit forwarded upstream_error
  conclude d i (unreachable e) = (
    failure 502 "FEDERATION_UPSTREAM_ERROR",
    federated_audit d i "federated_error" (some (str_append "upstream unreachable: " e))
          (ctx.finished_at - ctx.started_at)
        ∷ [],
  )
  conclude d i (cut_off e) = (thrown e, [])
  conclude d i (answered status text answer) =
      let duration = ctx.finished_at - ctx.started_at in
      if leb 200 status && ltb status 300
      then (success (forwarded answer), federated_audit d i "federated_ok" none duration ∷ [])
      else (
        failure status
            (Option.get_or (string_of (get_field answer "code")) "FEDERATION_UPSTREAM_ERROR"),
        federated_audit d i (if status == 403 then "federated_denied" else "federated_error")
              (some (upstream_error status text answer)) duration
            ∷ [],
      )

  -- The signed request to the peer.
  unfoldable pub outbound : DelegationReceivedRow → InvokeInput → String → Outbound
  unfolding outbound_body strip_slashes
  outbound d i pubkey =
      let raw = ctx.stringify (outbound_body d i ctx.request_id ctx.timestamp) in
      record {
        url = str_append (strip_slashes d.peer_hub_url) "/v1/federation/call";
        pubkey = pubkey;
        signature =
            bytes_to_base64url ctx.platform (ctx.platform.sign (ctx.platform.encode_text raw));
        raw = raw;
      }

  unfoldable pub send : DelegationReceivedRow → InvokeInput → Invoked
  unfolding conclude
  send d i = elim ctx.load_identity [
    | err e ↦ stop (failure 500 "IDENTITY_LOAD_FAILED") []
    | ok pubkey ↦
        let out = outbound d i pubkey in
        let (response, audited) = conclude d i (ctx.request out) in
        record { response = response; audited = audited; sent = some out }
  ]

  -- The first match, which is the one whose expiry is the last text.
  unfoldable pub use_delegation : InvokeInput → DelegationReceivedRow → Invoked
  unfolding unsent_audit
  use_delegation i d =
      let duration = ctx.now - ctx.started_at in
      let name = str_append "delegation " d.delegation_id in
      if is_revoked d.revoked
      then stop (failure 403 "DELEGATION_REVOKED") (
          unsent_audit i i.tool d.plugin d.scope (some d.peer_verify_key) duration
            (str_append name " revoked")
          ∷ [])
      else if is_expired (ctx.parse_date d.expires_at) ctx.now
      then stop (failure 403 "DELEGATION_EXPIRED") (
          unsent_audit i i.tool d.plugin d.scope (some d.peer_verify_key) duration
            (str_append name " expired")
          ∷ [])
      else send d i

  unfoldable pub pick : InvokeInput → String → String → ReceivedTable → Invoked
  unfolding unsent_audit
  pick i hub tool [] = stop (failure 404 "DELEGATION_NOT_FOUND") (
      unsent_audit i tool "federation" "federation:external" none (ctx.now - ctx.started_at)
        (str_append "[DELEGATION_NOT_FOUND] peer=" (str_append hub (str_append " tool=" tool)))
      ∷ [])
  pick i hub tool (d ∷ rows) = use_delegation i d

  unfoldable pub invoke_tool : InvokeInput → ReceivedTable → Invoked
  invoke_tool i rows = elim (parse_federated_tool_name i.tool) [
    | none ↦ stop (failure 400 "INVALID_FEDERATED_NAME") []
    | some (hub, tool) ↦ pick i hub tool (find_received_match hub tool rows)
  ]

  unfoldable pub read_invoke_body : InvokeBody → ReceivedTable → Invoked
  unfolding invoke_input
  read_invoke_body (InvokeBody.unreadable e) rows = stop (failure 400 "INVALID_BODY") []
  read_invoke_body (InvokeBody.readable json) rows = invoke_tool (invoke_input json) rows

  -- `handleFederationInvoke`. There is no table if the hub was built without federation.
  unfoldable pub handle_federation_invoke : InvokeBody → Option ReceivedTable → Invoked
  handle_federation_invoke body none = stop (failure 503 "FEDERATION_NOT_INITIALIZED") []
  handle_federation_invoke body (some rows) =
      if ctx.identity_exists
      then read_invoke_body body rows
      else stop (failure 503 "IDENTITY_NOT_INITIALIZED") []
