-- ===== src/Federation/Invoke/Sends.antt =====
-- `handleFederationInvoke`: what is sent, and to whom.
use pdatahub.Delegations.{DelegationReceivedRow, ReceivedTable}
use pdatahub.Delegations.Tables.{IsUsable}
use pdatahub.Delegations.Canonical.{Json, str_le}
use pdatahub.Federation.Names.{parse_federated_tool_name}
use pdatahub.Federation.Invoke.{Outbound, InvokeContext, invoke_input}
use pdatahub.Federation.Invoke.Run.{outbound}
use pdatahub.Prelude.{◌≡◌, Memᴰ, some, ok, String, ◌<◌, true, ℕ}

-- What was sent is the signed call of a delegation in the table, from the hub that the tool's name says,
-- for the tool that it says, which is not revoked, whose expiry is a date to come, and whose expiry is, as a text, the last of those.
pub record IsSent (ctx : InvokeContext) (json : Json) (rows : ReceivedTable) (out : Outbound)
    : Type 0 where
  pub hub : String
  pub tool : String
  pub named : parse_federated_tool_name (invoke_input json).tool ≡ some (hub, tool)
  pub row : DelegationReceivedRow
  pub listed : Memᴰ row rows
  pub usable : IsUsable hub tool row
  pub expires : ℕ
  pub date : ctx.parse_date row.expires_at ≡ some expires
  pub unexpired : ctx.now < expires
  pub latest :
      (r : DelegationReceivedRow)
      → Memᴰ r rows
      → IsUsable hub tool r
      → str_le r.expires_at row.expires_at ≡ true
  pub pubkey : String
  pub own : ctx.load_identity ≡ ok pubkey
  pub same : out ≡ outbound ctx row (invoke_input json) pubkey
