-- ===== src/Federation/Invoke/Received.antt =====
-- `handleFederationInvoke` and `handleFederationCall`: what one hub sends is what the other reads.
use pdatahub.Delegations.{DelegationReceivedRow}
use pdatahub.Federation.Call.{
  Services, CallBody, go, truthy, string_field, string_of, field_at, record_field, record_of,
}
use pdatahub.Federation.Call.Checks.{Hub, Received, parse_body}
use pdatahub.Federation.Invoke.{InvokeInput, outbound_body, justification_field, nonempty}
use pdatahub.Prelude.{◌≡◌, ◌≢◌, arith, eq_iff, none, some, refl, String, Option}

-- The call that the peer should see.
abbrev pub sent_call : DelegationReceivedRow → InvokeInput → String → String → CallBody
sent_call d i request_id timestamp = record {
  delegation_id = d.delegation_id;
  tool = d.tool;
  agent_id = i.agent_id;
  request_id = request_id;
  timestamp = timestamp;
  justification = nonempty i.justification;
  arguments = some i.arguments;
}

truthy-some : (s : String) → s ≢ "" → truthy (some s) ≡ some s
unfolding truthy
truthy-some s h = ground (arith, eq_iff s "")

justification_read :
    (j : Option String) → string_of (field_at "justification" (justification_field j)) ≡ nonempty j
unfolding string_of field_at justification_field nonempty
justification_read none = refl
justification_read (some s) = ground arith

-- The value of which the body of an outbound call is made is read by the peer as that call: each of its fields is the
-- one that was put in, and an empty justification is none. The id and the tool of the delegation, the agent, the
-- request_id and the timestamp are not empty, and the peer has read the text of the body as this value.
pub parse_body-outbound :
    (services : Services) (hub : Hub) (r : Received) (d : DelegationReceivedRow) (i : InvokeInput)
    (request_id timestamp : String)
    → r.json ≡ outbound_body d i request_id timestamp
    → d.delegation_id ≢ ""
    → d.tool ≢ ""
    → i.agent_id ≢ ""
    → request_id ≢ ""
    → timestamp ≢ ""
    → parse_body services hub r ≡ go (sent_call d i request_id timestamp)
unfolding parse_body outbound_body string_field record_field string_of record_of field_at
parse_body-outbound services hub r d i request_id timestamp e hd ht ha hr hw =
    rw (e, parse_body)
      (ground (
        arith,
        truthy-some d.delegation_id hd,
        truthy-some d.tool ht,
        truthy-some i.agent_id ha,
        truthy-some request_id hr,
        truthy-some timestamp hw,
        justification_read i.justification,
      ))
