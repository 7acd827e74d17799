-- ===== src/Approvals.antt =====
-- packages/hub-core/src/approval-stream.ts: the requests that wait for a decision of the phone. The map
-- `pending` is an association list; a promise settles where an operation returns its outcome.
pub mod Once
pub mod Stream
pub mod Settles
pub mod Waiting
pub mod Live
pub mod Sources
pub mod Admitted
mod Tests
use pdatahub.Prelude.{
  ℕ, String, Option, none, some, List, [], ◌∷◌, Dict, lookup, insert, remove, map, str_append, true,
  false, Bool, str_eq, if◌then◌else◌,
}

-- The timer of a request is the name of the request itself.
pub record PendingApproval : Type 0 where
  pub agent_id : String
  pub tool_name : String
  pub scope : String
  pub justification : Option String
  pub created_at : ℕ
  pub timeout_ms : ℕ

pub data Decision : Type 0 where
  approved : Option String → Decision
  denied : Decision

-- How a promise settles: it resolves, or it rejects with a message.
pub data Settled : Type 0 where
  resolved : Decision → Settled
  rejected : String → Settled

abbrev pub PendingMap : Type 0
PendingMap = Dict PendingApproval

-- The timeout of one call, or else that of the stream.
unfoldable pub effective_timeout : Option ℕ → ℕ → ℕ
effective_timeout none timeout = timeout
effective_timeout (some ms) timeout = ms

-- What `requestApproval` puts into the map, with the UUID drawn.
unfoldable pub request_approval : String → PendingApproval → PendingMap → PendingMap
request_approval id approval pending = insert id approval pending

-- An `approval_decided` message; one for an unknown request is logged and dropped.
unfoldable pub decide : String → Decision → PendingMap → PendingMap × Option Settled
decide id decision pending = elim (lookup id pending) [
  | none ↦ (pending, none)
  | some approval ↦ (remove id pending, some (resolved decision))
]

-- The timer of a request fires. The milliseconds of the message are left out.
unfoldable pub on_timeout : String → PendingMap → PendingMap × Option Settled
on_timeout id pending = elim (lookup id pending) [
  | none ↦ (pending, none)
  | some approval ↦ (remove id pending, some (rejected "approval timeout"))
]

-- `close` rejects all that is pending.
unfoldable pub close : PendingMap → PendingMap × List (String × Settled)
close pending = ([], map (λ e. (e.0, rejected "approval stream closed")) pending)

-- A message of a client, as `JSON.parse` gives it; `malformed` is text that it rejects, and `null_value` is null.
pub data Message : Type 0 where
  malformed : Message
  null_value : Message
  pong : Message
  approval_decided : String → Decision → Message
  unknown : Message

-- What a message leaves waiting and settles. For null the source throws in front of all else, which ends the process:
-- the run of the stream sees to that.
unfoldable pub handle_message : Message → PendingMap → PendingMap × Option Settled
handle_message malformed pending = (pending, none)
handle_message null_value pending = (pending, none)
handle_message pong pending = (pending, none)
handle_message (approval_decided id decision) pending = decide id decision pending
handle_message unknown pending = (pending, none)

unfoldable pub is_some_eq : Option String → String → Bool
is_some_eq none s = false
is_some_eq (some r) s = str_eq r s

-- `handleConnection`: whether a client with this token is let in. An empty HUB_API_TOKEN is none.
unfoldable pub is_let_in : Option String → Option String → Bool
is_let_in none provided = true
is_let_in (some expected) provided =
    if str_eq expected "" then true else is_some_eq provided expected
