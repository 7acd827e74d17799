-- ===== src/Approvals/Stream.antt =====
-- packages/hub-core/src/approval-stream.ts: the stream as a whole. Its sockets, with the state that the library
-- of web sockets gives them, its timers and the order of what happens are the events of a run.
use pdatahub.Prelude.{
  String, [], none, some, true, false, Option, List, Bool, ℕ, if◌then◌else◌, str_eq, ◌∷◌, keep,
  ◌&&◌, ◌++◌, leb, ◌||◌, not, ◌+◌, map, length,
}
use pdatahub.Approvals.{
  PendingApproval, PendingMap, Settled, Message, request_approval, on_timeout, close,
  handle_message, is_let_in,
}

-- A socket: the token of its URL, whether its `readyState` is OPEN, and its property `userAgent`.
pub record Client : Type 0 where
  pub name : String
  pub token : Option String
  pub is_open : Bool
  pub user_agent : Option String

-- Of the call of a peer's agent: left out where absent or empty.
pub record Origin : Type 0 where
  pub delegated_by : Option String
  pub peer_hub_name : Option String
  pub peer_agent_id : Option String

-- `ApprovalStreamMessage`, as the stream sends it; the last four carry their content.
pub data Notice : Type 0 where
  approval_request : String → PendingApproval → Origin → Notice
  audit_update : String → Notice
  grant_revoked : String → Notice
  plugin_reauth : String → Notice
  vault_access : String → Notice

-- What the stream does to the outside: it sends, it closes a socket, it settles a promise, or
-- an unhandled rejection ends the process.
pub data Output : Type 0 where
  sent : String → Notice → Output
  closed : String → Output
  settles : String → Settled → Output
  crashes : Output

-- The set of the clients, the sockets that have handlers, and the requests that wait.
pub record Stream : Type 0 where
  pub clients : List Client
  pub attached : List String
  pub pending : PendingMap

unfoldable pub truthy : Option String → Option String
truthy none = none
truthy (some s) = if str_eq s "" then none else some s

unfoldable pub present : Origin → Origin
present o = record {
  delegated_by = truthy o.delegated_by;
  peer_hub_name = truthy o.peer_hub_name;
  peer_agent_id = truthy o.peer_agent_id;
}

unfoldable pub is_android : Option String → Bool
is_android none = false
is_android (some agent) = str_eq agent "android-hub"

unfoldable pub broadcast : Notice → List Client → List Output
broadcast n [] = []
broadcast n (c ∷ cs) = let rest = broadcast n cs in if c.is_open then sent c.name n ∷ rest else rest

-- `broadcastPluginReauth` and `broadcastVaultAccess`.
unfoldable pub broadcast_android : Notice → List Client → List Output
broadcast_android n [] = []
broadcast_android n (c ∷ cs) =
    let rest = broadcast_android n cs in
    if c.is_open && is_android c.user_agent then sent c.name n ∷ rest else rest

-- `handleConnection`, under the token HUB_API_TOKEN. No code sets `userAgent`.
unfoldable pub handle_connection :
    Option String → String → Option String → Stream → Stream × List Output
handle_connection expected name token s =
    if is_let_in expected token
    then (
      record s {
        clients =
            s.clients
            ++ (record { name = name; token = token; is_open = true; user_agent = none } ∷ []);
        attached = name ∷ s.attached;
      },
      [],
    )
    else (s, closed name ∷ [])

-- `connectedClients`
unfoldable pub connected_clients : Stream → ℕ
connected_clients s = length s.clients

unfoldable pub set_open : String → Bool → List Client → List Client
set_open name b [] = []
set_open name b (c ∷ cs) =
    (if str_eq c.name name then record c { is_open = b } else c) ∷ set_open name b cs

-- The requests whose time is up.
unfoldable pub due : ℕ → PendingMap → List String
due now [] = []
due now ((id, a) ∷ m) =
    let rest = due now m in if leb (a.created_at + a.timeout_ms) now then id ∷ rest else rest

-- The outcome of one promise, in front of those of others.
unfoldable pub settle : String → Option Settled → List Output → List Output
settle id none os = os
settle id (some r) os = settles id r ∷ os

unfoldable pub fire : List String → PendingMap → PendingMap × List Output
fire [] pending = (pending, [])
fire (id ∷ ids) pending =
    let (p, outcome) = on_timeout id pending in
    let (q, os) = fire ids p in (q, settle id outcome os)

unfoldable pub rejections : List (String × Settled) → List Output
rejections [] = []
rejections ((id, r) ∷ rs) = settles id r ∷ rejections rs

unfoldable pub is_attached : String → List String → Bool
is_attached name [] = false
is_attached name (n ∷ ns) = str_eq n name || is_attached name ns

-- The request that a message decides, or none.
unfoldable pub subject : Message → String
subject (Message.approval_decided id d) = id
subject m = ""

pub data Event : Type 0 where
  connects : String → Option String → Event
  disconnects : String → Event
  changes : String → Bool → Event
  receives : String → Message → Event
  requests : String → PendingApproval → Origin → Event
  reaches : ℕ → Event
  audits : String → Event
  revokes : String → Event
  reauths : String → Event
  accesses : String → Event
  closes : Event

-- One event. A message counts if its socket has a handler; `reaches now` is the clock, with the timers that
-- are due; an id of `requests` is the UUID drawn.
unfoldable pub step : Option String → Event → Stream → Stream × List Output
step expected (connects name token) s = handle_connection expected name token s
step expected (disconnects name) s =
    (record s { clients = keep (λ c. not (str_eq c.name name)) s.clients }, [])
step expected (changes name b) s = (record s { clients = set_open name b s.clients }, [])
step expected (receives name m) s =
    if is_attached name s.attached
    then (
      record s { pending = (handle_message m s.pending).0 },
      settle (subject m) (handle_message m s.pending).1 [],
    )
    else (s, [])
step expected (requests id a o) s = (
  record s { pending = request_approval id a s.pending },
  broadcast (approval_request id a (present o)) s.clients,
)
step expected (reaches now) s = (
  record s { pending = (fire (due now s.pending) s.pending).0 },
  (fire (due now s.pending) s.pending).1,
)
step expected (audits entry) s = (s, broadcast (audit_update entry) s.clients)
step expected (revokes id) s = (s, broadcast (grant_revoked id) s.clients)
step expected (reauths n) s = (s, broadcast_android (plugin_reauth n) s.clients)
step expected (accesses n) s = (s, broadcast_android (vault_access n) s.clients)
step expected closes s = (
  record s { clients = []; pending = (close s.pending).0 },
  map (λ c. closed c.name) s.clients ++ rejections (close s.pending).1,
)

unfoldable pub is_null : Message → Bool
is_null Message.null_value = true
is_null m = false

-- A message that is null, at a socket with a handler: `msg.type` throws in the promise of `handleMessage`, which nobody
-- awaits.
unfoldable pub is_crash : Event → Stream → Bool
is_crash (receives name m) s = is_null m && is_attached name s.attached
is_crash e s = false

-- A run ends with the process.
unfoldable pub run : Option String → List Event → Stream → Stream × List Output
run expected [] s = (s, [])
run expected (e ∷ es) s =
    let (s', os) = step expected e s in
    let (s'', more) = run expected es s' in
    if is_crash e s then (s, crashes ∷ []) else (s'', os ++ more)
