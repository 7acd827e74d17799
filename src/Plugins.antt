-- ===== src/Plugins.antt =====
-- packages/hub-core/src/plugin-process.ts, `PluginProcess`: the requests to a plugin's process and the answers in
-- the lines that it prints. Spawning and the texts of log lines are left out.
pub mod Pending
pub mod Answered
pub mod Registry
pub mod Routes
pub mod Typed
mod Tests
-- The key of a pending request: the number of `nextId`, or the UUID of a heartbeat.
use pdatahub.Prelude.{
  [], none, some, true, false, suc, ℕ, Bool, String, Option, List, ◌==◌, any, keep, if◌then◌else◌,
  ◌∷◌, str_eq, not, ◌++◌, ◌&&◌, ltb, ◌-◌, ◌*◌,
}

pub data Key : Type 0 where
  request_id : ℕ → Key
  ping_id : String → Key

unfoldable pub key_eq : Key → Key → Bool
key_eq (request_id m) (request_id n) = m == n
key_eq (ping_id s) (ping_id t) = str_eq s t
key_eq j k = false

-- The member `error` of a response.
pub record ErrorReply : Type 0 where
  pub message : String
  pub code : ℕ
  pub data_text : Option String

pub data Reply (R : Type 0) : Type 0 where
  result : R → Reply R
  error : ErrorReply → Reply R

-- What a line of the plugin's stdout holds: JSON that is no object or array has no operator `in`; a message
-- has the id of `pending.get`, if that is a key.
pub data Line (R : Type 0) : Type 0 where
  blank : Line R
  malformed : Line R
  not_object : Line R
  notification : Line R
  message : Option Key → Reply R → Line R

-- How the promise of a request ends.
pub data Settlement (R : Type 0) : Type 0 where
  resolved : R → Settlement R
  plugin_error : ErrorReply → Settlement R
  timed_out : String → Settlement R
  terminated : Settlement R

-- What the hub does: it writes a request, settles a promise, kills the process, or ends by an exception that
-- nothing catches.
pub data Effect (R : Type 0) : Type 0 where
  writes : Key → String → Effect R
  settles : Key → Settlement R → Effect R
  kills : Effect R
  crashes : Effect R

pub record Process : Type 0 where
  pub pending : List Key
  pub next_id : ℕ
  pub last_pong : ℕ
  pub heartbeat : Bool

-- `new PluginProcess`
abbrev pub spawned : Process
spawned = record { pending = []; next_id = 1; last_pong = 0; heartbeat = true }

unfoldable pub has_key : Key → List Key → Bool
has_key k ks = any (key_eq k) ks

unfoldable pub delete_key : Key → List Key → List Key
delete_key k ks = keep (λ j. not (key_eq k j)) ks

-- `pending.set`
unfoldable pub set_key : Key → List Key → List Key
set_key k ks = if has_key k ks then ks else ks ++ k ∷ []

-- What happens to a process; `sends` is a call of `initialize`, `callTool` or `invokeLifecycleHook`.
pub data Event (R : Type 0) : Type 0 where
  sends : String → Event R
  timer : ℕ → String → Event R
  beats : String → Event R
  silence : ℕ → ℕ → String → Event R
  line : ℕ → Line R → Event R
  exits : Event R

module _ {R : Type 0} where
  -- `request`
  unfoldable pub request : String → Process → Process × List (Effect R)
  request method p =
      let key = request_id p.next_id in
      (
        record p { pending = set_key key p.pending; next_id = suc p.next_id },
        writes key method ∷ [],
      )

  -- The timer of a request, which is cleared when the request is settled.
  unfoldable pub on_timeout : ℕ → String → Process → Process × List (Effect R)
  on_timeout n method p =
      let key = request_id n in
      if has_key key p.pending
      then (record p { pending = delete_key key p.pending }, settles key (timed_out method) ∷ [])
      else (p, [])

  -- A turn of the heartbeat.
  unfoldable pub beat : String → Process → Process × List (Effect R)
  beat uuid p =
      if p.heartbeat
      then (
        record p { pending = set_key (ping_id uuid) p.pending },
        writes (ping_id uuid) "ping" ∷ [],
      )
      else (p, [])

  -- The timer of a heartbeat that has no answer; the entry stays.
  unfoldable pub on_silence : ℕ → ℕ → String → Process → Process × List (Effect R)
  on_silence heartbeat_ms now uuid p =
      if has_key (ping_id uuid) p.pending && ltb p.last_pong (now - 2 * heartbeat_ms)
      then (p, kills ∷ [])
      else (p, [])

  -- The answer to a heartbeat that is no error sets the time.
  unfoldable pub pong : ℕ → Key → Reply R → ℕ → ℕ
  pong now (ping_id uuid) (result r) last = now
  pong now k reply last = last

  unfoldable pub settlement : Reply R → Settlement R
  settlement (result r) = resolved r
  settlement (error e) = plugin_error e

  -- `handleLine` for a message.
  unfoldable pub on_message : ℕ → Option Key → Reply R → Process → Process × List (Effect R)
  on_message now none reply p = (p, [])
  on_message now (some k) reply p =
      if has_key k p.pending
      then (
        record p { pending = delete_key k p.pending; last_pong = pong now k reply p.last_pong },
        settles k (settlement reply) ∷ [],
      )
      else (p, [])

  -- `handleLine`
  unfoldable pub handle_line : ℕ → Line R → Process → Process × List (Effect R)
  handle_line now blank p = (p, [])
  handle_line now malformed p = (p, [])
  handle_line now not_object p = (p, crashes ∷ [])
  handle_line now notification p = (p, [])
  handle_line now (message k reply) p = on_message now k reply p

  unfoldable pub terminations : List Key → List (Effect R)
  terminations [] = []
  terminations (k ∷ ks) = settles k terminated ∷ terminations ks

  -- `cleanup`, when the process exits.
  unfoldable pub cleanup : Process → Process × List (Effect R)
  cleanup p = (record p { pending = []; heartbeat = false }, terminations p.pending)

  unfoldable pub step : Event R → Process → Process × List (Effect R)
  step (sends method) p = request method p
  step (timer n method) p = on_timeout n method p
  step (beats uuid) p = beat uuid p
  step (silence heartbeat_ms now uuid) p = on_silence heartbeat_ms now uuid p
  step (line now l) p = handle_line now l p
  step exits p = cleanup p

  unfoldable pub is_crash : Event R → Bool
  is_crash (line now not_object) = true
  is_crash e = false

  -- What happens until the hub ends.
  unfoldable pub run : List (Event R) → Process → Process × List (Effect R)
  run [] p = (p, [])
  run (e ∷ es) p =
      let (q, os) = step e p in
      let (r, more) = run es q in if is_crash e then (q, os) else (r, os ++ more)
