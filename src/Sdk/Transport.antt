-- ===== src/Sdk/Transport.antt =====
-- packages/plugin-sdk/src/transport.ts: JSON-RPC over lines of text. The handler is a function of a state of its
-- own; `JSON.parse` is a parameter.
pub mod Lines
pub mod Replies
mod Tests
use Prim.Native.Char.{Char, code}
use pdatahub.Prelude.{
  String, ◌∷◌, [], none, some, true, false, Option, ℕ, List, if◌then◌else◌, ◌==◌, str_eq, Bool, not,
  str_append, ◌&&◌, ◌++◌, ltb, ok, err, Result,
}
use pdatahub.RateLimit.Route.{trim}

-- What the transport reads of a request; `id` is `none` if absent or null.
pub record Request : Type 0 where
  pub jsonrpc : Option String
  pub id : Option String
  pub method : String
  pub params : String

-- What `JSON.parse` gives. A value that is no object has no `jsonrpc`, but that of `null` cannot be read.
pub data Parsed : Type 0 where
  malformed : Parsed
  null_value : Parsed
  value : Request → Parsed

-- The member `data` of an error, of which `handleRequest` gives none.
pub record ErrorData : Type 0 where
  pub tool : Option String
  pub hook : Option String
  pub error_code : Option String
  pub retryable : Option Bool
  pub details : Option String

pub data Response : Type 0 where
  reply : String → String → Response
  failure : String → ℕ → String → Option ErrorData → Response

-- How a call of the handler ends, and after how many milliseconds; `throws_nothing` is an exception that is null or
-- nothing.
pub data Outcome : Type 0 where
  returns : Response → Outcome
  returns_null : Outcome
  throws : String → Outcome
  throws_nothing : Outcome

pub data Answer : Type 0 where
  settles : ℕ → Outcome → Answer
  never : Answer

-- How the reading of a line ends: go on, with the response that is written, or an exception ends `listen`, or
-- the handler is waited for without end.
pub data Handled : Type 0 where
  writes : Response → Handled
  silent : Handled
  breaks : Handled
  hangs : Handled

-- A character in front of lines and of the text behind them.
unfoldable pub put_char : Char → List String → String → List String × String
put_char c [] rest = if code c == 10 then ("" ∷ [], rest) else ([], String.◌∷◌ c rest)
put_char c (l ∷ ls) rest = if code c == 10 then ("" ∷ l ∷ ls, rest) else (String.◌∷◌ c l ∷ ls, rest)

-- The complete lines, and the text behind the last line end, that the loop of `listen` leaves in the buffer.
unfoldable pub take_lines : String → List String × String
take_lines String.[] = ([], "")
take_lines (String.◌∷◌ c s) = put_char c (take_lines s).0 (take_lines s).1

-- Codes of JSON-RPC errors, without their sign.
abbrev pub timed_out : ℕ
timed_out = 32000

abbrev pub internal_error : ℕ
internal_error = 32603

unfoldable pub or_text : String → String → String
or_text s t = if str_eq s "" then t else s

-- `withTimeout`: the outcome if it comes in time. A timeout of 0 is none.
unfoldable pub is_late : ℕ → ℕ → Bool
is_late timeout after = not (timeout == 0) && ltb timeout after

unfoldable pub conclude : String → Outcome → Handled
conclude id (returns r) = writes r
conclude id returns_null = silent
conclude id (throws message) =
    writes (failure id internal_error (or_text message "Internal error") none)
conclude id throws_nothing = breaks

-- The end of a request with an id. The text of a timeout is shortened.
unfoldable pub respond : ℕ → String → Answer → Handled
respond timeout id never =
    if timeout == 0 then hangs else writes (failure id timed_out "timed out" none)
respond timeout id (settles after outcome) =
    if is_late timeout after
    then writes (failure id timed_out "timed out" none)
    else conclude id outcome

-- The end of a notification: no timeout, and nothing is written. The `catch` block throws for null or nothing.
unfoldable pub ignore : Answer → Handled
ignore never = hangs
ignore (settles after (returns r)) = silent
ignore (settles after returns_null) = silent
ignore (settles after (throws message)) = silent
ignore (settles after throws_nothing) = breaks

unfoldable pub finish : ℕ → Option String → Answer → Handled
finish timeout none a = ignore a
finish timeout (some id) a = respond timeout id a

-- What has happened so far: the handler's state, the responses written, and whether `listen` goes on.
pub record Run (H : Type 0) : Type 0 where
  pub state : H
  pub written : List Response
  pub goes_on : Bool

abbrev pub behind : {H : Type 0} → List Response → Run H → Run H
behind rs r = record r { written = rs ++ r.written }

-- One part of the loop and then the next, unless it has ended.
unfoldable pub and_then : {H : Type 0} → Run H → (H → Run H) → Run H
and_then r f = elim r.goes_on [ false ↦ r | true ↦ behind r.written (f r.state) ]

unfoldable pub run_of : {H : Type 0} → H → Handled → Run H
run_of h (writes r) = record { state = h; written = r ∷ []; goes_on = true }
run_of h silent = record { state = h; written = []; goes_on = true }
run_of h breaks = record { state = h; written = []; goes_on = false }
run_of h hangs = record { state = h; written = []; goes_on = false }

unfoldable pub is_version_2 : Request → Bool
is_version_2 r = elim r.jsonrpc [ none ↦ false | some v ↦ str_eq v "2.0" ]

module _ {H : Type 0} (parse : String → Parsed) (handler : Request → H → H × Answer)
    (timeout : ℕ) where
  -- `handleRequest`
  unfoldable pub handle_request : Request → H → H × Handled
  handle_request r h = ((handler r h).0, finish timeout r.id (handler r h).1)

  unfoldable pub process_value : Parsed → H → H × Handled
  process_value malformed h = (h, silent)
  process_value null_value h = (h, breaks)
  process_value (value r) h = elim (is_version_2 r) [
    | true ↦ handle_request r h
    | false ↦ (h, silent)
  ]

  -- `processLine`
  unfoldable pub process_line : String → H → H × Handled
  process_line line h = process_value (parse line) h

  -- One turn of the loop: an empty line is skipped.
  unfoldable pub take_line : String → H → Run H
  take_line line h = elim (str_eq (trim line) "") [
    | true ↦ run_of h silent
    | false ↦ run_of (process_line (trim line) h).0 (process_line (trim line) h).1
  ]

  -- The loop over the lines of the buffer.
  unfoldable pub process_lines : List String → H → Run H
  process_lines [] h = run_of h silent
  process_lines (l ∷ ls) h = and_then (take_line l h) (process_lines ls)

  -- The loop of `listen` over the chunks that stdin gives, with the buffer.
  unfoldable pub listen_from : String → List String → H → Run H
  listen_from buffer [] h = run_of h silent
  listen_from buffer (chunk ∷ chunks) h =
      and_then (process_lines (take_lines (str_append buffer chunk)).0 h)
        (listen_from (take_lines (str_append buffer chunk)).1 chunks)

  -- `listen`: what it writes on stdin's chunks, and whether it ends without an exception.
  unfoldable pub listen : List String → H → Run H
  listen chunks h = listen_from "" chunks h

  -- A call of `listen`, of which the second throws, after `running` has been set by the first.
  unfoldable pub listen_once : Bool → List String → H → Bool × Result (Run H)
  listen_once running chunks h = elim running [
    | true ↦ (true, err "StdioTransport.listen() called twice")
    | false ↦ (true, ok (listen chunks h))
  ]
