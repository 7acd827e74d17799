-- ===== src/Sdk/Transport/Tests.antt =====
-- Runs of the transport, and the witnesses of its theorems. The texts of the requests are two words.
use pdatahub.Prelude.{
  String, ◌∷◌, [], none, some, true, false, refl, if◌then◌else◌, Option, ℕ, ◌≡◌, str_eq, ◌+◌,
}
use pdatahub.RateLimit.Route.{trim, trim_start, trim_end, is_space}
use pdatahub.Sdk.Transport.{
  Request, Parsed, Answer, malformed, null_value, value, reply, failure, returns, throws, settles,
  never, put_char, take_lines, take_line, process_lines, process_line, process_value,
  handle_request, is_version_2, respond, ignore, conclude, finish, is_late, or_text, run_of,
  and_then, listen_from, listen, timed_out,
}
use pdatahub.Sdk.Transport.Lines.{listen-concat}

abbrev ping : Request
ping = record { jsonrpc = some "2.0"; id = some "1"; method = "ping"; params = "" }

abbrev stop : Request
stop = record { jsonrpc = some "2.0"; id = none; method = "shutdown"; params = "" }

abbrev parse : String → Parsed
parse s =
    if str_eq s "ping"
    then value ping
    else if str_eq s "stop"
    then value stop
    else if str_eq s "null"
    then null_value
    else malformed

-- It counts its calls.
abbrev answer : Option String → Answer
answer none = settles 5 (throws "")
answer (some id) = settles 5 (returns (reply id "pong"))

abbrev counting : Request → ℕ → ℕ × Answer
counting r n = (n + 1, answer r.id)

-- Two requests in three chunks, the second with spaces and behind an empty line, and a last line that has no end.
two_requests :
    listen parse counting 0 ("pi" ∷ "ng\n\n p" ∷ "ing \nstop\nping" ∷ []) 0
    ≡ record { state = 3; written = reply "1" "pong" ∷ reply "1" "pong" ∷ []; goes_on = true }
unfolding listen listen_from and_then run_of process_lines take_line process_line process_value
    handle_request is_version_2 finish respond ignore conclude is_late or_text take_lines put_char
    trim trim_start trim_end is_space
two_requests = refl

-- The text `null` ends `listen` with an exception.
null_breaks :
    listen parse counting 0 ("null\nping\n" ∷ []) 0
    ≡ record { state = 0; written = []; goes_on = false }
unfolding listen listen_from and_then run_of process_lines take_line process_line process_value
    handle_request is_version_2 finish respond ignore conclude is_late or_text take_lines put_char
    trim trim_start trim_end is_space
null_breaks = refl

-- A handler that takes for ever under a timeout.
slow :
    listen parse (λ r (n : ℕ). (n, never)) 1000 ("ping\n" ∷ []) 0
    ≡ record { state = 0; written = failure "1" timed_out "timed out" none ∷ []; goes_on = true }
unfolding listen listen_from and_then run_of process_lines take_line process_line process_value
    handle_request is_version_2 finish respond ignore conclude is_late or_text take_lines put_char
    trim trim_start trim_end is_space
slow = refl

listen-concat_example :
    listen parse counting 0 ("pi" ∷ "ng\nst" ∷ "op\n" ∷ []) 0
    ≡ listen parse counting 0 ("ping\nstop\n" ∷ []) 0
listen-concat_example = listen-concat parse counting 0 "pi" ("ng\nst" ∷ "op\n" ∷ []) 0
