-- ===== src/Approvals/Tests.antt =====
-- approval-stream.ts: tests, and the theorems at concrete requests.
use pdatahub.Approvals.Stream.{
  is_crash, is_null, crashes, Origin, Stream, Event, sent, closed, settles, connects, requests,
  receives, reaches, reauths, closes, approval_request, present, truthy, run, step,
  handle_connection, broadcast, broadcast_android, is_android, is_attached, settle, subject, due,
  fire,
}
use pdatahub.Approvals.Settles.{count}
use pdatahub.Approvals.Live.{count-run}
use pdatahub.Approvals.Admitted.{run-IsAdmitted}
use pdatahub.Approvals.{request_approval, on_timeout, rejected}
use pdatahub.Approvals.{
  PendingApproval, PendingMap, denied, approved, resolved, decide, on_timeout, null_value,
  approval_decided, handle_message, is_let_in, is_some_eq,
}
use pdatahub.Prelude.{
  ◌≡◌, lookup, remove, [], none, some, true, false, refl, ◌∷◌, List, insert, ◌++◌, String, arith,
  Memᴰ,
}

abbrev waiting : PendingApproval
waiting = record {
  agent_id = "claude";
  tool_name = "gmail.search";
  scope = "gmail.read";
  justification = none;
  created_at = 5;
  timeout_ms = 60000;
}

abbrev pending : PendingMap
pending = ("a", waiting) ∷ ("b", waiting) ∷ []

denied_once :
    handle_message (approval_decided "a" denied) pending
    ≡ (("b", waiting) ∷ [], some (resolved denied))
unfolding handle_message decide lookup remove
denied_once = refl

no_token : (is_let_in (some "t") none ≡ false) × (is_let_in none none ≡ true)
unfolding is_let_in is_some_eq
no_token = (refl, refl)

abbrev origin : Origin
origin = record { delegated_by = none; peer_hub_name = some ""; peer_agent_id = none }

abbrev quiet : Stream
quiet = record { clients = []; attached = []; pending = [] }

abbrev decided : List Event
decided =
    connects "phone" (some "t")
    ∷ requests "a" waiting origin
    ∷ receives "phone" (approval_decided "a" denied)
    ∷ []

-- The message of the request is sent to the phone, and the decision settles it.
phone_run :
    (run (some "t") decided quiet).1
    ≡ sent "phone" (approval_request "a" waiting (present origin))
      ∷ settles "a" (resolved denied)
      ∷ []
unfolding run is_crash is_null step handle_connection is_let_in is_some_eq request_approval
    broadcast present truthy is_attached handle_message decide settle subject lookup insert remove
    due fire on_timeout is_android broadcast_android
phone_run = refl

-- A client with another token is closed, and its decision has no effect; the timer settles the request.
stranger_run :
    (run
      (some "t")
      (connects "stranger" (some "x")
        ∷ requests "a" waiting origin
        ∷ receives "stranger" (approval_decided "a" (approved none))
        ∷ reaches 60005
        ∷ [])
      quiet).1
    ≡ closed "stranger" ∷ settles "a" (rejected "approval timeout") ∷ []
unfolding run is_crash is_null step handle_connection is_let_in is_some_eq request_approval
    broadcast present truthy is_attached handle_message decide settle subject lookup insert remove
    due fire on_timeout is_android broadcast_android
stranger_run = refl

-- No notice for phones reaches a client, since no code sets the user agent.
reauth_run : (run none (connects "phone" none ∷ reauths "gmail" ∷ []) quiet).1 ≡ []
unfolding run is_crash is_null step handle_connection is_let_in is_some_eq request_approval
    broadcast present truthy is_attached handle_message decide settle subject lookup insert remove
    due fire on_timeout is_android broadcast_android
reauth_run = refl

-- A message that is null ends the hub, and the request stays as it is.
null_run :
    (run none
      (connects "phone" none
        ∷ requests "a" waiting origin
        ∷ receives "phone" null_value
        ∷ reaches 60005
        ∷ [])
      quiet).1
    ≡ sent "phone" (approval_request "a" waiting (present origin)) ∷ crashes ∷ []
unfolding run is_crash is_null step handle_connection is_let_in is_some_eq request_approval
    broadcast present truthy is_attached handle_message settle subject insert
null_run = refl

count-run_example :
    count "a"
      (run
        (some "t")
        (requests "a" waiting origin
            ∷ (connects "phone" (some "t") ∷ receives "phone" (approval_decided "b" denied) ∷ [])
          ++ (reaches 60005 ∷ closes ∷ []))
        quiet).1
    ≡ 1
unfolding is_null
count-run_example =
    count-run "a" (some "t") waiting origin quiet
      (connects "phone" (some "t") ∷ receives "phone" (approval_decided "b" denied) ∷ [])
      (closes ∷ []) 60005 tt (tt, (refl, tt)) (tt, tt) (omega arith)

decided_settles : Memᴰ (settles "a" (resolved denied)) (run (some "t") decided quiet).1
unfolding run is_crash is_null step handle_connection is_let_in is_some_eq request_approval
    broadcast present truthy is_attached handle_message decide settle subject lookup insert remove
    due fire on_timeout is_android broadcast_android
decided_settles = Memᴰ.tail (Memᴰ.head refl)

run-IsAdmitted_example :
    (name : String) × Memᴰ (connects name (some "t")) decided
    × Memᴰ (receives name (approval_decided "a" denied)) decided
run-IsAdmitted_example = run-IsAdmitted "t" decided quiet "a" denied refl refl decided_settles
