-- ===== src/Approvals/Once.antt =====
-- approval-stream.ts: a request settles at most once.
use mathlib.Core.Option
use pdatahub.Prelude.{
  ◌≡◌, arith, none, String, lookup-remove, eq_refl, lookup, eq_iff, if◌then◌else◌, str_eq,
}
use pdatahub.Approvals.{
  PendingMap, Decision, decide, on_timeout, approval_decided, handle_message, resolved,
}

-- A request that was decided or that timed out settles no more: neither a second decision nor the
-- timer has an effect.
pub decide-once :
    (id : String) (d e : Decision) (pending : PendingMap)
    → ((decide id e (decide id d pending).0).1 ≡ none)
      × ((on_timeout id (decide id d pending).0).1 ≡ none)
      × ((decide id e (on_timeout id pending).0).1 ≡ none)
unfolding decide on_timeout
decide-once id d e pending = (
  ground (arith, lookup-remove id id pending, eq_refl id),
  ground (arith, lookup-remove id id pending, eq_refl id),
  ground (arith, lookup-remove id id pending, eq_refl id),
)

-- A decision settles its request if and only if that is pending, with that decision; afterwards that
-- request is not pending, and every other one is as before.
pub handle_message-settles :
    (id j : String) (d : Decision) (pending : PendingMap)
    → ((handle_message (approval_decided id d) pending).1
        ≡ Option.map (λ a. resolved d) (lookup id pending))
      × (lookup j (handle_message (approval_decided id d) pending).0
          ≡ (if str_eq id j then none else lookup j pending))
unfolding handle_message decide
handle_message-settles id j d pending =
    (ground arith, ground (arith, lookup-remove id j pending, eq_iff id j))
