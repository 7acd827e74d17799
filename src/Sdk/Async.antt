-- ===== src/Sdk/Async.antt =====
-- packages/plugin-sdk/src/plugin.ts: the instance of a plugin, and its async functions.
use pdatahub.Prelude.{Option, ℕ, ◌+◌, none, some, String, if◌then◌else◌, Bool, ltb}

-- An exception, with the members that `handleLifecycle` reads.
pub record Thrown : Type 0 where
  pub message : String
  pub code : Option String
  pub retryable : Option Bool
  pub details : Option String

-- How a promise ends, and after how many milliseconds. A rejection with null or nothing has no exception.
pub data Settled (A : Type 0) : Type 0 where
  fulfils : ℕ → A → Settled A
  rejects : ℕ → Option Thrown → Settled A
  never : Settled A

-- The instance: the fields of the subclass, those of `Plugin`, and whether the exit is scheduled.
pub record Instance (S : Type 0) : Type 0 where
  pub own : S
  pub token : Option String
  pub call_count : ℕ
  pub last_call_at : Option ℕ
  pub exits : Bool

-- An async function of the instance.
abbrev pub Async : Type 0 → Type 0 → Type 0
Async S A = Instance S → Instance S × Settled A

-- A promise behind another, which took a time.
unfoldable pub delay : {A : Type 0} → ℕ → Settled A → Settled A
delay t (fulfils s a) = fulfils (t + s) a
delay t (rejects s e) = rejects (t + s) e
delay t never = never

unfoldable pub after : {S A B : Type 0} → Settled A → (A → Async S B) → Async S B
after (fulfils t a) f i = ((f a i).0, delay t (f a i).1)
after (rejects t e) f i = (i, rejects t e)
after never f i = (i, never)

-- The exception of reading a member of null or nothing; its text is shortened.
abbrev pub type_error : Thrown
type_error = record {
  message = "Cannot read properties";
  code = none;
  retryable = none;
  details = none;
}

-- `await`, and `try` with the value that `catch` gives; the `catch` blocks read the message first, which throws for null
-- or nothing.
abbrev pub await : {S A B : Type 0} → Async S A → (A → Async S B) → Async S B
await m f i = after (m i).1 f (m i).0

unfoldable pub caught : {A : Type 0} → (Thrown → A) → Settled A → Settled A
caught f (fulfils t a) = fulfils t a
caught f (rejects t (some e)) = fulfils t (f e)
caught f (rejects t none) = rejects t (some type_error)
caught f never = never

abbrev late : Thrown
late = record { message = "timed out"; code = none; retryable = none; details = none }

-- `withTimeout`; the text of the timeout is shortened, and what the hook does later counts as done.
unfoldable pub in_time : {A : Type 0} → ℕ → Settled A → Settled A
in_time ms (fulfils t a) = if ltb ms t then rejects ms (some late) else fulfils t a
in_time ms (rejects t e) = if ltb ms t then rejects ms (some late) else rejects t e
in_time ms never = rejects ms (some late)
