-- ===== src/Retry.antt =====
-- morf/utils/retry.go: `IsRetryable` and `RetryWithContext`. What the context, the function and the
-- random numbers do in each attempt is an argument; so is the floating-point product of the delay.
pub mod Attempts
pub mod Waits
mod Tests
use morf.Prelude.{
  ℕ, zero, suc, ◌+◌, ◌-◌, ◌*◌, ◌/◌, ◌%◌, ◌^◌, String, Bool, true, false, not, ◌||◌, Option, none,
  some, List, [], ◌∷◌, if◌then◌else◌, ltb, any,
}
use morf.Worker.Retry.{contains}

-- a Go int or int64
pub data ℤ : Type 0 where
  pos negsuc : ℕ → ℤ

-- the integer with these 64 bits
abbrev pub int64 : ℕ → ℤ
int64 n =
    let bits = n % 2 ^ 64 in if ltb bits (2 ^ 63) then pos bits else negsuc (2 ^ 64 - 1 - bits)

abbrev pub exceeds : ℤ → ℤ → Bool
exceeds (pos a) (pos b) = ltb b a
exceeds (pos a) (negsuc b) = true
exceeds (negsuc a) (pos b) = false
exceeds (negsuc a) (negsuc b) = ltb a b

-- An error: its text, the text in lower case, what errors.Is and errors.As find in it, and whether
-- it is a net.Error or a *url.Error itself.
pub record Failure : Type 0 where
  pub text : String
  pub lowered : String
  pub non_retryable : Bool
  pub retryable : Bool
  pub wrapper : Option Bool
  pub net_error : Bool
  pub url_error : Bool

abbrev server_codes : List String
server_codes = "500" ∷ "502" ∷ "503" ∷ "504" ∷ []

-- the structural checks and the reading of the text
unfoldable pub is_retryable_by_text : Failure → Bool
is_retryable_by_text e =
    if e.net_error
    then true
    else if contains e.text "timeout" || contains e.text "deadline exceeded"
    then true
    else if e.url_error
    then true
    else any (contains e.lowered) server_codes

unfoldable pub is_retryable : Option Failure → Bool
unfolding is_retryable_by_text
is_retryable none = false
is_retryable (some e) =
    if e.non_retryable
    then false
    else if e.retryable
    then true
    else elim e.wrapper [ some retryable ↦ retryable | none ↦ is_retryable_by_text e ]

pub record RetryConfig : Type 0 where
  pub max_retries : ℤ
  pub max_delay : ℤ
  pub jitter : Bool

-- What an attempt meets, by its number: `ctx.Err()` at its start and while it waits, the result of
-- the function, `InitialDelay * Multiplier ^ (attempt - 1)` and `rand.Int63n`.
pub record Environment : Type 0 where
  pub done : ℕ → Option Failure
  pub done_waiting : ℕ → Option Failure
  pub fn : ℕ → Option Failure
  pub scaled : ℕ → ℤ
  pub int63n : ℕ → ℕ → ℕ

pub data Outcome : Type 0 where
  returned : Option Failure → Outcome
  panicked : Outcome

-- a run, with the number of its calls and the delays that it waited for
pub record Run : Type 0 where
  pub outcome : Outcome
  pub calls : ℕ
  pub waits : List ℤ

abbrev pub ended : Outcome → Run
ended o = record { outcome = o; calls = 0; waits = [] }

abbrev pub called : Run → Run
called r = record r { calls = suc r.calls }

abbrev pub waited : ℤ → Run → Run
waited d r = record r { waits = d ∷ r.waits }

unfoldable pub jittered : Environment → ℕ → ℤ → ℤ
jittered env attempt (negsuc d) = negsuc d
jittered env attempt (pos d) =
    if ltb 0 (d / 4) then int64 (d + env.int63n attempt (d / 4)) else pos d

unfoldable pub delay : Environment → RetryConfig → ℕ → ℤ
unfolding jittered
delay env config attempt =
    let d = env.scaled attempt in
    let capped = if exceeds d config.max_delay then config.max_delay else d in
    if config.jitter then jittered env attempt capped else capped

-- the call of the function, where `rest` is what the later attempts do
unfoldable pub execute : Environment → ℕ → Run → Run
unfolding is_retryable
execute env attempt rest = called (elim (env.fn attempt) [
  | none ↦ ended (returned none)
  | some e ↦ if not (is_retryable (some e)) then ended (returned (some e)) else rest
])

unfoldable pub try_attempt : Environment → RetryConfig → ℕ → Run → Run
unfolding execute delay
try_attempt env config zero rest = execute env zero rest
try_attempt env config (suc n) rest =
    waited (delay env config (suc n)) (elim (env.done_waiting (suc n)) [
      | some e ↦ ended (returned (some e))
      | none ↦ execute env (suc n) rest
    ])

-- the loop over the attempts left, with `lastErr`
unfoldable pub retry_loop : Environment → RetryConfig → ℕ → ℕ → Option Failure → Run
unfolding try_attempt
retry_loop env config attempt zero none = ended panicked
retry_loop env config attempt zero (some e) = ended (returned (some e))
retry_loop env config attempt (suc left) last =
    let rest = retry_loop env config (suc attempt) left (env.fn attempt) in
    elim (env.done attempt) [
      | some e ↦ ended (returned (some e))
      | none ↦ try_attempt env config attempt rest
    ]

abbrev pub attempts : RetryConfig → ℕ
attempts config = elim config.max_retries [ pos n ↦ suc n | negsuc n ↦ 0 ]

unfoldable pub retry_with_context : Environment → RetryConfig → Run
unfolding retry_loop
retry_with_context env config = retry_loop env config 0 (attempts config) none
