-- ===== src/Retry/Tests.antt =====
-- Runs of morf/utils/retry.go, and its theorems at concrete inputs.
use morf.Prelude.{
  ℕ, ◌*◌, ◌-◌, ◌^◌, ◌≤◌, ◌<◌, ◌≡◌, ◌≢◌, refl, true, false, none, some, [], ◌∷◌, if◌then◌else◌, ltb,
  lt→ltb, inl, arith,
}
use morf.Retry.{
  pos, Failure, is_retryable, RetryConfig, Environment, returned, panicked, retry_with_context,
}
use morf.Retry.Attempts.{retry_with_context-bounded, retry_with_context-decides}

program : Unit {0}
unfolding is_retryable retry_with_context
program = tt

abbrev busy : Failure
busy = record {
  text = "s3: 503 Slow Down";
  lowered = "s3: 503 slow down";
  non_retryable = false;
  retryable = false;
  wrapper = none;
  net_error = false;
  url_error = false;
}

-- the first two attempts meet a busy server
abbrev flaky : Environment
flaky = record {
  done = λ i. none;
  done_waiting = λ i. none;
  fn = λ i. if ltb i 2 then some busy else none;
  scaled = λ i. pos (200 * 2 ^ (i - 1));
  int63n = λ i q. 0;
}

abbrev config : RetryConfig
config = record { max_retries = pos 3; max_delay = pos 300; jitter = true }

third_time :
    retry_with_context flaky config
    ≡ record { outcome = returned none; calls = 3; waits = pos 200 ∷ pos 300 ∷ [] }
unfolding program
third_time = refl

no_retries :
    (retry_with_context flaky (record config { max_retries = pos 0 })).outcome
    ≡ returned (some busy)
unfolding program
no_retries = refl

retry_with_context-bounded_example :
    let run = retry_with_context flaky config in (run.outcome ≢ panicked) × (run.calls ≤ 4)
retry_with_context-bounded_example = retry_with_context-bounded flaky config 3 refl

busy_at_first : (i : ℕ) → i < 2 → is_retryable (flaky.fn i) ≡ true
unfolding program
busy_at_first i h = rw (lt→ltb i 2 h) refl

succeeds : is_retryable (flaky.fn 2) ≡ false
unfolding program
succeeds = refl

retry_with_context-decides_example :
    let run = retry_with_context flaky config in
    (run.outcome ≡ returned (flaky.fn 2)) × (run.calls ≡ 3)
retry_with_context-decides_example =
    retry_with_context-decides flaky config 2 (λ i h. refl) (λ i h. refl) busy_at_first 3 refl
      (omega arith) (inl succeeds)
