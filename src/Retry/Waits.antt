-- ===== src/Retry/Waits.antt =====
-- The delays of `RetryWithContext` in morf/utils/retry.go.
use morf.Prelude.{
  if◌then◌else◌, Option-cases, ℕ, zero, suc, ◌+◌, ◌/◌, ◌^◌, ◌≤◌, ◌<◌, ◌≡◌, Option, All, none, some,
  arith, inl, inr, Bool-cases, ltb, ltb→lt,
}
use morf.Retry.{
  ℤ, pos, negsuc, int64, exceeds, Failure, is_retryable, RetryConfig, Environment, Run, jittered,
  delay, execute, try_attempt, retry_loop, retry_with_context,
}

abbrev pub IsAtMost : ℕ → ℤ → Type 0
IsAtMost m (pos d) = d ≤ m
IsAtMost m (negsuc d) = Unit

int64-small : (n : ℕ) → n < 2 ^ 63 → int64 n ≡ pos n
int64-small n h = ground arith

module _ (env : Environment) (config : RetryConfig) where
  module _ (max : ℕ) (limit : config.max_delay ≡ pos max) (small : max ≤ 2 ^ 62)
      (random : (i q : ℕ) → 0 < q → env.int63n i q < q) where
    jittered-IsAtMost :
        (i : ℕ) (d : ℤ) → IsAtMost max d → IsAtMost (max + max / 4) (jittered env i d)
    unfolding jittered
    jittered-IsAtMost i (negsuc d) h = tt
    jittered-IsAtMost i (pos d) h = elim (Bool-cases (ltb 0 (d / 4))) [
      | inl e ↦
          rw
            (
              e,
              int64-small (d + env.int63n i (d / 4))
                  (omega (arith, random i (d / 4) (ltb→lt 0 (d / 4) e))),
            )
            (omega (arith, random i (d / 4) (ltb→lt 0 (d / 4) e)))
      | inr e ↦ rw e (omega arith)
    ]

    capped-IsAtMost :
        (d : ℤ) → IsAtMost max (if exceeds d config.max_delay then config.max_delay else d)
    capped-IsAtMost (pos d) =
        rw limit (elim (Bool-cases (ltb max d)) [
          | inl e ↦ rw e (omega arith)
          | inr e ↦ rw e (ground arith)
        ])
    capped-IsAtMost (negsuc d) = rw limit tt

    IsAtMost-more : (d : ℤ) → IsAtMost max d → IsAtMost (max + max / 4) d
    IsAtMost-more (pos d) h = omega (arith, h)
    IsAtMost-more (negsuc d) h = tt

    delay-IsAtMost : (i : ℕ) → IsAtMost (max + max / 4) (delay env config i)
    unfolding delay
    delay-IsAtMost i = elim (Bool-cases config.jitter) [
      | inl e ↦ rw (delay, e) (jittered-IsAtMost i _ (capped-IsAtMost (env.scaled i)))
      | inr e ↦ rw (delay, e) (IsAtMost-more _ (capped-IsAtMost (env.scaled i)))
    ]

    execute-waits :
        (i : ℕ) (rest : Run)
        → All (IsAtMost (max + max / 4)) rest.waits
        → All (IsAtMost (max + max / 4)) (execute env i rest).waits
    unfolding execute
    execute-waits i rest h = elim (Option-cases (env.fn i)) [
      | inl e ↦ rw e tt
      | inr (e, same) ↦ elim (Bool-cases (is_retryable (some e))) [
        | inl r ↦ rw (same, r) h
        | inr r ↦ rw (same, r) tt
      ]
    ]

    try_attempt-waits :
        (i : ℕ) (rest : Run)
        → All (IsAtMost (max + max / 4)) rest.waits
        → All (IsAtMost (max + max / 4)) (try_attempt env config i rest).waits
    unfolding try_attempt
    try_attempt-waits zero rest h = execute-waits zero rest h
    try_attempt-waits (suc n) rest h = elim (Option-cases (env.done_waiting (suc n))) [
      | inl e ↦ rw e (delay-IsAtMost (suc n), execute-waits (suc n) rest h)
      | inr (e, same) ↦ rw same (delay-IsAtMost (suc n), tt)
    ]

    retry_loop-waits :
        (left i : ℕ) (err : Option Failure)
        → All (IsAtMost (max + max / 4)) (retry_loop env config i left err).waits
    unfolding retry_loop
    retry_loop-waits zero i none = tt
    retry_loop-waits zero i (some e) = tt
    retry_loop-waits (suc left) i err = elim (Option-cases (env.done i)) [
      | inl e ↦
          rw (retry_loop, e) (try_attempt-waits i _ (retry_loop-waits left (suc i) (env.fn i)))
      | inr (e, same) ↦ rw (retry_loop, same) tt
    ]

    -- With a cap on the delay of at most 2 ^ 62 nanoseconds, and random numbers below their bound, no
    -- wait between two attempts is longer than the cap and a quarter of it.
    pub retry_with_context-waits :
        All (IsAtMost (max + max / 4)) (retry_with_context env config).waits
    unfolding retry_with_context
    retry_with_context-waits = retry_loop-waits _ 0 none
