-- ===== src/Retry/Attempts.antt =====
-- How often `RetryWithContext` of morf/utils/retry.go calls the function, and what it returns.
use morf.Prelude.{
  ◌⊎◌, refl, ap, sym, ◌∙◌, Option-cases, ℕ, zero, suc, ◌+◌, ◌≤◌, ◌<◌, ◌≡◌, ◌≢◌, true, false, Option,
  none, some, arith, inl, inr, Bool-cases,
}
use morf.Retry.{
  pos, Failure, is_retryable, RetryConfig, Environment, returned, panicked, Run, execute, ended,
  try_attempt, retry_loop, retry_with_context,
}

module _ (env : Environment) (config : RetryConfig) where
  execute-calls : (attempt : ℕ) (rest : Run) → (execute env attempt rest).calls ≤ suc rest.calls
  unfolding execute
  execute-calls attempt rest = ground arith

  try_attempt-calls :
      (attempt : ℕ) (rest : Run) → (try_attempt env config attempt rest).calls ≤ suc rest.calls
  unfolding try_attempt
  try_attempt-calls zero rest = execute-calls zero rest
  try_attempt-calls (suc n) rest = ground (arith, execute-calls (suc n) rest)

  retry_loop-calls :
      (left attempt : ℕ) (last : Option Failure)
      → (retry_loop env config attempt left last).calls ≤ left
  unfolding retry_loop
  retry_loop-calls zero attempt none = omega arith
  retry_loop-calls zero attempt (some e) = omega arith
  retry_loop-calls (suc left) attempt last =
      let rest = retry_loop env config (suc attempt) left (env.fn attempt) in
      ground (
        arith,
        try_attempt-calls attempt rest,
        retry_loop-calls left (suc attempt) (env.fn attempt),
      )

  -- neither the function's results nor a cancellation make a run end in a panic
  execute-returns :
      (attempt : ℕ) (rest : Run)
      → ((e : Failure) → env.fn attempt ≡ some e → rest.outcome ≢ panicked)
      → (execute env attempt rest).outcome ≢ panicked
  unfolding execute
  execute-returns attempt rest h = elim (Option-cases (env.fn attempt)) [
    | inl e ↦ rw e (λ p. ground (arith, p))
    | inr (e, same) ↦ elim (Bool-cases (is_retryable (some e))) [
      | inl r ↦ rw (same, r) (h e same)
      | inr r ↦ rw (same, r) (λ p. ground (arith, p))
    ]
  ]

  try_attempt-returns :
      (attempt : ℕ) (rest : Run)
      → ((e : Failure) → env.fn attempt ≡ some e → rest.outcome ≢ panicked)
      → (try_attempt env config attempt rest).outcome ≢ panicked
  unfolding try_attempt
  try_attempt-returns zero rest h = execute-returns zero rest h
  try_attempt-returns (suc n) rest h = elim (Option-cases (env.done_waiting (suc n))) [
    | inl e ↦ rw e (execute-returns (suc n) rest h)
    | inr (e, same) ↦ rw same (λ p. ground (arith, p))
  ]

  round-returns :
      (left attempt : ℕ) (last : Option Failure)
      → ((e : Failure)
          → env.fn attempt ≡ some e
          → (retry_loop env config (suc attempt) left (env.fn attempt)).outcome ≢ panicked)
      → (retry_loop env config attempt (suc left) last).outcome ≢ panicked
  unfolding retry_loop
  round-returns left attempt last h = elim (Option-cases (env.done attempt)) [
    | inl e ↦ rw (retry_loop, e) (try_attempt-returns attempt _ h)
    | inr (e, same) ↦ rw (retry_loop, same) (λ p. ground (arith, p))
  ]

  retry_loop-returns :
      (left attempt : ℕ) (e : Failure)
      → (retry_loop env config attempt left (some e)).outcome ≢ panicked
  unfolding retry_loop
  retry_loop-returns zero attempt e = λ p. ground (arith, p)
  retry_loop-returns (suc left) attempt e =
      round-returns left attempt (some e)
        λ d same. rw same (retry_loop-returns left (suc attempt) d)

  -- With a limit of n retries the loop ends without a panic, and has called the function at most
  -- n + 1 times.
  pub retry_with_context-bounded :
      (n : ℕ)
      → config.max_retries ≡ pos n
      → let run = retry_with_context env config in (run.outcome ≢ panicked) × (run.calls ≤ suc n)
  unfolding retry_with_context
  retry_with_context-bounded n limit =
      rw (retry_with_context, limit)
        (
          (round-returns n 0 none λ e same. rw same (retry_loop-returns n 1 e)),
          retry_loop-calls (suc n) 0 none,
        )

  -- the attempts before `last` fail for a while, and the context is open until `last` is made
  module _ (last : ℕ) (open_at_start : (i : ℕ) → i ≤ last → env.done i ≡ none)
      (open_waiting : (i : ℕ) → i ≤ last → env.done_waiting i ≡ none)
      (transient : (i : ℕ) → i < last → is_retryable (env.fn i) ≡ true) where
    try_attempt-open :
        (i : ℕ) (rest : Run)
        → i ≤ last
        → ((try_attempt env config i rest).outcome ≡ (execute env i rest).outcome)
          × ((try_attempt env config i rest).calls ≡ (execute env i rest).calls)
    unfolding try_attempt
    try_attempt-open zero rest h = (refl, refl)
    try_attempt-open (suc n) rest h = rw (open_waiting (suc n) h) (refl, refl)

    execute-retries :
        (i : ℕ) (rest : Run)
        → i < last
        → ((execute env i rest).outcome ≡ rest.outcome)
          × ((execute env i rest).calls ≡ suc rest.calls)
    unfolding execute
    execute-retries i rest h = elim (Option-cases (env.fn i)) [
      | inl e ↦ absurd (ground (arith, transient i h, e, is_retryable))
      | inr (e, same) ↦ rw (same, ap is_retryable (sym same) ∙ transient i h) (refl, refl)
    ]

    execute-decides :
        (i : ℕ) (rest : Run)
        → is_retryable (env.fn i) ≡ false
        → ((execute env i rest).outcome ≡ returned (env.fn i)) × ((execute env i rest).calls ≡ 1)
    unfolding execute
    execute-decides i rest h = elim (Option-cases (env.fn i)) [
      | inl e ↦ rw e (refl, refl)
      | inr (e, same) ↦ rw (same, ap is_retryable (sym same) ∙ h) (refl, refl)
    ]

    last_error :
        (i : ℕ) (e : Failure)
        → env.fn i ≡ some e
        → retry_loop env config (suc i) 0 (env.fn i) ≡ ended (returned (some e))
    unfolding retry_loop
    last_error i e same = rw same refl

    -- the retries are used up
    execute-exhausted :
        (i : ℕ) (rest : Run)
        → ((e : Failure) → env.fn i ≡ some e → rest ≡ ended (returned (some e)))
        → ((execute env i rest).outcome ≡ returned (env.fn i)) × ((execute env i rest).calls ≡ 1)
    unfolding execute
    execute-exhausted i rest h = elim (Option-cases (env.fn i)) [
      | inl e ↦ rw e (refl, refl)
      | inr (e, same) ↦ elim (Bool-cases (is_retryable (some e))) [
        | inl r ↦ rw (same, r, h e same) (refl, refl)
        | inr r ↦ rw (same, r) (refl, refl)
      ]
    ]

    exhausted :
        (i left : ℕ)
        → left ≡ 0
        → let rest = retry_loop env config (suc i) left (env.fn i) in
          ((execute env i rest).outcome ≡ returned (env.fn i)) × ((execute env i rest).calls ≡ 1)
    exhausted i left none_left = execute-exhausted i _ λ e same. rw none_left (last_error i e same)

    retry_loop-decides :
        (d left i : ℕ) (err : Option Failure)
        → i + d ≡ last
        → d < left
        → (is_retryable (env.fn last) ≡ false) ⊎ (left ≡ suc d)
        → let run = retry_loop env config i left err in
          (run.outcome ≡ returned (env.fn last)) × (run.calls ≡ suc d)
    unfolding retry_loop
    retry_loop-decides d zero i err here enough final = absurd (omega arith)
    retry_loop-decides zero (suc left) i err here enough final =
        let rest = retry_loop env config (suc i) left (env.fn i) in
        let tried = try_attempt-open i rest (omega arith) in
        let i_last : i ≡ last = omega arith in
        let decided : ((execute env i rest).outcome ≡ returned (env.fn i))
            × ((execute env i rest).calls ≡ 1) =
          elim final [
            | inl f ↦ execute-decides i rest (ap (λ j. is_retryable (env.fn j)) i_last ∙ f)
            | inr f ↦ exhausted i left (omega arith)
          ] in
        rw (retry_loop, open_at_start i (omega arith))
          (tried.0 ∙ decided.0 ∙ ap (λ j. returned (env.fn j)) i_last, tried.1 ∙ decided.1)
    retry_loop-decides (suc d) (suc left) i err here enough final =
        let rest = retry_loop env config (suc i) left (env.fn i) in
        let tried = try_attempt-open i rest (omega arith) in
        let retried = execute-retries i rest (omega arith) in
        let later =
          retry_loop-decides d left (suc i) (env.fn i) (omega arith) (omega arith)
            (elim final [ inl f ↦ inl f | inr f ↦ inr (omega arith) ]) in
        rw (retry_loop, open_at_start i (omega arith))
          (tried.0 ∙ retried.0 ∙ later.0, tried.1 ∙ retried.1 ∙ ap suc later.1)

    -- Let the context stay open and the attempts before `last` fail with retryable errors. If the
    -- attempt `last` succeeds or fails for good, or is the last one that the limit allows, then its
    -- result is returned, and the function has been called for each attempt up to it, once.
    pub retry_with_context-decides :
        (n : ℕ)
        → config.max_retries ≡ pos n
        → last ≤ n
        → (is_retryable (env.fn last) ≡ false) ⊎ (last ≡ n)
        → let run = retry_with_context env config in
          (run.outcome ≡ returned (env.fn last)) × (run.calls ≡ suc last)
    unfolding retry_with_context
    retry_with_context-decides n limit h final =
        rw (retry_with_context, limit)
          (retry_loop-decides last (suc n) 0 none (omega arith) (omega arith)
            (elim final [ inl f ↦ inl f | inr f ↦ inr (omega arith) ]))
