-- ===== src/Breaker/Sequential.antt =====
-- Callers of the breaker one after the other: when it trips, when it sheds, how it recovers.
use morf.Prelude.{
  ℕ, ◌+◌, ◌-◌, ◌≤◌, ◌<◌, ◌≡◌, refl, true, false, Option, none, some, List, [], ◌∷◌, ◌++◌, arith,
  All, length,
}
use morf.Breaker.{
  state_closed, state_open, state_half_open, CircuitBreaker, rejected, admitted, admit, resolve,
  call, breaker_open, returned,
}
use morf.Breaker.System.{System, Event, start, step, run}

-- one call whose protected function returns an error
failing : CircuitBreaker → ℕ → CircuitBreaker
unfolding call
failing cb now = (call {W = Unit {0}} {E = Unit {0}} cb now now (λ w. (some tt, w)) tt).0

abbrev pub starts : List ℕ → List Event
starts [] = []
starts (now ∷ times) = start now ∷ starts times

pub fail_all : CircuitBreaker → List ℕ → CircuitBreaker
unfolding failing
fail_all cb [] = cb
fail_all cb (now ∷ times) = fail_all (failing cb now) times

-- While it is closed, `n` failures in a row below the threshold leave a breaker closed with `n` more
-- failures counted, and the failure that reaches the threshold opens it.
pub fail_all-trips :
    (cb : CircuitBreaker) (times : List ℕ) (last : ℕ)
    → cb.state ≡ state_closed
    → cb.failure_count + length times + 1 ≡ cb.max_failures
    → ((fail_all cb times).state ≡ state_closed)
      × ((fail_all cb times).failure_count ≡ cb.failure_count + length times)
      × ((fail_all cb (times ++ last ∷ [])).state ≡ state_open)
      × ((fail_all cb (times ++ last ∷ [])).last_fail_time ≡ last)
unfolding fail_all resolve
fail_all-trips cb [] last closed e = ground arith
fail_all-trips cb (now ∷ times) last closed e =
    ground (arith, fail_all-trips (failing cb now) times last)

admit_shed :
    (cb : CircuitBreaker) (now : ℕ)
    → cb.state ≡ state_open
    → now - cb.last_fail_time < cb.reset_timeout
    → admit cb now ≡ (cb, rejected, none)
unfolding admit
admit_shed cb now h early = ground arith

step_shed :
    (s : System) (now : ℕ)
    → admit s.breaker now ≡ (s.breaker, rejected, none)
    → step s (start now) ≡ s
unfolding step
step_shed s now e = rw e

-- An open breaker whose timeout has not run out by the time of any call refuses all of them: no
-- protected function runs, and the breaker keeps its state and its timer.
pub run-sheds :
    (s : System) (times : List ℕ)
    → s.breaker.state ≡ state_open
    → All (λ now. now - s.breaker.last_fail_time < s.breaker.reset_timeout) times
    → run s (starts times) ≡ s
unfolding run
run-sheds s [] h early = refl
run-sheds s (now ∷ times) h early =
    rw (run, step_shed s now (admit_shed s.breaker now h early.0)) (run-sheds s times h early.1)

-- Once its timeout has run out, an open breaker lets the next call through as a probe and is
-- half-open meanwhile; the probe's success closes it with no failure counted, and the probe's
-- failure opens it for another timeout and frees the probe slot.
pub admit-recovers :
    (cb : CircuitBreaker) (now later : ℕ)
    → cb.state ≡ state_open
    → cb.reset_timeout ≤ now - cb.last_fail_time
    → let probing = (admit cb now).0 in
      ((admit cb now).1 ≡ admitted true)
      × (probing.state ≡ state_half_open)
      × ((resolve probing true true later).0.state ≡ state_closed)
      × ((resolve probing true true later).0.failure_count ≡ 0)
      × ((resolve probing true false later).0.state ≡ state_open)
      × ((resolve probing true false later).0.last_fail_time ≡ later)
      × ((resolve probing true false later).0.in_flight_probe ≡ false)
unfolding admit resolve
admit-recovers cb now later h elapsed = ground arith

-- `Call` on a shedding breaker returns its error, does not run the function, and changes nothing;
-- on a closed one the function runs once and its result is handed on, whatever it is.
pub call_runs :
    {W E : Type 0} (cb : CircuitBreaker) (now later : ℕ) (fn : W → Option E × W) (w : W)
    → (cb.state ≡ state_open
        → now - cb.last_fail_time < cb.reset_timeout
        → call cb now later fn w ≡ (cb, breaker_open, w))
      × (cb.state ≡ state_closed
          → ((call cb now later fn w).1 ≡ returned (fn w).0)
            × ((call cb now later fn w).2 ≡ (fn w).1))
unfolding call
call_runs cb now later fn w = (λ h early. rw (admit_shed cb now h early), λ h. (rw h, rw h))
