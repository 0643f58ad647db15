-- ===== src/Breaker/System.antt =====
-- The breaker of morf/utils/circuitbreaker.go under any interleaving of the callers: `Call` releases
-- the mutex while the protected function runs, so other calls start and finish in between.
use morf.Prelude.{ℕ, zero, suc, ◌<◌, ◌≡◌, Bool, true, Option, none, some, List, [], ◌∷◌, arith}
use morf.Breaker.{
  state_closed, state_half_open, CircuitBreaker, Config, Admission, rejected, admitted,
  new_circuit_breaker, admit, resolve, reset,
}

-- The breaker, and for each call that is running whether it is a probe, newest first.
pub record System : Type 0 where
  pub breaker : CircuitBreaker
  pub calls : List Bool

pub data Event : Type 0 where
  start : ℕ → Event
  finish : ℕ → Bool → ℕ → Event
  reset_all : Event

-- takes the call at a position out of the running ones
abbrev pub pull : ℕ → List Bool → Option (Bool × List Bool)
pull i [] = none
pull zero (c ∷ cs) = some (c, cs)
pull (suc i) (c ∷ cs) = elim (pull i cs) [ none ↦ none | some (d, ds) ↦ some (d, c ∷ ds) ]

abbrev started : Admission → List Bool → List Bool
started rejected cs = cs
started (admitted is_probe) cs = is_probe ∷ cs

abbrev finished : System → Bool → ℕ → Option (Bool × List Bool) → System
finished s ok now none = s
finished s ok now (some (is_probe, rest)) = record {
  breaker = (resolve s.breaker is_probe ok now).0;
  calls = rest;
}

unfoldable pub step : System → Event → System
step s (start now) =
    let (cb, admission, _) = admit s.breaker now in
    record { breaker = cb; calls = started admission s.calls }
step s (finish i ok now) = finished s ok now (pull i s.calls)
step s reset_all = record s { breaker = (reset s.breaker).0 }

unfoldable pub run : System → List Event → System
run s [] = s
run s (e ∷ es) = run (step s e) es

pub record IsSound (cb : CircuitBreaker) : Type 0 where
  pub positive : 0 < cb.max_failures
  pub half_open_busy : cb.state ≡ state_half_open → cb.in_flight_probe ≡ true
  pub closed_below : cb.state ≡ state_closed → cb.failure_count < cb.max_failures

pub new_circuit_breaker-IsSound : (config : Config) → IsSound (new_circuit_breaker config)
unfolding new_circuit_breaker
new_circuit_breaker-IsSound config = ground arith

admit-IsSound : (cb : CircuitBreaker) (now : ℕ) → IsSound cb → IsSound (admit cb now).0
unfolding admit
admit-IsSound cb now h = ground arith

resolve-IsSound :
    (cb : CircuitBreaker) (is_probe ok : Bool) (now : ℕ)
    → IsSound cb
    → IsSound (resolve cb is_probe ok now).0
unfolding resolve
resolve-IsSound cb is_probe ok now h = ground arith

reset-IsSound : (cb : CircuitBreaker) → IsSound cb → IsSound (reset cb).0
unfolding reset
reset-IsSound cb h = ground arith

finished-IsSound :
    (s : System) (ok : Bool) (now : ℕ) (o : Option (Bool × List Bool))
    → IsSound s.breaker
    → IsSound (finished s ok now o).breaker
finished-IsSound s ok now none h = h
finished-IsSound s ok now (some (is_probe, rest)) h = resolve-IsSound s.breaker is_probe ok now h

step-IsSound : (s : System) (e : Event) → IsSound s.breaker → IsSound (step s e).breaker
unfolding step
step-IsSound s (start now) h = admit-IsSound s.breaker now h
step-IsSound s (finish i ok now) h = finished-IsSound s ok now (pull i s.calls) h
step-IsSound s reset_all h = reset-IsSound s.breaker h

pub run-IsSound : (s : System) (es : List Event) → IsSound s.breaker → IsSound (run s es).breaker
unfolding run
run-IsSound s [] h = h
run-IsSound s (e ∷ es) h = run-IsSound (step s e) es (step-IsSound s e h)

abbrev pub fresh : Config → System
fresh config = record { breaker = new_circuit_breaker config; calls = [] }

-- After any interleaving of calls and resets on a new breaker, one that is closed has counted fewer
-- failures than its threshold.
pub run-closed_below :
    (config : Config) (es : List Event)
    → (run (fresh config) es).breaker.state ≡ state_closed
    → let cb = (run (fresh config) es).breaker in cb.failure_count < cb.max_failures
run-closed_below config es h =
    (run-IsSound (fresh config) es (new_circuit_breaker-IsSound config)).closed_below h

-- After any interleaving of calls and resets on a new breaker, one that is half-open refuses every
-- further call and stays as it is.
pub run-admit_half_open :
    (config : Config) (es : List Event) (now : ℕ)
    → (run (fresh config) es).breaker.state ≡ state_half_open
    → let cb = (run (fresh config) es).breaker in admit cb now ≡ (cb, rejected, none)
unfolding admit
run-admit_half_open config es now h =
    let sound = run-IsSound (fresh config) es (new_circuit_breaker-IsSound config) in
    ground (arith, sound.half_open_busy h)
