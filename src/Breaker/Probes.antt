-- ===== src/Breaker/Probes.antt =====
-- How many probes run at once, and what a call that outlives a transition does to the breaker.
use morf.Prelude.{
  ℕ, zero, suc, ◌≡◌, ◌⊎◌, inl, inr, Bool, true, false, List, [], ◌∷◌, arith, All, Bool-cases,
  if◌then◌else◌,
}
use morf.Breaker.{
  CircuitState, state_closed, state_open, state_half_open, CircuitBreaker, admit, resolve,
}
use morf.Breaker.System.{System, Event, start, finish, reset_all, step}

-- The calls that run beside a breaker that has not closed again: none while it is open, and the
-- one probe while it is half-open.
abbrev pub IsIsolated : System → Type 0
IsIsolated s =
    (s.breaker.state ≡ state_open) × (s.calls ≡ [])
    ⊎ (s.breaker.state ≡ state_half_open)
      × (s.breaker.in_flight_probe ≡ true)
      × (s.calls ≡ true ∷ [])
    ⊎ (s.breaker.state ≡ state_closed) × (s.calls ≡ [])

abbrev pub is_call : Event → Bool
is_call reset_all = false
is_call e = true

abbrev is_closed : CircuitState → Bool
is_closed state_closed = true
is_closed s = false

-- goes on until the breaker is closed
unfoldable pub run_until_closed : System → List Event → System
run_until_closed s [] = s
run_until_closed s (e ∷ es) =
    if is_closed s.breaker.state then s else run_until_closed (step s e) es

start-IsIsolated :
    (s : System) (now : ℕ)
    → is_closed s.breaker.state ≡ false
    → IsIsolated s
    → IsIsolated (step s (start now))
unfolding step admit
start-IsIsolated s now h iso = ground arith

finish-IsIsolated :
    (s : System) (i : ℕ) (ok : Bool) (now : ℕ)
    → is_closed s.breaker.state ≡ false
    → IsIsolated s
    → IsIsolated (step s (finish i ok now))
unfolding step resolve
finish-IsIsolated s zero ok now h iso = ground arith
finish-IsIsolated s (suc i) ok now h iso = ground arith

run_until_closed-IsIsolated :
    (s : System) (es : List Event)
    → All (λ e. is_call e ≡ true) es
    → IsIsolated s
    → IsIsolated (run_until_closed s es)
unfolding run_until_closed
run_until_closed-IsIsolated s [] c iso = iso
run_until_closed-IsIsolated s (start now ∷ es) c iso =
    elim (Bool-cases (is_closed s.breaker.state)) [
      | inl e ↦ rw e iso
      | inr e ↦
          rw e
            (run_until_closed-IsIsolated (step s (start now)) es c.1 (start-IsIsolated s now e iso))
    ]
run_until_closed-IsIsolated s (finish i ok now ∷ es) c iso =
    elim (Bool-cases (is_closed s.breaker.state)) [
      | inl e ↦ rw e iso
      | inr e ↦ rw e (
          run_until_closed-IsIsolated (step s (finish i ok now)) es c.1
            (finish-IsIsolated s i ok now e iso))
    ]
run_until_closed-IsIsolated s (reset_all ∷ es) c iso = cc c.0

-- From an open breaker beside which no call runs, however calls start and finish (and no reset
-- comes in between), at most one call runs until the breaker is closed again, and it is a probe.
pub run_until_closed-single_probe :
    (s : System) (es : List Event)
    → s.breaker.state ≡ state_open
    → s.calls ≡ []
    → All (λ e. is_call e ≡ true) es
    → let t = run_until_closed s es in (t.calls ≡ []) ⊎ (t.calls ≡ true ∷ [])
run_until_closed-single_probe s es o n c =
    ground (arith, run_until_closed-IsIsolated s es c (inl (o, n)))

-- A call that was admitted as no probe and ends while a half-open breaker tests its downstream is
-- taken for the probe: its success closes the breaker, its failure opens it, and either way the slot
-- of the probe that still runs stays taken.
pub resolve-stale :
    (cb : CircuitBreaker) (now : ℕ)
    → cb.state ≡ state_half_open
    → cb.in_flight_probe ≡ true
    → let won = (resolve cb false true now).0 in
      let lost = (resolve cb false false now).0 in
      (won.state ≡ state_closed)
      × (won.in_flight_probe ≡ true)
      × (lost.state ≡ state_open)
      × (lost.in_flight_probe ≡ true)
unfolding resolve
resolve-stale cb now h f = ground arith
