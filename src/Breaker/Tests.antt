-- ===== src/Breaker/Tests.antt =====
-- Runs of the breaker of morf/utils/circuitbreaker.go, and its theorems at concrete inputs.
use morf.Prelude.{◌*◌, ◌≡◌, refl, ◌⊎◌, true, false, List, [], ◌∷◌}
use morf.Breaker.{
  state_closed, state_open, CircuitBreaker, Config, second, new_circuit_breaker, admit, resolve,
  reset, call,
}
use morf.Breaker.System.{System, Event, start, finish, step, run}
use morf.Breaker.Probes.{run_until_closed, run_until_closed-single_probe}

program : Unit {0}
unfolding new_circuit_breaker step run admit resolve reset call run_until_closed
program = tt

-- the breaker that `InitCircuitBreakers` registers as "redis"
abbrev redis_config : Config
redis_config = record { name = "redis"; max_failures = 5; reset_timeout = 30 * second }

abbrev redis : CircuitBreaker
redis = record {
  name = "redis";
  max_failures = 5;
  reset_timeout = 30 * second;
  state = state_closed;
  failure_count = 0;
  last_fail_time = 0;
  in_flight_probe = false;
}

abbrev tripped : CircuitBreaker
tripped = record redis { state = state_open; failure_count = 5; last_fail_time = 7 }

init_redis : new_circuit_breaker redis_config ≡ redis
unfolding program
init_redis = refl

defaults :
    (new_circuit_breaker (record { name = "x"; max_failures = 0; reset_timeout = 0 })).max_failures
    ≡ 5
unfolding program
defaults = refl

-- An ordinary call outlives the trip and ends while the first probe runs, so a second probe starts
-- beside the first.
two_probes :
    (run
      (record { breaker = tripped; calls = false ∷ [] })
      (start (31 * second) ∷ finish 1 false (32 * second) ∷ start (63 * second) ∷ [])).calls
    ≡ true ∷ true ∷ []
unfolding program
two_probes = refl

abbrev quick : Config
quick = record { name = "quick"; max_failures = 1; reset_timeout = 5 }

abbrev shedding : System
shedding = record { breaker = tripped; calls = [] }

abbrev probe_fails : List Event
probe_fails = start (31 * second) ∷ start (31 * second) ∷ finish 0 false (32 * second) ∷ []

run_until_closed-single_probe_example :
    let t = run_until_closed shedding probe_fails in (t.calls ≡ []) ⊎ (t.calls ≡ true ∷ [])
run_until_closed-single_probe_example =
    run_until_closed-single_probe shedding probe_fails refl refl (refl, (refl, (refl, tt)))
