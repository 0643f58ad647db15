-- ===== src/Breaker.antt =====
-- morf/utils/circuitbreaker.go: the circuit breaker that guards the Redis and the database calls.
-- A method that holds the mutex is a function from the breaker to the new breaker; `Call` is its
-- two critical sections, `admit` before the protected function runs and `resolve` after it.
-- Times are nanoseconds of the monotonic clock, read by the caller and passed in.
pub mod System
pub mod Sequential
pub mod Probes
mod Tests
use morf.Prelude.{
  ℕ, zero, ◌+◌, ◌-◌, ◌*◌, String, Bool, true, false, Option, none, some, List, [], ◌∷◌, ltb, leb,
  if◌then◌else◌, str_eq,
}

pub data CircuitState : Type 0 where
  state_closed state_open state_half_open : CircuitState

pub record CircuitBreaker : Type 0 where
  pub name : String
  pub max_failures : ℕ
  pub reset_timeout : ℕ
  pub state : CircuitState
  pub failure_count : ℕ
  pub last_fail_time : ℕ
  pub in_flight_probe : Bool

-- `Config`; a non-positive `int` or duration is 0 here
pub record Config : Type 0 where
  pub name : String
  pub max_failures : ℕ
  pub reset_timeout : ℕ

abbrev pub second : ℕ
second = 1_000_000_000

abbrev or_default : ℕ → ℕ → ℕ
or_default zero d = d
or_default n d = n

unfoldable pub new_circuit_breaker : Config → CircuitBreaker
new_circuit_breaker config = record {
  name = config.name;
  max_failures = or_default config.max_failures 5;
  reset_timeout = or_default config.reset_timeout (60 * second);
  state = state_closed;
  failure_count = 0;
  last_fail_time = 0;
  in_flight_probe = false;
}

abbrev pub same_state : CircuitState → CircuitState → Bool
same_state state_closed state_closed = true
same_state state_open state_open = true
same_state state_half_open state_half_open = true
same_state _ _ = false

-- What `setState` hands to `fireStateChange`: the transition, if there was one.
abbrev pub Change : Type 0
Change = Option (CircuitState × CircuitState)

abbrev is_closed : CircuitState → Bool
is_closed s = same_state s state_closed

unfoldable pub set_state : CircuitBreaker → CircuitState → CircuitBreaker × Change
set_state cb new_state = if same_state cb.state new_state then (cb, none) else (
  record cb {
    state = new_state;
    failure_count = if is_closed new_state then 0 else cb.failure_count;
  },
  some (cb.state, new_state),
)

-- `isProbe` of an admitted call, or the refusal
pub data Admission : Type 0 where
  rejected : Admission
  admitted : Bool → Admission

admit_from : CircuitState → CircuitBreaker → ℕ → CircuitBreaker × Admission × Change
unfolding set_state
admit_from state_open cb now =
    if ltb (now - cb.last_fail_time) cb.reset_timeout
    then (cb, rejected, none)
    else let (half, change) = set_state cb state_half_open in
      (record half { in_flight_probe = true; last_fail_time = now }, admitted true, change)
admit_from state_half_open cb now =
    if cb.in_flight_probe
    then (cb, rejected, none)
    else (record cb { in_flight_probe = true }, admitted true, none)
admit_from state_closed cb now = (cb, admitted false, none)

-- The first critical section of `Call`.
unfoldable pub admit : CircuitBreaker → ℕ → CircuitBreaker × Admission × Change
unfolding admit_from
admit cb now = admit_from cb.state cb now

unfoldable pub record_failure : CircuitBreaker → ℕ → CircuitBreaker × Change
unfolding set_state
record_failure cb now =
    let failed = record cb { failure_count = cb.failure_count + 1; last_fail_time = now } in
    if same_state failed.state state_half_open
    then set_state failed state_open
    else if leb failed.max_failures failed.failure_count
    then set_state failed state_open
    else (failed, none)

abbrev succeeded : CircuitBreaker × Change → CircuitBreaker × Change
succeeded (closed, change) = (record closed { failure_count = 0 }, change)

unfoldable pub record_success : CircuitBreaker → CircuitBreaker × Change
unfolding set_state
record_success cb =
    if same_state cb.state state_half_open
    then succeeded (set_state cb state_closed)
    else (record cb { failure_count = 0 }, none)

-- The second critical section of `Call`: `ok` says that the protected function returned nil.
unfoldable pub resolve : CircuitBreaker → Bool → Bool → ℕ → CircuitBreaker × Change
unfolding record_failure record_success
resolve cb is_probe ok now =
    let freed = record cb { in_flight_probe = if is_probe then false else cb.in_flight_probe } in
    if ok then record_success freed else record_failure freed now

unfoldable pub reset : CircuitBreaker → CircuitBreaker × Change
unfolding set_state
reset cb =
    let (closed, change) = set_state cb state_closed in
    (record closed { in_flight_probe = false }, change)

-- `Call` with nothing in between: `fn` reads and writes a world `W`, and returns an error or none.
pub data CallResult {ℓ} (E : Type ℓ) : Type ℓ where
  breaker_open : CallResult E
  returned : Option E → CallResult E

abbrev pub is_nil {ℓ} : {E : Type ℓ} → Option E → Bool
is_nil none = true
is_nil (some e) = false

module _ {ℓ} {W E : Type ℓ} where
  call_after :
      CircuitBreaker → Admission → ℕ → (W → Option E × W) → W → CircuitBreaker × CallResult E × W
  unfolding resolve
  call_after cb rejected now fn w = (cb, breaker_open, w)
  call_after cb (admitted is_probe) now fn w =
      let (err, w') = fn w in ((resolve cb is_probe (is_nil err) now).0, returned err, w')

  -- admitted at `now`; the function returns at `later`
  unfoldable pub call :
      CircuitBreaker → ℕ → ℕ → (W → Option E × W) → W → CircuitBreaker × CallResult E × W
  unfolding admit call_after
  call cb now later fn w =
      let (cb', admission, _) = admit cb now in call_after cb' admission later fn w

  -- `Do`: a name with no breaker runs the function directly.
  unfoldable pub do_call :
      Option CircuitBreaker
      → ℕ
      → ℕ
      → (W → Option E × W)
      → W
      → Option CircuitBreaker × CallResult E × W
  unfolding call
  do_call none now later fn w = let (err, w') = fn w in (none, returned err, w')
  do_call (some cb) now later fn w =
      let (cb', result, w') = call cb now later fn w in (some cb', result, w')

-- `IsBreakerOpen` over `BreakerState`: an unregistered breaker is not open.
unfoldable pub is_breaker_open : Option CircuitBreaker → Bool
is_breaker_open none = false
is_breaker_open (some cb) = same_state cb.state state_open
