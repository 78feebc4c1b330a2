-- ===== src/Adapters/CircuitBreaker.antt =====
-- src/pitchbot/adapters/resilience.py, `CircuitBreaker` and `execute_with_circuit_breaker`.
-- `self._clock.now()` is the argument `now`, in microseconds; a raise leaves the object as it was.
pub mod Laws
mod Tests
use pitch_bot.Prelude.{
  ℕ, ◌+◌, Bool, true, false, ◌&&◌, ◌||◌, Option, none, some, leb, if◌then◌else◌,
}

pub data CircuitState : Type 0 where
  closed open_circuit half_open : CircuitState

-- the thresholds that the constructor accepts
pub record BreakerConfig : Type 0 where
  pub failure_threshold : ℕ
  pub recovery_timeout : ℕ

-- the checks of `CircuitBreaker.__init__`
abbrev pub config_ok : BreakerConfig → Bool
config_ok c = leb 1 c.failure_threshold && leb 1 c.recovery_timeout

pub record CircuitBreaker : Type 0 where
  pub failure_count : ℕ
  pub opened_at : Option ℕ
  pub circuit : CircuitState
  pub half_open_probe_in_flight : Bool

abbrev pub init : CircuitBreaker
init = record {
  failure_count = 0;
  opened_at = none;
  circuit = closed;
  half_open_probe_in_flight = false;
}

abbrev pub is_half_open : CircuitState → Bool
is_half_open half_open = true
is_half_open _ = false

-- What a call of the operation does: it returns, it raises a `TransientAdapterError`, or it is left
-- by any other exception, a cancellation included.
pub data Outcome {ℓ} (A : Type ℓ) : Type ℓ where
  returned : A → Outcome A
  transient : Outcome A
  other : Outcome A

pub data Executed {ℓ} (A : Type ℓ) : Type ℓ where
  result : A → Executed A
  transient_error : Executed A
  other_error : Executed A
  circuit_open_error : Executed A

module _ (c : BreakerConfig) where
  -- the test of the property `state` for an open circuit
  abbrev recovered : ℕ → Option ℕ → Bool
  recovered now none = false
  recovered now (some opened) = leb (opened + c.recovery_timeout) now

  abbrev state_in : ℕ → CircuitState → Option ℕ → CircuitState
  state_in now open_circuit opened = if recovered now opened then half_open else open_circuit
  state_in now s opened = s

  unfoldable pub state : ℕ → CircuitBreaker → CircuitState
  state now b = state_in now b.circuit b.opened_at

  -- `none` is the raise of `CircuitOpenError`
  abbrev admit : CircuitState → CircuitBreaker → Option CircuitBreaker
  admit open_circuit b = none
  admit half_open b =
      if b.half_open_probe_in_flight
      then none
      else some (record b { circuit = half_open; half_open_probe_in_flight = true })
  admit closed b = some b

  unfoldable pub before_call : ℕ → CircuitBreaker → Option CircuitBreaker
  unfolding state
  before_call now b = admit (state now b) b

  unfoldable pub record_failure : ℕ → CircuitBreaker → CircuitBreaker
  record_failure now b =
      let counted = record b {
        failure_count = b.failure_count + 1;
        half_open_probe_in_flight = false;
      } in
      if is_half_open counted.circuit || leb c.failure_threshold counted.failure_count
      then record counted { opened_at = some now; circuit = open_circuit }
      else counted

unfoldable pub record_success : CircuitBreaker → CircuitBreaker
record_success b = init

unfoldable pub record_aborted_probe : ℕ → CircuitBreaker → CircuitBreaker
record_aborted_probe now b =
    if b.half_open_probe_in_flight
    then record b {
      half_open_probe_in_flight = false;
      opened_at = some now;
      circuit = open_circuit;
    }
    else b

module _ {ℓ} {A : Type ℓ} (c : BreakerConfig) where
  -- the `except` and `else` branches, at the end of the operation
  unfoldable pub settle : ℕ → Outcome A → CircuitBreaker → Executed A × CircuitBreaker
  unfolding record_failure record_success record_aborted_probe
  settle now (returned a) b = (result a, record_success b)
  settle now transient b = (transient_error, record_failure c now b)
  settle now other b = (other_error, record_aborted_probe now b)

  abbrev run_admitted :
      ℕ → Outcome A → CircuitBreaker → Option CircuitBreaker → Executed A × CircuitBreaker
  run_admitted ended o b none = (circuit_open_error, b)
  run_admitted ended o b (some b') = settle ended o b'

  -- one call with no other in between, begun and ended at the given times
  unfoldable pub execute_with_circuit_breaker :
      ℕ → ℕ → Outcome A → CircuitBreaker → Executed A × CircuitBreaker
  unfolding before_call settle
  execute_with_circuit_breaker begun ended o b = run_admitted ended o b (before_call c begun b)
