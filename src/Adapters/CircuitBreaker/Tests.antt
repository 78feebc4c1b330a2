-- ===== src/Adapters/CircuitBreaker/Tests.antt =====
-- Runs of the circuit of resilience.py, with the default threshold and timeout.
use pitch_bot.Prelude.{◌<◌, ◌+◌, ◌≡◌, ◌↔◌, refl, false, none, some, [], ◌∷◌, arith}
use pitch_bot.Adapters.CircuitBreaker.{
  open_circuit, BreakerConfig, CircuitBreaker, init, before_call, record_failure, record_success,
}
use pitch_bot.Adapters.CircuitBreaker.Laws.{
  Inv, fresh, fails, Calls-Inv, open_refuses_until, failed_at, trips_at_threshold,
}

abbrev defaults : BreakerConfig
defaults = record { failure_threshold = 3; recovery_timeout = 30000000 }

abbrev tripped : CircuitBreaker
tripped = record {
  failure_count = 3;
  opened_at = some 1000;
  circuit = open_circuit;
  half_open_probe_in_flight = false;
}

tripped-Inv : Inv defaults tripped
tripped-Inv = ground arith

Calls-Inv_example : Inv defaults (record_failure defaults 5 init)
Calls-Inv_example = Calls-Inv defaults refl (fails 5 fresh)

open_refuses_until_example : (before_call defaults 2000 tripped ≡ none) ↔ (2000 < 1000 + 30000000)
open_refuses_until_example =
    open_refuses_until defaults refl tripped 1000 2000 tripped-Inv refl refl

trips_at_threshold_example :
    (failed_at defaults (1 ∷ 2 ∷ 3 ∷ []) (record_success init)).circuit ≡ open_circuit
trips_at_threshold_example = trips_at_threshold defaults refl (1 ∷ 2 ∷ 3 ∷ []) init
