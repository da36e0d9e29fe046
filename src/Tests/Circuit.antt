-- ===== src/Tests/Circuit.antt =====
-- Tests of the circuit breaker.
use transaction_api.Prelude.{◌≡◌, refl, ◌↔◌, ◌≤◌, ◌+◌, Option, none, some, String, [], ◌∷◌, arith}
use transaction_api.Breaker.{
  CircuitBreaker, Config, state_closed, state_open, state_half_open, free, Readings, ready,
  record_result, new_circuit_breaker,
}
use transaction_api.Breaker.Locks.{Blocks, ready-Blocks_iff, record_result-Blocks_iff}
use transaction_api.Breaker.Runs.{Ends, Tripped, execute_failures, execute_failures_trip}
use transaction_api.Breaker.Events.{
  call, tick, reset_by_force, perform_all, IsSound, Keeps, new_circuit_breaker-IsSound, NotClosed,
  perform_all-NotClosed,
}

abbrev no_error : Option String
no_error = none

-- It trips after two failures, and recovers after one success.
abbrev config : Config
config = record {
  failure_threshold = 2;
  success_threshold = 1;
  timeout = 10;
  half_open_max_requests = 1;
  window_size = 10;
  min_request_count = 2;
}

abbrev closed : CircuitBreaker
closed = record {
  name = "payments";
  config = config;
  state = state_closed;
  counts = record {
    requests = 1;
    total_errors = 1;
    consecutive_errors = 1;
    consecutive_successes = 0;
    last_error_time = some 3;
  };
  last_error = some "timeout";
  last_state_change = 0;
  mu = free;
  counts_mu = free;
}

abbrev opened : CircuitBreaker
opened = record closed { state = state_open; last_state_change = 4 }

abbrev half_opened : CircuitBreaker
half_opened = record closed { state = state_half_open; last_state_change = 15 }

abbrev at : Readings
at = record { ready_since = 5; ready_now = 5; error_seen = 6; result_now = 6 }

execute_failures_trip_example : Ends (Tripped 2 config) (
    execute_failures
      ((at, "timeout") ∷ (at, "refused") ∷ [])
      (new_circuit_breaker "payments" config 0))
execute_failures_trip_example =
    execute_failures_trip ((at, "timeout") ∷ (at, "refused") ∷ []) "payments" config 0 (omega arith)
      (omega arith)

new_circuit_breaker-IsSound_example : Keeps IsSound (
    perform_all
      (call at none ∷ call at (some "timeout") ∷ tick 30 31 ∷ reset_by_force 40 ∷ [])
      (new_circuit_breaker "payments" config 0))
new_circuit_breaker-IsSound_example =
    new_circuit_breaker-IsSound
      (call at none ∷ call at (some "timeout") ∷ tick 30 31 ∷ reset_by_force 40 ∷ []) "payments"
      config 0

perform_all-NotClosed_example :
    Keeps NotClosed (perform_all (tick 30 31 ∷ call at (some "timeout") ∷ []) opened)
perform_all-NotClosed_example =
    perform_all-NotClosed (tick 30 31 ∷ call at (some "timeout") ∷ []) opened (tt, (tt, tt))
      ((refl, refl), λ e. cc)

ready-Blocks_iff_example : Blocks (ready 20 21 opened) ↔ ((state_open ≡ state_open) × (4 + 10 ≤ 20))
ready-Blocks_iff_example = ready-Blocks_iff 20 21 opened (refl, refl)

record_result-Blocks_iff_example :
    Blocks (record_result none 20 21 half_opened)
    ↔ ((no_error ≡ none) × (state_half_open ≡ state_half_open) × (1 ≤ 0 + 1))
record_result-Blocks_iff_example = record_result-Blocks_iff none 20 21 half_opened (refl, refl)
