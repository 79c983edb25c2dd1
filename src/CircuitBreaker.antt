-- ===== src/CircuitBreaker.antt =====
-- circuit_breaker.go: the circuit breaker of the storage calls. Each method but Execute runs under its
-- mutex, so it is one function of the state; `now` is what `cb.now()` reads. Receivers are not nil.
pub mod Invariant
pub mod Recovery
use onionguard.Base.{
  ℕ, zero, suc, Bool, true, false, ◌||◌, not, Option, none, some, List, [], ◌∷◌, ℤ, pos, negsuc,
  is_pos, leb_ℤ, leb, if◌then◌else◌,
}
use onionguard.Base.Time.{Time, Duration, sub, second}
use onionguard.Errors.{
  Err, Result, ok, err, fail, is, store_unavailable, store_closed, lock_unavailable, circuit_open,
}

pub data CircuitState : Type 0 where
  closed open_ half_open : CircuitState

pub record CircuitBreakerConfig : Type 0 where
  pub enabled : Bool
  pub failure_threshold : ℤ
  pub cool_down : Duration

-- `observed` holds the calls of `onStateChange`, newest first.
pub record CircuitBreaker : Type 0 where
  pub cfg : CircuitBreakerConfig
  pub state : CircuitState
  pub failures : ℕ
  pub last_state_change : Time
  pub half_open_in_flight : Bool
  pub observed : List (CircuitState × CircuitState)

unfoldable pub default_circuit_breaker_config : CircuitBreakerConfig
default_circuit_breaker_config = record {
  enabled = true;
  failure_threshold = pos 5;
  cool_down = pos 5000000000;
}

unfoldable pub new_circuit_breaker : CircuitBreakerConfig → Time → CircuitBreaker
new_circuit_breaker cfg now = record {
  cfg = record cfg {
    failure_threshold = if is_pos cfg.failure_threshold then cfg.failure_threshold else pos 5;
    cool_down = if is_pos cfg.cool_down then cfg.cool_down else pos 5000000000;
  };
  state = closed;
  failures = 0;
  last_state_change = now;
  half_open_in_flight = false;
  observed = [];
}

abbrev pub same_state : CircuitState → CircuitState → Bool
same_state closed closed = true
same_state open_ open_ = true
same_state half_open half_open = true
same_state _ _ = false

abbrev pub is_closed : CircuitState → Bool
is_closed closed = true
is_closed _ = false

unfoldable pub transition_locked : CircuitState → Time → CircuitBreaker → CircuitBreaker
transition_locked to now cb = if same_state cb.state to then cb else record cb {
  state = to;
  last_state_change = now;
  half_open_in_flight = false;
  failures = if is_closed to then 0 else cb.failures;
  observed = (cb.state, to) ∷ cb.observed;
}

-- The state after `currentStateLocked`, which it then returns.
unfoldable pub current_state_locked : Time → CircuitBreaker → CircuitBreaker
unfolding transition_locked
current_state_locked now cb =
    if same_state cb.state open_
    then (if leb_ℤ cb.cfg.cool_down (sub now cb.last_state_change)
        then transition_locked half_open now cb
        else cb)
    else cb

-- `allow`, in the state that it finds; `ok` stands for the callback, which is `report`.
abbrev allow_in : CircuitState → CircuitBreaker → Result (Unit {0}) × CircuitBreaker
allow_in open_ cb = (fail circuit_open, cb)
allow_in half_open cb =
    if cb.half_open_in_flight
    then (fail circuit_open, cb)
    else (ok tt, record cb { half_open_in_flight = true })
allow_in closed cb = (ok tt, cb)

unfoldable pub allow : Time → CircuitBreaker → Result (Unit {0}) × CircuitBreaker
unfolding current_state_locked
allow now cb =
    if not cb.cfg.enabled
    then (ok tt, cb)
    else (let cb' = current_state_locked now cb in allow_in cb'.state cb')

-- `isInfrastructureError`; `none` is the nil error.
unfoldable pub is_infrastructure_error : Option Err → Bool
is_infrastructure_error none = false
is_infrastructure_error (some e) =
    is e store_unavailable || (is e store_closed || is e lock_unavailable)

-- `cb.failures >= cb.cfg.FailureThreshold`
abbrev pub reached : ℕ → ℤ → Bool
reached n (pos m) = leb m n
reached n (negsuc m) = true

-- `report`, by the state that it finds and whether the error counts.
abbrev report_in : CircuitState → Bool → Time → CircuitBreaker → CircuitBreaker
report_in half_open false now cb = record (transition_locked closed now cb) {
  half_open_in_flight = false;
}
report_in closed false now cb = record cb { failures = 0; half_open_in_flight = false }
report_in open_ false now cb = record cb { half_open_in_flight = false }
report_in half_open true now cb = transition_locked open_ now cb
report_in closed true now cb =
    let cb' = record cb { failures = suc cb.failures } in
    if reached cb'.failures cb.cfg.failure_threshold then transition_locked open_ now cb' else cb'
report_in open_ true now cb = cb

unfoldable pub report : Time → Option Err → CircuitBreaker → CircuitBreaker
unfolding transition_locked is_infrastructure_error
report now e cb =
    if not cb.cfg.enabled then cb else report_in cb.state (is_infrastructure_error e) now cb

-- `State`
unfoldable pub state_of : Time → CircuitBreaker → CircuitState × CircuitBreaker
unfolding current_state_locked
state_of now cb = let cb' = current_state_locked now cb in (cb'.state, cb')

-- `Execute`, where `fn` takes from `now` to `later` and returns `op_err`. It runs without the mutex:
-- `meanwhile` is what other goroutines do with the breaker until it returns.
unfoldable pub execute :
    Time
    → Time
    → Option Err
    → (meanwhile : CircuitBreaker → CircuitBreaker) → CircuitBreaker
    → Option Err × CircuitBreaker
unfolding allow report
execute now later op_err meanwhile cb =
    let (answer, cb') = allow now cb in
    elim answer [ err e ↦ (some e, cb') | ok _ ↦ (op_err, report later op_err (meanwhile cb')) ]
