-- ===== src/CircuitBreaker/Invariant.antt =====
-- What holds of a circuit breaker between two calls.
use onionguard.Base.{◌≤◌, ◌<◌, ◌≡◌, refl, true, Option, List, [], ◌∷◌, pos_part, arith}
use onionguard.Base.Time.{Time}
use onionguard.Errors.{Err}
use onionguard.CircuitBreaker.{
  CircuitState, closed, open_, half_open, CircuitBreakerConfig, CircuitBreaker, new_circuit_breaker,
  allow, report, state_of,
}

-- The edges of the state diagram.
pub data Edge : CircuitState → CircuitState → Type 0 where
  trip : Edge closed open_
  probe : Edge open_ half_open
  recover : Edge half_open closed
  relapse : Edge half_open open_

pub record IsSound (cb : CircuitBreaker) : Type 0 where
  pub positive : 0 < pos_part cb.cfg.failure_threshold
  pub below : cb.state ≡ closed → cb.failures < pos_part cb.cfg.failure_threshold
  pub never_over : cb.failures ≤ pos_part cb.cfg.failure_threshold
  pub one_probe : cb.half_open_in_flight ≡ true → cb.state ≡ half_open

pub new-IsSound : (cfg : CircuitBreakerConfig) (now : Time) → IsSound (new_circuit_breaker cfg now)
unfolding new_circuit_breaker
new-IsSound cfg now = ground arith

pub allow-IsSound : (now : Time) (cb : CircuitBreaker) → IsSound cb → IsSound (allow now cb).1
unfolding allow
allow-IsSound now cb h = ground arith

pub report-IsSound :
    (now : Time) (e : Option Err) (cb : CircuitBreaker) → IsSound cb → IsSound (report now e cb)
unfolding report
report-IsSound now e cb h = ground arith

pub state_of-IsSound : (now : Time) (cb : CircuitBreaker) → IsSound cb → IsSound (state_of now cb).1
unfolding state_of
state_of-IsSound now cb h = ground arith

-- What the callback was told: edges of the diagram, each from where the one before it ended.
abbrev pub Log : CircuitState → List (CircuitState × CircuitState) → Type 0
Log s [] = s ≡ closed
Log s ((from, to) ∷ l) = Edge from to × (to ≡ s) × Log from l

abbrev Logged : CircuitBreaker → Type 0
Logged cb = Log cb.state cb.observed

allow-Logged : (now : Time) (cb : CircuitBreaker) → Logged cb → Logged (allow now cb).1
unfolding allow
allow-Logged now cb h = grind (arith, probe)

report-Logged :
    (now : Time) (e : Option Err) (cb : CircuitBreaker) → Logged cb → Logged (report now e cb)
unfolding report
report-Logged now e cb h = grind (arith, trip, recover, relapse)

state_of-Logged : (now : Time) (cb : CircuitBreaker) → Logged cb → Logged (state_of now cb).1
unfolding state_of
state_of-Logged now cb h = grind (arith, probe)

-- The calls that goroutines make, in the order in which they take the mutex. A report may come at any
-- time, also long after the breaker has changed its state.
pub data Call : Type 0 where
  allows : Time → Call
  reports : Time → Option Err → Call
  reads : Time → Call

unfoldable pub step : CircuitBreaker → Call → CircuitBreaker
step cb (allows now) = (allow now cb).1
step cb (reports now e) = report now e cb
step cb (reads now) = (state_of now cb).1

unfoldable pub run : CircuitBreaker → List Call → CircuitBreaker
run cb [] = cb
run cb (c ∷ cs) = run (step cb c) cs

step-kept :
    (cb : CircuitBreaker) (c : Call)
    → IsSound cb
    → Logged cb
    → IsSound (step cb c) × Logged (step cb c)
unfolding step
step-kept cb (allows now) h l = (allow-IsSound now cb h, allow-Logged now cb l)
step-kept cb (reports now e) h l = (report-IsSound now e cb h, report-Logged now e cb l)
step-kept cb (reads now) h l = (state_of-IsSound now cb h, state_of-Logged now cb l)

run-kept :
    (cb : CircuitBreaker) (cs : List Call)
    → IsSound cb
    → Logged cb
    → IsSound (run cb cs) × Logged (run cb cs)
unfolding run
run-kept cb [] h l = (h, l)
run-kept cb (c ∷ cs) h l = let (h', l') = step-kept cb c h l in run-kept (step cb c) cs h' l'

-- After any calls of Allow, report and State on a new breaker: the threshold is positive, the
-- failures are at most it and fewer while closed, a probe is in flight only while half open, and
-- every change that the callback saw is an edge of the state diagram that starts where the one
-- before it ended, from closed to the present state.
pub run-IsSound :
    (cfg : CircuitBreakerConfig) (now : Time) (cs : List Call)
    → let cb = run (new_circuit_breaker cfg now) cs in IsSound cb × Log cb.state cb.observed
unfolding new_circuit_breaker
run-IsSound cfg now cs = run-kept (new_circuit_breaker cfg now) cs (new-IsSound cfg now) refl
