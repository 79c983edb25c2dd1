-- ===== src/CircuitBreaker/Recovery.antt =====
-- When the breaker opens, what it refuses, and how it closes again.
use onionguard.Base.{
  ℕ, suc, ◌+◌, ◌<◌, ◌≡◌, ◌≢◌, refl, true, false, Option, some, List, [], ◌∷◌, pos, leb_ℤ, leb,
  Bool-cases, inl, inr, arith, length, if◌then◌else◌,
}
use onionguard.Base.Time.{Time, sub}
use onionguard.Errors.{Err, ok, fail, circuit_open}
use onionguard.CircuitBreaker.{
  closed, open_, half_open, CircuitBreaker, allow, report, state_of, is_infrastructure_error,
  execute,
}
use onionguard.CircuitBreaker.Invariant.{Call, allows, reports, reads, step, run}

-- Reports of infrastructure errors, one after the other.
unfoldable pub report_failures : List (Time × Err) → CircuitBreaker → CircuitBreaker
report_failures [] cb = cb
report_failures ((now, e) ∷ l) cb = report_failures l (report now (some e) cb)

-- Every error of the list is one of the storage.
abbrev pub AllInfrastructure : List (Time × Err) → Type 0
AllInfrastructure [] = Unit
AllInfrastructure ((now, e) ∷ l) = (is_infrastructure_error (some e) ≡ true) × AllInfrastructure l

report_failure_lem :
    (now : Time) (e : Err) (cb : CircuitBreaker) (m : ℕ)
    → cb.cfg.enabled ≡ true
    → cb.cfg.failure_threshold ≡ pos m
    → cb.state ≡ closed
    → is_infrastructure_error (some e) ≡ true
    → let cb' = report now (some e) cb in
      (cb'.cfg ≡ cb.cfg)
      × (cb'.failures ≡ suc cb.failures)
      × (cb'.state ≡ (if leb m (suc cb.failures) then open_ else closed))
unfolding report
report_failure_lem now e cb m en th st inf = ground arith

report_open :
    (now : Time) (e : Err) (cb : CircuitBreaker)
    → cb.state ≡ open_
    → is_infrastructure_error (some e) ≡ true
    → report now (some e) cb ≡ cb
unfolding report
report_open now e cb st inf = ground arith

report_failures_open :
    (l : List (Time × Err)) (cb : CircuitBreaker)
    → cb.state ≡ open_
    → AllInfrastructure l
    → report_failures l cb ≡ cb
unfolding report_failures
report_failures_open [] cb st a = refl
report_failures_open ((now, e) ∷ l) cb st a =
    rw (report_open now e cb st a.0) (report_failures_open l cb st a.1)

-- An enabled, closed breaker with fewer failures than its positive threshold that is told of a list
-- of storage errors is open afterwards exactly if these and the failures before reach the
-- threshold, and closed otherwise.
pub report_failures_trip :
    (l : List (Time × Err)) (cb : CircuitBreaker) (m : ℕ)
    → cb.cfg.enabled ≡ true
    → cb.cfg.failure_threshold ≡ pos m
    → cb.state ≡ closed
    → cb.failures < m
    → AllInfrastructure l
    → (report_failures l cb).state ≡ (if leb m (cb.failures + length l) then open_ else closed)
unfolding report_failures
report_failures_trip [] cb m en th st below a = ground arith
report_failures_trip ((now, e) ∷ l) cb m en th st below a =
    let (cfg, count, next) = report_failure_lem now e cb m en th st a.0 in
    let cb' = report now (some e) cb in
    elim (Bool-cases (leb m (suc cb.failures))) [
      | inl h ↦ ground (arith, report_failures_open l cb')
      | inr h ↦ ground (arith, report_failures_trip l cb' m)
    ]

-- An open breaker refuses every call until the cool-down has passed, and is not changed by it.
pub allow_open :
    (now : Time) (cb : CircuitBreaker)
    → cb.cfg.enabled ≡ true
    → cb.state ≡ open_
    → leb_ℤ cb.cfg.cool_down (sub now cb.last_state_change) ≡ false
    → allow now cb ≡ (fail circuit_open, cb)
unfolding allow
allow_open now cb en st young = ground arith

-- Where an enabled breaker that is not closed has allowed a call, it refuses the next one, at any
-- time, with ErrCircuitOpen.
pub allow_one_probe :
    (now later : Time) (cb : CircuitBreaker)
    → cb.cfg.enabled ≡ true
    → cb.state ≢ closed
    → (allow now cb).0 ≡ ok tt
    → (allow later (allow now cb).1).0 ≡ fail circuit_open
unfolding allow
allow_one_probe now later cb en st first = ground arith

-- Calls of Allow and State, but no report.
abbrev pub AllQuiet : List Call → Type 0
AllQuiet [] = Unit
AllQuiet (reports now e ∷ cs) = ⊥
AllQuiet (_ ∷ cs) = AllQuiet cs

-- While the probe is in flight, calls of Allow and State leave the breaker as it is.
run-probing :
    (cs : List Call) (cb : CircuitBreaker)
    → AllQuiet cs
    → cb.cfg.enabled ≡ true
    → cb.state ≡ half_open
    → cb.half_open_in_flight ≡ true
    → run cb cs ≡ cb
unfolding run step allow state_of
run-probing [] cb q en st probing = refl
run-probing (reports now e ∷ cs) cb q en st probing = absurd q
run-probing (allows now ∷ cs) cb q en st probing =
    let same : step cb (allows now) ≡ cb = ground (arith, en, st, probing) in
    rw same (run-probing cs cb q en st probing)
run-probing (reads now ∷ cs) cb q en st probing =
    let same : step cb (reads now) ≡ cb = ground (arith, en, st, probing) in
    rw same (run-probing cs cb q en st probing)

allow_probe :
    (now : Time) (cb : CircuitBreaker)
    → cb.cfg.enabled ≡ true
    → cb.state ≡ open_
    → leb_ℤ cb.cfg.cool_down (sub now cb.last_state_change) ≡ true
    → let cb' = (allow now cb).1 in
      (cb'.cfg.enabled ≡ true)
      × (cb'.state ≡ half_open)
      × (cb'.half_open_in_flight ≡ true)
      × (cb'.failures ≡ cb.failures)
unfolding allow
allow_probe now cb en st old = ground arith

allow_probe_granted :
    (now : Time) (cb : CircuitBreaker)
    → cb.cfg.enabled ≡ true
    → cb.state ≡ open_
    → leb_ℤ cb.cfg.cool_down (sub now cb.last_state_change) ≡ true
    → (allow now cb).0 ≡ ok tt
unfolding allow
allow_probe_granted now cb en st old = ground arith

-- What the report of the probe makes of the breaker.
probe_report :
    (later : Time) (op_err : Option Err) (cb : CircuitBreaker) (n : ℕ)
    → cb.cfg.enabled ≡ true
    → cb.state ≡ half_open
    → cb.half_open_in_flight ≡ true
    → cb.failures ≡ n
    → let cb' = report later op_err cb in
      (op_err ≡ op_err)
      × (cb'.state ≡ (if is_infrastructure_error op_err then open_ else closed))
      × (cb'.failures ≡ (if is_infrastructure_error op_err then n else 0))
      × (cb'.half_open_in_flight ≡ false)
      × (cb'.last_state_change ≡ later)
unfolding report
probe_report later op_err cb n en st probing count = ground arith

-- Execute on an enabled breaker that has been open for the cool-down, while other goroutines make
-- any calls of Allow and State but no other report comes before it ends, returns the error of its
-- own call, and leaves the breaker open with its failures after a storage error, closed with none
-- otherwise; no probe is in flight, and the change dates from the end of the call.
pub probe_decides :
    (now later : Time) (op_err : Option Err) (cs : List Call) (cb : CircuitBreaker)
    → AllQuiet cs
    → cb.cfg.enabled ≡ true
    → cb.state ≡ open_
    → leb_ℤ cb.cfg.cool_down (sub now cb.last_state_change) ≡ true
    → let (answer, cb') = execute now later op_err (λ x. run x cs) cb in
      (answer ≡ op_err)
      × (cb'.state ≡ (if is_infrastructure_error op_err then open_ else closed))
      × (cb'.failures ≡ (if is_infrastructure_error op_err then cb.failures else 0))
      × (cb'.half_open_in_flight ≡ false)
      × (cb'.last_state_change ≡ later)
unfolding execute
probe_decides now later op_err cs cb q en st old =
    let cb' = (allow now cb).1 in
    let (on, half, probing, count) = allow_probe now cb en st old in
    let granted : (allow now cb).0 ≡ ok tt = allow_probe_granted now cb en st old in
    rw (execute, granted, run-probing cs cb' q on half probing)
      (probe_report later op_err cb' cb.failures on half probing count)

-- An error that is not one of the storage never opens the breaker, and ends a run of failures.
pub report_benign :
    (now : Time) (e : Option Err) (cb : CircuitBreaker)
    → is_infrastructure_error e ≡ false
    → cb.cfg.enabled ≡ true
    → cb.state ≢ open_
    → let cb' = report now e cb in (cb'.state ≡ closed) × (cb'.failures ≡ 0)
unfolding report
report_benign now e cb inf en st = ground arith
