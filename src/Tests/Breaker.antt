-- ===== src/Tests/Breaker.antt =====
-- The circuit breaker with a threshold of two failures and a cool-down of ten nanoseconds, the rate
-- limiter over a store that grants or refuses, and an error that a client is told of.
use onionguard.Base.{
  ℕ, ◌+◌, ◌≡◌, refl, true, false, none, some, List, [], ◌∷◌, pos, leb, is_pos, length, arith,
  if◌then◌else◌,
}
use onionguard.Base.Time.{Time, Duration}
use onionguard.Errors.{Err, sentinel, ok, fail, store_unavailable, circuit_open}
use onionguard.CircuitBreaker.{
  closed, open_, CircuitBreakerConfig, CircuitBreaker, new_circuit_breaker, allow, execute,
  is_infrastructure_error,
}
use onionguard.CircuitBreaker.Invariant.{
  IsSound, Log, Call, allows, reports, reads, run, run-IsSound,
}
use onionguard.CircuitBreaker.Recovery.{
  report_failures, report_failures_trip, allow_one_probe, probe_decides,
}
use onionguard.RateLimit
use onionguard.RateLimit.{
  RateLimitScope, RateLimitRule, RateLimitConfig, Client, Limiter, anonymous, scope_of, bucket_key,
}
use onionguard.RateLimit.Answers.{allow-consumed}

abbrev breaker_config : CircuitBreakerConfig
breaker_config = record { enabled = true; failure_threshold = pos 2; cool_down = pos 10 }

abbrev closed_breaker : CircuitBreaker
closed_breaker = record {
  cfg = breaker_config;
  state = closed;
  failures = 0;
  last_state_change = 5;
  half_open_in_flight = false;
  observed = [];
}

abbrev open_breaker : CircuitBreaker
open_breaker = record closed_breaker {
  state = open_;
  failures = 2;
  observed = (closed, open_) ∷ [];
}

abbrev down : Err
down = sentinel store_unavailable

abbrev history : List Call
history =
    reports 1 (some down) ∷ reports 2 (some down) ∷ reads 20 ∷ allows 21 ∷ reports 22 none ∷ []

run-IsSound_example :
    let cb = run (new_circuit_breaker breaker_config 0) history in
    IsSound cb × Log cb.state cb.observed
run-IsSound_example = run-IsSound breaker_config 0 history

report_failures_trip_example :
    (report_failures ((6, down) ∷ (7, down) ∷ []) closed_breaker).state
    ≡ (if leb 2 (0 + length {A = Time × Err} ((6, down) ∷ (7, down) ∷ [])) then open_ else closed)
unfolding is_infrastructure_error
report_failures_trip_example =
    report_failures_trip ((6, down) ∷ (7, down) ∷ []) closed_breaker 2 refl refl refl (omega arith)
      (refl, (refl, tt))

allow_one_probe_example : (allow 31 (allow 30 open_breaker).1).0 ≡ fail circuit_open
unfolding allow
allow_one_probe_example = allow_one_probe 30 31 open_breaker refl (ground arith) refl

probe_decides_example :
    let (answer, cb') =
      execute 30 31 (some down) (λ x. run x (allows 30 ∷ reads 31 ∷ [])) open_breaker in
    (answer ≡ some down)
    × (cb'.state ≡ (if is_infrastructure_error (some down) then open_ else closed))
    × (cb'.failures ≡ (if is_infrastructure_error (some down) then open_breaker.failures else 0))
    × (cb'.half_open_in_flight ≡ false)
    × (cb'.last_state_change ≡ 31)
probe_decides_example =
    probe_decides 30 31 (some down) (allows 30 ∷ reads 31 ∷ []) open_breaker tt refl refl refl

-- A store that grants every request.
abbrev limiter : Limiter ℕ
limiter = record {
  S = ℕ;
  has_store = true;
  bucketed = true;
  now = λ s. (s, s);
  consume_token = λ key rate burst cost ttl t s. (ok (true, pos 0), s);
  increment_with_ttl = λ key cost ttl s. (ok cost, s);
  sha256 = λ b. b;
}

abbrev rule : RateLimitRule ℕ
rule = record { rate = 1; burst = pos 5; cost = pos 1; window = pos 60 }

abbrev limits : RateLimitConfig ℕ
limits = record { enabled = true; limits = λ scope. some rule; redis_fail_closed = true }

abbrev client : Client
client = record { scope = anonymous; session_id = 1 ∷ []; key = 2 ∷ [] }

allow-consumed_example :
    (wait : Duration) × ((limiter.consume_token
        (bucket_key limiter limits client [])
        rule.rate
        rule.burst
        (if is_pos (pos 0) then pos 0 else rule.cost)
        rule.window
        (limiter.now 3).0
        (limiter.now 3).1).0
      ≡ ok (true, wait))
unfolding RateLimit.allow RateLimit.apply_rule
allow-consumed_example =
    allow-consumed limiter limits client [] (pos 0) rule 3 refl refl refl refl refl
