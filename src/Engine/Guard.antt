-- ===== src/Engine/Guard.antt =====
-- The circuit breaker in front of the requests: it fails fast, and it recovers.
use onionguard.Base.{◌≡◌, true, false, some, ℤ, leb_ℤ, arith, if◌then◌else◌}
use onionguard.Base.Time.{sub}
use onionguard.Errors.{sentinel, circuit_open}
use onionguard.Env.{Env}
use onionguard.Session.{Session}
use onionguard.Challenge.{StoredChallenge}
use onionguard.CircuitBreaker.{
  open_, closed, current_state_locked, transition_locked, allow, report, is_infrastructure_error,
}
use onionguard.Identity.Token.{Request}
use onionguard.Engine.{no_request_decision, Parts, authorize_through}
use onionguard.Engine.Operations.{EngineState, is_stopping, authorize_request, report_to}

module _ {F : Type 0} (env : Env Session StoredChallenge) (parts : Parts F env) where
  open env use {S, now}

  -- While the enabled breaker of an engine that is not stopping is open and the cool-down has not
  -- passed, a request gets ErrCircuitOpen, and but for a reading of the clock nothing happens: not
  -- a call of the store, nor a change of the engine.
  pub authorize_request-circuit_open :
      (r : Request) (cost : ℤ) (e : EngineState S)
      → is_stopping e ≡ false
      → e.breaker.cfg.enabled ≡ true
      → e.breaker.state ≡ open_
      → leb_ℤ e.breaker.cfg.cool_down (sub (now e.world).0 e.breaker.last_state_change) ≡ false
      → authorize_request env parts r cost e ≡ (
        (no_request_decision, some (sentinel circuit_open)),
        record e { world = (now e.world).1 },
      )
  unfolding authorize_request allow current_state_locked
  authorize_request-circuit_open r cost e a b c d = ground (arith, a, b, c, d)

  -- An engine that is not stopping and whose enabled breaker has been open for the cool-down serves
  -- the next request as if there were no breaker; afterwards no probe is in flight, and the breaker
  -- is closed, or open again if the request reported a storage error.
  pub authorize_request-recovers :
      (r : Request) (cost : ℤ) (e : EngineState S)
      → is_stopping e ≡ false
      → e.breaker.cfg.enabled ≡ true
      → e.breaker.state ≡ open_
      → leb_ℤ e.breaker.cfg.cool_down (sub (now e.world).0 e.breaker.last_state_change) ≡ true
      → let out = (authorize_through env parts r cost (now e.world).1).0 in
        ((authorize_request env parts r cost e).0 ≡ (out.decision, out.error))
        × ((authorize_request env parts r cost e).1.breaker.state
            ≡ (if is_infrastructure_error out.reported then open_ else closed))
        × ((authorize_request env parts r cost e).1.breaker.half_open_in_flight ≡ false)
  unfolding authorize_request allow current_state_locked transition_locked report_to report
  authorize_request-recovers r cost e a b c d =
      (ground (arith, a, b, c, d), ground (arith, a, b, c, d), ground (arith, a, b, c, d))
