-- ===== src/Engine/Operations.antt =====
-- onionguard.go: the operations of the engine, as functions of its state. `finish` stands for what other
-- goroutines do while a shutdown waits. A reading of the clock for the circuit breaker may go unused.
use onionguard.Base.{
  ℕ, suc, ◌-◌, ◌*◌, Bool, true, false, ◌||◌, ◌&&◌, not, Option, none, some, List, [], ◌∷◌, ◌++◌, ℤ,
  pos, Bytes, if◌then◌else◌,
}
use onionguard.Base.Time.{minute}
use onionguard.Errors.{
  Err, sentinel, Result, ok, err, fail, store_closed, store_not_configured, circuit_open,
}
use onionguard.Env.{Env}
use onionguard.Session.{Session}
use onionguard.Session.Rotate.{revoke_session, rotate_session}
use onionguard.Challenge.{StoredChallenge, CaptchaChallenge, issue, current_challenge}
use onionguard.Challenge.Answer.{validate}
use onionguard.CircuitBreaker
use onionguard.CircuitBreaker.{CircuitBreaker, CircuitState, open_, same_state, report, state_of}
use onionguard.Identity.Token.{Request}
use onionguard.Engine.{
  Notice, challenge_issued, challenge_solved, challenge_failed, store_error, RequestDecision,
  no_request_decision, Parts, allow_rate_limit, authorize_through,
}
use onionguard.Admission.{Answer}
use onionguard.Admission.Evaluate.{evaluate}
use onionguard.RateLimit.{RateLimitResult}
use onionguard.Identity.{ClientIdentity}
use onionguard.Identity.Resolve.{resolve}

-- The mutable fields of `Engine`, with the world and the calls of the observers, oldest first.
pub record EngineState (S : Type 0) : Type 0 where
  pub breaker : CircuitBreaker
  pub draining : Bool
  pub closed : Bool
  pub in_flight : ℕ
  pub notices : List Notice
  pub world : S

-- `e.draining.Load() || e.closed.Load()`
abbrev pub is_stopping : {S : Type 0} → EngineState S → Bool
is_stopping e = e.draining || e.closed

-- `e.inFlight.Add(1)` and `e.inFlight.Done()`
abbrev pub enter : {S : Type 0} → EngineState S → EngineState S
enter e = record e { in_flight = suc e.in_flight }

abbrev pub leave : {S : Type 0} → EngineState S → EngineState S
leave e = record e { in_flight = e.in_flight - 1 }

abbrev pub see : {S : Type 0} → List Notice → EngineState S → EngineState S
see seen e = record e { notices = e.notices ++ seen }

abbrev pub error_of : {A : Type 0} → Result A → Option Err
error_of (ok a) = none
error_of (err e) = some e

module _ {F : Type 0} (env : Env Session StoredChallenge) (parts : Parts F env) where
  open env use {S, has_store, now}
  open parts use {config, creds, craft}

  abbrev pub E : Type 0
  E = EngineState S

  -- `circuitBreaker.report(err)`
  unfoldable pub report_to : Option Err → E → E
  report_to failed e =
      let (t, s) = now e.world in record e { world = s; breaker = report t failed e.breaker }

  -- `circuitBreaker.State() == CircuitOpen`
  unfoldable pub breaker_is_open : E → Bool × E
  breaker_is_open e =
      let (t, s) = now e.world in
      let (state, cb) = state_of t e.breaker in
      (same_state state open_, record e { world = s; breaker = cb })

  -- What IssueChallenge, ValidateChallenge, RevokeSession and RotateSession have in common: the call
  -- of the store between the checks and the report.
  -- Only the latter two look at the store first: `needs_store`.
  unfoldable pub guarded :
      {A : Type 0} → Bool → (S → Result A × S) → (Result A → List Notice) → E → Result A × E
  unfolding report_to breaker_is_open
  guarded needs_store call seen e =
      if is_stopping e
      then (fail store_closed, e)
      else (let (tripped, e₁) = breaker_is_open (enter e) in
          if tripped
          then (fail circuit_open, leave e₁)
          else if needs_store && not has_store
          then (fail store_not_configured, leave e₁)
          else (let (r, s) = call e₁.world in
              let e₂ = report_to (error_of r) (record e₁ { world = s }) in
              (r, leave (see (seen r) e₂))))

  abbrev issue_notices : Result CaptchaChallenge → List Notice
  issue_notices (ok ch) = challenge_issued ∷ []
  issue_notices (err e) = []

  abbrev validate_notices : Result (Unit {0}) → List Notice
  validate_notices (ok _) = challenge_solved ∷ []
  validate_notices (err e) = challenge_failed ∷ []

  unfoldable pub issue_challenge : Bytes → E → Result CaptchaChallenge × E
  unfolding guarded
  issue_challenge session_id e = guarded false (issue env config craft session_id) issue_notices e

  unfoldable pub validate_challenge : Bytes → Bytes → E → Result (Unit {0}) × E
  unfolding guarded
  validate_challenge session_id answer e =
      guarded false (validate env config craft session_id answer) validate_notices e

  unfoldable pub engine_revoke_session : Bytes → E → Result (Unit {0}) × E
  unfolding guarded
  engine_revoke_session session_id e =
      guarded true (revoke_session env session_id (pos (5 * minute))) (λ r. []) e

  unfoldable pub engine_rotate_session : Bytes → E → Result Session × E
  unfolding guarded
  engine_rotate_session old_session_id e =
      guarded true (rotate_session env old_session_id config.session_ttl) (λ r. []) e

  -- `authorizeRequest`. The defers run in the order: the report to the breaker, then `Done`.
  unfoldable pub authorize_request : Request → ℤ → E → (RequestDecision × Option Err) × E
  unfolding report_to
  authorize_request r cost e =
      if is_stopping e
      then ((no_request_decision, some (sentinel store_closed)), e)
      else (let (t, s) = now e.world in
          let (allowed, cb) = CircuitBreaker.allow t e.breaker in
          let e₁ = enter (record e { world = s; breaker = cb }) in
          elim allowed [
            | err x ↦ ((no_request_decision, some x), leave e₁)
            | ok _ ↦
                let (out, s₂) = authorize_through env parts r cost e₁.world in
                let e₂ = see out.notices (record e₁ { world = s₂ }) in
                ((out.decision, out.error), leave (report_to out.reported e₂))
          ])

  -- What GetChallenge, AllowRateLimit, ResolveIdentity and EvaluateSession have in common: a call of
  -- a part of the engine, which looks neither at the engine's state nor at its breaker.
  abbrev pub passed_on : {A : Type 0} → (S → A × S) → E → A × E
  passed_on call e = let (a, s) = call e.world in (a, record e { world = s })

  unfoldable pub get_challenge : Bytes → E → Result CaptchaChallenge × E
  get_challenge session_id e = passed_on (current_challenge env config craft session_id) e

  -- `AllowRateLimit`
  unfoldable pub limit_rate : ClientIdentity → Bytes → ℤ → E → (RateLimitResult × Option Err) × E
  limit_rate id operation cost e = passed_on (allow_rate_limit env parts id operation cost) e

  unfoldable pub resolve_identity : Request → E → (ClientIdentity × Option Err) × E
  resolve_identity r e = passed_on (resolve env config creds r) e

  unfoldable pub evaluate_session : Option Session → E → Answer × E
  evaluate_session sess e = passed_on (evaluate env config sess false) e

  -- `Ping`
  unfoldable pub ping : E → Option Err × E
  unfolding report_to breaker_is_open
  ping e =
      if e.closed
      then (some (sentinel store_closed), e)
      else if not has_store
      then (some (sentinel store_not_configured), e)
      else (let (tripped, e₁) = breaker_is_open e in
          if tripped then (some (sentinel circuit_open), e₁) else (elim parts.pinger [
            | none ↦ (none, e₁)
            | some pinger ↦
                let (failed, s) = pinger e₁.world in
                let e₂ = report_to failed (record e₁ { world = s }) in
                (failed, elim failed [ none ↦ e₂ | some x ↦ see (store_error x ∷ []) e₂ ])
          ]))

  -- `Shutdown`: `finish` takes the state to where no call is in flight, or the context ends first with
  -- an error. The error of the wait comes before that of the store.
  unfoldable pub shutdown : (E → Option Err × E) → E → Option Err × E
  shutdown finish e =
      if e.closed
      then (none, e)
      else (let (unfinished, e₁) = finish (record e { draining = true }) in
          let e₂ = record e₁ { closed = true } in
          let (unclosed, s) : Option Err × S = (elim parts.closer [
            | none ↦ (none, e₂.world)
            | some close ↦ close e₂.world
          ]) in
          (elim unfinished [ some x ↦ some x | none ↦ unclosed ], record e₂ { world = s }))
