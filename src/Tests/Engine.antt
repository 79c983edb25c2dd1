-- ===== src/Tests/Engine.antt =====
-- Identities, the engine and the middleware in the test world.
use onionguard.Base.Strings.{trim_space}
use onionguard.Base.{
  ℕ, ◌≡◌, refl, ◌⊎◌, true, false, none, some, [], ◌∷◌, pos, codes, leb, same, arith, if◌then◌else◌,
}
use onionguard.Errors.{sentinel, ok, circuit_open}
use onionguard.Session.{is_revoked, is_expired, get_session, validate_session_id}
use onionguard.Admission.States.{admitted, waiting}
use onionguard.CircuitBreaker
use onionguard.CircuitBreaker.{closed, open_, is_infrastructure_error, new_circuit_breaker}
use onionguard.Store.Memory.{MemoryStore, new_memory_store}
use onionguard.Identity.{is_admitted}
use onionguard.Identity.Token.{extract_api_token_raw, extract_api_token, query_token}
use onionguard.Identity.Resolve.{
  classify, resolve_session, resolve_cookie, holder, resolve_with_session, resolve_raw_with_session,
}
use onionguard.Identity.Grounds.{Grounds, resolve_with_session-Grounds}
use onionguard.Identity.Raw.{resolve_raw-resolve}
use onionguard.Identity.Keys.{tier, rate_limit_key-tier}
use onionguard.Settings.{Settings, Rejection, validate_settings}
use onionguard.Settings.Default.{default_settings}
use onionguard.RateLimit
use onionguard.Admission.Evaluate.{evaluate, terminal, evaluate_current, evaluate_state}
use onionguard.Engine.{
  admit_step, find_session, returning, allow_rate_limit, admit, no_request_decision,
  authorize_through,
}
use onionguard.Engine.Operations.{authorize_request, shutdown}
use onionguard.Engine.Lifecycle.{
  authorizing, revoking, pinging, evaluating, call, IsClosedRun, run-shutdown, call-in_flight,
}
use onionguard.Engine.Guard.{authorize_request-circuit_open, authorize_request-recovers}
use onionguard.Engine.Build.{new_engine, rejected, built, owned_memory, new_engine-memory}
use onionguard.Patience.{wait_satisfied, sleep, wait_remaining, wait_remaining-satisfied}
use onionguard.Http.Serve.{follow, serve}
use onionguard.Http.Access.{HasLocalTarget, IsLetIn, serve-IsLetIn, serve-HasLocalTarget}
use onionguard.Tests.World.{test_id, session_in, friction}
use onionguard.Fiber.{fiber_serve}
use onionguard.Fiber.Targets.{IsFairAnswer}
use onionguard.Fiber.Access.{fiber_serve-IsFairAnswer}
use onionguard.Tests.Requests.{
  fiber_browse, credentials, env_in, parts_in, visit, browse, engine_in,
}

resolve_with_session-Grounds_example :
    Grounds
      (env_in admitted)
      (friction false)
      credentials
      (visit (codes "/"))
      200
      (holder (session_in admitted)).0
      (some (session_in admitted))
unfolding resolve_with_session same extract_api_token extract_api_token_raw resolve_cookie
    resolve_session validate_session_id trim_space get_session classify is_expired is_revoked
    is_admitted
resolve_with_session-Grounds_example =
    resolve_with_session-Grounds (env_in admitted) (friction false) credentials (visit (codes "/"))
      200 200 (holder (session_in admitted)).0 (some (session_in admitted)) refl refl

resolve_raw-resolve_example :
    let r = visit (codes "/") in
    resolve_raw_with_session (env_in admitted) (friction false) credentials [] [] [] [] test_id 200
    ≡ resolve_with_session (env_in admitted) (friction false) credentials r 200
unfolding query_token
resolve_raw-resolve_example =
    resolve_raw-resolve (env_in admitted) (friction false) credentials (visit (codes "/")) 200 refl

rate_limit_key-tier_example :
    tier (holder (session_in admitted)).0.kind ≡ tier (holder (session_in waiting)).0.kind
rate_limit_key-tier_example =
    rate_limit_key-tier (λ b. b) (holder (session_in admitted)).0 (holder (session_in waiting)).0
      refl

run-shutdown_example :
    let env = env_in admitted in
    let e = (shutdown env (parts_in admitted) (λ e. (none, e)) (engine_in closed)).1 in
    IsClosedRun env
      (parts_in admitted)
      (authorizing (visit (codes "/")) (pos 0)
        ∷ evaluating (some (session_in waiting))
        ∷ pinging
        ∷ [])
      e
run-shutdown_example =
    run-shutdown (env_in admitted) (parts_in admitted) (λ e. (none, e))
      (authorizing (visit (codes "/")) (pos 0)
        ∷ evaluating (some (session_in waiting))
        ∷ pinging
        ∷ [])
      (engine_in closed)

call-in_flight_example :
    (call (env_in admitted) (parts_in admitted) (revoking test_id) (engine_in closed)).1.in_flight
    ≡ 2
call-in_flight_example =
    call-in_flight (env_in admitted) (parts_in admitted) (revoking test_id) (engine_in closed) refl

authorize_request-circuit_open_example :
    let e = record (engine_in open_) { world = 120 } in
    authorize_request (env_in admitted) (parts_in admitted) (visit (codes "/")) (pos 0) e
    ≡ ((no_request_decision, some (sentinel circuit_open)), e)
authorize_request-circuit_open_example =
    authorize_request-circuit_open (env_in admitted) (parts_in admitted) (visit (codes "/")) (pos 0)
      (record (engine_in open_) { world = 120 }) refl refl refl refl

authorize_request-recovers_example :
    let env = env_in admitted in
    let out = (authorize_through env (parts_in admitted) (visit (codes "/")) (pos 0) 200).0 in
    let after =
      authorize_request env (parts_in admitted) (visit (codes "/")) (pos 0) (engine_in open_) in
    (after.0 ≡ (out.decision, out.error))
    × (after.1.breaker.state ≡ (if is_infrastructure_error out.reported then open_ else closed))
    × (after.1.breaker.half_open_in_flight ≡ false)
authorize_request-recovers_example =
    authorize_request-recovers (env_in admitted) (parts_in admitted) (visit (codes "/")) (pos 0)
      (engine_in open_) refl refl refl refl

abbrev defaults : Settings ℕ
defaults = default_settings (λ n. n)

-- The default configuration is accepted.
default_settings-accepted : validate_settings (λ n. leb n 0) defaults ≡ none
unfolding validate_settings default_settings CircuitBreaker.default_circuit_breaker_config same
default_settings-accepted = refl

new_engine-memory_example :
    let build = new_engine (λ n. leb n 0) (λ c. none) in
    let accepts = validate_settings (λ n. leb n 0) in
    ((e : Rejection) × (accepts defaults ≡ some e) × (build defaults 100 ≡ rejected e))
    ⊎ ((m : MemoryStore ℕ) × (accepts defaults ≡ none)
        × (new_memory_store defaults.store_config.limits ≡ ok m)
        × (build defaults 100
            ≡ built (owned_memory m) (new_circuit_breaker defaults.circuit_breaker 100)))
unfolding default_settings
new_engine-memory_example = new_engine-memory (λ n. leb n 0) (λ c. none) defaults 100 refl refl

wait_remaining-satisfied_example :
    wait_satisfied 100 (sleep (wait_remaining 100 120 (pos 50)) 120) (pos 50) ≡ true
wait_remaining-satisfied_example = wait_remaining-satisfied 100 120 50 (ground arith) (ground arith)

serve-IsLetIn_example :
    IsLetIn
      (env_in admitted)
      (parts_in admitted)
      (browse (codes "/x"))
      (pos 0)
      (engine_in closed)
      (holder (session_in admitted)).0
      (some (session_in admitted))
unfolding serve same authorize_request CircuitBreaker.allow authorize_through resolve_with_session
    extract_api_token extract_api_token_raw resolve_cookie resolve_session validate_session_id
    trim_space get_session classify is_expired is_revoked admit_step find_session returning
    allow_rate_limit RateLimit.allow admit evaluate terminal evaluate_current evaluate_state follow
serve-IsLetIn_example =
    serve-IsLetIn (env_in admitted) (parts_in admitted) (browse (codes "/x")) (pos 0)
      (engine_in closed) (holder (session_in admitted)).0 (some (session_in admitted)) refl

fiber_serve-IsFairAnswer_example :
    let visitor = fiber_browse (codes "/x") in
    IsFairAnswer
      (IsLetIn (env_in admitted) (parts_in admitted) visitor.http (pos 0) (engine_in closed))
      (fiber_serve (env_in admitted) (parts_in admitted) visitor (pos 0) (engine_in closed)).0
fiber_serve-IsFairAnswer_example =
    fiber_serve-IsFairAnswer (env_in admitted) (parts_in admitted) (fiber_browse (codes "/x"))
      (pos 0) (engine_in closed)

serve-HasLocalTarget_example :
    HasLocalTarget
      (serve
        (env_in waiting)
        (parts_in waiting)
        (browse (codes "/x"))
        (pos 0)
        (engine_in closed)).0.body
serve-HasLocalTarget_example =
    serve-HasLocalTarget (env_in waiting) (parts_in waiting) (browse (codes "/x")) (pos 0)
      (engine_in closed)
