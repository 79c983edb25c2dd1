-- ===== src/Engine.antt =====
-- onionguard.go: the engine that New builds out of the parts, and its authorization of a request. The
-- parts are not nil.
pub mod Operations
pub mod Build
pub mod Origin
pub mod Access
pub mod Lifecycle
pub mod Guard
use onionguard.Base.{
  Bool, true, false, ◌||◌, ◌&&◌, not, Option, none, some, List, [], ◌∷◌, ◌++◌, ℤ, pos, Bytes, codes,
  same, if◌then◌else◌,
}
use onionguard.Base.Time.{Time, Duration}
use onionguard.Errors.{Err, sentinel, Result, ok, err, is, rate_limited, invalid_session}
use onionguard.Env.{Env}
use onionguard.Config.{Config}
use onionguard.Session.{IdentityKind, anonymous, anonymous_new, Session, new_session, get_session}
use onionguard.Admission.States.{State, waiting, challenge_required, admitted, same_state}
use onionguard.Admission.{AdmissionDecision, no_decision}
use onionguard.Admission.Evaluate.{evaluate}
use onionguard.Challenge.{StoredChallenge, CaptchaChallenge, Craft, issue}
use onionguard.CircuitBreaker.{is_infrastructure_error}
use onionguard.RateLimit
use onionguard.RateLimit.{RateLimitConfig, RateLimitResult, Limiter}
use onionguard.Identity.{ClientIdentity, no_identity, is_authenticated, is_api_token, client_of}
use onionguard.Identity.Token.{Request}
use onionguard.Identity.Resolve.{Credentials, Resolved, resolve_with_session}

-- The calls of the two observer interfaces, oldest first; an engine without observers makes none.
pub data Notice : Type 0 where
  request_admitted rate_limited_client : IdentityKind → Notice
  wait_room_queued : Duration → Notice
  challenge_issued challenge_solved challenge_failed : Notice
  store_error : Err → Notice

-- `rate_limit` is `none` for the zero result.
pub record RequestDecision : Type 0 where
  pub identity : ClientIdentity
  pub admission : AdmissionDecision
  pub session : Option Session
  pub challenge : Option CaptchaChallenge
  pub rate_limit : Option RateLimitResult

abbrev pub no_request_decision : RequestDecision
no_request_decision = record {
  identity = no_identity;
  admission = no_decision;
  session = none;
  challenge = none;
  rate_limit = none;
}

-- What the engine is made of, next to the store and the clock of the environment.
pub record Parts (F : Type 0) (env : Env Session StoredChallenge) : Type 0 where
  pub config : Config
  pub limits : RateLimitConfig F
  pub creds : Credentials env.S
  pub craft : Craft env.S
  -- The store as the rate limiter sees it.
  pub bucketed : Bool
  pub consume_token : Bytes → F → ℤ → ℤ → Duration → Time → env.S → Result (Bool × Duration) × env.S
  pub increment_with_ttl : Bytes → ℤ → Duration → env.S → Result ℤ × env.S
  -- `Ping`, if the store has it, and `Close`, if the engine owns the store.
  pub pinger : Option (env.S → Option Err × env.S)
  pub closer : Option (env.S → Option Err × env.S)

-- What a request comes to: the decision, the error, the error that the circuit breaker is told of
-- (`lastStoreErr`), and what the observers see.
pub record Outcome : Type 0 where
  pub decision : RequestDecision
  pub error : Option Err
  pub reported : Option Err
  pub notices : List Notice

-- `handleBackendError`, always called as critical: the error, and what the observer sees.
abbrev pub backend_notices : Err → List Notice
backend_notices e = if is_infrastructure_error (some e) then store_error e ∷ [] else []

abbrev pub fails : RequestDecision → Err → List Notice → Outcome
fails d e seen = record {
  decision = d;
  error = some e;
  reported = some e;
  notices = seen ++ backend_notices e;
}

abbrev pub succeeds : RequestDecision → List Notice → Outcome
succeeds d seen = record { decision = d; error = none; reported = none; notices = seen }

-- What the rate limiter's refusal comes to.
abbrev pub limited : ClientIdentity → Option Session → RateLimitResult → Err → Outcome
limited id sess rl e =
    fails (record no_request_decision { identity = id; session = sess; rate_limit = some rl }) e
      (if is e rate_limited then rate_limited_client id.kind ∷ [] else [])

-- Where the first half of `authorizeRequest` leads: to an outcome, or to a session to evaluate.
pub data Step : Type 0 where
  stop : Outcome → Step
  go : ClientIdentity → Session → RateLimitResult → Step

abbrev pub limiter : {F : Type 0} (env : Env Session StoredChallenge) → Parts F env → Limiter F
limiter env parts = record {
  S = env.S;
  has_store = env.has_store;
  bucketed = parts.bucketed;
  now = env.now;
  consume_token = parts.consume_token;
  increment_with_ttl = parts.increment_with_ttl;
  sha256 = parts.creds.sha256;
}

module _ {F : Type 0} (env : Env Session StoredChallenge) (parts : Parts F env) where
  open env use {S, now}
  open parts use {config, limits, creds, craft}

  unfoldable pub allow_rate_limit :
      ClientIdentity → Bytes → ℤ → S → (RateLimitResult × Option Err) × S
  allow_rate_limit id operation cost s =
      RateLimit.allow (limiter env parts) limits (client_of creds.sha256 id) operation cost s

  abbrev pub operation_of : Request → Bytes
  operation_of r = r.method ++ codes ":" ++ r.path

  -- The answer to a client who needs no session.
  unfoldable pub authorize_principal : ClientIdentity → Request → ℤ → S → Outcome × S
  authorize_principal id r cost s =
      let ((rl, refused), s₁) = allow_rate_limit id (operation_of r) cost s in
      elim refused [
        | some e ↦ (limited id none rl e, s₁)
        | none ↦ (
          succeeds
              (record no_request_decision {
                identity = id;
                rate_limit = some rl;
                admission = record no_decision { allowed = true; state = admitted };
              })
              (request_admitted id.kind ∷ []),
          s₁,
        )
      ]

  -- A visitor without a session that counts: `seen` is who the rate limiter is asked about, `id` whom
  -- the new session is given to.
  unfoldable pub first_contact : (seen id : ClientIdentity) → Request → ℤ → S → Step × S
  first_contact seen id r cost s =
      let ((rl, refused), s₁) = allow_rate_limit seen (operation_of r) cost s in
      elim refused [
        | some e ↦ (stop (limited seen none rl e), s₁)
        | none ↦
            let (t, s₂) = now s₁ in
            let (made, s₃) = new_session env t config.max_renewals s₂ in
            elim made [
              | err e ↦ (
                stop (record {
                  decision = record no_request_decision { identity = seen; rate_limit = some rl };
                  error = some e;
                  reported = none;
                  notices = [];
                }),
                s₃,
              )
              | ok sess ↦ (
                go
                    (record id {
                      kind = anonymous_new;
                      session_id = sess.session_id;
                      principal_id = sess.session_id;
                    })
                    sess rl,
                s₃,
              )
            ]
      ]

  -- A visitor with a session that the store holds.
  unfoldable pub returning : ClientIdentity → Session → Request → ℤ → S → Step × S
  returning id sess r cost s =
      let ((rl, refused), s₁) = allow_rate_limit id (operation_of r) cost s in
      (elim refused [ some e ↦ stop (limited id (some sess) rl e) | none ↦ go id sess rl ], s₁)

  -- The session of an anonymous client.
  unfoldable pub find_session : ClientIdentity → Option Session → Request → ℤ → S → Step × S
  find_session id sess r cost s =
      if same id.session_id [] then first_contact id id r cost s else (elim sess [
        | some held ↦ returning id held r cost s
        | none ↦
            let (found, s₁) = get_session env id.session_id s in
            elim found [
              | ok held ↦ returning id held r cost s₁
              | err e ↦
                  if not (is e invalid_session)
                  then (stop (fails (record no_request_decision { identity = id }) e []), s₁)
                  else first_contact (record no_identity { kind = anonymous_new }) id r cost s₁
            ]
      ])

  -- A decision that allows names the holder of its session.
  abbrev pub as_anonymous : RequestDecision → RequestDecision
  as_anonymous d = record d {
    identity = elim d.session [
      | none ↦ record d.identity { kind = anonymous }
      | some sess ↦ record d.identity {
        kind = anonymous;
        session_id = sess.session_id;
        principal_id = sess.session_id;
      }
    ];
  }

  -- The challenge that goes with a decision that asks for one.
  unfoldable pub attach_challenge : RequestDecision → List Notice → S → Outcome × S
  attach_challenge d seen s =
      if same_state d.admission.state challenge_required && config.captcha.enabled
      then (elim d.session [
        | none ↦ (succeeds d seen, s)
        | some sess ↦
            let (issued, s₁) = issue env config craft sess.session_id s in
            elim issued [
              | err e ↦ (fails d e seen, s₁)
              | ok ch ↦ (
                succeeds
                    (record d {
                      challenge = some ch;
                      admission = record d.admission { challenge_id = ch.id };
                    })
                    (seen ++ challenge_issued ∷ []),
                s₁,
              )
            ]
      ])
      else (succeeds d seen, s)

  -- The second half of `authorizeRequest`: a decision that allows holds a session.
  unfoldable pub admit : ClientIdentity → Session → RateLimitResult → S → Outcome × S
  admit id sess rl s =
      let ((dec, failed), s₁) = evaluate env config (some sess) true s in
      let d : RequestDecision = record {
        identity = id;
        admission = dec;
        session = dec.session;
        challenge = none;
        rate_limit = some rl;
      } in
      elim failed [
        | some e ↦ (fails d e [], s₁)
        | none ↦
            if dec.allowed
            then (succeeds (as_anonymous d) (request_admitted anonymous ∷ []), s₁)
            else attach_challenge d
                (if same_state dec.state waiting then wait_room_queued dec.retry_after ∷ [] else [])
                s₁
      ]

  unfoldable pub admit_step : Step → S → Outcome × S
  admit_step (stop out) s = (out, s)
  admit_step (go id sess rl) s = admit id sess rl s

  -- `authorizeRequest`, once the circuit breaker has let the request through.
  unfoldable pub authorize_through : Request → ℤ → S → Outcome × S
  authorize_through r cost s =
      let (x, s₁) = resolve_with_session env config creds r s in
      elim x [
        | err e ↦ (fails no_request_decision e [], s₁)
        | ok (id, sess) ↦
            if is_authenticated id.kind || is_api_token id.kind
            then authorize_principal id r cost s₁
            else (let (step, s₂) = find_session id sess r cost s₁ in admit_step step s₂)
      ]
