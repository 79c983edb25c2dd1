-- ===== src/Http/Access.antt =====
-- What the middleware promises: the handler behind it runs only for requests that were let in, and no
-- response sends a browser to another host.
use onionguard.Base.{
  ◌≡◌, refl, true, false, ◌&&◌, not, Option, none, some, ℤ, is_pos, ltb_ℤ, codes, same, arith,
  if_either, option_either, subst,
}
use onionguard.Base.Strings.{contains}
use onionguard.Errors.{ok}
use onionguard.Env.{Env}
use onionguard.Session.{Session}
use onionguard.Admission.States.{State, waiting, challenge_required, expired, revoked}
use onionguard.CircuitBreaker
use onionguard.Challenge.{StoredChallenge, CaptchaChallenge}
use onionguard.Identity.{ClientIdentity}
use onionguard.Engine.{Parts, RequestDecision}
use onionguard.Engine.Operations.{EngineState, is_stopping, authorize_request}
use onionguard.Engine.Access.{Access, authorize_request-Access}
use onionguard.Http.{
  HttpRequest, Body, next, Response, respond, challenge_page, challenge_json, accepts_html,
  write_json_error, render_wait_page, blank, wait_page, error_json, redirect, success_page,
  admitted_json,
}
use onionguard.Http.Redirect.{IsLocal, sanitize_redirect_target-IsLocal}
use onionguard.Http.Serve.{
  challenge_target, write_challenge_response, turn_away, follow, retry_of, has_url, serve,
}
use onionguard.Http.Targets.{
  IsFair, target_in-IsLocal, write_mapped_error-IsFair, handle_challenge-Fair,
}

-- Every target in the body is local.
abbrev pub HasLocalTarget : Body → Type 0
HasLocalTarget body = IsFair (λ id sess. Unit) body

IsFair-local :
    (A : ClientIdentity → Option Session → Type 0) (body : Body)
    → IsFair A body
    → HasLocalTarget body
IsFair-local A (next id sess) h = tt
IsFair-local A (error_json code message) h = h
IsFair-local A (wait_page d) h = h
IsFair-local A blank h = h
IsFair-local A (challenge_page ch target) h = h
IsFair-local A (challenge_json ch target) h = h
IsFair-local A (redirect target) h = h
IsFair-local A (success_page target) h = h
IsFair-local A (admitted_json target) h = h

module _ {F : Type 0} (env : Env Session StoredChallenge) (parts : Parts F env) where
  open env use {S, now}
  open parts use {config}

  challenge_target-IsLocal : (r : HttpRequest) → IsLocal (challenge_target env parts r)
  challenge_target-IsLocal r =
      option_either IsLocal r.base.query _ _ (λ _. target_in-IsLocal r.form)
        (λ _ _.
          if_either IsLocal (same r.base.path config.captcha.endpoint_path) _ _
            (λ _. target_in-IsLocal r.form) (λ _. sanitize_redirect_target-IsLocal r.request_uri))

  module _ (A : ClientIdentity → Option Session → Type 0) where
    abbrev IsFairResponse : Response → Type 0
    IsFairResponse res = IsFair A res.body

    write_challenge_response-IsFair :
        (r : HttpRequest) (ch : Option CaptchaChallenge)
        → IsFairResponse (write_challenge_response env parts r ch)
    unfolding write_challenge_response write_json_error
    write_challenge_response-IsFair r none = tt
    write_challenge_response-IsFair r (some ch) =
        if_either IsFairResponse
          (contains (codes "application/json") (r.base.header (codes "Accept"))
            && not (accepts_html r))
          (respond 403 (challenge_json ch (challenge_target env parts r)))
          (respond 403 (challenge_page ch (challenge_target env parts r)))
          (λ _. challenge_target-IsLocal r) (λ _. challenge_target-IsLocal r)

    turn_away-IsFair :
        (r : HttpRequest) (state : State) (d : RequestDecision)
        → IsFairResponse (turn_away env parts r state d)
    unfolding turn_away write_json_error render_wait_page
    turn_away-IsFair r waiting d =
        if_either IsFairResponse (accepts_html r) (render_wait_page d.admission.retry_after) _
          (λ _. tt) (λ _. tt)
    turn_away-IsFair r challenge_required d = write_challenge_response-IsFair r d.challenge
    turn_away-IsFair r expired d = tt
    turn_away-IsFair r revoked d = tt
    turn_away-IsFair r _ d = tt

    follow-IsFair :
        (r : HttpRequest) (d : RequestDecision) (e : EngineState S)
        → (d.admission.allowed ≡ true → A d.identity d.session)
        → IsFairResponse (follow env parts r d e).0
    unfolding follow
    follow-IsFair r d e h =
        if_either IsFairResponse d.admission.allowed (respond 200 (next d.identity d.session))
          (turn_away env parts r d.admission.state d) h
          (λ _. turn_away-IsFair r d.admission.state d)

  -- What the next handler runs for.
  abbrev pub IsLetIn : HttpRequest → ℤ → EngineState S → ClientIdentity → Option Session → Type 0
  IsLetIn r cost e id sess =
      (is_stopping e ≡ false)
      × ((CircuitBreaker.allow (now e.world).0 e.breaker).0 ≡ ok tt)
      × (d : RequestDecision) × (d.identity ≡ id)
      × (d.session ≡ sess)
      × Access env parts r.base cost (now e.world).1 d

  serve-IsFair :
      (r : HttpRequest) (cost : ℤ) (e : EngineState S)
      → IsFair (IsLetIn r cost e) (serve env parts r cost e).0.body
  unfolding serve write_json_error
  serve-IsFair r cost e =
      let P : Response × EngineState S → Type 0 = λ x. IsFair (IsLetIn r cost e) x.0.body in
      let ((d, failed), e₁) = authorize_request env parts r.base cost e in
      if_either P (is_pos config.max_body_bytes && ltb_ℤ config.max_body_bytes r.content_length) _ _
        (λ _. tt)
        (λ _.
          if_either P (has_url r && same r.base.path config.captcha.endpoint_path) _ _
            (λ _. handle_challenge-Fair env parts (IsLetIn r cost e) r e)
            (λ _.
              option_either P failed _ _
                (λ clean. follow-IsFair (IsLetIn r cost e) r d e₁ (λ allowed.
                  let (open_, through, access) =
                    authorize_request-Access env parts r.base cost e e₁ d (ground (arith, clean))
                      allowed in
                  (open_, through, d, refl, refl, access)))
                (λ x _. write_mapped_error-IsFair env parts (IsLetIn r cost e) x (retry_of d))))

  -- The handler behind the middleware runs, for an identity and a session, only if the engine is
  -- neither draining nor closed, its circuit breaker lets the request through, and the decision has
  -- one of two grounds. Either the request resolves to this very identity, by a principal or a
  -- token that is good, and the rate limiter lets the identity pass. Or it resolves to a client;
  -- once the rate limiter let the request pass, the admission engine evaluated the session that was
  -- resolved with the client, looked up under the client's id, or made for the request, and let it
  -- in: that session is neither revoked nor expired, and either was admitted and is the one handed
  -- on; or was waiting, and under its lock the store held it, neither revoked nor expired, and
  -- admitted by then or with its wait over, no challenge configured, and saved as admitted; or was
  -- new, with no friction configured, with room for it, and saved. The session handed on is
  -- admitted, and the identity is that of its anonymous holder.
  pub serve-IsLetIn :
      (r : HttpRequest) (cost : ℤ) (e : EngineState S) (id : ClientIdentity) (sess : Option Session)
      → (serve env parts r cost e).0.body ≡ next id sess
      → IsLetIn r cost e id sess
  serve-IsLetIn r cost e id sess h = subst (IsFair (IsLetIn r cost e)) h (serve-IsFair r cost e)

  -- Whatever the request, every redirect, challenge page and JSON body of the middleware and of its
  -- challenge endpoint names a target on this host: a path that starts with one slash, not with
  -- two, and, if it is longer than that slash, goes on with bytes that are neither a backslash nor
  -- a control character.
  pub serve-HasLocalTarget :
      (r : HttpRequest) (cost : ℤ) (e : EngineState S)
      → HasLocalTarget (serve env parts r cost e).0.body
  serve-HasLocalTarget r cost e = IsFair-local (IsLetIn r cost e) _ (serve-IsFair r cost e)
