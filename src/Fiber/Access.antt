-- ===== src/Fiber/Access.antt =====
-- The middleware for Fiber promises what that for net/http does.
use onionguard.Base.{
  ◌≡◌, refl, true, ◌||◌, ◌&&◌, not, Option, none, some, ℤ, is_pos, ltb_ℤ, codes, same, arith,
  if_either, option_either,
}
use onionguard.Base.Strings.{contains}
use onionguard.Env.{Env}
use onionguard.Session.{Session}
use onionguard.Admission.States.{State, waiting, challenge_required, expired, revoked}
use onionguard.Challenge.{StoredChallenge, CaptchaChallenge}
use onionguard.Identity.{ClientIdentity}
use onionguard.Engine.{Parts, RequestDecision}
use onionguard.Engine.Operations.{EngineState, authorize_request}
use onionguard.Engine.Access.{authorize_request-Access}
use onionguard.Http.{
  blank, Cookie, Response, next, challenge_page, challenge_json, respond, write_json_error,
  render_wait_page, accepts_html,
}
use onionguard.Http.Redirect.{sanitize_redirect_target-IsLocal, sanitize_redirect_target}
use onionguard.Http.Serve.{retry_of}
use onionguard.Fiber.Targets.{IsFairAnswer, mapped-IsFair, fiber_challenge-Fair}
use onionguard.Http.Access.{IsLetIn}
use onionguard.Fiber.{
  FiberRequest, fiber_challenge_response, fiber_turn_away, fiber_follow, with_cookie, fiber_serve,
}

module _ {F : Type 0} (env : Env Session StoredChallenge) (parts : Parts F env)
    (A : ClientIdentity → Option Session → Type 0) where
  open env use {S, now}
  open parts use {config}

  fiber_challenge_response-Fair :
      (r : FiberRequest) (ch : Option CaptchaChallenge)
      → IsFairAnswer A (fiber_challenge_response env parts r ch)
  unfolding fiber_challenge_response
  fiber_challenge_response-Fair r none =
      if_either (IsFairAnswer A)
        (contains (codes "application/json") (r.http.base.header (codes "Accept"))
          && not (accepts_html r.http))
        none (some (respond 403 blank)) (λ _. tt) (λ _. tt)
  fiber_challenge_response-Fair r (some ch) =
      if_either (IsFairAnswer A)
        (contains (codes "application/json") (r.http.base.header (codes "Accept"))
          && not (accepts_html r.http))
        (some (respond 403 (challenge_json ch (sanitize_redirect_target r.http.request_uri))))
        (some (respond 403 (challenge_page ch (sanitize_redirect_target r.http.request_uri))))
        (λ _. sanitize_redirect_target-IsLocal r.http.request_uri)
        (λ _. sanitize_redirect_target-IsLocal r.http.request_uri)

  fiber_turn_away-Fair :
      (r : FiberRequest) (state : State) (d : RequestDecision)
      → IsFairAnswer A (fiber_turn_away env parts r state d)
  unfolding fiber_turn_away write_json_error render_wait_page
  fiber_turn_away-Fair r waiting d =
      if_either (IsFairAnswer A) (accepts_html r.http)
        (some (render_wait_page d.admission.retry_after)) _ (λ _. tt) (λ _. tt)
  fiber_turn_away-Fair r challenge_required d = fiber_challenge_response-Fair r d.challenge
  fiber_turn_away-Fair r expired d = tt
  fiber_turn_away-Fair r revoked d = tt
  fiber_turn_away-Fair r _ d = tt

  with_cookie-Fair :
      (res : Option Response) (cookie : Option Cookie)
      → IsFairAnswer A res
      → IsFairAnswer A (with_cookie cookie res)
  with_cookie-Fair none cookie h = tt
  with_cookie-Fair (some res) cookie h = h

  fiber_follow-Fair :
      (r : FiberRequest) (d : RequestDecision) (e : EngineState S)
      → (d.admission.allowed ≡ true → A d.identity d.session)
      → IsFairAnswer A (fiber_follow env parts r d e).0
  unfolding fiber_follow
  fiber_follow-Fair r d e h = with_cookie-Fair _ _ (
      if_either (IsFairAnswer A) d.admission.allowed
        (some (respond 200 (next d.identity d.session)))
        (fiber_turn_away env parts r d.admission.state d) h
        (λ _. fiber_turn_away-Fair r d.admission.state d))

module _ {F : Type 0} (env : Env Session StoredChallenge) (parts : Parts F env) where
  open env use {S}
  open parts use {config}

  -- In the middleware for Fiber, as in that for net/http, the next handler runs, for an identity
  -- and a session, only on the grounds that serve-IsLetIn names: through the breaker and the rate
  -- limiter, for the very identity that a good principal or token shows, or for the anonymous
  -- holder of a session that the admission engine let in; and every redirect, page and JSON body
  -- names a target on this host.
  pub fiber_serve-IsFairAnswer :
      (r : FiberRequest) (cost : ℤ) (e : EngineState S)
      → IsFairAnswer (IsLetIn env parts r.http cost e) (fiber_serve env parts r cost e).0
  unfolding fiber_serve write_json_error
  fiber_serve-IsFairAnswer r cost e =
      let A = IsLetIn env parts r.http cost e in
      let P : Option Response × EngineState S → Type 0 = λ x. IsFairAnswer A x.0 in
      let ((d, failed), e₁) = authorize_request env parts r.http.base cost e in
      if_either P
        (is_pos config.max_body_bytes
          && (ltb_ℤ config.max_body_bytes r.http.content_length
              || ltb_ℤ config.max_body_bytes r.body_length))
        _ _ (λ _. tt)
        (λ _.
          if_either P (not r.has_good_url) _ _ (λ _. tt)
            (λ _.
              if_either P (same r.http.base.path config.captcha.endpoint_path) _ _
                (λ _. fiber_challenge-Fair env parts A r e)
                (λ _.
                  option_either P failed _ _
                    (λ clean. fiber_follow-Fair env parts A r d e₁ (λ allowed.
                      let (open_, through, access) =
                        authorize_request-Access env parts r.http.base cost e e₁ d
                          (ground (arith, clean)) allowed in
                      (open_, through, d, refl, refl, access)))
                    (λ x _. mapped-IsFair env parts A x (retry_of d)))))
