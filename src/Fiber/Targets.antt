-- ===== src/Fiber/Targets.antt =====
-- The responses of the challenge endpoint for Fiber.
use onionguard.Base.{
  not, Option, none, some, [], ℤ, pos, ltb_ℤ, Bytes, codes, same, length, if_either, option_either,
}
use onionguard.Base.Strings.{trim_space}
use onionguard.Errors.{Err, is, max_attempts_exceeded, result_either}
use onionguard.Env.{Env}
use onionguard.Session.{Session, is_expired, get_session, validate_session_id}
use onionguard.Challenge.{StoredChallenge}
use onionguard.Identity.{ClientIdentity}
use onionguard.Engine.{Parts}
use onionguard.Engine.Operations.{EngineState, issue_challenge, validate_challenge}
use onionguard.Http.{
  Response, challenge_page, redirect, success_page, admitted_json, respond, write_json_error,
  render_wait_page, write_mapped_error, accepts_html,
}
use onionguard.Http.Redirect.{IsLocal, sanitize_redirect_target-IsLocal}
use onionguard.Http.Challenge.{is_get, is_retryable, live, limit_visit}
use onionguard.Http.Targets.{IsFair, write_mapped_error-IsFair}
use onionguard.Fiber.{
  FiberRequest, fiber_target, fiber_unsolved, fiber_solved, fiber_answer, fiber_by_method,
  fiber_unless_admitted, fiber_challenge,
}

fiber_target-IsLocal : (r : FiberRequest) → IsLocal (fiber_target r)
fiber_target-IsLocal r =
    if_either IsLocal (is_get r.http) _ _
      (λ _. sanitize_redirect_target-IsLocal (r.query (codes "target")))
      (λ _. sanitize_redirect_target-IsLocal (r.http.form (codes "target")))

-- A response, if there is one, is fair.
abbrev pub IsFairAnswer : (ClientIdentity → Option Session → Type 0) → Option Response → Type 0
IsFairAnswer A none = Unit
IsFairAnswer A (some res) = IsFair A res.body

module _ {F : Type 0} (env : Env Session StoredChallenge) (parts : Parts F env)
    (A : ClientIdentity → Option Session → Type 0) where
  open env use {S, now}
  open parts use {config}

  abbrev pub Fair : Option Response × EngineState S → Type 0
  Fair x = IsFairAnswer A x.0

  abbrev pub FairResponse : Response → Type 0
  FairResponse res = IsFair A res.body

  pub mapped-IsFair : (x : Err) (d : ℤ) → FairResponse (write_mapped_error x d)
  mapped-IsFair x d = write_mapped_error-IsFair env parts A x d

  fiber_unsolved-Fair :
      (r : FiberRequest) (id : Bytes) (x : Err) (e : EngineState S)
      → Fair (fiber_unsolved env parts r id x e)
  unfolding fiber_unsolved render_wait_page
  fiber_unsolved-Fair r id x e =
      if_either Fair (not (accepts_html r.http)) _ _ (λ _. mapped-IsFair x (pos 0))
        (λ _.
          if_either Fair (is x max_attempts_exceeded) _ _
            (λ _.
              if_either FairResponse config.wait_room.enabled
                (render_wait_page config.wait_room.wait_time) (write_mapped_error x (pos 0))
                (λ _. tt) (λ _. mapped-IsFair x (pos 0)))
            (λ _.
              if_either Fair (is_retryable x) _ _
                (λ _.
                  result_either FairResponse (issue_challenge env parts id e).0
                    (λ _. write_mapped_error x (pos 0))
                    (λ ch. respond 403 (challenge_page ch (fiber_target r)))
                    (λ _ _. mapped-IsFair x (pos 0)) (λ ch _. fiber_target-IsLocal r))
                (λ _. mapped-IsFair x (pos 0))))

  fiber_solved-Fair : (r : FiberRequest) → FairResponse (fiber_solved env parts r)
  fiber_solved-Fair r =
      if_either FairResponse (accepts_html r.http) (respond 200 (success_page (fiber_target r)))
        (respond 200 (admitted_json (fiber_target r))) (λ _. fiber_target-IsLocal r)
        (λ _. fiber_target-IsLocal r)

  fiber_answer-Fair :
      (r : FiberRequest) (id : Bytes) (e : EngineState S) → Fair (fiber_answer env parts r id e)
  unfolding fiber_answer write_json_error
  fiber_answer-Fair r id e =
      if_either Fair
        (ltb_ℤ config.max_cookie_value_bytes (pos (length (r.http.form (codes "answer"))))) _ _
        (λ _. tt)
        (λ _.
          let (done, e₁) = validate_challenge env parts id (r.http.form (codes "answer")) e in
          result_either Fair done _ _ (λ x _. fiber_unsolved-Fair r id x e₁)
            (λ _ _. fiber_solved-Fair r))

  fiber_by_method-Fair :
      (r : FiberRequest) (id : Bytes) (e : EngineState S) → Fair (fiber_by_method env parts r id e)
  unfolding fiber_by_method write_json_error
  fiber_by_method-Fair r id e =
      if_either Fair (is_get r.http) _ _
        (λ _.
          result_either FairResponse (issue_challenge env parts id e).0
            (λ x. write_mapped_error x (pos 0))
            (λ ch. respond 200 (challenge_page ch (fiber_target r)))
            (λ x _. mapped-IsFair x (pos 0)) (λ ch _. fiber_target-IsLocal r))
        (λ _.
          if_either Fair (not (same r.http.base.method (codes "POST"))) _ _ (λ _. tt)
            (λ _. fiber_answer-Fair r id e))

  fiber_unless_admitted-Fair :
      (r : FiberRequest) (id : Bytes) (e : EngineState S)
      → Fair (fiber_unless_admitted env parts r id e)
  unfolding fiber_unless_admitted
  fiber_unless_admitted-Fair r id e =
      let (found, s₁) = get_session env id e.world in
      result_either Fair found _ _ (λ _ _. fiber_by_method-Fair r id (record e { world = s₁ }))
        (λ sess _.
          if_either Fair (live sess (is_expired sess (now s₁).0)) _ _
            (λ _.
              if_either FairResponse (accepts_html r.http) (respond 302 (redirect (fiber_target r)))
                (respond 200 (admitted_json (fiber_target r))) (λ _. fiber_target-IsLocal r)
                (λ _. fiber_target-IsLocal r))
            (λ _. fiber_by_method-Fair r id (record e { world = (now s₁).1 })))

  pub fiber_challenge-Fair :
      (r : FiberRequest) (e : EngineState S) → Fair (fiber_challenge env parts r e)
  unfolding fiber_challenge write_json_error
  fiber_challenge-Fair r e =
      let id = trim_space (r.cookies config.session_cookie_name) in
      if_either Fair (same id []) _ _ (λ _. tt)
        (λ _.
          option_either Fair (validate_session_id id) _ _
            (λ _.
              let ((rl, refused), s₁) = limit_visit env parts r.http id e.world in
              option_either Fair refused _ _
                (λ _. fiber_unless_admitted-Fair r id (record e { world = s₁ }))
                (λ x _. mapped-IsFair x rl.retry_after))
            (λ _ _. tt))
