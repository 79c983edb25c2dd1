-- ===== src/Http/Targets.antt =====
-- What a body of a response says: where a browser is sent to, and whether the next handler runs.
use onionguard.Base.{
  refl, not, Option, [], ℤ, pos, ltb_ℤ, Bytes, codes, same, length, if_either, option_either,
}
use onionguard.Base.Strings.{trim_space}
use onionguard.Errors.{Err, is, max_attempts_exceeded, result_either}
use onionguard.Env.{Env}
use onionguard.Session.{Session, is_expired, get_session, validate_session_id}
use onionguard.Challenge.{StoredChallenge}
use onionguard.Identity.{ClientIdentity}
use onionguard.Identity.Resolve.{cookie_value}
use onionguard.Engine.{Parts}
use onionguard.Engine.Operations.{EngineState, issue_challenge, validate_challenge}
use onionguard.Http.{
  FormError, too_large, malformed, HttpRequest, Body, next, error_json, wait_page, blank,
  challenge_page, challenge_json, redirect, success_page, admitted_json, Response, respond,
  write_json_error, render_wait_page, write_mapped_error, accepts_html, target_in,
}
use onionguard.Http.Redirect.{
  root, IsLocal, sanitize_redirect_target, sanitize_redirect_target-IsLocal,
}
use onionguard.Http.Challenge.{
  is_get, endpoint_target, given_target, is_elsewhere, solved_target, form_failure, is_retryable,
  live, solved, unsolved, ask, answer, by_method, unless_admitted, limit_visit, handle_challenge,
}

-- Every target is local, and the next handler runs for those that `A` holds of.
abbrev pub IsFair : (ClientIdentity → Option Session → Type 0) → Body → Type 0
IsFair A (next id sess) = A id sess
IsFair A (error_json code message) = Unit
IsFair A (wait_page d) = Unit
IsFair A blank = Unit
IsFair A (challenge_page ch target) = IsLocal target
IsFair A (challenge_json ch target) = IsLocal target
IsFair A (redirect target) = IsLocal target
IsFair A (success_page target) = IsLocal target
IsFair A (admitted_json target) = IsLocal target

pub target_in-IsLocal : (get : Bytes → Bytes) → IsLocal (target_in get)
target_in-IsLocal get =
    if_either IsLocal (same (get (codes "r")) []) _ _ (λ _. sanitize_redirect_target-IsLocal _)
      (λ _. sanitize_redirect_target-IsLocal _)

endpoint_target-IsLocal : (r : HttpRequest) → IsLocal (endpoint_target r)
endpoint_target-IsLocal r =
    if_either IsLocal (is_get r) _ _
      (λ _.
        option_either IsLocal r.base.query _ target_in (λ _. target_in-IsLocal r.form)
          (λ get _. target_in-IsLocal get))
      (λ _. target_in-IsLocal r.form)

solved_target-IsLocal : (r : HttpRequest) → IsLocal (solved_target r)
unfolding solved_target
solved_target-IsLocal r =
    if_either IsLocal (is_elsewhere (given_target r)) root
      (sanitize_redirect_target (given_target r)) (λ _. refl)
      (λ _. sanitize_redirect_target-IsLocal (given_target r))

module _ {F : Type 0} (env : Env Session StoredChallenge) (parts : Parts F env)
    (A : ClientIdentity → Option Session → Type 0) where
  open env use {S, now}
  open parts use {config}

  abbrev Fair : Response × EngineState S → Type 0
  Fair x = IsFair A x.0.body

  pub write_mapped_error-IsFair : (x : Err) (d : ℤ) → IsFair A (write_mapped_error x d).body
  unfolding write_mapped_error write_json_error
  write_mapped_error-IsFair x d = tt

  form_failure-IsFair : (x : FormError) → IsFair A (form_failure x).body
  unfolding write_json_error
  form_failure-IsFair too_large = tt
  form_failure-IsFair malformed = tt

  solved-Fair : (r : HttpRequest) (id : Bytes) (e : EngineState S) → Fair (solved env parts r id e)
  unfolding solved
  solved-Fair r id e =
      if_either Fair (accepts_html r) _ _
        (λ _.
          result_either Fair (get_session env id e.world).0 _ _ (λ _ _. solved_target-IsLocal r)
            (λ sess _. solved_target-IsLocal r))
        (λ _. endpoint_target-IsLocal r)

  unsolved-Fair :
      (r : HttpRequest) (id : Bytes) (x : Err) (e : EngineState S)
      → Fair (unsolved env parts r id x e)
  unfolding unsolved render_wait_page
  unsolved-Fair r id x e =
      if_either Fair (not (accepts_html r)) _ _ (λ _. write_mapped_error-IsFair x (pos 0))
        (λ _.
          if_either Fair (is x max_attempts_exceeded) _ _
            (λ _.
              if_either (λ res. IsFair A res.body) config.wait_room.enabled
                (render_wait_page config.wait_room.wait_time) (write_mapped_error x (pos 0))
                (λ _. tt) (λ _. write_mapped_error-IsFair x (pos 0)))
            (λ _.
              if_either Fair (is_retryable x) _ _
                (λ _.
                  result_either (λ res. IsFair A res.body) (issue_challenge env parts id e).0
                    (λ _. write_mapped_error x (pos 0))
                    (λ ch. respond 403 (challenge_page ch (endpoint_target r)))
                    (λ _ _. write_mapped_error-IsFair x (pos 0))
                    (λ ch _. endpoint_target-IsLocal r))
                (λ _. write_mapped_error-IsFair x (pos 0))))

  ask-Fair : (r : HttpRequest) (id : Bytes) (e : EngineState S) → Fair (ask env parts r id e)
  unfolding ask
  ask-Fair r id e =
      result_either (λ res. IsFair A res.body) (issue_challenge env parts id e).0
        (λ x. write_mapped_error x (pos 0))
        (λ ch. respond 200 (challenge_page ch (endpoint_target r)))
        (λ x _. write_mapped_error-IsFair x (pos 0)) (λ ch _. endpoint_target-IsLocal r)

  answer-Fair : (r : HttpRequest) (id : Bytes) (e : EngineState S) → Fair (answer env parts r id e)
  unfolding answer write_json_error
  answer-Fair r id e =
      option_either Fair r.form_error _ _
        (λ _.
          if_either Fair
            (ltb_ℤ config.max_cookie_value_bytes (pos (length (r.form (codes "answer"))))) _ _
            (λ _. tt)
            (λ _.
              let (done, e₁) = validate_challenge env parts id (r.form (codes "answer")) e in
              result_either Fair done _ _ (λ x _. unsolved-Fair r id x e₁)
                (λ _ _. solved-Fair r id e₁)))
        (λ x _. form_failure-IsFair x)

  by_method-Fair :
      (r : HttpRequest) (id : Bytes) (e : EngineState S) → Fair (by_method env parts r id e)
  unfolding by_method write_json_error
  by_method-Fair r id e =
      if_either Fair (is_get r) _ _ (λ _. ask-Fair r id e)
        (λ _.
          if_either Fair (not (same r.base.method (codes "POST"))) _ _ (λ _. tt)
            (λ _. answer-Fair r id e))

  unless_admitted-Fair :
      (r : HttpRequest) (id : Bytes) (e : EngineState S) → Fair (unless_admitted env parts r id e)
  unfolding unless_admitted
  unless_admitted-Fair r id e =
      let (found, s₁) = get_session env id e.world in
      result_either Fair found _ _ (λ _ _. by_method-Fair r id (record e { world = s₁ }))
        (λ sess _.
          if_either Fair (live sess (is_expired sess (now s₁).0)) _ _
            (λ _.
              if_either (λ res. IsFair A res.body) (accepts_html r)
                (respond 302 (redirect (endpoint_target r)))
                (respond 200 (admitted_json (endpoint_target r))) (λ _. endpoint_target-IsLocal r)
                (λ _. endpoint_target-IsLocal r))
            (λ _. by_method-Fair r id (record e { world = (now s₁).1 })))

  pub handle_challenge-Fair :
      (r : HttpRequest) (e : EngineState S) → Fair (handle_challenge env parts r e)
  unfolding handle_challenge write_json_error
  handle_challenge-Fair r e =
      if_either Fair (same (cookie_value config r.base) []) _ _ (λ _. tt)
        (λ _.
          option_either Fair (validate_session_id (trim_space (cookie_value config r.base))) _ _
            (λ _.
              let id = trim_space (cookie_value config r.base) in
              let ((rl, refused), s₁) = limit_visit env parts r id e.world in
              option_either Fair refused _ _
                (λ _. unless_admitted-Fair r id (record e { world = s₁ }))
                (λ x _. write_mapped_error-IsFair x rl.retry_after))
            (λ _ _. tt))
