-- ===== src/Http/Serve.antt =====
-- middleware/http.go: `Middleware`. The engine is not nil.
use onionguard.Base.{
  Bool, true, false, ◌&&◌, not, Option, none, some, ℤ, pos, is_pos, ltb_ℤ, leb_ℤ, Bytes, codes,
  same, if◌then◌else◌,
}
use onionguard.Base.Time.{Duration}
use onionguard.Base.Strings.{contains}
use onionguard.Env.{Env}
use onionguard.Session.{
  IdentityKind, authenticated, api_token, anonymous, anonymous_new, other_kind, Session,
}
use onionguard.Admission.States.{State, waiting, challenge_required, expired, revoked}
use onionguard.Challenge.{StoredChallenge, CaptchaChallenge}
use onionguard.Engine.{Parts, RequestDecision}
use onionguard.Engine.Operations.{EngineState, authorize_request}
use onionguard.Http.{
  HttpRequest, Response, next, challenge_page, challenge_json, respond, write_json_error,
  render_wait_page, write_mapped_error, accepts_html, session_cookie, target_in,
}
use onionguard.Http.Redirect.{sanitize_redirect_target}
use onionguard.Http.Challenge.{handle_challenge}

-- `Kind >= IdentityAnonymous`
abbrev pub is_visitor : IdentityKind → Bool
is_visitor authenticated = false
is_visitor api_token = false
is_visitor anonymous = true
is_visitor anonymous_new = true
is_visitor (other_kind n) = leb_ℤ (pos 3) n

abbrev pub has_url : HttpRequest → Bool
has_url r = elim r.base.query [ some _ ↦ true | none ↦ false ]

-- How long a client whose request failed is told to wait.
abbrev pub retry_of : RequestDecision → Duration
retry_of d =
    if is_pos d.admission.retry_after then d.admission.retry_after else (elim d.rate_limit [
      | none ↦ d.admission.retry_after
      | some rl ↦ if is_pos rl.retry_after then rl.retry_after else d.admission.retry_after
    ])

module _ {F : Type 0} (env : Env Session StoredChallenge) (parts : Parts F env) where
  open env use {S, now}
  open parts use {config}

  -- Where a visitor goes once the challenge is solved: back to what it asked for. A request without
  -- a URL, or for the endpoint, names the target itself.
  abbrev pub challenge_target : HttpRequest → Bytes
  challenge_target r = elim r.base.query [
    | none ↦ target_in r.form
    | some _ ↦
        if same r.base.path config.captcha.endpoint_path
        then target_in r.form
        else sanitize_redirect_target r.request_uri
  ]

  -- `writeChallengeResponse`
  unfoldable pub write_challenge_response : HttpRequest → Option CaptchaChallenge → Response
  write_challenge_response r none =
      write_json_error 403 (codes "CHALLENGE_REQUIRED") (codes "Challenge required.") (pos 0)
  write_challenge_response r (some ch) =
      if contains (codes "application/json") (r.base.header (codes "Accept"))
        && not (accepts_html r)
      then respond 403 (challenge_json ch (challenge_target r))
      else respond 403 (challenge_page ch (challenge_target r))

  -- The answer to a request that is not let in, by the state of its session.
  unfoldable pub turn_away : HttpRequest → State → RequestDecision → Response
  unfolding write_challenge_response
  turn_away r waiting d =
      if accepts_html r
      then render_wait_page d.admission.retry_after
      else write_json_error 429 (codes "WAIT_ROOM")
          (codes "Proof of patience in progress. Please wait.") d.admission.retry_after
  turn_away r challenge_required d = write_challenge_response r d.challenge
  turn_away r expired d =
      write_json_error 403 (codes "SESSION_INVALID")
        (codes "Session invalid or expired. Admission required.") (pos 0)
  turn_away r revoked d =
      write_json_error 403 (codes "SESSION_INVALID")
        (codes "Session invalid or expired. Admission required.") (pos 0)
  turn_away r _ d =
      write_json_error 403 (codes "ADMISSION_REQUIRED") (codes "Admission required.") (pos 0)

  -- The answer to a request that has been authorized without an error, with its cookie.
  unfoldable pub follow : HttpRequest → RequestDecision → EngineState S → Response × EngineState S
  follow r d e =
      let (t, s) = now e.world in
      let response =
        (if d.admission.allowed
          then respond 200 (next d.identity d.session)
          else turn_away r d.admission.state d) in
      (
        record response {
          cookie = if is_visitor d.identity.kind then session_cookie config t d.session else none;
        },
        record e { world = s },
      )

  -- `Middleware`, for a cost per request; a negative or a zero one is that of the rule. Where the
  -- next handler runs, the status is its own.
  unfoldable pub serve : HttpRequest → ℤ → EngineState S → Response × EngineState S
  serve r cost e =
      if is_pos config.max_body_bytes && ltb_ℤ config.max_body_bytes r.content_length
      then (
        write_json_error 413 (codes "PAYLOAD_TOO_LARGE") (codes "Request entity too large.")
            (pos 0),
        e,
      )
      else if has_url r && same r.base.path config.captcha.endpoint_path
      then handle_challenge env parts r e
      else (let ((d, failed), e₁) = authorize_request env parts r.base cost e in
          elim failed [ some x ↦ (write_mapped_error x (retry_of d), e₁) | none ↦ follow r d e₁ ])
