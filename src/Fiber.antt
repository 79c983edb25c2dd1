-- ===== src/Fiber.antt =====
-- middleware/fiber/fiber.go: the same middleware for the Fiber framework, with the requests and responses
-- of Http. A result `none` is a panic: the code reads the challenge of a decision that has none, where a client
-- wants JSON.
pub mod Targets
pub mod Access
use onionguard.Base.{
  ℕ, Bool, true, false, ◌||◌, ◌&&◌, not, Option, none, some, [], ◌∷◌, ◌++◌, ℤ, pos, is_pos, ltb_ℤ,
  Bytes, codes, same, length, if◌then◌else◌,
}
use onionguard.Base.Strings.{trim_space, contains}
use onionguard.Errors.{Err, Result, ok, err, is, max_attempts_exceeded}
use onionguard.Env.{Env}
use onionguard.Session.{Session, is_expired, get_session, validate_session_id}
use onionguard.Admission.States.{State, waiting, challenge_required, expired, revoked}
use onionguard.Challenge.{StoredChallenge, CaptchaChallenge}
use onionguard.Settings.{HeaderPolicy, override, merge, SecurityHeadersConfig}
use onionguard.Engine.{Parts, RequestDecision}
use onionguard.Engine.Operations.{
  EngineState, issue_challenge, validate_challenge, authorize_request,
}
use onionguard.Headers.{Header, csp, header_set}
use onionguard.Http.{
  HttpRequest, Cookie, Response, next, blank, challenge_page, challenge_json, redirect,
  success_page, admitted_json, respond, write_json_error, render_wait_page, write_mapped_error,
  accepts_html, session_cookie,
}
use onionguard.Http.Redirect.{sanitize_redirect_target}
use onionguard.Http.Challenge.{
  is_get, session_required, invalid_input, is_retryable, live, limit_visit,
}
use onionguard.Http.Serve.{is_visitor, retry_of}

-- What the code reads of a `*fiber.Ctx` beside what it has in common with an `*http.Request`:
-- `len(Body())`, `Cookies`, `Query` and whether the URL can be parsed. `request_uri` is `OriginalURL`.
pub record FiberRequest : Type 0 where
  pub http : HttpRequest
  pub body_length : ℤ
  pub cookies : Bytes → Bytes
  pub query : Bytes → Bytes
  pub has_good_url : Bool

-- The closure `set` of `applyFiberSecurityHeaders` for a value that is not empty. `c.Get` reads the
-- header of the request, `c.Set` writes that of the response.
unfoldable pub fiber_set_by : HeaderPolicy → (name value existing : Bytes) → Header → Header
fiber_set_by override name value existing h = header_set name value h
fiber_set_by merge name value existing h =
    if not (same existing []) && (same name csp && not (same existing value))
    then header_set name (existing ++ codes "; " ++ value) h
    else if same existing []
    then header_set name value h
    else h
fiber_set_by _ name value existing h = if same existing [] then header_set name value h else h

unfoldable pub fiber_set_header :
    HeaderPolicy → (Bytes → Bytes) → (name value : Bytes) → Header → Header
unfolding fiber_set_by
fiber_set_header policy get name value h =
    if same value [] then h else fiber_set_by policy name value (get name) h

unfoldable pub apply_fiber_security_headers :
    SecurityHeadersConfig → (Bytes → Bytes) → Header → Header
unfolding fiber_set_header
apply_fiber_security_headers cfg get h =
    let h₁ = fiber_set_header cfg.policy get csp cfg.content_security_policy h in
    let h₂ = fiber_set_header cfg.policy get (codes "Referrer-Policy") cfg.referrer_policy h₁ in
    let h₃ = fiber_set_header cfg.policy get (codes "X-Frame-Options") cfg.x_frame_options h₂ in
    fiber_set_header cfg.policy get (codes "X-Content-Type-Options") cfg.x_content_type_options h₃

abbrev pub with_cookie : Option Cookie → Option Response → Option Response
with_cookie cookie none = none
with_cookie cookie (some res) = some (record res { cookie = cookie })

abbrev pub too_large_json : Response
too_large_json =
    write_json_error 413 (codes "PAYLOAD_TOO_LARGE") (codes "Request entity too large.") (pos 0)

abbrev pub fiber_target : FiberRequest → Bytes
fiber_target r =
    if is_get r.http
    then sanitize_redirect_target (r.query (codes "target"))
    else sanitize_redirect_target (r.http.form (codes "target"))

module _ {F : Type 0} (env : Env Session StoredChallenge) (parts : Parts F env) where
  open env use {S, now}
  open parts use {config}

  abbrev pub FiberAnswer : Type 0
  FiberAnswer = Option Response × EngineState S

  -- The answer to a wrong answer.
  unfoldable pub fiber_unsolved : FiberRequest → Bytes → Err → EngineState S → FiberAnswer
  fiber_unsolved r id x e =
      if not (accepts_html r.http)
      then (some (write_mapped_error x (pos 0)), e)
      else if is x max_attempts_exceeded
      then (
        some (
            if config.wait_room.enabled
            then render_wait_page config.wait_room.wait_time
            else write_mapped_error x (pos 0)),
        e,
      )
      else if is_retryable x
      then (let (issued, e₁) = issue_challenge env parts id e in
          (
            some (elim issued [
              | ok ch ↦ respond 403 (challenge_page ch (fiber_target r))
              | err _ ↦ write_mapped_error x (pos 0)
            ]),
            e₁,
          ))
      else (some (write_mapped_error x (pos 0)), e)

  abbrev pub fiber_solved : FiberRequest → Response
  fiber_solved r =
      if accepts_html r.http
      then respond 200 (success_page (fiber_target r))
      else respond 200 (admitted_json (fiber_target r))

  unfoldable pub fiber_answer : FiberRequest → Bytes → EngineState S → FiberAnswer
  fiber_answer r id e =
      if ltb_ℤ config.max_cookie_value_bytes (pos (length (r.http.form (codes "answer"))))
      then (some (invalid_input (codes "Invalid challenge response.")), e)
      else (let (done, e₁) = validate_challenge env parts id (r.http.form (codes "answer")) e in
          elim done [ ok _ ↦ (some (fiber_solved r), e₁) | err x ↦ fiber_unsolved r id x e₁ ])

  unfoldable pub fiber_by_method : FiberRequest → Bytes → EngineState S → FiberAnswer
  fiber_by_method r id e =
      if is_get r.http
      then (let (issued, e₁) = issue_challenge env parts id e in
          (
            some (elim issued [
              | ok ch ↦ respond 200 (challenge_page ch (fiber_target r))
              | err x ↦ write_mapped_error x (pos 0)
            ]),
            e₁,
          ))
      else if not (same r.http.base.method (codes "POST"))
      then (
        some
            (record (write_json_error 405 (codes "METHOD_NOT_ALLOWED") (codes "Method not allowed.")
              (pos 0)) { allow = codes "GET, POST" }),
        e,
      )
      else fiber_answer r id e

  unfoldable pub fiber_unless_admitted : FiberRequest → Bytes → EngineState S → FiberAnswer
  fiber_unless_admitted r id e =
      let (found, s₁) = get_session env id e.world in
      elim found [
        | err _ ↦ fiber_by_method r id (record e { world = s₁ })
        | ok sess ↦
            let (t, s₂) = now s₁ in
            if live sess (is_expired sess t)
            then (
              some (
                  if accepts_html r.http
                  then respond 302 (redirect (fiber_target r))
                  else respond 200 (admitted_json (fiber_target r))),
              record e { world = s₂ },
            )
            else fiber_by_method r id (record e { world = s₂ })
      ]

  -- The endpoint of the challenge.
  unfoldable pub fiber_challenge : FiberRequest → EngineState S → FiberAnswer
  fiber_challenge r e =
      let id = trim_space (r.cookies config.session_cookie_name) in
      if same id [] then (some session_required, e) else (elim (validate_session_id id) [
        | some _ ↦ (some session_required, e)
        | none ↦
            let ((rl, refused), s₁) = limit_visit env parts r.http id e.world in
            elim refused [
              | some x ↦ (some (write_mapped_error x rl.retry_after), record e { world = s₁ })
              | none ↦ fiber_unless_admitted r id (record e { world = s₁ })
            ]
      ])

  unfoldable pub fiber_challenge_response : FiberRequest → Option CaptchaChallenge → Option Response
  fiber_challenge_response r none =
      if contains (codes "application/json") (r.http.base.header (codes "Accept"))
        && not (accepts_html r.http)
      then none
      else some (respond 403 blank)
  fiber_challenge_response r (some ch) =
      let target = sanitize_redirect_target r.http.request_uri in
      if contains (codes "application/json") (r.http.base.header (codes "Accept"))
        && not (accepts_html r.http)
      then some (respond 403 (challenge_json ch target))
      else some (respond 403 (challenge_page ch target))

  unfoldable pub fiber_turn_away : FiberRequest → State → RequestDecision → Option Response
  unfolding fiber_challenge_response
  fiber_turn_away r waiting d =
      if accepts_html r.http
      then some (render_wait_page d.admission.retry_after)
      else some (
          write_json_error 429 (codes "WAIT_ROOM")
            (codes "Proof of patience in progress. Please wait.") d.admission.retry_after)
  fiber_turn_away r challenge_required d = fiber_challenge_response r d.challenge
  fiber_turn_away r expired d = some (
      write_json_error 403 (codes "SESSION_INVALID")
        (codes "Session invalid or expired. Admission required.") (pos 0))
  fiber_turn_away r revoked d = some (
      write_json_error 403 (codes "SESSION_INVALID")
        (codes "Session invalid or expired. Admission required.") (pos 0))
  fiber_turn_away r _ d =
      some (write_json_error 403 (codes "ADMISSION_REQUIRED") (codes "Admission required.") (pos 0))

  unfoldable pub fiber_follow : FiberRequest → RequestDecision → EngineState S → FiberAnswer
  fiber_follow r d e =
      let (t, s) = now e.world in
      let response =
        (if d.admission.allowed
          then some (respond 200 (next d.identity d.session))
          else fiber_turn_away r d.admission.state d) in
      let cookie = if is_visitor d.identity.kind then session_cookie config t d.session else none in
      (with_cookie cookie response, record e { world = s })

  -- `Middleware`
  unfoldable pub fiber_serve : FiberRequest → ℤ → EngineState S → FiberAnswer
  fiber_serve r cost e =
      if is_pos config.max_body_bytes
        && (ltb_ℤ config.max_body_bytes r.http.content_length
            || ltb_ℤ config.max_body_bytes r.body_length)
      then (some too_large_json, e)
      else if not r.has_good_url
      then (
        some (write_json_error 400 (codes "BAD_REQUEST") (codes "Malformed request URL.") (pos 0)),
        e,
      )
      else if same r.http.base.path config.captcha.endpoint_path
      then fiber_challenge r e
      else (let ((d, failed), e₁) = authorize_request env parts r.http.base cost e in
          elim failed [
            | some x ↦ (some (write_mapped_error x (retry_of d)), e₁)
            | none ↦ fiber_follow r d e₁
          ])
