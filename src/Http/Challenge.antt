-- ===== src/Http/Challenge.antt =====
-- middleware/http.go: `handleChallengeHTTP`, the endpoint where a visitor answers its challenge.
use onionguard.Base.{
  Bool, ◌||◌, ◌&&◌, not, Option, none, some, [], ◌++◌, pos, ltb_ℤ, Bytes, codes, same, length,
  if◌then◌else◌,
}
use onionguard.Base.Strings.{trim_space, starts_with}
use onionguard.Errors.{
  Err, ok, err, is, max_attempts_exceeded, challenge_invalid, challenge_expired,
  challenge_not_found,
}
use onionguard.Env.{Env}
use onionguard.Session.{
  anonymous_new, Session, is_expired, is_revoked, get_session, validate_session_id,
}
use onionguard.Admission.States.{admitted, same_state}
use onionguard.Challenge.{StoredChallenge}
use onionguard.RateLimit.{RateLimitResult}
use onionguard.Identity.{ClientIdentity, no_identity}
use onionguard.Identity.Resolve.{cookie_value}
use onionguard.Engine.{Parts, allow_rate_limit}
use onionguard.Engine.Operations.{EngineState, issue_challenge, validate_challenge}
use onionguard.Http.{
  FormError, too_large, malformed, HttpRequest, Response, challenge_page, redirect, admitted_json,
  respond, write_json_error, render_wait_page, write_mapped_error, accepts_html, session_cookie,
  target_in,
}
use onionguard.Http.Redirect.{root, sanitize_redirect_target}

abbrev pub is_get : HttpRequest → Bool
is_get r = same r.base.method (codes "GET")

abbrev pub session_required : Response
session_required =
    write_json_error 403 (codes "CHALLENGE_REQUIRED") (codes "A valid session is required.") (pos 0)

-- The target of a request to the endpoint.
abbrev pub endpoint_target : HttpRequest → Bytes
endpoint_target r =
    if is_get r
    then (elim r.base.query [ some get ↦ target_in get | none ↦ target_in r.form ])
    else target_in r.form

-- The target of the redirect after an answer that was right.
abbrev pub given_target : HttpRequest → Bytes
given_target r =
    if same (r.form (codes "r")) [] then r.form (codes "target") else r.form (codes "r")

abbrev pub is_elsewhere : Bytes → Bool
is_elsewhere given =
    same given [] || (not (starts_with root given) || starts_with (codes "//") given)

unfoldable pub solved_target : HttpRequest → Bytes
solved_target r =
    if is_elsewhere (given_target r) then root else sanitize_redirect_target (given_target r)

abbrev pub invalid_input : Bytes → Response
invalid_input message = write_json_error 400 (codes "INVALID_INPUT") message (pos 0)

abbrev pub form_failure : FormError → Response
form_failure too_large =
    write_json_error 413 (codes "PAYLOAD_TOO_LARGE") (codes "Request entity too large.") (pos 0)
form_failure malformed = invalid_input (codes "Invalid request body.")

-- The errors after which a browser gets a new challenge; ErrChallengeFailed is ErrChallengeInvalid.
abbrev pub is_retryable : Err → Bool
is_retryable e = is e challenge_invalid || (is e challenge_expired || is e challenge_not_found)

abbrev pub live : Session → Bool → Bool
live sess expired = same_state sess.state admitted && (not expired && not (is_revoked sess))

module _ {F : Type 0} (env : Env Session StoredChallenge) (parts : Parts F env) where
  open env use {S, now}
  open parts use {config}

  -- The answer to an answer that was right.
  unfoldable pub solved : HttpRequest → Bytes → EngineState S → Response × EngineState S
  solved r id e =
      if accepts_html r
      then (let (found, s₁) = get_session env id e.world in
          let page = respond 302 (redirect (solved_target r)) in
          elim found [
            | err _ ↦ (page, record e { world = s₁ })
            | ok sess ↦
                let (t, s₂) = now s₁ in
                (
                  record page { cookie = session_cookie config t (some sess) },
                  record e { world = s₂ },
                )
          ])
      else (respond 200 (admitted_json (endpoint_target r)), e)

  -- The answer to a wrong one.
  unfoldable pub unsolved : HttpRequest → Bytes → Err → EngineState S → Response × EngineState S
  unsolved r id x e =
      if not (accepts_html r)
      then (write_mapped_error x (pos 0), e)
      else if is x max_attempts_exceeded
      then (
        if config.wait_room.enabled
            then render_wait_page config.wait_room.wait_time
            else write_mapped_error x (pos 0),
        e,
      )
      else if is_retryable x
      then (let (issued, e₁) = issue_challenge env parts id e in
          (
            elim issued [
              | ok ch ↦ respond 403 (challenge_page ch (endpoint_target r))
              | err _ ↦ write_mapped_error x (pos 0)
            ],
            e₁,
          ))
      else (write_mapped_error x (pos 0), e)

  -- A GET asks for a challenge; a POST answers one.
  unfoldable pub ask : HttpRequest → Bytes → EngineState S → Response × EngineState S
  ask r id e =
      let (issued, e₁) = issue_challenge env parts id e in
      (
        elim issued [
          | ok ch ↦ respond 200 (challenge_page ch (endpoint_target r))
          | err x ↦ write_mapped_error x (pos 0)
        ],
        e₁,
      )

  unfoldable pub answer : HttpRequest → Bytes → EngineState S → Response × EngineState S
  answer r id e = elim r.form_error [
    | some x ↦ (form_failure x, e)
    | none ↦
        if ltb_ℤ config.max_cookie_value_bytes (pos (length (r.form (codes "answer"))))
        then (invalid_input (codes "Invalid challenge response."), e)
        else (let (done, e₁) = validate_challenge env parts id (r.form (codes "answer")) e in
            elim done [ ok _ ↦ solved r id e₁ | err x ↦ unsolved r id x e₁ ])
  ]

  unfoldable pub by_method : HttpRequest → Bytes → EngineState S → Response × EngineState S
  by_method r id e =
      if is_get r
      then ask r id e
      else if not (same r.base.method (codes "POST"))
      then (
        record (write_json_error 405 (codes "METHOD_NOT_ALLOWED") (codes "Method not allowed.")
            (pos 0)) { allow = codes "GET, POST" },
        e,
      )
      else answer r id e

  -- A visitor who is let in already goes on; the clock is read where the session is found.
  unfoldable pub unless_admitted : HttpRequest → Bytes → EngineState S → Response × EngineState S
  unless_admitted r id e =
      let (found, s₁) = get_session env id e.world in
      elim found [
        | err _ ↦ by_method r id (record e { world = s₁ })
        | ok sess ↦
            let (t, s₂) = now s₁ in
            let e₂ = record e { world = s₂ } in
            if live sess (is_expired sess t)
            then (
              if accepts_html r
                  then respond 302 (redirect (endpoint_target r))
                  else respond 200 (admitted_json (endpoint_target r)),
              e₂,
            )
            else by_method r id e₂
      ]

  -- The rate limiter, asked for the visitor that the cookie names.
  abbrev pub limit_visit : HttpRequest → Bytes → S → (RateLimitResult × Option Err) × S
  limit_visit r id s =
      let visitor : ClientIdentity = record no_identity {
        kind = anonymous_new;
        session_id = id;
        principal_id = id;
      } in
      allow_rate_limit env parts visitor (codes "challenge:" ++ r.base.method) (pos 0) s

  -- `handleChallengeHTTP`
  unfoldable pub handle_challenge : HttpRequest → EngineState S → Response × EngineState S
  handle_challenge r e =
      let id = trim_space (cookie_value config r.base) in
      if same (cookie_value config r.base) []
      then (session_required, e)
      else (elim (validate_session_id id) [
        | some _ ↦ (session_required, e)
        | none ↦
            let ((rl, refused), s₁) = limit_visit r id e.world in
            let e₁ = record e { world = s₁ } in
            elim refused [
              | some x ↦ (write_mapped_error x rl.retry_after, e₁)
              | none ↦ unless_admitted r id e₁
            ]
      ])
