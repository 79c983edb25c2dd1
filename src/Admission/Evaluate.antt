-- ===== src/Admission/Evaluate.antt =====
-- admission.go: `handleWaitElapsed`, `evaluate`, `Evaluate` and `EvaluateFresh`.
use onionguard.Base.{
  Bool, true, false, ◌&&◌, not, Option, none, some, [], pos, is_pos, ltb_ℤ, ◌+ℤ◌, ◌-ℤ◌, ◌*◌, ◌⊎◌,
  inl, inr, wrap64, Bytes, same, if◌then◌else◌,
}
use onionguard.Base.Time.{Time, Duration, sub, add, minute}
use onionguard.Errors.{
  sentinel, Result, ok, err, fail, is, store_closed, invalid_session, session_expired,
  session_revoked, invalid_transition,
}
use onionguard.Env.{Env}
use onionguard.Config.{Config}
use onionguard.Session.{Session, is_expired, is_revoked, get_session, save_session}
use onionguard.Lock.{with_session_lock}
use onionguard.Admission.States.{
  State, new, waiting, challenge_required, admitted, expired, revoked, same_state,
}
use onionguard.Admission.{
  AdmissionDecision, Answer, no_decision, refused, admits, challenges, waits, retry_seconds, capped,
  cut_ttl, renew_reservation, handle_new_client,
}

-- The check of the terminal conditions, which `evaluate` makes before and after it reads the store.
unfoldable pub terminal : Session → Time → Option AdmissionDecision
terminal cur t =
    if is_revoked cur
    then some (refused revoked cur (sentinel session_revoked))
    else if is_expired cur t
    then some (refused expired (record cur { state = expired }) (sentinel session_expired))
    else none

-- Whether a session in this state must be in the store.
abbrev pub stored_state : State → Bool
stored_state admitted = true
stored_state challenge_required = true
stored_state waiting = true
stored_state _ = false

-- The session that counts: the one in the store, or else the answer at once.
abbrev pub refresh : Session → Result Session → Session ⊎ Answer
refresh cur (ok fresh) = inl fresh
refresh cur (err e) =
    if not (is e invalid_session)
    then inr (refused cur.state cur e, some e)
    else if stored_state cur.state
    then inr (refused expired cur (sentinel invalid_session), some (sentinel invalid_session))
    else inl cur

module _ {C : Type 0} (env : Env Session C) (config : Config) where
  open env use {S, has_store, now}

  -- What `handleWaitElapsed` does with a session that it saves for `ttl`.
  abbrev settle : AdmissionDecision → Session → Duration → S → Result AdmissionDecision × S
  settle done fresh ttl s =
      let (failed, s₁) = save_session env fresh ttl s in
      elim failed [
        | some e ↦ (err e, s₁)
        | none ↦ (ok done, renew_reservation env config fresh.session_id ttl s₁)
      ]

  unfoldable pub wait_to_challenge : Session → Time → S → Result AdmissionDecision × S
  wait_to_challenge fresh t s =
      let fresh = record fresh { state = challenge_required; last_seen_at = t } in
      let ttl =
        cut_ttl fresh.absolute_expires_at t (wrap64 (config.captcha.ttl +ℤ pos (5 * minute))) in
      if not (is_pos ttl)
      then (ok (refused expired (record fresh { state = expired }) (sentinel session_expired)), s)
      else (let until = capped fresh.absolute_expires_at (add t ttl) in
          let fresh = record fresh { expires_at = until } in
          settle (challenges [] fresh) fresh (sub until t) s)

  unfoldable pub wait_to_admitted : Session → Time → S → Result AdmissionDecision × S
  wait_to_admitted fresh t s =
      let until = capped fresh.absolute_expires_at (add t config.session_ttl) in
      let fresh = record fresh { state = admitted; last_seen_at = t; expires_at = until } in
      let ttl = sub until t in
      if not (is_pos ttl)
      then (ok (refused expired (record fresh { state = expired }) (sentinel session_expired)), s)
      else settle (admits fresh) fresh ttl s

  -- `fresh.State != StateWaiting`
  abbrev not_waiting : State → Session → Result AdmissionDecision
  not_waiting admitted fresh = ok (admits fresh)
  not_waiting challenge_required fresh = ok (challenges fresh.challenge_id fresh)
  not_waiting _ fresh = fail invalid_transition

  unfoldable pub waited : Session → Time → S → Result AdmissionDecision × S
  waited fresh t s = elim (terminal fresh t) [
    | some d ↦ (ok d, s)
    | none ↦
        if not (same_state fresh.state waiting)
        then (not_waiting fresh.state fresh, s)
        else if ltb_ℤ (sub t fresh.first_seen) config.wait_room.wait_time
        then (
          ok (
              waits (retry_seconds (wrap64 (config.wait_room.wait_time -ℤ sub t fresh.first_seen)))
                fresh),
          s,
        )
        else if config.captcha.enabled
        then wait_to_challenge fresh t s
        else wait_to_admitted fresh t s
  ]

  -- What runs under the session's lock.
  unfoldable pub wait_elapsed_locked : Bytes → S → Result AdmissionDecision × S
  wait_elapsed_locked session_id s =
      let (r, s₁) = get_session env session_id s in
      elim r [ err e ↦ (err e, s₁) | ok fresh ↦ let (t, s₂) = now s₁ in waited fresh t s₂ ]

  abbrev pub answer_of : Result AdmissionDecision → Answer
  answer_of (ok d) = (d, none)
  answer_of (err e) = (no_decision, some e)

  unfoldable pub handle_wait_elapsed : Session → S → Answer × S
  handle_wait_elapsed input s =
      if not has_store
      then ((no_decision, some (sentinel store_closed)), s)
      else (let (r, s₁) =
            with_session_lock env input.session_id (wait_elapsed_locked input.session_id) s in
          (answer_of r, s₁))

  -- The `switch` at the end of `evaluate`.
  unfoldable pub evaluate_state : State → Session → Time → S → Answer × S
  evaluate_state admitted cur t s = ((admits cur, none), s)
  evaluate_state waiting cur t s =
      let elapsed = if ltb_ℤ (sub t cur.first_seen) (pos 0) then pos 0 else sub t cur.first_seen in
      if ltb_ℤ elapsed config.wait_room.wait_time
      then ((waits (retry_seconds (wrap64 (config.wait_room.wait_time -ℤ elapsed))) cur, none), s)
      else handle_wait_elapsed cur s
  evaluate_state challenge_required cur t s = ((challenges cur.challenge_id cur, none), s)
  evaluate_state new cur t s = handle_new_client env config cur s
  evaluate_state state cur t s = ((refused state cur (sentinel invalid_transition), none), s)

  -- `evaluate`, once it has the session that counts.
  unfoldable pub evaluate_current : Session → Time → S → Answer × S
  evaluate_current cur t s = elim (terminal cur t) [
    | some d ↦ ((d, none), s)
    | none ↦ evaluate_state cur.state cur t s
  ]

  -- `evaluate`; `none` is a nil session.
  unfoldable pub evaluate : Option Session → Bool → S → Answer × S
  evaluate none fresh_snapshot s =
      ((record no_decision { state = new; error = some (sentinel invalid_session) }, none), s)
  evaluate (some sess) fresh_snapshot s =
      let (t, s₁) = now s in
      elim (terminal sess t) [
        | some d ↦ ((d, none), s₁)
        | none ↦
            if not fresh_snapshot && (has_store && not (same sess.session_id []))
            then (let (r, s₂) = get_session env sess.session_id s₁ in
                elim (refresh sess r) [
                  | inl cur ↦ evaluate_current cur t s₂
                  | inr answer ↦ (answer, s₂)
                ])
            else evaluate_current sess t s₁
      ]
