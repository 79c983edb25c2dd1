-- ===== src/Challenge/Answer.antt =====
-- challenge.go: `Validate`, the answer to a challenge.
use onionguard.Base.{
  ◌*◌, ◌||◌, ◌&&◌, not, none, some, [], pos, is_pos, ltb_ℤ, leb_ℤ, ◌+ℤ◌, wrap64, Bytes, same,
  length, ◌==◌, if◌then◌else◌,
}
use onionguard.Base.Time.{Time, sub, add, before, minute}
use onionguard.Errors.{
  Err, sentinel, Result, ok, err, fail, is, not_found, store_closed, session_expired,
  invalid_transition, challenge_not_found, challenge_invalid, challenge_expired,
  max_attempts_exceeded,
}
use onionguard.Env.{Env}
use onionguard.Config.{Config}
use onionguard.Session.{Session, get_session, save_session, validate_session_id, remaining_ttl}
use onionguard.Lock.{with_session_lock}
use onionguard.Admission.States
use onionguard.Admission.States.{waiting, admitted, same_state}
use onionguard.Admission.{capped, cut_ttl, session_capacity_key}
use onionguard.Challenge.{StoredChallenge, Craft, challenge_key}

module _ (env : Env Session StoredChallenge) (config : Config) (craft : Craft env.S) where
  open env use {
    S, now, has_store, has_reservations, get, set, delete, reserve_session, marshal_challenge,
    unmarshal_challenge,
  }

  -- The session after the last attempt: without its challenge, and back in the wait room if there is
  -- one.
  unfoldable pub struck_out : Session → Time → Session
  struck_out sess t =
      let sess = record sess { challenge_id = [] } in
      if config.wait_room.enabled
      then (let ttl =
            cut_ttl sess.absolute_expires_at t
              (wrap64 (config.wait_room.wait_time +ℤ pos (10 * minute))) in
          record sess {
            state = waiting;
            first_seen = t;
            expires_at = if is_pos ttl then add t ttl else sess.expires_at;
          })
      else sess

  -- A wrong answer.
  unfoldable pub strike : Session → StoredChallenge → Time → S → Err × S
  strike sess ch t s =
      let ch = record ch { attempts = wrap64 (ch.attempts +ℤ pos 1) } in
      if leb_ℤ ch.max_attempts ch.attempts
      then (let (_, s₁) = delete (challenge_key ch.id) s in
          let sess = struck_out sess t in
          let (failed, s₂) = save_session env sess (remaining_ttl sess t config.session_ttl) s₁ in
          elim failed [ some e ↦ (e, s₂) | none ↦ (sentinel max_attempts_exceeded, s₂) ])
      else (elim (marshal_challenge ch) [
        | err e ↦ (e, s)
        | ok d ↦
            if not (is_pos (sub ch.expires_at t))
            then (sentinel challenge_expired, s)
            else (let (failed, s₁) = set (challenge_key ch.id) d (sub ch.expires_at t) s in
                elim failed [ some e ↦ (e, s₁) | none ↦ (sentinel challenge_invalid, s₁) ])
      ])

  -- The challenge is put back where the session could not be saved.
  unfoldable pub restore : StoredChallenge → Time → S → S
  restore ch t s =
      if is_pos (sub ch.expires_at t)
      then (elim (marshal_challenge ch) [
        | err e ↦ s
        | ok d ↦ (set (challenge_key ch.id) d (sub ch.expires_at t) s).1
      ])
      else s

  unfoldable pub admitted_session : Session → Time → Session
  admitted_session sess t = record sess {
    challenge_id = [];
    state = admitted;
    last_seen_at = t;
    expires_at = capped sess.absolute_expires_at (add t config.session_ttl);
  }

  -- The right answer.
  unfoldable pub pass : Session → StoredChallenge → Time → S → Result (Unit {0}) × S
  pass sess ch t s =
      let (kept, s₁) = delete (challenge_key ch.id) s in
      elim kept [
        | some e ↦ (err e, s₁)
        | none ↦
            let sess = admitted_session sess t in
            let ttl = sub sess.expires_at t in
            if not (is_pos ttl)
            then (fail session_expired, s₁)
            else (let (failed, s₂) = save_session env sess ttl s₁ in
                elim failed [
                  | some e ↦ (err e, restore ch t s₂)
                  | none ↦ (
                    ok tt,
                    if has_reservations && is_pos config.max_concurrent_sessions
                        then (reserve_session session_capacity_key sess.session_id
                            config.max_concurrent_sessions sess.expires_at s₂).1
                        else s₂,
                  )
                ])
      ]

  -- `Validate`, with the challenge read.
  unfoldable pub judge : Bytes → Session → StoredChallenge → S → Result (Unit {0}) × S
  judge answer sess ch s =
      let (t, s₁) = now s in
      if not (before t ch.expires_at)
      then (fail challenge_expired, (delete (challenge_key ch.id) s₁).1)
      else if not (length (craft.sha256 answer) == length ch.answer_hash)
          || not (same (craft.sha256 answer) ch.answer_hash)
      then (let (e, s₂) = strike sess ch t s₁ in (err e, s₂))
      else pass sess ch t s₁

  -- `Validate` under the lock, with the session read.
  unfoldable pub validate_body : Bytes → Session → S → Result (Unit {0}) × S
  validate_body answer sess s =
      if not (same_state sess.state States.challenge_required)
      then (fail invalid_transition, s)
      else if same sess.challenge_id []
      then (fail challenge_not_found, s)
      else (let (r, s₁) = get (challenge_key sess.challenge_id) s in
          elim r [
            | err e ↦ (if is e not_found then fail challenge_not_found else err e, s₁)
            | ok d ↦ elim (unmarshal_challenge d) [
              | err e ↦ (err e, s₁)
              | ok ch ↦ judge answer sess ch s₁
            ]
          ])

  unfoldable pub validate_locked : Bytes → Bytes → S → Result (Unit {0}) × S
  validate_locked session_id answer s =
      let (r, s₁) = get_session env session_id s in
      elim r [ err e ↦ (err e, s₁) | ok sess ↦ validate_body answer sess s₁ ]

  -- `Validate`. The service is not nil.
  unfoldable pub validate : Bytes → Bytes → S → Result (Unit {0}) × S
  validate session_id given s =
      let answer = craft.normalize given in
      if not has_store then (fail store_closed, s) else (elim (validate_session_id session_id) [
        | some e ↦ (err e, s)
        | none ↦
            if ltb_ℤ config.max_cookie_value_bytes (pos (length given))
            then (fail challenge_invalid, s)
            else if same answer [] || ltb_ℤ config.captcha.length (pos (length answer))
            then (fail challenge_invalid, s)
            else with_session_lock env session_id (validate_locked session_id answer) s
      ])
