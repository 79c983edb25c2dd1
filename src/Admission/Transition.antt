-- ===== src/Admission/Transition.antt =====
-- admission.go: `Transition`.
use onionguard.Base.{◌*◌, not, none, some, pos, is_pos, Bytes, if◌then◌else◌}
use onionguard.Base.Time.{Time, Duration, sub, add, minute}
use onionguard.Errors.{Result, ok, err, fail, store_closed, session_expired, invalid_transition}
use onionguard.Env.{Env}
use onionguard.Config.{Config}
use onionguard.Session.{Session, get_session, save_session, validate_session_id}
use onionguard.Lock.{with_session_lock}
use onionguard.Admission.States.{
  State, Event, admitted, expired, revoked, same_state, is_legal_transition,
}
use onionguard.Admission.{capped, renew_reservation, release_reservation}

module _ {C : Type 0} (env : Env Session C) (config : Config) where
  open env use {S, has_store, now}

  -- The first `switch` on the target: the session to save and its time to live.
  unfoldable pub retarget : State → Session → Time → Session × Duration
  retarget admitted sess t =
      let until = capped sess.absolute_expires_at (add t config.session_ttl) in
      (record sess { expires_at = until }, sub until t)
  retarget revoked sess t = (record sess { expires_at = 0 }, pos (5 * minute))
  retarget expired sess t = (record sess { expires_at = t }, pos minute)
  retarget _ sess t = (sess, config.session_ttl)

  -- The second `switch`: the reservation of the session.
  unfoldable pub settle_reservation : State → Bytes → Duration → S → S
  settle_reservation revoked session_id ttl s = release_reservation env config session_id s
  settle_reservation expired session_id ttl s = release_reservation env config session_id s
  settle_reservation admitted session_id ttl s = renew_reservation env config session_id ttl s
  settle_reservation _ session_id ttl s = s

  unfoldable pub transition_session : Event → State → Session → S → Result Session × S
  transition_session event target sess s =
      if same_state sess.state target
      then (ok sess, s)
      else if not (is_legal_transition sess.state event target)
      then (fail invalid_transition, s)
      else (let (t, s₁) = now s in
          let (next, ttl) = retarget target (record sess { state = target; last_seen_at = t }) t in
          if not (is_pos ttl)
          then (fail session_expired, s₁)
          else (let (failed, s₂) = save_session env next ttl s₁ in
              elim failed [
                | some e ↦ (err e, s₂)
                | none ↦ (ok next, settle_reservation target next.session_id ttl s₂)
              ]))

  unfoldable pub transition_locked : Bytes → Event → State → S → Result Session × S
  transition_locked session_id event target s =
      let (r, s₁) = get_session env session_id s in
      elim r [ err e ↦ (err e, s₁) | ok sess ↦ transition_session event target sess s₁ ]

  -- `Transition`. (The wrapped `ErrInvalidTransition` is the error that it wraps.)
  unfoldable pub transition : Bytes → Event → State → S → Result Session × S
  transition session_id event target s =
      if not has_store then (fail store_closed, s) else (elim (validate_session_id session_id) [
        | some e ↦ (err e, s)
        | none ↦ with_session_lock env session_id (transition_locked session_id event target) s
      ])
