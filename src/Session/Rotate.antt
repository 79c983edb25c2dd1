-- ===== src/Session/Rotate.antt =====
-- session.go: `RevokeSessionWithClock` and `RotateSession`. The clock is that of the environment.
use onionguard.Base.{
  ◌*◌, ◌&&◌, not, Option, none, some, [], pos, is_pos, leb_ℤ, ◌+ℤ◌, wrap64, Bytes, if◌then◌else◌,
}
use onionguard.Base.Time.{Time, Duration, sub, add, before, minute}
use onionguard.Errors.{
  Err, sentinel, Result, ok, err, fail, store_closed, session_expired, session_revoked,
  invalid_transition, invalid_ttl, renewal_limit_reached,
}
use onionguard.Env.{Env}
use onionguard.Session.{
  Session, get_session, save_session, validate_session_id, session_key, is_expired, is_revoked,
}
use onionguard.Lock.{with_session_lock}
use onionguard.Admission.States.{admitted, revoked, rotating, same_state}
use onionguard.Admission.{capped, session_capacity_key}

-- The session that takes the place of the old one.
unfoldable pub replacement : Session → Bytes → Time → Time → Session
replacement old new_id expiry t = record {
  session_id = new_id;
  kind = old.kind;
  state = admitted;
  first_seen = old.first_seen;
  expires_at = expiry;
  absolute_expires_at = old.absolute_expires_at;
  renewal_count = wrap64 (old.renewal_count +ℤ pos 1);
  max_renewals = old.max_renewals;
  created_at = old.created_at;
  last_seen_at = t;
  challenge_id = [];
}

-- The checks of the old session.
unfoldable pub rotation_error : Session → Time → Option Err
rotation_error old t =
    if is_revoked old
    then some (sentinel session_revoked)
    else if is_expired old t
    then some (sentinel session_expired)
    else if not (same_state old.state admitted) && not (same_state old.state rotating)
    then some (sentinel invalid_transition)
    else if is_pos old.max_renewals && leb_ℤ old.max_renewals old.renewal_count
    then some (sentinel renewal_limit_reached)
    else none

module _ {C : Type 0} (env : Env Session C) where
  open env use {
    S, now, has_store, has_reservations, delete, release_session, move_session_reservation,
    generate_session_id,
  }

  -- Under the lock, with the session read.
  unfoldable pub revoke_body : Bytes → Duration → Session → S → Result (Unit {0}) × S
  revoke_body session_id retention_ttl sess s =
      if is_revoked sess
      then (fail session_revoked, s)
      else (let (t, s₁) = now s in
          let dead = record sess { state = revoked; expires_at = 0; last_seen_at = t } in
          let (failed, s₂) = save_session env dead retention_ttl s₁ in
          elim failed [
            | some e ↦ (err e, s₂)
            | none ↦ (
              ok tt,
              if has_reservations
                  then (release_session session_capacity_key session_id s₂).1
                  else s₂,
            )
          ])

  unfoldable pub revoke_locked : Bytes → Duration → S → Result (Unit {0}) × S
  revoke_locked session_id retention_ttl s =
      let (r, s₁) = get_session env session_id s in
      elim r [ err e ↦ (err e, s₁) | ok sess ↦ revoke_body session_id retention_ttl sess s₁ ]

  unfoldable pub revoke_session : Bytes → Duration → S → Result (Unit {0}) × S
  revoke_session session_id retention_ttl s =
      if not has_store then (fail store_closed, s) else (elim (validate_session_id session_id) [
        | some e ↦ (err e, s)
        | none ↦
            let kept = if is_pos retention_ttl then retention_ttl else pos (5 * minute) in
            with_session_lock env session_id (revoke_locked session_id kept) s
      ])

  -- From `SaveSession` on.
  unfoldable pub replace : Bytes → Session → Time → S → Result Session × S
  replace old_id next t s =
      let (failed, s₁) = save_session env next (sub next.expires_at t) s in
      elim failed [
        | some e ↦ (err e, s₁)
        | none ↦
            let (kept, s₂) = delete (session_key old_id) s₁ in
            elim kept [
              | some e ↦ (err e, (delete (session_key next.session_id) s₂).1)
              | none ↦ (
                ok next,
                if has_reservations
                    then (move_session_reservation session_capacity_key old_id next.session_id
                        next.expires_at s₂).1
                    else s₂,
              )
            ]
      ]

  -- Under the lock, with the old session read.
  unfoldable pub rotate_body : Bytes → Duration → Session → S → Result Session × S
  rotate_body old_id session_ttl old s =
      let (t, s₁) = now s in
      elim (rotation_error old t) [
        | some e ↦ (err e, s₁)
        | none ↦
            let (id, s₂) = generate_session_id s₁ in
            elim id [
              | err e ↦ (err e, s₂)
              | ok new_id ↦
                  let expiry = capped old.absolute_expires_at (add t session_ttl) in
                  if not (before t expiry)
                  then (fail session_expired, s₂)
                  else replace old_id (replacement old new_id expiry t) t s₂
            ]
      ]

  unfoldable pub rotate_locked : Bytes → Duration → S → Result Session × S
  rotate_locked old_id session_ttl s =
      let (r, s₁) = get_session env old_id s in
      elim r [ err e ↦ (err e, s₁) | ok old ↦ rotate_body old_id session_ttl old s₁ ]

  unfoldable pub rotate_session : Bytes → Duration → S → Result Session × S
  rotate_session old_id session_ttl s =
      if not has_store then (fail store_closed, s) else (elim (validate_session_id old_id) [
        | some e ↦ (err e, s)
        | none ↦
            if not (is_pos session_ttl)
            then (fail invalid_ttl, s)
            else with_session_lock env old_id (rotate_locked old_id session_ttl) s
      ])
