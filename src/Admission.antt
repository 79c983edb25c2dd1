-- ===== src/Admission.antt =====
-- admission.go: the admission engine. An answer is the decision and the error that the method returns;
-- the method also returns the next world. Receivers are not nil.
pub mod States
pub mod Evaluate
pub mod Safety
pub mod Grants
pub mod Recheck
pub mod Verdicts
pub mod Machine
pub mod Transition
use onionguard.Base.{
  ℕ, zero, suc, ◌+◌, ◌-◌, ◌*◌, ◌/◌, ltb, Bool, true, false, ◌||◌, ◌&&◌, not, Option, none, some,
  List, [], ℤ, pos, negsuc, is_pos, ltb_ℤ, ◌+ℤ◌, wrap64, Bytes, codes, same, if◌then◌else◌,
}
use onionguard.Base.Time.{Time, Duration, is_zero, before, sub, add, second, minute}
use onionguard.Errors.{
  Err, sentinel, Result, ok, err, fail, is, store_closed, invalid_session, session_expired,
  session_revoked, wait_time_not_elapsed, invalid_transition, invalid_value, capacity_exceeded,
}
use onionguard.Env.{Env}
use onionguard.Config.{Config}
use onionguard.Session.{
  Session, is_expired, is_revoked, get_session, save_session, validate_session_id,
}
use onionguard.Lock.{with_session_lock}
use States.{
  State, Event, new, waiting, challenge_required, admitted, expired, revoked, rotating, other,
  same_state, is_legal_transition,
}

pub record AdmissionDecision : Type 0 where
  pub allowed : Bool
  pub state : State
  pub retry_after : Duration
  pub challenge_id : Bytes
  pub session : Option Session
  pub error : Option Err

abbrev pub Answer : Type 0
Answer = AdmissionDecision × Option Err

-- `AdmissionDecision{}`
abbrev pub no_decision : AdmissionDecision
no_decision = record {
  allowed = false;
  state = other [];
  retry_after = pos 0;
  challenge_id = [];
  session = none;
  error = none;
}

-- A decision that refuses, in a state, on a session and for an error.
abbrev pub refused : State → Session → Err → AdmissionDecision
refused state sess e = record no_decision { state = state; session = some sess; error = some e }

abbrev pub admits : Session → AdmissionDecision
admits sess = record no_decision { allowed = true; state = admitted; session = some sess }

abbrev pub challenges : Bytes → Session → AdmissionDecision
challenges id sess = record no_decision {
  state = challenge_required;
  challenge_id = id;
  session = some sess;
}

abbrev pub waits : Duration → Session → AdmissionDecision
waits retry sess = record (refused waiting sess (sentinel wait_time_not_elapsed)) {
  retry_after = retry;
}

abbrev pub session_capacity_key : Bytes
session_capacity_key = codes "admission:session-capacity"

-- `time.Duration(math.Ceil(rem.Seconds())) * time.Second`, at least a second. The code goes through
-- float64, which is exact for waits of up to 48 days.
abbrev pub retry_seconds : Duration → Duration
retry_seconds (pos n) =
    let retry = (n + (second - 1)) / second * second in
    pos (if ltb retry second then second else retry)
retry_seconds (negsuc n) = pos second

-- `if !abs.IsZero() && abs.Before(t) { t = abs }`
abbrev pub capped : Time → Time → Time
capped abs t = if not (is_zero abs) && before abs t then abs else t

-- `ttl`, cut to what the absolute lifetime leaves.
abbrev pub cut_ttl : Time → Time → Duration → Duration
cut_ttl abs now ttl = if not (is_zero abs) && before abs (add now ttl) then sub abs now else ttl

module _ {C : Type 0} (env : Env Session C) (config : Config) where
  open env use {S, has_store, has_reservations, now, reserve_session, release_session}

  -- `reserveSession`; where it succeeds, the function that it returns is `release_reservation`.
  unfoldable pub reserve : Bytes → Duration → S → Option Err × S
  reserve session_id ttl s =
      if not has_store || not (is_pos config.max_concurrent_sessions)
      then (none, s)
      else if not has_reservations
      then (some (sentinel invalid_value), s)
      else (let (t, s₁) = now s in
          let (r, s₂) =
            reserve_session session_capacity_key session_id config.max_concurrent_sessions
              (add t ttl) s₁ in
          (
            elim r [
              | err e ↦ some e
              | ok done ↦ if done then none else some (sentinel capacity_exceeded)
            ],
            s₂,
          ))

  -- `releaseReservation`: the error is dropped.
  unfoldable pub release_reservation : Bytes → S → S
  release_reservation session_id s =
      if not has_store || (not (is_pos config.max_concurrent_sessions) || not has_reservations)
      then s
      else (release_session session_capacity_key session_id s).1

  -- `renewReservation`: the answer is dropped.
  unfoldable pub renew_reservation : Bytes → Duration → S → S
  renew_reservation session_id ttl s =
      if not has_store || (not (is_pos config.max_concurrent_sessions) || not has_reservations)
      then s
      else (let (t, s₁) = now s in
          (reserve_session session_capacity_key session_id config.max_concurrent_sessions
            (add t ttl) s₁).1)

  -- What the three branches of `handleNewClient` end with: reserve a place, save the session, and give
  -- the place back if it could not be saved.
  unfoldable pub commit_new : AdmissionDecision → Session → Duration → S → Answer × S
  commit_new done sess ttl s =
      let (denied, s₁) = reserve sess.session_id ttl s in
      elim denied [
        | some e ↦ ((refused new sess e, some e), s₁)
        | none ↦
            if not has_store
            then ((done, none), s₁)
            else (let (failed, s₂) = save_session env sess ttl s₁ in
                elim failed [
                  | some e ↦ ((no_decision, some e), release_reservation sess.session_id s₂)
                  | none ↦ ((done, none), s₂)
                ])
      ]

  -- The branch of `handleNewClient` for a wait or a challenge, with its time to live.
  unfoldable pub enter_pending :
      State → Duration → (Session → AdmissionDecision) → Session → Time → S → Answer × S
  enter_pending state base done sess t s =
      let sess = record sess { state = state } in
      let ttl = cut_ttl sess.absolute_expires_at t base in
      if not (is_pos ttl)
      then ((refused expired sess (sentinel session_expired), some (sentinel session_expired)), s)
      else (let until = capped sess.absolute_expires_at (add t ttl) in
          let sess = record sess { expires_at = until } in
          commit_new (done sess) sess (sub until t) s)

  -- The last branch of `handleNewClient`: no friction is configured.
  unfoldable pub enter_admitted : Session → Time → S → Answer × S
  enter_admitted sess t s =
      let until = capped sess.absolute_expires_at (add t config.session_ttl) in
      let sess = record sess { state = admitted; expires_at = until } in
      let ttl = sub until t in
      if not (is_pos ttl)
      then ((refused expired sess (sentinel session_expired), some (sentinel session_expired)), s)
      else commit_new (admits sess) sess ttl s

  -- The fields that `handleNewClient` sets before it branches.
  abbrev pub greet : Session → Time → Session
  greet sess t = record sess {
    last_seen_at = t;
    first_seen = if is_zero sess.first_seen then t else sess.first_seen;
    absolute_expires_at =
        if is_pos config.session_absolute_lifetime
        then add t config.session_absolute_lifetime
        else sess.absolute_expires_at;
  }

  unfoldable pub handle_new_client : Session → S → Answer × S
  handle_new_client sess s =
      let (t, s₁) = now s in
      if config.wait_room.enabled
      then enter_pending waiting (wrap64 (config.wait_room.wait_time +ℤ pos (10 * minute)))
          (waits config.wait_room.wait_time) (greet sess t) t s₁
      else if config.captcha.enabled
      then enter_pending challenge_required (wrap64 (config.captcha.ttl +ℤ pos (5 * minute)))
          (challenges []) (greet sess t) t s₁
      else enter_admitted (greet sess t) t s₁
