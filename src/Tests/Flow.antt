-- ===== src/Tests/Flow.antt =====
-- Locks, sessions, admission and challenges in the test world.
use onionguard.Base.{
  same, ℕ, ◌+◌, ◌*◌, ◌≡◌, ◌≢◌, refl, true, false, none, some, [], pos, is_pos, Bytes, codes,
}
use onionguard.Base.Time.{second}
use onionguard.Errors.{ok}
use onionguard.Session.{
  save_session, is_expired, is_revoked, Session, get_session, validate_session_id,
}
use onionguard.Session.Rotate.{
  replacement, replace, rotation_error, rotate_body, rotate_locked, rotate_session,
}
use onionguard.Session.Renewal.{IsRenewable, IsSuccessor, rotate_session-ok}
use onionguard.Lock.{
  lock_key, acquire_lock, admission_lock_ttl, attempt_lock, acquire_lock, with_session_lock,
  lock_loop, lock_fuel,
}
use onionguard.Lock.Wait.{acquire_lock-fuel}
use onionguard.Admission.States.{
  new, challenge_required, admitted, revoked, revoke, is_legal_transition,
}
use onionguard.Admission.{handle_new_client}
use onionguard.Admission.Evaluate.{evaluate_state, evaluate_current, terminal, evaluate}
use onionguard.Admission.Transition.{retarget, transition_session, transition_locked, transition}
use onionguard.Admission.Machine.{IsMoved, transition-IsMoved}
use onionguard.Admission.Safety.{handle_new_client-refuses}
use onionguard.Admission.Grants.{IsGrant}
use onionguard.Admission.Verdicts.{Decides, Reason, evaluate-IsGrant}
use onionguard.Challenge.{StoredChallenge, challenge_key}
use onionguard.Challenge.Answer.{
  admitted_session, pass, judge, validate_body, validate_locked, validate,
}
use onionguard.Challenge.Solved.{IsSolved, validate-IsSolved}
use onionguard.Tests.World.{
  world, world-IsWallClock, test_id, session_in, challenge, craft, friction,
}

acquire_lock-fuel_example :
    let env = world (session_in admitted) challenge in
    (lock_loop env lock_fuel (codes "k") (codes "o") (pos second) (200 + 2 * second) 0 200).0 ≢ none
acquire_lock-fuel_example =
    acquire_lock-fuel (world (session_in admitted) challenge) (λ s. s)
      (world-IsWallClock (session_in admitted) challenge) (codes "k") (codes "o") (pos second) 200

evaluate-IsGrant_example :
    let env = world (session_in admitted) challenge in
    let config = friction false in
    IsGrant (evaluate env config (some (session_in admitted)) true 200).0
    × (cur : Session) × (s' : ℕ) × Decides env config (session_in admitted) true 200 cur s'
    × (terminal cur (env.now 200).0 ≡ none)
    × Reason env config cur s'
        (evaluate env config (some (session_in admitted)) true 200).0.0.session
unfolding evaluate terminal is_revoked is_expired evaluate_current evaluate_state
evaluate-IsGrant_example =
    evaluate-IsGrant (world (session_in admitted) challenge) (friction false) (session_in admitted)
      true 200 refl

handle_new_client-refuses_example :
    (handle_new_client
      (world (session_in new) challenge)
      (friction false)
      (session_in new)
      100).0.0.allowed
    ≡ false
handle_new_client-refuses_example =
    handle_new_client-refuses (world (session_in new) challenge) (friction false) (session_in new)
      100 refl

transition-IsMoved_example :
    let env = world (session_in admitted) challenge in
    let (locked, s') = acquire_lock env (lock_key test_id) admission_lock_ttl 200 in
    (owner : Bytes) × (locked ≡ ok owner)
    × (old : Session) × ((get_session env test_id s').0 ≡ ok old)
    × IsMoved old
        (record (session_in admitted) { state = revoked; expires_at = 0; last_seen_at = 200 })
        revoke
        revoked
unfolding transition validate_session_id with_session_lock acquire_lock attempt_lock
    transition_locked get_session transition_session is_legal_transition retarget save_session same
transition-IsMoved_example =
    transition-IsMoved (world (session_in admitted) challenge) (friction false) test_id revoke
      revoked (record (session_in admitted) { state = revoked; expires_at = 0; last_seen_at = 200 })
      200 refl

abbrev renewed : Session
renewed = record (session_in admitted) {
  session_id = codes "BBBBBBBBBBBBBBBBBBBBBBBBBBBBBBBBBBBBBBBBBBB";
  expires_at = 600;
  renewal_count = pos 1;
  last_seen_at = 200;
  challenge_id = [];
}

rotate_session-ok_example :
    let env = world (session_in admitted) challenge in
    (validate_session_id test_id ≡ none)
    × (is_pos (pos 400) ≡ true)
    × (let (locked, s') = acquire_lock env (lock_key test_id) admission_lock_ttl 200 in
        (owner : Bytes) × (locked ≡ ok owner)
        × (old : Session) × ((get_session env test_id s').0 ≡ ok old)
        × (let t = (env.now (get_session env test_id s').1).0 in
            IsRenewable old t × IsSuccessor old renewed t))
unfolding rotate_session validate_session_id with_session_lock acquire_lock attempt_lock
    rotate_locked get_session rotate_body rotation_error is_revoked is_expired replace save_session
    same replacement
rotate_session-ok_example =
    rotate_session-ok (world (session_in admitted) challenge) test_id (pos 400) renewed 200 refl

validate-IsSolved_example :
    let env = world (session_in challenge_required) challenge in
    let (locked, s₁) = acquire_lock env (lock_key test_id) admission_lock_ttl 200 in
    (owner : Bytes) × (locked ≡ ok owner)
    × (sess : Session) × ((get_session env test_id s₁).0 ≡ ok sess)
    × (let found = env.get (challenge_key sess.challenge_id) (get_session env test_id s₁).1 in
        (d : Bytes) × (found.0 ≡ ok d)
        × (ch : StoredChallenge) × (env.unmarshal_challenge d ≡ ok ch)
        × IsSolved env (friction true) craft sess ch (codes "XY") (env.now found.1).0)
unfolding validate validate_session_id same with_session_lock acquire_lock attempt_lock
    validate_locked get_session validate_body judge pass admitted_session save_session
validate-IsSolved_example =
    validate-IsSolved (world (session_in challenge_required) challenge) (friction true) craft
      test_id (codes "XY") 200 tt refl
