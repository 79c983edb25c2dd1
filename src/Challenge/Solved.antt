-- ===== src/Challenge/Solved.antt =====
-- What a success of `Validate` rests on.
use onionguard.Base.{
  ◌≡◌, refl, sym, inl, inr, true, false, [], Bytes, same, same_iff, arith, Bool-cases, Option-cases,
}
use onionguard.Base.Time.{Time, before}
use onionguard.Errors.{ok, Result-cases}
use onionguard.Env.{Env}
use onionguard.Config.{Config}
use onionguard.Session.{Session, get_session, validate_session_id}
use onionguard.Lock.{acquire_lock, admission_lock_ttl, lock_key}
use onionguard.Lock.Held.{with_session_lock-held}
use onionguard.Admission.States.{State, challenge_required, same_state}
use onionguard.Challenge.{StoredChallenge, Craft, challenge_key}
use onionguard.Challenge.Answer.{judge, validate_body, validate_locked, validate}

module _ (env : Env Session StoredChallenge) (config : Config) (craft : Craft env.S) where
  -- A challenge that is open at a time, for a session in need of one, with an answer that solves it.
  pub record IsSolved (sess : Session) (ch : StoredChallenge) (answer : Bytes) (t : Time)
      : Type 0 where
    pub state : sess.state ≡ challenge_required
    pub named : same sess.challenge_id [] ≡ false
    pub open_ : before t ch.expires_at ≡ true
    pub hash : ch.answer_hash ≡ craft.sha256 answer

  judge-ok :
      (answer : Bytes) (sess : Session) (ch : StoredChallenge) (s : env.S) (u : Unit)
      → (judge env config craft answer sess ch s).0 ≡ ok u
      → (before (env.now s).0 ch.expires_at ≡ true) × (ch.answer_hash ≡ craft.sha256 answer)
  unfolding judge
  judge-ok answer sess ch s u h = elim (Bool-cases (same (craft.sha256 answer) ch.answer_hash)) [
    | inr a ↦ absurd (ground (arith, a))
    | inl a ↦ (ground arith, sym ((same_iff (craft.sha256 answer) ch.answer_hash).0 a))
  ]

  needs_challenge : (st : State) → same_state st challenge_required ≡ true → st ≡ challenge_required
  needs_challenge challenge_required h = refl
  needs_challenge _ h = absurd (ground arith)

  validate_body-ok :
      (answer : Bytes) (sess : Session) (s : env.S) (u : Unit)
      → (validate_body env config craft answer sess s).0 ≡ ok u
      → (ch : StoredChallenge) × (d : Bytes) × ((env.get (challenge_key sess.challenge_id) s).0
          ≡ ok d)
        × (env.unmarshal_challenge d ≡ ok ch)
        × IsSolved sess ch answer (env.now (env.get (challenge_key sess.challenge_id) s).1).0
  unfolding validate_body
  validate_body-ok answer sess s u h =
      elim (Bool-cases (same_state sess.state challenge_required)) [
        | inr a ↦ absurd (ground (arith, a))
        | inl a ↦ elim (Bool-cases (same sess.challenge_id [])) [
          | inl b ↦ absurd (ground (arith, a, b))
          | inr b ↦ elim (Result-cases (env.get (challenge_key sess.challenge_id) s).0) [
            | inr (e, c) ↦ absurd (ground (arith, a, b, c))
            | inl (d, c) ↦ elim (Result-cases (env.unmarshal_challenge d)) [
              | inr (e, f) ↦ absurd (ground (arith, a, b, c, f))
              | inl (ch, f) ↦
                  let s₁ = (env.get (challenge_key sess.challenge_id) s).1 in
                  let (live, hash) = judge-ok answer sess ch s₁ u (ground (arith, a, b, c, f)) in
                  (
                    ch,
                    d,
                    c,
                    f,
                    record {
                      state = needs_challenge sess.state a;
                      named = b;
                      open_ = live;
                      hash = hash;
                    },
                  )
            ]
          ]
        ]
      ]

  -- Validate succeeds only once it has the lock of the session, for a session that the store then
  -- holds under the given id in the state CHALLENGE_REQUIRED, whose own challenge is read from the
  -- store next, has not expired at the time that the clock shows after that, and holds the hash of
  -- the normal form of the given answer.
  pub validate-IsSolved :
      (session_id given : Bytes) (s : env.S) (u : Unit)
      → (validate env config craft session_id given s).0 ≡ ok u
      → let (locked, s₁) = acquire_lock env (lock_key session_id) admission_lock_ttl s in
        (owner : Bytes) × (locked ≡ ok owner)
        × (sess : Session) × ((get_session env session_id s₁).0 ≡ ok sess)
        × (let found =
              env.get (challenge_key sess.challenge_id) (get_session env session_id s₁).1 in
            (d : Bytes) × (found.0 ≡ ok d)
            × (ch : StoredChallenge) × (env.unmarshal_challenge d ≡ ok ch)
            × IsSolved sess ch (craft.normalize given) (env.now found.1).0)
  unfolding validate validate_locked
  validate-IsSolved session_id given s u h =
      let answer = craft.normalize given in
      elim (Bool-cases env.has_store) [
        | inr a ↦ absurd (ground (arith, a))
        | inl a ↦ elim (Option-cases (validate_session_id session_id)) [
          | inr (x, b) ↦ absurd (ground (arith, a, b))
          | inl b ↦
              let s' = (acquire_lock env (lock_key session_id) admission_lock_ttl s).1 in
              let (owner, locked, body) =
                with_session_lock-held env session_id
                  (validate_locked env config craft session_id answer) s u (ground (arith, a, b)) in
              elim (Result-cases (get_session env session_id s').0) [
                | inr (x, c) ↦ absurd (ground (arith, body, c))
                | inl (sess, c) ↦
                    let s₂ = (get_session env session_id s').1 in
                    let (ch, d, stored, decoded, solved) =
                      validate_body-ok answer sess s₂ u (ground (arith, body, c)) in
                    (owner, locked, sess, c, (d, stored, ch, decoded, solved))
              ]
        ]
      ]
