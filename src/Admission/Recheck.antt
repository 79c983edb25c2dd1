-- ===== src/Admission/Recheck.antt =====
-- admission.go: what `handleWaitElapsed` looks at again, under the lock of the session.
use onionguard.Base.{
  ◌≡◌, refl, ◌⊎◌, inl, inr, true, false, Option, none, some, ltb_ℤ, is_pos, Bytes, arith,
  Bool-cases, Option-cases,
}
use onionguard.Base.Time.{Time, sub, add}
use onionguard.Errors.{ok, Result-cases}
use onionguard.Env.{Env}
use onionguard.Config.{Config}
use onionguard.Session.{Session, get_session, save_session}
use onionguard.Lock.{acquire_lock, admission_lock_ttl, lock_key, with_session_lock}
use onionguard.Lock.Held.{with_session_lock-held}
use onionguard.Admission.States.{waiting, admitted}
use onionguard.Admission.{AdmissionDecision, capped}
use onionguard.Admission.Evaluate.{
  terminal, wait_to_challenge, wait_to_admitted, waited, wait_elapsed_locked, handle_wait_elapsed,
}
use onionguard.Admission.Grants.{IsGrant, IsSaved}

module _ {C : Type 0} (env : Env Session C) (config : Config) where
  waited-IsGrant :
      (fresh : Session) (t : Time) (s : env.S) (d : AdmissionDecision)
      → (waited env config fresh t s).0 ≡ ok d
      → d.allowed ≡ true
      → IsGrant (d, none)
  unfolding waited wait_to_challenge wait_to_admitted terminal
  waited-IsGrant fresh t s d h a = ground arith

  -- What the end of handleWaitElapsed lets in is a session that is neither revoked nor expired, and
  -- was admitted already, or was waiting, with no challenge configured and the wait over.
  waited-reason :
      (fresh : Session) (t : Time) (s : env.S) (d : AdmissionDecision)
      → (waited env config fresh t s).0 ≡ ok d
      → d.allowed ≡ true
      → (terminal fresh t ≡ none)
        × ((fresh.state ≡ admitted)
            ⊎ ((fresh.state ≡ waiting)
                × (config.captcha.enabled ≡ false)
                × (ltb_ℤ (sub t fresh.first_seen) config.wait_room.wait_time ≡ false)))
  unfolding waited wait_to_challenge terminal
  waited-reason fresh t s d h a = ground arith

  wait_to_admitted-IsSaved :
      (fresh : Session) (t : Time) (s : env.S) (d : AdmissionDecision)
      → (wait_to_admitted env config fresh t s).0 ≡ ok d
      → d.allowed ≡ true
      → (x : Session) × (d.session ≡ some x)
        × (x.session_id ≡ fresh.session_id)
        × IsSaved env config x
  unfolding wait_to_admitted
  wait_to_admitted-IsSaved fresh t s d h a =
      let until = capped fresh.absolute_expires_at (add t config.session_ttl) in
      let x : Session = record fresh { state = admitted; last_seen_at = t; expires_at = until } in
      elim (Bool-cases (is_pos (sub until t))) [
        | inr p ↦ absurd (ground (arith, p))
        | inl p ↦ elim (Option-cases (save_session env x (sub until t) s).0) [
          | inr (e, q) ↦ absurd (ground (arith, p, q))
          | inl q ↦ (x, ground (arith, p, q), refl, (sub until t, s, q))
        ]
      ]

  -- Why a session that was read under the lock is let in at a time, and as which session: it was
  -- admitted meanwhile, or its wait is over, no challenge is configured, and the admitted session was
  -- written to the store.
  pub data HasWaited (fresh : Session) (t : Time) (next : Option Session) : Type 0 where
    already : fresh.state ≡ admitted → next ≡ some fresh → HasWaited fresh t next
    served :
        fresh.state ≡ waiting
        → config.captcha.enabled ≡ false
        → ltb_ℤ (sub t fresh.first_seen) config.wait_room.wait_time ≡ false
        → (x : Session) → next ≡ some x
        → x.session_id ≡ fresh.session_id
        → IsSaved env config x
        → HasWaited fresh t next

  waited-HasWaited :
      (fresh : Session) (t : Time) (s : env.S) (d : AdmissionDecision)
      → (waited env config fresh t s).0 ≡ ok d
      → d.allowed ≡ true
      → (terminal fresh t ≡ none) × HasWaited fresh t d.session
  unfolding waited
  waited-HasWaited fresh t s d h a =
      let (live, why) = waited-reason fresh t s d h a in
      elim why [
        | inl st ↦ (live, already st (ground (arith, live, st)))
        | inr (st, plain, over) ↦
            let (x, e, id, saved) =
              wait_to_admitted-IsSaved fresh t s d (ground (arith, live, st, plain, over)) a in
            (live, served st plain over x e id saved)
      ]

  -- The reason, for the call under the lock: the session is the one that the store returned.
  locked-reason :
      (id : Bytes) (s : env.S) (d : AdmissionDecision)
      → (wait_elapsed_locked env config id s).0 ≡ ok d
      → let read = get_session env id s in
        (fresh : Session) × (read.0 ≡ ok fresh)
        × ((waited env config fresh (env.now read.1).0 (env.now read.1).1).0 ≡ ok d)
  unfolding wait_elapsed_locked
  locked-reason id s d h = elim (Result-cases (get_session env id s).0) [
    | inr (e, r) ↦ absurd (ground (arith, r))
    | inl (fresh, r) ↦ (fresh, r, ground (arith, r))
  ]

  handle_wait_elapsed-body :
      (cur : Session) (s : env.S)
      → (handle_wait_elapsed env config cur s).0.0.allowed ≡ true
      → (d : AdmissionDecision) × ((handle_wait_elapsed env config cur s).0 ≡ (d, none))
        × (let got = acquire_lock env (lock_key cur.session_id) admission_lock_ttl s in
            (owner : Bytes) × (got.0 ≡ ok owner)
            × ((wait_elapsed_locked env config cur.session_id got.1).0 ≡ ok d))
  unfolding handle_wait_elapsed
  handle_wait_elapsed-body cur s h =
      let body = wait_elapsed_locked env config cur.session_id in
      elim (Bool-cases env.has_store) [
        | inr e ↦ absurd (ground (arith, e))
        | inl e ↦ elim (Result-cases (with_session_lock env cur.session_id body s).0) [
          | inr (x, r) ↦ absurd (ground (arith, r))
          | inl (d, r) ↦
              (d, ground (arith, r), with_session_lock-held env cur.session_id body s d r)
        ]
      ]

  -- The time that is read after the session was read under its lock.
  abbrev pub recheck_time : Session → env.S → Time
  recheck_time cur s =
      (env.now
        (get_session env cur.session_id
          (acquire_lock env (lock_key cur.session_id) admission_lock_ttl s).1).1).0

  -- What a session that has waited rests on, from the world in which its lock is asked for: under the
  -- lock the store holds a session under its id that is neither revoked nor expired and may go on.
  pub record IsRecheck (cur : Session) (s : env.S) (next : Option Session) : Type 0 where
    pub owner : Bytes
    pub fresh : Session
    pub locked : (acquire_lock env (lock_key cur.session_id) admission_lock_ttl s).0 ≡ ok owner
    pub held :
        (get_session env cur.session_id
          (acquire_lock env (lock_key cur.session_id) admission_lock_ttl s).1).0
        ≡ ok fresh
    pub live : terminal fresh (recheck_time cur s) ≡ none
    pub waited_ : HasWaited fresh (recheck_time cur s) next

  pub handle_wait_elapsed-IsGrant :
      (cur : Session) (s : env.S)
      → (handle_wait_elapsed env config cur s).0.0.allowed ≡ true
      → IsRecheck cur s (handle_wait_elapsed env config cur s).0.0.session
        × IsGrant (handle_wait_elapsed env config cur s).0
  handle_wait_elapsed-IsGrant cur s h =
      let (d, e, (owner, locked, b)) = handle_wait_elapsed-body cur s h in
      let s' = (acquire_lock env (lock_key cur.session_id) admission_lock_ttl s).1 in
      let (fresh, held, w) = locked-reason cur.session_id s' d b in
      let a : d.allowed ≡ true = rw e at h in
      let read = get_session env cur.session_id s' in
      let (t, s₂) = env.now read.1 in
      let (live, why) = waited-HasWaited fresh t s₂ d w a in
      (
        rw e (record {
          owner = owner;
          fresh = fresh;
          locked = locked;
          held = held;
          live = live;
          waited_ = why;
        }),
        rw e (waited-IsGrant fresh t s₂ d w a),
      )
