-- ===== src/Admission/Verdicts.antt =====
-- admission.go: why `Evaluate` lets a session in, and which session it is that decides.
use onionguard.Base.{
  ◌≡◌, refl, ◌⊎◌, inl, inr, Bool, true, false, ◌||◌, ◌&&◌, not, Option, none, some, [], pos, ltb_ℤ,
  same, arith, if◌then◌else◌, Bool-cases, Option-cases,
}
use onionguard.Base.Time.{Time, sub}
use onionguard.Errors.{Err, Result, ok, err, is, invalid_session, Result-cases}
use onionguard.Env.{Env}
use onionguard.Config.{Config}
use onionguard.Session.{Session, get_session}
use onionguard.Admission.States.{State, new, waiting, admitted}
use onionguard.Admission.{AdmissionDecision, Answer}
use onionguard.Admission.Evaluate.{
  terminal, evaluate_state, evaluate_current, evaluate, stored_state, refresh,
}
use onionguard.Admission.Grants.{IsGrant, IsEntered, handle_new_client-IsGrant}
use onionguard.Admission.Recheck.{IsRecheck, handle_wait_elapsed-IsGrant}

Either-cases : {A B : Type 0} (x : A ⊎ B) → ((a : A) × (x ≡ inl a)) ⊎ ((b : B) × (x ≡ inr b))
Either-cases (inl a) = inl (a, refl)
Either-cases (inr b) = inr (b, refl)

module _ {C : Type 0} (env : Env Session C) (config : Config) where
  -- Why the session that decides is let in, from the world `s` on, and as which session.
  pub data Reason (cur : Session) (s : env.S) (next : Option Session) : Type 0 where
    was_admitted : cur.state ≡ admitted → next ≡ some cur → Reason cur s next
    was_waiting : cur.state ≡ waiting → IsRecheck env config cur s next → Reason cur s next
    was_new :
        cur.state ≡ new
        → config.wait_room.enabled || config.captcha.enabled ≡ false
        → IsEntered env config cur next
        → Reason cur s next

  evaluate_state-IsGrant :
      (st : State) (cur : Session) (t : Time) (s : env.S)
      → cur.state ≡ st
      → (evaluate_state env config st cur t s).0.0.allowed ≡ true
      → Reason cur s (evaluate_state env config st cur t s).0.0.session
        × IsGrant (evaluate_state env config st cur t s).0
  unfolding evaluate_state
  evaluate_state-IsGrant admitted cur t s e h = (was_admitted e refl, ground arith)
  evaluate_state-IsGrant waiting cur t s e h =
      let elapsed = if ltb_ℤ (sub t cur.first_seen) (pos 0) then pos 0 else sub t cur.first_seen in
      elim (Bool-cases (ltb_ℤ elapsed config.wait_room.wait_time)) [
        | inl w ↦ absurd (ground (arith, w))
        | inr w ↦
            let (again, grant) = handle_wait_elapsed-IsGrant env config cur s (rw w at h) in
            (was_waiting e (rw w again), rw w grant)
      ]
  evaluate_state-IsGrant new cur t s e h =
      let (plain, entered, grant) = handle_new_client-IsGrant env config cur s h in
      (was_new e plain entered, grant)
  evaluate_state-IsGrant _ cur t s e h = absurd (ground arith)

  terminal-refuses :
      (cur : Session) (t : Time) (d : AdmissionDecision)
      → terminal cur t ≡ some d
      → d.allowed ≡ false
  unfolding terminal
  terminal-refuses cur t d h = ground arith

  -- What `evaluate` decides on the session that counts.
  evaluate_current-IsGrant :
      (cur : Session) (t : Time) (s : env.S)
      → (evaluate_current env config cur t s).0.0.allowed ≡ true
      → (terminal cur t ≡ none)
        × Reason cur s (evaluate_current env config cur t s).0.0.session
        × IsGrant (evaluate_current env config cur t s).0
  unfolding evaluate_current
  evaluate_current-IsGrant cur t s h = elim (Option-cases (terminal cur t)) [
    | inr (d, e) ↦ absurd (ground (arith, e, terminal-refuses cur t d e))
    | inl e ↦
        let (reason, grant) =
          evaluate_state-IsGrant cur.state cur t s refl (rw (e, evaluate_current) at h) in
        (e, rw (e, evaluate_current) reason, rw (e, evaluate_current) grant)
  ]

  -- Which session decides for the session `sess` that the client shows: the one that the store holds
  -- under its id; or `sess` itself, where the store is not asked, or where it does not know the id
  -- and no session in the state of `sess` has to be stored. It is known in the world `s'`.
  pub data Decides (sess : Session) (fresh_snapshot : Bool) (s : env.S) (cur : Session) (s' : env.S)
      : Type 0 where
    from_store :
        not fresh_snapshot && (env.has_store && not (same sess.session_id [])) ≡ true
        → get_session env sess.session_id (env.now s).1 ≡ (ok cur, s')
        → Decides sess fresh_snapshot s cur s'
    unasked :
        not fresh_snapshot && (env.has_store && not (same sess.session_id [])) ≡ false
        → cur ≡ sess
        → s' ≡ (env.now s).1
        → Decides sess fresh_snapshot s cur s'
    unstored :
        (e : Err)
        → (get_session env sess.session_id (env.now s).1).0 ≡ err e
        → is e invalid_session ≡ true
        → stored_state sess.state ≡ false
        → cur ≡ sess
        → s' ≡ (get_session env sess.session_id (env.now s).1).1
        → Decides sess fresh_snapshot s cur s'

  refresh-refuses :
      (cur : Session) (r : Result Session) (a : Answer)
      → refresh cur r ≡ inr a
      → a.0.allowed ≡ false
  refresh-refuses cur (ok fresh) a h = absurd (ground arith)
  refresh-refuses cur (err e) a h = ground arith

  refresh-Decides :
      (sess : Session) (fresh_snapshot : Bool) (s : env.S) (cur : Session)
      → not fresh_snapshot && (env.has_store && not (same sess.session_id [])) ≡ true
      → refresh sess (get_session env sess.session_id (env.now s).1).0 ≡ inl cur
      → Decides sess fresh_snapshot s cur (get_session env sess.session_id (env.now s).1).1
  refresh-Decides sess fresh_snapshot s cur asked h =
      elim (Result-cases (get_session env sess.session_id (env.now s).1).0) [
        | inl (fresh, e) ↦ from_store asked (ground (arith, e))
        | inr (x, e) ↦ unstored x e (ground (arith, e)) (ground (arith, e)) (ground (arith, e)) refl
      ]

  -- Whatever Evaluate or EvaluateFresh lets in, in every environment, is decided by the session
  -- that the store holds (or by the given one, where the store is not asked, or does not know it
  -- and the state of that one need not be stored), which is neither revoked nor expired. It was
  -- admitted, and is the session of the answer; or waiting, and then its lock was taken and the
  -- session that the store held under it was neither revoked nor expired at the time read next, and
  -- was admitted by then, or still waiting with the wait over and no challenge configured, and was
  -- saved as the session of the answer; or new with neither a wait room nor a challenge configured,
  -- with room for it, and saved if there is a store. The answer has no error and no reason, and
  -- holds an admitted session.
  pub evaluate-IsGrant :
      (sess : Session) (fresh_snapshot : Bool) (s : env.S)
      → (evaluate env config (some sess) fresh_snapshot s).0.0.allowed ≡ true
      → IsGrant (evaluate env config (some sess) fresh_snapshot s).0
        × (cur : Session) × (s' : env.S) × Decides sess fresh_snapshot s cur s'
        × (terminal cur (env.now s).0 ≡ none)
        × Reason cur s' (evaluate env config (some sess) fresh_snapshot s).0.0.session
  unfolding evaluate
  evaluate-IsGrant sess fresh_snapshot s h =
      let (t, s₁) = env.now s in
      let (r, s₂) = get_session env sess.session_id s₁ in
      elim (Option-cases (terminal sess t)) [
        | inr (d, e) ↦ absurd (ground (arith, rw (e, evaluate) at h, terminal-refuses sess t d e))
        | inl e ↦
            elim (Bool-cases
              (not fresh_snapshot && (env.has_store && not (same sess.session_id [])))) [
                | inr b ↦
                    let (live, reason, grant) =
                      evaluate_current-IsGrant sess t s₁ (rw (e, b, evaluate) at h) in
                    (
                      rw (e, b, evaluate) grant,
                      sess,
                      s₁,
                      unasked b refl refl,
                      live,
                      rw (e, b, evaluate) reason,
                    )
                | inl b ↦ elim (Either-cases (refresh sess r)) [
                  | inl (cur, f) ↦
                      let (live, reason, grant) =
                        evaluate_current-IsGrant cur t s₂ (rw (e, b, f, evaluate) at h) in
                      (
                        rw (e, b, f, evaluate) grant,
                        cur,
                        s₂,
                        refresh-Decides sess fresh_snapshot s cur b f,
                        live,
                        rw (e, b, f, evaluate) reason,
                      )
                  | inr (a, f) ↦
                      absurd
                        (ground (arith, rw (e, b, f, evaluate) at h, refresh-refuses sess r a f))
                ]
              ]
      ]
