-- ===== src/Session/Renewal.antt =====
-- What a rotation of a session gives: RotateSession and RevokeSessionWithClock of session.go.
use onionguard.Base.{
  ◌≤◌, ◌<◌, ◌≡◌, refl, subst, sym, ◌⊎◌, inl, inr, true, false, ◌&&◌, not, none, pos, leb_ℤ, ◌+ℤ◌,
  wrap64, is_pos, Bytes, arith, Bool-cases, Option-cases,
}
use onionguard.Base.Time.{Time, Duration, sub, add, before}
use onionguard.Errors.{ok, Result-cases}
use onionguard.Env.{Env}
use onionguard.Session.{
  Session, session_key, save_session, get_session, validate_session_id, is_expired, is_revoked,
}
use onionguard.Session.Rotate.{
  replacement, replace, rotation_error, rotate_body, rotate_locked, rotate_session,
}
use onionguard.Lock.{acquire_lock, admission_lock_ttl, lock_key}
use onionguard.Lock.Held.{with_session_lock-held}
use onionguard.Admission.{capped}
use onionguard.Admission.States.{State, admitted, rotating, same_state}

-- A session that may be renewed at a time.
pub record IsRenewable (old : Session) (t : Time) : Type 0 where
  pub unrevoked : is_revoked old ≡ false
  pub unexpired : is_expired old t ≡ false
  pub admitted_or_rotating : (old.state ≡ admitted) ⊎ (old.state ≡ rotating)
  pub renewals_left : is_pos old.max_renewals && leb_ℤ old.max_renewals old.renewal_count ≡ false

-- A session that carries another on: an admitted one of the same visitor, with one renewal more,
-- which ends after `t` and within the lifetime that the first one was given.
pub record IsSuccessor (old next : Session) (t : Time) : Type 0 where
  pub state : next.state ≡ admitted
  pub kind : next.kind ≡ old.kind
  pub first_seen : next.first_seen ≡ old.first_seen
  pub renewed : next.renewal_count ≡ wrap64 (old.renewal_count +ℤ pos 1)
  pub limit : next.max_renewals ≡ old.max_renewals
  pub lifetime : next.absolute_expires_at ≡ old.absolute_expires_at
  pub ahead : t < next.expires_at
  pub within : (old.absolute_expires_at ≡ 0) ⊎ (next.expires_at ≤ old.absolute_expires_at)

one_of :
    (st : State)
    → not (same_state st admitted) && not (same_state st rotating) ≡ false
    → (st ≡ admitted) ⊎ (st ≡ rotating)
one_of admitted h = inl refl
one_of rotating h = inr refl
one_of _ h = absurd (ground arith)

rotation_error-IsRenewable :
    (old : Session) (t : Time) → rotation_error old t ≡ none → IsRenewable old t
unfolding rotation_error
rotation_error-IsRenewable old t h = ground (arith, one_of old.state)

replacement-IsSuccessor :
    (old : Session) (id : Bytes) (t until : Time)
    → before t (capped old.absolute_expires_at until) ≡ true
    → IsSuccessor old (replacement old id (capped old.absolute_expires_at until) t) t
unfolding replacement
replacement-IsSuccessor old id t until h = ground arith

module _ {C : Type 0} (env : Env Session C) where
  replace-ok :
      (old_id : Bytes) (next x : Session) (t : Time) (s : env.S)
      → (replace env old_id next t s).0 ≡ ok x
      → x ≡ next
  unfolding replace
  replace-ok old_id next x t s h =
      elim (Option-cases (save_session env next (sub next.expires_at t) s).0) [
        | inr (e, f) ↦ absurd (ground (arith, f))
        | inl f ↦
            let s₁ = (save_session env next (sub next.expires_at t) s).1 in
            elim (Option-cases (env.delete (session_key old_id) s₁).0) [
              | inr (e, g) ↦ absurd (ground (arith, f, g))
              | inl g ↦ ground (arith, f, g)
            ]
      ]

  rotate_body-ok :
      (old_id : Bytes) (session_ttl : Duration) (old next : Session) (s : env.S)
      → (rotate_body env old_id session_ttl old s).0 ≡ ok next
      → IsRenewable old (env.now s).0 × IsSuccessor old next (env.now s).0
  unfolding rotate_body replacement
  rotate_body-ok old_id session_ttl old next s h =
      let (t, s₁) = env.now s in
      let (id, s₂) = env.generate_session_id s₁ in
      elim (Option-cases (rotation_error old t)) [
        | inr (e, f) ↦ absurd (ground (arith, f))
        | inl f ↦ elim (Result-cases id) [
          | inr (e, g) ↦ absurd (ground (arith, f, g))
          | inl (new_id, g) ↦
              let expiry = capped old.absolute_expires_at (add t session_ttl) in
              elim (Bool-cases (before t expiry)) [
                | inr b ↦ absurd (ground (arith, f, g, b))
                | inl b ↦
                    let e =
                      replace-ok old_id (replacement old new_id expiry t) next t s₂
                        (ground (arith, f, g, b)) in
                    (
                      rotation_error-IsRenewable old t f,
                      subst (λ y. IsSuccessor old y t) (sym e)
                          (replacement-IsSuccessor old new_id t (add t session_ttl) b),
                    )
              ]
        ]
      ]

  rotate_locked-ok :
      (old_id : Bytes) (session_ttl : Duration) (next : Session) (s : env.S)
      → (rotate_locked env old_id session_ttl s).0 ≡ ok next
      → (old : Session) × ((get_session env old_id s).0 ≡ ok old)
        × (let t = (env.now (get_session env old_id s).1).0 in
            IsRenewable old t × IsSuccessor old next t)
  unfolding rotate_locked
  rotate_locked-ok old_id session_ttl next s h = elim (Result-cases (get_session env old_id s).0) [
    | inr (e, f) ↦ absurd (ground (arith, f))
    | inl (old, f) ↦
        let s₁ = (get_session env old_id s).1 in
        let (renewable, successor) =
          rotate_body-ok old_id session_ttl old next s₁ (ground (arith, f)) in
        (old, f, (renewable, successor))
  ]

  -- A rotation that succeeds was asked for a valid id and a positive time to live, took the lock of
  -- the session, and carries on the session that the store then held under that id, which at the
  -- time read after it was neither revoked nor expired, was admitted or rotating, and had a renewal
  -- left: the new session is admitted, of the same visitor, with one renewal more, ends after that
  -- time and within the absolute lifetime, if one is set.
  pub rotate_session-ok :
      (old_id : Bytes) (session_ttl : Duration) (next : Session) (s : env.S)
      → (rotate_session env old_id session_ttl s).0 ≡ ok next
      → (validate_session_id old_id ≡ none)
        × (is_pos session_ttl ≡ true)
        × (let (locked, s') = acquire_lock env (lock_key old_id) admission_lock_ttl s in
            (owner : Bytes) × (locked ≡ ok owner)
            × (old : Session) × ((get_session env old_id s').0 ≡ ok old)
            × (let t = (env.now (get_session env old_id s').1).0 in
                IsRenewable old t × IsSuccessor old next t))
  unfolding rotate_session
  rotate_session-ok old_id session_ttl next s h = elim (Bool-cases env.has_store) [
    | inr a ↦ absurd (ground (arith, a))
    | inl a ↦ elim (Option-cases (validate_session_id old_id)) [
      | inr (x, b) ↦ absurd (ground (arith, a, b))
      | inl b ↦ elim (Bool-cases (is_pos session_ttl)) [
        | inr c ↦ absurd (ground (arith, a, b, c))
        | inl c ↦
            let s' = (acquire_lock env (lock_key old_id) admission_lock_ttl s).1 in
            let (owner, locked, body) =
              with_session_lock-held env old_id (rotate_locked env old_id session_ttl) s next
                (ground (arith, a, b, c)) in
            let (old, stored, (renewable, successor)) =
              rotate_locked-ok old_id session_ttl next s' body in
            (b, c, (owner, locked, old, stored, (renewable, successor)))
      ]
    ]
  ]
