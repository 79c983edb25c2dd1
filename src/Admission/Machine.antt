-- ===== src/Admission/Machine.antt =====
-- What `Transition` does to a stored session, and the state machine of admission.go.
use onionguard.Base.{
  ◌≡◌, refl, ap, sym, subst, ◌⊎◌, inl, inr, Bool, true, false, is_pos, Bytes, same_iff, arith,
  Bool-cases, Option-cases,
}
use onionguard.Base.Time.{Time}
use onionguard.Errors.{ok, Result-cases}
use onionguard.Env.{Env}
use onionguard.Config.{Config}
use onionguard.Session.{Session, get_session, save_session, validate_session_id}
use onionguard.Lock.{acquire_lock, admission_lock_ttl, lock_key}
use onionguard.Lock.Held.{with_session_lock-held}
use onionguard.Admission.States.{
  State, Event, new, waiting, challenge_required, admitted, expired, revoked, rotating, other,
  same_state, is_legal_transition,
}
use onionguard.Admission.Transition.{retarget, transition_session, transition_locked, transition}
use onionguard.Admission.States.{revoke}

-- The sequences of transitions that the code allows.
pub data Reach (from : State) : State → Type 0 where
  start : Reach from from
  move :
      {s t : State} (event : Event)
      → Reach from s
      → is_legal_transition s event t ≡ true
      → Reach from t

abbrev pub is_dead : State → Bool
is_dead expired = true
is_dead revoked = true
is_dead _ = false

only_revoked : (t : State) → same_state t revoked ≡ true → t ≡ revoked
only_revoked revoked h = refl
only_revoked _ h = absurd (ground arith)

from_expired :
    (t : State) (event : Event) → is_legal_transition expired event t ≡ true → t ≡ revoked
unfolding is_legal_transition
from_expired t revoke h = only_revoked t h
from_expired t _ h = absurd (ground arith)

from_revoked : (t : State) (event : Event) → is_legal_transition revoked event t ≡ false
unfolding is_legal_transition
from_revoked t event = ground arith

legal-dead :
    (s t : State) (event : Event)
    → is_dead s ≡ true
    → is_legal_transition s event t ≡ true
    → is_dead t ≡ true
legal-dead expired t event d h = ap is_dead (from_expired t event h)
legal-dead revoked t event d h = absurd (ground (arith, from_revoked t event))
legal-dead _ t event d h = absurd (ground arith)

-- No sequence of legal transitions leads from an expired or a revoked state to any state but these
-- two.
pub Reach-dead : {s t : State} → Reach s t → is_dead s ≡ true → is_dead t ≡ true
Reach-dead start d = d
Reach-dead (move {s} {t} event r h) d = legal-dead s t event (Reach-dead r d) h

-- What a transition to `target` by `event` may make of a session: nothing, if it is there already; or
-- else a legal move, which keeps the session's id and its absolute lifetime.
pub record IsMoved (old next : Session) (event : Event) (target : State) : Type 0 where
  pub there : next.state ≡ target
  pub legal :
      ((same_state old.state target ≡ true) × (next ≡ old))
      ⊎ ((same_state old.state target ≡ false)
          × (is_legal_transition old.state event target ≡ true))
  pub id : next.session_id ≡ old.session_id
  pub lifetime : next.absolute_expires_at ≡ old.absolute_expires_at

same_state_eq : (s t : State) → same_state s t ≡ true → s ≡ t
same_state_eq new new h = refl
same_state_eq waiting waiting h = refl
same_state_eq challenge_required challenge_required h = refl
same_state_eq admitted admitted h = refl
same_state_eq expired expired h = refl
same_state_eq revoked revoked h = refl
same_state_eq rotating rotating h = refl
same_state_eq (other s) (other t) h = ap other ((same_iff s t).0 h)
same_state_eq _ _ h = absurd (ground arith)

IsMoved-Reach :
    {old next : Session} {event : Event} {target : State}
    → IsMoved old next event target
    → Reach old.state next.state
IsMoved-Reach {old} {next} {event} {target} m = elim m.legal [
  | inl (same, e) ↦ subst (λ x. Reach old.state x.state) (sym e) start
  | inr (apart, h) ↦
      move event start (subst (λ t. is_legal_transition old.state event t ≡ true) (sym m.there) h)
]

module _ {C : Type 0} (env : Env Session C) (config : Config) where
  retarget-fields :
      (target : State) (sess : Session) (t : Time)
      → ((retarget env config target sess t).0.state ≡ sess.state)
        × ((retarget env config target sess t).0.session_id ≡ sess.session_id)
        × ((retarget env config target sess t).0.absolute_expires_at ≡ sess.absolute_expires_at)
  unfolding retarget
  retarget-fields target sess t = ground arith

  transition_session-IsMoved :
      (event : Event) (target : State) (old next : Session) (s : env.S)
      → (transition_session env config event target old s).0 ≡ ok next
      → IsMoved old next event target
  unfolding transition_session
  transition_session-IsMoved event target old next s h =
      elim (Bool-cases (same_state old.state target)) [
        | inl a ↦
            let e : next ≡ old = ground (arith, a) in
            record {
              there = ground (arith, e, same_state_eq old.state target a);
              legal = inl (a, e);
              id = ap (λ x. x.session_id) e;
              lifetime = ap (λ x. x.absolute_expires_at) e;
            }
        | inr a ↦ elim (Bool-cases (is_legal_transition old.state event target)) [
          | inr b ↦ absurd (ground (arith, a, b))
          | inl b ↦
              let (t, s₁) = env.now s in
              let to = record old { state = target; last_seen_at = t } in
              let (next', ttl) = retarget env config target to t in
              let (st, id, life) = retarget-fields target to t in
              elim (Bool-cases (is_pos ttl)) [
                | inr c ↦ absurd (ground (arith, a, b, c))
                | inl c ↦ elim (Option-cases (save_session env next' ttl s₁).0) [
                  | inr (x, d) ↦ absurd (ground (arith, a, b, c, d))
                  | inl d ↦
                      let e : next ≡ next' = ground (arith, a, b, c, d) in
                      record {
                        there = ground (arith, e, st);
                        legal = inr (a, b);
                        id = ground (arith, e, id);
                        lifetime = ground (arith, e, life);
                      }
                ]
              ]
        ]
      ]

  -- A call of Transition that succeeds took the lock of the session and takes the session that the
  -- store then held under the id. If that was in the target state it is returned as it was; if not,
  -- it was moved there by a legal transition. The result is in the target state, with the session's
  -- id and its absolute lifetime.
  pub transition-IsMoved :
      (session_id : Bytes) (event : Event) (target : State) (next : Session) (s : env.S)
      → (transition env config session_id event target s).0 ≡ ok next
      → let (locked, s') = acquire_lock env (lock_key session_id) admission_lock_ttl s in
        (owner : Bytes) × (locked ≡ ok owner)
        × (old : Session) × ((get_session env session_id s').0 ≡ ok old)
        × IsMoved old next event target
  unfolding transition transition_locked
  transition-IsMoved session_id event target next s h = elim (Bool-cases env.has_store) [
    | inr a ↦ absurd (ground (arith, a))
    | inl a ↦ elim (Option-cases (validate_session_id session_id)) [
      | inr (x, b) ↦ absurd (ground (arith, a, b))
      | inl b ↦
          let s' = (acquire_lock env (lock_key session_id) admission_lock_ttl s).1 in
          let (owner, locked, body) =
            with_session_lock-held env session_id
              (transition_locked env config session_id event target) s next
              (ground (arith, a, b)) in
          elim (Result-cases (get_session env session_id s').0) [
            | inr (x, c) ↦ absurd (ground (arith, body, c))
            | inl (old, c) ↦
                let s₁ = (get_session env session_id s').1 in
                (
                  owner,
                  locked,
                  old,
                  c,
                  transition_session-IsMoved event target old next s₁ (ground (arith, body, c)),
                )
          ]
    ]
  ]
