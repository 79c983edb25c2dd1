-- ===== src/Admission/Grants.antt =====
-- admission.go: what the branches of `Evaluate` need to let a session in, `handleWaitElapsed` and
-- `handleNewClient` among them.
use onionguard.Base.{
  ◌≡◌, refl, inl, inr, true, false, ◌||◌, Option, none, some, is_pos, arith, Bool-cases,
  Option-cases,
}
use onionguard.Base.Time.{Time, Duration, sub, add}
use onionguard.Env.{Env}
use onionguard.Config.{Config}
use onionguard.Session.{Session, save_session}
use onionguard.Admission.States.{admitted}
use onionguard.Admission.{
  Answer, greet, reserve, commit_new, enter_admitted, handle_new_client, capped, admits,
}
use onionguard.Admission.Safety.{handle_new_client-refuses}

-- The session that a decision hands on is admitted.
abbrev pub HoldsAdmitted : Option Session → Type 0
HoldsAdmitted none = ⊥
HoldsAdmitted (some sess) = sess.state ≡ admitted

-- An answer that admits is whole: no error, no reason, and an admitted session.
pub record IsGrant (a : Answer) : Type 0 where
  pub no_error : a.1 ≡ none
  pub no_reason : a.0.error ≡ none
  pub state : a.0.state ≡ admitted
  pub holder : HoldsAdmitted a.0.session

module _ {C : Type 0} (env : Env Session C) (config : Config) where
  commit_new-IsGrant :
      (sess : Session) (ttl : Duration) (s : env.S)
      → sess.state ≡ admitted
      → (commit_new env config (admits sess) sess ttl s).0.0.allowed ≡ true
      → IsGrant (commit_new env config (admits sess) sess ttl s).0
  unfolding commit_new
  commit_new-IsGrant sess ttl s st h = ground arith

  -- A session that was written to the store.
  abbrev pub IsSaved : Session → Type 0
  IsSaved x = (ttl : Duration) × (s : env.S) × ((save_session env x ttl s).0 ≡ none)

  -- What a new session that is let in becomes: it kept its id, there was room for it, and it was
  -- written to the store, if there is one.
  pub record IsEntered (sess : Session) (next : Option Session) : Type 0 where
    pub x : Session
    pub told : next ≡ some x
    pub id : x.session_id ≡ sess.session_id
    pub room : (ttl : Duration) × (s : env.S) × ((reserve env config x.session_id ttl s).0 ≡ none)
    pub saved : env.has_store ≡ true → IsSaved x

  commit_new-IsEntered :
      (sess x : Session) (ttl : Duration) (s : env.S)
      → x.session_id ≡ sess.session_id
      → (commit_new env config (admits x) x ttl s).0.0.allowed ≡ true
      → IsEntered sess (commit_new env config (admits x) x ttl s).0.0.session
  unfolding commit_new
  commit_new-IsEntered sess x ttl s id h =
      let (denied, s₁) = reserve env config x.session_id ttl s in
      elim (Option-cases denied) [
        | inr (e, d) ↦ absurd (ground (arith, d))
        | inl d ↦ record {
          x = x;
          told = ground (arith, d);
          id = id;
          room = (ttl, s, d);
          saved = λ has. (ttl, s₁, ground (arith, d, has));
        }
      ]

  enter_admitted-IsGrant :
      (sess : Session) (t : Time) (s : env.S)
      → (enter_admitted env config sess t s).0.0.allowed ≡ true
      → IsEntered sess (enter_admitted env config sess t s).0.0.session
        × IsGrant (enter_admitted env config sess t s).0
  unfolding enter_admitted
  enter_admitted-IsGrant sess t s h =
      let until = capped sess.absolute_expires_at (add t config.session_ttl) in
      let x : Session = record sess { state = admitted; expires_at = until } in
      elim (Bool-cases (is_pos (sub until t))) [
        | inl p ↦ (
          rw p (commit_new-IsEntered sess x (sub until t) s refl (rw p at h)),
          rw p (commit_new-IsGrant x (sub until t) s refl (rw p at h)),
        )
        | inr n ↦ absurd (ground (arith, n))
      ]

  new_without_friction :
      (sess : Session) (s : env.S)
      → config.wait_room.enabled || config.captcha.enabled ≡ false
      → let (t, s₁) = env.now s in
        handle_new_client env config sess s
        ≡ enter_admitted env config (greet env config sess t) t s₁
  unfolding handle_new_client
  new_without_friction sess s h = ground arith

  pub handle_new_client-IsGrant :
      (sess : Session) (s : env.S)
      → (handle_new_client env config sess s).0.0.allowed ≡ true
      → (config.wait_room.enabled || config.captcha.enabled ≡ false)
        × IsEntered sess (handle_new_client env config sess s).0.0.session
        × IsGrant (handle_new_client env config sess s).0
  handle_new_client-IsGrant sess s h =
      elim (Bool-cases (config.wait_room.enabled || config.captcha.enabled)) [
        | inl e ↦ absurd (ground (arith, handle_new_client-refuses env config sess s e))
        | inr e ↦
            let (t, s₁) = env.now s in
            let open_ = new_without_friction sess s e in
            let (entered, grant) =
              enter_admitted-IsGrant (greet env config sess t) t s₁ (rw open_ at h) in
            (
              e,
              rw open_ (record {
                x = entered.x;
                told = entered.told;
                id = entered.id;
                room = entered.room;
                saved = entered.saved;
              }),
              rw open_ grant,
            )
      ]
