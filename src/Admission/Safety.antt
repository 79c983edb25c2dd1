-- ===== src/Admission/Safety.antt =====
-- What the admission engine guarantees in every environment, whatever the store, the clock and the
-- other goroutines do.
use onionguard.Base.{
  ◌≡◌, refl, inl, inr, true, false, ◌||◌, [], pos, is_pos, wrap64, ◌+ℤ◌, ◌*◌, arith, Bool-cases,
}
use onionguard.Base.Time.{Time, Duration, sub, add, minute}
use onionguard.Env.{Env}
use onionguard.Config.{Config}
use onionguard.Session.{Session}
use onionguard.Admission.States.{State, waiting, challenge_required}
use onionguard.Admission.{
  AdmissionDecision, greet, waits, challenges, commit_new, enter_pending, handle_new_client, capped,
  cut_ttl,
}

module _ {C : Type 0} (env : Env Session C) (config : Config) where
  -- The end of `handleNewClient` never lets in what its decision does not.
  commit_new-refuses :
      (done : AdmissionDecision) (sess : Session) (ttl : Duration) (s : env.S)
      → done.allowed ≡ false
      → (commit_new env config done sess ttl s).0.0.allowed ≡ false
  unfolding commit_new
  commit_new-refuses done sess ttl s h = ground arith

  enter_pending-refuses :
      (state : State) (base : Duration) (done : Session → AdmissionDecision) (sess : Session)
      (t : Time) (s : env.S)
      → ((x : Session) → (done x).allowed ≡ false)
      → (enter_pending env config state base done sess t s).0.0.allowed ≡ false
  unfolding enter_pending
  enter_pending-refuses state base done sess t s h =
      let ttl = cut_ttl sess.absolute_expires_at t base in
      let until = capped sess.absolute_expires_at (add t ttl) in
      let x : Session = record sess { state = state; expires_at = until } in
      elim (Bool-cases (is_pos ttl)) [
        | inl p ↦ rw p (commit_new-refuses (done x) x (sub until t) s (h x))
        | inr n ↦ rw n refl
      ]

  -- Where a wait room or a challenge is configured, handleNewClient never lets in the request that
  -- a new client came with.
  pub handle_new_client-refuses :
      (sess : Session) (s : env.S)
      → config.wait_room.enabled || config.captcha.enabled ≡ true
      → (handle_new_client env config sess s).0.0.allowed ≡ false
  unfolding handle_new_client
  handle_new_client-refuses sess s h =
      let (t, s₁) = env.now s in
      let w = wrap64 (config.wait_room.wait_time +ℤ pos (10 * minute)) in
      let c = wrap64 (config.captcha.ttl +ℤ pos (5 * minute)) in
      let x = greet env config sess t in
      ground (
        arith,
        enter_pending-refuses waiting w (waits config.wait_room.wait_time) x t s₁ (λ y. refl),
        enter_pending-refuses challenge_required c (challenges []) x t s₁ (λ y. refl),
      )
