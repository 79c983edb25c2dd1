-- ===== src/Engine/Origin.antt =====
-- onionguard.go: where the session comes from that the engine evaluates for a request.
use onionguard.Base.{
  ◌≡◌, refl, ◌≢◌, true, not, Option, none, some, [], ℤ, same, arith, if_either, option_either,
}
use onionguard.Errors.{Err, ok, err, is, invalid_session, result_either}
use onionguard.Env.{Env}
use onionguard.Session.{anonymous_new, Session, new_session, get_session}
use onionguard.Challenge.{StoredChallenge}
use onionguard.RateLimit.{RateLimitResult}
use onionguard.Identity.{ClientIdentity, no_identity}
use onionguard.Identity.Token.{Request}
use onionguard.Engine.{
  Parts, Step, stop, go, allow_rate_limit, operation_of, first_contact, returning, find_session,
}

module _ {F : Type 0} (env : Env Session StoredChallenge) (parts : Parts F env) where
  open env use {S, now}
  open parts use {config, creds}

  -- The rate limiter, asked for a client in the world `s`, lets the request pass.
  abbrev pub IsPassed : Request → ℤ → ClientIdentity → S → RateLimitResult → Type 0
  IsPassed r cost client s rl =
      (allow_rate_limit env parts client (operation_of env parts r) cost s).0 ≡ (rl, none)

  abbrev pub after_limit : Request → ℤ → ClientIdentity → S → S
  after_limit r cost client s =
      (allow_rate_limit env parts client (operation_of env parts r) cost s).1

  -- A session that is made for the request from the world `s` on, once the rate limiter let `client`
  -- pass; it is there in the world `s'`.
  abbrev pub IsMade : Request → ℤ → ClientIdentity → S → Session → S → Type 0
  IsMade r cost client s sess s' =
      let t = now (after_limit r cost client s) in
      ((rl : RateLimitResult) × IsPassed r cost client s rl)
      × (new_session env t.0 config.max_renewals t.1 ≡ (ok sess, s'))

  -- Where the session that is evaluated in the world `s'` comes from, for a client that was resolved
  -- with a session or without, in the world `s`.
  pub data Origin (r : Request) (cost : ℤ) (client : ClientIdentity) (held : Option Session) (s : S)
      (sess : Session) (s' : S) : Type 0 where
    resolved :
        held ≡ some sess
        → (rl : RateLimitResult) → IsPassed r cost client s rl
        → s' ≡ after_limit r cost client s
        → Origin r cost client held s sess s'
    looked_up :
        held ≡ none
        → (get_session env client.session_id s).0 ≡ ok sess
        → (rl : RateLimitResult) → IsPassed r cost client (get_session env client.session_id s).1 rl
        → s' ≡ after_limit r cost client (get_session env client.session_id s).1
        → Origin r cost client held s sess s'
    made :
        same client.session_id [] ≡ true
        → IsMade r cost client s sess s'
        → Origin r cost client held s sess s'
    made_again :
        (e : Err)
        → (get_session env client.session_id s).0 ≡ err e
        → is e invalid_session ≡ true
        → IsMade r cost
            (record no_identity { kind = anonymous_new })
            (get_session env client.session_id s).1
            sess
            s'
        → Origin r cost client held s sess s'

  -- A step that stops has an error; one that goes on has a session of known origin.
  abbrev pub IsSoundStep : Request → ℤ → ClientIdentity → Option Session → S → Step × S → Type 0
  IsSoundStep r cost client held s (stop out, s') = out.error ≢ none
  IsSoundStep r cost client held s (go id sess rl, s') = Origin r cost client held s sess s'

  first_contact-IsSoundStep :
      (seen id client : ClientIdentity) (held : Option Session) (r : Request) (cost : ℤ) (s s₀ : S)
      → ((sess : Session) (s' : S)
          → IsMade r cost seen s sess s'
          → Origin r cost client held s₀ sess s')
      → IsSoundStep r cost client held s₀ (first_contact env parts seen id r cost s)
  unfolding first_contact
  first_contact-IsSoundStep seen id client held r cost s s₀ k =
      let answer = allow_rate_limit env parts seen (operation_of env parts r) cost s in
      option_either {B = Step × S} (IsSoundStep r cost client held s₀) answer.0.1 _ _
        (λ passed.
          let (t, s₁) = now answer.1 in
          result_either {B = Step × S} (IsSoundStep r cost client held s₀)
            (new_session env t config.max_renewals s₁).0 _ _ (λ e _. ground arith)
            (λ sess e. k sess _ ((answer.0.0, ground (arith, passed)), ground (arith, e))))
        (λ e _. ground arith)

  returning-IsSoundStep :
      (id : ClientIdentity) (sess : Session) (held : Option Session) (r : Request) (cost : ℤ)
      (s s₀ : S)
      → ((rl : RateLimitResult)
          → IsPassed r cost id s rl
          → Origin r cost id held s₀ sess (after_limit r cost id s))
      → IsSoundStep r cost id held s₀ (returning env parts id sess r cost s)
  unfolding returning
  returning-IsSoundStep id sess held r cost s s₀ k =
      let answer = allow_rate_limit env parts id (operation_of env parts r) cost s in
      option_either (λ step. IsSoundStep r cost id held s₀ (step, answer.1)) answer.0.1 _ _
        (λ passed. k answer.0.0 (ground (arith, passed))) (λ e _. ground arith)

  pub find_session-IsSoundStep :
      (id : ClientIdentity) (sess : Option Session) (r : Request) (cost : ℤ) (s : S)
      → IsSoundStep r cost id sess s (find_session env parts id sess r cost s)
  unfolding find_session
  find_session-IsSoundStep id sess r cost s =
      let P : Step × S → Type 0 = IsSoundStep r cost id sess s in
      if_either P (same id.session_id []) _ _
        (λ a. first_contact-IsSoundStep id id id sess r cost s s (λ x s' m. made a m))
        (λ _.
          option_either P sess _ _
            (λ absent.
              let (found, s₁) = get_session env id.session_id s in
              result_either P found _ _
                (λ e failed.
                  if_either P (not (is e invalid_session)) _ _ (λ _. ground arith)
                    (λ a.
                      first_contact-IsSoundStep _ id id sess r cost s₁ s
                        (λ x s' m. made_again e failed (ground (arith, a)) m)))
                (λ held e.
                  returning-IsSoundStep id held sess r cost s₁ s
                    (λ rl passed. looked_up absent e rl passed refl)))
            (λ held e.
              returning-IsSoundStep id held sess r cost s s
                (λ rl passed. resolved e rl passed refl)))
