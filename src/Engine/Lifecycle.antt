-- ===== src/Engine/Lifecycle.antt =====
-- The life of an engine: calls one after the other, until a shutdown.
use onionguard.Base.{
  ◌≡◌, refl, ap, ◌∙◌, inl, inr, Bool-cases, Bool, true, false, Option, none, some, List, [], ◌∷◌, ℤ,
  Bytes, arith, if_either, if◌then◌else◌,
}
use onionguard.Errors.{Err, sentinel, store_closed}
use onionguard.Env.{Env}
use onionguard.Session.{Session}
use onionguard.Challenge.{StoredChallenge}
use onionguard.Identity.{ClientIdentity}
use onionguard.Identity.Token.{Request}
use onionguard.Engine.{Parts}
use onionguard.Engine.Operations.{
  EngineState, error_of, authorize_request, guarded, issue_challenge, validate_challenge,
  engine_revoke_session, engine_rotate_session, ping, shutdown, report_to, get_challenge,
  limit_rate, resolve_identity, evaluate_session, breaker_is_open,
}

module _ {F : Type 0} (env : Env Session StoredChallenge) (parts : Parts F env) where
  open env use {S}

  abbrev E : Type 0
  E = EngineState S

  -- The calls of the methods that change the state or the world. The last four are those that look
  -- neither at `draining` nor at `closed`, and return what their part of the engine does.
  pub data Call : Type 0 where
    authorizing : Request → ℤ → Call
    issuing revoking rotating : Bytes → Call
    validating : Bytes → Bytes → Call
    pinging : Call
    shutting_down : (E → Option Err × E) → Call
    getting : Bytes → Call
    limiting : ClientIdentity → Bytes → ℤ → Call
    resolving : Request → Call
    evaluating : Option Session → Call

  -- The error that a call returns, and the state after it.
  unfoldable pub call : Call → E → Option Err × E
  call (authorizing r cost) e = let (a, e') = authorize_request env parts r cost e in (a.1, e')
  call (issuing id) e = let (a, e') = issue_challenge env parts id e in (error_of a, e')
  call (revoking id) e = let (a, e') = engine_revoke_session env parts id e in (error_of a, e')
  call (rotating id) e = let (a, e') = engine_rotate_session env parts id e in (error_of a, e')
  call (validating id answer) e =
      let (a, e') = validate_challenge env parts id answer e in (error_of a, e')
  call pinging e = ping env parts e
  call (shutting_down finish) e = shutdown env parts finish e
  call (getting id) e = let (a, e') = get_challenge env parts id e in (error_of a, e')
  call (limiting id operation cost) e =
      let (a, e') = limit_rate env parts id operation cost e in (a.1, e')
  call (resolving r) e = let (a, e') = resolve_identity env parts r e in (a.1, e')
  call (evaluating sess) e = let (a, e') = evaluate_session env parts sess e in (a.1, e')

  abbrev pub is_shutdown : Call → Bool
  is_shutdown (shutting_down finish) = true
  is_shutdown _ = false

  -- Whether the method looks at `draining` or `closed`.
  abbrev pub is_gated : Call → Bool
  is_gated (getting id) = false
  is_gated (limiting id operation cost) = false
  is_gated (resolving r) = false
  is_gated (evaluating sess) = false
  is_gated _ = true

  abbrev pub answer_when_closed : Call → Option Err
  answer_when_closed c = if is_shutdown c then none else some (sentinel store_closed)

  call-closed :
      (c : Call) (e : E)
      → is_gated c ≡ true
      → e.closed ≡ true
      → call c e ≡ (answer_when_closed c, e)
  unfolding call authorize_request guarded issue_challenge engine_revoke_session
      engine_rotate_session validate_challenge ping shutdown
  call-closed (authorizing r cost) e g h = ground (arith, h)
  call-closed (issuing id) e g h = ground (arith, h)
  call-closed (revoking id) e g h = ground (arith, h)
  call-closed (rotating id) e g h = ground (arith, h)
  call-closed (validating id answer) e g h = ground (arith, h)
  call-closed pinging e g h = ground (arith, h)
  call-closed (shutting_down finish) e g h = ground (arith, h)
  call-closed _ e g h = absurd (ground (arith, g))

  -- A call of the other methods changes nothing but the world.
  call-ungated :
      (c : Call) (e : E)
      → is_gated c ≡ false
      → (call c e).1 ≡ record e { world = (call c e).1.world }
  unfolding call get_challenge limit_rate resolve_identity evaluate_session
  call-ungated (getting id) e g = refl
  call-ungated (limiting id operation cost) e g = refl
  call-ungated (resolving r) e g = refl
  call-ungated (evaluating sess) e g = refl
  call-ungated _ e g = absurd (ground (arith, g))

  unfoldable pub run : List Call → E → List (Option Err) × E
  run [] e = ([], e)
  run (c ∷ cs) e = let (x, e₁) = call c e in let (xs, e₂) = run cs e₁ in (x ∷ xs, e₂)

  -- Every gated call got the answer of a closed engine.
  abbrev pub AllRefused : List Call → List (Option Err) → Type 0
  AllRefused [] [] = Unit
  AllRefused (c ∷ cs) (x ∷ xs) = (is_gated c ≡ true → x ≡ answer_when_closed c) × AllRefused cs xs
  AllRefused _ _ = ⊥

  abbrev pub ungated : List Call → List Call
  ungated [] = []
  ungated (c ∷ cs) = let rest = ungated cs in if is_gated c then rest else c ∷ rest

  -- What a sequence of calls does to a closed engine: the gated ones are refused, the engine stays as
  -- it was but for the world, and the world becomes what the other calls alone make of it.
  pub record IsClosedRun (cs : List Call) (e : E) : Type 0 where
    pub refused : AllRefused cs (run cs e).0
    pub kept : (run cs e).1 ≡ record e { world = (run cs e).1.world }
    pub touched : (run cs e).1 ≡ (run (ungated cs) e).1

  run-closed : (cs : List Call) (e : E) → e.closed ≡ true → IsClosedRun cs e
  unfolding run
  run-closed [] e h = record { refused = tt; kept = refl; touched = refl }
  run-closed (c ∷ cs) e h = elim (Bool-cases (is_gated c)) [
    | inl g ↦
        let same = call-closed c e g h in
        let rest = run-closed cs e h in
        record {
          refused = (λ _. ap (λ x. x.0) same, rw same rest.refused);
          kept = rw same rest.kept;
          touched = rw (same, g) rest.touched;
        }
    | inr g ↦
        let e₁ = (call c e).1 in
        let frame : e₁ ≡ record e { world = e₁.world } = call-ungated c e g in
        let shut : e₁.closed ≡ true = ground (arith, ap (λ x. x.closed) frame, h) in
        let rest = run-closed cs e₁ shut in
        record {
          refused = (λ a. absurd (ground (arith, a, g)), rest.refused);
          kept = rest.kept ∙ ap {A = E} (λ x. record x { world = (run cs e₁).1.world }) frame;
          touched = rw g rest.touched;
        }
  ]

  shutdown-closed :
      (finish : E → Option Err × E) (e : E) → (shutdown env parts finish e).1.closed ≡ true
  unfolding shutdown
  shutdown-closed finish e =
      if_either {A = Option Err × E} (λ x. x.1.closed ≡ true) e.closed _ _ (λ h. h) (λ _. refl)

  -- After a call of Shutdown, however the wait for the calls in flight ended, in every sequence of
  -- calls each one of a method that looks at draining or closed returns ErrStoreClosed, a further
  -- Shutdown nil, and does nothing. The calls of the other four methods, GetChallenge,
  -- AllowRateLimit, ResolveIdentity and EvaluateSession, may use the store, but change neither the
  -- engine nor its breaker.
  pub run-shutdown :
      (finish : E → Option Err × E) (cs : List Call) (e : E)
      → IsClosedRun cs (shutdown env parts finish e).1
  run-shutdown finish cs e = run-closed cs _ (shutdown-closed finish e)

  -- Every call but Shutdown, whatever it returns, leaves the number of calls in flight as it was.
  pub call-in_flight :
      (c : Call) (e : E) → is_shutdown c ≡ false → (call c e).1.in_flight ≡ e.in_flight
  unfolding call authorize_request guarded issue_challenge engine_revoke_session
      engine_rotate_session validate_challenge ping shutdown report_to breaker_is_open get_challenge
      limit_rate resolve_identity evaluate_session
  call-in_flight (authorizing r cost) e h = ground arith
  call-in_flight (issuing id) e h = ground arith
  call-in_flight (revoking id) e h = ground arith
  call-in_flight (rotating id) e h = ground arith
  call-in_flight (validating id answer) e h = ground arith
  call-in_flight pinging e h = ground arith
  call-in_flight (shutting_down finish) e h = absurd (ground (arith, h))
  call-in_flight (getting id) e h = refl
  call-in_flight (limiting id operation cost) e h = refl
  call-in_flight (resolving r) e h = refl
  call-in_flight (evaluating sess) e h = refl
