-- ===== src/Engine/Access.antt =====
-- What a request that the engine lets in rests on.
use onionguard.Base.{
  ◌≡◌, refl, inl, inr, true, false, ◌||◌, Option, none, some, List, [], ◌∷◌, ℤ, arith, if_either,
  option_either, subst, Bool-cases, if◌then◌else◌,
}
use onionguard.Errors.{ok, result_either, Result-cases}
use onionguard.Env.{Env}
use onionguard.Session.{anonymous, Session}
use onionguard.Admission.States.{waiting, admitted, same_state}
use onionguard.Admission.Evaluate.{evaluate, terminal}
use onionguard.Admission.Grants.{HoldsAdmitted}
use onionguard.Admission.Verdicts.{Decides, Reason, evaluate-IsGrant}
use onionguard.Challenge.{StoredChallenge}
use onionguard.RateLimit.{RateLimitResult}
use onionguard.Identity.{ClientIdentity, is_authenticated, is_api_token, is_admitted}
use onionguard.Identity.Token.{Request}
use onionguard.Identity.Resolve.{resolve_with_session}
use onionguard.Identity.Grounds.{Grounds, IsHeld, IsGrounded, resolve_with_session-IsGrounded}
use onionguard.Engine.{
  Notice, request_admitted, RequestDecision, Parts, Outcome, succeeds, Step, stop, go,
  wait_room_queued, allow_rate_limit, operation_of, authorize_principal, find_session, as_anonymous,
  attach_challenge, admit, admit_step, authorize_through,
}
use onionguard.CircuitBreaker
use onionguard.Engine.Operations.{EngineState, is_stopping, authorize_request}
use onionguard.Engine.Origin.{IsPassed, Origin, IsSoundStep, find_session-IsSoundStep}

is_admitted_of_kind :
    (id : ClientIdentity)
    → is_authenticated id.kind || is_api_token id.kind ≡ true
    → is_admitted id ≡ true
unfolding is_admitted
is_admitted_of_kind id h = ground (arith, h)

module _ {F : Type 0} (env : Env Session StoredChallenge) (parts : Parts F env) where
  open env use {S, now}
  open parts use {config, creds}

  -- The identity of the holder of a session.
  pub record IsHolder (id : ClientIdentity) (sess : Option Session) : Type 0 where
    pub x : Session
    pub session : sess ≡ some x
    pub state : x.state ≡ admitted
    pub kind : id.kind ≡ anonymous
    pub session_id : id.session_id ≡ x.session_id
    pub principal_id : id.principal_id ≡ x.session_id

  -- Why a decision lets in a request whose identity was resolved from the world `s` on.
  pub data Access (r : Request) (cost : ℤ) (s : S) (d : RequestDecision) : Type 0 where
    by_identity :
        (sess : Option Session)
        → (resolve_with_session env config creds r s).0 ≡ ok (d.identity, sess)
        → Grounds env config creds r s d.identity sess
        → is_authenticated d.identity.kind || is_api_token d.identity.kind ≡ true
        → (rl : RateLimitResult)
        → IsPassed env parts r cost d.identity (resolve_with_session env config creds r s).1 rl
        → Access r cost s d
    by_session :
        (client : ClientIdentity) (held : Option Session)
        → (resolve_with_session env config creds r s).0 ≡ ok (client, held)
        → IsHeld env config creds r s held
        → (sess : Session) (s₁ : S)
        → Origin env parts r cost client held (resolve_with_session env config creds r s).1 sess s₁
        → (cur : Session) (s₂ : S) → Decides env config sess true s₁ cur s₂
        → terminal cur (now s₁).0 ≡ none
        → Reason env config cur s₂ d.session
        → IsHolder d.identity d.session
        → Access r cost s d

  -- The outcome admits nobody without access.
  abbrev IsSoundOutcome : Request → ℤ → S → Outcome → Type 0
  IsSoundOutcome r cost s out =
      out.error ≡ none → out.decision.admission.allowed ≡ true → Access r cost s out.decision

  attach_challenge-allowed :
      (d : RequestDecision) (seen : List Notice) (s : S)
      → d.admission.allowed ≡ false
      → (attach_challenge env parts d seen s).0.decision.admission.allowed ≡ false
  unfolding attach_challenge
  attach_challenge-allowed d seen s h = ground (arith, h)

  attach_challenge-IsSoundOutcome :
      (r : Request) (cost : ℤ) (s₀ : S) (d : RequestDecision) (seen : List Notice) (s : S)
      → d.admission.allowed ≡ false
      → IsSoundOutcome r cost s₀ (attach_challenge env parts d seen s).0
  attach_challenge-IsSoundOutcome r cost s₀ d seen s h clean allowed =
      absurd (ground (arith, allowed, attach_challenge-allowed d seen s h))

  -- The identity that a decision is given names the holder of its session.
  as_anonymous-IsHolder :
      (d : RequestDecision)
      → HoldsAdmitted d.session
      → IsHolder (as_anonymous env parts d).identity d.session
  as_anonymous-IsHolder d h = from d.session refl h
    where
      from :
          (o : Option Session)
          → d.session ≡ o
          → HoldsAdmitted o
          → IsHolder (as_anonymous env parts d).identity d.session
      from none e h = absurd h
      from (some x) e h = record {
        x = x;
        session = e;
        state = h;
        kind = ground (arith, e);
        session_id = ground (arith, e);
        principal_id = ground (arith, e);
      }

  admit-IsSoundOutcome :
      (id client : ClientIdentity) (held : Option Session) (sess : Session) (rl : RateLimitResult)
      (r : Request) (cost : ℤ) (s₀ s : S)
      → (resolve_with_session env config creds r s₀).0 ≡ ok (client, held)
      → IsHeld env config creds r s₀ held
      → Origin env parts r cost client held (resolve_with_session env config creds r s₀).1 sess s
      → IsSoundOutcome r cost s₀ (admit env parts id sess rl s).0
  unfolding admit
  admit-IsSoundOutcome id client held sess rl r cost s₀ s named shown origin =
      let answer = evaluate env config (some sess) true s in
      let dec = answer.0.0 in
      let d : RequestDecision = record {
        identity = id;
        admission = dec;
        session = dec.session;
        challenge = none;
        rate_limit = some rl;
      } in
      let seen =
        if same_state dec.state waiting then wait_room_queued dec.retry_after ∷ [] else [] in
      let P : Outcome × S → Type 0 = λ x. IsSoundOutcome r cost s₀ x.0 in
      option_either P answer.0.1 _ _
        (λ _.
          if_either P dec.allowed
            (succeeds (as_anonymous env parts d) (request_admitted anonymous ∷ []), answer.1)
            (attach_challenge env parts d seen answer.1)
            (λ a _ _.
              let (grant, cur, s', decides, live, reason) =
                evaluate-IsGrant env config sess true s a in
              by_session client held named shown sess s origin cur s' decides live reason
                (as_anonymous-IsHolder d grant.holder))
            (λ a. attach_challenge-IsSoundOutcome r cost s₀ d seen answer.1 a))
        (λ e _ clean. absurd (ground arith))

  admit_step-IsSoundOutcome :
      (client : ClientIdentity) (held : Option Session) (r : Request) (cost : ℤ) (s₀ : S)
      (step : Step × S)
      → (resolve_with_session env config creds r s₀).0 ≡ ok (client, held)
      → IsHeld env config creds r s₀ held
      → IsSoundStep env parts r cost client held (resolve_with_session env config creds r s₀).1 step
      → IsSoundOutcome r cost s₀ (admit_step env parts step.0 step.1).0
  unfolding admit_step
  admit_step-IsSoundOutcome client held r cost s₀ (stop out, s) named shown h =
      λ clean. absurd (h clean)
  admit_step-IsSoundOutcome client held r cost s₀ (go id sess rl, s) named shown h =
      admit-IsSoundOutcome id client held sess rl r cost s₀ s named shown h

  authorize_principal-IsSoundOutcome :
      (id : ClientIdentity) (sess : Option Session) (r : Request) (cost : ℤ) (s₀ : S)
      → (resolve_with_session env config creds r s₀).0 ≡ ok (id, sess)
      → IsGrounded env config creds r s₀ (ok (id, sess))
      → is_authenticated id.kind || is_api_token id.kind ≡ true
      → IsSoundOutcome r cost s₀
          (authorize_principal env parts id r cost (resolve_with_session env config creds r s₀).1).0
  unfolding authorize_principal
  authorize_principal-IsSoundOutcome id sess r cost s₀ named h b =
      let s = (resolve_with_session env config creds r s₀).1 in
      let answer = allow_rate_limit env parts id (operation_of env parts r) cost s in
      option_either {B = Outcome × S} (λ x. IsSoundOutcome r cost s₀ x.0) answer.0.1 _ _
        (λ passed _ _.
          by_identity sess named (h.0 (is_admitted_of_kind id b)) b answer.0.0
            (ground (arith, passed)))
        (λ e _ clean. absurd (ground arith))

  authorize_through-IsSoundOutcome :
      (r : Request) (cost : ℤ) (s : S)
      → IsSoundOutcome r cost s (authorize_through env parts r cost s).0
  unfolding authorize_through
  authorize_through-IsSoundOutcome r cost s =
      let P : Outcome × S → Type 0 = λ x. IsSoundOutcome r cost s x.0 in
      let (x, s₁) = resolve_with_session env config creds r s in
      let h = resolve_with_session-IsGrounded env config creds r s in
      result_either P x _ _ (λ e _ clean. absurd (ground arith))
        (λ (id, sess) e.
          let g = subst (IsGrounded env config creds r s) e h in
          if_either P (is_authenticated id.kind || is_api_token id.kind) _ _
            (λ b. authorize_principal-IsSoundOutcome id sess r cost s e g b)
            (λ _.
              admit_step-IsSoundOutcome id sess r cost s (find_session env parts id sess r cost s₁)
                e g.1 (find_session-IsSoundStep env parts id sess r cost s₁)))

  -- A request that is authorized without an error, and let in, has access: on an engine that is not
  -- stopping, through the circuit breaker.
  pub authorize_request-Access :
      (r : Request) (cost : ℤ) (e e' : EngineState S) (d : RequestDecision)
      → authorize_request env parts r cost e ≡ ((d, none), e')
      → d.admission.allowed ≡ true
      → (is_stopping e ≡ false)
        × ((CircuitBreaker.allow (now e.world).0 e.breaker).0 ≡ ok tt)
        × Access r cost (now e.world).1 d
  unfolding authorize_request
  authorize_request-Access r cost e e' d h allowed = elim (Bool-cases (is_stopping e)) [
    | inl a ↦ absurd (ground (arith, a, h))
    | inr a ↦ elim (Result-cases (CircuitBreaker.allow (now e.world).0 e.breaker).0) [
      | inr (x, b) ↦ absurd (ground (arith, a, b, h))
      | inl (u, b) ↦
          let out = (authorize_through env parts r cost (now e.world).1).0 in
          let clean : out.error ≡ none = ground (arith, a, b, h) in
          let told : out.decision ≡ d = ground (arith, a, b, h) in
          let sound = authorize_through-IsSoundOutcome r cost (now e.world).1 clean in
          (
            a,
            ground (arith, b),
            subst (Access r cost (now e.world).1) told (sound (rw told allowed)),
          )
    ]
  ]
