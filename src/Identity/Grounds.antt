-- ===== src/Identity/Grounds.antt =====
-- What an identity that is let past the admission engine rests on.
use onionguard.Base.{
  ◌≡◌, refl, Bool, true, false, not, ◌&&◌, ◌||◌, take, Option, none, some, [], Bytes, same, arith,
  if_either, option_either, subst,
}
use onionguard.Base.Strings.{trim_space}
use onionguard.Errors.{Result, ok, err, is, invalid_session, result_either}
use onionguard.Env.{Env}
use onionguard.Config.{Config}
use onionguard.Session.{
  Session, authenticated, api_token, anonymous, is_expired, is_revoked, get_session,
  validate_session_id,
}
use onionguard.RateLimit.{hex}
use onionguard.Admission.States.{admitted, same_state}
use onionguard.Identity.{ClientIdentity, is_admitted}
use onionguard.Identity.Token.{Request, extract_api_token}
use onionguard.Identity.Resolve.{
  Credentials, Resolved, longer, newcomer, principal, holder, pending, token_holder,
  resolve_principal, judge_token, resolve_token, classify, resolve_session, resolve_cookie,
  extracted, cookie_value, resolve_with_session,
}

module _ {C : Type 0} (env : Env Session C) (config : Config) (creds : Credentials env.S) where
  open env use {S}

  pub data Grounds (r : Request) (s : S) (id : ClientIdentity) (sess : Option Session)
      : Type 0 where
    by_principal :
        id.kind ≡ authenticated
        → id.principal_id ≡ extracted creds.principal_extractor r
        → same id.principal_id [] ≡ false
        → longer id.principal_id config.max_principal_id_bytes ≡ false
        → Grounds r s id sess
    by_token :
        id.kind ≡ api_token
        → (validate : Bytes → S → Result (Bytes × Bool) × S) → creds.token_validator ≡ some validate
        → (validate (extract_api_token creds.unicode config r) s).0 ≡ ok (id.principal_id, true)
        → same id.principal_id [] ≡ false
        → Grounds r s id sess
    by_session :
        id.kind ≡ anonymous
        → (held : Session) → sess ≡ some held
        → id.session_id ≡ held.session_id
        → (get_session env (trim_space (cookie_value config r)) s).0 ≡ ok held
        → same_state held.state admitted ≡ true
        → is_expired held (env.now (get_session env (trim_space (cookie_value config r)) s).1).0
          ≡ false
        → is_revoked held ≡ false
        → Grounds r s id sess

  -- The session, if any, is the one that the store held under the id in the cookie.
  abbrev pub IsHeld : Request → S → Option Session → Type 0
  IsHeld r s none = Unit
  IsHeld r s (some held) = (get_session env (trim_space (cookie_value config r)) s).0 ≡ ok held

  -- The answer stands on grounds, if it admits.
  abbrev pub IsGrounded : Request → S → Result Resolved → Type 0
  IsGrounded r s (err e) = Unit
  IsGrounded r s (ok (id, sess)) = (is_admitted id ≡ true → Grounds r s id sess) × IsHeld r s sess

  resolve_principal-IsGrounded :
      (r : Request) (s : S)
      → same (extracted creds.principal_extractor r) [] ≡ false
      → IsGrounded r s (resolve_principal config (extracted creds.principal_extractor r))
  unfolding resolve_principal
  resolve_principal-IsGrounded r s h =
      if_either (IsGrounded r s)
        (longer (extracted creds.principal_extractor r) config.max_principal_id_bytes) _
        (ok (principal (extracted creds.principal_extractor r))) (λ _. tt)
        (λ short. (λ _. by_principal refl refl h short, tt))

  judge_token-IsGrounded :
      (r : Request) (validate : Bytes → S → Result (Bytes × Bool) × S) (s : S)
      → creds.token_validator ≡ some validate
      → (hash : Bytes) (answer : Result (Bytes × Bool))
      → (validate (extract_api_token creds.unicode config r) s).0 ≡ answer
      → IsGrounded r s (judge_token config hash answer)
  judge_token-IsGrounded r validate s h hash (err e) a = tt
  judge_token-IsGrounded r validate s h hash (ok (p, false)) a = tt
  judge_token-IsGrounded r validate s h hash (ok (p, true)) a =
      if_either (IsGrounded r s) (same p [] || longer p config.max_principal_id_bytes) _
        (ok (token_holder hash p)) (λ _. tt)
        (λ e. (λ _. by_token refl validate h a (ground (arith, e)), tt))

  resolve_token-IsGrounded :
      (r : Request) (s : S)
      → IsGrounded r s
          (resolve_token env config creds (extract_api_token creds.unicode config r) s).0
  unfolding resolve_token
  resolve_token-IsGrounded r s =
      if_either {A = Result Resolved × S} (λ x. IsGrounded r s x.0)
        (longer (extract_api_token creds.unicode config r) config.max_token_bytes) _ _ (λ _. tt)
        (λ _.
          option_either {B = Result Resolved × S} (λ x. IsGrounded r s x.0) creds.token_validator _
            (λ validate.
              let (a, s') = validate (extract_api_token creds.unicode config r) s in
              (
                judge_token config
                    (hex (take 8 (creds.sha256 (extract_api_token creds.unicode config r)))) a,
                s',
              ))
            (λ _. tt) (λ validate e. judge_token-IsGrounded r validate s e _ _ refl))

  newcomer-IsGrounded : (r : Request) (s : S) → IsGrounded r s (ok newcomer)
  unfolding is_admitted
  newcomer-IsGrounded r s = (λ n. absurd (ground arith), tt)

  pending-IsGrounded :
      (r : Request) (s : S) (held : Session)
      → IsHeld r s (some held)
      → IsGrounded r s (ok (pending held))
  unfolding is_admitted
  pending-IsGrounded r s held h = (λ n. absurd (ground arith), h)

  classify-IsGrounded :
      (r : Request) (s₁ : S) (held : Session)
      → (get_session env (trim_space (cookie_value config r)) s₁).0 ≡ ok held
      → let s = (get_session env (trim_space (cookie_value config r)) s₁).1 in
        IsGrounded r s₁ (ok (classify env config creds held s).0)
  unfolding classify
  classify-IsGrounded r s₁ held e =
      let s = (get_session env (trim_space (cookie_value config r)) s₁).1 in
      if_either {A = Resolved × S} (λ x. IsGrounded r s₁ (ok x.0)) (same_state held.state admitted)
        _ _
        (λ a.
          if_either (λ x. IsGrounded r s₁ (ok x))
            (not (is_expired held (env.now s).0) && not (is_revoked held)) (holder held)
            (pending held)
            (λ b.
              (λ _. by_session refl held refl refl e a (ground (arith, b)) (ground (arith, b)), e))
            (λ _. pending-IsGrounded r s₁ held e))
        (λ _. pending-IsGrounded r s₁ held e)

  resolve_session-IsGrounded :
      (r : Request) (s : S)
      → IsGrounded r s (resolve_session env config creds (cookie_value config r) s).0
  unfolding resolve_session
  resolve_session-IsGrounded r s =
      let id = trim_space (cookie_value config r) in
      option_either {B = Result Resolved × S} (λ x. IsGrounded r s x.0) (validate_session_id id) _ _
        (λ _.
          if_either {A = Result Resolved × S} (λ x. IsGrounded r s x.0) (not env.has_store)
            (ok newcomer, s) _ (λ _. newcomer-IsGrounded r s)
            (λ _.
              let found = get_session env id s in
              result_either {A = Session} {B = Result Resolved × S} (λ x. IsGrounded r s x.0)
                found.0 _ _
                (λ e _.
                  if_either {A = Result Resolved} (IsGrounded r s) (is e invalid_session)
                    (ok newcomer) (err e) (λ _. newcomer-IsGrounded r s) (λ _. tt))
                (λ held e. classify-IsGrounded r s held e)))
        (λ x _. newcomer-IsGrounded r s)

  resolve_cookie-IsGrounded :
      (r : Request) (s : S)
      → IsGrounded r s (resolve_cookie env config creds (cookie_value config r) s).0
  unfolding resolve_cookie
  resolve_cookie-IsGrounded r s =
      if_either {A = Result Resolved × S} (λ x. IsGrounded r s x.0)
        (longer (cookie_value config r) config.max_cookie_value_bytes) _ _ (λ _. tt)
        (λ _. resolve_session-IsGrounded r s)

  pub resolve_with_session-IsGrounded :
      (r : Request) (s : S) → IsGrounded r s (resolve_with_session env config creds r s).0
  unfolding resolve_with_session
  resolve_with_session-IsGrounded r s =
      let P : Result Resolved × S → Type 0 = λ x. IsGrounded r s x.0 in
      let p = extracted creds.principal_extractor r in
      let raw_token = extract_api_token creds.unicode config r in
      if_either P (not (same p [])) _ _ (λ e. resolve_principal-IsGrounded r s (ground (arith, e)))
        (λ _.
          if_either P (not (same raw_token [])) _ _ (λ _. resolve_token-IsGrounded r s)
            (λ _.
              if_either P (not (same (cookie_value config r) [])) _ _
                (λ _. resolve_cookie-IsGrounded r s) (λ _. newcomer-IsGrounded r s)))

  -- A request that is resolved to an identity that bypasses the admission engine carries the
  -- evidence for it: a principal that the extractor found, not empty and within its limit; or a
  -- token that the validator accepted for this principal, which is not empty; or a cookie that
  -- names a session which the store held, admitted, not revoked, and not expired at the time that
  -- the clock showed once the session was read.
  pub resolve_with_session-Grounds :
      (r : Request) (s s' : S) (id : ClientIdentity) (sess : Option Session)
      → resolve_with_session env config creds r s ≡ (ok (id, sess), s')
      → is_admitted id ≡ true
      → Grounds r s id sess
  resolve_with_session-Grounds r s s' id sess e admits =
      (subst (λ x. IsGrounded r s x.0) e (resolve_with_session-IsGrounded r s)).0 admits
