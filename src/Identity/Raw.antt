-- ===== src/Identity/Raw.antt =====
-- The two forms of the resolver agree.
use onionguard.Base.{
  ◌≡◌, refl, [], true, false, Bool, none, some, inl, inr, take, Bytes, arith, Option-cases,
  if◌then◌else◌,
}
use onionguard.Base.Strings.{trim_space}
use onionguard.Errors.{Result, ok, err, fail, invalid_token, Result-cases}
use onionguard.Env.{Env}
use onionguard.Config.{Config}
use onionguard.RateLimit.{hex}
use onionguard.Session.{Session, get_session, validate_session_id}
use onionguard.Identity.Token.{Request, header_name, query_token, extract_api_token}
use onionguard.Identity.Resolve.{
  Credentials, longer, extracted, cookie_value, judge_token, resolve_principal, resolve_token,
  classify, resolve_session, resolve_cookie, raw_token_answer, resolve_raw_token,
  raw_session_answer, resolve_raw_cookie, resolve_with_session, resolve_raw_with_session,
}

module _ {C : Type 0} (env : Env Session C) (config : Config) (creds : Credentials env.S) where
  raw_token_answer-judge :
      (raw_token : Bytes) (r : Result (Bytes × Bool))
      → raw_token_answer env config creds raw_token r
        ≡ judge_token config (hex (take 8 (creds.sha256 raw_token))) r
  raw_token_answer-judge raw_token (err e) = refl
  raw_token_answer-judge raw_token (ok (p, true)) = refl
  raw_token_answer-judge raw_token (ok (p, false)) = refl

  resolve_raw_token-resolve :
      (raw_token : Bytes) (s : env.S)
      → resolve_raw_token env config creds raw_token s ≡ resolve_token env config creds raw_token s
  unfolding resolve_raw_token resolve_token
  resolve_raw_token-resolve raw_token s = λ i.
      if longer raw_token config.max_token_bytes
      then (fail invalid_token, s)
      else (elim creds.token_validator [
        | none ↦ (fail invalid_token, s)
        | some validate ↦
            let (r, s') = validate raw_token s in (raw_token_answer-judge raw_token r i, s')
      ])

  raw_session_answer-classify :
      (sess : Session) (s : env.S)
      → raw_session_answer env config creds sess s ≡ classify env config creds sess s
  unfolding raw_session_answer classify
  raw_session_answer-classify sess s = ground arith

  resolve_raw_cookie-resolve :
      (value : Bytes) (s : env.S)
      → env.has_store ≡ true
      → resolve_raw_cookie env config creds value s ≡ resolve_cookie env config creds value s
  unfolding resolve_raw_cookie resolve_cookie resolve_session
  resolve_raw_cookie-resolve value s h =
      elim (Option-cases (validate_session_id (trim_space value))) [
        | inr (x, a) ↦ ground (arith, a)
        | inl a ↦ elim (Result-cases (get_session env (trim_space value) s).0) [
          | inr (e, b) ↦ ground (arith, h, a, b)
          | inl (sess, b) ↦
              let s₁ = (get_session env (trim_space value) s).1 in
              ground (arith, h, a, b, raw_session_answer-classify sess s₁)
        ]
      ]

  -- Where there is a store, ResolveRawWithSession, given the principal, the header, the query token
  -- and the cookie of a request, resolves it as ResolveWithSession does.
  pub resolve_raw-resolve :
      (r : Request) (s : env.S)
      → env.has_store ≡ true
      → resolve_raw_with_session env config creds
          (extracted creds.principal_extractor r)
          (r.header (header_name config))
          []
          (query_token config r)
          (cookie_value config r)
          s
        ≡ resolve_with_session env config creds r s
  unfolding resolve_raw_with_session resolve_with_session resolve_principal extract_api_token
  resolve_raw-resolve r s h = ground (
    arith,
    h,
    resolve_raw_token-resolve (extract_api_token creds.unicode config r) s,
    resolve_raw_cookie-resolve (cookie_value config r) s h,
  )
