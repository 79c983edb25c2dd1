-- ===== src/Identity/Resolve.antt =====
-- identity.go: `IdentityResolver`. A resolution returns the identity and the session that it read, or
-- an error with neither. The resolver and the request are not nil.
use onionguard.Base.{
  Bool, true, false, ◌&&◌, ◌||◌, not, Option, none, some, [], ℤ, pos, ltb_ℤ, Bytes, same, take,
  length, if◌then◌else◌,
}
use onionguard.Base.Strings.{trim_space}
use onionguard.Errors.{Err, Result, ok, err, fail, is, invalid_session, invalid_token}
use onionguard.Env.{Env}
use onionguard.Config.{Config}
use onionguard.Session.{
  Session, authenticated, api_token, anonymous, anonymous_new, is_expired, is_revoked, get_session,
  validate_session_id,
}
use onionguard.Admission.States.{admitted, same_state}
use onionguard.RateLimit.{hex}
use onionguard.Identity.{ClientIdentity, no_identity}
use onionguard.Identity.Token.{Request, extract_api_token, extract_api_token_raw}

-- `TokenValidator` and `PrincipalExtractor`, which may be missing, SHA-256, and the lower case of text
-- that is not ASCII.
pub record Credentials (S : Type 0) : Type 0 where
  pub token_validator : Option (Bytes → S → Result (Bytes × Bool) × S)
  pub principal_extractor : Option (Request → Bytes × Bool)
  pub sha256 : Bytes → Bytes
  pub unicode : Bytes → Bytes

abbrev pub Resolved : Type 0
Resolved = ClientIdentity × Option Session

-- `len(b) > limit`
abbrev pub longer : Bytes → ℤ → Bool
longer b limit = ltb_ℤ limit (pos (length b))

abbrev pub newcomer : Resolved
newcomer = (record no_identity { kind = anonymous_new }, none)

abbrev pub principal : Bytes → Resolved
principal p = (record no_identity { kind = authenticated; principal_id = p }, none)

abbrev pub token_holder : Bytes → Bytes → Resolved
token_holder hash p =
    (record no_identity { kind = api_token; principal_id = p; token_hash = hash }, none)

-- The identity of the holder of a session, and that of a session which is not admitted.
abbrev pub holder : Session → Resolved
holder sess = (
  record no_identity {
    kind = anonymous;
    principal_id = sess.session_id;
    session_id = sess.session_id;
  },
  some sess,
)

abbrev pub pending : Session → Resolved
pending sess = (
  record no_identity {
    kind = anonymous_new;
    principal_id = sess.session_id;
    session_id = sess.session_id;
  },
  some sess,
)

-- The principal that the extractor finds; empty where there is none.
abbrev pub extracted : Option (Request → Bytes × Bool) → Request → Bytes
extracted none r = []
extracted (some extract) r = let (p, found) = extract r in if found then p else []

-- `Resolve` and `ResolveRaw` return the identity alone.
abbrev pub identity_of : Result Resolved → ClientIdentity × Option Err
identity_of (err e) = (no_identity, some e)
identity_of (ok (id, _)) = (id, none)

module _ (config : Config) where
  -- `r.Cookie`; empty where there is none.
  abbrev pub cookie_value : Request → Bytes
  cookie_value r = elim (r.cookie config.session_cookie_name) [ none ↦ [] | some value ↦ value ]

  unfoldable pub resolve_principal : Bytes → Result Resolved
  resolve_principal p =
      if longer p config.max_principal_id_bytes then fail invalid_token else ok (principal p)

  -- What the answer of the validator comes to, for a token with the hash.
  abbrev pub judge_token : Bytes → Result (Bytes × Bool) → Result Resolved
  judge_token hash (err e) = fail invalid_token
  judge_token hash (ok (p, false)) = fail invalid_token
  judge_token hash (ok (p, true)) =
      if same p [] || longer p config.max_principal_id_bytes
      then fail invalid_token
      else ok (token_holder hash p)

module _ {C : Type 0} (env : Env Session C) (config : Config) (creds : Credentials env.S) where
  open env use {S, has_store, now}
  open creds use {token_validator, principal_extractor, sha256, unicode}

  unfoldable pub resolve_token : Bytes → S → Result Resolved × S
  resolve_token raw_token s =
      if longer raw_token config.max_token_bytes
      then (fail invalid_token, s)
      else (elim token_validator [
        | none ↦ (fail invalid_token, s)
        | some validate ↦
            let (r, s') = validate raw_token s in
            (judge_token config (hex (take 8 (sha256 raw_token))) r, s')
      ])

  -- A session that is admitted, not expired and not revoked makes its holder; the clock is read for
  -- an admitted one.
  unfoldable pub classify : Session → S → Resolved × S
  classify sess s =
      if same_state sess.state admitted
      then (let (t, s') = now s in
          (
            if not (is_expired sess t) && not (is_revoked sess) then holder sess else pending sess,
            s',
          ))
      else (pending sess, s)

  -- The session that a cookie of an admissible length names.
  unfoldable pub resolve_session : Bytes → S → Result Resolved × S
  resolve_session value s =
      let id = trim_space value in
      elim (validate_session_id id) [
        | some _ ↦ (ok newcomer, s)
        | none ↦
            if not has_store
            then (ok newcomer, s)
            else (let (r, s₁) = get_session env id s in
                elim r [
                  | err e ↦ (if is e invalid_session then ok newcomer else err e, s₁)
                  | ok sess ↦ let (id, s₂) = classify sess s₁ in (ok id, s₂)
                ])
      ]

  unfoldable pub resolve_cookie : Bytes → S → Result Resolved × S
  resolve_cookie value s =
      if longer value config.max_cookie_value_bytes
      then (fail invalid_session, s)
      else resolve_session value s

  unfoldable pub resolve_with_session : Request → S → Result Resolved × S
  resolve_with_session r s =
      let p = extracted principal_extractor r in
      let raw_token = extract_api_token unicode config r in
      if not (same p [])
      then (resolve_principal config p, s)
      else if not (same raw_token [])
      then resolve_token raw_token s
      else if not (same (cookie_value config r) [])
      then resolve_cookie (cookie_value config r) s
      else (ok newcomer, s)

  -- The answer of the validator, in `ResolveRawWithSession`.
  abbrev pub raw_token_answer : Bytes → Result (Bytes × Bool) → Result Resolved
  raw_token_answer raw_token (err e) = fail invalid_token
  raw_token_answer raw_token (ok (p, valid)) =
      if not valid
      then fail invalid_token
      else if same p [] || longer p config.max_principal_id_bytes
      then fail invalid_token
      else ok (
        record {
          kind = api_token;
          principal_id = p;
          session_id = [];
          token_hash = hex (take 8 (sha256 raw_token));
        },
        none,
      )

  -- The token, in `ResolveRawWithSession`.
  unfoldable pub resolve_raw_token : Bytes → S → Result Resolved × S
  resolve_raw_token raw_token s =
      if longer raw_token config.max_token_bytes
      then (fail invalid_token, s)
      else (elim token_validator [
        | none ↦ (fail invalid_token, s)
        | some validate ↦ let (r, s') = validate raw_token s in (raw_token_answer raw_token r, s')
      ])

  -- The session that was read, in `ResolveRawWithSession`; the clock is read for an admitted one.
  unfoldable pub raw_session_answer : Session → S → Resolved × S
  raw_session_answer sess s =
      let (t, s') = now s in
      if same_state sess.state admitted && (not (is_expired sess t) && not (is_revoked sess))
      then (
        (
          record {
            kind = anonymous;
            principal_id = sess.session_id;
            session_id = sess.session_id;
            token_hash = [];
          },
          some sess,
        ),
        s',
      )
      else (
        (
          record {
            kind = anonymous_new;
            principal_id = sess.session_id;
            session_id = sess.session_id;
            token_hash = [];
          },
          some sess,
        ),
        if same_state sess.state admitted then s' else s,
      )

  -- The cookie, in `ResolveRawWithSession`, where there is a store.
  unfoldable pub resolve_raw_cookie : Bytes → S → Result Resolved × S
  resolve_raw_cookie cookie_val s =
      if longer cookie_val config.max_cookie_value_bytes
      then (fail invalid_session, s)
      else (let id = trim_space cookie_val in
          elim (validate_session_id id) [
            | some _ ↦ (ok newcomer, s)
            | none ↦
                let (r, s₁) = get_session env id s in
                elim r [
                  | err e ↦ (if not (is e invalid_session) then err e else ok newcomer, s₁)
                  | ok sess ↦ let (id, s₂) = raw_session_answer sess s₁ in (ok id, s₂)
                ]
          ])

  unfoldable pub resolve_raw_with_session :
      (principal auth_header api_key_header query_token cookie_val : Bytes)
      → S
      → Result Resolved × S
  resolve_raw_with_session principal auth_header api_key_header query_token cookie_val s =
      let raw_token = extract_api_token_raw unicode config auth_header api_key_header query_token in
      if not (same principal [])
      then (
        if longer principal config.max_principal_id_bytes
            then fail invalid_token
            else ok (
              record {
                kind = authenticated;
                principal_id = principal;
                session_id = [];
                token_hash = [];
              },
              none,
            ),
        s,
      )
      else if not (same raw_token [])
      then resolve_raw_token raw_token s
      else if not (same cookie_val []) && has_store
      then resolve_raw_cookie cookie_val s
      else (ok newcomer, s)

  unfoldable pub resolve : Request → S → (ClientIdentity × Option Err) × S
  unfolding resolve_with_session
  resolve r s = let (x, s') = resolve_with_session r s in (identity_of x, s')

  unfoldable pub resolve_raw :
      (principal auth_header api_key_header query_token cookie_val : Bytes)
      → S
      → (ClientIdentity × Option Err) × S
  unfolding resolve_raw_with_session
  resolve_raw principal auth_header api_key_header query_token cookie_val s =
      let (x, s') =
        resolve_raw_with_session principal auth_header api_key_header query_token cookie_val s in
      (identity_of x, s')
