-- ===== src/Identity.antt =====
-- identity.go: the identity of a client and what the rate limiter reads of it; `MaskSessionID` of
-- session.go. SHA-256 is a parameter.
pub mod Token
pub mod Resolve
pub mod Grounds
pub mod Raw
pub mod Keys
use onionguard.Base.{
  Bool, true, false, ◌||◌, List, [], ◌++◌, ℤ, pos, Bytes, codes, same, take, if◌then◌else◌,
}
use onionguard.Session.{
  IdentityKind, authenticated, api_token, anonymous, anonymous_new, other_kind,
}
use onionguard.RateLimit
use onionguard.RateLimit.{RateLimitScope, Client, hex}

pub record ClientIdentity : Type 0 where
  pub kind : IdentityKind
  pub principal_id : Bytes
  pub token_hash : Bytes
  pub session_id : Bytes

-- `ClientIdentity{}`
abbrev pub no_identity : ClientIdentity
no_identity = record {
  kind = other_kind (pos 0);
  principal_id = [];
  token_hash = [];
  session_id = [];
}

abbrev pub is_authenticated : IdentityKind → Bool
is_authenticated authenticated = true
is_authenticated _ = false

abbrev pub is_api_token : IdentityKind → Bool
is_api_token api_token = true
is_api_token _ = false

abbrev pub is_anonymous : IdentityKind → Bool
is_anonymous anonymous = true
is_anonymous _ = false

unfoldable pub is_admitted : ClientIdentity → Bool
is_admitted ci = is_authenticated ci.kind || (is_api_token ci.kind || is_anonymous ci.kind)

module _ (sha256 : Bytes → Bytes) where
  unfoldable pub mask_session_id : Bytes → Bytes
  mask_session_id id =
      if same id [] then codes "[NONE]" else codes "sid:" ++ hex (take 8 (sha256 id))

  -- `RateLimitKey`, by the kind.
  unfoldable pub rate_limit_key_of : IdentityKind → ClientIdentity → Bytes
  unfolding mask_session_id
  rate_limit_key_of authenticated ci = codes "auth:" ++ ci.principal_id
  rate_limit_key_of api_token ci =
      if same ci.token_hash []
      then codes "token:" ++ ci.principal_id
      else codes "token:" ++ ci.token_hash
  rate_limit_key_of anonymous ci = codes "anon:" ++ mask_session_id ci.session_id
  rate_limit_key_of anonymous_new ci =
      if same ci.session_id []
      then codes "anon_new:global"
      else codes "anon_new:" ++ mask_session_id ci.session_id
  rate_limit_key_of (other_kind n) ci = codes "unknown:global"

  abbrev pub rate_limit_key : ClientIdentity → Bytes
  rate_limit_key ci = rate_limit_key_of ci.kind ci

-- `RateLimitScope`, by the kind.
abbrev pub rate_limit_scope : IdentityKind → RateLimitScope
rate_limit_scope authenticated = RateLimit.authenticated
rate_limit_scope api_token = RateLimit.api_token
rate_limit_scope _ = RateLimit.anonymous

-- What the rate limiter reads of an identity.
abbrev pub client_of : (Bytes → Bytes) → ClientIdentity → Client
client_of sha256 ci = record {
  scope = rate_limit_scope ci.kind;
  session_id = ci.session_id;
  key = rate_limit_key sha256 ci;
}
