-- ===== src/Identity/Keys.antt =====
-- The buckets of the rate limiter are kept apart by the kind of the client.
use onionguard.Base.{
  ℕ, ◌≡◌, refl, sym, ap, ◌∙◌, if_either, [], ◌∷◌, ◌++◌, Bytes, codes, same, arith,
}
use onionguard.Session.{
  IdentityKind, authenticated, api_token, anonymous, anonymous_new, other_kind,
}
use onionguard.Identity.{ClientIdentity, rate_limit_key_of, rate_limit_key}

-- The kinds that the program declares, in its order; zero for any other.
abbrev pub tier : IdentityKind → ℕ
tier authenticated = 1
tier api_token = 2
tier anonymous = 3
tier anonymous_new = 4
tier (other_kind n) = 0

-- The second and the fifth byte of a key tell the kind.
mark : Bytes → ℕ × ℕ
mark (_ ∷ b ∷ _ ∷ _ ∷ e ∷ _) = (b, e)
mark _ = (0, 0)

marks : IdentityKind → ℕ × ℕ
marks authenticated = (b'u', b':')
marks api_token = (b'o', b'n')
marks anonymous = (b'n', b':')
marks anonymous_new = (b'n', b'_')
marks (other_kind n) = (b'n', b'o')

mark-rate_limit_key_of :
    (sha256 : Bytes → Bytes) (kind : IdentityKind) (ci : ClientIdentity)
    → mark (rate_limit_key_of sha256 kind ci) ≡ marks kind
unfolding mark marks rate_limit_key_of
mark-rate_limit_key_of sha256 authenticated ci = refl
mark-rate_limit_key_of sha256 api_token ci =
    if_either (λ b. mark b ≡ (b'o', b'n')) (same ci.token_hash [])
      (codes "token:" ++ ci.principal_id) (codes "token:" ++ ci.token_hash) (λ _. refl) (λ _. refl)
mark-rate_limit_key_of sha256 anonymous ci = refl
mark-rate_limit_key_of sha256 anonymous_new ci =
    if_either (λ b. mark b ≡ (b'n', b'_')) (same ci.session_id []) (codes "anon_new:global") _
      (λ _. refl) (λ _. refl)
mark-rate_limit_key_of sha256 (other_kind n) ci = refl

marks-tier : (k j : IdentityKind) → marks k ≡ marks j → tier k ≡ tier j
unfolding marks
marks-tier authenticated j h = ground arith
marks-tier api_token j h = ground arith
marks-tier anonymous j h = ground arith
marks-tier anonymous_new j h = ground arith
marks-tier (other_kind n) j h = ground arith

-- Clients of different kinds never share a bucket of the rate limiter: two identities with the same
-- RateLimitKey are of the same declared kind, or both of an undeclared one.
pub rate_limit_key-tier :
    (sha256 : Bytes → Bytes) (a b : ClientIdentity)
    → rate_limit_key sha256 a ≡ rate_limit_key sha256 b
    → tier a.kind ≡ tier b.kind
rate_limit_key-tier sha256 a b h = marks-tier a.kind b.kind (
    sym (mark-rate_limit_key_of sha256 a.kind a)
    ∙ (ap mark h ∙ mark-rate_limit_key_of sha256 b.kind b))
