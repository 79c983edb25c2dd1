-- ===== src/RateLimit.antt =====
-- ratelimit.go: `RateLimiter.Allow`. The identity of the client comes as its scope, its session id and
-- its key; SHA-256 is a parameter.
pub mod Answers
use onionguard.Base.{
  ℕ, ◌+◌, ◌/◌, ◌%◌, ◌↔◌, ◌≡◌, refl, inl, inr, Bool, true, false, ◌||◌, ◌&&◌, not, Option, none,
  some, List, [], ◌∷◌, ◌++◌, ℤ, pos, is_pos, ltb_ℤ, Bytes, codes, same, take, length, leb, arith,
  if◌then◌else◌, Bool-cases, Option-cases,
}
use onionguard.Store.Memory.Reservations.{has_prefix}
use onionguard.Base.Time.{Time, Duration}
use onionguard.Errors.{
  Err, sentinel, Result, ok, err, is, store_unavailable, store_closed, rate_limited, Result-cases,
}

-- `type RateLimitScope string`, with the names that config.go declares.
pub data RateLimitScope : Type 0 where
  anonymous authenticated api_token challenge first_contact : RateLimitScope

pub record RateLimitRule (F : Type 0) : Type 0 where
  pub rate : F
  pub burst : ℤ
  pub cost : ℤ
  pub window : Duration

-- The fields of `Config` that the limiter reads; a map is the function that looks a key up in it.
pub record RateLimitConfig (F : Type 0) : Type 0 where
  pub enabled : Bool
  pub limits : RateLimitScope → Option (RateLimitRule F)
  pub redis_fail_closed : Bool

pub record RateLimitResult : Type 0 where
  pub allowed : Bool
  pub retry_after : Duration
  pub scope : RateLimitScope

-- What `Allow` reads of a `ClientIdentity`: `RateLimitScope()`, `SessionID` and `RateLimitKey()`.
pub record Client : Type 0 where
  pub scope : RateLimitScope
  pub session_id : Bytes
  pub key : Bytes

-- The store and the clock. `bucketed` is whether the store is a `TokenBucketStore`.
pub record Limiter (F : Type 0) : Type 1 where
  pub S : Type 0
  pub has_store : Bool
  pub bucketed : Bool
  pub now : S → Time × S
  pub consume_token : Bytes → F → ℤ → ℤ → Duration → Time → S → Result (Bool × Duration) × S
  pub increment_with_ttl : Bytes → ℤ → Duration → S → Result ℤ × S
  pub sha256 : Bytes → Bytes

-- `hex.EncodeToString`
abbrev pub hex_digit : ℕ → ℕ
hex_digit n = if leb n 9 then 48 + n else 87 + n

abbrev pub hex : Bytes → Bytes
hex [] = []
hex (b ∷ bs) = hex_digit (b / 16) ∷ hex_digit (b % 16) ∷ hex bs

abbrev pub is_anonymous : RateLimitScope → Bool
is_anonymous anonymous = true
is_anonymous _ = false

abbrev pub scope_name : RateLimitScope → Bytes
scope_name anonymous = codes "anonymous"
scope_name authenticated = codes "authenticated"
scope_name api_token = codes "api_token"
scope_name challenge = codes "challenge"
scope_name first_contact = codes "first_contact"

module _ {F : Type 0} (limiter : Limiter F) (cfg : RateLimitConfig F) where
  open limiter use {S, has_store, bucketed, now, consume_token, increment_with_ttl, sha256}

  -- `op[:256]` is the whole operation where it is shorter.
  unfoldable pub hash_operation : Bytes → Bytes
  hash_operation op = hex (take 8 (sha256 (take 256 op)))

  unfoldable pub scope_of : Client → Bytes → RateLimitScope
  scope_of id operation =
      if has_prefix operation (codes "challenge:")
      then challenge
      else if is_anonymous id.scope && same id.session_id []
      then elim (cfg.limits first_contact) [ some _ ↦ first_contact | none ↦ id.scope ]
      else id.scope

  unfoldable pub bucket_key : Client → Bytes → Bytes
  bucket_key id operation =
      let key = codes "rl:" ++ scope_name (scope_of id operation) ++ codes ":" ++ id.key in
      if has_prefix operation (codes "challenge:")
      then key ++ codes ":op:" ++ hash_operation operation
      else key

  abbrev pub yes_to : RateLimitScope → RateLimitResult
  yes_to scope = record { allowed = true; retry_after = pos 0; scope = scope }

  abbrev pub no_to : RateLimitScope → Duration → RateLimitResult
  no_to scope wait = record { allowed = false; retry_after = wait; scope = scope }

  -- What an error of the store comes to.
  unfoldable pub on_error : RateLimitScope → Err → RateLimitResult × Option Err
  on_error scope e =
      if not cfg.redis_fail_closed && is e store_unavailable
      then (yes_to scope, none)
      else (no_to scope (pos 0), some e)

  abbrev pub on_tokens : RateLimitScope → Result (Bool × Duration) → RateLimitResult × Option Err
  on_tokens scope (err e) = on_error scope e
  on_tokens scope (ok (true, wait)) = (yes_to scope, none)
  on_tokens scope (ok (false, wait)) = (no_to scope wait, some (sentinel rate_limited))

  abbrev pub on_count : RateLimitScope → RateLimitRule F → Result ℤ → RateLimitResult × Option Err
  on_count scope rule (err e) = on_error scope e
  on_count scope rule (ok v) =
      if ltb_ℤ rule.burst v
      then (no_to scope rule.window, some (sentinel rate_limited))
      else (yes_to scope, none)

  -- `Allow`, with the rule found.
  unfoldable pub apply_rule :
      Client → Bytes → ℤ → RateLimitRule F → S → (RateLimitResult × Option Err) × S
  apply_rule id operation override rule s =
      let scope = scope_of id operation in
      let cost = if is_pos override then override else rule.cost in
      let key = bucket_key id operation in
      if not has_store
      then (
        if not cfg.redis_fail_closed
            then (yes_to scope, none)
            else (no_to scope (pos 0), some (sentinel store_closed)),
        s,
      )
      else (let (t, s₁) = now s in
          if bucketed
          then (let (r, s₂) = consume_token key rule.rate rule.burst cost rule.window t s₁ in
              (on_tokens scope r, s₂))
          else (let (r, s₂) = increment_with_ttl key cost rule.window s₁ in
              (on_count scope rule r, s₂)))

  -- `Allow`. The limiter is not nil.
  unfoldable pub allow : Client → Bytes → ℤ → S → (RateLimitResult × Option Err) × S
  allow id operation override s =
      if not cfg.enabled
      then ((yes_to id.scope, none), s)
      else (elim (cfg.limits (scope_of id operation)) [
        | none ↦ ((yes_to (scope_of id operation), none), s)
        | some rule ↦ apply_rule id operation override rule s
      ])
