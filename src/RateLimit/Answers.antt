-- ===== src/RateLimit/Answers.antt =====
-- What the answers of `RateLimiter.Allow` mean.
use onionguard.Base.{
  ◌≡◌, inl, inr, Bool, true, false, not, Option, none, some, ℤ, is_pos, Bytes, arith, if◌then◌else◌,
  if_either, Bool-cases, Option-cases,
}
use onionguard.Base.Time.{Duration}
use onionguard.Errors.{Err, Result, ok, err, Result-cases}
use onionguard.RateLimit.{
  RateLimitScope, RateLimitRule, RateLimitConfig, RateLimitResult, Client, Limiter, scope_of,
  bucket_key, on_error, on_tokens, on_count, apply_rule, allow,
}

abbrev pub is_nil : Option Err → Bool
is_nil none = true
is_nil (some e) = false

abbrev Agrees : RateLimitResult × Option Err → Type 0
Agrees a = a.0.allowed ≡ is_nil a.1

module _ {F : Type 0} (limiter : Limiter F) (cfg : RateLimitConfig F) where
  on_error-Agrees : (scope : RateLimitScope) (e : Err) → Agrees (on_error limiter cfg scope e)
  unfolding on_error
  on_error-Agrees scope e = ground arith

  on_tokens-Agrees :
      (scope : RateLimitScope) (r : Result (Bool × Duration))
      → Agrees (on_tokens limiter cfg scope r)
  on_tokens-Agrees scope (err e) = on_error-Agrees scope e
  on_tokens-Agrees scope (ok (true, w)) = ground arith
  on_tokens-Agrees scope (ok (false, w)) = ground arith

  on_count-Agrees :
      (scope : RateLimitScope) (rule : RateLimitRule F) (r : Result ℤ)
      → Agrees (on_count limiter cfg scope rule r)
  on_count-Agrees scope rule (err e) = on_error-Agrees scope e
  on_count-Agrees scope rule (ok v) = ground arith

  apply_rule-Agrees :
      (id : Client) (operation : Bytes) (override : ℤ) (rule : RateLimitRule F) (s : limiter.S)
      → Agrees (apply_rule limiter cfg id operation override rule s).0
  unfolding apply_rule
  apply_rule-Agrees id operation override rule s =
      let (t, s₁) = limiter.now s in
      let scope = scope_of limiter cfg id operation in
      let key = bucket_key limiter cfg id operation in
      let cost = if is_pos override then override else rule.cost in
      if_either (λ (a : (RateLimitResult × Option Err) × limiter.S). Agrees a.0)
        (not limiter.has_store) _ _ (λ _. ground arith)
        (λ _.
          if_either (λ (a : (RateLimitResult × Option Err) × limiter.S). Agrees a.0)
            limiter.bucketed _ _
            (λ _.
              on_tokens-Agrees scope
                (limiter.consume_token key rule.rate rule.burst cost rule.window t s₁).0)
            (λ _.
              on_count-Agrees scope rule (limiter.increment_with_ttl key cost rule.window s₁).0))

  allow-Agrees :
      (id : Client) (operation : Bytes) (override : ℤ) (s : limiter.S)
      → Agrees (allow limiter cfg id operation override s).0
  unfolding allow
  allow-Agrees id operation override s = elim (Bool-cases cfg.enabled) [
    | inr e ↦ ground (arith, e)
    | inl e ↦ elim (Option-cases (cfg.limits (scope_of limiter cfg id operation))) [
      | inl f ↦ ground (arith, e, f)
      | inr (rule, f) ↦ ground (arith, e, f, apply_rule-Agrees id operation override rule s)
    ]
  ]

  -- A request is allowed exactly when Allow of the rate limiter returns no error.
  pub allow-is_nil :
      (id : Client) (operation : Bytes) (override : ℤ) (s : limiter.S)
      → (allow limiter cfg id operation override s).0.0.allowed
        ≡ is_nil (allow limiter cfg id operation override s).0.1
  allow-is_nil id operation override s = allow-Agrees id operation override s

  -- Where the limiter is enabled, has a rule for the scope and fails closed over a store of token
  -- buckets, a request is allowed only if the store took its cost from its bucket.
  pub allow-consumed :
      (id : Client) (operation : Bytes) (override : ℤ) (rule : RateLimitRule F) (s : limiter.S)
      → cfg.enabled ≡ true
      → cfg.redis_fail_closed ≡ true
      → limiter.bucketed ≡ true
      → cfg.limits (scope_of limiter cfg id operation) ≡ some rule
      → (allow limiter cfg id operation override s).0.0.allowed ≡ true
      → (wait : Duration) × ((limiter.consume_token
            (bucket_key limiter cfg id operation)
            rule.rate
            rule.burst
            (if is_pos override then override else rule.cost)
            rule.window
            (limiter.now s).0
            (limiter.now s).1).0
          ≡ ok (true, wait))
  unfolding allow apply_rule on_error
  allow-consumed id operation override rule s on closed_ tokens found h =
      let key = bucket_key limiter cfg id operation in
      let cost = if is_pos override then override else rule.cost in
      let (t, s₁) = limiter.now s in
      elim (Result-cases (limiter.consume_token key rule.rate rule.burst cost rule.window t s₁).0) [
        | inr (e, r) ↦ absurd (ground (arith, r))
        | inl ((true, wait), r) ↦ (wait, r)
        | inl ((false, wait), r) ↦ absurd (ground (arith, r))
      ]
