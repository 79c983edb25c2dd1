-- ===== src/Store/Redis/Waits.antt =====
-- store/redis.go: the delay that ConsumeToken answers.
use onionguard.Base.{
  ◌*◌, ◌<◌, ◌≡◌, refl, Bool, true, false, [], ◌∷◌, ℤ, pos, negsuc, int64_bound, Bytes, arith, ap,
  sym, ◌∙◌, inl, inr, ℕ, ltb, Bool-cases,
}
use onionguard.Base.Time.{Time, Duration, millisecond}
use onionguard.Errors.{ok}
use onionguard.Store.Memory.Buckets.{Float}
use onionguard.Store.Redis.{Server, Client, RedisStore, Value, nothing, scalar, array}
use onionguard.Store.Redis.Scripts.{Lua}
use onionguard.Store.Redis.Operations.{consume_token, consumed, decided, retry_after, as_int}
use onionguard.Store.Redis.Laws.{checked_ok, answered_ok}

-- An answer with no delay for a request that is allowed, and a delay that an int64 holds and that is
-- not negative.
pub record IsAnswer (allowed : Bool) (delay : Duration) : Type 0 where
  pub now : allowed ≡ true → delay ≡ pos 0
  pub nanoseconds : ℕ
  pub is_delay : delay ≡ pos nanoseconds
  pub fits : nanoseconds < int64_bound

module _ {F N : Type 0} {server : Server} (float : Float F) (parse_int : Bytes → ℤ) (lua : Lua F N)
    (client : Client F server) where
  open client use {W}

  retry_after-fits :
      (n : ℤ) → (m : ℕ) × (retry_after float parse_int lua client n ≡ pos m) × (m < int64_bound)
  unfolding retry_after
  retry_after-fits (negsuc n) = (0, refl, omega arith)
  retry_after-fits (pos n) = elim (Bool-cases (ltb 9223372036854 n)) [
    | inl much ↦ (9223372036854000000, ground arith, omega arith)
    | inr little ↦ (n * millisecond, ground arith, ground arith)
  ]

  answer_of :
      (one : Bool) (retry : ℤ) (b : Bool) (d : Duration)
      → decided float parse_int lua client one retry ≡ ok (b, d)
      → IsAnswer b d
  answer_of true retry b d h = record {
    now = λ _. cc;
    nanoseconds = 0;
    is_delay = cc;
    fits = omega arith;
  }
  answer_of false retry b d h =
      let (m, e, small) = retry_after-fits retry in
      record { now = λ a. cc; nanoseconds = m; is_delay = cc; fits = small }

  consumed-IsAnswer :
      (v : Value F) (b : Bool) (d : Duration)
      → consumed float parse_int lua client v ≡ ok (b, d)
      → IsAnswer b d
  unfolding consumed
  consumed-IsAnswer nothing b d h = cc
  consumed-IsAnswer (scalar x) b d h = cc
  consumed-IsAnswer (array []) b d h = cc
  consumed-IsAnswer (array (x ∷ [])) b d h = cc
  consumed-IsAnswer (array (x ∷ y ∷ [])) b d h =
      answer_of _ (as_int float parse_int lua client y) b d h
  consumed-IsAnswer (array (x ∷ y ∷ z ∷ zs)) b d h = cc

  -- Whatever the script replies, a ConsumeToken of the store in Redis that answers without an error
  -- answers with a delay that is not negative and fits an int64, and with none for a request that
  -- it allows.
  pub consume_token-IsAnswer :
      (r : RedisStore) (key : Bytes) (rate : F) (burst cost : ℤ) (ttl : Duration) (now : Time)
      (w : W) (b : Bool) (d : Duration)
      → (consume_token float parse_int lua client r key rate burst cost ttl now w).0 ≡ ok (b, d)
      → IsAnswer b d
  unfolding consume_token
  consume_token-IsAnswer r key rate burst cost ttl now w b d h =
      let whole = checked_ok client r _ _ w (b, d) h in
      let (v, ran, told) =
        answered_ok client (consumed float parse_int lua client) _ (client.ctx_err w).1 (b, d)
          (ap (λ p. p.0) (sym whole) ∙ h) in
      consumed-IsAnswer v b d told
