-- ===== src/Settings.antt =====
-- config.go: the master configuration, its defaults and its checks; the hooks for pages, the visual
-- settings of the image and the clock are left out. `F` is float64.
pub mod Bounds
pub mod Default
use Prim.Native.String.{String}
use onionguard.Base.{
  ℕ, ◌+◌, ◌*◌, ◌==◌, Bool, true, false, ◌||◌, ◌&&◌, not, Option, none, some, List, [], ◌∷◌, ◌++◌, ℤ,
  pos, negsuc, is_pos, ltb_ℤ, Bytes, codes, same, length, if◌then◌else◌,
}
use onionguard.Base.Time.{Duration, second, minute}
use onionguard.Config.{WaitRoomConfig, CaptchaConfig, Config}
use onionguard.CircuitBreaker.{CircuitBreakerConfig, default_circuit_breaker_config}
use onionguard.RateLimit.{
  RateLimitScope, RateLimitRule, RateLimitConfig, anonymous, authenticated, api_token, challenge,
  first_contact,
}
use onionguard.Store.Memory.{MemoryConfig}

-- `type StoreType string`
pub data StoreType : Type 0 where
  memory redis unset : StoreType
  other_type : Bytes → StoreType

abbrev pub is_redis : StoreType → Bool
is_redis redis = true
is_redis _ = false

pub record StoreConfig : Type 0 where
  pub type : StoreType
  -- MaxEntries, MaxKeyBytes, MaxValueBytes and CleanupInterval, in the record that the memory store
  -- takes.
  pub limits : MemoryConfig
  pub redis_addr : Bytes
  pub redis_sentinel_addrs : List Bytes
  pub redis_cluster_addrs : List Bytes
  pub redis_pool_size : ℤ
  pub redis_min_idle_conns : ℤ
  pub redis_max_retries : ℤ
  pub redis_read_timeout : Duration
  pub redis_write_timeout : Duration
  pub redis_pool_timeout : Duration

pub data HeaderPolicy : Type 0 where
  preserve override merge : HeaderPolicy
  other_policy : ℤ → HeaderPolicy

pub record SecurityHeadersConfig : Type 0 where
  pub policy : HeaderPolicy
  pub content_security_policy : Bytes
  pub x_content_type_options : Bytes
  pub x_frame_options : Bytes
  pub referrer_policy : Bytes

-- `has_store` is whether a store comes with the configuration.
pub record Settings (F : Type 0) : Type 0 where
  pub has_store : Bool
  pub store_config : StoreConfig
  pub config : Config
  pub rate_limit : RateLimitConfig F
  pub security_headers : SecurityHeadersConfig
  pub circuit_breaker : CircuitBreakerConfig

-- The errors of `Validate`: a message, for a rule with the scope that it names.
pub data Rejection : Type 0 where
  message : String → Rejection
  rule_message : String → RateLimitScope → Rejection

-- The checks of `Validate` in their order: the first one that fails is the answer.
abbrev pub Checks : Type 0
Checks = List (Bool × Rejection)

unfoldable pub first_failure : Checks → Option Rejection
first_failure [] = none
first_failure ((bad, e) ∷ checks) = let rest = first_failure checks in if bad then some e else rest

abbrev pub is_negative : ℤ → Bool
is_negative n = ltb_ℤ n (pos 0)

-- `n <= 0 || n > limit`
abbrev pub out_of : ℕ → ℤ → Bool
out_of limit n = not (is_pos n) || ltb_ℤ (pos limit) n

abbrev pub is_empty {ℓ} : {A : Type ℓ} → List A → Bool
is_empty xs = length xs == 0

unfoldable pub store_checks : StoreConfig → Checks
store_checks c =
    (
      is_redis c.type
          && (is_empty c.redis_addr
              && (is_empty c.redis_sentinel_addrs && is_empty c.redis_cluster_addrs)),
      message
          "onionguard: redis address, sentinel addresses, or cluster addresses must not be empty",
    )
    ∷ (
      not (is_pos c.limits.max_entries),
      message "onionguard: store max entries must be greater than 0",
    )
    ∷ (
      not (is_pos c.limits.max_key_bytes),
      message "onionguard: store max key bytes must be greater than 0",
    )
    ∷ (
      not (is_pos c.limits.max_value_bytes),
      message "onionguard: store max value bytes must be greater than 0",
    )
    ∷ (
      not (is_pos c.limits.cleanup_interval),
      message "onionguard: store cleanup interval must be positive",
    )
    ∷ (is_negative c.redis_pool_size, message "onionguard: redis pool size cannot be negative")
    ∷ (
      is_negative c.redis_min_idle_conns,
      message "onionguard: redis min idle conns cannot be negative",
    )
    ∷ (is_negative c.redis_max_retries, message "onionguard: redis max retries cannot be negative")
    ∷ (
      is_negative c.redis_read_timeout,
      message "onionguard: redis read timeout cannot be negative",
    )
    ∷ (
      is_negative c.redis_write_timeout,
      message "onionguard: redis write timeout cannot be negative",
    )
    ∷ (
      is_negative c.redis_pool_timeout,
      message "onionguard: redis pool timeout cannot be negative",
    )
    ∷ []

unfoldable pub breaker_checks : CircuitBreakerConfig → Checks
breaker_checks c =
    (
      not (is_pos c.failure_threshold),
      message "onionguard: circuit breaker failure threshold must be positive",
    )
    ∷ (not (is_pos c.cool_down), message "onionguard: circuit breaker cooldown must be positive")
    ∷ []

-- `c.Captcha.EndpointPath == "" || c.Captcha.EndpointPath[0] != '/'`
abbrev pub is_relative : Bytes → Bool
is_relative [] = true
is_relative (c ∷ path) = not (c == b'/')

unfoldable pub captcha_checks : CaptchaConfig → Checks
captcha_checks c =
    (
      ltb_ℤ (pos 800) c.width || ltb_ℤ (pos 400) c.height,
      message "onionguard: captcha dimensions are too large (max 800x400)",
    )
    ∷ (
      ltb_ℤ c.length (pos 3) || ltb_ℤ (pos 16) c.length,
      message "onionguard: captcha length must be between 3 and 16",
    )
    ∷ (not (is_pos c.ttl), message "onionguard: captcha TTL must be positive")
    ∷ (not (is_pos c.max_attempts), message "onionguard: captcha max attempts must be positive")
    ∷ (
      not (is_pos c.width) || not (is_pos c.height),
      message "onionguard: captcha dimensions must be positive",
    )
    ∷ (
      ltb_ℤ (pos (length c.alphabet)) (pos 10),
      message "onionguard: captcha alphabet must contain at least 10 characters",
    )
    ∷ (
      is_relative c.endpoint_path,
      message "onionguard: challenge endpoint path must start with '/'",
    )
    ∷ []

-- The checks of one scope; `rule.Rate <= 0` is a test on float64.
unfoldable pub rule_checks :
    {F : Type 0} → (F → Bool) → RateLimitScope → Option (RateLimitRule F) → Checks
rule_checks not_positive scope none = []
rule_checks not_positive scope (some rule) =
    (not_positive rule.rate, rule_message "rate" scope)
    ∷ (not (is_pos rule.burst), rule_message "burst" scope)
    ∷ (not (is_pos rule.cost), rule_message "cost" scope)
    ∷ (not (is_pos rule.window), rule_message "window" scope)
    ∷ []

abbrev pub is_none {ℓ} : {A : Type ℓ} → Option A → Bool
is_none none = true
is_none (some a) = false

-- Go takes the scopes in any order.
unfoldable pub rate_limit_checks : {F : Type 0} → (F → Bool) → RateLimitConfig F → Checks
unfolding rule_checks
rate_limit_checks not_positive c =
    (
      is_none (c.limits anonymous)
          && (is_none (c.limits authenticated)
              && (is_none (c.limits api_token)
                  && (is_none (c.limits challenge) && is_none (c.limits first_contact)))),
      message "onionguard: rate limiting is enabled but no scope rules configured",
    )
      ∷ rule_checks not_positive anonymous (c.limits anonymous)
    ++ rule_checks not_positive authenticated (c.limits authenticated)
    ++ rule_checks not_positive api_token (c.limits api_token)
    ++ rule_checks not_positive challenge (c.limits challenge)
    ++ rule_checks not_positive first_contact (c.limits first_contact)

abbrev pub mebi : ℕ
mebi = 1024 * 1024

unfoldable pub session_checks : Config → Checks
session_checks c =
    (same c.session_cookie_name [], message "onionguard: session cookie name must not be empty")
    ∷ (
      ltb_ℤ c.max_cookie_name_bytes (pos (length c.session_cookie_name)),
      message "onionguard: session cookie name exceeds configured limit",
    )
    ∷ (not (is_pos c.session_ttl), message "onionguard: session TTL must be positive")
    ∷ (is_negative c.max_renewals, message "onionguard: max renewals cannot be negative")
    ∷ (
      not (is_pos c.max_concurrent_sessions),
      message "onionguard: max concurrent sessions must be positive",
    )
    ∷ (
      is_negative c.session_absolute_lifetime,
      message "onionguard: session absolute lifetime cannot be negative",
    )
    ∷ (
      out_of mebi c.max_token_bytes,
      message "onionguard: max token bytes must be within 1..1048576",
    )
    ∷ (
      out_of 1024 c.max_cookie_name_bytes,
      message "onionguard: max cookie name bytes must be within 1..1024",
    )
    ∷ (
      out_of mebi c.max_cookie_value_bytes,
      message "onionguard: max cookie value bytes must be within 1..1048576",
    )
    ∷ (
      out_of mebi c.max_principal_id_bytes,
      message "onionguard: max principal ID bytes must be within 1..1048576",
    )
    ∷ (
      out_of mebi c.max_challenge_id_bytes,
      message "onionguard: max challenge ID bytes must be within 1..1048576",
    )
    ∷ (
      out_of mebi c.max_store_key_bytes,
      message "onionguard: max store key bytes must be within 1..1048576",
    )
    ∷ (not (is_pos c.max_body_bytes), message "onionguard: max body bytes must be positive")
    ∷ (
      ltb_ℤ (pos (100 * mebi)) c.max_body_bytes,
      message "onionguard: max body bytes exceeds 100 MiB limit",
    )
    ∷ []

abbrev pub when : Bool → Checks → Checks
when true checks = checks
when false checks = []

module _ {F : Type 0} (not_positive : F → Bool) (c : Settings F) where
  -- The checks that come after those of the store, and after those of the circuit breaker.
  abbrev pub after_breaker : Checks
  after_breaker =
      (
        c.config.wait_room.enabled && not (is_pos c.config.wait_room.wait_time),
        message "onionguard: wait room wait time must be positive when enabled",
      )
        ∷ when c.config.captcha.enabled (captcha_checks c.config.captcha)
      ++ when c.rate_limit.enabled (rate_limit_checks not_positive c.rate_limit)
      ++ session_checks c.config

  abbrev pub after_store : Checks
  after_store = when c.circuit_breaker.enabled (breaker_checks c.circuit_breaker) ++ after_breaker

  -- `Validate`
  unfoldable pub validate_settings : Option Rejection
  unfolding first_failure store_checks breaker_checks captcha_checks rate_limit_checks
      session_checks
  validate_settings =
      first_failure (when (not c.has_store) (store_checks c.store_config) ++ after_store)
