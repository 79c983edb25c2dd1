-- ===== src/Settings/Default.antt =====
-- config.go: `DefaultConfig`.
use onionguard.Base.{ℕ, ◌*◌, true, false, some, [], pos, codes}
use onionguard.Base.Time.{second, minute}
use onionguard.CircuitBreaker.{default_circuit_breaker_config}
use onionguard.RateLimit.{
  RateLimitScope, RateLimitRule, anonymous, authenticated, api_token, challenge, first_contact,
}
use onionguard.Settings.{Settings, memory, preserve}

-- The rate and the burst of a scope.
abbrev rates : RateLimitScope → ℕ × ℕ
rates anonymous = (20, 50)
rates authenticated = (50, 100)
rates api_token = (100, 200)
rates challenge = (5, 10)
rates first_contact = (100, 200)

abbrev default_rule : {F : Type 0} → (ℕ → F) → RateLimitScope → RateLimitRule F
default_rule float scope = record {
  rate = float (rates scope).0;
  burst = pos (rates scope).1;
  cost = pos 1;
  window = pos minute;
}

-- `float` makes a float64 of a natural number.
unfoldable pub default_settings : {F : Type 0} → (ℕ → F) → Settings F
default_settings float = record {
  has_store = false;
  store_config = record {
    type = memory;
    limits = record {
      max_entries = pos 10000;
      max_key_bytes = pos 256;
      max_value_bytes = pos 65536;
      cleanup_interval = pos (30 * second);
    };
    redis_addr = [];
    redis_sentinel_addrs = [];
    redis_cluster_addrs = [];
    redis_pool_size = pos 0;
    redis_min_idle_conns = pos 0;
    redis_max_retries = pos 3;
    redis_read_timeout = pos (2 * second);
    redis_write_timeout = pos (2 * second);
    redis_pool_timeout = pos 0;
  };
  config = record {
    wait_room = record { enabled = true; wait_time = pos (5 * second) };
    captcha = record {
      enabled = true;
      length = pos 5;
      ttl = pos (3 * minute);
      max_attempts = pos 3;
      width = pos 160;
      height = pos 60;
      alphabet = codes "ABCDEFGHJKLMNPQRSTUVWXYZ23456789";
      endpoint_path = codes "/onionguard/challenge";
    };
    session_ttl = pos (24 * 60 * minute);
    max_renewals = pos 10;
    max_concurrent_sessions = pos 10000;
    session_absolute_lifetime = pos (7 * 24 * 60 * minute);
    max_value_bytes = pos 65536;
    session_cookie_name = codes "onionguard_session";
    cookie_secure = false;
    cookie_http_only = true;
    cookie_path = codes "/";
    cookie_domain = [];
    max_body_bytes = pos 102400;
    max_token_bytes = pos 4096;
    max_cookie_name_bytes = pos 64;
    max_cookie_value_bytes = pos 4096;
    max_principal_id_bytes = pos 256;
    max_challenge_id_bytes = pos 128;
    max_store_key_bytes = pos 256;
    allow_url_token = false;
    api_token_header = codes "Authorization";
    api_token_prefix = codes "Bearer ";
  };
  rate_limit = record {
    enabled = true;
    limits = λ scope. some (default_rule float scope);
    redis_fail_closed = true;
  };
  security_headers = record {
    policy = preserve;
    content_security_policy =
        codes
          "default-src 'none'; img-src data:; style-src 'unsafe-inline'; form-action 'self'; base-uri 'none'; frame-ancestors 'none'";
    x_content_type_options = codes "nosniff";
    x_frame_options = codes "DENY";
    referrer_policy = codes "no-referrer";
  };
  circuit_breaker = default_circuit_breaker_config;
}
