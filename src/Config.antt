-- ===== src/Config.antt =====
-- config.go: the settings that the code reads for each request. Those that only the construction of the
-- engine reads are in Settings.
use onionguard.Base.{Bool, ℤ, Bytes}
use onionguard.Base.Time.{Duration}

pub record WaitRoomConfig : Type 0 where
  pub enabled : Bool
  pub wait_time : Duration

pub record CaptchaConfig : Type 0 where
  pub enabled : Bool
  pub length : ℤ
  pub ttl : Duration
  pub max_attempts : ℤ
  pub width : ℤ
  pub height : ℤ
  pub alphabet : Bytes
  pub endpoint_path : Bytes

pub record Config : Type 0 where
  pub wait_room : WaitRoomConfig
  pub captcha : CaptchaConfig
  pub session_ttl : Duration
  pub max_renewals : ℤ
  pub max_concurrent_sessions : ℤ
  pub session_absolute_lifetime : Duration
  pub max_value_bytes : ℤ
  pub session_cookie_name : Bytes
  pub cookie_secure : Bool
  pub cookie_http_only : Bool
  pub cookie_path : Bytes
  pub cookie_domain : Bytes
  pub max_body_bytes : ℤ
  pub max_token_bytes : ℤ
  pub max_cookie_name_bytes : ℤ
  pub max_cookie_value_bytes : ℤ
  pub max_principal_id_bytes : ℤ
  pub max_challenge_id_bytes : ℤ
  pub max_store_key_bytes : ℤ
  pub allow_url_token : Bool
  pub api_token_header : Bytes
  pub api_token_prefix : Bytes
