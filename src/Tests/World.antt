-- ===== src/Tests/World.antt =====
-- A world for the tests: a clock that only sleep moves, and a store that holds one session and one
-- challenge under every key, takes every write and grants every claim.
use onionguard.Base.{ℕ, ◌+◌, Bool, true, false, none, [], pos, pos_part, Bytes, codes, arith}
use onionguard.Errors.{ok}
use onionguard.Env.{Env}
use onionguard.Config.{Config}
use onionguard.Session.{Session, anonymous}
use onionguard.Lock.Wait.{IsWallClock}
use onionguard.Admission.States.{State}
use onionguard.Challenge.{StoredChallenge, Craft}

abbrev pub world : Session → StoredChallenge → Env Session StoredChallenge
world held open_ = record {
  S = ℕ;
  now = λ s. (s, s);
  wall_now = λ s. (s, s);
  sleep = λ d s. (none, s + pos_part d);
  ctx_err = λ s. (none, s);
  has_store = true;
  has_deleter = true;
  has_reservations = true;
  get = λ k s. (ok k, s);
  set = λ k v ttl s. (none, s);
  delete = λ k s. (none, s);
  set_nx = λ k v ttl s. (ok true, s);
  compare_and_delete = λ k v s. (ok true, s);
  reserve_session = λ n i limit e s. (ok true, s);
  release_session = λ n i s. (none, s);
  move_session_reservation = λ n old i e s. (none, s);
  generate_session_id = λ s. (ok (codes "BBBBBBBBBBBBBBBBBBBBBBBBBBBBBBBBBBBBBBBBBBB"), s);
  lock_owner_token = λ s. (ok (codes "owner"), s);
  random_below = λ n s. (ok 0, s);
  marshal_session = λ x. ok [];
  unmarshal_session = λ d. ok held;
  marshal_challenge = λ x. ok [];
  unmarshal_challenge = λ d. ok open_;
}

pub world-IsWallClock :
    (held : Session) (open_ : StoredChallenge) → IsWallClock (world held open_) (λ s. s)
world-IsWallClock held open_ = record {
  read = λ s. (omega arith, omega arith);
  ctx_err = λ s. omega arith;
  set_nx = λ k v ttl s. omega arith;
  random_below = λ n s. omega arith;
  sleep = λ d s h. omega arith;
}

abbrev pub test_id : Bytes
test_id = codes "AAAAAAAAAAAAAAAAAAAAAAAAAAAAAAAAAAAAAAAAAAA"

abbrev pub session_in : State → Session
session_in state = record {
  session_id = test_id;
  kind = anonymous;
  state = state;
  first_seen = 100;
  expires_at = 1000;
  absolute_expires_at = 2000;
  renewal_count = pos 0;
  max_renewals = pos 3;
  created_at = 100;
  last_seen_at = 100;
  challenge_id = codes "c";
}

abbrev pub challenge : StoredChallenge
challenge = record {
  id = codes "c";
  session_id = test_id;
  answer_hash = codes "XY";
  created_at = 100;
  expires_at = 900;
  attempts = pos 0;
  max_attempts = pos 3;
  image_data_uri = [];
}

abbrev pub craft : Craft ℕ
craft = record { sha256 = λ b. b; normalize = λ b. b; captcha_image = λ b c s. (ok [], s) }

-- A wait of fifty nanoseconds and then no challenge.
abbrev pub friction : Bool → Config
friction captcha = record {
  wait_room = record { enabled = true; wait_time = pos 50 };
  captcha = record {
    enabled = captcha;
    length = pos 5;
    ttl = pos 300;
    max_attempts = pos 3;
    width = pos 160;
    height = pos 60;
    alphabet = codes "XY";
    endpoint_path = codes "/c";
  };
  session_ttl = pos 400;
  max_renewals = pos 3;
  max_concurrent_sessions = pos 10;
  session_absolute_lifetime = pos 5000;
  max_value_bytes = pos 1000;
  session_cookie_name = codes "sid";
  cookie_secure = false;
  cookie_http_only = true;
  cookie_path = codes "/";
  cookie_domain = [];
  max_body_bytes = pos 1000;
  max_token_bytes = pos 100;
  max_cookie_name_bytes = pos 64;
  max_cookie_value_bytes = pos 100;
  max_principal_id_bytes = pos 100;
  max_challenge_id_bytes = pos 100;
  max_store_key_bytes = pos 256;
  allow_url_token = false;
  api_token_header = [];
  api_token_prefix = codes "Bearer ";
}
