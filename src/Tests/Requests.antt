-- ===== src/Tests/Requests.antt =====
-- An engine in the test world, and requests to it. The rate limiter is off; `F` is ℕ.
use onionguard.Base.{ℕ, true, false, none, some, [], pos, Bytes, codes}
use onionguard.Errors.{ok}
use onionguard.Env.{Env}
use onionguard.Session.{Session}
use onionguard.Admission.States.{State}
use onionguard.Challenge.{StoredChallenge}
use onionguard.CircuitBreaker.{CircuitBreaker, CircuitState}
use onionguard.Identity.Token.{Request}
use onionguard.Identity.Resolve.{Credentials}
use onionguard.Engine.{Parts}
use onionguard.Engine.Operations.{EngineState}
use onionguard.Http.{HttpRequest}
use onionguard.Fiber.{FiberRequest}
use onionguard.Tests.World.{world, test_id, session_in, challenge, craft, friction}

abbrev pub credentials : Credentials ℕ
credentials = record {
  token_validator = some (λ raw s. (ok (codes "robot", true), s));
  principal_extractor = none;
  sha256 = λ b. b;
  unicode = λ b. b;
}

abbrev pub env_in : State → Env Session StoredChallenge
env_in state = world (session_in state) challenge

abbrev pub parts_in : (state : State) → Parts ℕ (env_in state)
parts_in state = record {
  config = friction false;
  limits = record { enabled = false; limits = λ scope. none; redis_fail_closed = true };
  creds = credentials;
  craft = craft;
  bucketed = true;
  consume_token = λ key rate burst cost window t s. (ok (true, pos 0), s);
  increment_with_ttl = λ key delta ttl s. (ok (pos 1), s);
  pinger = some (λ s. (none, s));
  closer = some (λ s. (none, s));
}

-- A visitor who shows the cookie of the session.
abbrev pub visit : Bytes → Request
visit path = record {
  header = λ name. [];
  query = some (λ name. []);
  cookie = λ name. some test_id;
  method = codes "GET";
  path = path;
}

abbrev pub browse : Bytes → HttpRequest
browse path = record {
  base = visit path;
  form = λ name. [];
  form_error = none;
  request_uri = path;
  content_length = pos 0;
}

abbrev pub fiber_browse : Bytes → FiberRequest
fiber_browse path = record {
  http = browse path;
  body_length = pos 0;
  cookies = λ name. test_id;
  query = λ name. [];
  has_good_url = true;
}

abbrev pub breaker_in : CircuitState → CircuitBreaker
breaker_in state = record {
  cfg = record { enabled = true; failure_threshold = pos 3; cool_down = pos 50 };
  state = state;
  failures = 0;
  last_state_change = 100;
  half_open_in_flight = false;
  observed = [];
}

-- The engine at 200.
abbrev pub engine_in : CircuitState → EngineState ℕ
engine_in state = record {
  breaker = breaker_in state;
  draining = false;
  closed = false;
  in_flight = 2;
  notices = [];
  world = 200;
}
