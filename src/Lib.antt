-- ===== src/Lib.antt =====
-- onionguard: a guard in front of a Go web service. A new visitor gets a session, waits in a wait room,
-- solves a challenge, and is then let in; rate limits and a circuit breaker protect the store behind.
--
-- The parts and their files:
-- - store/memory.go, the store in memory: Store/Memory (state, limits of keys and values), Store/Memory/Room
--   (expiry and eviction), Store/Memory/Entries (Get, Set, Delete, GetDel, SetNX, CompareAndDelete,
--   CompareAndTouch, Touch), Store/Memory/Counters (IncrementWithTTL), Store/Memory/Buckets (ConsumeToken),
--   Store/Memory/Reservations (ReserveSession, ReleaseSession, MoveSessionReservation and the counts of the
--   namespaces), Store/Memory/Operations (the tick of janitor, Close, and sequences of calls). A method
--   holds the mutex, so it is one function from the state to a result and the next state. The time that it
--   reads and the error of its context are arguments. Get lets its lock go between its two halves, which
--   are functions of their own. Store/Memory/View is what a client sees of the entries: a value for each
--   key until its deadline, and Store/Spec what store/store.go promises of the atomic operations.
-- - store/redis.go, the store in Redis: Store/Redis (the commands of the server and the client, which are
--   parameters, and the limits of keys and values), Store/Redis/Scripts (the Lua scripts, over the commands),
--   Store/Redis/Operations (the methods), Store/Redis/Options (NewRedisStore), Store/Redis/Calls (the methods
--   as calls). What is assumed of Redis and its client stands in the records Laws of Store/Redis/Laws and
--   SetLaws of Store/Redis/Members: how GET, DEL, PEXPIRE and the commands of sorted sets change the data,
--   and that a script that replies ran in one go.
-- - circuit_breaker.go: CircuitBreaker. Calls come in any order, and `observed` is what the callback saw.
--   Execute is told what other goroutines do with the breaker while its function runs without the mutex.
-- - lock.go: Lock, the lock of a session, over SetNX and CompareAndDelete of the store.
-- - session.go: Session, and Session/Rotate (RotateSession, RevokeSessionWithClock).
-- - admission.go: Admission/States (IsLegalTransition), Admission (handleNewClient and the reservations),
--   Admission/Evaluate (Evaluate, EvaluateFresh, handleWaitElapsed), Admission/Transition.
-- - challenge.go and randomCaptchaAnswer of captcha.go: Challenge (Issue, Get), Challenge/Answer (Validate).
-- - renderCaptchaPNG of captcha.go: Captcha (the letters, as the squares that are painted), with the table
--   Captcha/Glyphs, and Captcha/Line (drawLine); the random numbers come from a parameter.
-- - ratelimit.go: RateLimit (Allow).
-- - errors.go and the errors of store/store.go: Errors, Errors/ClientSafe (ClientSafeError).
-- - config.go: Config, the fields that the other files read for each request; Settings, the whole
--   configuration with the checks of Validate; Settings/Default (DefaultConfig).
-- - identity.go: Identity (ClientIdentity and its keys for the rate limiter), Identity/Token (where a token
--   is looked for), Identity/Resolve (the resolver, from a request or from strings).
-- - onionguard.go: Engine (authorizeRequest from the resolution of an identity to the decision),
--   Engine/Operations (the state of an engine and its methods, with the circuit breaker around them),
--   Engine/Build (New). SessionCookie is in Http.
-- - middleware/http.go: Http (requests, responses, cookies, errors), Http/Redirect (sanitizeRedirectTarget),
--   Http/Challenge (the endpoint of the challenge), Http/Serve (Middleware).
-- - middleware/fiber/fiber.go: Fiber.
-- - security.go: Headers. waitroom.go and clock.go: Patience (WaitRemaining, WaitSatisfied, TestClock).
--
-- A request goes through Http/Serve to Engine/Operations; there the breaker lets it through, the resolver
-- names the client, the rate limiter is asked, and the admission engine decides on the session. The calls
-- of an engine come one after the other: `world` is what they share, and whatever else happens meanwhile is
-- part of the environment. An engine counts its calls in flight; what ends them while Shutdown waits is a
-- parameter.
--
-- Sessions, locks, admission and challenges run in an environment (Env): a world with the operations of
-- the store, the clocks, randomness and the JSON codec. Every operation takes the world to the next one, so
-- other goroutines may act and time may pass in any of them. Nothing is assumed of an environment but what
-- a theorem names: Lock/Wait needs a wall clock that is not turned back. The rate limiter has a smaller
-- environment of its own (Limiter), which an engine makes out of its parts. SHA-256, strconv, the
-- arithmetic of float64, the normal form of an answer, the lower case of text outside ASCII, the validator
-- of tokens and, for a challenge, the finished image are parameters.
--
-- Numbers: a time is its nanoseconds since Go's zero time, a duration an integer of nanoseconds; Sub
-- saturates as Go's does, and sums of int64 wrap around where the code does not bound them. Maps are
-- association lists; the order of a list stands for the order of a range over the map.
--
-- Fuel: the loop of acquireLock has 2001 units. A round takes at least one millisecond and the loop ends
-- two seconds after it began, so that the fuel never runs out. The loop of drawLine gets one round more
-- than the sum of the two distances between the coordinates, which is enough since every round comes nearer.
--
-- Not modelled: PoolStats of the store in Redis; the colours, waves and noise of the image; HTML pages and
-- the hooks that replace them; ScrubSecrets, String methods, values in a context, nil receivers, accessors;
-- the programs under examples; and the goroutine of withSessionLock that prolongs a lock while it is held.
pub mod Base
pub mod Errors
pub mod Store
pub mod CircuitBreaker
pub mod Config
pub mod Env
pub mod Session
pub mod Lock
pub mod Admission
pub mod Captcha
pub mod Challenge
pub mod RateLimit
pub mod Identity
pub mod Settings
pub mod Engine
pub mod Patience
pub mod Headers
pub mod Http
pub mod Fiber
pub mod Tests
