-- ===== src/Errors.antt =====
-- store/store.go (the sentinel errors) and errors.go (those of the engine, and the mapping of an
-- error to what the client is told). A wrapped error (`fmt.Errorf("%w: …", e)`) is the error that it
-- wraps, since the code only ever asks `errors.Is`.
pub mod ClientSafe
use onionguard.Base.{ℕ, ◌==◌, ◌≡◌, refl, ◌⊎◌, inl, inr, Bool, false, true, Bytes, ℤ}

-- The variables `Err…`; the aliases (`ErrWaitRequired`, `ErrChallengeFailed`) are one constructor.
pub data Sentinel : Type 0 where
  not_found capacity_exceeded key_too_large value_too_large store_closed : Sentinel
  store_unavailable invalid_ttl invalid_value lock_unavailable : Sentinel
  engine_not_initialized store_not_configured circuit_open : Sentinel
  invalid_session session_expired session_revoked wait_time_not_elapsed : Sentinel
  invalid_transition renewal_limit_reached : Sentinel
  challenge_not_found challenge_required challenge_invalid challenge_expired : Sentinel
  max_attempts_exceeded rate_limited payload_too_large invalid_token : Sentinel

-- The fields of `AdmissionError` but for its cause.
pub record AdmissionInfo : Type 0 where
  pub status_code : ℕ
  pub code : Bytes
  pub message : Bytes
  pub retry_after : ℤ

-- A non-nil error: a sentinel, an error of another package, or an `*AdmissionError` with its cause.
pub data Err : Type 0 where
  sentinel : Sentinel → Err
  foreign : ℕ → Err
  admission : AdmissionInfo → Err → Err

pub data Result {ℓ} (A : Type ℓ) : Type ℓ where
  ok : A → Result A
  err : Err → Result A

abbrev pub fail {ℓ} : {A : Type ℓ} → Sentinel → Result A
fail s = err (sentinel s)

-- Sentinels are told apart by their addresses in the program: a number for each.
abbrev pub tag : Sentinel → ℕ
tag not_found = 0
tag capacity_exceeded = 1
tag key_too_large = 2
tag value_too_large = 3
tag store_closed = 4
tag store_unavailable = 5
tag invalid_ttl = 6
tag invalid_value = 7
tag lock_unavailable = 8
tag engine_not_initialized = 9
tag store_not_configured = 10
tag circuit_open = 11
tag invalid_session = 12
tag session_expired = 13
tag session_revoked = 14
tag wait_time_not_elapsed = 15
tag invalid_transition = 16
tag renewal_limit_reached = 17
tag challenge_not_found = 18
tag challenge_required = 19
tag challenge_invalid = 20
tag challenge_expired = 21
tag max_attempts_exceeded = 22
tag rate_limited = 23
tag payload_too_large = 24
tag invalid_token = 25

-- `errors.Is(e, s)`: an `*AdmissionError` unwraps to its cause.
abbrev pub is : Err → Sentinel → Bool
is (sentinel t) s = tag t == tag s
is (foreign n) s = false
is (admission i e) s = is e s

pub Result-cases {ℓ} :
    {A : Type ℓ} (r : Result A) → ((a : A) × (r ≡ ok a)) ⊎ ((e : Err) × (r ≡ err e))
Result-cases (ok a) = inl (a, refl)
Result-cases (err e) = inr (e, refl)

-- To prove a predicate of what a match on a result returns, with the outcome at hand.
pub result_either {ℓ ℓ' κ} :
    {A : Type ℓ} {B : Type ℓ'} (P : B → Type κ) (r : Result A) (f : Err → B) (g : A → B)
    → ((e : Err) → r ≡ err e → P (f e))
    → ((a : A) → r ≡ ok a → P (g a))
    → P (elim r [ err e ↦ f e | ok a ↦ g a ])
result_either P (ok a) f g h k = k a refl
result_either P (err e) f g h k = h e refl
