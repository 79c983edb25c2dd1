-- ===== src/Errors/ClientSafe.antt =====
-- errors.go: `ClientSafeError`, which tells a client what became of its request.
use onionguard.Base.{
  ℕ, ◌≤◌, ◌≡◌, refl, ap, Bool, true, false, ◌||◌, Option, none, some, pos, Bytes, codes, arith,
  if◌then◌else◌, List, [], ◌∷◌,
}
use mathlib.Core.Path.{fun_ext}
use onionguard.Errors.{
  Sentinel, AdmissionInfo, Err, sentinel, foreign, admission, is, rate_limited,
  wait_time_not_elapsed, payload_too_large, invalid_token, session_expired, session_revoked,
  invalid_session, challenge_expired, challenge_not_found, challenge_invalid, max_attempts_exceeded,
  capacity_exceeded, store_unavailable, lock_unavailable, store_closed, circuit_open,
  invalid_transition,
}

abbrev pub is_any : (Sentinel → Bool) → List Sentinel → Bool
is_any is_it [] = false
is_any is_it (t ∷ ts) = is_it t || is_any is_it ts

abbrev pub info : ℕ → Bytes → Bytes → AdmissionInfo
info status_code code message = record {
  status_code = status_code;
  code = code;
  message = message;
  retry_after = pos 0;
}

-- The `switch` of `ClientSafeError`, on the test of the error against a sentinel.
abbrev pub told_as : (Sentinel → Bool) → AdmissionInfo
told_as is_it =
    if is_it rate_limited
    then info 429 (codes "RATE_LIMITED") (codes "Too many requests. Please slow down.")
    else if is_it wait_time_not_elapsed
    then info 429 (codes "WAIT_ROOM") (codes "Proof of patience in progress. Please wait.")
    else if is_it payload_too_large
    then info 413 (codes "PAYLOAD_TOO_LARGE") (codes "Request entity too large.")
    else if is_it invalid_token
    then info 401 (codes "UNAUTHORIZED") (codes "Invalid or unauthorized credentials.")
    else if is_any is_it (session_expired ∷ session_revoked ∷ invalid_session ∷ [])
    then info 403 (codes "SESSION_INVALID")
        (codes "Session invalid or expired. Admission required.")
    else if is_any is_it
        (challenge_expired ∷ challenge_not_found ∷ challenge_invalid ∷ max_attempts_exceeded ∷ [])
    then info 403 (codes "CHALLENGE_FAILED") (codes "Challenge verification failed.")
    else if is_any is_it (
        capacity_exceeded ∷ store_unavailable ∷ lock_unavailable ∷ store_closed ∷ circuit_open ∷ [])
    then info 503 (codes "SERVICE_UNAVAILABLE")
        (codes "Service temporarily unavailable. Please retry later.")
    else if is_it invalid_transition
    then info 400 (codes "INVALID_TRANSITION") (codes "Invalid admission transition request.")
    else info 500 (codes "INTERNAL_ERROR") (codes "An unexpected error occurred.")

unfoldable pub told : Err → AdmissionInfo
told e = told_as (is e)

-- `ClientSafeError`; `none` is nil. An `*AdmissionError` (`errors.As`) is handed on as it is.
unfoldable pub client_safe_error : Option Err → Option Err
unfolding told
client_safe_error none = none
client_safe_error (some (admission i cause)) = some (admission i cause)
client_safe_error (some e) = some (admission (told e) e)

-- What ClientSafeError tells of an error that is no *AdmissionError depends only on which sentinels
-- the error is: two errors that are the same sentinels are told with the same status, code, message
-- and delay.
pub told_alike : (e f : Err) → ((t : Sentinel) → is e t ≡ is f t) → told e ≡ told f
unfolding told
told_alike e f h = ap told_as (fun_ext h)

told-status : (e : Err) → (400 ≤ (told e).status_code) × ((told e).status_code ≤ 503)
unfolding told
told-status e = ground arith

-- An `*AdmissionError`.
abbrev pub is_admission : Err → Bool
is_admission (admission i e) = true
is_admission _ = false

-- ClientSafeError tells an error that is no *AdmissionError as one with a status from 400 to 503
-- and the error as its cause, which errors.Is finds to be every sentinel that the error is, and no
-- other.
pub client_safe_error-shape :
    (e : Err)
    → is_admission e ≡ false
    → (i : AdmissionInfo) × (client_safe_error (some e) ≡ some (admission i e))
      × (400 ≤ i.status_code)
      × (i.status_code ≤ 503)
      × ((t : Sentinel) → is (admission i e) t ≡ is e t)
unfolding client_safe_error
client_safe_error-shape (sentinel s) h =
    let (low, high) = told-status (sentinel s) in (told (sentinel s), refl, low, high, λ t. refl)
client_safe_error-shape (foreign n) h =
    let (low, high) = told-status (foreign n) in (told (foreign n), refl, low, high, λ t. refl)
client_safe_error-shape (admission i e) h = absurd (ground arith)
