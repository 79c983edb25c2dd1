-- ===== src/Lock/Held.antt =====
-- lock.go: the answer of a call under the lock, and that of its body.
use onionguard.Base.{◌≡◌, inl, inr, Bytes, arith}
use onionguard.Errors.{Result, ok, Result-cases}
use onionguard.Env.{Env}
use onionguard.Session.{Session}
use onionguard.Lock.{acquire_lock, admission_lock_ttl, lock_key, with_session_lock}

-- A call under the lock that succeeds got the lock first, and its body ran from there.
pub with_session_lock-held :
    {C A : Type 0} (env : Env Session C) (session_id : Bytes) (fn : env.S → Result A × env.S)
    (s : env.S) (a : A)
    → (with_session_lock env session_id fn s).0 ≡ ok a
    → let got = acquire_lock env (lock_key session_id) admission_lock_ttl s in
      (owner : Bytes) × (got.0 ≡ ok owner) × ((fn got.1).0 ≡ ok a)
unfolding with_session_lock
with_session_lock-held env session_id fn s a h =
    elim (Result-cases (acquire_lock env (lock_key session_id) admission_lock_ttl s).0) [
      | inl (owner, e) ↦ (owner, e, ground (arith, e))
      | inr (x, e) ↦ absurd (ground (arith, e))
    ]

pub with_session_lock-ok :
    {C A : Type 0} (env : Env Session C) (session_id : Bytes) (fn : env.S → Result A × env.S)
    (s : env.S) (a : A)
    → (with_session_lock env session_id fn s).0 ≡ ok a
    → (s' : env.S) × ((fn s').0 ≡ ok a)
with_session_lock-ok env session_id fn s a h =
    let (owner, got, ran) = with_session_lock-held env session_id fn s a h in
    ((acquire_lock env (lock_key session_id) admission_lock_ttl s).1, ran)
