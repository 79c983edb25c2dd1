-- ===== src/Lock.antt =====
-- lock.go: the per-session lock. The goroutine of `withSessionLock` that renews the lock's time to live
-- while `fn` runs is not modelled: it only touches the lock's own key, through `CompareAndTouch`.
pub mod Wait
pub mod Held
use onionguard.Base.{
  ℕ, zero, suc, ◌+◌, ◌-◌, ◌*◌, ◌%◌, ◌^◌, min, leb, ltb, Bool, true, false, not, Option, none, some,
  ◌++◌, pos, Bytes, codes, if◌then◌else◌,
}
use onionguard.Base.Time.{Time, Duration, millisecond, second, before}
use onionguard.Errors.{Err, Result, ok, err, fail, store_closed, lock_unavailable}
use onionguard.Env.{Env}
use onionguard.Session.{Session, session_key}

abbrev pub admission_lock_ttl : Duration
admission_lock_ttl = pos 10000000000

-- The delays of `calculateBackoffDelay`: 4 ms doubled up to 64 times, at most 50 ms.
unfoldable pub backoff_cap : ℕ → ℕ
backoff_cap attempt = min (4 * millisecond * 2 ^ min attempt 6) (50 * millisecond)

-- A round waits at least 1 ms and the loop ends after 2 s.
abbrev pub lock_fuel : ℕ
lock_fuel = 2001

abbrev pub lock_key : Bytes → Bytes
lock_key session_id = codes "lock:" ++ session_key session_id

module _ {C : Type 0} (env : Env Session C) where
  open env use {
    S, has_store, has_deleter, wall_now, sleep, ctx_err, set_nx, compare_and_delete,
    lock_owner_token, random_below,
  }

  unfoldable pub calculate_backoff_delay : ℕ → S → ℕ × S
  unfolding backoff_cap
  calculate_backoff_delay attempt s =
      let limit = backoff_cap attempt - millisecond in
      if not (ltb 0 limit)
      then (millisecond, s)
      else (let (r, s') = random_below (limit + 1) s in
          (
            elim r [ err _ ↦ millisecond + attempt % 10 * millisecond | ok n ↦ millisecond + n ],
            s',
          ))

  -- What a round does once `SetNX` has answered. The result `none` asks for another round.
  unfoldable pub after_claim : Bytes → ℕ → Result Bool → S → Option (Result Bytes) × S
  after_claim owner attempt (err e) s = (some (err e), s)
  after_claim owner attempt (ok true) s = (some (ok owner), s)
  after_claim owner attempt (ok false) s =
      let (delay, s₁) = calculate_backoff_delay attempt s in
      let (done, s₂) = sleep (pos delay) s₁ in
      elim done [ none ↦ (none, s₂) | some e ↦ (some (err e), s₂) ]

  -- One round of the loop of `acquireLock`.
  unfoldable pub attempt_lock : Bytes → Bytes → Duration → Time → ℕ → S → Option (Result Bytes) × S
  unfolding after_claim
  attempt_lock key owner ttl deadline attempt s =
      let (t, s₁) = wall_now s in
      if before t deadline
      then (let (cancelled, s₂) = ctx_err s₁ in
          elim cancelled [
            | some e ↦ (some (err e), s₂)
            | none ↦ let (r, s₃) = set_nx key owner ttl s₂ in after_claim owner attempt r s₃
          ])
      else (some (fail lock_unavailable), s₁)

  -- The loop, on fuel; `none` means that the fuel ran out.
  unfoldable pub lock_loop : ℕ → Bytes → Bytes → Duration → Time → ℕ → S → Option (Result Bytes) × S
  lock_loop zero key owner ttl deadline attempt s = (none, s)
  lock_loop (suc fuel) key owner ttl deadline attempt s =
      let (r, s') = attempt_lock key owner ttl deadline attempt s in
      elim r [
        | some answer ↦ (some answer, s')
        | none ↦ lock_loop fuel key owner ttl deadline (suc attempt) s'
      ]

  unfoldable pub acquire_lock : Bytes → Duration → S → Result Bytes × S
  unfolding lock_loop
  acquire_lock key ttl s =
      if not has_store
      then (fail store_closed, s)
      else (let (token, s₁) = lock_owner_token s in
          elim token [
            | err e ↦ (err e, s₁)
            | ok owner ↦
                let (t, s₂) = wall_now s₁ in
                let (r, s₃) = lock_loop lock_fuel key owner ttl (t + 2 * second) 0 s₂ in
                (elim r [ none ↦ fail lock_unavailable | some answer ↦ answer ], s₃)
          ])

  unfoldable pub release_lock : Bytes → Bytes → S → Option Err × S
  release_lock key owner s =
      if not has_deleter
      then (some (Err.sentinel lock_unavailable), s)
      else (let (r, s') = compare_and_delete key owner s in
          (elim r [ err e ↦ some e | ok _ ↦ none ], s'))

  -- `fn` runs with the lock held, and the lock is let go whatever it returns.
  unfoldable pub with_session_lock : {A : Type 0} → Bytes → (S → Result A × S) → S → Result A × S
  with_session_lock session_id fn s =
      let (r, s₁) = acquire_lock (lock_key session_id) admission_lock_ttl s in
      elim r [
        | err e ↦ (err e, s₁)
        | ok owner ↦
            let (answer, s₂) = fn s₁ in (answer, (release_lock (lock_key session_id) owner s₂).1)
      ]
