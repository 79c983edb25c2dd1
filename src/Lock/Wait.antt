-- ===== src/Lock/Wait.antt =====
-- lock.go: how long the loop of `acquireLock` waits.
use onionguard.Base.{
  ℕ, zero, suc, ◌+◌, ◌-◌, ◌*◌, ◌≤◌, ◌<◌, ◌≡◌, ◌≢◌, inl, inr, none, pos, Bytes, arith, ◌^◌, min,
  Option-cases,
}
use native.Mathlib.Nat.{pow-suc}
use onionguard.Base.Time.{Time, Duration, millisecond, second}
use onionguard.Env.{Env}
use onionguard.Session.{Session}
use onionguard.Lock.{backoff_cap, calculate_backoff_delay, attempt_lock, lock_loop, lock_fuel}

two_pow_pos : (n : ℕ) → 1 ≤ 2 ^ n
two_pow_pos zero = omega arith
two_pow_pos (suc n) = omega (arith, pow-suc 2 n, two_pow_pos n)

-- The cap on a delay is between 4 and 50 ms, whatever the number of the attempt.
pub backoff_cap_bounds :
    (attempt : ℕ)
    → (4 * millisecond ≤ backoff_cap attempt) × (backoff_cap attempt ≤ 50 * millisecond)
unfolding backoff_cap
backoff_cap_bounds attempt = (omega (arith, two_pow_pos (min attempt 6)), omega arith)

-- What is assumed of the wall clock: it is read between two values of it, no operation turns it back,
-- and a sleep that is not cut short lasts as long as it was asked to.
pub record IsWallClock {C : Type 0} (env : Env Session C) (wall : env.S → Time) : Type 0 where
  pub read :
      (s : env.S) → (wall s ≤ (env.wall_now s).0) × ((env.wall_now s).0 ≤ wall (env.wall_now s).1)
  pub ctx_err : (s : env.S) → wall s ≤ wall (env.ctx_err s).1
  pub set_nx :
      (key value : Bytes) (ttl : Duration) (s : env.S)
      → wall s ≤ wall (env.set_nx key value ttl s).1
  pub random_below : (n : ℕ) (s : env.S) → wall s ≤ wall (env.random_below n s).1
  pub sleep :
      (d : ℕ) (s : env.S)
      → (env.sleep (pos d) s).0 ≡ none
      → wall s + d ≤ wall (env.sleep (pos d) s).1

module _ {C : Type 0} (env : Env Session C) (wall : env.S → Time)
    (laws : IsWallClock env wall) where
  -- A delay is at least 1 ms.
  delay_lem :
      (attempt : ℕ) (s : env.S)
      → let r = calculate_backoff_delay env attempt s in (millisecond ≤ r.0) × (wall s ≤ wall r.1)
  unfolding calculate_backoff_delay
  delay_lem attempt s = ground (
    arith,
    laws.random_below (backoff_cap attempt - millisecond + 1) s,
    backoff_cap_bounds attempt,
  )

  -- A round that asks for another one began before the deadline, and took at least 1 ms.
  attempt_lem :
      (key owner : Bytes) (ttl : Duration) (deadline : Time) (attempt : ℕ) (s : env.S)
      → let r = attempt_lock env key owner ttl deadline attempt s in
        r.0 ≡ none → (wall s < deadline) × (wall s + millisecond ≤ wall r.1)
  unfolding attempt_lock
  attempt_lem key owner ttl deadline attempt s again =
      let s₁ = (env.wall_now s).1 in
      let s₂ = (env.ctx_err s₁).1 in
      let s₃ = (env.set_nx key owner ttl s₂).1 in
      let d = calculate_backoff_delay env attempt s₃ in
      ground (
        arith,
        laws.read s,
        laws.ctx_err s₁,
        laws.set_nx key owner ttl s₂,
        delay_lem attempt s₃,
        laws.sleep d.0 d.1,
      )

  -- The loop returns before the fuel runs out, if there is a unit of it for each millisecond up to the
  -- deadline, and one more.
  lock_loop-total :
      (fuel : ℕ) (key owner : Bytes) (ttl : Duration) (deadline : Time) (attempt : ℕ) (s : env.S)
      → deadline ≤ wall s + fuel * millisecond
      → (lock_loop env (suc fuel) key owner ttl deadline attempt s).0 ≢ none
  unfolding lock_loop
  lock_loop-total zero key owner ttl deadline attempt s h =
      elim (Option-cases (attempt_lock env key owner ttl deadline attempt s).0) [
        | inl e ↦ absurd (omega (arith, attempt_lem key owner ttl deadline attempt s e))
        | inr (a, e) ↦ ground (arith, e)
      ]
  lock_loop-total (suc fuel) key owner ttl deadline attempt s h =
      let r = attempt_lock env key owner ttl deadline attempt s in
      elim (Option-cases r.0) [
        | inl e ↦
            let later = attempt_lem key owner ttl deadline attempt s e in
            let rest =
              lock_loop-total fuel key owner ttl deadline (suc attempt) r.1
                (omega (arith, later)) in
            rw (e, lock_loop) rest
        | inr (a, e) ↦ ground (arith, e)
      ]

  -- With a wall clock that is never turned back, and sleeps that last as long as asked, the loop of
  -- acquireLock, whose deadline is two seconds after a reading of the clock, always returns within
  -- 2001 rounds.
  pub acquire_lock-fuel :
      (key owner : Bytes) (ttl : Duration) (s : env.S)
      → let (t, s') = env.wall_now s in
        (lock_loop env lock_fuel key owner ttl (t + 2 * second) 0 s').0 ≢ none
  acquire_lock-fuel key owner ttl s =
      lock_loop-total 2000 key owner ttl ((env.wall_now s).0 + 2 * second) 0 (env.wall_now s).1
        (omega (arith, laws.read s))
