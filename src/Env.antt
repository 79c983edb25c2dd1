-- ===== src/Env.antt =====
-- What the session, challenge and admission code runs in: the store (the interfaces of store/store.go),
-- the clock, the randomness of session ids and the JSON codec of the values. A world `S` is the state
-- of all of these; every operation takes the world and returns the next one, so time may pass, other
-- goroutines may act and a backend may fail in any of them. The context of a request is part of the
-- world. Nothing is assumed of an environment here: theorems name the laws that they need.
use onionguard.Base.{ℕ, Bool, Option, Bytes, ℤ}
use onionguard.Base.Time.{Time, Duration}
use onionguard.Errors.{Err, Result}

pub record Env (Session Challenge : Type 0) : Type 1 where
  pub S : Type 0
  -- `clock.Now()`, and `time.Now()`, which the lock's deadline is read off.
  pub now : S → Time × S
  pub wall_now : S → Time × S
  -- `timer` and `ctx.Done()`: the error is that of a context that ends first.
  pub sleep : Duration → S → Option Err × S
  pub ctx_err : S → Option Err × S
  -- Whether there is a store, and the capabilities that it has.
  pub has_store : Bool
  pub has_deleter : Bool
  pub has_reservations : Bool
  pub get : Bytes → S → Result Bytes × S
  pub set : Bytes → Bytes → Duration → S → Option Err × S
  pub delete : Bytes → S → Option Err × S
  pub set_nx : Bytes → Bytes → Duration → S → Result Bool × S
  pub compare_and_delete : Bytes → Bytes → S → Result Bool × S
  pub reserve_session : Bytes → Bytes → ℤ → Time → S → Result Bool × S
  pub release_session : Bytes → Bytes → S → Option Err × S
  pub move_session_reservation : Bytes → Bytes → Bytes → Time → S → Option Err × S
  -- 32 and 16 random bytes in their encodings, and a random integer below the bound.
  pub generate_session_id : S → Result Bytes × S
  pub lock_owner_token : S → Result Bytes × S
  pub random_below : ℕ → S → Result ℕ × S
  pub marshal_session : Session → Result Bytes
  pub unmarshal_session : Bytes → Result Session
  pub marshal_challenge : Challenge → Result Bytes
  pub unmarshal_challenge : Bytes → Result Challenge
