-- ===== src/Store/Redis/Calls.antt =====
-- store/redis.go: the methods of RedisStore as calls, and what a closed store answers to them.
use onionguard.Base.{true, Option, none, some, ℤ, Bytes, ◌≡◌, arith, ap}
use onionguard.Base.Time.{Time, Duration}
use onionguard.Errors.{Err, sentinel, Result, ok, err, fail, store_closed}
use onionguard.Store.Memory.Buckets.{Float}
use onionguard.Store.Redis.{Server, Client, RedisStore}
use onionguard.Store.Redis.Scripts.{Lua}
use onionguard.Store.Redis.Operations
use onionguard.Store.Redis.Operations.{
  checked, answered, answer, counted, as_bytes, consumed, validate_ttl, is_one, as_int,
}

-- The methods of a RedisStore but Close.
pub data Call (F : Type 0) : Type 0 where
  ping : Call F
  get get_del delete : Bytes → Call F
  set set_nx compare_and_touch : Bytes → Bytes → Duration → Call F
  compare_and_delete : Bytes → Bytes → Call F
  increment_with_ttl : Bytes → ℤ → Duration → Call F
  touch : Bytes → Duration → Call F
  consume_token : Bytes → F → ℤ → ℤ → Duration → Time → Call F
  reserve_session : Bytes → Bytes → ℤ → Time → Call F
  release_session : Bytes → Bytes → Call F
  move_session_reservation : Bytes → Bytes → Bytes → Time → Call F

-- The error of a result.
abbrev pub error_of : {A : Type 0} → Result A → Option Err
error_of (ok a) = none
error_of (err e) = some e

module _ {F N : Type 0} {server : Server} (float : Float F) (parse_int : Bytes → ℤ) (lua : Lua F N)
    (client : Client F server) (r : RedisStore) where
  open client use {W, ctx_err}

  abbrev ended : W → Option Err
  ended w = (ctx_err w).0

  abbrev outcome : {A : Type 0} → Result A × W → Option Err × W
  outcome (a, w) = (error_of a, w)

  -- The error that a call returns.
  unfoldable pub perform : Call F → W → Option Err × W
  perform ping w = outcome (Operations.ping client r w)
  perform (get key) w = outcome (Operations.get client r key w)
  perform (get_del key) w = outcome (Operations.get_del client r key w)
  perform (delete key) w = outcome (Operations.delete client r key w)
  perform (set key value ttl) w = outcome (Operations.set client r key value ttl w)
  perform (set_nx key value ttl) w = outcome (Operations.set_nx client r key value ttl w)
  perform (compare_and_touch key value ttl) w =
      outcome (Operations.compare_and_touch client r key value ttl w)
  perform (compare_and_delete key value) w =
      outcome (Operations.compare_and_delete client r key value w)
  perform (increment_with_ttl key delta ttl) w =
      outcome (Operations.increment_with_ttl client r key delta ttl w)
  perform (touch key ttl) w = outcome (Operations.touch client r key ttl w)
  perform (consume_token key rate burst cost ttl now) w =
      outcome (Operations.consume_token float parse_int lua client r key rate burst cost ttl now w)
  perform (reserve_session namespace id limit at) w =
      outcome (Operations.reserve_session client r namespace id limit at w)
  perform (release_session namespace id) w =
      outcome (Operations.release_session client r namespace id w)
  perform (move_session_reservation namespace old_id new_id at) w =
      outcome (Operations.move_session_reservation client r namespace old_id new_id at w)

  checked-closed :
      {A : Type 0} (wrong : Option Err) (go : W → Result A × W) (w : W)
      → r.closed ≡ true
      → checked client r wrong go w ≡ (fail store_closed, w)
  unfolding checked
  checked-closed wrong go w h = rw h

  -- A closed store.
  pub perform-closed :
      (c : Call F) (w : W) → r.closed ≡ true → perform c w ≡ (some (sentinel store_closed), w)
  unfolding perform Operations.ping Operations.get Operations.get_del Operations.delete
      Operations.set Operations.set_nx Operations.compare_and_touch Operations.compare_and_delete
      Operations.increment_with_ttl Operations.touch Operations.consume_token
      Operations.reserve_session Operations.release_session Operations.move_session_reservation
  perform-closed ping w h = ap outcome (checked-closed _ _ w h)
  perform-closed (get key) w h = ap outcome (checked-closed _ _ w h)
  perform-closed (get_del key) w h = ap outcome (checked-closed _ _ w h)
  perform-closed (delete key) w h = ap outcome (checked-closed _ _ w h)
  perform-closed (set key value ttl) w h = ap outcome (checked-closed _ _ w h)
  perform-closed (set_nx key value ttl) w h = ap outcome (checked-closed _ _ w h)
  perform-closed (compare_and_touch key value ttl) w h = ap outcome (checked-closed _ _ w h)
  perform-closed (compare_and_delete key value) w h = ap outcome (checked-closed _ _ w h)
  perform-closed (increment_with_ttl key delta ttl) w h = ap outcome (checked-closed _ _ w h)
  perform-closed (touch key ttl) w h = ap outcome (checked-closed _ _ w h)
  perform-closed (consume_token key rate burst cost ttl now) w h =
      ap outcome (checked-closed _ _ w h)
  perform-closed (reserve_session namespace id limit at) w h = rw h
  perform-closed (release_session namespace id) w h = rw h
  perform-closed (move_session_reservation namespace old_id new_id at) w h = rw h

module _ {F N : Type 0} {server : Server} (float : Float F) (parse_int : Bytes → ℤ) (lua : Lua F N)
    (client : Client F server) where
  open client use {W}

  close-closed : (r : RedisStore) (w : W) → (Operations.close client r w).1.closed ≡ true
  unfolding Operations.close
  close-closed r w = ground arith

  close_again :
      (r : RedisStore) (w : W) → r.closed ≡ true → Operations.close client r w ≡ (none, r, w)
  unfolding Operations.close
  close_again r w h = rw h

  -- After Close of a store in Redis, whether or not it returns an error, every other method answers
  -- ErrStoreClosed and neither asks the context nor sends anything to the server; a further Close
  -- returns nil and sends nothing.
  pub close-perform :
      (r : RedisStore) (w w' : W) (c : Call F)
      → let r' = (Operations.close client r w).1 in
        (perform float parse_int lua client r' c w' ≡ (some (sentinel store_closed), w'))
        × (Operations.close client r' w' ≡ (none, r', w'))
  close-perform r w w' c = (
    perform-closed float parse_int lua client _ c w' (close-closed r w),
    close_again _ w' (close-closed r w),
  )
