-- ===== src/Store/Redis/Operations.antt =====
-- store/redis.go: the methods of RedisStore, each from the store and the world of its client to a
-- result and the next world. A method that returns only an error returns a result without a value.
use onionguard.Base.{
  ◌*◌, ◌==◌, Bool, true, false, ◌||◌, not, Option, none, some, [], ◌∷◌, ℤ, pos, negsuc, is_pos,
  ltb_ℤ, wrap64, Bytes, length, if◌then◌else◌,
}
use onionguard.Base.Time.{Time, Duration, is_zero, millisecond}
use onionguard.Errors.{
  Err, sentinel, Result, ok, err, fail, not_found, store_closed, store_unavailable, invalid_ttl,
  invalid_value,
}
use onionguard.Store.Memory.Buckets.{Float}
use onionguard.Store.Redis.{
  Server, Client, RedisStore, Reply, reply, nil_reply, failed, Scalar, Value, nothing, scalar,
  array, int64, int, float64, text, raw, boolean, or_else, validate_key, validate, full_key, ttl_ms,
  unix_milli,
}
use onionguard.Store.Redis.Scripts
use onionguard.Store.Redis.Scripts.{Lua}

-- `x == 1`
abbrev pub is_one : ℤ → Bool
is_one (pos n) = n == 1
is_one (negsuc n) = false

-- `mapErr`, for a reply and the use of its value.
unfoldable pub answer : {A B : Type 0} → (A → Result B) → Reply A → Result B
answer f (reply a) = f a
answer f nil_reply = fail not_found
answer f (failed n) = fail store_unavailable

unfoldable pub validate_ttl : Duration → Option Err
validate_ttl ttl = if is_pos ttl then none else some (sentinel invalid_ttl)

module _ {F : Type 0} {server : Server} (client : Client F server) where
  open client use {W, ctx_err, run, to_int64}

  -- The start of every method: a closed store, what is wrong with the arguments, and the context.
  unfoldable pub checked :
      {A : Type 0} → RedisStore → Option Err → (W → Result A × W) → W → Result A × W
  checked r wrong go w = if r.closed then (fail store_closed, w) else (elim wrong [
    | some e ↦ (err e, w)
    | none ↦ let (ended, w₁) = ctx_err w in elim ended [ some e ↦ (err e, w₁) | none ↦ go w₁ ]
  ])

  -- What becomes of the reply of a command.
  unfoldable pub answered : {A B : Type 0} → (A → Result B) → (W → Reply A × W) → W → Result B × W
  answered f command w = let (r, w₁) = command w in (answer f r, w₁)

  -- The count that a script replies.
  unfoldable pub counted : {B : Type 0} → (ℤ → Result B) → Value F → Result B
  counted f v = answer f (to_int64 v)

  unfoldable pub ping : RedisStore → W → Result (Unit {0}) × W
  ping r w = checked r none (answered ok client.ping) w

  unfoldable pub get : RedisStore → Bytes → W → Result Bytes × W
  get r key w = checked r (validate_key r key) (answered ok (client.get (full_key r key))) w

  unfoldable pub set : RedisStore → Bytes → Bytes → Duration → W → Result (Unit {0}) × W
  set r key value ttl w =
      checked r (or_else (validate r key value) (validate_ttl ttl))
        (answered ok (client.set (full_key r key) value ttl)) w

  unfoldable pub delete : RedisStore → Bytes → W → Result (Unit {0}) × W
  delete r key w =
      checked r (validate_key r key) (answered (λ _. ok tt) (client.del (full_key r key))) w

  -- The value that GetDel makes of a reply.
  unfoldable pub as_bytes : Value F → Result Bytes
  as_bytes nothing = fail not_found
  as_bytes (scalar (boolean false)) = fail not_found
  as_bytes (scalar (text x)) = ok x
  as_bytes (scalar (raw x)) = ok x
  as_bytes _ = fail invalid_value

  unfoldable pub get_del : RedisStore → Bytes → W → Result Bytes × W
  get_del r key w =
      checked r (validate_key r key)
        (answered as_bytes (run (Scripts.lua_get_del F server (full_key r key)))) w

  unfoldable pub set_nx : RedisStore → Bytes → Bytes → Duration → W → Result Bool × W
  set_nx r key value ttl w =
      checked r (or_else (validate r key value) (validate_ttl ttl))
        (answered ok (client.set_nx (full_key r key) value ttl)) w

  unfoldable pub increment_with_ttl : RedisStore → Bytes → ℤ → Duration → W → Result ℤ × W
  increment_with_ttl r key delta ttl w =
      checked r (or_else (validate_key r key) (validate_ttl ttl))
        (answered (counted ok)
          (run (Scripts.lua_increment_with_ttl F server (full_key r key) delta (ttl_ms ttl))))
        w

  unfoldable pub compare_and_delete : RedisStore → Bytes → Bytes → W → Result Bool × W
  compare_and_delete r key expected w =
      checked r (validate r key expected)
        (answered (counted (λ n. ok (is_one n)))
          (run (Scripts.lua_compare_and_delete F server (full_key r key) expected)))
        w

  unfoldable pub compare_and_touch : RedisStore → Bytes → Bytes → Duration → W → Result Bool × W
  compare_and_touch r key expected ttl w =
      checked r (or_else (validate r key expected) (validate_ttl ttl))
        (answered (counted (λ n. ok (is_one n)))
          (run (Scripts.lua_compare_and_touch F server (full_key r key) expected (ttl_ms ttl))))
        w

  unfoldable pub touch : RedisStore → Bytes → Duration → W → Result (Unit {0}) × W
  touch r key ttl w =
      checked r (or_else (validate_key r key) (validate_ttl ttl))
        (answered (λ done. if done then ok tt else fail not_found)
          (client.expire (full_key r key) ttl))
        w

  -- ReserveSession and the two below do not ask the context.
  unfoldable pub reserve_session : RedisStore → Bytes → Bytes → ℤ → Time → W → Result Bool × W
  reserve_session r namespace id limit expires_at w =
      if r.closed
      then (fail store_closed, w)
      else if length namespace == 0
          || (length id == 0 || (not (is_pos limit) || is_zero expires_at))
      then (fail invalid_value, w)
      else answered (counted (λ n. ok (is_one n)))
          (run (
            Scripts.lua_reserve_session F server (full_key r namespace) id (unix_milli expires_at)
              limit))
          w

  unfoldable pub release_session : RedisStore → Bytes → Bytes → W → Result (Unit {0}) × W
  release_session r namespace id w =
      if r.closed
      then (fail store_closed, w)
      else answered (λ _. ok tt) (client.zrem (full_key r namespace) id) w

  unfoldable pub move_session_reservation :
      RedisStore → Bytes → Bytes → Bytes → Time → W → Result (Unit {0}) × W
  move_session_reservation r namespace old_id new_id expires_at w =
      if r.closed
      then (fail store_closed, w)
      else answered (counted (λ n. if is_one n then ok tt else fail not_found))
          (run (
            Scripts.lua_move_session_reservation F server (full_key r namespace) old_id new_id
              (unix_milli expires_at)))
          w

  unfoldable pub close : RedisStore → W → Option Err × RedisStore × W
  close r w =
      if r.closed
      then (none, r, w)
      else (let (e, w₁) = client.close w in (e, record r { closed = true }, w₁))

-- `strconv.ParseInt` with its error dropped is `parse_int`.
module _ {F N : Type 0} {server : Server} (float : Float F) (parse_int : Bytes → ℤ) (lua : Lua F N)
    (client : Client F server) where
  open client use {W, run}

  unfoldable pub as_int : Scalar F → ℤ
  as_int (int64 n) = n
  as_int (int n) = n
  as_int (float64 x) = float.to_int x
  as_int (text s) = parse_int s
  as_int _ = pos 0

  -- `math.MaxInt64 / int64(time.Millisecond)`
  abbrev most_ms : ℤ
  most_ms = pos 9223372036854

  unfoldable pub retry_after : ℤ → Duration
  retry_after (negsuc n) = pos 0
  retry_after (pos n) =
      if ltb_ℤ most_ms (pos n)
      then wrap64 (pos (9223372036854 * millisecond))
      else wrap64 (pos (n * millisecond))

  -- The answer for a request that is allowed or not.
  abbrev pub decided : Bool → ℤ → Result (Bool × Duration)
  decided true retry = ok (true, pos 0)
  decided false retry = ok (false, retry_after retry)

  unfoldable pub consumed : Value F → Result (Bool × Duration)
  consumed (array (allowed ∷ retry ∷ [])) = decided (is_one (as_int allowed)) (as_int retry)
  consumed _ = fail invalid_value

  unfoldable pub consume_token :
      RedisStore → Bytes → F → ℤ → ℤ → Duration → Time → W → Result (Bool × Duration) × W
  consume_token r key rate burst cost ttl now w =
      let wrong =
        if float.at_most rate (float.of_int (pos 0))
          || (not (is_pos burst) || (not (is_pos cost) || not (is_pos ttl)))
        then some (sentinel invalid_value)
        else none in
      checked client r (or_else (validate_key r key) wrong)
        (answered client consumed (
          run (
            Scripts.lua_consume_token lua server (full_key r key) (unix_milli now) rate burst cost
              (ttl_ms ttl))))
        w
