-- ===== src/Store/Redis/Errors.antt =====
-- store/redis.go: the errors that the methods of RedisStore tell.
use onionguard.Base.{
  ◌==◌, ◌||◌, not, is_pos, Bool, true, false, Option, none, [], ◌∷◌, ℤ, pos, Bytes, length, refl,
  if◌then◌else◌, if_either,
}
use onionguard.Base.Time.{Time, Duration, is_zero}
use onionguard.Errors.{Err, Result, ok, fail, not_found, store_closed, invalid_value}
use onionguard.Store.Memory.Buckets.{Float}
use onionguard.Store.Redis.{
  Server, Client, RedisStore, Value, nothing, scalar, array, int64, int, float64, text, raw,
  boolean, validate_key,
}
use onionguard.Store.Redis.Scripts.{Lua}
use onionguard.Store.Redis.Operations
use onionguard.Store.Redis.Operations.{
  checked, answered, answer, counted, as_bytes, consumed, decided, validate_ttl, is_one, as_int,
}
use onionguard.Store.Redis.Calls.{
  Call, perform, ping, get, get_del, delete, set, set_nx, compare_and_touch, compare_and_delete,
  increment_with_ttl, touch, consume_token, reserve_session, release_session,
  move_session_reservation,
}
use onionguard.Store.Redis.Told.{
  of_store, TellsOnly, MayTell, is_told, or_else-MayTell, validate_key-MayTell, validate-MayTell,
  entry-MayTell, key_ttl-MayTell, answered-TellsOnly, counted-TellsOnly, asked-TellsOnly,
  counted_asked-TellsOnly,
}

module _ {F N : Type 0} {server : Server} (float : Float F) (parse_int : Bytes → ℤ) (lua : Lua F N)
    (client : Client F server) (r : RedisStore) where
  open client use {W, ctx_err}

  abbrev ended : W → Option Err
  ended w = (ctx_err w).0

  as_bytes-TellsOnly : (o : Option Err) (v : Value F) → TellsOnly o (as_bytes client v)
  unfolding as_bytes is_told
  as_bytes-TellsOnly o nothing = of_store not_found refl
  as_bytes-TellsOnly o (scalar (boolean false)) = of_store not_found refl
  as_bytes-TellsOnly o (scalar (boolean true)) = of_store invalid_value refl
  as_bytes-TellsOnly o (scalar (text x)) = tt
  as_bytes-TellsOnly o (scalar (raw x)) = tt
  as_bytes-TellsOnly o (scalar (int64 x)) = of_store invalid_value refl
  as_bytes-TellsOnly o (scalar (int x)) = of_store invalid_value refl
  as_bytes-TellsOnly o (scalar (float64 x)) = of_store invalid_value refl
  as_bytes-TellsOnly o (array x) = of_store invalid_value refl

  not_found-TellsOnly :
      (o : Option Err) (b : Bool) → TellsOnly {A = Unit {0}} o (if b then ok tt else fail not_found)
  unfolding is_told
  not_found-TellsOnly o true = tt
  not_found-TellsOnly o false = of_store not_found refl

  decided-TellsOnly :
      (o : Option Err) (b : Bool) (n : ℤ) → TellsOnly o (decided float parse_int lua client b n)
  decided-TellsOnly o true n = tt
  decided-TellsOnly o false n = tt

  consumed-TellsOnly :
      (o : Option Err) (v : Value F) → TellsOnly o (consumed float parse_int lua client v)
  unfolding consumed is_told
  consumed-TellsOnly o nothing = of_store invalid_value refl
  consumed-TellsOnly o (scalar x) = of_store invalid_value refl
  consumed-TellsOnly o (array []) = of_store invalid_value refl
  consumed-TellsOnly o (array (x ∷ [])) = of_store invalid_value refl
  consumed-TellsOnly o (array (x ∷ y ∷ [])) =
      decided-TellsOnly o _ (as_int float parse_int lua client y)
  consumed-TellsOnly o (array (x ∷ y ∷ z ∷ zs)) = of_store invalid_value refl

  consume_token-TellsOnly :
      (key : Bytes) (rate : F) (burst cost : ℤ) (ttl : Duration) (now : Time) (w : W)
      → TellsOnly
          (ended w)
          (Operations.consume_token float parse_int lua client r key rate burst cost ttl now w).0
  unfolding Operations.consume_token is_told
  consume_token-TellsOnly key rate burst cost ttl now w =
      asked-TellsOnly client r _ (consumed float parse_int lua client) _ w
        (or_else-MayTell client r (ended w) (validate_key r key) _
          (validate_key-MayTell client r (ended w) key)
          (if_either (MayTell (ended w))
            (float.at_most rate (float.of_int (pos 0))
              || (not (is_pos burst) || (not (is_pos cost) || not (is_pos ttl))))
            _ _ (λ _. of_store invalid_value refl) (λ _. tt)))
        (consumed-TellsOnly (ended w))

  -- For the methods that do not ask the context.
  closed-TellsOnly :
      {A : Type 0} (o : Option Err) (out : Result A × W)
      → TellsOnly o out.0
      → (w : W) → TellsOnly o (if r.closed then (fail store_closed, w) else out).0
  unfolding is_told
  closed-TellsOnly {A} o out h w =
      if_either (λ (x : Result A × W). TellsOnly o x.0) r.closed _ _
        (λ _. of_store store_closed refl) (λ _. h)

  reserve_session-TellsOnly :
      (namespace id : Bytes) (limit : ℤ) (at : Time) (w : W)
      → TellsOnly (ended w) (Operations.reserve_session client r namespace id limit at w).0
  unfolding Operations.reserve_session is_told
  reserve_session-TellsOnly namespace id limit at w =
      closed-TellsOnly (ended w) _
        (if_either (λ (x : Result Bool × W). TellsOnly (ended w) x.0)
          (length namespace == 0 || (length id == 0 || (not (is_pos limit) || is_zero at))) _ _
          (λ _. of_store invalid_value refl)
          (λ _.
            answered-TellsOnly client r (ended w) (counted client (λ n. ok (is_one n))) _
              (λ v. counted-TellsOnly client r (ended w) _ v (λ _. tt)) w))
        w

  release_session-TellsOnly :
      (namespace id : Bytes) (w : W)
      → TellsOnly (ended w) (Operations.release_session client r namespace id w).0
  unfolding Operations.release_session
  release_session-TellsOnly namespace id w =
      closed-TellsOnly (ended w) _
        (answered-TellsOnly client r (ended w) (λ _. ok tt) _ (λ _. tt) w) w

  move-TellsOnly :
      (namespace old_id new_id : Bytes) (at : Time) (w : W)
      → TellsOnly
          (ended w)
          (Operations.move_session_reservation client r namespace old_id new_id at w).0
  unfolding Operations.move_session_reservation
  move-TellsOnly namespace old_id new_id at w =
      closed-TellsOnly (ended w) _
        (answered-TellsOnly client r (ended w) (counted client _) _
          (λ v.
            counted-TellsOnly client r (ended w) _ v
              (λ n. not_found-TellsOnly (ended w) (is_one n)))
          w)
        w

  -- Whatever the server and its client answer, an error of a method of the store in Redis other
  -- than Close is the one of the context, or ErrStoreClosed, ErrKeyTooLarge, ErrValueTooLarge,
  -- ErrInvalidTTL, ErrInvalidValue, ErrNotFound or ErrStoreUnavailable.
  pub perform-MayTell :
      (c : Call F) (w : W) → MayTell (ended w) (perform float parse_int lua client r c w).0
  unfolding perform Operations.ping Operations.get Operations.get_del Operations.delete
      Operations.set Operations.set_nx Operations.compare_and_touch Operations.compare_and_delete
      Operations.increment_with_ttl Operations.touch
  perform-MayTell ping w = asked-TellsOnly client r none ok _ w tt (λ _. tt)
  perform-MayTell (get key) w =
      asked-TellsOnly client r _ ok _ w (validate_key-MayTell client r (ended w) key) (λ _. tt)
  perform-MayTell (get_del key) w =
      asked-TellsOnly client r _ (as_bytes client) _ w (validate_key-MayTell client r (ended w) key)
        (as_bytes-TellsOnly (ended w))
  perform-MayTell (delete key) w =
      asked-TellsOnly client r _ (λ _. ok tt) _ w (validate_key-MayTell client r (ended w) key)
        (λ _. tt)
  perform-MayTell (set key value ttl) w =
      asked-TellsOnly client r _ ok _ w (entry-MayTell client r (ended w) key value ttl) (λ _. tt)
  perform-MayTell (set_nx key value ttl) w =
      asked-TellsOnly client r _ ok _ w (entry-MayTell client r (ended w) key value ttl) (λ _. tt)
  perform-MayTell (compare_and_touch key value ttl) w =
      counted_asked-TellsOnly client r _ (λ n. ok (is_one n)) _ w
        (entry-MayTell client r (ended w) key value ttl) (λ _. tt)
  perform-MayTell (compare_and_delete key value) w =
      counted_asked-TellsOnly client r _ (λ n. ok (is_one n)) _ w
        (validate-MayTell client r (ended w) key value) (λ _. tt)
  perform-MayTell (increment_with_ttl key delta ttl) w =
      counted_asked-TellsOnly client r _ ok _ w (key_ttl-MayTell client r (ended w) key ttl)
        (λ _. tt)
  perform-MayTell (touch key ttl) w =
      asked-TellsOnly client r _ _ _ w (key_ttl-MayTell client r (ended w) key ttl)
        (not_found-TellsOnly (ended w))
  perform-MayTell (consume_token key rate burst cost ttl now) w =
      consume_token-TellsOnly key rate burst cost ttl now w
  perform-MayTell (reserve_session namespace id limit at) w =
      reserve_session-TellsOnly namespace id limit at w
  perform-MayTell (release_session namespace id) w = release_session-TellsOnly namespace id w
  perform-MayTell (move_session_reservation namespace old_id new_id at) w =
      move-TellsOnly namespace old_id new_id at w
