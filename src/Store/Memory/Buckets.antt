-- ===== src/Store/Memory/Buckets.antt =====
-- store/memory.go: `ConsumeToken` and the bound of the buckets. The arithmetic on float64 is that of
-- `Float`.
use onionguard.Base.{
  ◌+◌, ◌-◌, ◌*◌, Bool, true, false, ◌||◌, not, Option, none, some, ℤ, pos, negsuc, is_pos, wrap64,
  Bytes, lookup, insert, length, if◌then◌else◌,
}
use onionguard.Base.Time.{Time, Duration, sub, add, passed, second}
use onionguard.Errors.{Err, Result, ok, err, fail, store_closed, invalid_value}
use onionguard.Store.Memory.{MemoryBucket, MemoryStore, at_least}
use onionguard.Store.Memory.Room.{expire_locked, evict_oldest_bucket}

-- The operations of float64 that `ConsumeToken` uses: `float64(n)`, `int64(x)`, `d.Seconds()`,
-- `math.Min`, `math.Ceil`, arithmetic and the order.
pub record Float (F : Type 0) : Type 0 where
  pub of_int : ℤ → F
  pub to_int : F → ℤ
  pub seconds : Duration → F
  pub min : F → F → F
  pub ceil : F → F
  pub plus : F → F → F
  pub minus : F → F → F
  pub times : F → F → F
  pub over : F → F → F
  pub less : F → F → Bool
  pub at_most : F → F → Bool

module _ {F : Type 0} where
  -- The room that `ConsumeToken` makes for a bucket.
  unfoldable pub make_bucket_room : Time → MemoryStore F → MemoryStore F
  make_bucket_room now s =
      if at_least (length s.buckets) s.cfg.max_entries
      then (let t = expire_locked now s in
          if at_least (length t.buckets) t.cfg.max_entries then evict_oldest_bucket t else t)
      else s

module _ {F : Type 0} (float : Float F) where
  -- The bucket, filled up to now, and its new deadline.
  unfoldable pub refill : F → ℤ → Duration → Time → Option (MemoryBucket F) → MemoryBucket F
  refill rate burst ttl now none = record {
    tokens = float.of_int burst;
    updated_at = now;
    expires_at = add now ttl;
  }
  refill rate burst ttl now (some b) =
      let elapsed = float.seconds (sub now b.updated_at) in
      if passed now b.expires_at
      then record { tokens = float.of_int burst; updated_at = now; expires_at = add now ttl }
      else if float.less (float.of_int (pos 0)) elapsed
      then record {
        tokens = float.min (float.of_int burst) (float.plus b.tokens (float.times elapsed rate));
        updated_at = now;
        expires_at = add now ttl;
      }
      else record b { expires_at = add now ttl }

  -- `time.Duration(waitSec) * time.Second`, with the bounds of `waitSec` before it.
  unfoldable pub wait_for : F → F → Duration
  wait_for missing rate =
      let wait = float.ceil (float.over missing rate) in
      let wait = if float.less wait (float.of_int (pos 0)) then float.of_int (pos 0) else wait in
      let most = float.of_int (pos 9223372036) in
      let wait = if float.less most wait then most else wait in
      elim (float.to_int wait) [
        | pos n ↦ wrap64 (pos (n * second))
        | negsuc n ↦ wrap64 (negsuc (n * second + (second - 1)))
      ]

  -- The end of `ConsumeToken`, with the bucket filled.
  unfoldable pub take_tokens :
      Bytes → F → ℤ → MemoryBucket F → MemoryStore F → Result (Bool × Duration) × MemoryStore F
  take_tokens key rate cost b s =
      let cost = float.of_int cost in
      if float.at_most cost b.tokens
      then (
        ok (true, pos 0),
        record s {
          buckets = insert key (record b { tokens = float.minus b.tokens cost }) s.buckets;
        },
      )
      else (
        ok (false, wait_for (float.minus cost b.tokens) rate),
        record s { buckets = insert key b s.buckets },
      )

  unfoldable pub consume_token :
      Option Err
      → Bytes
      → F
      → ℤ
      → ℤ
      → Duration
      → Time
      → MemoryStore F
      → Result (Bool × Duration) × MemoryStore F
  consume_token (some e) key rate burst cost ttl now s = (err e, s)
  consume_token none key rate burst cost ttl now s =
      if float.at_most rate (float.of_int (pos 0))
        || (not (is_pos burst) || (not (is_pos cost) || not (is_pos ttl)))
      then (fail invalid_value, s)
      else if s.closed
      then (fail store_closed, s)
      else (let b = refill rate burst ttl now (lookup key s.buckets) in
          elim (lookup key s.buckets) [
            | none ↦ take_tokens key rate cost b (make_bucket_room now s)
            | some _ ↦ take_tokens key rate cost b s
          ])
