-- ===== src/Store/Memory.antt =====
-- store/memory.go: the state of a MemoryStore and its entry operations. Each method runs under the
-- store's mutex, so it is one function from the state to a result and the next state; `now` is what
-- `nowLocked` reads, and `ctx` is `ctx.Err()`. Receivers are not nil. Values are immutable here, so
-- the copies that the code takes of them are the values.
pub mod Room
pub mod Entries
pub mod Counters
pub mod Operations
pub mod History
pub mod Buckets
pub mod BucketLimits
pub mod Bounds
pub mod Capacity
pub mod Limits
pub mod View
pub mod Reservations
pub mod Refines
use onionguard.Base.{
  ℕ, suc, ◌+◌, ◌≤◌, leb, ◌==◌, Bool, true, false, ◌&&◌, ◌||◌, not, Option, none, some, List, [],
  ◌∷◌, ℤ, pos, negsuc, is_pos, Bytes, same, Dict, lookup, insert, erase, length, if◌then◌else◌,
}
use onionguard.Base.Time.{Time, Duration, is_zero, before, add, passed}
use onionguard.Errors.{
  Err, sentinel, Result, ok, err, fail, not_found, store_closed, key_too_large, value_too_large,
  invalid_ttl, invalid_value,
}

pub record MemoryConfig : Type 0 where
  pub max_entries : ℤ
  pub max_key_bytes : ℤ
  pub max_value_bytes : ℤ
  pub cleanup_interval : Duration

pub record MemoryEntry : Type 0 where
  pub value : Bytes
  pub expires_at : Time

-- `F` is float64.
pub record MemoryBucket (F : Type 0) : Type 0 where
  pub tokens : F
  pub updated_at : Time
  pub expires_at : Time

pub record MemoryStore (F : Type 0) : Type 0 where
  pub entries : Dict MemoryEntry
  pub buckets : Dict (MemoryBucket F)
  pub reservations : Dict Time
  pub counts : Dict ℕ
  pub cfg : MemoryConfig
  pub closed : Bool

-- `n >= z` and `n > z` for a length and an int.
abbrev pub at_least : ℕ → ℤ → Bool
at_least n (pos m) = leb m n
at_least n (negsuc m) = true

abbrev pub exceeds : ℕ → ℤ → Bool
exceeds n (pos m) = leb (suc m) n
exceeds n (negsuc m) = true

module _ {F : Type 0} where
  unfoldable pub new_memory_store : MemoryConfig → Result (MemoryStore F)
  new_memory_store cfg =
      if not (is_pos cfg.max_entries)
        || (not (is_pos cfg.max_key_bytes)
            || (not (is_pos cfg.max_value_bytes) || not (is_pos cfg.cleanup_interval)))
      then fail invalid_value
      else ok (record {
        entries = [];
        buckets = [];
        reservations = [];
        counts = [];
        cfg = cfg;
        closed = false;
      })

  unfoldable pub ping : Option Err → MemoryStore F → Option Err
  ping (some e) s = some e
  ping none s = if s.closed then some (sentinel store_closed) else none

  unfoldable pub validate : MemoryStore F → Bytes → Bytes → Option Err
  validate s key value =
      if length key == 0 || exceeds (length key) s.cfg.max_key_bytes
      then some (sentinel key_too_large)
      else if exceeds (length value) s.cfg.max_value_bytes
      then some (sentinel value_too_large)
      else none
