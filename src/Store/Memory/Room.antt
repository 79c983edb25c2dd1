-- ===== src/Store/Memory/Room.antt =====
-- store/memory.go: the entries and buckets that the store drops, to make room or because they expired.
use onionguard.Base.{◌||◌, [], ◌∷◌, Bytes, same, Dict, erase, length, if◌then◌else◌}
use onionguard.Base.Time.{Time, before, passed}
use onionguard.Store.Memory.{MemoryEntry, MemoryBucket, MemoryStore, at_least}

-- `expireLocked`, over the entries: delete those whose deadline has passed.
unfoldable pub expire_entries : Time → Dict MemoryEntry → Dict MemoryEntry
expire_entries now [] = []
expire_entries now ((k, e) ∷ m) =
    let rest = expire_entries now m in if passed now e.expires_at then rest else (k, e) ∷ rest

-- The loop of `evictOldestEntryLocked`, from `oldestKey` and `oldestExp`.
unfoldable pub oldest_entry : Bytes → Time → Dict MemoryEntry → Bytes × Time
oldest_entry key exp [] = (key, exp)
oldest_entry key exp ((k, e) ∷ m) =
    let older = same key [] || before e.expires_at exp in
    oldest_entry (if older then k else key) (if older then e.expires_at else exp) m

module _ {F : Type 0} where
  -- `expireLocked`, over the buckets.
  unfoldable pub expire_buckets : Time → Dict (MemoryBucket F) → Dict (MemoryBucket F)
  expire_buckets now [] = []
  expire_buckets now ((k, b) ∷ m) =
      let rest = expire_buckets now m in if passed now b.expires_at then rest else (k, b) ∷ rest

  unfoldable pub expire_locked : Time → MemoryStore F → MemoryStore F
  expire_locked now s = record s {
    entries = expire_entries now s.entries;
    buckets = expire_buckets now s.buckets;
  }

  unfoldable pub evict_oldest_entry : MemoryStore F → MemoryStore F
  evict_oldest_entry s =
      let key = (oldest_entry [] 0 s.entries).0 in
      if same key [] then s else record s { entries = erase key s.entries }

  -- The loop of `evictOldestBucketLocked`, from `oldestKey` and `oldestTime`.
  unfoldable pub oldest_bucket : Bytes → Time → Dict (MemoryBucket F) → Bytes × Time
  oldest_bucket key time [] = (key, time)
  oldest_bucket key time ((k, b) ∷ m) =
      let older = same key [] || before b.updated_at time in
      oldest_bucket (if older then k else key) (if older then b.updated_at else time) m

  unfoldable pub evict_oldest_bucket : MemoryStore F → MemoryStore F
  evict_oldest_bucket s =
      let key = (oldest_bucket [] 0 s.buckets).0 in
      if same key [] then s else record s { buckets = erase key s.buckets }

  -- What `Set`, `SetNX` and `IncrementWithTTL` do before they add an entry.
  unfoldable pub make_room : Time → MemoryStore F → MemoryStore F
  make_room now s =
      if at_least (length s.entries) s.cfg.max_entries
      then (let t = expire_locked now s in
          if at_least (length t.entries) t.cfg.max_entries then evict_oldest_entry t else t)
      else s
