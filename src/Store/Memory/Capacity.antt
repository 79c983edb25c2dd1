-- ===== src/Store/Memory/Capacity.antt =====
-- The operations on entries keep the limits of the store.
use onionguard.Base.{
  ◌≤◌, ◌<◌, ◌≡◌, refl, inl, inr, true, false, some, [], ◌∷◌, pos_part, Bytes, Dict, lookup, erase,
  length, All, arith, same, Distinct, insert-Distinct, erase-Distinct, length-insert-le,
  length-erase-lt, Bool-cases,
}
use onionguard.Base.Time.{Time, Duration, add}
use onionguard.Store.Memory.{MemoryConfig, MemoryEntry, MemoryStore, at_least}
use onionguard.Store.Memory.Room.{
  expire_entries, expire_locked, oldest_entry, evict_oldest_entry, make_room,
}
use onionguard.Store.Memory.Entries.{put}
use onionguard.Store.Memory.Bounds.{
  Fits, IsBounded, NoEarlier, insert-All, erase-All, All_of_lookup, length-expire_entries,
  expire_entries-Distinct, expire_entries-All, oldest_entry-least,
}

pub same-nil : (k : Bytes) → 0 < length k → same k [] ≡ false
unfolding same
same-nil [] h = absurd (omega arith)
same-nil (c ∷ cs) h = refl

All-nonempty :
    (cfg : MemoryConfig) (m : Dict MemoryEntry) → All (Fits cfg) m → All (λ p. 0 < length p.0) m
All-nonempty cfg [] a = tt
All-nonempty cfg ((k, e) ∷ m) a = (a.0.0, All-nonempty cfg m a.1)

-- The key that eviction takes.
abbrev pub victim : Dict MemoryEntry → Bytes
victim m = (oldest_entry [] 0 m).0

pub victim_lem :
    (cfg : MemoryConfig) (m : Dict MemoryEntry)
    → All (Fits cfg) m
    → Distinct m
    → 0 < length m
    → (same (victim m) [] ≡ false)
      × (f : MemoryEntry) × (lookup (victim m) m ≡ some f)
      × NoEarlier f.expires_at m
victim_lem cfg [] a d h = absurd (omega arith)
victim_lem cfg ((k, e) ∷ m) a d h =
    let named = All-nonempty cfg ((k, e) ∷ m) a in
    let (f, at, least) = oldest_entry-least k e m d named in
    let n = All_of_lookup (λ p. 0 < length p.0) (victim ((k, e) ∷ m)) f ((k, e) ∷ m) named at in
    (same-nil _ n, f, at, least)

-- What holds while one entry is being added.
pub record HasRoom (c : MemoryConfig) (m : Dict MemoryEntry) : Type 0 where
  pub count : length m < pos_part c.max_entries
  pub fit : All (Fits c) m
  pub distinct : Distinct m

erase-victim-HasRoom :
    (c : MemoryConfig) (m : Dict MemoryEntry)
    → 0 < pos_part c.max_entries
    → length m ≤ pos_part c.max_entries
    → at_least (length m) c.max_entries ≡ true
    → All (Fits c) m
    → Distinct m
    → HasRoom c (erase (victim m) m)
erase-victim-HasRoom c m r n full a d =
    let least = victim_lem c m a d (ground arith) in
    record {
      count = omega (arith, length-erase-lt (victim m) least.1 m least.2);
      fit = erase-All (Fits c) (victim m) m a;
      distinct = erase-Distinct (victim m) m d;
    }

module _ {F : Type 0} where
  pub evict_oldest_entry-eq :
      (s : MemoryStore F)
      → All (Fits s.cfg) s.entries
      → Distinct s.entries
      → 0 < length s.entries
      → evict_oldest_entry s ≡ record s { entries = erase (victim s.entries) s.entries }
  unfolding evict_oldest_entry
  evict_oldest_entry-eq s a d h = rw (victim_lem s.cfg s.entries a d h).0

  pub make_room-HasRoom :
      (now : Time) (s : MemoryStore F) → IsBounded s → HasRoom s.cfg (make_room now s).entries
  unfolding make_room expire_locked
  make_room-HasRoom now s b = elim (Bool-cases (at_least (length s.entries) s.cfg.max_entries)) [
    | inr e ↦ rw e (record { count = ground arith; fit = b.fit; distinct = b.distinct })
    | inl e ↦
        let m = expire_entries now s.entries in
        let fit = expire_entries-All (Fits s.cfg) now s.entries b.fit in
        let apart = expire_entries-Distinct now s.entries b.distinct in
        let fewer = length-expire_entries now s.entries in
        rw e (elim (Bool-cases (at_least (length m) s.cfg.max_entries)) [
          | inr h ↦ rw h (record { count = ground (arith, fewer); fit = fit; distinct = apart })
          | inl h ↦
              rw (h, evict_oldest_entry-eq (expire_locked now s) fit apart (ground (arith, b.room)))
                (erase-victim-HasRoom s.cfg m b.room (omega (arith, b.count)) h fit apart)
        ])
  ]

  pub make_room_keeps :
      (now : Time) (s : MemoryStore F)
      → ((make_room now s).cfg ≡ s.cfg) × ((make_room now s).closed ≡ s.closed)
  unfolding make_room expire_locked evict_oldest_entry
  make_room_keeps now s = ground arith

  -- Adding an entry that fits where there is room.
  pub put-IsBounded :
      (now : Time) (key value : Bytes) (ttl : Duration) (s : MemoryStore F)
      → HasRoom s.cfg s.entries
      → Fits s.cfg (key, record { value = value; expires_at = 0 })
      → IsBounded (put now key value ttl s)
  put-IsBounded now key value ttl s r f = record {
    room = omega (arith, r.count);
    count = omega (
      arith,
      r.count,
      length-insert-le key (record { value = value; expires_at = add now ttl }) s.entries,
    );
    fit = insert-All (Fits s.cfg) key _ s.entries f r.fit;
    distinct = insert-Distinct key _ s.entries r.distinct;
  }
