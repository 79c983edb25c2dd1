-- ===== src/Store/Memory/View.antt =====
-- What a client of the store sees: a value for each key until its deadline. The operations are
-- related to this view, which forgets the entries that have expired but are still in the map.
use onionguard.Base.{
  ◌≤◌, ◌≡◌, refl, ◌⊎◌, true, false, Option, none, some, [], ◌∷◌, Bytes, Dict, lookup, lookup-erase,
  length, arith, Distinct, lookup_of_Fresh, same_iff, if◌then◌else◌,
}
use onionguard.Base.Time.{Time, passed}
use onionguard.Errors.{Result, ok, fail, not_found}
use onionguard.Store.Memory.{MemoryEntry, MemoryStore, at_least}
use onionguard.Store.Memory.Room.{make_room, expire_entries, expire_locked, evict_oldest_entry}
use onionguard.Store.Memory.Entries.{get_drop, get}
use onionguard.Store.Memory.Bounds.{IsBounded}
use onionguard.Store.Memory.Capacity.{victim}

-- The value of an entry that has not expired.
abbrev pub live : Time → Option MemoryEntry → Option Bytes
live now none = none
live now (some e) = if passed now e.expires_at then none else some e.value

abbrev pub view : Time → Dict MemoryEntry → Bytes → Option Bytes
view now m k = live now (lookup k m)

abbrev pub or_not_found : Option Bytes → Result Bytes
or_not_found none = fail not_found
or_not_found (some v) = ok v

lookup-expire_entries :
    (now : Time) (k : Bytes) (m : Dict MemoryEntry)
    → Distinct m
    → lookup k (expire_entries now m) ≡ (elim (lookup k m) [
      | none ↦ none
      | some e ↦ if passed now e.expires_at then none else some e
    ])
unfolding lookup expire_entries
lookup-expire_entries now k [] d = refl
lookup-expire_entries now k ((j, e) ∷ m) d =
    ground (arith, lookup-expire_entries now k m d.1, lookup_of_Fresh j m d.0, same_iff j k)

-- Dropping what has expired by `now` shows at no later time.
pub view-expire_entries :
    (now later : Time) (k : Bytes) (m : Dict MemoryEntry)
    → now ≤ later
    → Distinct m
    → view later (expire_entries now m) k ≡ view later m k
view-expire_entries now later k m h d = ground (arith, lookup-expire_entries now k m d)

module _ {F : Type 0} where
  pub get-view :
      (now : Time) (key : Bytes) (s : MemoryStore F)
      → s.closed ≡ false
      → (get none now key s).0 ≡ or_not_found (view now s.entries key)
  unfolding get
  get-view now key s open_ = ground arith

  -- The second half of Get, under the write lock, whatever happened to the store since the first
  -- half, changes what no key shows at any later time.
  pub get_drop-view :
      (now later : Time) (key j : Bytes) (s : MemoryStore F)
      → now ≤ later
      → view later (get_drop now key s).entries j ≡ view later s.entries j
  unfolding get_drop
  get_drop-view now later key j s h = ground (arith, lookup-erase key j s.entries, same_iff key j)

  -- Making room keeps every other value, but for the one entry that eviction takes.
  pub make_room-view :
      (now later : Time) (j : Bytes) (s : MemoryStore F)
      → IsBounded s
      → now ≤ later
      → let m = expire_entries now s.entries in
        (view later (make_room now s).entries j ≡ view later s.entries j)
        ⊎ ((j ≡ victim m) × (at_least (length m) s.cfg.max_entries ≡ true))
  unfolding make_room expire_locked evict_oldest_entry
  make_room-view now later j s b h =
      let m = expire_entries now s.entries in
      ground (
        arith,
        view-expire_entries now later j s.entries h b.distinct,
        lookup-erase (victim m) j m,
        same_iff (victim m) j,
      )
