-- ===== src/Store/Memory/Refines.antt =====
-- The operations on entries, as operations on the view: reads after writes, claims that exclude one
-- another, and what a write may cost another key.
use onionguard.Base.{
  ◌≤◌, ◌<◌, ◌≡◌, ◌≢◌, ◌⊎◌, inl, inr, true, false, ◌&&◌, is_pos, none, some, Bytes, lookup, erase,
  lookup-insert, lookup-erase, length, arith, same, same_iff, same_refl, if◌then◌else◌,
  Option-cases,
}
use onionguard.Base.Time.{Time, Duration, add, before}
use onionguard.Errors.{ok, fail, not_found}
use onionguard.Store.Spec.{shows}
use onionguard.Store.Memory.{MemoryEntry, MemoryStore, validate, at_least}
use onionguard.Store.Memory.Room.{make_room, expire_entries}
use onionguard.Store.Memory.Entries.{
  get, set, get_del, set_nx, compare_and_delete, compare_and_touch,
}
use onionguard.Store.Memory.Bounds.{
  Fits, IsBounded, NoEarlier, expire_entries-Distinct, expire_entries-All,
}
use onionguard.Store.Memory.Capacity.{victim, victim_lem, make_room_keeps}
use onionguard.Store.Memory.View.{view, make_room-view}

-- The store was full of entries that had not expired, and `j` held the one that expires first.
abbrev pub Evicted : {F : Type 0} → Time → MemoryStore F → Bytes → Type 0
Evicted now s j =
    (at_least (length (expire_entries now s.entries)) s.cfg.max_entries ≡ true)
    × (f : MemoryEntry) × (lookup j (expire_entries now s.entries) ≡ some f)
    × NoEarlier f.expires_at (expire_entries now s.entries)

module _ {F : Type 0} where
  -- What Set stored without an error Get returns at any time before the deadline.
  pub set-get :
      (now later : Time) (key value : Bytes) (ttl : Duration) (s : MemoryStore F)
      → later < add now ttl
      → (set none now key value ttl s).0 ≡ none
      → (get none later key (set none now key value ttl s).1).0 ≡ ok value
  unfolding set get
  set-get now later key value ttl s h done = ground (
    arith,
    make_room_keeps now s,
    lookup-insert key key (record { value = value; expires_at = add now ttl }) s.entries,
    lookup-insert key key (record { value = value; expires_at = add now ttl })
        (make_room now s).entries,
    same_refl key,
  )

  victim-Evicted :
      (now : Time) (j : Bytes) (s : MemoryStore F)
      → IsBounded s
      → j ≡ victim (expire_entries now s.entries)
      → at_least (length (expire_entries now s.entries)) s.cfg.max_entries ≡ true
      → Evicted now s j
  victim-Evicted now j s b e full =
      let m = expire_entries now s.entries in
      let (_, f, at, least) =
        victim_lem s.cfg m (expire_entries-All (Fits s.cfg) now s.entries b.fit)
          (expire_entries-Distinct now s.entries b.distinct) (ground (arith, b.room)) in
      (full, f, rw e at, least)

  -- Set in a bounded store shows every other key at every later time the value that it showed
  -- before; unless the store was full of entries that had not expired, and that key held the one of
  -- them that expires first.
  pub set-view_other :
      (now later : Time) (key j value : Bytes) (ttl : Duration) (s : MemoryStore F)
      → IsBounded s
      → now ≤ later
      → key ≢ j
      → (view later (set none now key value ttl s).1.entries j ≡ view later s.entries j)
        ⊎ Evicted now s j
  unfolding set
  set-view_other now later key j value ttl s b h other = elim (make_room-view now later j s b h) [
    | inr (e, full) ↦ inr (victim-Evicted now j s b e full)
    | inl kept ↦ inl (
        ground (
          arith,
          kept,
          lookup-insert key j (record { value = value; expires_at = add now ttl }) s.entries,
          lookup-insert key j (record { value = value; expires_at = add now ttl })
              (make_room now s).entries,
          same_iff key j,
        ))
  ]

  -- In an open store SetNX of a valid key and value, with a positive time to live, on a key that
  -- shows nothing answers true, and the key shows the value until its deadline.
  pub set_nx-free :
      (now later : Time) (key value : Bytes) (ttl : Duration) (s : MemoryStore F)
      → s.closed ≡ false
      → is_pos ttl ≡ true
      → validate s key value ≡ none
      → view now s.entries key ≡ none
      → later < add now ttl
      → ((set_nx none now key value ttl s).0 ≡ ok true)
        × (view later (set_nx none now key value ttl s).1.entries key ≡ some value)
  unfolding set_nx
  set_nx-free now later key value ttl s o p v free h =
      let gone = record s { entries = erase key s.entries } in
      let e : MemoryEntry = record { value = value; expires_at = add now ttl } in
      ground (
        arith,
        lookup-insert key key e (make_room now gone).entries,
        lookup-insert key key e (make_room now s).entries,
        same_refl key,
      )

  -- SetNX on a key that shows a value does not answer true and leaves the store as it is.
  pub set_nx-held :
      (now : Time) (key value old : Bytes) (ttl : Duration) (s : MemoryStore F)
      → view now s.entries key ≡ some old
      → ((set_nx none now key value ttl s).0 ≢ ok true) × ((set_nx none now key value ttl s).1 ≡ s)
  unfolding set_nx
  set_nx-held now key value old ttl s held = ground arith

  -- In an open store CompareAndDelete reports true exactly when the key shows the expected value;
  -- at every later time the key then shows nothing, and every other key, or every key if it reports
  -- false, what it showed.
  pub compare_and_delete-view :
      (now later : Time) (key expected j : Bytes) (s : MemoryStore F)
      → s.closed ≡ false
      → now ≤ later
      → let r = compare_and_delete none now key expected s in
        (r.0 ≡ ok (shows expected (view now s.entries key)))
        × (view later r.1.entries j ≡ (
            if shows expected (view now s.entries key) && same key j
            then none
            else view later s.entries j))
  unfolding compare_and_delete
  compare_and_delete-view now later key expected j s o h =
      (ground arith, ground (arith, lookup-erase key j s.entries, same_iff key j))

  -- In an open store CompareAndTouch with a positive time to live reports true exactly when the key
  -- shows the expected value; the key then shows that value until the new deadline, and every other
  -- key, or every key if it reports false, what it showed.
  pub compare_and_touch-view :
      (now later : Time) (key expected j : Bytes) (ttl : Duration) (s : MemoryStore F)
      → s.closed ≡ false
      → is_pos ttl ≡ true
      → let r = compare_and_touch none now key expected ttl s in
        (r.0 ≡ ok (shows expected (view now s.entries key)))
        × (view later r.1.entries j ≡ (
            if shows expected (view now s.entries key) && same key j
            then (if before later (add now ttl) then some expected else none)
            else view later s.entries j))
  unfolding compare_and_touch
  compare_and_touch-view now later key expected j ttl s o p =
      elim (Option-cases (lookup key s.entries)) [
        | inl l ↦ (ground arith, ground arith)
        | inr (e, l) ↦ (
          ground arith,
          ground (
            arith,
            lookup-insert key j (record e { expires_at = add now ttl }) s.entries,
            same_iff key j,
            same_iff e.value expected,
          ),
        )
      ]

  -- In an open store GetDel answers as Get does, and a second GetDel of the key, at any time,
  -- answers ErrNotFound.
  pub get_del-once :
      (now later : Time) (key : Bytes) (s : MemoryStore F)
      → s.closed ≡ false
      → let r = get_del none now key s in
        (r.0 ≡ (get none now key s).0) × ((get_del none later key r.1).0 ≡ fail not_found)
  unfolding get_del get
  get_del-once now later key s o = ground (arith, lookup-erase key key s.entries, same_refl key)
