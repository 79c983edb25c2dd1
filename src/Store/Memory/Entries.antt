-- ===== src/Store/Memory/Entries.antt =====
-- store/memory.go: `Get`, `Set`, `Delete`, `GetDel`, `SetNX`, `CompareAndDelete`, `CompareAndTouch`
-- and `Touch`.
use onionguard.Base.{
  Bool, true, false, ◌||◌, not, Option, none, some, is_pos, Bytes, same, lookup, insert, erase,
  if◌then◌else◌,
}
use onionguard.Base.Time.{Time, Duration, is_zero, before, add, passed}
use onionguard.Errors.{Err, Result, ok, err, fail, not_found, store_closed, invalid_ttl}
use onionguard.Store.Memory.{MemoryStore, validate}
use onionguard.Store.Memory.Room.{make_room}

module _ {F : Type 0} where
  -- What `Get` does under the read lock: the answer, and whether it goes on to drop the entry.
  unfoldable pub get_read : Option Err → Time → Bytes → MemoryStore F → Result Bytes × Bool
  get_read (some e) now key s = (err e, false)
  get_read none now key s =
      if s.closed then (fail store_closed, false) else (elim (lookup key s.entries) [
        | none ↦ (fail not_found, false)
        | some e ↦ if passed now e.expires_at then (fail not_found, true) else (ok e.value, false)
      ])

  -- What `Get` does under the write lock, after it let the read lock go: another goroutine may have
  -- changed the store in between, and time has gone on.
  unfoldable pub get_drop : Time → Bytes → MemoryStore F → MemoryStore F
  get_drop now key s = if s.closed then s else (elim (lookup key s.entries) [
    | none ↦ s
    | some e ↦ if passed now e.expires_at then record s { entries = erase key s.entries } else s
  ])

  -- `Get` with nothing in between.
  unfoldable pub get : Option Err → Time → Bytes → MemoryStore F → Result Bytes × MemoryStore F
  unfolding get_read get_drop
  get ctx now key s =
      let (answer, stale) = get_read ctx now key s in
      (answer, if stale then get_drop now key s else s)

  -- `s.entries[key] = memoryEntry{value: …, expiresAt: now.Add(ttl)}`
  abbrev pub put : Time → Bytes → Bytes → Duration → MemoryStore F → MemoryStore F
  put now key value ttl s = record s {
    entries = insert key (record { value = value; expires_at = add now ttl }) s.entries;
  }

  unfoldable pub set :
      Option Err → Time → Bytes → Bytes → Duration → MemoryStore F → Option Err × MemoryStore F
  set (some e) now key value ttl s = (some e, s)
  set none now key value ttl s =
      if not (is_pos ttl)
      then (some (Err.sentinel invalid_ttl), s)
      else (elim (validate s key value) [
        | some e ↦ (some e, s)
        | none ↦ if s.closed then (some (Err.sentinel store_closed), s) else (
          none,
          (elim (lookup key s.entries) [
            | some _ ↦ put now key value ttl s
            | none ↦ put now key value ttl (make_room now s)
          ]),
        )
      ])

  unfoldable pub delete : Option Err → Bytes → MemoryStore F → Option Err × MemoryStore F
  delete (some e) key s = (some e, s)
  delete none key s =
      if s.closed
      then (some (Err.sentinel store_closed), s)
      else (none, record s { entries = erase key s.entries })

  unfoldable pub get_del : Option Err → Time → Bytes → MemoryStore F → Result Bytes × MemoryStore F
  get_del (some e) now key s = (err e, s)
  get_del none now key s =
      if s.closed then (fail store_closed, s) else (elim (lookup key s.entries) [
        | none ↦ (fail not_found, s)
        | some e ↦ (
          if passed now e.expires_at then fail not_found else ok e.value,
          record s { entries = erase key s.entries },
        )
      ])

  unfoldable pub set_nx :
      Option Err → Time → Bytes → Bytes → Duration → MemoryStore F → Result Bool × MemoryStore F
  set_nx (some e) now key value ttl s = (err e, s)
  set_nx none now key value ttl s =
      if not (is_pos ttl) then (fail invalid_ttl, s) else (elim (validate s key value) [
        | some e ↦ (err e, s)
        | none ↦ if s.closed then (fail store_closed, s) else (elim (lookup key s.entries) [
          | none ↦ (ok true, put now key value ttl (make_room now s))
          | some e ↦ if is_zero e.expires_at || before now e.expires_at then (ok false, s) else (
            ok true,
            put now key value ttl (make_room now (record s { entries = erase key s.entries })),
          )
        ])
      ])

  unfoldable pub compare_and_delete :
      Option Err → Time → Bytes → Bytes → MemoryStore F → Result Bool × MemoryStore F
  compare_and_delete (some e) now key expected s = (err e, s)
  compare_and_delete none now key expected s =
      if s.closed then (fail store_closed, s) else (elim (lookup key s.entries) [
        | none ↦ (ok false, s)
        | some e ↦
            let t = record s { entries = erase key s.entries } in
            if passed now e.expires_at
            then (ok false, t)
            else if not (same e.value expected)
            then (ok false, s)
            else (ok true, t)
      ])

  unfoldable pub compare_and_touch :
      Option Err → Time → Bytes → Bytes → Duration → MemoryStore F → Result Bool × MemoryStore F
  compare_and_touch (some e) now key expected ttl s = (err e, s)
  compare_and_touch none now key expected ttl s =
      if not (is_pos ttl)
      then (fail invalid_ttl, s)
      else if s.closed
      then (fail store_closed, s)
      else (elim (lookup key s.entries) [
        | none ↦ (ok false, s)
        | some e ↦
            if passed now e.expires_at || not (same e.value expected) then (ok false, s) else (
              ok true,
              record s { entries = insert key (record e { expires_at = add now ttl }) s.entries },
            )
      ])

  unfoldable pub touch :
      Option Err → Time → Bytes → Duration → MemoryStore F → Option Err × MemoryStore F
  touch (some e) now key ttl s = (some e, s)
  touch none now key ttl s =
      if not (is_pos ttl)
      then (some (Err.sentinel invalid_ttl), s)
      else if s.closed
      then (some (Err.sentinel store_closed), s)
      else (elim (lookup key s.entries) [
        | none ↦ (some (Err.sentinel not_found), s)
        | some e ↦
            if passed now e.expires_at
            then (some (Err.sentinel not_found), record s { entries = erase key s.entries })
            else (
              none,
              record s { entries = insert key (record e { expires_at = add now ttl }) s.entries },
            )
      ])
