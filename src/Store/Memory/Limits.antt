-- ===== src/Store/Memory/Limits.antt =====
-- store/memory.go: the operations on entries and the limits of the store.
use onionguard.Base.{
  ◌≡◌, refl, inl, inr, Option, none, some, Bytes, lookup, insert, erase, arith, insert-Distinct,
  erase-Distinct, length-insert_old, length-erase-le, Option-cases,
}
use onionguard.Base.Time.{Time, Duration, add}
use onionguard.Errors.{Err}
use onionguard.Store.Memory.{MemoryEntry, MemoryStore, validate}
use onionguard.Store.Memory.Room.{make_room}
use onionguard.Store.Memory.Entries.{
  get_drop, get, put, set, delete, get_del, set_nx, compare_and_delete, compare_and_touch, touch,
}
use onionguard.Store.Memory.Bounds.{Fits, IsBounded, insert-All, erase-All, All_of_lookup}
use onionguard.Store.Memory.Capacity.{make_room-HasRoom, make_room_keeps, put-IsBounded}

module _ {F : Type 0} where
  pub erase-IsBounded :
      (key : Bytes) (s : MemoryStore F)
      → IsBounded s
      → IsBounded (record s { entries = erase key s.entries })
  erase-IsBounded key s b = record {
    room = b.room;
    count = omega (arith, b.count, length-erase-le key s.entries);
    fit = erase-All (Fits s.cfg) key s.entries b.fit;
    distinct = erase-Distinct key s.entries b.distinct;
  }

  -- Writing over an entry.
  pub over-IsBounded :
      (key : Bytes) (old new : MemoryEntry) (s : MemoryStore F)
      → IsBounded s
      → lookup key s.entries ≡ some old
      → Fits s.cfg (key, new)
      → IsBounded (record s { entries = insert key new s.entries })
  over-IsBounded key old new s b at f = record {
    room = b.room;
    count = omega (arith, b.count, length-insert_old key new old s.entries at);
    fit = insert-All (Fits s.cfg) key new s.entries f b.fit;
    distinct = insert-Distinct key new s.entries b.distinct;
  }

  -- An entry whose value stays fits under its key.
  renewed-Fits :
      (key : Bytes) (old : MemoryEntry) (t : Time) (s : MemoryStore F)
      → IsBounded s
      → lookup key s.entries ≡ some old
      → Fits s.cfg (key, record old { expires_at = t })
  renewed-Fits key old t s b at = All_of_lookup (Fits s.cfg) key old s.entries b.fit at

  pub validate-Fits :
      (s : MemoryStore F) (key value : Bytes) (t : Time)
      → validate s key value ≡ none
      → Fits s.cfg (key, record { value = value; expires_at = t })
  unfolding validate
  validate-Fits s key value t h = ground arith

  -- `validate` reads the limits alone.
  validate-same :
      (s : MemoryStore F) (key value : Bytes)
      → validate (record s { entries = erase key s.entries }) key value ≡ validate s key value
  unfolding validate
  validate-same s key value = refl

  pub put_in_room-IsBounded :
      (now : Time) (key value : Bytes) (ttl : Duration) (s : MemoryStore F)
      → IsBounded s
      → validate s key value ≡ none
      → IsBounded (put now key value ttl (make_room now s))
  put_in_room-IsBounded now key value ttl s b v =
      let (same_cfg, _) = make_room_keeps now s in
      let r = make_room-HasRoom now s b in
      put-IsBounded now key value ttl (make_room now s) (rw same_cfg r)
        (rw same_cfg (validate-Fits s key value 0 v))

  pub set-IsBounded :
      (ctx : Option Err) (now : Time) (key value : Bytes) (ttl : Duration) (s : MemoryStore F)
      → IsBounded s
      → IsBounded (set ctx now key value ttl s).1
  unfolding set
  set-IsBounded (some e) now key value ttl s b = b
  set-IsBounded none now key value ttl s b = elim (Option-cases (lookup key s.entries)) [
    | inl l ↦ ground (arith, put_in_room-IsBounded now key value ttl s b)
    | inr (old, l) ↦ ground (
      arith,
      over-IsBounded key old (record { value = value; expires_at = add now ttl }) s b l,
      validate-Fits s key value (add now ttl),
    )
  ]

  pub delete-IsBounded :
      (ctx : Option Err) (key : Bytes) (s : MemoryStore F)
      → IsBounded s
      → IsBounded (delete ctx key s).1
  unfolding delete
  delete-IsBounded (some e) key s b = b
  delete-IsBounded none key s b = ground (arith, erase-IsBounded key s b)

  pub get-IsBounded :
      (ctx : Option Err) (now : Time) (key : Bytes) (s : MemoryStore F)
      → IsBounded s
      → IsBounded (get ctx now key s).1
  unfolding get
  get-IsBounded (some e) now key s b = b
  get-IsBounded none now key s b = ground (arith, erase-IsBounded key s b)

  pub get_del-IsBounded :
      (ctx : Option Err) (now : Time) (key : Bytes) (s : MemoryStore F)
      → IsBounded s
      → IsBounded (get_del ctx now key s).1
  unfolding get_del
  get_del-IsBounded (some e) now key s b = b
  get_del-IsBounded none now key s b = ground (arith, erase-IsBounded key s b)

  pub set_nx-IsBounded :
      (ctx : Option Err) (now : Time) (key value : Bytes) (ttl : Duration) (s : MemoryStore F)
      → IsBounded s
      → IsBounded (set_nx ctx now key value ttl s).1
  unfolding set_nx
  set_nx-IsBounded (some e) now key value ttl s b = b
  set_nx-IsBounded none now key value ttl s b =
      let gone = record s { entries = erase key s.entries } in
      ground (
        arith,
        put_in_room-IsBounded now key value ttl s b,
        put_in_room-IsBounded now key value ttl gone (erase-IsBounded key s b),
        validate-same s key value,
      )

  pub compare_and_delete-IsBounded :
      (ctx : Option Err) (now : Time) (key expected : Bytes) (s : MemoryStore F)
      → IsBounded s
      → IsBounded (compare_and_delete ctx now key expected s).1
  unfolding compare_and_delete
  compare_and_delete-IsBounded (some e) now key expected s b = b
  compare_and_delete-IsBounded none now key expected s b = ground (arith, erase-IsBounded key s b)

  pub compare_and_touch-IsBounded :
      (ctx : Option Err) (now : Time) (key expected : Bytes) (ttl : Duration) (s : MemoryStore F)
      → IsBounded s
      → IsBounded (compare_and_touch ctx now key expected ttl s).1
  unfolding compare_and_touch
  compare_and_touch-IsBounded (some e) now key expected ttl s b = b
  compare_and_touch-IsBounded none now key expected ttl s b =
      elim (Option-cases (lookup key s.entries)) [
        | inl l ↦ ground arith
        | inr (old, l) ↦ ground (
          arith,
          over-IsBounded key old (record old { expires_at = add now ttl }) s b l,
          renewed-Fits key old (add now ttl) s b l,
        )
      ]

  pub touch-IsBounded :
      (ctx : Option Err) (now : Time) (key : Bytes) (ttl : Duration) (s : MemoryStore F)
      → IsBounded s
      → IsBounded (touch ctx now key ttl s).1
  unfolding touch
  touch-IsBounded (some e) now key ttl s b = b
  touch-IsBounded none now key ttl s b = elim (Option-cases (lookup key s.entries)) [
    | inl l ↦ ground arith
    | inr (old, l) ↦ ground (
      arith,
      over-IsBounded key old (record old { expires_at = add now ttl }) s b l,
      renewed-Fits key old (add now ttl) s b l,
      erase-IsBounded key s b,
    )
  ]

  pub get_drop-IsBounded :
      (now : Time) (key : Bytes) (s : MemoryStore F) → IsBounded s → IsBounded (get_drop now key s)
  unfolding get_drop
  get_drop-IsBounded now key s b = ground (arith, b, erase-IsBounded key s b)
