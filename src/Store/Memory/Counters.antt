-- ===== src/Store/Memory/Counters.antt =====
-- store/memory.go: `IncrementWithTTL`. `strconv.ParseInt` and `strconv.FormatInt` are parameters.
use onionguard.Base.{
  ◌<◌, ◌≡◌, inl, inr, Bool, true, false, ◌||◌, not, Option, none, some, ℤ, pos, ltb_ℤ, ◌+ℤ◌, is_pos,
  wrap64, Bytes, lookup, erase, length, lookup-insert, same_refl, arith, ◌==◌, if◌then◌else◌,
  Option-cases,
}
use onionguard.Base.Time.{Time, Duration, is_zero, before, add}
use onionguard.Errors.{Err, Result, ok, err, fail, store_closed, invalid_ttl, invalid_value}
use onionguard.Store.Memory.{MemoryStore, validate}
use onionguard.Store.Memory.Room.{make_room}
use onionguard.Store.Memory.Entries.{put}
use onionguard.Store.Memory.Capacity.{make_room_keeps}

-- The decimal form of an int64, and the int64 that a text stands for, if any.
pub record Decimal : Type 0 where
  pub parse : Bytes → Option ℤ
  pub format : ℤ → Bytes

unfoldable pub parse_counter : Decimal → Bytes → Option ℤ
parse_counter decimal b = if length b == 0 then none else decimal.parse b

module _ {F : Type 0} (decimal : Decimal) where
  -- From `next := current + delta` on. `held` is whether the key was found.
  unfoldable pub store_counter :
      Time → Bytes → ℤ → ℤ → Duration → Bool → MemoryStore F → Result ℤ × MemoryStore F
  store_counter now key current delta ttl held s =
      let next = wrap64 (current +ℤ delta) in
      if ltb_ℤ next (pos 0)
      then (fail invalid_value, s)
      else (elim (validate s key (decimal.format next)) [
        | some e ↦ (err e, s)
        | none ↦
            (ok next, put now key (decimal.format next) ttl (if held then s else make_room now s))
      ])

  unfoldable pub increment_with_ttl :
      Option Err → Time → Bytes → ℤ → Duration → MemoryStore F → Result ℤ × MemoryStore F
  increment_with_ttl (some e) now key delta ttl s = (err e, s)
  increment_with_ttl none now key delta ttl s =
      if not (is_pos ttl)
      then (fail invalid_ttl, s)
      else if s.closed
      then (fail store_closed, s)
      else (elim (lookup key s.entries) [
        | none ↦ store_counter now key (pos 0) delta ttl false s
        | some e ↦
            if is_zero e.expires_at || before now e.expires_at
            then (elim (parse_counter decimal e.value) [
              | none ↦ (fail invalid_value, s)
              | some n ↦ store_counter now key n delta ttl true s
            ])
            else store_counter now key (pos 0) delta ttl true
                (record s { entries = erase key s.entries })
      ])

  -- What a success of the counter leaves.
  store_counter-ok :
      (now : Time) (key : Bytes) (current delta n : ℤ) (ttl : Duration) (held : Bool)
      (s : MemoryStore F)
      → s.closed ≡ false
      → (store_counter now key current delta ttl held s).0 ≡ ok n
      → let s' = (store_counter now key current delta ttl held s).1 in
        (lookup key s'.entries
          ≡ some (record { value = decimal.format n; expires_at = add now ttl }))
        × (s'.closed ≡ false)
  unfolding store_counter
  store_counter-ok now key current delta n ttl held s c h =
      let room = if held then s else make_room now s in
      ground (
        arith,
        make_room_keeps now s,
        same_refl key,
        lookup-insert key key (record { value = decimal.format n; expires_at = add now ttl })
            room.entries,
      )

  increment_with_ttl-ok :
      (now : Time) (key : Bytes) (delta n : ℤ) (ttl : Duration) (s : MemoryStore F)
      → (increment_with_ttl none now key delta ttl s).0 ≡ ok n
      → let s' = (increment_with_ttl none now key delta ttl s).1 in
        (lookup key s'.entries
          ≡ some (record { value = decimal.format n; expires_at = add now ttl }))
        × (s'.closed ≡ false)
  unfolding increment_with_ttl
  increment_with_ttl-ok now key delta n ttl s h = elim (Option-cases (lookup key s.entries)) [
    | inl e ↦ ground (arith, e, store_counter-ok now key (pos 0) delta n ttl false s)
    | inr (old, e) ↦ elim (Option-cases (parse_counter decimal old.value)) [
      | inl p ↦ ground (
        arith,
        e,
        p,
        store_counter-ok now key (pos 0) delta n ttl true
            (record s { entries = erase key s.entries }),
      )
      | inr (m, p) ↦ ground (
        arith,
        e,
        p,
        store_counter-ok now key m delta n ttl true s,
        store_counter-ok now key (pos 0) delta n ttl true
            (record s { entries = erase key s.entries }),
      )
    ]
  ]

  -- Counting on from a counter that holds `n`.
  count_on :
      (later end : Time) (key : Bytes) (delta n : ℤ) (ttl : Duration) (s : MemoryStore F)
      → s.closed ≡ false
      → lookup key s.entries ≡ some (record { value = decimal.format n; expires_at = end })
      → later < end
      → parse_counter decimal (decimal.format n) ≡ some n
      → is_pos ttl ≡ true
      → ltb_ℤ (wrap64 (n +ℤ delta)) (pos 0) ≡ false
      → validate s key (decimal.format (wrap64 (n +ℤ delta))) ≡ none
      → (increment_with_ttl none later key delta ttl s).0 ≡ ok (wrap64 (n +ℤ delta))
  unfolding increment_with_ttl store_counter
  count_on later end key delta n ttl s c at early law live sum fits = ground arith

  -- Where IncrementWithTTL answered n and its deadline has not passed, a second one answers n plus
  -- its delta, if its time to live is positive, the int64 sum is not negative and its decimal form
  -- is within the limits of the store, and the decimal form of n reads back.
  pub increment-increment :
      (now later : Time) (key : Bytes) (delta delta' n : ℤ) (ttl ttl' : Duration)
      (s : MemoryStore F)
      → (increment_with_ttl none now key delta ttl s).0 ≡ ok n
      → later < add now ttl
      → parse_counter decimal (decimal.format n) ≡ some n
      → is_pos ttl' ≡ true
      → ltb_ℤ (wrap64 (n +ℤ delta')) (pos 0) ≡ false
      → validate
          (increment_with_ttl none now key delta ttl s).1
          key
          (decimal.format (wrap64 (n +ℤ delta')))
        ≡ none
      → (increment_with_ttl none later key delta' ttl'
          (increment_with_ttl none now key delta ttl s).1).0
        ≡ ok (wrap64 (n +ℤ delta'))
  increment-increment now later key delta delta' n ttl ttl' s h early law live sum fits =
      let (at, c) = increment_with_ttl-ok now key delta n ttl s h in
      count_on later (add now ttl) key delta' n ttl' (increment_with_ttl none now key delta ttl s).1
        c at early law live sum fits
