-- ===== src/Store/Memory/Reservations.antt =====
-- store/memory.go: session reservations, which bound the sessions that are admitted at once.
pub mod Used
pub mod Capacity
use onionguard.Base.{
  ℕ, zero, suc, ◌+◌, ◌-◌, leb, ltb, ◌==◌, Bool, true, false, ◌||◌, ◌&&◌, not, Option, none, some,
  List, [], ◌∷◌, ◌++◌, ℤ, pos, negsuc, is_pos, Bytes, same, Dict, lookup, insert, erase, take,
  length, if◌then◌else◌,
}
use mathlib.Core.Option
use onionguard.Base.Time.{Time, is_zero, before}
use onionguard.Errors.{Err, sentinel, Result, ok, err, fail, not_found, store_closed, invalid_value}
use onionguard.Store.Memory.{MemoryStore, at_least}

-- `strings.HasPrefix(k, p)`
unfoldable pub has_prefix : Bytes → Bytes → Bool
has_prefix k [] = true
has_prefix [] (x ∷ p) = false
has_prefix (y ∷ k) (x ∷ p) = x == y && has_prefix k p

-- `strings.IndexByte(k, 0)`; `none` is -1.
unfoldable pub index_nul : Bytes → Option ℕ
index_nul [] = none
index_nul (c ∷ k) = let rest = index_nul k in if c == 0 then some 0 else Option.map suc rest

abbrev pub reservation_key : Bytes → Bytes → Bytes
reservation_key namespace session_id = namespace ++ (0 ∷ session_id)

-- `s.counts[ns]`, 0 where there is none.
abbrev pub count_of : Bytes → Dict ℕ → ℕ
count_of ns counts = elim (lookup ns counts) [ none ↦ 0 | some n ↦ n ]

-- `if s.counts[ns] > 0 { s.counts[ns]-- }`
unfoldable pub uncount : Bytes → Dict ℕ → Dict ℕ
uncount ns counts =
    if ltb 0 (count_of ns counts) then insert ns (count_of ns counts - 1) counts else counts

-- What `purgeReservationsLocked` does to the counts for a key that it deletes.
unfoldable pub uncount_key : Bytes → Dict ℕ → Dict ℕ
unfolding uncount
uncount_key k counts = elim (index_nul k) [ none ↦ counts | some i ↦ uncount (take i k) counts ]

-- `purgeReservationsLocked`, over the two maps.
unfoldable pub purge_loop : Time → Dict Time → Dict ℕ → Dict Time × Dict ℕ
purge_loop now [] counts = ([], counts)
purge_loop now ((k, expiry) ∷ m) counts =
    let stale = not (before now expiry) in
    let r = purge_loop now m (if stale then uncount_key k counts else counts) in
    (if stale then r.0 else (k, expiry) ∷ r.0, r.1)

-- The loop of `countReservationsInNamespaceLocked`: the reservations left, and `count`.
unfoldable pub count_loop : Time → Bytes → Dict Time → Dict Time × ℕ
count_loop now prefix [] = ([], 0)
count_loop now prefix ((k, expiry) ∷ m) =
    let r = count_loop now prefix m in
    if has_prefix k prefix
    then (if not (before now expiry) then r else ((k, expiry) ∷ r.0, suc r.1))
    else ((k, expiry) ∷ r.0, r.1)

module _ {F : Type 0} where
  unfoldable pub purge_reservations : Time → MemoryStore F → MemoryStore F
  purge_reservations now s =
      let r = purge_loop now s.reservations s.counts in
      record s { reservations = r.0; counts = r.1 }

  unfoldable pub count_reservations_in_namespace : Bytes → Time → MemoryStore F → ℕ × MemoryStore F
  count_reservations_in_namespace namespace now s =
      let r = count_loop now (namespace ++ (0 ∷ [])) s.reservations in
      (r.1, record s { reservations = r.0; counts = insert namespace r.1 s.counts })

  -- `s.counts[namespace]++; s.reservations[k] = expiresAt`
  abbrev pub reserve_new : Bytes → Bytes → Time → MemoryStore F → MemoryStore F
  reserve_new namespace k expires_at s = record s {
    counts = insert namespace (suc (count_of namespace s.counts)) s.counts;
    reservations = insert k expires_at s.reservations;
  }

  unfoldable pub reserve_session :
      Option Err → Time → Bytes → Bytes → ℤ → Time → MemoryStore F → Result Bool × MemoryStore F
  unfolding count_reservations_in_namespace
  reserve_session (some e) now namespace session_id limit expires_at s = (err e, s)
  reserve_session none now namespace session_id limit expires_at s =
      if same namespace [] || (same session_id [] || (not (is_pos limit) || is_zero expires_at))
      then (fail invalid_value, s)
      else if s.closed
      then (fail store_closed, s)
      else (let k = reservation_key namespace session_id in
          elim (lookup k s.reservations) [
            | some _ ↦ (ok true, record s { reservations = insert k expires_at s.reservations })
            | none ↦
                if at_least (count_of namespace s.counts) limit
                then (let r = count_reservations_in_namespace namespace now s in
                    if at_least r.0 limit
                    then (ok false, r.1)
                    else (ok true, reserve_new namespace k expires_at r.1))
                else (ok true, reserve_new namespace k expires_at s)
          ])

  unfoldable pub release_session :
      Option Err → Bytes → Bytes → MemoryStore F → Option Err × MemoryStore F
  unfolding uncount
  release_session (some e) namespace session_id s = (some e, s)
  release_session none namespace session_id s =
      if s.closed
      then (some (sentinel store_closed), s)
      else (let k = reservation_key namespace session_id in
          (
            none,
            elim (lookup k s.reservations) [
              | none ↦ s
              | some _ ↦ record s {
                reservations = erase k s.reservations;
                counts = uncount namespace s.counts;
              }
            ],
          ))

  unfoldable pub move_session_reservation :
      Option Err → Bytes → Bytes → Bytes → Time → MemoryStore F → Option Err × MemoryStore F
  move_session_reservation (some e) namespace old_id new_id expires_at s = (some e, s)
  move_session_reservation none namespace old_id new_id expires_at s =
      if s.closed
      then (some (sentinel store_closed), s)
      else (let old = reservation_key namespace old_id in
          elim (lookup old s.reservations) [
            | none ↦ (some (sentinel not_found), s)
            | some _ ↦ (
              none,
              record s {
                reservations =
                    insert (reservation_key namespace new_id) expires_at (erase old s.reservations);
              },
            )
          ])
