-- ===== src/Store/Memory/Reservations/Capacity.antt =====
-- store/memory.go: the counts of the namespaces, the reservations that they stand for, and the limit.
use onionguard.Base.{
  ℕ, suc, ◌-◌, ◌≤◌, ◌<◌, ◌≡◌, ◌≢◌, inl, inr, ltb, false, ℤ, pos, Option, none, some, [], ◌∷◌, ◌++◌,
  Bytes, lookup, insert, erase, lookup-insert, same, same_iff, same_refl, arith, Bool-cases,
  Option-cases,
}
use onionguard.Base.Time.{Time}
use onionguard.Errors.{Err, ok}
use onionguard.Store.Memory.{MemoryStore}
use onionguard.Store.Memory.Reservations.{
  reservation_key, count_of, count_loop, purge_reservations, reserve_session, release_session,
  move_session_reservation,
}
use onionguard.Store.Memory.Reservations.Used.{
  NulFree, used, used_live, used_live-le, used-insert, used-erase_held, in_namespace-key,
  purge_loop-counted, count_loop_lem, used-count_loop-le,
}

-- The count of a namespace is at least the reservations that it holds. (It may be more: moving a
-- reservation onto an id that has one drops a reservation and keeps the count.)
abbrev pub Counted : {F : Type 0} → Bytes → MemoryStore F → Type 0
Counted ns s = used ns s.reservations ≤ count_of ns s.counts

module _ {F : Type 0} (ns : Bytes) (nul_free : NulFree ns) where
  pub purge_reservations-Counted :
      (now : Time) (s : MemoryStore F) → Counted ns s → Counted ns (purge_reservations now s)
  unfolding purge_reservations
  purge_reservations-Counted now s c =
      omega (arith, purge_loop-counted now ns s.reservations s.counts 0 nul_free (omega arith))

  pub release_session-Counted :
      (ctx : Option Err) (ns' id : Bytes) (s : MemoryStore F)
      → NulFree ns'
      → Counted ns s
      → Counted ns (release_session ctx ns' id s).1
  unfolding release_session
  release_session-Counted (some e) ns' id s f c = c
  release_session-Counted none ns' id s f c =
      elim (Option-cases (lookup (reservation_key ns' id) s.reservations)) [
        | inl l ↦ ground arith
        | inr (t, l) ↦ ground (
          arith,
          used-erase_held ns (reservation_key ns' id) t s.reservations l,
          in_namespace-key ns ns' id nul_free f,
          same_iff ns' ns,
          lookup-insert ns' ns (count_of ns' s.counts - 1) s.counts,
        )
      ]

  pub move_session_reservation-Counted :
      (ctx : Option Err) (ns' old_id new_id : Bytes) (t : Time) (s : MemoryStore F)
      → NulFree ns'
      → Counted ns s
      → Counted ns (move_session_reservation ctx ns' old_id new_id t s).1
  unfolding move_session_reservation
  move_session_reservation-Counted (some e) ns' old_id new_id t s f c = c
  move_session_reservation-Counted none ns' old_id new_id t s f c =
      let old = reservation_key ns' old_id in
      let new = reservation_key ns' new_id in
      elim (Option-cases (lookup old s.reservations)) [
        | inl l ↦ ground arith
        | inr (u, l) ↦ ground (
          arith,
          used-erase_held ns old u s.reservations l,
          used-insert ns new t (erase old s.reservations),
          in_namespace-key ns ns' old_id nul_free f,
          in_namespace-key ns ns' new_id nul_free f,
        )
      ]

  -- ReserveSession, in any namespace without a zero byte, keeps the count of each such namespace at
  -- least the number of its reservations.
  pub reserve_session-Counted :
      (ctx : Option Err) (now : Time) (ns' id : Bytes) (limit : ℤ) (t : Time) (s : MemoryStore F)
      → NulFree ns'
      → Counted ns s
      → Counted ns (reserve_session ctx now ns' id limit t s).1
  unfolding reserve_session
  reserve_session-Counted (some e) now ns' id limit t s f c = c
  reserve_session-Counted none now ns' id limit t s f c =
      let k = reservation_key ns' id in
      let r = count_loop now (ns' ++ (0 ∷ [])) s.reservations in
      elim (Option-cases (lookup k s.reservations)) [
        | inr (u, l) ↦ ground (arith, used-insert ns k t s.reservations)
        | inl l ↦ elim (Bool-cases (same ns' ns)) [
          | inl here ↦ ground (
            arith,
            used-insert ns k t s.reservations,
            used-insert ns k t r.0,
            in_namespace-key ns ns' id nul_free f,
            same_iff ns' ns,
            count_loop_lem now ns s.reservations,
            lookup-insert ns' ns (suc (count_of ns' s.counts)) s.counts,
            lookup-insert ns' ns r.1 s.counts,
            lookup-insert ns' ns' r.1 s.counts,
            same_refl ns,
            lookup-insert ns' ns (suc r.1) (insert ns' r.1 s.counts),
          )
          | inr there ↦ ground (
            arith,
            used-insert ns k t s.reservations,
            used-insert ns k t r.0,
            in_namespace-key ns ns' id nul_free f,
            used-count_loop-le now ns ns' s.reservations,
            lookup-insert ns' ns (suc (count_of ns' s.counts)) s.counts,
            lookup-insert ns' ns r.1 s.counts,
            lookup-insert ns' ns (suc (count_of ns' (insert ns' r.1 s.counts)))
                (insert ns' r.1 s.counts),
          )
        ]
      ]

  -- In an open store whose count of a namespace without a zero byte covers its reservations,
  -- ReserveSession of a session that has none there (names not empty, limit and deadline positive)
  -- answers true exactly while fewer than the limit of reservations that have not expired stand.
  pub reserve_session-answer :
      (now : Time) (id : Bytes) (limit : ℕ) (t : Time) (s : MemoryStore F)
      → s.closed ≡ false
      → ns ≢ []
      → id ≢ []
      → 0 < limit
      → 0 < t
      → Counted ns s
      → lookup (reservation_key ns id) s.reservations ≡ none
      → (reserve_session none now ns id (pos limit) t s).0
        ≡ ok (ltb (used_live now ns s.reservations) limit)
  unfolding reserve_session
  reserve_session-answer now id limit t s o hn hi hl ht c new = ground (
    arith,
    count_loop_lem now ns s.reservations,
    used_live-le now ns s.reservations,
    same_iff ns [],
    same_iff id [],
  )

  -- Where the count of a namespace without a zero byte covers its reservations, and these are
  -- within the limit, they are within it after ReserveSession with that limit.
  pub reserve_session-limit :
      (ctx : Option Err) (now : Time) (id : Bytes) (limit : ℕ) (t : Time) (s : MemoryStore F)
      → Counted ns s
      → used ns s.reservations ≤ limit
      → used ns (reserve_session ctx now ns id (pos limit) t s).1.reservations ≤ limit
  unfolding reserve_session
  reserve_session-limit (some e) now id limit t s c h = h
  reserve_session-limit none now id limit t s c h =
      let k = reservation_key ns id in
      let r = count_loop now (ns ++ (0 ∷ [])) s.reservations in
      ground (
        arith,
        used-insert ns k t s.reservations,
        used-insert ns k t r.0,
        in_namespace-key ns ns id nul_free nul_free,
        same_refl ns,
        count_loop_lem now ns s.reservations,
        used_live-le now ns s.reservations,
      )
