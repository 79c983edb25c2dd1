-- ===== src/Store/Memory/History.antt =====
-- store/memory.go: the limits of the entries, under any sequence of calls.
use onionguard.Base.{
  ◌≡◌, inl, inr, Bool, true, false, ◌||◌, not, Option, none, some, List, [], ◌∷◌, ℤ, is_pos, pos,
  Bytes, ltb_ℤ, erase-Distinct, length-erase-lt, wrap64, ◌+ℤ◌, lookup, erase, arith, Option-cases,
  if_either, option_either,
}
use onionguard.Base.Time.{Time, Duration, add}
use onionguard.Errors.{Err, Result, ok}
use onionguard.Store.Memory.{
  MemoryBucket, MemoryConfig, MemoryEntry, MemoryStore, validate, new_memory_store,
}
use onionguard.Store.Memory.Room.{expire_locked, evict_oldest_bucket}
use onionguard.Store.Memory.Counters.{Decimal, parse_counter, store_counter, increment_with_ttl}
use onionguard.Store.Memory.Buckets.{Float, refill, take_tokens, make_bucket_room, consume_token}
use onionguard.Store.Memory.Reservations.{
  purge_reservations, reserve_session, release_session, move_session_reservation,
}
use onionguard.Store.Memory.Bounds.{
  Fits, IsBounded, erase-All, length-expire_entries, expire_entries-Distinct, expire_entries-All,
}
use onionguard.Store.Memory.Capacity.{HasRoom, put-IsBounded}
use onionguard.Store.Memory.Limits.{
  get_drop-IsBounded, set-IsBounded, delete-IsBounded, get-IsBounded, get_del-IsBounded,
  set_nx-IsBounded, compare_and_delete-IsBounded, compare_and_touch-IsBounded, touch-IsBounded,
  put_in_room-IsBounded, over-IsBounded, erase-IsBounded, validate-Fits,
}
use onionguard.Store.Memory.Operations.{
  Operation, getting, dropping, setting, deleting, get_deleting, setting_nx, comparing_and_deleting,
  comparing_and_touching, touching, incrementing, consuming, reserving, releasing, moving, ticking,
  closing, tick, close, after, run,
}

module _ {F : Type 0} (decimal : Decimal) (float : Float F) where
  new_memory_store-IsBounded :
      (cfg : MemoryConfig) (s : MemoryStore F) → new_memory_store cfg ≡ ok s → IsBounded s
  unfolding new_memory_store
  new_memory_store-IsBounded cfg s h = ground arith

  expire_locked-IsBounded :
      (t : Time) (s : MemoryStore F) → IsBounded s → IsBounded (expire_locked t s)
  unfolding expire_locked
  expire_locked-IsBounded t s b = record {
    room = b.room;
    count = omega (arith, b.count, length-expire_entries t s.entries);
    fit = expire_entries-All (Fits s.cfg) t s.entries b.fit;
    distinct = expire_entries-Distinct t s.entries b.distinct;
  }

  new_counter-IsBounded :
      (t : Time) (k : Bytes) (n d : ℤ) (ttl : Duration) (s : MemoryStore F)
      → IsBounded s
      → IsBounded (store_counter decimal t k n d ttl false s).1
  unfolding store_counter
  new_counter-IsBounded t k n d ttl s b =
      ground (arith, b, put_in_room-IsBounded t k (decimal.format (wrap64 (n +ℤ d))) ttl s b)

  over_counter-IsBounded :
      (t : Time) (k : Bytes) (old : MemoryEntry) (n d : ℤ) (ttl : Duration) (s : MemoryStore F)
      → IsBounded s
      → lookup k s.entries ≡ some old
      → IsBounded (store_counter decimal t k n d ttl true s).1
  unfolding store_counter
  over_counter-IsBounded t k old n d ttl s b e =
      let v = decimal.format (wrap64 (n +ℤ d)) in
      ground (
        arith,
        b,
        over-IsBounded k old (record { value = v; expires_at = add t ttl }) s b e,
        validate-Fits s k v (add t ttl),
      )

  -- A counter that expired: its entry is dropped first, which leaves the room for the new one.
  fresh_counter-IsBounded :
      (t : Time) (k : Bytes) (old : MemoryEntry) (d : ℤ) (ttl : Duration) (s : MemoryStore F)
      → IsBounded s
      → lookup k s.entries ≡ some old
      → IsBounded
          (store_counter decimal t k
            (pos 0)
            d
            ttl
            true
            (record s { entries = erase k s.entries })).1
  unfolding store_counter validate
  fresh_counter-IsBounded t k old d ttl s b e =
      let v = decimal.format (wrap64 (pos 0 +ℤ d)) in
      let room : HasRoom s.cfg (erase k s.entries) = record {
        count = omega (arith, b.count, length-erase-lt k old s.entries e);
        fit = erase-All (Fits s.cfg) k s.entries b.fit;
        distinct = erase-Distinct k s.entries b.distinct;
      } in
      let kept = λ (r : Result ℤ × MemoryStore F). IsBounded r.1 in
      if_either kept (ltb_ℤ (wrap64 (pos 0 +ℤ d)) (pos 0)) _ _ (λ _. erase-IsBounded k s b)
        (λ _. elim (Option-cases (validate s k v)) [
          | inr (x, h) ↦ rw (h, validate) (erase-IsBounded k s b)
          | inl h ↦
              rw (h, validate)
                (put-IsBounded t k v ttl (record s { entries = erase k s.entries }) room
                  (validate-Fits s k v 0 h))
        ])

  increment-IsBounded :
      (c : Option Err) (t : Time) (k : Bytes) (d : ℤ) (ttl : Duration) (s : MemoryStore F)
      → IsBounded s
      → IsBounded (increment_with_ttl decimal c t k d ttl s).1
  unfolding increment_with_ttl
  increment-IsBounded (some x) t k d ttl s b = b
  increment-IsBounded none t k d ttl s b = elim (Option-cases (lookup k s.entries)) [
    | inl e ↦ ground (arith, e, b, new_counter-IsBounded t k (pos 0) d ttl s b)
    | inr (old, e) ↦ elim (Option-cases (parse_counter decimal old.value)) [
      | inl p ↦ ground (arith, e, p, b, fresh_counter-IsBounded t k old d ttl s b e)
      | inr (n, p) ↦ ground (
        arith,
        e,
        p,
        b,
        over_counter-IsBounded t k old n d ttl s b e,
        fresh_counter-IsBounded t k old d ttl s b e,
      )
    ]
  ]

  take_tokens-IsBounded :
      (k : Bytes) (rate : F) (cost : ℤ) (x : MemoryBucket F) (s : MemoryStore F)
      → IsBounded s
      → IsBounded (take_tokens float k rate cost x s).1
  unfolding take_tokens
  take_tokens-IsBounded k rate cost x s b = ground (arith, b)

  make_bucket_room-IsBounded :
      (t : Time) (s : MemoryStore F) → IsBounded s → IsBounded (make_bucket_room t s)
  unfolding make_bucket_room evict_oldest_bucket
  make_bucket_room-IsBounded t s b = ground (arith, b, expire_locked-IsBounded t s b)

  consume_token-IsBounded :
      (c : Option Err) (k : Bytes) (rate : F) (burst cost : ℤ) (ttl : Duration) (t : Time)
      (s : MemoryStore F)
      → IsBounded s
      → IsBounded (consume_token float c k rate burst cost ttl t s).1
  unfolding consume_token
  consume_token-IsBounded (some e) k rate burst cost ttl t s b = b
  consume_token-IsBounded none k rate burst cost ttl t s b =
      let kept = λ (r : Result (Bool × Duration) × MemoryStore F). IsBounded r.1 in
      let x = refill float rate burst ttl t (lookup k s.buckets) in
      if_either kept
        (float.at_most rate (float.of_int (pos 0))
          || (not (is_pos burst) || (not (is_pos cost) || not (is_pos ttl))))
        _ _ (λ _. b)
        (λ _.
          if_either kept s.closed _ _ (λ _. b)
            (λ _.
              option_either kept (lookup k s.buckets) _ _
                (λ _.
                  take_tokens-IsBounded k rate cost x (make_bucket_room t s)
                    (make_bucket_room-IsBounded t s b))
                (λ _ _. take_tokens-IsBounded k rate cost x s b)))

  reserve_session-IsBounded :
      (c : Option Err) (t : Time) (n i : Bytes) (limit : ℤ) (e : Time) (s : MemoryStore F)
      → IsBounded s
      → IsBounded (reserve_session c t n i limit e s).1
  unfolding reserve_session
  reserve_session-IsBounded c t n i limit e s b = ground (arith, b)

  release_session-IsBounded :
      (c : Option Err) (n i : Bytes) (s : MemoryStore F)
      → IsBounded s
      → IsBounded (release_session c n i s).1
  unfolding release_session
  release_session-IsBounded c n i s b = ground (arith, b)

  move-IsBounded :
      (c : Option Err) (n old i : Bytes) (e : Time) (s : MemoryStore F)
      → IsBounded s
      → IsBounded (move_session_reservation c n old i e s).1
  unfolding move_session_reservation
  move-IsBounded c n old i e s b = ground (arith, b)

  tick-IsBounded : (t : Time) (s : MemoryStore F) → IsBounded s → IsBounded (tick t s)
  unfolding tick purge_reservations
  tick-IsBounded t s b = ground (arith, expire_locked-IsBounded t s b, b)

  after-IsBounded :
      (o : Operation F) (s : MemoryStore F) → IsBounded s → IsBounded (after decimal float o s)
  unfolding after close
  after-IsBounded (getting c t k) s b = get-IsBounded c t k s b
  after-IsBounded (dropping t k) s b = get_drop-IsBounded t k s b
  after-IsBounded (setting c t k v ttl) s b = set-IsBounded c t k v ttl s b
  after-IsBounded (deleting c k) s b = delete-IsBounded c k s b
  after-IsBounded (get_deleting c t k) s b = get_del-IsBounded c t k s b
  after-IsBounded (setting_nx c t k v ttl) s b = set_nx-IsBounded c t k v ttl s b
  after-IsBounded (comparing_and_deleting c t k v) s b = compare_and_delete-IsBounded c t k v s b
  after-IsBounded (comparing_and_touching c t k v ttl) s b =
      compare_and_touch-IsBounded c t k v ttl s b
  after-IsBounded (touching c t k ttl) s b = touch-IsBounded c t k ttl s b
  after-IsBounded (incrementing c t k d ttl) s b = increment-IsBounded c t k d ttl s b
  after-IsBounded (consuming c k rate burst cost ttl t) s b =
      consume_token-IsBounded c k rate burst cost ttl t s b
  after-IsBounded (reserving c t n i limit e) s b = reserve_session-IsBounded c t n i limit e s b
  after-IsBounded (releasing c n i) s b = release_session-IsBounded c n i s b
  after-IsBounded (moving c n old i e) s b = move-IsBounded c n old i e s b
  after-IsBounded (ticking t) s b = tick-IsBounded t s b
  after-IsBounded closing s b = record {
    room = b.room;
    count = b.count;
    fit = b.fit;
    distinct = b.distinct;
  }

  run-IsBounded :
      (os : List (Operation F)) (s : MemoryStore F)
      → IsBounded s
      → IsBounded (run decimal float os s)
  unfolding run
  run-IsBounded [] s b = b
  run-IsBounded (o ∷ os) s b = run-IsBounded os (after decimal float o s) (after-IsBounded o s b)

  -- After any sequence of the calls of a MemoryStore on a new store, ticks of the janitor and Close
  -- included, it holds at most MaxEntries entries, each under a key of its own that is not empty
  -- and within MaxKeyBytes, with a value within MaxValueBytes.
  pub run_new-IsBounded :
      (cfg : MemoryConfig) (os : List (Operation F)) (s : MemoryStore F)
      → new_memory_store cfg ≡ ok s
      → IsBounded (run decimal float os s)
  run_new-IsBounded cfg os s h = run-IsBounded os s (new_memory_store-IsBounded cfg s h)
