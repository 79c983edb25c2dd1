-- ===== src/Store/Memory/BucketLimits.antt =====
-- store/memory.go: the number of buckets and the limit `MaxEntries`, under `ConsumeToken`.
use onionguard.Base.{
  ◌≤◌, ◌<◌, ◌≡◌, refl, inl, inr, Bool, false, ◌||◌, not, Option, none, some, [], ◌∷◌, ℤ, Bytes,
  same, lookup, insert, length, Dict, All, arith, if◌then◌else◌, if_either, option_either, is_pos,
  pos_part, pos, Bool-cases, length-insert_old, length-insert-le, length-erase-lt, Distinct, Fresh,
  insert-Distinct, erase-Distinct,
}
use onionguard.Base.Time.{Time, Duration, before}
use onionguard.Errors.{Err, Result}
use onionguard.Store.Memory.{MemoryEntry, MemoryBucket, MemoryStore, at_least}
use onionguard.Store.Memory.Room.{
  expire_locked, expire_buckets, oldest_entry, oldest_bucket, evict_oldest_bucket,
}
use onionguard.Store.Memory.Buckets.{Float, refill, take_tokens, make_bucket_room, consume_token}
use onionguard.Store.Memory.Bounds.{oldest_entry-least, insert-All, erase-All, All_of_lookup}
use onionguard.Store.Memory.Capacity.{same-nil}

module _ {F : Type 0} where
  -- The buckets as entries that expire when the bucket was last filled, so that what is known of the
  -- choice of an entry serves for that of a bucket.
  unfoldable as_entries : Dict (MemoryBucket F) → Dict MemoryEntry
  as_entries [] = []
  as_entries ((k, b) ∷ m) = (k, record { value = []; expires_at = b.updated_at }) ∷ as_entries m

  oldest_bucket-as_entries :
      (key : Bytes) (t : Time) (m : Dict (MemoryBucket F))
      → oldest_bucket key t m ≡ oldest_entry key t (as_entries m)
  unfolding oldest_bucket oldest_entry as_entries
  oldest_bucket-as_entries key t [] = refl
  oldest_bucket-as_entries key t ((k, b) ∷ m) =
      let older = same key [] || before b.updated_at t in
      oldest_bucket-as_entries (if older then k else key) (if older then b.updated_at else t) m

  abbrev Named : Dict (MemoryBucket F) → Type 0
  Named m = All (λ p. 0 < length p.0) m

  as_entries-Named :
      (m : Dict (MemoryBucket F)) → Named m → All (λ p. 0 < length p.0) (as_entries m)
  unfolding as_entries
  as_entries-Named [] a = tt
  as_entries-Named ((k, b) ∷ m) a = (a.0, as_entries-Named m a.1)

  as_entries-Fresh : (k : Bytes) (m : Dict (MemoryBucket F)) → Fresh k m → Fresh k (as_entries m)
  unfolding as_entries
  as_entries-Fresh k [] f = tt
  as_entries-Fresh k ((j, b) ∷ m) f = (f.0, as_entries-Fresh k m f.1)

  as_entries-Distinct : (m : Dict (MemoryBucket F)) → Distinct m → Distinct (as_entries m)
  unfolding as_entries
  as_entries-Distinct [] d = tt
  as_entries-Distinct ((k, b) ∷ m) d = (as_entries-Fresh k m d.0, as_entries-Distinct m d.1)

  lookup-as_entries :
      (k : Bytes) (m : Dict (MemoryBucket F)) (e : MemoryEntry)
      → lookup k (as_entries m) ≡ some e
      → (b : MemoryBucket F) × (lookup k m ≡ some b)
  unfolding as_entries lookup
  lookup-as_entries k [] e h = absurd (ground arith)
  lookup-as_entries k ((j, b) ∷ m) e h = elim (Bool-cases (same j k)) [
    | inl x ↦ (b, ground (arith, x))
    | inr x ↦
        let (c, at) = lookup-as_entries k m e (ground (arith, x)) in (c, ground (arith, x, at))
  ]

  length-as_entries : (m : Dict (MemoryBucket F)) → 0 < length m → 0 < length (as_entries m)
  unfolding as_entries
  length-as_entries [] h = absurd (omega arith)
  length-as_entries ((k, b) ∷ m) h = omega arith

  pub record IsBucketBounded (s : MemoryStore F) : Type 0 where
    pub room : 0 < pos_part s.cfg.max_entries
    pub count : length s.buckets ≤ pos_part s.cfg.max_entries
    pub named : Named s.buckets
    pub distinct : Distinct s.buckets

  expire_buckets-Named :
      (now : Time) (m : Dict (MemoryBucket F)) → Named m → Named (expire_buckets now m)
  unfolding expire_buckets
  expire_buckets-Named now [] a = tt
  expire_buckets-Named now ((k, b) ∷ m) a = ground (arith, expire_buckets-Named now m a.1, a.0)

  expire_buckets-Fresh :
      (k : Bytes) (now : Time) (m : Dict (MemoryBucket F))
      → Fresh k m
      → Fresh k (expire_buckets now m)
  unfolding expire_buckets
  expire_buckets-Fresh k now [] f = tt
  expire_buckets-Fresh k now ((j, b) ∷ m) f = ground (arith, expire_buckets-Fresh k now m f.1, f.0)

  expire_buckets-Distinct :
      (now : Time) (m : Dict (MemoryBucket F)) → Distinct m → Distinct (expire_buckets now m)
  unfolding expire_buckets
  expire_buckets-Distinct now [] d = tt
  expire_buckets-Distinct now ((k, b) ∷ m) d =
      ground (arith, expire_buckets-Distinct now m d.1, expire_buckets-Fresh k now m d.0)

  length-expire_buckets :
      (now : Time) (m : Dict (MemoryBucket F)) → length (expire_buckets now m) ≤ length m
  unfolding expire_buckets
  length-expire_buckets now [] = omega arith
  length-expire_buckets now ((k, b) ∷ m) = ground (arith, length-expire_buckets now m)

  -- The key that eviction takes is one of the map's.
  taken :
      (m : Dict (MemoryBucket F))
      → Named m
      → Distinct m
      → 0 < length m
      → let key = (oldest_bucket [] 0 m).0 in
        (same key [] ≡ false) × (b : MemoryBucket F) × (lookup key m ≡ some b)
  unfolding as_entries
  taken [] a d h = absurd (omega arith)
  taken ((k, b) ∷ m) a d h =
      let (f, at, _) =
        oldest_entry-least k (record { value = []; expires_at = b.updated_at }) (as_entries m)
          (as_entries-Distinct ((k, b) ∷ m) d) (as_entries-Named ((k, b) ∷ m) a) in
      let key = (oldest_bucket [] 0 ((k, b) ∷ m)).0 in
      let (c, found) =
        lookup-as_entries key ((k, b) ∷ m) f (rw (oldest_bucket-as_entries [] 0 ((k, b) ∷ m)) at) in
      (same-nil key (All_of_lookup (λ p. 0 < length p.0) key c ((k, b) ∷ m) a found), c, found)

  abbrev HasBucketRoom : MemoryStore F → Type 0
  HasBucketRoom s =
      (length s.buckets < pos_part s.cfg.max_entries) × Named s.buckets × Distinct s.buckets

  make_bucket_room-room :
      (now : Time) (s : MemoryStore F) → IsBucketBounded s → HasBucketRoom (make_bucket_room now s)
  unfolding make_bucket_room expire_locked evict_oldest_bucket
  make_bucket_room-room now s b =
      elim (Bool-cases (at_least (length s.buckets) s.cfg.max_entries)) [
        | inr e ↦ rw e (ground (arith, b.room), b.named, b.distinct)
        | inl e ↦
            let m = expire_buckets now s.buckets in
            let named = expire_buckets-Named now s.buckets b.named in
            let apart = expire_buckets-Distinct now s.buckets b.distinct in
            let fewer = length-expire_buckets now s.buckets in
            rw e (elim (Bool-cases (at_least (length m) s.cfg.max_entries)) [
              | inr h ↦ rw h (ground (arith, fewer, b.room), named, apart)
              | inl h ↦
                  let (key, c, found) = taken m named apart (ground (arith, b.room)) in
                  let least = (oldest_bucket [] 0 m).0 in
                  rw (h, key)
                    (
                      omega (arith, length-erase-lt least c m found, fewer, b.count),
                      erase-All (λ p. 0 < length p.0) least m named,
                      erase-Distinct least m apart,
                    )
            ])
      ]

  add-IsBucketBounded :
      (key : Bytes) (b : MemoryBucket F) (s : MemoryStore F)
      → 0 < length key
      → HasBucketRoom s
      → IsBucketBounded (record s { buckets = insert key b s.buckets })
  add-IsBucketBounded key b s h (few, named, apart) = record {
    room = omega (arith, few);
    count = omega (arith, few, length-insert-le key b s.buckets);
    named = insert-All (λ p. 0 < length p.0) key b s.buckets h named;
    distinct = insert-Distinct key b s.buckets apart;
  }

  over-IsBucketBounded :
      (key : Bytes) (old b : MemoryBucket F) (s : MemoryStore F)
      → 0 < length key
      → IsBucketBounded s
      → lookup key s.buckets ≡ some old
      → IsBucketBounded (record s { buckets = insert key b s.buckets })
  over-IsBucketBounded key old b s h ok_ at = record {
    room = ok_.room;
    count = omega (arith, ok_.count, length-insert_old key b old s.buckets at);
    named = insert-All (λ p. 0 < length p.0) key b s.buckets h ok_.named;
    distinct = insert-Distinct key b s.buckets ok_.distinct;
  }

  take_tokens-new :
      (float : Float F) (key : Bytes) (rate : F) (cost : ℤ) (b : MemoryBucket F) (s : MemoryStore F)
      → 0 < length key
      → HasBucketRoom s
      → IsBucketBounded (take_tokens float key rate cost b s).1
  unfolding take_tokens
  take_tokens-new float key rate cost b s h r =
      let paid = record b { tokens = float.minus b.tokens (float.of_int cost) } in
      elim (Bool-cases (float.at_most (float.of_int cost) b.tokens)) [
        | inl e ↦ rw e (add-IsBucketBounded key paid s h r)
        | inr e ↦ rw e (add-IsBucketBounded key b s h r)
      ]

  take_tokens-over :
      (float : Float F) (key : Bytes) (rate : F) (cost : ℤ) (old b : MemoryBucket F)
      (s : MemoryStore F)
      → 0 < length key
      → IsBucketBounded s
      → lookup key s.buckets ≡ some old
      → IsBucketBounded (take_tokens float key rate cost b s).1
  unfolding take_tokens
  take_tokens-over float key rate cost old b s h bounded at =
      let paid = record b { tokens = float.minus b.tokens (float.of_int cost) } in
      elim (Bool-cases (float.at_most (float.of_int cost) b.tokens)) [
        | inl e ↦ rw e (over-IsBucketBounded key old paid s h bounded at)
        | inr e ↦ rw e (over-IsBucketBounded key old b s h bounded at)
      ]

  -- Whatever it answers and whatever the arithmetic of float64 is, ConsumeToken under a key that is
  -- not empty keeps the buckets within MaxEntries, each under a key of its own that is not empty.
  pub consume_token-IsBucketBounded :
      (float : Float F) (ctx : Option Err) (key : Bytes) (rate : F) (burst cost : ℤ)
      (ttl : Duration) (now : Time) (s : MemoryStore F)
      → 0 < length key
      → IsBucketBounded s
      → IsBucketBounded (consume_token float ctx key rate burst cost ttl now s).1
  unfolding consume_token
  consume_token-IsBucketBounded float (some e) key rate burst cost ttl now s h b = b
  consume_token-IsBucketBounded float none key rate burst cost ttl now s h b =
      let full = refill float rate burst ttl now (lookup key s.buckets) in
      let kept = λ (r : Result (Bool × Duration) × MemoryStore F). IsBucketBounded r.1 in
      if_either kept
        (float.at_most rate (float.of_int (pos 0))
          || (not (is_pos burst) || (not (is_pos cost) || not (is_pos ttl))))
        _ _ (λ _. b)
        (λ _.
          if_either kept s.closed _ _ (λ _. b)
            (λ _.
              option_either kept (lookup key s.buckets) _ _
                (λ _.
                  take_tokens-new float key rate cost full (make_bucket_room now s) h
                    (make_bucket_room-room now s b))
                (λ old e. take_tokens-over float key rate cost old full s h b e)))
