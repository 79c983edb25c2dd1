-- ===== src/Store/Memory/Bounds.antt =====
-- The limits of a MemoryStore, which every operation on its entries keeps.
use onionguard.Base.{
  ◌≤◌, ◌<◌, ◌≡◌, refl, ◌⊎◌, inl, inr, subst, sym, ap, Bool, true, false, ◌||◌, some, [], ◌∷◌,
  pos_part, Bytes, Dict, lookup, insert, erase, length, All, arith, same, same_iff, Distinct, Fresh,
  lookup_of_Fresh, if◌then◌else◌, Bool-cases,
}
use onionguard.Base.Time.{Time, passed, before}
use onionguard.Store.Memory.{MemoryConfig, MemoryEntry, MemoryStore}
use onionguard.Store.Memory.Room.{expire_entries, oldest_entry}

-- What `validate` lets through.
abbrev pub Fits : MemoryConfig → Bytes × MemoryEntry → Type 0
Fits cfg p =
    (0 < length p.0)
    × (length p.0 ≤ pos_part cfg.max_key_bytes)
    × (length p.1.value ≤ pos_part cfg.max_value_bytes)

pub record IsBounded {F : Type 0} (s : MemoryStore F) : Type 0 where
  pub room : 0 < pos_part s.cfg.max_entries
  pub count : length s.entries ≤ pos_part s.cfg.max_entries
  pub fit : All (Fits s.cfg) s.entries
  pub distinct : Distinct s.entries

module _ {κ} {V : Type 0} (P : Bytes × V → Type κ) where
  pub insert-All : (k : Bytes) (v : V) (m : Dict V) → P (k, v) → All P m → All P (insert k v m)
  unfolding insert
  insert-All k v [] p a = (p, tt)
  insert-All k v ((j, w) ∷ m) p a = elim (Bool-cases (same j k)) [
    | inl e ↦ rw e (p, a.1)
    | inr e ↦ rw e (a.0, insert-All k v m p a.1)
  ]

  pub erase-All : (k : Bytes) (m : Dict V) → All P m → All P (erase k m)
  unfolding erase
  erase-All k [] a = tt
  erase-All k ((j, w) ∷ m) a = elim (Bool-cases (same j k)) [
    | inl e ↦ rw e (erase-All k m a.1)
    | inr e ↦ rw e (a.0, erase-All k m a.1)
  ]

pub All_of_lookup {κ} :
    {V : Type 0} (P : Bytes × V → Type κ) (k : Bytes) (v : V) (m : Dict V)
    → All P m
    → lookup k m ≡ some v
    → P (k, v)
unfolding lookup
All_of_lookup P k v [] a e = cc
All_of_lookup {V} P k v ((j, w) ∷ m) a e = elim (Bool-cases (same j k)) [
  | inl h ↦
      let q : ◌≡◌ {A = Bytes × V} (j, w) (k, v) = ground (arith, same_iff j k) in subst P q a.0
  | inr h ↦ All_of_lookup P k v m a.1 (ground arith)
]

pub length-expire_entries :
    (now : Time) (m : Dict MemoryEntry) → length (expire_entries now m) ≤ length m
unfolding expire_entries
length-expire_entries now [] = omega arith
length-expire_entries now ((k, e) ∷ m) = ground (arith, length-expire_entries now m)

expire_entries-Fresh :
    (now : Time) (k : Bytes) (m : Dict MemoryEntry) → Fresh k m → Fresh k (expire_entries now m)
unfolding expire_entries
expire_entries-Fresh now k [] f = tt
expire_entries-Fresh now k ((j, e) ∷ m) f = ground (arith, expire_entries-Fresh now k m f.1)

pub expire_entries-Distinct :
    (now : Time) (m : Dict MemoryEntry) → Distinct m → Distinct (expire_entries now m)
unfolding expire_entries
expire_entries-Distinct now [] f = tt
expire_entries-Distinct now ((j, e) ∷ m) f =
    ground (arith, expire_entries-Distinct now m f.1, expire_entries-Fresh now j m f.0)

pub expire_entries-All {κ} :
    (P : Bytes × MemoryEntry → Type κ) (now : Time) (m : Dict MemoryEntry)
    → All P m
    → All P (expire_entries now m)
unfolding expire_entries
expire_entries-All P now [] a = tt
expire_entries-All P now ((j, e) ∷ m) a = elim (Bool-cases (passed now e.expires_at)) [
  | inl h ↦ rw h (expire_entries-All P now m a.1)
  | inr h ↦ rw h (a.0, expire_entries-All P now m a.1)
]

-- The loop ends at the key and time it began with, or at those of an entry of the map.
oldest-step :
    (r : Bytes × Time) (key : Bytes) (exp : Time) (k : Bytes) (e : MemoryEntry)
    (m : Dict MemoryEntry) (older : Bool)
    → Fresh k m
    → (r ≡ (if older then k else key, if older then e.expires_at else exp))
      ⊎ ((f : MemoryEntry) × (lookup r.0 m ≡ some f) × (f.expires_at ≡ r.1))
    → (r ≡ (key, exp))
      ⊎ ((f : MemoryEntry) × (lookup r.0 ((k, e) ∷ m) ≡ some f) × (f.expires_at ≡ r.1))
unfolding lookup
oldest-step r key exp k e m true fr (inl h) = inr (e, ground (arith, same_iff k r.0), ground arith)
oldest-step r key exp k e m false fr (inl h) = inl h
oldest-step r key exp k e m older fr (inr h) =
    inr (h.0, ground (arith, same_iff k r.0, lookup_of_Fresh k m fr), h.2)

lookup-head :
    (k j : Bytes) (e : MemoryEntry) (m : Dict MemoryEntry)
    → ((k ≡ j) → lookup j ((k, e) ∷ m) ≡ some e)
      × ((same k j ≡ false) → lookup j ((k, e) ∷ m) ≡ lookup j m)
unfolding lookup
lookup-head k j e m = (λ h. ground (arith, same_iff k j), λ h. ground arith)

oldest_entry-Has :
    (key : Bytes) (exp : Time) (m : Dict MemoryEntry)
    → Distinct m
    → let r = oldest_entry key exp m in
      (r ≡ (key, exp)) ⊎ ((f : MemoryEntry) × (lookup r.0 m ≡ some f) × (f.expires_at ≡ r.1))
unfolding oldest_entry
oldest_entry-Has key exp [] d = inl refl
oldest_entry-Has key exp ((k, e) ∷ m) d =
    let older = same key [] || before e.expires_at exp in
    oldest-step (oldest_entry key exp ((k, e) ∷ m)) key exp k e m older d.0
      (oldest_entry-Has (if older then k else key) (if older then e.expires_at else exp) m d.1)

-- No entry expires before `t`.
abbrev pub NoEarlier : Time → Dict MemoryEntry → Type 0
NoEarlier t m = All (λ p. t ≤ p.1.expires_at) m

least-step :
    (r exp : Time) (k : Bytes) (e : MemoryEntry) (m : Dict MemoryEntry) (older : Bool)
    → before e.expires_at exp ≡ older
    → (r ≤ (if older then e.expires_at else exp)) × NoEarlier r m
    → (r ≤ exp) × NoEarlier r ((k, e) ∷ m)
least-step r exp k e m true b (h, n) = (ground arith, (h, n))
least-step r exp k e m false b (h, n) = (h, (ground arith, n))

-- Once a key is held, the time only falls, down to that of every entry.
oldest_entry-le :
    (key : Bytes) (exp : Time) (m : Dict MemoryEntry)
    → 0 < length key
    → All (λ p. 0 < length p.0) m
    → ((oldest_entry key exp m).1 ≤ exp) × NoEarlier (oldest_entry key exp m).1 m
unfolding oldest_entry same
oldest_entry-le key exp [] h a = (omega arith, tt)
oldest_entry-le [] exp ((k, e) ∷ m) h a = absurd (omega arith)
oldest_entry-le (c ∷ cs) exp ((k, e) ∷ m) h a =
    let older = before e.expires_at exp in
    let key = if older then k else c ∷ cs in
    let held : 0 < length key = ground (arith, a.0) in
    least-step (oldest_entry (c ∷ cs) exp ((k, e) ∷ m)).1 exp k e m older refl
      (oldest_entry-le key (if older then e.expires_at else exp) m held a.1)

-- In a map that is not empty, with distinct keys that are not empty, the loop of
-- evictOldestEntryLocked finds the key of an entry that expires no later than any other.
pub oldest_entry-least :
    (k : Bytes) (e : MemoryEntry) (m : Dict MemoryEntry)
    → Distinct ((k, e) ∷ m)
    → All (λ p. 0 < length p.0) ((k, e) ∷ m)
    → (f : MemoryEntry) × (lookup (oldest_entry [] 0 ((k, e) ∷ m)).0 ((k, e) ∷ m) ≡ some f)
      × NoEarlier f.expires_at ((k, e) ∷ m)
unfolding oldest_entry same
oldest_entry-least k e m d a =
    let bound = oldest_entry-le k e.expires_at m a.0 a.1 in
    let r = oldest_entry k e.expires_at m in
    elim (oldest_entry-Has k e.expires_at m d.1) [
      | inl h ↦ (
        e,
        ground (arith, ap (λ (q : Bytes × Time). q.0) h, lookup-head k r.0 e m),
        (omega arith, subst (λ t. NoEarlier t m) (ap (λ (q : Bytes × Time). q.1) h) bound.1),
      )
      | inr (f, at, t) ↦ (
        f,
        ground (arith, lookup-head k r.0 e m, at, lookup_of_Fresh k m d.0, same_iff k r.0),
        (ground (arith, bound.0), subst (λ u. NoEarlier u m) (sym t) bound.1),
      )
    ]
