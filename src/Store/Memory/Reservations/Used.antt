-- ===== src/Store/Memory/Reservations/Used.antt =====
-- How many reservations a namespace holds, and how the two maps of the store move together.
use onionguard.Base.{
  ℕ, ◌+◌, ◌-◌, ◌≤◌, ◌<◌, ◌≡◌, refl, inl, inr, Bool, true, ◌&&◌, Option, none, some, [], ◌∷◌, ◌++◌,
  Bytes, Dict, lookup, insert, erase, lookup-insert, same, same_iff, take, All, arith,
  if◌then◌else◌, Bool-cases, Option-cases,
}
use mathlib.Core.Option
use onionguard.Base.Time.{Time, before}
use onionguard.Store.Memory.Reservations.{
  has_prefix, index_nul, reservation_key, count_of, uncount_key, purge_loop, count_loop,
}

-- A namespace has no zero byte, which ends it in a key.
abbrev pub NulFree : Bytes → Type 0
NulFree = All (λ c. 0 < c)

abbrev pub in_namespace : Bytes → Bytes → Bool
in_namespace ns k = has_prefix k (ns ++ (0 ∷ []))

-- The reservations of a namespace, and those that have not expired.
unfoldable pub used : Bytes → Dict Time → ℕ
used ns [] = 0
used ns ((k, expiry) ∷ m) = (if in_namespace ns k then 1 else 0) + used ns m

unfoldable pub used_live : Time → Bytes → Dict Time → ℕ
used_live now ns [] = 0
used_live now ns ((k, expiry) ∷ m) =
    (if in_namespace ns k && before now expiry then 1 else 0) + used_live now ns m

pub used_live-le : (now : Time) (ns : Bytes) (m : Dict Time) → used_live now ns m ≤ used ns m
unfolding used used_live
used_live-le now ns [] = omega arith
used_live-le now ns ((k, e) ∷ m) = ground (arith, used_live-le now ns m)

pub used-insert :
    (ns k : Bytes) (t : Time) (m : Dict Time)
    → used ns (insert k t m) ≡ (elim (lookup k m) [
      | none ↦ (if in_namespace ns k then 1 else 0) + used ns m
      | some _ ↦ used ns m
    ])
unfolding used lookup insert
used-insert ns k t [] = refl
used-insert ns k t ((j, e) ∷ m) = ground (arith, used-insert ns k t m, same_iff j k)

pub used-erase-le : (ns k : Bytes) (m : Dict Time) → used ns (erase k m) ≤ used ns m
unfolding used erase
used-erase-le ns k [] = omega arith
used-erase-le ns k ((j, e) ∷ m) = ground (arith, used-erase-le ns k m)

pub used-erase_held :
    (ns k : Bytes) (t : Time) (m : Dict Time)
    → lookup k m ≡ some t
    → used ns (erase k m) + (if in_namespace ns k then 1 else 0) ≤ used ns m
unfolding used erase lookup
used-erase_held ns k t [] h = cc
used-erase_held ns k t ((j, e) ∷ m) h =
    ground (arith, used-erase_held ns k t m, used-erase-le ns k m, same_iff j k)

-- A key belongs to the namespace that it was made with, and to no other.
pub in_namespace-key :
    (ns ns' id : Bytes)
    → NulFree ns
    → NulFree ns'
    → in_namespace ns (reservation_key ns' id) ≡ same ns' ns
unfolding has_prefix same
in_namespace-key [] [] id f f' = refl
in_namespace-key [] (y ∷ ns') id f f' = ground arith
in_namespace-key (x ∷ ns) [] id f f' = ground arith
in_namespace-key (x ∷ ns) (y ∷ ns') id f f' = ground (arith, in_namespace-key ns ns' id f.1 f'.1)

-- The namespace that a purge reads off a key.
abbrev namespace_of : Bytes → Option Bytes
namespace_of k = Option.map (λ i. take i k) (index_nul k)

namespace_of-in :
    (ns k : Bytes)
    → NulFree ns
    → (in_namespace ns k ≡ true → namespace_of k ≡ some ns)
      × (namespace_of k ≡ some ns → in_namespace ns k ≡ true)
unfolding has_prefix index_nul
namespace_of-in [] [] f = (λ h. ground arith, λ h. ground arith)
namespace_of-in (x ∷ ns) [] f = (λ h. ground arith, λ h. ground arith)
namespace_of-in [] (c ∷ k) f = (λ h. ground arith, λ h. ground arith)
namespace_of-in (x ∷ ns) (c ∷ k) f =
    (λ h. ground (arith, namespace_of-in ns k f.1), λ h. ground (arith, namespace_of-in ns k f.1))

-- The count of a namespace after a purge dropped a key: one less, if it was a key of the namespace.
pub count_of-uncount_key :
    (ns k : Bytes) (counts : Dict ℕ)
    → NulFree ns
    → count_of ns (uncount_key k counts)
      ≡ (if in_namespace ns k then count_of ns counts - 1 else count_of ns counts)
unfolding uncount_key
count_of-uncount_key ns k counts f = elim (Option-cases (index_nul k)) [
  | inl e ↦ ground (arith, namespace_of-in ns k f)
  | inr (i, e) ↦ ground (
    arith,
    namespace_of-in ns k f,
    same_iff (take i k) ns,
    lookup-insert (take i k) ns (count_of (take i k) counts - 1) counts,
  )
]

-- `d` stands for the reservations that the loop has already kept.
pub purge_loop-counted :
    (now : Time) (ns : Bytes) (m : Dict Time) (counts : Dict ℕ) (d : ℕ)
    → NulFree ns
    → used ns m + d ≤ count_of ns counts
    → used ns (purge_loop now m counts).0 + d ≤ count_of ns (purge_loop now m counts).1
unfolding purge_loop used
purge_loop-counted now ns [] counts d f h = h
purge_loop-counted now ns ((k, e) ∷ m) counts d f h = elim (Bool-cases (before now e)) [
  | inl kept ↦
      rw (kept, purge_loop)
        (omega (
          arith,
          purge_loop-counted now ns m counts ((if in_namespace ns k then 1 else 0) + d) f
              (omega arith),
        ))
  | inr stale ↦
      rw (stale, purge_loop)
        (purge_loop-counted now ns m (uncount_key k counts) d f
          (ground (arith, count_of-uncount_key ns k counts f)))
]

pub used-purge_loop-le :
    (now : Time) (ns : Bytes) (m : Dict Time) (counts : Dict ℕ)
    → used ns (purge_loop now m counts).0 ≤ used ns m
unfolding purge_loop used
used-purge_loop-le now ns [] counts = omega arith
used-purge_loop-le now ns ((k, e) ∷ m) counts =
    ground (
      arith,
      used-purge_loop-le now ns m counts,
      used-purge_loop-le now ns m (uncount_key k counts),
    )

-- The recount finds the reservations that have not expired, and leaves only those.
pub count_loop_lem :
    (now : Time) (ns : Bytes) (m : Dict Time)
    → let r = count_loop now (ns ++ (0 ∷ [])) m in
      (r.1 ≡ used_live now ns m) × (used ns r.0 ≡ used_live now ns m)
unfolding count_loop used used_live
count_loop_lem now ns [] = (refl, refl)
count_loop_lem now ns ((k, e) ∷ m) = ground (arith, count_loop_lem now ns m)

pub used-count_loop-le :
    (now : Time) (ns ns' : Bytes) (m : Dict Time)
    → used ns (count_loop now (ns' ++ (0 ∷ [])) m).0 ≤ used ns m
unfolding count_loop used
used-count_loop-le now ns ns' [] = omega arith
used-count_loop-le now ns ns' ((k, e) ∷ m) = ground (arith, used-count_loop-le now ns ns' m)
