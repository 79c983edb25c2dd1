-- ===== src/Base/Table.antt =====
-- Go's maps with string keys as association lists. An iteration goes through the list.
use Prim.Native.Nat.{suc, ◌≤◌, ◌<◌}
use mathlib.Core.Path.{◌≡◌, refl}
use mathlib.Core.Bool.{false}
use mathlib.Core.Option.{Option, none, some}
use mathlib.Core.List.{List, [], ◌∷◌}
use native.Mathlib.Omega.{arith}
use onionguard.Base.Tests.{if◌then◌else◌}
use onionguard.Base.Lists.{length}
use onionguard.Base.Text.{Bytes, same, same_iff}

abbrev pub Dict : Type 0 → Type 0
Dict V = List (Bytes × V)

module _ {V : Type 0} where
  unfoldable pub lookup : Bytes → Dict V → Option V
  lookup k [] = none
  lookup k ((j, v) ∷ m) = if same j k then some v else lookup k m

  -- `m[k] = v`
  unfoldable pub insert : Bytes → V → Dict V → Dict V
  insert k v [] = (k, v) ∷ []
  insert k v ((j, w) ∷ m) = if same j k then (k, v) ∷ m else (j, w) ∷ insert k v m

  -- `delete(m, k)`
  unfoldable pub erase : Bytes → Dict V → Dict V
  erase k [] = []
  erase k ((j, w) ∷ m) = let rest = erase k m in if same j k then rest else (j, w) ∷ rest

  pub lookup-insert :
      (k j : Bytes) (v : V) (m : Dict V)
      → lookup j (insert k v m) ≡ (if same k j then some v else lookup j m)
  unfolding lookup insert
  lookup-insert k j v [] = refl
  lookup-insert k j v ((i, w) ∷ m) =
      ground (arith, same_iff k j, same_iff i k, same_iff i j, lookup-insert k j v m)

  pub lookup-erase :
      (k j : Bytes) (m : Dict V) → lookup j (erase k m) ≡ (if same k j then none else lookup j m)
  unfolding lookup erase
  lookup-erase k j [] = ground arith
  lookup-erase k j ((i, w) ∷ m) =
      ground (arith, same_iff k j, same_iff i k, same_iff i j, lookup-erase k j m)

  pub length-insert_new :
      (k : Bytes) (v : V) (m : Dict V) → lookup k m ≡ none → length (insert k v m) ≡ suc (length m)
  unfolding lookup insert
  length-insert_new k v [] h = refl
  length-insert_new k v ((i, w) ∷ m) h = ground (arith, length-insert_new k v m)

  pub length-insert_old :
      (k : Bytes) (v w : V) (m : Dict V) → lookup k m ≡ some w → length (insert k v m) ≡ length m
  unfolding lookup insert
  length-insert_old k v u [] h = cc
  length-insert_old k v u ((i, w) ∷ m) h = ground (arith, length-insert_old k v u m)

  pub length-insert-le : (k : Bytes) (v : V) (m : Dict V) → length (insert k v m) ≤ suc (length m)
  unfolding insert
  length-insert-le k v [] = omega arith
  length-insert-le k v ((i, w) ∷ m) = ground (arith, length-insert-le k v m)

  pub length-erase-le : (k : Bytes) (m : Dict V) → length (erase k m) ≤ length m
  unfolding erase
  length-erase-le k [] = omega arith
  length-erase-le k ((i, w) ∷ m) = ground (arith, length-erase-le k m)

  pub length-erase-lt :
      (k : Bytes) (v : V) (m : Dict V) → lookup k m ≡ some v → length (erase k m) < length m
  unfolding lookup erase
  length-erase-lt k v [] h = cc
  length-erase-lt k v ((i, w) ∷ m) h = ground (arith, length-erase-lt k v m, length-erase-le k m)

  -- No entry has the key.
  abbrev pub Fresh : Bytes → Dict V → Type 0
  Fresh k [] = Unit
  Fresh k ((j, v) ∷ m) = (same j k ≡ false) × Fresh k m

  -- No key stands twice.
  abbrev pub Distinct : Dict V → Type 0
  Distinct [] = Unit
  Distinct ((k, v) ∷ m) = Fresh k m × Distinct m

  pub lookup_of_Fresh : (k : Bytes) (m : Dict V) → Fresh k m → lookup k m ≡ none
  unfolding lookup
  lookup_of_Fresh k [] h = refl
  lookup_of_Fresh k ((j, v) ∷ m) h = ground (arith, lookup_of_Fresh k m h.1)

  insert-Fresh :
      (j k : Bytes) (v : V) (m : Dict V) → same k j ≡ false → Fresh j m → Fresh j (insert k v m)
  unfolding insert
  insert-Fresh j k v [] h f = (h, tt)
  insert-Fresh j k v ((i, w) ∷ m) h f = ground (arith, insert-Fresh j k v m h f.1)

  pub insert-Distinct : (k : Bytes) (v : V) (m : Dict V) → Distinct m → Distinct (insert k v m)
  unfolding insert
  insert-Distinct k v [] d = (tt, tt)
  insert-Distinct k v ((i, w) ∷ m) d =
      ground (arith, same_iff i k, same_iff k i, insert-Distinct k v m d.1, insert-Fresh i k v m)

  erase-Fresh : (j k : Bytes) (m : Dict V) → Fresh j m → Fresh j (erase k m)
  unfolding erase
  erase-Fresh j k [] f = tt
  erase-Fresh j k ((i, w) ∷ m) f = ground (arith, erase-Fresh j k m f.1)

  pub erase-Distinct : (k : Bytes) (m : Dict V) → Distinct m → Distinct (erase k m)
  unfolding erase
  erase-Distinct k [] d = tt
  erase-Distinct k ((i, w) ∷ m) d = ground (arith, erase-Distinct k m d.1, erase-Fresh i k m d.0)
