-- ===== src/Tests/Store.antt =====
-- The memory store on small inputs: a store of two entries and two buckets, and a namespace of one byte.
use onionguard.Base.{
  ℕ, ◌+◌, ◌≡◌, refl, ◌⊎◌, false, ◌&&◌, none, some, List, [], ◌∷◌, pos, negsuc, ltb, Bytes, lookup,
  same, arith, if◌then◌else◌, ◌+ℤ◌, wrap64, ◌-◌, ◌*◌, leb, min,
}
use onionguard.Errors.{ok}
use onionguard.Store.Spec.{shows}
use onionguard.Store.Memory.{MemoryConfig, MemoryStore, new_memory_store, validate}
use onionguard.Store.Memory.Entries.{get, set, compare_and_delete}
use onionguard.Store.Memory.Bounds.{IsBounded}
use onionguard.Store.Memory.View.{view}
use onionguard.Store.Memory.Refines.{Evicted, set-get, set-view_other, compare_and_delete-view}
use onionguard.Store.Memory.Counters.{
  store_counter, Decimal, parse_counter, increment_with_ttl, increment-increment,
}
use onionguard.Store.Memory.Buckets.{Float, consume_token}
use onionguard.Store.Memory.BucketLimits.{IsBucketBounded, consume_token-IsBucketBounded}
use onionguard.Store.Memory.Operations.{Operation, setting, incrementing, ticking, closing, run}
use onionguard.Store.Memory.History.{run_new-IsBounded}
use onionguard.Store.Memory.Reservations.{has_prefix, reserve_session, reservation_key}
use onionguard.Store.Memory.Reservations.Used.{NulFree, used, used_live}
use onionguard.Store.Memory.Reservations.Capacity.{
  Counted, reserve_session-Counted, reserve_session-answer,
}

abbrev config : MemoryConfig
config = record {
  max_entries = pos 2;
  max_key_bytes = pos 8;
  max_value_bytes = pos 8;
  cleanup_interval = pos 1000;
}

abbrev key_a : Bytes
key_a = 97 ∷ []

abbrev key_b : Bytes
key_b = 98 ∷ []

abbrev key_c : Bytes
key_c = 99 ∷ []

abbrev value : Bytes
value = 118 ∷ []

abbrev fresh_value : Bytes
fresh_value = 119 ∷ []

-- Two entries, `a` until 20 and `b` until 30: the store is full.
abbrev full_store : MemoryStore ℕ
full_store = record {
  entries =
      (key_a, record { value = value; expires_at = 20 })
      ∷ (key_b, record { value = value; expires_at = 30 })
      ∷ [];
  buckets = (key_a, record { tokens = 1; updated_at = 5; expires_at = 100 }) ∷ [];
  reservations = [];
  counts = [];
  cfg = config;
  closed = false;
}

full_store-IsBounded : IsBounded full_store
unfolding same
full_store-IsBounded = ground arith

full_store-IsBucketBounded : IsBucketBounded full_store
unfolding same
full_store-IsBucketBounded = ground arith

set-get_example : (get none 15 key_c (set none 10 key_c value (pos 10) full_store).1).0 ≡ ok value
unfolding set validate
set-get_example = set-get 10 15 key_c value (pos 10) full_store (omega arith) refl

set-view_other_example :
    (view 12 (set none 10 key_c value (pos 10) full_store).1.entries key_b
      ≡ view 12 full_store.entries key_b)
    ⊎ Evicted 10 full_store key_b
set-view_other_example =
    set-view_other 10 12 key_c key_b value (pos 10) full_store full_store-IsBounded (omega arith)
      (ground arith)

compare_and_delete-view_example :
    let r = compare_and_delete none 10 key_a value full_store in
    (r.0 ≡ ok (shows value (view 10 full_store.entries key_a)))
    × (view 11 r.1.entries key_a ≡ (
        if shows value (view 10 full_store.entries key_a) && same key_a key_a
        then none
        else view 11 full_store.entries key_a))
compare_and_delete-view_example =
    compare_and_delete-view 10 11 key_a value key_a full_store refl (omega arith)

-- Counters of one digit.
abbrev digits : Decimal
digits = record {
  parse = λ b. elim b [ [] ↦ none | c ∷ cs ↦ some (pos (c - 48)) ];
  format = λ n. elim n [ pos m ↦ (48 + m) ∷ [] | negsuc m ↦ 45 ∷ 49 ∷ [] ];
}

increment-increment_example :
    (increment_with_ttl digits none 26 key_a
      (pos 2)
      (pos 10)
      (increment_with_ttl digits none 25 key_a (pos 3) (pos 10) full_store).1).0
    ≡ ok (wrap64 (pos 3 +ℤ pos 2))
unfolding increment_with_ttl validate parse_counter lookup same store_counter
increment-increment_example =
    increment-increment digits 25 26 key_a (pos 3) (pos 2) (pos 3) (pos 10) (pos 10) full_store refl
      (omega arith) refl refl refl refl

-- A float64 that is a whole number, for a test.
abbrev pub whole : Float ℕ
whole = record {
  of_int = λ n. elim n [ pos m ↦ m | negsuc m ↦ 0 ];
  to_int = λ x. pos x;
  seconds = λ d. elim d [ pos m ↦ m | negsuc m ↦ 0 ];
  min = λ x y. min x y;
  ceil = λ x. x;
  plus = λ x y. x + y;
  minus = λ x y. x - y;
  times = λ x y. x * y;
  over = λ x y. x;
  less = λ x y. ltb x y;
  at_most = λ x y. leb x y;
}

consume_token-IsBucketBounded_example :
    IsBucketBounded (consume_token whole none key_b 1 (pos 5) (pos 1) (pos 100) 10 full_store).1
consume_token-IsBucketBounded_example =
    consume_token-IsBucketBounded whole none key_b 1 (pos 5) (pos 1) (pos 100) 10 full_store
      (omega arith) full_store-IsBucketBounded

abbrev empty_store : MemoryStore ℕ
empty_store = record {
  entries = [];
  buckets = [];
  reservations = [];
  counts = [];
  cfg = config;
  closed = false;
}

abbrev calls : List (Operation ℕ)
calls =
    setting none 1 key_a value (pos 10)
    ∷ setting none 2 key_b value (pos 10)
    ∷ setting none 3 key_c value (pos 10)
    ∷ incrementing none 4 key_b (pos 1) (pos 10)
    ∷ ticking 50
    ∷ closing
    ∷ []

run_new-IsBounded_example : IsBounded (run digits whole calls empty_store)
unfolding new_memory_store
run_new-IsBounded_example = run_new-IsBounded digits whole config calls empty_store refl

-- A namespace with one place taken until 20.
abbrev space : Bytes
space = 110 ∷ []

space-NulFree : NulFree space
space-NulFree = ground arith

abbrev taken_store : MemoryStore ℕ
taken_store = record empty_store {
  reservations = (reservation_key space key_a, 20) ∷ [];
  counts = (space, 1) ∷ [];
}

taken_store-Counted : Counted space taken_store
unfolding used lookup has_prefix same
taken_store-Counted = ground arith

reserve_session-answer_example :
    (reserve_session none 10 space key_b (pos 2) 30 taken_store).0
    ≡ ok (ltb (used_live 10 space taken_store.reservations) 2)
unfolding lookup same
reserve_session-answer_example =
    reserve_session-answer space space-NulFree 10 key_b 2 30 taken_store refl (ground arith)
      (ground arith) (omega arith) (omega arith) taken_store-Counted refl

reserve_session-Counted_example :
    Counted space (reserve_session none 10 space key_b (pos 2) 30 taken_store).1
reserve_session-Counted_example =
    reserve_session-Counted space space-NulFree none 10 space key_b (pos 2) 30 taken_store
      space-NulFree taken_store-Counted
