-- ===== src/Store/Memory/Operations.antt =====
-- store/memory.go: sequences of the calls of a store, as goroutines make them one after another under
-- its mutex; the tick of `janitor` and `Close` are two of them.
use onionguard.Base.{true, Option, List, [], ◌∷◌, ℤ, Bytes, if◌then◌else◌}
use onionguard.Base.Time.{Time, Duration}
use onionguard.Errors.{Err}
use onionguard.Store.Memory.{MemoryStore}
use onionguard.Store.Memory.Room.{expire_locked}
use onionguard.Store.Memory.Entries.{
  get, get_drop, set, delete, get_del, set_nx, compare_and_delete, compare_and_touch, touch,
}
use onionguard.Store.Memory.Counters.{Decimal, increment_with_ttl}
use onionguard.Store.Memory.Buckets.{Float, consume_token}
use onionguard.Store.Memory.Reservations.{
  purge_reservations, reserve_session, release_session, move_session_reservation,
}

module _ {F : Type 0} where
  -- The body of the `ticker.C` case of `janitor`.
  unfoldable pub tick : Time → MemoryStore F → MemoryStore F
  tick now s = if s.closed then s else purge_reservations now (expire_locked now s)

  -- The once-only function of `Close`.
  unfoldable pub close : MemoryStore F → MemoryStore F
  close s = record s { closed = true }

-- A call with its arguments: the state of its context, the time that it reads, and its own.
pub data Operation (F : Type 0) : Type 0 where
  getting : Option Err → Time → Bytes → Operation F
  dropping : Time → Bytes → Operation F
  setting : Option Err → Time → Bytes → Bytes → Duration → Operation F
  deleting : Option Err → Bytes → Operation F
  get_deleting : Option Err → Time → Bytes → Operation F
  setting_nx : Option Err → Time → Bytes → Bytes → Duration → Operation F
  comparing_and_deleting : Option Err → Time → Bytes → Bytes → Operation F
  comparing_and_touching : Option Err → Time → Bytes → Bytes → Duration → Operation F
  touching : Option Err → Time → Bytes → Duration → Operation F
  incrementing : Option Err → Time → Bytes → ℤ → Duration → Operation F
  consuming : Option Err → Bytes → F → ℤ → ℤ → Duration → Time → Operation F
  reserving : Option Err → Time → Bytes → Bytes → ℤ → Time → Operation F
  releasing : Option Err → Bytes → Bytes → Operation F
  moving : Option Err → Bytes → Bytes → Bytes → Time → Operation F
  ticking : Time → Operation F
  closing : Operation F

module _ {F : Type 0} (decimal : Decimal) (float : Float F) where
  -- The state that a call leaves.
  unfoldable pub after : Operation F → MemoryStore F → MemoryStore F
  after (getting c t k) s = (get c t k s).1
  after (dropping t k) s = get_drop t k s
  after (setting c t k v ttl) s = (set c t k v ttl s).1
  after (deleting c k) s = (delete c k s).1
  after (get_deleting c t k) s = (get_del c t k s).1
  after (setting_nx c t k v ttl) s = (set_nx c t k v ttl s).1
  after (comparing_and_deleting c t k v) s = (compare_and_delete c t k v s).1
  after (comparing_and_touching c t k v ttl) s = (compare_and_touch c t k v ttl s).1
  after (touching c t k ttl) s = (touch c t k ttl s).1
  after (incrementing c t k d ttl) s = (increment_with_ttl decimal c t k d ttl s).1
  after (consuming c k rate burst cost ttl t) s =
      (consume_token float c k rate burst cost ttl t s).1
  after (reserving c t n i limit e) s = (reserve_session c t n i limit e s).1
  after (releasing c n i) s = (release_session c n i s).1
  after (moving c n old i e) s = (move_session_reservation c n old i e s).1
  after (ticking t) s = tick t s
  after closing s = close s

  unfoldable pub run : List (Operation F) → MemoryStore F → MemoryStore F
  unfolding after
  run [] s = s
  run (o ∷ os) s = run os (after o s)
