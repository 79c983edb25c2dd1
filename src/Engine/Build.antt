-- ===== src/Engine/Build.antt =====
-- onionguard.go: `New`. The components other than the store and the circuit breaker keep no state.
use onionguard.Base.{
  ◌≡◌, ◌⊎◌, inl, inr, Bool, true, false, Option, none, some, [], Option-cases, arith, if◌then◌else◌,
}
use onionguard.Base.Time.{Time}
use onionguard.Errors.{Err, Result, ok, err}
use onionguard.CircuitBreaker.{CircuitBreaker, new_circuit_breaker}
use onionguard.Store.Memory.{MemoryConfig, MemoryStore, new_memory_store}
use onionguard.Settings.{
  StoreType, StoreConfig, memory, redis, unset, other_type, Settings, Rejection, validate_settings,
}
use onionguard.Settings.Bounds.{IsRoomy, validate_settings-IsRoomy}

-- The store of a new engine: the one that was given, or one that the engine owns.
pub data EngineStore (F : Type 0) : Type 0 where
  given owned_redis : EngineStore F
  owned_memory : MemoryStore F → EngineStore F

pub data Construction (F : Type 0) : Type 0 where
  rejected : Rejection → Construction F
  failed : Err → Construction F
  unsupported : Construction F
  built : EngineStore F → CircuitBreaker → Construction F

-- `NewRedisStore` is a parameter: its error, if it fails.
module _ {F : Type 0} (not_positive : F → Bool) (new_redis_store : StoreConfig → Option Err) where
  abbrev finish : Settings F → Time → Result (EngineStore F) → Construction F
  finish c now (err e) = failed e
  finish c now (ok store) = built store (new_circuit_breaker c.circuit_breaker now)

  abbrev open_memory : StoreConfig → Result (EngineStore F)
  open_memory c = elim (new_memory_store c.limits) [ err e ↦ err e | ok m ↦ ok (owned_memory m) ]

  -- The store, by its type, where none is given.
  abbrev build_store : StoreType → Settings F → Time → Construction F
  build_store memory c now = finish c now (open_memory c.store_config)
  build_store unset c now = finish c now (open_memory c.store_config)
  build_store redis c now =
      finish c now
        (elim (new_redis_store c.store_config) [ none ↦ ok owned_redis | some e ↦ err e ])
  build_store (other_type name) c now = unsupported

  unfoldable pub new_engine : Settings F → Time → Construction F
  new_engine c now = elim (validate_settings not_positive c) [
    | some e ↦ rejected e
    | none ↦ if c.has_store then finish c now (ok given) else build_store c.store_config.type c now
  ]

  abbrev pub is_memory : StoreType → Bool
  is_memory memory = true
  is_memory unset = true
  is_memory _ = false

  new_memory_store-IsRoomy :
      (limits : MemoryConfig)
      → IsRoomy limits
      → (m : MemoryStore F) × (new_memory_store limits ≡ ok m)
  unfolding new_memory_store
  new_memory_store-IsRoomy limits h = (
    record {
      entries = [];
      buckets = [];
      reservations = [];
      counts = [];
      cfg = limits;
      closed = false;
    },
    ground (arith, h),
  )

  -- New without a store, for a store in memory, fails exactly with the error of Validate: a
  -- configuration that Validate accepts gives an engine with a new store with the configured
  -- limits, and a new circuit breaker.
  pub new_engine-memory :
      (c : Settings F) (now : Time)
      → c.has_store ≡ false
      → is_memory c.store_config.type ≡ true
      → ((e : Rejection) × (validate_settings not_positive c ≡ some e)
          × (new_engine c now ≡ rejected e))
        ⊎ ((m : MemoryStore F) × (validate_settings not_positive c ≡ none)
            × (new_memory_store c.store_config.limits ≡ ok m)
            × (new_engine c now
                ≡ built (owned_memory m) (new_circuit_breaker c.circuit_breaker now)))
  unfolding new_engine
  new_engine-memory c now h k = elim (Option-cases (validate_settings not_positive c)) [
    | inr (e, r) ↦ inl (e, r, ground (arith, r))
    | inl r ↦
        let (m, made) =
          new_memory_store-IsRoomy c.store_config.limits
            (validate_settings-IsRoomy not_positive c r h) in
        inr (m, r, made, ground (arith, r, h, k, made))
  ]
