-- ===== src/Settings/Bounds.antt =====
-- What the checks of the configuration establish.
use onionguard.Base.{◌≡◌, refl, Bool, true, false, not, none, [], ◌∷◌, ◌++◌, is_pos, arith}
use onionguard.Base.Time.{Time}
use onionguard.CircuitBreaker.{CircuitBreakerConfig, new_circuit_breaker}
use onionguard.Store.Memory.{MemoryConfig}
use onionguard.Settings.{
  StoreConfig, Settings, Checks, first_failure, store_checks, breaker_checks, after_store,
  after_breaker, when, validate_settings,
}

first_failure-append :
    (xs ys : Checks)
    → first_failure (xs ++ ys) ≡ none
    → (first_failure xs ≡ none) × (first_failure ys ≡ none)
unfolding first_failure
first_failure-append [] ys h = (refl, h)
first_failure-append ((false, e) ∷ xs) ys h = first_failure-append xs ys h
first_failure-append ((true, e) ∷ xs) ys h = absurd (ground (arith, h))

first_failure-when :
    (b : Bool) (xs : Checks) → first_failure (when b xs) ≡ none → b ≡ true → first_failure xs ≡ none
first_failure-when true xs h e = h
first_failure-when false xs h e = absurd (ground (arith, e))

abbrev pub IsRoomy : MemoryConfig → Type 0
IsRoomy c =
    (is_pos c.max_entries ≡ true)
    × (is_pos c.max_key_bytes ≡ true)
    × (is_pos c.max_value_bytes ≡ true)
    × (is_pos c.cleanup_interval ≡ true)

store_checks-IsRoomy : (c : StoreConfig) → first_failure (store_checks c) ≡ none → IsRoomy c.limits
unfolding first_failure store_checks
store_checks-IsRoomy c h = ground (arith, h)

breaker_checks-positive :
    (c : CircuitBreakerConfig)
    → first_failure (breaker_checks c) ≡ none
    → (is_pos c.failure_threshold ≡ true) × (is_pos c.cool_down ≡ true)
unfolding first_failure breaker_checks
breaker_checks-positive c h = ground (arith, h)

module _ {F : Type 0} (not_positive : F → Bool) (c : Settings F) where
  validate_settings-parts :
      validate_settings not_positive c ≡ none
      → (first_failure (when (not c.has_store) (store_checks c.store_config)) ≡ none)
        × (first_failure (when c.circuit_breaker.enabled (breaker_checks c.circuit_breaker)) ≡ none)
  unfolding validate_settings
  validate_settings-parts h =
      let (a, rest) =
        first_failure-append (when (not c.has_store) (store_checks c.store_config))
          (after_store not_positive c) h in
      (
        a,
        (first_failure-append (when c.circuit_breaker.enabled (breaker_checks c.circuit_breaker))
            (after_breaker not_positive c) rest).0,
      )

  pub validate_settings-IsRoomy :
      validate_settings not_positive c ≡ none → c.has_store ≡ false → IsRoomy c.store_config.limits
  validate_settings-IsRoomy h e =
      store_checks-IsRoomy c.store_config
        (first_failure-when (not c.has_store) _ (validate_settings-parts h).0 (ground (arith, e)))

  -- A breaker that is enabled is built as it is configured.
  pub validate_settings-breaker :
      (now : Time)
      → validate_settings not_positive c ≡ none
      → c.circuit_breaker.enabled ≡ true
      → (new_circuit_breaker c.circuit_breaker now).cfg ≡ c.circuit_breaker
  unfolding new_circuit_breaker
  validate_settings-breaker now h e =
      let positive =
        breaker_checks-positive c.circuit_breaker
          (first_failure-when _ _ (validate_settings-parts h).1 e) in
      ground (arith, positive)
