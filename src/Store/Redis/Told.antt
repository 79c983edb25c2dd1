-- ===== src/Store/Redis/Told.antt =====
-- store/redis.go: which errors the parts of a method tell.
use onionguard.Base.{
  ◌==◌, ◌||◌, is_pos, Bool, true, false, Option, none, some, ℤ, Bytes, length, ◌≡◌, refl, if_either,
  option_either,
}
use onionguard.Base.Time.{Duration}
use onionguard.Errors.{
  Err, Sentinel, sentinel, Result, not_found, store_closed, store_unavailable, invalid_ttl,
  invalid_value, key_too_large, value_too_large,
}
use onionguard.Store.Memory.{exceeds}
use onionguard.Store.Redis.{
  Server, Client, RedisStore, Reply, reply, nil_reply, failed, Value, or_else, validate_key,
  validate,
}
use onionguard.Store.Redis.Operations.{checked, answered, answer, counted, validate_ttl}
use onionguard.Store.Redis.Calls.{error_of}

-- The errors that the store tells: the one of the context, or one of these sentinels.
unfoldable pub is_told : Sentinel → Bool
is_told store_closed = true
is_told key_too_large = true
is_told value_too_large = true
is_told invalid_ttl = true
is_told invalid_value = true
is_told not_found = true
is_told store_unavailable = true
is_told _ = false

pub data IsTold (ended : Option Err) : Err → Type 0 where
  of_context : (e : Err) → ended ≡ some e → IsTold ended e
  of_store : (s : Sentinel) → is_told s ≡ true → IsTold ended (sentinel s)

abbrev pub MayTell : Option Err → Option Err → Type 0
MayTell ended none = Unit {0}
MayTell ended (some e) = IsTold ended e

abbrev pub TellsOnly : {A : Type 0} → Option Err → Result A → Type 0
TellsOnly ended x = MayTell ended (error_of x)

module _ {F : Type 0} {server : Server} (client : Client F server) (r : RedisStore) where
  open client use {W, ctx_err}

  abbrev ended : W → Option Err
  ended w = (ctx_err w).0

  pub answer-TellsOnly :
      {A B : Type 0} (o : Option Err) (f : A → Result B) (x : Reply A)
      → ((a : A) → TellsOnly o (f a))
      → TellsOnly o (answer f x)
  unfolding answer is_told
  answer-TellsOnly o f (reply a) h = h a
  answer-TellsOnly o f nil_reply h = of_store not_found refl
  answer-TellsOnly o f (failed n) h = of_store store_unavailable refl

  pub answered-TellsOnly :
      {A B : Type 0} (o : Option Err) (f : A → Result B) (command : W → Reply A × W)
      → ((a : A) → TellsOnly o (f a))
      → (w : W) → TellsOnly o (answered client f command w).0
  unfolding answered
  answered-TellsOnly o f command h w = answer-TellsOnly o f (command w).0 h

  pub counted-TellsOnly :
      {B : Type 0} (o : Option Err) (f : ℤ → Result B) (v : Value F)
      → ((n : ℤ) → TellsOnly o (f n))
      → TellsOnly o (counted client f v)
  unfolding counted
  counted-TellsOnly o f v h = answer-TellsOnly o f (client.to_int64 v) h

  pub checked-TellsOnly :
      {A : Type 0} (wrong : Option Err) (go : W → Result A × W) (w : W)
      → MayTell (ended w) wrong
      → ((w₁ : W) → TellsOnly (ended w) (go w₁).0)
      → TellsOnly (ended w) (checked client r wrong go w).0
  unfolding checked is_told
  checked-TellsOnly {A} (some e) go w h g =
      if_either (λ (out : Result A × W). TellsOnly (ended w) out.0) r.closed _ _
        (λ _. of_store store_closed refl) (λ _. h)
  checked-TellsOnly {A} none go w h g =
      if_either (λ (out : Result A × W). TellsOnly (ended w) out.0) r.closed _ _
        (λ _. of_store store_closed refl)
        (λ _.
          option_either (λ (out : Result A × W). TellsOnly (ended w) out.0) (ended w) _ _
            (λ _. g (ctx_err w).1) (λ e here. of_context e here))

  pub or_else-MayTell : (o a b : Option Err) → MayTell o a → MayTell o b → MayTell o (or_else a b)
  or_else-MayTell o none b h k = k
  or_else-MayTell o (some e) b h k = h

  pub validate_key-MayTell : (o : Option Err) (key : Bytes) → MayTell o (validate_key r key)
  unfolding validate_key is_told
  validate_key-MayTell o key =
      if_either (MayTell o) (length key == 0 || exceeds (length key) r.max_key_bytes) _ _
        (λ _. of_store key_too_large refl) (λ _. tt)

  pub validate-MayTell : (o : Option Err) (key value : Bytes) → MayTell o (validate r key value)
  unfolding validate is_told
  validate-MayTell o key value =
      or_else-MayTell o (validate_key r key) _ (validate_key-MayTell o key) (
        if_either (MayTell o) (exceeds (length value) r.max_value_bytes) _ _
          (λ _. of_store value_too_large refl) (λ _. tt))

  pub ttl-MayTell : (o : Option Err) (ttl : Duration) → MayTell o (validate_ttl ttl)
  unfolding validate_ttl is_told
  ttl-MayTell o ttl =
      if_either (MayTell o) (is_pos ttl) _ _ (λ _. tt) (λ _. of_store invalid_ttl refl)

  -- A method that starts by the checks and then sends one command or script.
  pub asked-TellsOnly :
      {A B : Type 0} (wrong : Option Err) (f : A → Result B) (command : W → Reply A × W) (w : W)
      → MayTell (ended w) wrong
      → ((a : A) → TellsOnly (ended w) (f a))
      → TellsOnly (ended w) (checked client r wrong (answered client f command) w).0
  asked-TellsOnly wrong f command w h k =
      checked-TellsOnly wrong (answered client f command) w h
        (answered-TellsOnly (ended w) f command k)

  pub counted_asked-TellsOnly :
      {B : Type 0} (wrong : Option Err) (f : ℤ → Result B) (command : W → Reply (Value F) × W)
      (w : W)
      → MayTell (ended w) wrong
      → ((n : ℤ) → TellsOnly (ended w) (f n))
      → TellsOnly
          (ended w)
          (checked client r wrong (answered client (counted client f) command) w).0
  counted_asked-TellsOnly wrong f command w h k =
      asked-TellsOnly wrong (counted client f) command w h (λ v. counted-TellsOnly (ended w) f v k)

  pub entry-MayTell :
      (o : Option Err) (key value : Bytes) (ttl : Duration)
      → MayTell o (or_else (validate r key value) (validate_ttl ttl))
  entry-MayTell o key value ttl =
      or_else-MayTell o _ _ (validate-MayTell o key value) (ttl-MayTell o ttl)

  pub key_ttl-MayTell :
      (o : Option Err) (key : Bytes) (ttl : Duration)
      → MayTell o (or_else (validate_key r key) (validate_ttl ttl))
  key_ttl-MayTell o key ttl = or_else-MayTell o _ _ (validate_key-MayTell o key) (ttl-MayTell o ttl)
