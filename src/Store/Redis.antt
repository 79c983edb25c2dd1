-- ===== src/Store/Redis.antt =====
-- store/redis.go: what the store in Redis is built on. The commands of the server (Server) and the
-- client library (Client) are parameters. A command, or a script with all of its commands, runs in the
-- server in one go; whatever else happens to the server happens between such runs, and is part of the
-- world `W` of the client. Receivers and clients are not nil.
pub mod Scripts
pub mod Operations
pub mod Calls
pub mod Told
pub mod Errors
pub mod Options
pub mod Laws
pub mod Atomic
pub mod Taken
pub mod Replied
pub mod Members
pub mod Reservations
pub mod Waits
use onionguard.Base.{
  ℕ, ◌+◌, ◌/◌, ◌*◌, leb, ◌==◌, Bool, true, false, ◌||◌, Option, none, some, List, ◌++◌, ℤ, pos,
  negsuc, sub_ℕ, Bytes, length, if◌then◌else◌,
}
use onionguard.Base.Time.{Time, Duration, millisecond}
use onionguard.Errors.{Err, sentinel, Result, ok, err, key_too_large, value_too_large}
use onionguard.Store.Memory.{exceeds}

-- A part of a script: it reads and changes the data of the server, or stops with an error.
abbrev pub Script : Type 0 → Type 0 → Type 0
Script Db A = Db → Result A × Db

abbrev pub pure : {Db A : Type 0} → A → Script Db A
pure a d = (ok a, d)

infixl 5 ◌>>=◌ ◌>>◌
abbrev pub ◌>>=◌ : {Db A B : Type 0} → Script Db A → (A → Script Db B) → Script Db B
◌>>=◌ m f d = let (r, d₁) = m d in elim r [ ok a ↦ f a d₁ | err e ↦ (err e, d₁) ]

abbrev pub ◌>>◌ : {Db A B : Type 0} → Script Db A → Script Db B → Script Db B
m >> k = m >>= λ _. k

-- The commands of Redis that the scripts call. Scores are milliseconds.
pub record Server : Type 1 where
  pub Db : Type 0
  pub get : Bytes → Script Db (Option Bytes)
  pub del : Bytes → Script Db ℤ
  pub incr_by : Bytes → ℤ → Script Db ℤ
  pub pttl : Bytes → Script Db ℤ
  pub pexpire : Bytes → ℤ → Script Db ℤ
  pub set_px : Bytes → Bytes → ℤ → Script Db (Unit {0})
  pub time : Script Db (ℕ × ℕ)
  pub zrem_up_to : Bytes → ℤ → Script Db ℤ
  pub zscore : Bytes → Bytes → Script Db (Option ℤ)
  pub zcard : Bytes → Script Db ℕ
  pub zadd : Bytes → ℤ → Bytes → Script Db ℤ
  pub zrem : Bytes → Bytes → Script Db ℤ

-- The values of Go that stand for the reply of a script. `F` is float64.
pub data Scalar (F : Type 0) : Type 0 where
  int64 int : ℤ → Scalar F
  float64 : F → Scalar F
  text raw : Bytes → Scalar F
  boolean : Bool → Scalar F

pub data Value (F : Type 0) : Type 0 where
  nothing : Value F
  scalar : Scalar F → Value F
  array : List (Scalar F) → Value F

-- The reply to a command, `redis.Nil`, or another error.
pub data Reply (A : Type 0) : Type 0 where
  reply : A → Reply A
  nil_reply : Reply A
  failed : ℕ → Reply A

pub record Client (F : Type 0) (server : Server) : Type 1 where
  pub W : Type 0
  pub ctx_err : W → Option Err × W
  pub ping : W → Reply (Unit {0}) × W
  pub get : Bytes → W → Reply Bytes × W
  pub set : Bytes → Bytes → Duration → W → Reply (Unit {0}) × W
  pub del : Bytes → W → Reply ℤ × W
  pub set_nx : Bytes → Bytes → Duration → W → Reply Bool × W
  pub expire : Bytes → Duration → W → Reply Bool × W
  pub zrem : Bytes → Bytes → W → Reply ℤ × W
  pub run : Script server.Db (Value F) → W → Reply (Value F) × W
  pub close : W → Option Err × W
  -- `Cmd.Int64`
  pub to_int64 : Value F → Reply ℤ

-- The fields that the operations read. `closed` is also what `closeOnce` remembers.
pub record RedisStore : Type 0 where
  pub prefix : Bytes
  pub max_key_bytes : ℤ
  pub max_value_bytes : ℤ
  pub closed : Bool

unfoldable pub validate_key : RedisStore → Bytes → Option Err
validate_key r key =
    if length key == 0 || exceeds (length key) r.max_key_bytes
    then some (sentinel key_too_large)
    else none

-- The first of two errors.
abbrev pub or_else : Option Err → Option Err → Option Err
or_else (some e) f = some e
or_else none f = f

unfoldable pub validate : RedisStore → Bytes → Bytes → Option Err
validate r key value =
    or_else (validate_key r key)
      (if exceeds (length value) r.max_value_bytes then some (sentinel value_too_large) else none)

-- `r.key(k)`
unfoldable pub full_key : RedisStore → Bytes → Bytes
full_key r k = r.prefix ++ k

-- `ttlMs`, for a time to live that is positive.
unfoldable pub ttl_ms : Duration → ℤ
ttl_ms (pos n) = if n / millisecond == 0 then pos 1 else pos (n / millisecond)
ttl_ms (negsuc n) = pos 1

-- `t.UnixMilli()`
unfoldable pub unix_milli : Time → ℤ
unix_milli t = sub_ℕ (t / millisecond) 62135596800000
