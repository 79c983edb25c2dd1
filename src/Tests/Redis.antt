-- ===== src/Tests/Redis.antt =====
-- The store in Redis over a small server of strings and sorted sets, which nobody else uses.
use onionguard.Base.{
  Bool, ℕ, ◌+◌, ◌/◌, ◌*◌, ◌%◌, ◌≡◌, ◌≢◌, ◌⊎◌, leb, ◌-◌, refl, sym, ap, ◌∙◌, true, false, Option,
  none, some, [], ◌∷◌, ℤ, pos, negsuc, Bytes, Dict, lookup, insert, erase, lookup-erase, length,
  codes, same, same_refl, arith, if◌then◌else◌,
}
use mathlib.Core.Path.{fun_ext}
use onionguard.Errors.{Err, foreign, sentinel, store_closed, Result, ok, err}
use onionguard.Store.Spec
use onionguard.Store.Spec.{View}
use onionguard.Store.Redis.{
  Server, Client, RedisStore, Reply, reply, nil_reply, failed, Value, nothing, scalar, array, int64,
  text, full_key, unix_milli,
}
use onionguard.Store.Redis.{validate, validate_key}
use onionguard.Store.Redis.Scripts.{lua_compare_and_delete, lua_get_del, lua_reserve_session}
use onionguard.Store.Redis.Operations.{
  compare_and_delete, get_del, reserve_session, checked, answered, answer,
}
use onionguard.Store.Redis.Replied.{compare_and_delete-replied, get_del-replied}
use onionguard.Store.Memory.View.{or_not_found}
use onionguard.Store.Redis.Reservations.{IsReserved, reserve_session-IsReserved}
use onionguard.Tests.Store.{whole}
use onionguard.Store.Redis.Scripts.{Lua, lua_consume_token, stored_bucket}
use onionguard.Store.Redis.Operations.{close, consume_token, consumed, as_int}
use onionguard.Store.Redis.Calls.{get, touch, perform, close-perform}
use onionguard.Store.Redis.Told.{MayTell}
use onionguard.Store.Redis.Errors.{perform-MayTell}
use onionguard.Store.Redis.Waits.{IsAnswer, consume_token-IsAnswer}
use onionguard.Store.Redis.Options.{
  RedisConfig, UniversalOptions, IsUsable, new_redis_store, is_url, new_redis_store-total,
}
use onionguard.Store.Redis.Laws.{pure_ok, Laws, Linearized, count_of}
use onionguard.Store.Redis.Members.{SetLaws, above}

abbrev Unit0 : Type 0
Unit0 = Unit {0}

record SmallDb : Type 0 where
  strings : Dict Bytes
  sets : Bytes → Dict ℤ
  millis : ℕ

abbrev put_set : Bytes → Dict ℤ → SmallDb → SmallDb
put_set k m d = record d { sets = λ j. if same k j then m else d.sets j }

abbrev small : Server
small = record {
  Db = SmallDb;
  get = λ k d. (ok (lookup k d.strings), d);
  del = λ k d. (ok (count_of (lookup k d.strings)), record d { strings = erase k d.strings });
  incr_by = λ k n d. (err (foreign 1), d);
  pttl = λ k d. (ok (negsuc 1), d);
  pexpire = λ k ms d. (ok (count_of (lookup k d.strings)), d);
  set_px = λ k v ms d. (ok tt, record d { strings = insert k v d.strings });
  time = λ d. (ok (d.millis / 1000, (d.millis % 1000) * 1000), d);
  zrem_up_to = λ k now d. (ok (pos 0), put_set k (above now (d.sets k)) d);
  zscore = λ k id d. (ok (lookup id (d.sets k)), d);
  zcard = λ k d. (ok (length (d.sets k)), d);
  zadd = λ k score id d. (ok (pos 1), put_set k (insert id score (d.sets k)) d);
  zrem = λ k id d. (ok (pos 1), put_set k (erase id (d.sets k)) d);
}

abbrev reply_of : Result (Value ℕ) → Reply (Value ℕ)
reply_of (ok nothing) = nil_reply
reply_of (ok (scalar x)) = reply (scalar x)
reply_of (ok (array x)) = reply (array x)
reply_of (err e) = failed 1

abbrev found : Option Bytes → Reply Bytes
found none = nil_reply
found (some v) = reply v

abbrev int_of : Value ℕ → Reply ℤ
int_of (scalar (int64 n)) = reply n
int_of _ = failed 2

abbrev lone : Client ℕ small
lone = record {
  W = SmallDb;
  ctx_err = λ w. (none, w);
  ping = λ w. (reply tt, w);
  get = λ k w. (found (lookup k w.strings), w);
  set = λ k v ttl w. (reply tt, record w { strings = insert k v w.strings });
  del = λ k w. (reply (pos 1), record w { strings = erase k w.strings });
  set_nx = λ k v ttl w. (reply false, w);
  expire = λ k ttl w. (reply true, w);
  zrem = λ k id w. (reply (pos 1), w);
  run = λ s w. (reply_of (s w).0, (s w).1);
  close = λ w. (none, w);
  to_int64 = int_of;
}

reply_of_ok : (r : Result (Value ℕ)) (v : Value ℕ) → reply_of r ≡ reply v → r ≡ ok v
reply_of_ok (ok nothing) v h = cc
reply_of_ok (ok (scalar x)) v h = cc
reply_of_ok (ok (array x)) v h = cc
reply_of_ok (err e) v h = cc

reply_of_nil : (r : Result (Value ℕ)) → reply_of r ≡ nil_reply → r ≡ ok nothing
reply_of_nil (ok nothing) h = refl
reply_of_nil (ok (scalar x)) h = cc
reply_of_nil (ok (array x)) h = cc
reply_of_nil (err e) h = cc

lone-Laws : Laws lone
lone-Laws = record {
  view = λ d k. lookup k d.strings;
  Ran = λ w d d' w'. (w ≡ d) × (w' ≡ d');
  get_lem = λ k d d' v h.
      let (e, stay) = pure_ok (lookup k d.strings) v d d' h in
      (e, λ i j. lookup j (stay i).strings);
  del_lem = λ k d d' n h.
      let gone = record d { strings = erase k d.strings } in
      let (e, changed) = pure_ok (count_of (lookup k d.strings)) n gone d' h in
      (e, (λ i j. lookup j (changed i).strings) ∙ fun_ext (λ j. lookup-erase k j d.strings));
  pexpire_lem = λ k ms d d' n p h.
      let (e, stay) = pure_ok (count_of (lookup k d.strings)) n d d' h in
      (e, λ i j. lookup j (stay i).strings);
  run_lem = λ s w w' v h.
      let e = ap (λ p. p.1) h in
      (w, (s w).1, (refl, sym e), λ i. (reply_of_ok (s w).0 v (ap (λ p. p.0) h) i, (s w).1));
  run_nil_lem = λ s w w' h.
      let e = ap (λ p. p.1) h in
      (w, (s w).1, (refl, sym e), λ i. (reply_of_nil (s w).0 (ap (λ p. p.0) h) i, (s w).1));
  to_int64_lem = λ n. refl;
}

put_there : (k : Bytes) (m : Dict ℤ) (d d' : SmallDb) → d' ≡ put_set k m d → d'.sets k ≡ m
put_there k m d d' changed = (λ i. (changed i).sets k) ∙ rw (same_refl k)

small-SetLaws : SetLaws small
small-SetLaws = record {
  members = λ d k. d.sets k;
  clock = λ d. d.millis;
  time_lem = λ d d' t h.
      let n = d.millis in
      let (e, stay) = pure_ok (n / 1000, (n % 1000) * 1000) t d d' h in
      (ap (λ (t : ℕ × ℕ). t.0 * 1000 + t.1 / 1000) e ∙ omega arith, stay);
  zrem_up_to_lem = λ k now n d d' h.
      put_there k (above now (d.sets k)) d d'
        (pure_ok (pos 0) n (put_set k (above now (d.sets k)) d) d' h).1;
  zscore_lem = λ k id d d' o h. pure_ok (lookup id (d.sets k)) o d d' h;
  zcard_lem = λ k d d' n h. pure_ok (length (d.sets k)) n d d' h;
  zadd_lem = λ k id score n d d' h.
      put_there k (insert id score (d.sets k)) d d'
        (pure_ok (pos 1) n (put_set k (insert id score (d.sets k)) d) d' h).1;
}

abbrev store : RedisStore
store = record {
  prefix = codes "og:";
  max_key_bytes = pos 256;
  max_value_bytes = pos 65536;
  closed = false;
}

abbrev db : SmallDb
db = record {
  strings = (codes "og:k", codes "v") ∷ [];
  sets = λ k. (codes "a", pos 5) ∷ (codes "b", pos 900) ∷ [];
  millis = 100;
}

abbrev emptied : SmallDb
emptied = record db { strings = [] }

-- The server after a reservation.
abbrev reserved : SmallDb
reserved =
    (lua_reserve_session ℕ small (codes "og:n") (codes "c") (unix_milli 70000000000000000000)
      (pos 2) db).1

text_reply : (n : ℕ) → ◌≢◌ {A = Reply (Value ℕ)} (reply (scalar (text (codes "v")))) (failed n)
text_reply n h = cc

compare_and_delete-replied_example :
    (b : Bool) × (compare_and_delete lone store (codes "k") (codes "v") db ≡ (ok b, emptied))
    × Linearized lone-Laws db emptied
        (Spec.compare_and_delete (full_key store (codes "k")) (codes "v"))
        b
unfolding full_key validate validate_key lua_compare_and_delete lookup erase same
compare_and_delete-replied_example =
    compare_and_delete-replied lone lone-Laws store (codes "k") (codes "v") db emptied
      (scalar (int64 (pos 1))) refl refl refl refl

get_del-replied_example :
    (o : Option Bytes) × (get_del lone store (codes "k") db ≡ (or_not_found o, emptied))
    × Linearized lone-Laws db emptied (Spec.get_del (full_key store (codes "k"))) o
unfolding full_key validate_key lua_get_del lookup erase same
get_del-replied_example =
    get_del-replied lone lone-Laws store (codes "k") db emptied (reply (scalar (text (codes "v"))))
      refl refl refl (λ n. text_reply n) refl

reserve_session-IsReserved_example :
    (b : Bool) × (reserve_session lone store (codes "n") (codes "c") (pos 2) 70000000000000000000 db
      ≡ (ok b, reserved))
    × IsReserved lone-Laws small-SetLaws
        (full_key store (codes "n"))
        (codes "c")
        (unix_milli 70000000000000000000)
        2
        db
        reserved
        b
unfolding full_key lua_reserve_session above lookup insert same unix_milli
reserve_session-IsReserved_example =
    reserve_session-IsReserved lone lone-Laws small-SetLaws store (codes "n") (codes "c") 2
      70000000000000000000 db reserved (scalar (int64 (pos 1))) refl refl refl

-- Lua's numbers as natural ones; nothing is read as a number.
abbrev lua : Lua ℕ ℕ
lua = record {
  of_int = λ n. whole.of_int n;
  of_float = λ x. x;
  tonumber = λ s. none;
  tostring = λ x. codes "1";
  to_reply = λ x. pos x;
  min = λ x y. whole.min x y;
  max = λ x y. if leb x y then y else x;
  ceil = λ x. x;
  plus = λ x y. x + y;
  minus = λ x y. x - y;
  times = λ x y. x * y;
  over = λ x y. x;
  at_most = λ x y. leb x y;
}

abbrev no_int : Bytes → ℤ
no_int s = pos 0

perform-MayTell_example :
    MayTell none (perform whole no_int lua lone store (touch (codes "") (pos 1)) db).0
perform-MayTell_example = perform-MayTell whole no_int lua lone store (touch (codes "") (pos 1)) db

close-perform_example :
    (perform whole no_int lua lone (close lone store db).1 (get (codes "k")) db
      ≡ (some (sentinel store_closed), db))
    × (close lone (close lone store db).1 db ≡ (none, (close lone store db).1, db))
close-perform_example = close-perform whole no_int lua lone store db db (get (codes "k"))

consume_token-IsAnswer_example : IsAnswer true (pos 0)
unfolding consume_token checked validate_key answered answer lua_consume_token consumed as_int
    stored_bucket lookup same full_key unix_milli
consume_token-IsAnswer_example =
    consume_token-IsAnswer whole no_int lua lone store (codes "b") 1 (pos 5) (pos 1) (pos 1000000)
      70000000000000000000 db true (pos 0) refl

abbrev small_config : RedisConfig
small_config = record {
  addr = codes "localhost:6379";
  password = [];
  db = pos 0;
  prefix = [];
  dial_timeout = pos 0;
  fail_closed = true;
  max_key_bytes = pos 0;
  max_value_bytes = pos 0;
  pool_size = pos 0;
  min_idle_conns = pos 0;
  max_retries = pos 0;
  read_timeout = pos 0;
  write_timeout = pos 0;
  pool_timeout = pos 0;
  sentinel_addrs = [];
  sentinel_master = [];
  sentinel_password = [];
  cluster_addrs = [];
}

abbrev no_url : Bytes → Result UniversalOptions
no_url s = err (foreign 7)

new_redis_store-total_example :
    ((r : RedisStore) × (o : UniversalOptions) × (new_redis_store no_url small_config ≡ ok (r, o))
      × IsUsable no_url small_config r o)
    ⊎ ((e : Err) × (is_url (codes "localhost:6379") ≡ true)
        × (no_url (codes "localhost:6379") ≡ err e)
        × (new_redis_store no_url small_config ≡ err e))
new_redis_store-total_example = new_redis_store-total no_url small_config refl
