-- ===== src/Store/Redis/Replied.antt =====
-- store/redis.go: CompareAndDelete and GetDel, where the client gets a reply to the script.
use onionguard.Base.{ℕ, ◌≢◌, Bool, false, ◌≡◌, refl, ap, ◌∙◌, Option, none, Bytes}
use onionguard.Errors.{Err, ok}
use onionguard.Base.Time.{Duration}
use onionguard.Store.Spec
use onionguard.Store.Spec.{View}
use onionguard.Store.Redis.{
  failed, nothing, or_else, ttl_ms, Script, validate_key, Server, Client, RedisStore, Reply, reply,
  nil_reply, Value, full_key, validate,
}
use onionguard.Store.Redis.Scripts.{lua_compare_and_delete, lua_compare_and_touch, lua_get_del}
use onionguard.Store.Redis.Operations.{
  validate_ttl, compare_and_touch, get_del, as_bytes, compare_and_delete, checked, answered,
  counted, is_one,
}
use onionguard.Store.Redis.Laws.{
  answered_nil, Laws, Linearized, checked_go, answered_reply, counted-int64,
}
use onionguard.Store.Redis.Taken.{get_del-Spec}
use onionguard.Store.Memory.View.{or_not_found}
use onionguard.Store.Redis.Atomic.{
  Replies, compare_and_delete-Replies, compare_and_touch-Replies, ttl_ms-is_pos,
}

module _ {F : Type 0} {server : Server} (client : Client F server) (laws : Laws client) where
  open client use {W, ctx_err, run}

  -- A method whose script counts.
  counted-replied :
      (r : RedisStore) (wrong : Option Err) (script : Script server.Db (Value F))
      (op : View → Bool × View) (w w' : W) (v : Value F)
      → ((d d' : server.Db) (v : Value F) → script d ≡ (ok v, d') → Replies client laws op v d d')
      → r.closed ≡ false
      → wrong ≡ none
      → (ctx_err w).0 ≡ none
      → run script (ctx_err w).1 ≡ (reply v, w')
      → (b : Bool) × (checked client r wrong
            (answered client (counted client (λ n. ok (is_one n))) (run script))
            w
          ≡ (ok b, w'))
        × Linearized laws (ctx_err w).1 w' op b
  counted-replied r wrong script op w w' v each open_ fine going replied =
      let f = counted client (λ n. ok (is_one n)) in
      let (d, d', moment, did) = laws.run_lem script (ctx_err w).1 w' v replied in
      let a = each d d' v did in
      let told = ap f a.as_count ∙ counted-int64 client laws (λ n. ok (is_one n)) a.count in
      let out =
        checked_go client r wrong (answered client f (run script)) w open_ fine going
        ∙ answered_reply client f (run script) (ctx_err w).1 w' v replied
        ∙ λ i. (told i, w') in
      (is_one a.count, out, record { before = d; after = d'; ran = moment; effect = a.effect })

  -- On an open store in Redis, for a valid key and value and a live context, a CompareAndDelete
  -- whose script gets a reply answers without an error, and the script, run once in the server in
  -- the course of the call, did what the specification says: the answer is whether the key, with
  -- the prefix of the store, showed the expected value, and if so the key shows nothing afterwards;
  -- every other key shows what it did. This is by the documented behaviour of GET, DEL and scripts,
  -- whatever others do before and after.
  pub compare_and_delete-replied :
      (r : RedisStore) (key expected : Bytes) (w w' : W) (v : Value F)
      → r.closed ≡ false
      → validate r key expected ≡ none
      → (ctx_err w).0 ≡ none
      → run (lua_compare_and_delete F server (full_key r key) expected) (ctx_err w).1
        ≡ (reply v, w')
      → (b : Bool) × (compare_and_delete client r key expected w ≡ (ok b, w'))
        × Linearized laws (ctx_err w).1 w' (Spec.compare_and_delete (full_key r key) expected) b
  unfolding compare_and_delete
  compare_and_delete-replied r key expected w w' v open_ fine going replied =
      counted-replied r (validate r key expected) _ _ w w' v
        (compare_and_delete-Replies client laws (full_key r key) expected) open_ fine going replied

  pub compare_and_touch-replied :
      (r : RedisStore) (key expected : Bytes) (ttl : Duration) (w w' : W) (v : Value F)
      → r.closed ≡ false
      → or_else (validate r key expected) (validate_ttl ttl) ≡ none
      → (ctx_err w).0 ≡ none
      → run (lua_compare_and_touch F server (full_key r key) expected (ttl_ms ttl)) (ctx_err w).1
        ≡ (reply v, w')
      → (b : Bool) × (compare_and_touch client r key expected ttl w ≡ (ok b, w'))
        × Linearized laws (ctx_err w).1 w' (Spec.compare_and_touch (full_key r key) expected) b
  unfolding compare_and_touch
  compare_and_touch-replied r key expected ttl w w' v open_ fine going replied =
      counted-replied r (or_else (validate r key expected) (validate_ttl ttl)) _ _ w w' v
        (λ d d' v.
          compare_and_touch-Replies client laws (full_key r key) expected (ttl_ms ttl) d d' v
            (ttl_ms-is_pos client laws ttl))
        open_ fine going replied

  -- On an open store in Redis, for a valid key and a live context, a GetDel whose script gets a
  -- reply, redis.Nil included, answers the value that the key, with the prefix of the store, showed
  -- when the script ran, or ErrNotFound if it showed none; the key shows nothing afterwards, and
  -- every other key what it did. This is by the documented behaviour of GET, DEL and scripts.
  pub get_del-replied :
      (r : RedisStore) (key : Bytes) (w w' : W) (x : Reply (Value F))
      → r.closed ≡ false
      → validate_key r key ≡ none
      → (ctx_err w).0 ≡ none
      → ((n : ℕ) → x ≢ failed n)
      → run (lua_get_del F server (full_key r key)) (ctx_err w).1 ≡ (x, w')
      → (o : Option Bytes) × (get_del client r key w ≡ (or_not_found o, w'))
        × Linearized laws (ctx_err w).1 w' (Spec.get_del (full_key r key)) o
  unfolding get_del as_bytes
  get_del-replied r key w w' (failed n) open_ fine going whole replied = absurd (whole n refl)
  get_del-replied r key w w' nil_reply open_ fine going whole replied =
      let script = lua_get_del F server (full_key r key) in
      let (d, d', moment, did) = laws.run_nil_lem script (ctx_err w).1 w' replied in
      let (o, told, effect) = get_del-Spec client laws (full_key r key) d d' nothing did in
      let out =
        checked_go client r (validate_key r key) (answered client (as_bytes client) (run script)) w
          open_ fine going
        ∙ answered_nil client (as_bytes client) (run script) (ctx_err w).1 w' replied
        ∙ λ i. (told i, w') in
      (o, out, record { before = d; after = d'; ran = moment; effect = effect })
  get_del-replied r key w w' (reply v) open_ fine going whole replied =
      let script = lua_get_del F server (full_key r key) in
      let (d, d', moment, did) = laws.run_lem script (ctx_err w).1 w' v replied in
      let (o, told, effect) = get_del-Spec client laws (full_key r key) d d' v did in
      let out =
        checked_go client r (validate_key r key) (answered client (as_bytes client) (run script)) w
          open_ fine going
        ∙ answered_reply client (as_bytes client) (run script) (ctx_err w).1 w' v replied
        ∙ λ i. (told i, w') in
      (o, out, record { before = d; after = d'; ran = moment; effect = effect })
