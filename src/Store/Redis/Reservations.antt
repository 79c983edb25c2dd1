-- ===== src/Store/Redis/Reservations.antt =====
-- store/redis.go: ReserveSession.
use onionguard.Base.{
  ◌==◌, ◌||◌, not, is_pos, false, ℕ, ◌≤◌, Bool, ◌≡◌, refl, ap, ◌∙◌, subst, ℤ, pos, Bytes, lookup,
  length,
}
use onionguard.Base.Time.{Time, is_zero}
use onionguard.Errors.{ok}
use onionguard.Store.Redis.{reply, Value, Server, Client, RedisStore, full_key, unix_milli}
use onionguard.Store.Redis.Scripts.{lua_reserve_session}
use onionguard.Store.Redis.Operations.{reserve_session, answered, counted, is_one}
use onionguard.Store.Redis.Laws.{Laws}
use onionguard.Store.Redis.Laws.{answered_reply, counted-int64}
use onionguard.Store.Redis.Members.{
  SetLaws, above, reserve, reserve_for-limit, reserve_session-Reserves,
}

-- What happened to the members of the namespace while the call ran.
pub record IsReserved {F : Type 0} {server : Server} {client : Client F server} (laws : Laws client)
    (sets : SetLaws server) (key id : Bytes) (score : ℤ) (limit : ℕ) (w w' : client.W) (b : Bool)
    : Type 0 where
  pub before : server.Db
  pub after : server.Db
  pub ran : laws.Ran w before after w'
  pub effect :
      reserve id score (pos limit) (above (pos (sets.clock before)) (sets.members before key))
      ≡ (b, sets.members after key)
  pub bounded :
      length (above (pos (sets.clock before)) (sets.members before key)) ≤ limit
      → length (sets.members after key) ≤ limit

module _ {F : Type 0} {server : Server} (client : Client F server) (laws : Laws client)
    (sets : SetLaws server) where
  open client use {W, run}

  reserve_session_go :
      (r : RedisStore) (namespace id : Bytes) (limit : ℤ) (at : Time) (w : W)
      → r.closed ≡ false
      → (length namespace == 0 || (length id == 0 || (not (is_pos limit) || is_zero at))) ≡ false
      → reserve_session client r namespace id limit at w
        ≡ answered client
            (counted client (λ n. ok (is_one n)))
            (run (lua_reserve_session F server (full_key r namespace) id (unix_milli at) limit))
            w
  unfolding reserve_session
  reserve_session_go r namespace id limit at w open_ fine = rw (open_, fine)

  -- On an open store in Redis, for names that are not empty, a positive limit and a deadline, a
  -- ReserveSession whose script gets a reply answers without an error. The script, run once in the
  -- server, dropped the members of the namespace whose deadline has passed by the clock of the
  -- server, and then, exactly if the answer is true, set the deadline of the session: one that has
  -- a reservation, or one that finds fewer than the limit. Where at most the limit were left, at
  -- most the limit are there afterwards. This is by the documented behaviour of TIME, sorted sets
  -- and scripts.
  pub reserve_session-IsReserved :
      (r : RedisStore) (namespace id : Bytes) (limit : ℕ) (at : Time) (w w' : W) (v : Value F)
      → r.closed ≡ false
      → (length namespace == 0 || (length id == 0 || (not (is_pos (pos limit)) || is_zero at)))
        ≡ false
      → run (lua_reserve_session F server (full_key r namespace) id (unix_milli at) (pos limit)) w
        ≡ (reply v, w')
      → (b : Bool) × (reserve_session client r namespace id (pos limit) at w ≡ (ok b, w'))
        × IsReserved laws sets (full_key r namespace) id (unix_milli at) limit w w' b
  reserve_session-IsReserved r namespace id limit at w w' v open_ fine replied =
      let key = full_key r namespace in
      let script = lua_reserve_session F server key id (unix_milli at) (pos limit) in
      let f = counted client (λ n. ok (is_one n)) in
      let (d, d', moment, did) = laws.run_lem script w w' v replied in
      let a = reserve_session-Reserves sets key id (unix_milli at) (pos limit) d d' v did in
      let told = ap f a.is_number ∙ counted-int64 client laws (λ n. ok (is_one n)) a.number in
      let out =
        reserve_session_go r namespace id (pos limit) at w open_ fine
        ∙ answered_reply client f (run script) w w' v replied
        ∙ λ i. (told i, w') in
      let live = above (pos (sets.clock d)) (sets.members d key) in
      (
        is_one a.number,
        out,
        record {
          before = d;
          after = d';
          ran = moment;
          effect = a.effect;
          bounded = λ few.
              subst (λ m. length m ≤ limit) (ap (λ p. p.1) a.effect)
                (reserve_for-limit (lookup id live) id (unix_milli at) limit live refl few);
        },
      )
