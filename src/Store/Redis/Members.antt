-- ===== src/Store/Redis/Members.antt =====
-- store/redis.go: the script of ReserveSession, by the documented behaviour of sorted sets.
use onionguard.Base.{
  ℕ, ◌+◌, ◌/◌, ◌*◌, ◌≤◌, Bool, true, false, ◌≡◌, sym, ap, ◌∙◌, subst, Option, none, some, [], ◌∷◌,
  ℤ, pos, leb_ℤ, Bytes, Dict, lookup, insert, length-insert_old, length-insert-le, length, arith,
  Bool-cases, inl, inr, if◌then◌else◌,
}
use onionguard.Errors.{ok}
use onionguard.Store.Redis.{Server, Script, pure, Value, scalar, int64, ◌>>◌}
use onionguard.Store.Redis.Scripts.{
  lua_reserve_session, add_member, add_below, reserve_member, reserve_at,
}
use onionguard.Store.Redis.Operations.{counted, is_one}
use onionguard.Store.Redis.Laws.{bind_ok, pure_ok}

-- The members whose score is above `now`.
unfoldable pub above : ℤ → Dict ℤ → Dict ℤ
above now [] = []
above now ((id, score) ∷ m) =
    let rest = above now m in if leb_ℤ score now then rest else (id, score) ∷ rest

-- The commands on sorted sets, where they do not fail, and the clock of the server.
pub record SetLaws (server : Server) : Type 0 where
  pub members : server.Db → Bytes → Dict ℤ
  pub clock : server.Db → ℕ
  pub time_lem :
      (d d' : server.Db) (t : ℕ × ℕ)
      → server.time d ≡ (ok t, d')
      → (t.0 * 1000 + t.1 / 1000 ≡ clock d) × (d' ≡ d)
  pub zrem_up_to_lem :
      (k : Bytes) (now n : ℤ) (d d' : server.Db)
      → server.zrem_up_to k now d ≡ (ok n, d')
      → members d' k ≡ above now (members d k)
  pub zscore_lem :
      (k id : Bytes) (d d' : server.Db) (o : Option ℤ)
      → server.zscore k id d ≡ (ok o, d')
      → (o ≡ lookup id (members d k)) × (d' ≡ d)
  pub zcard_lem :
      (k : Bytes) (d d' : server.Db) (n : ℕ)
      → server.zcard k d ≡ (ok n, d')
      → (n ≡ length (members d k)) × (d' ≡ d)
  pub zadd_lem :
      (k id : Bytes) (score n : ℤ) (d d' : server.Db)
      → server.zadd k score id d ≡ (ok n, d')
      → members d' k ≡ insert id score (members d k)

-- A member that is added where fewer than `limit` are there.
abbrev pub put_below : ℤ → ℕ → Dict ℤ → Dict ℤ → Bool × Dict ℤ
put_below limit n put m = if leb_ℤ limit (pos n) then (false, m) else (true, put)

-- A reservation: whoever has one keeps it with the new deadline, and another one gets one below the
-- limit.
abbrev pub reserve_for : Option ℤ → Bytes → ℤ → ℤ → Dict ℤ → Bool × Dict ℤ
reserve_for (some _) id score limit m = (true, insert id score m)
reserve_for none id score limit m = put_below limit (length m) (insert id score m) m

abbrev pub reserve : Bytes → ℤ → ℤ → Dict ℤ → Bool × Dict ℤ
reserve id score limit m = reserve_for (lookup id m) id score limit m

module _ {F : Type 0} {server : Server} (laws : SetLaws server) where
  open server use {Db}
  open laws use {members, clock}

  abbrev count : ℤ → Script Db (Value F)
  count n = pure (scalar (int64 n))

  pub record Reserves (k id : Bytes) (score limit : ℤ) (v : Value F) (d d' : Db) : Type 0 where
    pub number : ℤ
    pub is_number : v ≡ scalar (int64 number)
    pub effect :
        reserve id score limit (above (pos (clock d)) (members d k)) ≡ (is_one number, members d' k)

  -- A member that is added.
  added :
      (k id : Bytes) (score : ℤ) (d d' : Db) (v : Value F)
      → add_member F server k id score d ≡ (ok v, d')
      → (v ≡ scalar (int64 (pos 1))) × (members d' k ≡ insert id score (members d k))
  added k id score d d' v h =
      let (n, d₁, did, end) = bind_ok (server.zadd k score id) (λ _. count (pos 1)) d d' v h in
      let (is_number, stay) = pure_ok (scalar (int64 (pos 1))) v d₁ d' end in
      (is_number, ap (λ x. members x k) stay ∙ laws.zadd_lem k id score n d d₁ did)

  below :
      (k id : Bytes) (score limit : ℤ) (d d' : Db) (v : Value F) (n : ℕ)
      → add_below F server k id score limit n d ≡ (ok v, d')
      → (number : ℤ) × (v ≡ scalar (int64 number))
        × (put_below limit n (insert id score (members d k)) (members d k)
            ≡ (is_one number, members d' k))
  below k id score limit d d' v n h =
      let script = λ (b : Bool). if b then count (pos 0) else add_member F server k id score in
      let choice =
        λ (b : Bool). if b then (false, members d k) else (true, insert id score (members d k)) in
      elim (Bool-cases (leb_ℤ limit (pos n))) [
        | inl full ↦
            let (is_number, stay) =
              pure_ok (scalar (int64 (pos 0))) v d d'
                (subst (λ b. script b d ≡ (ok v, d')) full h) in
            (pos 0, is_number, ap choice full ∙ λ i. (false, sym (ap (λ x. members x k) stay) i))
        | inr room ↦
            let (is_number, put) =
              added k id score d d' v (subst (λ b. script b d ≡ (ok v, d')) room h) in
            (pos 1, is_number, ap choice room ∙ λ i. (true, sym put i))
      ]

  member :
      (k id : Bytes) (score limit : ℤ) (d d' : Db) (v : Value F) (old : Option ℤ)
      → reserve_member F server k id score limit old d ≡ (ok v, d')
      → (number : ℤ) × (v ≡ scalar (int64 number))
        × (reserve_for old id score limit (members d k) ≡ (is_one number, members d' k))
  member k id score limit d d' v (some s) h =
      let (is_number, put) = added k id score d d' v h in (pos 1, is_number, λ i. (true, sym put i))
  member k id score limit d d' v none h =
      let (n, d₁, counted, end) =
        bind_ok (server.zcard k) (add_below F server k id score limit) d d' v h in
      let (size, stay) = laws.zcard_lem k d d₁ n counted in
      let (number, is_number, effect) = below k id score limit d₁ d' v n end in
      let m = members d k in
      let now_members = ap (λ x. members x k) stay in
      (
        number,
        is_number,
        ap (λ (x : ℕ). put_below limit x (insert id score m) m) (sym size)
            ∙ ap (λ x. put_below limit n (insert id score x) x) (sym now_members)
            ∙ effect,
      )

  pub reserve_session-Reserves :
      (k id : Bytes) (score limit : ℤ) (d d' : Db) (v : Value F)
      → lua_reserve_session F server k id score limit d ≡ (ok v, d')
      → Reserves k id score limit v d d'
  unfolding lua_reserve_session
  reserve_session-Reserves k id score limit d d' v h =
      let (t, d₁, read, rest) =
        bind_ok server.time (reserve_at F server k id score limit) d d' v h in
      let (now, stay) = laws.time_lem d d₁ t read in
      let (old, d₂, dropped, end) =
        bind_ok (server.zrem_up_to k (pos (t.0 * 1000 + t.1 / 1000)) >> server.zscore k id)
          (reserve_member F server k id score limit) d₁ d' v rest in
      let (gone, d₃, did, found) =
        bind_ok (server.zrem_up_to k (pos (t.0 * 1000 + t.1 / 1000))) (λ _. server.zscore k id) d₁
          d₂ old dropped in
      let left = laws.zrem_up_to_lem k (pos (t.0 * 1000 + t.1 / 1000)) gone d₁ d₃ did in
      let (is_old, stay₂) = laws.zscore_lem k id d₃ d₂ old found in
      let (number, is_number, effect) = member k id score limit d₂ d' v old end in
      let same_members =
        ap (λ x. members x k) stay₂ ∙ left ∙ λ i. above (pos (now i)) (members (stay i) k) in
      let same_old = is_old ∙ ap (λ x. lookup id (members x k)) (sym stay₂) in
      record {
        number = number;
        is_number = is_number;
        effect =
            ap (reserve id score limit) (sym same_members)
            ∙ ap (λ o. reserve_for o id score limit (members d₂ k)) (sym same_old)
            ∙ effect;
      }

-- No reservation goes above the limit.
pub reserve_for-limit :
    (o : Option ℤ) (id : Bytes) (score : ℤ) (n : ℕ) (m : Dict ℤ)
    → o ≡ lookup id m
    → length m ≤ n
    → length (reserve_for o id score (pos n) m).1 ≤ n
reserve_for-limit (some s) id score n m e h =
    omega (arith, length-insert_old id score s m (sym e), h)
reserve_for-limit none id score n m e h = ground (arith, length-insert-le id score m)
