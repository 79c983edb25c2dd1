-- ===== src/Store/Redis/Scripts.antt =====
-- store/redis.go: the Lua scripts. `KEYS[1]` is the first argument, `ARGV` are the others; a number
-- that comes as text is the number, and what a script returns is the Go value that the reply becomes.
use onionguard.Base.{
  ℕ, zero, ◌+◌, ◌/◌, ◌*◌, ◌==◌, Bool, Option, none, some, [], ◌∷◌, ◌++◌, ℤ, pos, ltb_ℤ, leb_ℤ,
  Bytes, codes, if◌then◌else◌,
}
use onionguard.Store.Spec.{shows}
use onionguard.Store.Redis.{
  Server, Script, pure, ◌>>=◌, ◌>>◌, Value, nothing, scalar, array, int64, text,
}

-- Lua's numbers: of an integer, of the text of an argument or a value, as text, and as a reply.
pub record Lua (F N : Type 0) : Type 0 where
  pub of_int : ℤ → N
  pub of_float : F → N
  pub tonumber : Bytes → Option N
  pub tostring : N → Bytes
  pub to_reply : N → ℤ
  pub min : N → N → N
  pub max : N → N → N
  pub ceil : N → N
  pub plus : N → N → N
  pub minus : N → N → N
  pub times : N → N → N
  pub over : N → N → N
  pub at_most : N → N → Bool

-- The text before and behind the first colon.
unfoldable pub cut_colon : Bytes → Option (Bytes × Bytes)
cut_colon [] = none
cut_colon (c ∷ cs) =
    let rest = cut_colon cs in
    if c == 58
    then some ([], cs)
    else (elim rest [ none ↦ none | some (front, back) ↦ some (c ∷ front, back) ])

module _ (F : Type 0) (server : Server) where
  open server use {
    Db, get, del, incr_by, pttl, pexpire, set_px, time, zrem_up_to, zscore, zcard, zadd, zrem,
  }

  abbrev count_reply : ℤ → Script Db (Value F)
  count_reply n = pure (scalar (int64 n))

  -- `lua_get_del` behind its GET.
  abbrev pub take_found : Bytes → Option Bytes → Script Db (Value F)
  take_found key none = pure nothing
  take_found key (some x) = del key >> pure (scalar (text x))

  unfoldable pub lua_get_del : Bytes → Script Db (Value F)
  lua_get_del key = get key >>= take_found key

  unfoldable pub lua_increment_with_ttl : Bytes → ℤ → ℤ → Script Db (Value F)
  lua_increment_with_ttl key delta ms = incr_by key delta >>= λ v. pttl key >>= λ ttl.
      if ltb_ℤ ttl (pos 0) then pexpire key ms >> count_reply v else count_reply v

  unfoldable pub lua_compare_and_delete : Bytes → Bytes → Script Db (Value F)
  lua_compare_and_delete key expected =
      get key >>= λ v. if shows expected v then del key >>= count_reply else count_reply (pos 0)

  unfoldable pub lua_compare_and_touch : Bytes → Bytes → ℤ → Script Db (Value F)
  lua_compare_and_touch key expected ms = get key >>= λ v.
      if shows expected v then pexpire key ms >>= count_reply else count_reply (pos 0)

  -- The parts of `lua_reserve_session`, from its end.
  abbrev pub add_member : Bytes → Bytes → ℤ → Script Db (Value F)
  add_member key id score = zadd key score id >> count_reply (pos 1)

  abbrev pub add_below : Bytes → Bytes → ℤ → ℤ → ℕ → Script Db (Value F)
  add_below key id score limit n =
      if leb_ℤ limit (pos n) then count_reply (pos 0) else add_member key id score

  abbrev pub reserve_member : Bytes → Bytes → ℤ → ℤ → Option ℤ → Script Db (Value F)
  reserve_member key id score limit none = zcard key >>= add_below key id score limit
  reserve_member key id score limit (some _) = add_member key id score

  abbrev pub reserve_at : Bytes → Bytes → ℤ → ℤ → ℕ × ℕ → Script Db (Value F)
  reserve_at key id score limit (seconds, micros) =
      (zrem_up_to key (pos (seconds * 1000 + micros / 1000)) >> zscore key id)
      >>= reserve_member key id score limit

  unfoldable pub lua_reserve_session : Bytes → Bytes → ℤ → ℤ → Script Db (Value F)
  lua_reserve_session key id score limit = time >>= reserve_at key id score limit

  unfoldable pub lua_move_session_reservation : Bytes → Bytes → Bytes → ℤ → Script Db (Value F)
  lua_move_session_reservation key old_id new_id score = zrem key old_id >>= λ n. (elim n [
    | pos zero ↦ count_reply (pos 0)
    | _ ↦ zadd key score new_id >> count_reply (pos 1)
  ])

module _ {F N : Type 0} (lua : Lua F N) (server : Server) where
  open server use {Db, get, set_px}

  -- The tokens and the time that the value of the key tells, or a full bucket.
  unfoldable pub stored_bucket : N → N → Option Bytes → N × N
  stored_bucket burst now none = (burst, now)
  stored_bucket burst now (some raw) = elim (cut_colon raw) [
    | none ↦ (burst, now)
    | some (front, back) ↦ (
      (elim (lua.tonumber front) [ none ↦ burst | some n ↦ n ]),
      (elim (lua.tonumber back) [ none ↦ now | some n ↦ n ]),
    )
  ]

  unfoldable pub lua_consume_token : Bytes → ℤ → F → ℤ → ℤ → ℤ → Script Db (Value F)
  lua_consume_token key now_ms rate burst cost ms = get key >>= λ raw.
      let now = lua.of_int now_ms in
      let rate = lua.of_float rate in
      let burst = lua.of_int burst in
      let cost = lua.of_int cost in
      let (tokens, updated) = stored_bucket burst now raw in
      let elapsed =
        lua.over (lua.max (lua.of_int (pos 0)) (lua.minus now updated)) (lua.of_int (pos 1000)) in
      let tokens = lua.min burst (lua.plus tokens (lua.times elapsed rate)) in
      let enough = lua.at_most cost tokens in
      let left = if enough then lua.minus tokens cost else tokens in
      let retry =
        lua.ceil (lua.times (lua.over (lua.minus cost tokens) rate) (lua.of_int (pos 1000))) in
      set_px key (lua.tostring left ++ (codes ":" ++ lua.tostring now)) ms
      >> pure (
          array (
            int64 (if enough then pos 1 else pos 0)
            ∷ int64 (if enough then pos 0 else lua.to_reply retry)
            ∷ []))
