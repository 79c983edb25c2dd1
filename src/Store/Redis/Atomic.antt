-- ===== src/Store/Redis/Atomic.antt =====
-- store/redis.go: the scripts as atomic operations of the specification, by the documented behaviour of
-- the commands that they call.
use onionguard.Base.{
  ◌⊎◌, inl, inr, Bool-cases, Bool, true, false, ◌≡◌, refl, sym, ap, ◌∙◌, inl, inr, subst, Option,
  none, some, ℤ, negsuc, pos, is_pos, Bytes, arith, if◌then◌else◌,
}
use onionguard.Base.Time.{Duration}
use onionguard.Errors.{ok}
use onionguard.Store.Spec
use onionguard.Store.Spec.{View, shows, without}
use onionguard.Store.Redis.{Server, Client, Script, pure, Value, scalar, int64, ttl_ms, ◌>>=◌}
use onionguard.Store.Redis.Scripts.{lua_compare_and_delete, lua_compare_and_touch}
use onionguard.Store.Redis.Operations.{is_one}
use onionguard.Store.Redis.Laws.{Laws, count_of, bind_ok, pure_ok}

abbrev chosen : Bool → View → View → Bool × View
chosen b yes_view no_view = if b then (true, yes_view) else (false, no_view)

module _ {F : Type 0} {server : Server} (client : Client F server) (laws : Laws client) where
  open server use {Db}
  open client use {W, ctx_err}
  open laws use {view}

  -- The reply of a script to whether it did what it was asked to do.
  pub record Replies (op : View → Bool × View) (v : Value F) (d d' : Db) : Type 0 where
    pub count : ℤ
    pub as_count : v ≡ scalar (int64 count)
    pub effect : op (view d) ≡ (is_one count, view d')

  abbrev count : ℤ → Script Db (Value F)
  count n = pure (scalar (int64 n))

  -- A command that runs only where the key shows the expected value.
  compared :
      (k expected : Bytes) (command : Script Db ℤ) (d d' : Db) (v : Value F)
      → (server.get k >>= λ old. if shows expected old then command >>= count else count (pos 0)) d
        ≡ (ok v, d')
      → ((shows expected (view d k) ≡ true)
          × (n : ℤ) × (d₁ : Db) × (view d₁ ≡ view d)
          × (command d₁ ≡ (ok n, d'))
          × (v ≡ scalar (int64 n)))
        ⊎ ((shows expected (view d k) ≡ false) × (view d' ≡ view d) × (v ≡ scalar (int64 (pos 0))))
  compared k expected command d d' v h =
      let go =
        λ (old : Option Bytes). if shows expected old then command >>= count else count (pos 0) in
      let (old, d₁, got, rest) = bind_ok (server.get k) go d d' v h in
      let (e, same_view) = laws.get_lem k d d₁ old got in
      elim (Bool-cases (shows expected old)) [
        | inl hit ↦
            let (n, d₂, ran, end) = bind_ok command count d₁ d' v (
              subst (λ (b : Bool). (if b then command >>= count else count (pos 0)) d₁ ≡ (ok v, d'))
                hit rest) in
            let (is_count, stay) = pure_ok (scalar (int64 n)) v d₂ d' end in
            inl (
              ap (shows expected) (sym e) ∙ hit,
              n,
              d₁,
              same_view,
              ran ∙ ap (λ x. (ok n, x)) (sym stay),
              is_count,
            )
        | inr miss ↦
            let (is_count, stay) = pure_ok (scalar (int64 (pos 0))) v d₁ d' (
              subst (λ (b : Bool). (if b then command >>= count else count (pos 0)) d₁ ≡ (ok v, d'))
                miss rest) in
            inr (ap (shows expected) (sym e) ∙ miss, ap view stay ∙ same_view, is_count)
      ]

  count_shown :
      (expected : Bytes) (o : Option Bytes) → shows expected o ≡ true → is_one (count_of o) ≡ true
  count_shown expected none h = cc
  count_shown expected (some v) h = refl

  -- The command counted the key.
  took :
      (k expected : Bytes) (d d₁ d' : Db) (then_view : View) (n : ℤ)
      → shows expected (view d k) ≡ true
      → view d₁ ≡ view d
      → n ≡ count_of (view d₁ k)
      → then_view ≡ view d'
      → chosen (shows expected (view d k)) then_view (view d) ≡ (is_one n, view d')
  took k expected d d₁ d' then_view n hit same_view e done =
      let one = count_shown expected (view d k) hit in
      let counted = ap is_one (e ∙ ap (λ (f : View). count_of (f k)) same_view) ∙ one in
      ap (λ (b : Bool). if b then (true, then_view) else (false, view d)) hit ∙ λ i.
      (sym counted i, done i)

  left :
      (k expected : Bytes) (d d' : Db) (then_view : View)
      → shows expected (view d k) ≡ false
      → view d' ≡ view d
      → chosen (shows expected (view d k)) then_view (view d) ≡ (false, view d')
  left k expected d d' then_view miss same_view =
      ap (λ (b : Bool). if b then (true, then_view) else (false, view d)) miss ∙ λ i.
      (false, sym same_view i)

  pub compare_and_delete-Replies :
      (k expected : Bytes) (d d' : Db) (v : Value F)
      → lua_compare_and_delete F server k expected d ≡ (ok v, d')
      → Replies (Spec.compare_and_delete k expected) v d d'
  unfolding lua_compare_and_delete
  compare_and_delete-Replies k expected d d' v h =
      elim (compared k expected (server.del k) d d' v h) [
        | inl (hit, n, d₁, same_view, ran, is_count) ↦
            let (e, gone) = laws.del_lem k d₁ d' n ran in
            record {
              count = n;
              as_count = is_count;
              effect =
                  took k expected d d₁ d' (without k (view d)) n hit same_view e
                    (ap (without k) (sym same_view) ∙ sym gone);
            }
        | inr (miss, same_view, is_count) ↦ record {
          count = pos 0;
          as_count = is_count;
          effect = left k expected d d' (without k (view d)) miss same_view;
        }
      ]

  same_answer : (b : Bool) (m : View) → ◌≡◌ {A = Bool × View} (b, m) (chosen b m m)
  same_answer true m = refl
  same_answer false m = refl

  pub compare_and_touch-Replies :
      (k expected : Bytes) (ms : ℤ) (d d' : Db) (v : Value F)
      → is_pos ms ≡ true
      → lua_compare_and_touch F server k expected ms d ≡ (ok v, d')
      → Replies (Spec.compare_and_touch k expected) v d d'
  unfolding lua_compare_and_touch
  compare_and_touch-Replies k expected ms d d' v p h =
      elim (compared k expected (server.pexpire k ms) d d' v h) [
        | inl (hit, n, d₁, same_view, ran, is_count) ↦
            let (e, kept) = laws.pexpire_lem k ms d₁ d' n p ran in
            record {
              count = n;
              as_count = is_count;
              effect =
                  same_answer _ _
                  ∙ took k expected d d₁ d' (view d) n hit same_view e (sym same_view ∙ sym kept);
            }
        | inr (miss, same_view, is_count) ↦ record {
          count = pos 0;
          as_count = is_count;
          effect = same_answer _ _ ∙ left k expected d d' (view d) miss same_view;
        }
      ]

  pub ttl_ms-is_pos : (ttl : Duration) → is_pos (ttl_ms ttl) ≡ true
  unfolding ttl_ms
  ttl_ms-is_pos (pos n) = ground arith
  ttl_ms-is_pos (negsuc n) = refl
