-- ===== src/Store/Redis/Taken.antt =====
-- store/redis.go: GetDel as the atomic operation of the specification.
use mathlib.Core.Path.{fun_ext}
use onionguard.Store.Spec.{without}
use onionguard.Base.{
  same, same_iff, Bool-cases, inl, inr, ◌≡◌, sym, ap, ◌∙◌, subst, Option, none, some, Bytes,
}
use onionguard.Errors.{ok}
use onionguard.Store.Spec
use onionguard.Store.Memory.View.{or_not_found}
use onionguard.Store.Spec.{View, shows, without}
use onionguard.Store.Redis.{Server, Client, pure, Value, nothing, scalar, text}
use onionguard.Store.Redis.Scripts.{lua_get_del, take_found}
use onionguard.Store.Redis.Operations.{as_bytes}
use onionguard.Store.Redis.Laws.{Laws, bind_ok}
use onionguard.Store.Redis.Laws.{pure_ok}

-- A key that shows nothing can be taken away.
without-none : (k : Bytes) (m : View) → m k ≡ none → without k m ≡ m
without-none k m e = fun_ext (λ j. same_there j)
  where
    same_there : (j : Bytes) → without k m j ≡ m j
    same_there j = elim (Bool-cases (same k j)) [
      | inl hit ↦ rw hit (sym e ∙ ap m ((same_iff k j).0 hit))
      | inr miss ↦ rw miss
    ]

module _ {F : Type 0} {server : Server} (client : Client F server) (laws : Laws client) where
  open server use {Db}
  open client use {W, ctx_err}
  open laws use {view}

  taken :
      (k : Bytes) (old : Option Bytes) (d₁ d' : Db) (v : Value F)
      → old ≡ view d₁ k
      → take_found F server k old d₁ ≡ (ok v, d')
      → (as_bytes client v ≡ or_not_found old) × (Spec.get_del k (view d₁) ≡ (old, view d'))
  unfolding as_bytes
  taken k none d₁ d' v e h =
      let (is_nothing, stay) = pure_ok nothing v d₁ d' h in
      (
        ap (as_bytes client) is_nothing,
        λ i. (sym e i, (without-none k (view d₁) (sym e) ∙ ap view (sym stay)) i),
      )
  taken k (some y) d₁ d' v e h =
      let (n, d₂, gone, end) = bind_ok (server.del k) (λ _. pure (scalar (text y))) d₁ d' v h in
      let (is_text, stay) = pure_ok (scalar (text y)) v d₂ d' end in
      let (_, dropped) = laws.del_lem k d₁ d₂ n gone in
      let same_view = sym dropped ∙ ap view (sym stay) in
      (ap (as_bytes client) is_text, λ i. (sym e i, same_view i))

  pub get_del-Spec :
      (k : Bytes) (d d' : Db) (v : Value F)
      → lua_get_del F server k d ≡ (ok v, d')
      → (o : Option Bytes) × (as_bytes client v ≡ or_not_found o)
        × (Spec.get_del k (view d) ≡ (o, view d'))
  unfolding lua_get_del
  get_del-Spec k d d' v h =
      let (old, d₁, got, rest) = bind_ok (server.get k) (take_found F server k) d d' v h in
      let (e, same_view) = laws.get_lem k d d₁ old got in
      let (told, effect) = taken k old d₁ d' v (e ∙ ap (λ (m : View). m k) (sym same_view)) rest in
      (old, told, subst (λ m. Spec.get_del k m ≡ (old, view d')) same_view effect)
