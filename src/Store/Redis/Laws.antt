-- ===== src/Store/Redis/Laws.antt =====
-- store/redis.go: what the theorems about RedisStore take from the documentation of Redis and of its
-- client, and what follows for a script or a method that succeeds.
use onionguard.Base.{
  false, true, ◌≡◌, refl, sym, ap, inl, inr, subst, Option, none, some, ℤ, pos, is_pos, Bytes,
  if_either, option_either,
}
use onionguard.Errors.{fail, not_found, Err, Result, ok, err, Result-cases}
use onionguard.Store.Spec.{View, without}
use onionguard.Store.Redis.{
  nothing, Server, Client, RedisStore, Script, pure, Reply, reply, nil_reply, failed, Value, scalar,
  int64, ◌>>=◌,
}
use onionguard.Store.Redis.Operations.{checked, answered, answer, counted}

abbrev pub count_of : Option Bytes → ℤ
count_of none = pos 0
count_of (some v) = pos 1

-- The string commands, where they do not fail, on what the keys show at that moment; and a script that
-- replies ran in one go, from `d` to `d'`, during the call from `w` to `w'`.
pub record Laws {F : Type 0} {server : Server} (client : Client F server) : Type 1 where
  pub view : server.Db → View
  pub Ran : client.W → server.Db → server.Db → client.W → Type 0
  pub get_lem :
      (k : Bytes) (d d' : server.Db) (v : Option Bytes)
      → server.get k d ≡ (ok v, d')
      → (v ≡ view d k) × (view d' ≡ view d)
  pub del_lem :
      (k : Bytes) (d d' : server.Db) (n : ℤ)
      → server.del k d ≡ (ok n, d')
      → (n ≡ count_of (view d k)) × (view d' ≡ without k (view d))
  pub pexpire_lem :
      (k : Bytes) (ms : ℤ) (d d' : server.Db) (n : ℤ)
      → is_pos ms ≡ true
      → server.pexpire k ms d ≡ (ok n, d')
      → (n ≡ count_of (view d k)) × (view d' ≡ view d)
  pub run_lem :
      (s : Script server.Db (Value F)) (w w' : client.W) (v : Value F)
      → client.run s w ≡ (reply v, w')
      → (d : server.Db) × (d' : server.Db) × Ran w d d' w' × (s d ≡ (ok v, d'))
  pub run_nil_lem :
      (s : Script server.Db (Value F)) (w w' : client.W)
      → client.run s w ≡ (nil_reply, w')
      → (d : server.Db) × (d' : server.Db) × Ran w d d' w' × (s d ≡ (ok nothing, d'))
  pub to_int64_lem : (n : ℤ) → client.to_int64 (scalar (int64 n)) ≡ reply n

-- The run, in the course of the call, whose effect is that of the operation.
pub record Linearized {A F : Type 0} {server : Server} {client : Client F server}
    (laws : Laws client) (w w' : client.W) (op : View → A × View) (a : A) : Type 0 where
  pub before : server.Db
  pub after : server.Db
  pub ran : laws.Ran w before after w'
  pub effect : op (laws.view before) ≡ (a, laws.view after)

-- Both parts of a script that replies.
pub bind_ok :
    {Db A B : Type 0} (m : Script Db A) (f : A → Script Db B) (d d' : Db) (b : B)
    → (m >>= f) d ≡ (ok b, d')
    → (a : A) × (d₁ : Db) × (m d ≡ (ok a, d₁)) × (f a d₁ ≡ (ok b, d'))
bind_ok {Db} {A} {B} m f d d' b h = elim (Result-cases (m d).0) [
  | inl (a, e) ↦ (a, (m d).1, ap (λ r. (r, (m d).1)) e, subst (λ r. go r ≡ (ok b, d')) e h)
  | inr (x, e) ↦ absurd (ok-ne-err b x (ap (λ p. p.0) (sym (subst (λ r. go r ≡ (ok b, d')) e h))))
]
  where
    go : Result A → Result B × Db
    go r = elim r [ ok a ↦ f a (m d).1 | err e ↦ (err e, (m d).1) ]

    ok-ne-err : (b : B) (x : Err) → ok b ≡ err x → ⊥
    ok-ne-err b x h = cc

pub pure_ok : {Db A : Type 0} (a b : A) (d d' : Db) → pure a d ≡ (ok b, d') → (b ≡ a) × (d' ≡ d)
pure_ok {Db} {A} a b d d' h = (ap value_of (sym h), ap (λ p. p.1) (sym h))
  where
    value_of : Result A × Db → A
    value_of (ok x, e) = x
    value_of (err x, e) = b

module _ {F : Type 0} {server : Server} (client : Client F server) where
  open client use {W, ctx_err}

  -- A method that succeeds asked the server.
  pub checked_ok :
      {A : Type 0} (r : RedisStore) (wrong : Option Err) (go : W → Result A × W) (w : W) (a : A)
      → (checked client r wrong go w).0 ≡ ok a
      → checked client r wrong go w ≡ go (ctx_err w).1
  unfolding checked
  checked_ok {A} r (some e) go w a =
      if_either (λ (out : Result A × W). out.0 ≡ ok a → out ≡ go (ctx_err w).1) r.closed _ _
        (λ _. λ h. cc) (λ _. λ h. cc)
  checked_ok {A} r none go w a =
      if_either (λ (out : Result A × W). out.0 ≡ ok a → out ≡ go (ctx_err w).1) r.closed _ _
        (λ _. λ h. cc)
        (λ _.
          option_either (λ (out : Result A × W). out.0 ≡ ok a → out ≡ go (ctx_err w).1)
            (ctx_err w).0 _ _ (λ _. λ h. refl) (λ e. λ _. λ h. cc))

  -- A method of an open store whose arguments and context are fine asks the server.
  pub checked_go :
      {A : Type 0} (r : RedisStore) (wrong : Option Err) (go : W → Result A × W) (w : W)
      → r.closed ≡ false
      → wrong ≡ none
      → (ctx_err w).0 ≡ none
      → checked client r wrong go w ≡ go (ctx_err w).1
  unfolding checked
  checked_go r wrong go w open_ fine going = rw (open_, fine, going)

  pub answered_nil :
      {A B : Type 0} (f : A → Result B) (command : W → Reply A × W) (w w' : W)
      → command w ≡ (nil_reply, w')
      → answered client f command w ≡ (fail not_found, w')
  unfolding answered answer
  answered_nil f command w w' h = rw h

  pub answered_reply :
      {A B : Type 0} (f : A → Result B) (command : W → Reply A × W) (w w' : W) (a : A)
      → command w ≡ (reply a, w')
      → answered client f command w ≡ (f a, w')
  unfolding answered answer
  answered_reply f command w w' a h = rw h

  answer_ok :
      {A B : Type 0} (f : A → Result B) (x : Reply A) (b : B)
      → answer f x ≡ ok b
      → (a : A) × (x ≡ reply a) × (f a ≡ ok b)
  unfolding answer
  answer_ok f (reply a) b h = (a, refl, h)
  answer_ok f nil_reply b h = cc
  answer_ok f (failed n) b h = cc

  pub answered_ok :
      {A B : Type 0} (f : A → Result B) (command : W → Reply A × W) (w : W) (b : B)
      → (answered client f command w).0 ≡ ok b
      → (a : A) × (command w ≡ (reply a, (answered client f command w).1)) × (f a ≡ ok b)
  unfolding answered
  answered_ok f command w b h =
      let (a, e, k) = answer_ok f (command w).0 b h in (a, ap (λ x. (x, (command w).1)) e, k)

  module _ (laws : Laws client) where
    pub counted-int64 :
        {B : Type 0} (f : ℤ → Result B) (n : ℤ) → counted client f (scalar (int64 n)) ≡ f n
    unfolding counted answer
    counted-int64 f n = rw (laws.to_int64_lem n)
