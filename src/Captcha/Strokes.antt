-- ===== src/Captcha/Strokes.antt =====
-- captcha.go: the points that `drawLine` sets. After `i` steps across and `j` steps down the error is
-- (j + 1) dx - (i + 1) dy.
use onionguard.Base.{
  ℕ, zero, suc, ◌+◌, ◌-◌, ◌*◌, ◌≤◌, ◌<◌, ltb, ◌≡◌, refl, ap, ◌∙◌, subst, ◌⊎◌, inl, inr, Bool, true,
  false, ◌||◌, ℤ, pos, negsuc, sub_ℕ, ltb_ℤ, ◌+ℤ◌, ◌-ℤ◌, arith, if◌then◌else◌,
}
use onionguard.Captcha.Line.{Pen, draw_step}

-- The tests of a round and its errors, for an error of `a - b`.
across_lem : (a b n : ℕ) → ltb_ℤ (pos 0 -ℤ pos n) (sub_ℕ a b +ℤ sub_ℕ a b) ≡ ltb (2 * b) (2 * a + n)
across_lem a b n = ground arith

down_lem : (a b m : ℕ) → ltb_ℤ (sub_ℕ a b +ℤ sub_ℕ a b) (pos m) ≡ ltb (2 * a) (2 * b + m)
down_lem a b m = ground arith

less_lem : (a b n : ℕ) → (sub_ℕ a b -ℤ pos n) ≡ sub_ℕ a (b + n)
less_lem a b n = ground arith

more_lem : (a b m : ℕ) → (sub_ℕ a b +ℤ pos m) ≡ sub_ℕ (a + m) b
more_lem a b m = ground arith

-- A coordinate after some steps, up or down.
abbrev pub moved : Bool → ℕ → ℕ → ℤ
moved up from i = if up then pos (from + i) else pos (from - i)

abbrev pub way : Bool → ℤ
way up = if up then pos 1 else negsuc 0

moved_step :
    (up : Bool) (from m i : ℕ)
    → (up ≡ false → m ≤ from)
    → i < m
    → (moved up from i +ℤ way up) ≡ moved up from (suc i)
moved_step true from m i h k = ground arith
moved_step false from m i h k = ground (arith, h refl)

mul_le : (a b c : ℕ) → a ≤ b → a * c ≤ b * c
mul_le zero b c h = omega arith
mul_le (suc a) zero c h = omega arith
mul_le (suc a) (suc b) c h = omega (arith, mul_le a b c (omega arith))

lt_or_eq : (i m : ℕ) → i ≤ m → (i < m) ⊎ (i ≡ m)
lt_or_eq i m h = omega arith

-- No step leads past the end, as long as the other coordinate is not at its end too.
across_room :
    (i j m n : ℕ) → i ≤ m → j < n ⊎ (i < m) → 2 * (suc i * n) < 2 * (suc j * m) + n → i < m
across_room i j m n h (inr k) t = k
across_room i j m n h (inl k) t = elim (lt_or_eq i m h) [
  | inl less ↦ less
  | inr e ↦ absurd (past m j n k (subst (λ i. 2 * (suc i * n) < 2 * (suc j * m) + n) e t))
]
  where
    past : (m j n : ℕ) → j < n → 2 * (suc m * n) < 2 * (suc j * m) + n → ⊥
    past m j n k t = omega (arith, mul_le (suc j) n m k, t)

one_more : (i n : ℕ) → suc i * n + n ≡ suc (suc i) * n
one_more i n = omega arith

-- One more, where a step is made.
abbrev advance : Bool → ℕ → ℕ
advance step i = if step then suc i else i

ltb→lt : (a b : ℕ) → ltb a b ≡ true → a < b
ltb→lt a b h = ground arith

advance-le : (step : Bool) (i m : ℕ) → i ≤ m → (step ≡ true → i < m) → advance step i ≤ m
advance-le true i m h f = f refl
advance-le false i m h f = h

swap : {A B : Type 0} → A ⊎ B → B ⊎ A
swap (inl a) = inr a
swap (inr b) = inl b

closer :
    (across down : Bool) (i j : ℕ)
    → across || down ≡ true
    → i + j < advance across i + advance down j
closer true true i j h = omega arith
closer true false i j h = omega arith
closer false true i j h = omega arith
closer false false i j h = cc

module _ (up_x up_y : Bool) (x0 y0 m n : ℕ) (low_x : up_x ≡ false → m ≤ x0)
    (low_y : up_y ≡ false → n ≤ y0) where
  abbrev pub at : ℕ → ℕ → Pen
  at i j = record {
    x = moved up_x x0 i;
    y = moved up_y y0 j;
    error = sub_ℕ (suc j * m) (suc i * n);
  }

  -- A round whose tests had these results.
  abbrev round : Bool → Bool → Pen → Pen
  round across down p =
      let q = if across then record p { error = p.error -ℤ pos n; x = p.x +ℤ way up_x } else p in
      if down then record q { error = q.error +ℤ pos m; y = q.y +ℤ way up_y } else q

  round-at :
      (across down : Bool) (i j : ℕ)
      → (across ≡ true → i < m)
      → (down ≡ true → j < n)
      → round across down (at i j) ≡ at (advance across i) (advance down j)
  round-at false false i j a d = refl
  round-at true false i j a d = λ k. record {
    x = moved_step up_x x0 m i low_x (a refl) k;
    y = moved up_y y0 j;
    error = (less_lem (suc j * m) (suc i * n) n ∙ ap (sub_ℕ (suc j * m)) (one_more i n)) k;
  }
  round-at false true i j a d = λ k. record {
    x = moved up_x x0 i;
    y = moved_step up_y y0 n j low_y (d refl) k;
    error = (more_lem (suc j * m) (suc i * n) m ∙ ap (λ z. sub_ℕ z (suc i * n)) (one_more j m)) k;
  }
  round-at true true i j a d = λ k. record {
    x = moved_step up_x x0 m i low_x (a refl) k;
    y = moved_step up_y y0 n j low_y (d refl) k;
    error =
        (ap (λ z. z +ℤ pos m)
              (less_lem (suc j * m) (suc i * n) n ∙ ap (sub_ℕ (suc j * m)) (one_more i n))
            ∙ more_lem (suc j * m) (suc (suc i) * n) m
            ∙ ap (λ z. sub_ℕ z (suc (suc i) * n)) (one_more j m))
          k;
  }

  pub record Stepped (i j : ℕ) : Type 0 where
    pub i' : ℕ
    pub j' : ℕ
    pub step : draw_step (pos m) (pos n) (way up_x) (way up_y) (at i j) ≡ at i' j'
    pub in_x : i' ≤ m
    pub in_y : j' ≤ n
    pub nearer : i + j < i' + j'

  -- Before the end a round makes a step.
  some_step :
      {i j : ℕ} (a b : ℕ)
      → (j < n) ⊎ (i < m)
      → (ltb (2 * b) (2 * a + n) || ltb (2 * a) (2 * b + m)) ≡ true
  some_step a b (inl h) = ground arith
  some_step a b (inr h) = ground arith

  pub draw_step-at : (i j : ℕ) → i ≤ m → j ≤ n → (j < n) ⊎ (i < m) → Stepped i j
  unfolding draw_step
  draw_step-at i j h k more =
      let a = suc j * m in
      let b = suc i * n in
      let across = ltb (2 * b) (2 * a + n) in
      let down = ltb (2 * a) (2 * b + m) in
      let may_cross =
        λ (e : across ≡ true). across_room i j m n h more (ltb→lt (2 * b) (2 * a + n) e) in
      let may_sink =
        λ (e : down ≡ true). across_room j i n m k (swap more) (ltb→lt (2 * a) (2 * b + m) e) in
      record {
        i' = advance across i;
        j' = advance down j;
        step =
            (λ k. round (across_lem a b n k) (down_lem a b m k) (at i j))
            ∙ round-at across down i j may_cross may_sink;
        in_x = advance-le across i m h may_cross;
        in_y = advance-le down j n k may_sink;
        nearer = closer across down i j (some_step a b more);
      }
