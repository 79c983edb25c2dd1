-- ===== src/Captcha/Drawn.antt =====
-- captcha.go: the loop of `drawLine`, from any of its points to the end.
use onionguard.Base.{
  ℕ, zero, suc, ◌+◌, ◌-◌, ◌≤◌, ◌<◌, ◌==◌, ltb, ◌≡◌, refl, ap, ◌∙◌, ◌⊎◌, inl, inr, Bool, true, false,
  ◌&&◌, Option, none, some, List, [], ◌∷◌, ℤ, pos, arith, Bool-cases, All, length,
}
use onionguard.Captcha.Line.{Pen, draw_step, draw_loop, same_int}
use onionguard.Captcha.Strokes.{moved, way, at, draw_step-at}

abbrev pub last : {A : Type 0} → List A → Option A
last [] = none
last (x ∷ []) = some x
last (x ∷ y ∷ ys) = last (y ∷ ys)

-- A coordinate between two others.
abbrev pub Between : ℕ → ℕ → ℤ → Type 0
Between a b z = (c : ℕ) × (z ≡ pos c) × ((a ≤ c) × (c ≤ b) ⊎ (b ≤ c) × (c ≤ a))

abbrev pub head : {A : Type 0} → List A → Option A
head [] = none
head (x ∷ xs) = some x

-- A line of at most `most` points between the corners, from `start` to the second corner.
pub record IsLine (most x0 y0 x1 y1 : ℕ) (start : ℤ × ℤ) (points : List (ℤ × ℤ)) : Type 0 where
  pub inside : All (λ p. Between x0 x1 p.0 × Between y0 y1 p.1) points
  pub first : head points ≡ some start
  pub end : last points ≡ some (pos x1, pos y1)
  pub few : length points ≤ most

same_moved :
    (up : Bool) (from m i : ℕ)
    → (up ≡ false → m ≤ from)
    → i ≤ m
    → same_int (moved up from i) (moved up from m) ≡ (i == m)
same_moved true from m i h k = ground arith
same_moved false from m i h k = ground (arith, h refl)

moved-Between :
    (up : Bool) (from to m i : ℕ)
    → (up ≡ false → m ≤ from)
    → moved up from m ≡ pos to
    → i ≤ m
    → Between from to (moved up from i)
moved-Between true from to m i h e k = (from + i, refl, inl (omega arith, to_end))
  where
    to_end : from + i ≤ to
    to_end = ground (arith, e)
moved-Between false from to m i h e k = (from - i, refl, inr (from_end, omega arith))
  where
    from_end : to ≤ from - i
    from_end = ground (arith, e)

last_cons : {A : Type 0} (x y : A) (ys : List A) → head ys ≡ some y → last (x ∷ ys) ≡ last ys
last_cons x y [] h = cc
last_cons x y (z ∷ zs) h = refl

-- The last round of the loop, and any other.
draw_loop_last :
    (fuel : ℕ) (dx dy sx sy x1 y1 : ℤ) (p : Pen)
    → (same_int p.x x1 && same_int p.y y1) ≡ true
    → draw_loop (suc fuel) dx dy sx sy x1 y1 p ≡ some ((p.x, p.y) ∷ [])
unfolding draw_loop
draw_loop_last fuel dx dy sx sy x1 y1 p h = rw h

draw_loop_more :
    (fuel : ℕ) (dx dy sx sy x1 y1 : ℤ) (p : Pen) (points : List (ℤ × ℤ))
    → (same_int p.x x1 && same_int p.y y1) ≡ false
    → draw_loop fuel dx dy sx sy x1 y1 (draw_step dx dy sx sy p) ≡ some points
    → draw_loop (suc fuel) dx dy sx sy x1 y1 p ≡ some ((p.x, p.y) ∷ points)
unfolding draw_loop
draw_loop_more fuel dx dy sx sy x1 y1 p points h e = rw (h, e)

module _ (up_x up_y : Bool) (x0 y0 m n : ℕ) (low_x : up_x ≡ false → m ≤ x0)
    (low_y : up_y ≡ false → n ≤ y0) (x1 y1 : ℕ) (end_x : moved up_x x0 m ≡ pos x1)
    (end_y : moved up_y y0 n ≡ pos y1) where
  abbrev pen : ℕ → ℕ → Pen
  pen i j = at up_x up_y x0 y0 m n low_x low_y i j

  abbrev point : ℕ → ℕ → ℤ × ℤ
  point i j = ((pen i j).x, (pen i j).y)

  abbrev loop : ℕ → Pen → Option (List (ℤ × ℤ))
  loop fuel p =
      draw_loop fuel (pos m) (pos n) (way up_x) (way up_y) (moved up_x x0 m) (moved up_y y0 n) p

  not_yet : (i j : ℕ) → i ≤ m → j ≤ n → (i == m && j == n) ≡ false → (j < n) ⊎ (i < m)
  not_yet i j h k e = elim (Bool-cases (ltb j n)) [
    | inl less ↦ inl (ground arith)
    | inr not_less ↦ inr (ground arith)
  ]

  at_end :
      (i j : ℕ)
      → i ≤ m
      → j ≤ n
      → (same_int (pen i j).x (moved up_x x0 m) && same_int (pen i j).y (moved up_y y0 n))
        ≡ (i == m && j == n)
  at_end i j h k = λ t. same_moved up_x x0 m i low_x h t && same_moved up_y y0 n j low_y k t

  within : (i j : ℕ) → i ≤ m → j ≤ n → Between x0 x1 (pen i j).x × Between y0 y1 (pen i j).y
  within i j h k =
      (moved-Between up_x x0 x1 m i low_x end_x h, moved-Between up_y y0 y1 n j low_y end_y k)

  end-IsLine :
      (i j : ℕ)
      → i ≤ m
      → j ≤ n
      → (i == m && j == n) ≡ true
      → IsLine (m + n + 1 - (i + j)) x0 y0 x1 y1 (point i j) (point i j ∷ [])
  end-IsLine i j h k e =
      let same_x : i ≡ m = ground (arith, e) in
      let same_y : j ≡ n = ground (arith, e) in
      record {
        inside = (within i j h k, tt);
        first = refl;
        end = λ t.
            some ((ap (moved up_x x0) same_x ∙ end_x) t, (ap (moved up_y y0) same_y ∙ end_y) t);
        few = omega (arith, same_x, same_y);
      }

  pub draw_loop-IsLine :
      (fuel i j : ℕ)
      → i ≤ m
      → j ≤ n
      → m + n < fuel + (i + j)
      → (points : List (ℤ × ℤ)) × (loop fuel (pen i j) ≡ some points)
        × IsLine (m + n + 1 - (i + j)) x0 y0 x1 y1 (point i j) points
  draw_loop-IsLine zero i j h k f = absurd (omega arith)
  draw_loop-IsLine (suc fuel) i j h k f = elim (Bool-cases (i == m && j == n)) [
    | inl done ↦ (
      point i j ∷ [],
      draw_loop_last fuel _ _ _ _ _ _ (pen i j) (at_end i j h k ∙ done),
      end-IsLine i j h k done,
    )
    | inr going ↦
        let s = draw_step-at up_x up_y x0 y0 m n low_x low_y i j h k (not_yet i j h k going) in
        let (points, e, rest) =
          draw_loop-IsLine fuel s.i' s.j' s.in_x s.in_y (omega (arith, s.nearer)) in
        (
          point i j ∷ points,
          draw_loop_more fuel _ _ _ _ _ _ (pen i j) points (at_end i j h k ∙ going)
              (ap (loop fuel) s.step ∙ e),
          record {
            inside = (within i j h k, rest.inside);
            first = refl;
            end = last_cons (point i j) (point s.i' s.j') points rest.first ∙ rest.end;
            few = omega (arith, rest.few, s.nearer, s.in_x, s.in_y);
          },
        )
  ]
