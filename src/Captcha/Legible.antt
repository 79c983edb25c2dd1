-- ===== src/Captcha/Legible.antt =====
-- captcha.go: an image on which the whole answer is to be read.
use onionguard.Base.{
  ℕ, zero, suc, ◌+◌, ◌*◌, ◌≤◌, ◌<◌, ◌≡◌, List, [], ◌∷◌, ◌++◌, Bytes, length, arith, option_either,
  if_either, ltb, ◌==◌, ◌||◌, ℤ, pos, negsuc, subst, sym, none, some, map,
}
use onionguard.Errors.{Err, Result, ok, err}
use onionguard.Captcha.{
  Frame, Square, answer_squares, total_width, render_letters, letter_scale, margin, jitter_limit,
}
use onionguard.Captcha.Glyphs.{Glyph, captcha_glyph, captcha_glyph-IsGlyph}
use onionguard.Captcha.Layout.{letter_scale-least, margin-twice}
use onionguard.Captcha.Cells.{glyph_cells, cell_square, glyph_squares-whole, cells_end}

-- The squares of an answer whose first letter stands at `x`: for each letter in turn, those of all of
-- its cells, at some jitter of at most `limit` cells and some shear; the next letter stands six cells
-- further on. A byte without a glyph has no square.
pub data Letters (f : Frame) (limit y : ℕ) : ℕ → Bytes → List Square → Type 0 where
  no_more : {x : ℕ} → Letters f limit y x [] []
  no_glyph :
      {x c : ℕ} {cs : Bytes} {squares : List Square}
      → captcha_glyph c ≡ none
      → Letters f limit y x cs squares
      → Letters f limit y x (c ∷ cs) squares
  letter :
      {x c : ℕ} {cs : Bytes} {rest : List Square}
      → (glyph : Glyph) → captcha_glyph c ≡ some glyph
      → (jn sn : ℕ) → jn < limit * 2 + 1
      → sn < 3
      → Letters f limit y (x + (5 * f.scale + f.scale)) cs rest
      → Letters f limit y x (c ∷ cs) (
          map (cell_square f.scale x y (jn * f.scale) (limit * f.scale) sn) (glyph_cells 0 glyph)
          ++ rest)

-- The answer stands whole on the image.
pub data IsPainted (f : Frame) (limit y x : ℕ) (cs : Bytes) : Result (List Square) → Type 0 where
  painted :
      (squares : List Square)
      → Letters f limit y x cs squares
      → IsPainted f limit y x cs (ok squares)

-- `rand.Int` over a source of random bytes that does not fail.
unfoldable pub Draws : {S : Type 0} → (ℕ → S → Result ℕ × S) → Type 0
Draws {S = S} random_below =
    (n : ℕ) (s : S) → 0 < n → (i : ℕ) × (i < n) × ((random_below n s).0 ≡ ok i)

no_glyph-IsPainted :
    (f : Frame) (limit y x c : ℕ) (cs : Bytes) (r : Result (List Square))
    → captcha_glyph c ≡ none
    → IsPainted f limit y x cs r
    → IsPainted f limit y x (c ∷ cs) r
no_glyph-IsPainted f limit y x c cs (err _) e h = elim h [ ]
no_glyph-IsPainted f limit y x c cs (ok _) e (painted squares h) = painted squares (no_glyph e h)

-- What a letter adds to what is painted.
letter-IsPainted :
    (f : Frame) (limit y x c : ℕ) (cs : Bytes) (glyph : Glyph) (jn sn : ℕ) (xs : List Square)
    (r : Result (List Square))
    → captcha_glyph c ≡ some glyph
    → jn < limit * 2 + 1
    → sn < 3
    → xs ≡ map (cell_square f.scale x y (jn * f.scale) (limit * f.scale) sn) (glyph_cells 0 glyph)
    → IsPainted f limit y (x + (5 * f.scale + f.scale)) cs r
    → IsPainted f limit y x (c ∷ cs) (elim r [ err e ↦ err e | ok ys ↦ ok (xs ++ ys) ])
letter-IsPainted f limit y x c cs glyph jn sn xs (err _) e j k h r = elim r [ ]
letter-IsPainted f limit y x c cs glyph jn sn xs (ok _) e j k h (painted ys r) =
    subst (λ z. IsPainted f limit y x (c ∷ cs) (ok (z ++ ys))) (sym h)
      (painted _ (letter glyph e jn sn j k r))

jitter_limit-least : (jitter : ℤ) → 1 ≤ jitter_limit jitter
unfolding jitter_limit
jitter_limit-least (pos n) = ground arith
jitter_limit-least (negsuc n) = omega arith

least_product : (a b : ℕ) → 1 ≤ a → 1 ≤ b → 1 ≤ a * b
least_product zero b h k = omega arith
least_product (suc a) b h k = omega arith

module _ {S : Type 0} (random_below : ℕ → S → Result ℕ × S) (draws : Draws random_below) where
  -- A draw, which does not fail.
  after_draw :
      (P : Result (List Square) → Type 0) (n : ℕ) (s : S)
      → 0 < n
      → (failed : Err → Result (List Square) × S) (go : ℕ → Result (List Square) × S)
      → ((i : ℕ) → i < n → P (go i).0)
      → P
          (elim (random_below n s).0 as (λ _. Result (List Square) × S) [
            | err e ↦ failed e
            | ok i ↦ go i
          ]).0
  unfolding Draws
  after_draw P n s h failed go each =
      let (i, below, e) = draws n s h in
      subst
        (λ r. P (elim r as (λ _. Result (List Square) × S) [ err e ↦ failed e | ok i ↦ go i ]).0)
        (sym e) (each i below)

  answer_squares-whole :
      (f : Frame) (limit x y : ℕ) (cs : Bytes) (s : S)
      → 3 ≤ x
      → x + total_width (length cs) f.scale + 3 ≤ f.width + f.scale
      → limit * f.scale ≤ y
      → y + 7 * f.scale + limit * f.scale ≤ f.height
      → IsPainted f limit y x cs (answer_squares random_below f limit x y cs s).0
  unfolding answer_squares total_width
  answer_squares-whole f limit x y [] s l w t b = painted [] no_more
  answer_squares-whole f limit x y (c ∷ cs) s l w t b =
      option_either (λ (out : Result (List Square) × S). IsPainted f limit y x (c ∷ cs) out.0)
        (captcha_glyph c) _ _
        (λ e.
          no_glyph-IsPainted f limit y x c cs _ e
            (answer_squares-whole f limit x y cs s l (omega (arith, w)) t b))
        (λ g. λ e.
          after_draw (IsPainted f limit y x (c ∷ cs)) (limit * 2 + 1) s (omega arith) _ _ (λ jn.
            λ jitter. after_draw (IsPainted f limit y x (c ∷ cs)) 3 _ (omega arith) _ _ (λ sn.
              λ shear.
                (let glyph = captcha_glyph-IsGlyph c g e in
                  letter-IsPainted f limit y x c cs g jn sn _ _ e jitter shear
                    (glyph_squares-whole f x y (jn * f.scale) (limit * f.scale) sn 0 g shear l
                      (room_for_one (length cs) w) t (jitter_end jn jitter)
                      (omega (arith, glyph.rows)) glyph.columns)
                    (answer_squares-whole f limit (x + (5 * f.scale + f.scale)) y cs _
                      (omega (arith, l)) (room_for_rest (length cs) w) t b)))))
    where
      room_for_one :
          (n : ℕ)
          → x + suc n * (5 * f.scale + f.scale) + 3 ≤ f.width + f.scale
          → x + 5 * f.scale + 3 ≤ f.width
      room_for_one n h = omega arith

      room_for_rest :
          (n : ℕ)
          → x + suc n * (5 * f.scale + f.scale) + 3 ≤ f.width + f.scale
          → x + (5 * f.scale + f.scale) + n * (5 * f.scale + f.scale) + 3 ≤ f.width + f.scale
      room_for_rest n h = omega arith

      jitter_end :
          (jn : ℕ)
          → jn < limit * 2 + 1
          → y + 7 * f.scale + jn * f.scale ≤ f.height + limit * f.scale
      jitter_end jn h = omega (arith, b, cells_end jn (limit * 2 + 1) f.scale h)

  -- On an image of an allowed size whose left margin is at least 3 pixels wide and whose upper one
  -- is at least as high as the greatest jitter, and with a source of random numbers that does not
  -- fail, the squares that are painted are, whatever is drawn, those of all cells of all letters of
  -- the answer that have a glyph, each square in the place of its cell in its letter, and each
  -- letter six cells to the right of the one before it.
  pub render_letters-legible :
      (answer : Bytes) (width height : ℕ) (jitter : ℤ) (s : S)
      → 1 ≤ width
      → width ≤ 800
      → 1 ≤ height
      → height ≤ 400
      → 3 ≤ margin width (total_width (length answer) (letter_scale answer width height))
      → jitter_limit jitter * letter_scale answer width height
        ≤ margin height (7 * letter_scale answer width height)
      → let scale = letter_scale answer width height in
        IsPainted
          (record { width = width; height = height; scale = scale })
          (jitter_limit jitter)
          (margin height (7 * scale))
          (margin width (total_width (length answer) scale))
          answer
          (render_letters random_below answer (pos width) (pos height) jitter s).0
  unfolding render_letters
  render_letters-legible answer width height jitter s w w' h h' left top =
      let scale = letter_scale answer width height in
      let limit = jitter_limit jitter in
      let used = total_width (length answer) scale in
      let some_jitter =
        least_product limit scale (jitter_limit-least jitter)
          (letter_scale-least answer width height) in
      let f : Frame = record { width = width; height = height; scale = scale } in
      if_either
        (λ (out : Result (List Square) × S).
          IsPainted f limit (margin height (7 * scale)) (margin width used) answer out.0)
        (width == 0 || height == 0 || ltb 800 width || ltb 400 height) _ _ (λ e. ground (arith, e))
        (λ _.
          answer_squares-whole f limit (margin width used) (margin height (7 * scale)) answer s left
            (omega (arith, margin-twice width used (omega (arith, left)))) top
            (omega (arith, top, margin-twice height (7 * scale) (omega (arith, top, some_jitter)))))
