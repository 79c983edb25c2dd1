-- ===== src/Captcha/Cells.antt =====
-- captcha.go: the cells that `renderCaptchaPNG` paints.
use onionguard.Base.{
  ℕ, zero, suc, ◌+◌, ◌-◌, ◌*◌, ◌≤◌, ◌<◌, ◌≡◌, refl, ap, ◌∙◌, map, inl, inr, Bool-cases, List, [],
  ◌∷◌, ◌++◌, Bytes, All, length, arith, if◌then◌else◌, ◌==◌, pos, sub_ℕ, ◌+ℤ◌, subst, sym,
}
use onionguard.Captcha.{Frame, Square, square_at, row_squares, shear_of, glyph_squares}
use onionguard.Captcha.Glyphs.{Glyph}

-- The columns of a row that are to be painted, from a first column on, and the cells of a glyph, from
-- a first row on, as columns and rows.
unfoldable pub row_cells : ℕ → Bytes → List ℕ
row_cells cx [] = []
row_cells cx (p ∷ ps) = let rest = row_cells (suc cx) ps in if p == 49 then cx ∷ rest else rest

unfoldable pub glyph_cells : ℕ → Glyph → List (ℕ × ℕ)
glyph_cells ry [] = []
glyph_cells ry (row ∷ rows) = map (λ cx. (cx, ry)) (row_cells 0 row) ++ glyph_cells (suc ry) rows

-- The place of a cell of a letter that stands at `x` and `y`, moved down by `u` and up by `v`, and
-- sheared by `sn - 1` pixels for each row below the fourth.
abbrev pub cell_square : ℕ → ℕ → ℕ → ℕ → ℕ → ℕ → ℕ × ℕ → Square
cell_square scale x y u v sn (cx, ry) = record {
  left = x + cx * scale + (ry * sn + 3) - (ry + 3 * sn);
  top = y + ry * scale + u - v;
  side = scale;
}

map-cells :
    (place : ℕ × ℕ → Square) (ry : ℕ) (cells : List ℕ) (rest : List (ℕ × ℕ))
    → map place (map (λ cx. (cx, ry)) cells ++ rest)
      ≡ map (λ c. place (c, ry)) cells ++ map place rest
map-cells place ry [] rest = refl
map-cells place ry (c ∷ cells) rest = ap (λ z. place (c, ry) ∷ z) (map-cells place ry cells rest)

shift : (n a b : ℕ) → b ≤ n + a → (pos n +ℤ sub_ℕ a b) ≡ pos (n + a - b)
shift n a b h = ground arith

square_at-whole :
    (f : Frame) (px py : ℕ)
    → px + f.scale ≤ f.width
    → py + f.scale ≤ f.height
    → square_at f (pos px) (pos py) ≡ record { left = px; top = py; side = f.scale } ∷ []
unfolding square_at
square_at-whole f px py h v = ground arith

-- The cells before the `n`-th end take `n` sizes of room.
pub cells_end : (i n s : ℕ) → i < n → i * s + s ≤ n * s
cells_end zero zero s h = omega arith
cells_end zero (suc n) s h = omega arith
cells_end (suc i) zero s h = omega arith
cells_end (suc i) (suc n) s h = omega (arith, cells_end i n s (omega arith))

row_squares-whole :
    (f : Frame) (x a b q cx : ℕ) (ps : Bytes)
    → a ≤ b + 3
    → b ≤ a + 3
    → 3 ≤ x
    → x + 5 * f.scale + 3 ≤ f.width
    → q + f.scale ≤ f.height
    → cx + length ps ≤ 5
    → row_squares f x (sub_ℕ a b) (pos q) cx ps
      ≡ map
          (λ c. record { left = x + c * f.scale + a - b; top = q; side = f.scale })
          (row_cells cx ps)
unfolding row_squares row_cells
row_squares-whole f x a b q cx [] near near' l w h c = refl
row_squares-whole f x a b q cx (p ∷ ps) near near' l w h c =
    let rest = row_squares-whole f x a b q (suc cx) ps near near' l w h (omega arith) in
    let here : square_at f (pos (x + cx * f.scale) +ℤ sub_ℕ a b) (pos q)
        ≡ record { left = x + cx * f.scale + a - b; top = q; side = f.scale } ∷ [] =
      subst
        (λ z.
          square_at f z (pos q)
          ≡ record { left = x + cx * f.scale + a - b; top = q; side = f.scale } ∷ [])
        (sym (shift (x + cx * f.scale) a b (omega arith)))
        (square_at-whole f (x + cx * f.scale + a - b) q
          (omega (arith, cells_end cx 5 f.scale (omega arith))) h) in
    elim (Bool-cases (p == 49)) [
      | inl e ↦
          rw (e, here)
            (ap (λ r. record { left = x + cx * f.scale + a - b; top = q; side = f.scale } ∷ r) rest)
      | inr e ↦ rw e rest
    ]

shear-near :
    (ry sn : ℕ)
    → ry < 7
    → sn < 3
    → (ry * sn + 3 ≤ ry + 3 * sn + 3) × (ry + 3 * sn ≤ ry * sn + 3 + 3)
shear-near ry zero r h = (omega arith, omega arith)
shear-near ry (suc zero) r h = (omega arith, omega arith)
shear-near ry (suc (suc zero)) r h = (omega arith, omega arith)
shear-near ry (suc (suc (suc sn))) r h = omega arith

-- The jitter `u - v` keeps the rows on the image.
pub glyph_squares-whole :
    (f : Frame) (x y u v sn ry : ℕ) (rows : Glyph)
    → sn < 3
    → 3 ≤ x
    → x + 5 * f.scale + 3 ≤ f.width
    → v ≤ y
    → y + 7 * f.scale + u ≤ f.height + v
    → ry + length rows ≤ 7
    → All (λ row. length row ≡ 5) rows
    → glyph_squares f x y (sub_ℕ u v) sn ry rows
      ≡ map (cell_square f.scale x y u v sn) (glyph_cells ry rows)
unfolding glyph_squares glyph_cells shear_of
glyph_squares-whole f x y u v sn ry [] d l w top bottom c five = refl
glyph_squares-whole f x y u v sn ry (row ∷ rows) d l w top bottom c (five, fives) =
    let (near, near_) = shear-near ry sn (omega arith) d in
    let q = y + ry * f.scale + u - v in
    let line =
      subst
        (λ z.
          row_squares f x (shear_of ry sn) z 0 row
          ≡ map
              (λ c. (record {
                left = x + c * f.scale + (ry * sn + 3) - (ry + 3 * sn);
                top = q;
                side = f.scale;
              }))
              (row_cells 0 row))
        (sym (shift (y + ry * f.scale) u v (omega arith)))
        (row_squares-whole f x (ry * sn + 3) (ry + 3 * sn) q 0 row near near_ l w
          (omega (arith, cells_end ry 7 f.scale (omega arith))) (omega (arith, five))) in
    let rest =
      glyph_squares-whole f x y u v sn (suc ry) rows d l w top bottom (omega arith) fives in
    let place = cell_square f.scale x y u v sn in
    let cells = row_cells 0 row in
    ap (λ z. z ++ glyph_squares f x y (sub_ℕ u v) sn (suc ry) rows) line
    ∙ (ap (λ z. map (λ c. place (c, ry)) cells ++ z) rest
        ∙ sym (map-cells place ry cells (glyph_cells (suc ry) rows)))
