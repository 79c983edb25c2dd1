-- ===== src/Captcha.antt =====
-- captcha.go: where `renderCaptchaPNG` paints the letters of the answer. Colours, the sine wave, the
-- noise and the encoding are left out.
pub mod Glyphs
pub mod Layout
pub mod Cells
pub mod Legible
pub mod Line
pub mod Strokes
pub mod Drawn
pub mod Segments
use onionguard.Base.{
  ℕ, zero, suc, ◌+◌, ◌-◌, ◌*◌, ◌/◌, List, [], ◌∷◌, ◌++◌, Option, none, some, Bool, true, false,
  ◌&&◌, ◌||◌, not, ltb, leb, ◌==◌, ℤ, pos, negsuc, is_pos, sub_ℕ, ◌+ℤ◌, Bytes, length,
  if◌then◌else◌,
}
use onionguard.Errors.{Result, ok, err, fail, invalid_value}
use onionguard.Captcha.Glyphs.{Glyph, captcha_glyph}

-- The width of a number of letters, each five cells and one of space.
unfoldable pub total_width : ℕ → ℕ → ℕ
total_width letters scale = letters * (5 * scale + scale)

-- The loop that shrinks the cells until the letters fit.
unfoldable pub fit_scale : ℕ → ℕ → ℕ → ℕ
fit_scale letters width zero = zero
fit_scale letters width (suc zero) = suc zero
fit_scale letters width (suc (suc s)) =
    let smaller = fit_scale letters width (suc s) in
    if ltb width (total_width letters (suc (suc s))) then smaller else suc (suc s)

unfoldable pub first_scale : ℕ → ℕ
first_scale height = if ltb (height / 10) 2 then 2 else height / 10

-- `(size - used) / 2`, or 0 where that is negative.
unfoldable pub margin : ℕ → ℕ → ℕ
margin size used = (size - used) / 2

unfoldable pub jitter_limit : ℤ → ℕ
jitter_limit (pos n) = if n == 0 then 2 else n
jitter_limit (negsuc n) = 2

-- The square that a cell fills.
pub record Square : Type 0 where
  pub left : ℕ
  pub top : ℕ
  pub side : ℕ

pub record Frame : Type 0 where
  pub width : ℕ
  pub height : ℕ
  pub scale : ℕ

-- A cell that is not wholly on the image is left out.
unfoldable pub square_at : Frame → ℤ → ℤ → List Square
square_at f (pos px) (pos py) =
    if leb (px + f.scale) f.width && leb (py + f.scale) f.height
    then record { left = px; top = py; side = f.scale } ∷ []
    else []
square_at f (pos px) (negsuc py) = []
square_at f (negsuc px) py = []

-- A row of a glyph from the column `cx` on.
unfoldable pub row_squares : Frame → ℕ → ℤ → ℤ → ℕ → Bytes → List Square
row_squares f x shear_x py cx [] = []
row_squares f x shear_x py cx (p ∷ ps) =
    let rest = row_squares f x shear_x py (suc cx) ps in
    if p == 49 then square_at f (pos (x + cx * f.scale) +ℤ shear_x) py ++ rest else rest

-- `(ry - 3) * shear` for the shear that is drawn as one more
unfoldable pub shear_of : ℕ → ℕ → ℤ
shear_of ry sn = sub_ℕ (ry * sn + 3) (ry + 3 * sn)

-- A glyph from the row `ry` on.
unfoldable pub glyph_squares : Frame → ℕ → ℕ → ℤ → ℕ → ℕ → Glyph → List Square
glyph_squares f x y jitter sn ry [] = []
glyph_squares f x y jitter sn ry (row ∷ rows) =
    row_squares f x (shear_of ry sn) (pos (y + ry * f.scale) +ℤ jitter) 0 row
    ++ glyph_squares f x y jitter sn (suc ry) rows

unfoldable pub letter_scale : Bytes → ℕ → ℕ → ℕ
letter_scale answer width height = fit_scale (length answer) width (first_scale height)

module _ {S : Type 0} (random_below : ℕ → S → Result ℕ × S) where
  -- The loop over the letters. A byte without a glyph takes no room.
  unfoldable pub answer_squares : Frame → ℕ → ℕ → ℕ → Bytes → S → Result (List Square) × S
  answer_squares f limit x y [] s = (ok [], s)
  answer_squares f limit x y (c ∷ cs) s = elim (captcha_glyph c) [
    | none ↦ answer_squares f limit x y cs s
    | some glyph ↦
        let (r, s₁) = random_below (limit * 2 + 1) s in
        elim r [
          | err e ↦ (err e, s₁)
          | ok jn ↦
              let (r₂, s₂) = random_below 3 s₁ in
              elim r₂ [
                | err e ↦ (err e, s₂)
                | ok sn ↦
                    let (rest, s₃) = answer_squares f limit (x + (5 * f.scale + f.scale)) y cs s₂ in
                    (
                      elim rest [
                        | err e ↦ err e
                        | ok squares ↦ ok (
                            glyph_squares f x y (sub_ℕ (jn * f.scale) (limit * f.scale)) sn 0 glyph
                            ++ squares)
                      ],
                      s₃,
                    )
              ]
        ]
  ]

  unfoldable pub render_letters : Bytes → ℤ → ℤ → ℤ → S → Result (List Square) × S
  render_letters answer (pos width) (pos height) jitter s =
      let scale = letter_scale answer width height in
      if width == 0 || height == 0 || ltb 800 width || ltb 400 height
      then (fail invalid_value, s)
      else answer_squares (record { width = width; height = height; scale = scale })
          (jitter_limit jitter) (margin width (total_width (length answer) scale))
          (margin height (7 * scale)) answer s
  render_letters answer _ _ jitter s = (fail invalid_value, s)
