-- ===== src/Tests/Pictures.antt =====
-- The image of a challenge.
use onionguard.Captcha.Line.{draw_line}
use onionguard.Captcha.Drawn.{IsLine}
use onionguard.Captcha.Segments.{draw_line-IsLine}
use onionguard.Base.{◌*◌, ◌≡◌, List, ℤ, some, ℕ, refl, pos, codes, arith}
use onionguard.Errors.{Result, ok}
use onionguard.Captcha.{
  fit_scale, first_scale, letter_scale, total_width, margin, jitter_limit, render_letters,
}
use onionguard.Captcha.Legible.{Draws, IsPainted, render_letters-legible}

abbrev always_zero : ℕ → Unit {0} → Result ℕ × Unit {0}
always_zero n s = (ok 0, s)

always_zero-Draws : Draws always_zero
unfolding Draws
always_zero-Draws n s h = (0, h, refl)

-- The sizes of DefaultConfig.
render_letters-legible_example :
    let scale = letter_scale (codes "AB2YZ") 160 60 in
    IsPainted
      (record { width = 160; height = 60; scale = scale })
      2
      (margin 60 (7 * scale))
      (margin 160 (total_width 5 scale))
      (codes "AB2YZ")
      (render_letters always_zero (codes "AB2YZ") (pos 160) (pos 60) (pos 2) tt).0
unfolding margin total_width letter_scale fit_scale first_scale jitter_limit
render_letters-legible_example =
    render_letters-legible always_zero always_zero-Draws (codes "AB2YZ") 160 60 (pos 2) tt
      (omega arith) (omega arith) (omega arith) (omega arith) (omega arith) (omega arith)

draw_line-IsLine_example :
    (points : List (ℤ × ℤ)) × (draw_line 8 (pos 5) (pos 1) (pos 0) (pos 3) ≡ some points)
    × IsLine 8 5 1 0 3 (pos 5, pos 1) points
draw_line-IsLine_example = draw_line-IsLine 5 1 0 3 8 (omega arith)
