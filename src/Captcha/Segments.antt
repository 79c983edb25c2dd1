-- ===== src/Captcha/Segments.antt =====
-- captcha.go: the whole line that `drawLine` draws.
use onionguard.Base.{
  ℕ, ◌+◌, ◌-◌, ◌*◌, ◌≤◌, ◌<◌, ltb, ◌≡◌, sym, ◌∙◌, subst, Bool, true, false, some, List, ℤ, pos,
  sub_ℕ, ◌-ℤ◌, arith,
}
use onionguard.Captcha.Line.{draw_loop, draw_line, magnitude, direction}
use onionguard.Captcha.Strokes.{moved, way}
use onionguard.Captcha.Drawn.{IsLine, draw_loop-IsLine}

abbrev pub distance : ℕ → ℕ → ℕ
distance a b = (b - a) + (a - b)

magnitude-distance : (a b : ℕ) → magnitude (pos b -ℤ pos a) ≡ pos (distance a b)
magnitude-distance a b = ground arith

direction-way : (a b : ℕ) → direction (pos a) (pos b) ≡ way (ltb a b)
direction-way a b = ground arith

error-start : (a b : ℕ) → (pos a -ℤ pos b) ≡ sub_ℕ (1 * a) (1 * b)
error-start a b = ground arith

moved_none : (up : Bool) (a : ℕ) → pos a ≡ moved up a 0
moved_none true a = ground arith
moved_none false a = ground arith

moved_whole : (a b : ℕ) → moved (ltb a b) a (distance a b) ≡ pos b
moved_whole a b = ground arith

low_way : (a b : ℕ) → ltb a b ≡ false → distance a b ≤ a
low_way a b h = ground arith

error_of :
    (x0 y0 x1 y1 : ℕ)
    → (magnitude (pos x1 -ℤ pos x0) -ℤ magnitude (pos y1 -ℤ pos y0))
      ≡ sub_ℕ (1 * distance x0 x1) (1 * distance y0 y1)
error_of x0 y0 x1 y1 =
    (λ t. magnitude-distance x0 x1 t -ℤ magnitude-distance y0 y1 t)
    ∙ error-start (distance x0 x1) (distance y0 y1)

draw_line-start :
    (x0 y0 x1 y1 fuel : ℕ)
    → draw_line fuel (pos x0) (pos y0) (pos x1) (pos y1)
      ≡ draw_loop fuel
          (pos (distance x0 x1))
          (pos (distance y0 y1))
          (way (ltb x0 x1))
          (way (ltb y0 y1))
          (moved (ltb x0 x1) x0 (distance x0 x1))
          (moved (ltb y0 y1) y0 (distance y0 y1))
          (record {
            x = moved (ltb x0 x1) x0 0;
            y = moved (ltb y0 y1) y0 0;
            error = sub_ℕ (1 * distance x0 x1) (1 * distance y0 y1);
          })
unfolding draw_line
draw_line-start x0 y0 x1 y1 fuel = λ t.
    draw_loop fuel (magnitude-distance x0 x1 t) (magnitude-distance y0 y1 t) (direction-way x0 x1 t)
      (direction-way y0 y1 t) (sym (moved_whole x0 x1) t) (sym (moved_whole y0 y1) t)
      (record {
        x = moved_none (ltb x0 x1) x0 t;
        y = moved_none (ltb y0 y1) y0 t;
        error = error_of x0 y0 x1 y1 t;
      })

-- Between any two points with coordinates that are not negative, the loop of drawLine ends, within
-- one round more than the two distances between the coordinates together. It sets at most one point
-- for each round, the first the one given first, the last the one given second, and all of them
-- between the two in both coordinates.
pub draw_line-IsLine :
    (x0 y0 x1 y1 fuel : ℕ)
    → distance x0 x1 + distance y0 y1 < fuel
    → (points : List (ℤ × ℤ)) × (draw_line fuel (pos x0) (pos y0) (pos x1) (pos y1) ≡ some points)
      × IsLine (distance x0 x1 + distance y0 y1 + 1) x0 y0 x1 y1 (pos x0, pos y0) points
draw_line-IsLine x0 y0 x1 y1 fuel h =
    let m = distance x0 x1 in
    let n = distance y0 y1 in
    let (points, e, drawn) =
      draw_loop-IsLine (ltb x0 x1) (ltb y0 y1) x0 y0 m n (low_way x0 x1) (low_way y0 y1) x1 y1
        (moved_whole x0 x1) (moved_whole y0 y1) fuel 0 0 (omega arith) (omega arith)
        (omega arith) in
    let all_left : m + n + 1 - (0 + 0) ≡ m + n + 1 = omega arith in
    (
      points,
      draw_line-start x0 y0 x1 y1 fuel ∙ e,
      subst (λ (q : ℕ × (ℤ × ℤ)). IsLine q.0 x0 y0 x1 y1 q.1 points)
          (λ t.
            (all_left t, (sym (moved_none (ltb x0 x1) x0) t, sym (moved_none (ltb y0 y1) y0) t)))
          drawn,
    )
