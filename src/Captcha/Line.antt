-- ===== src/Captcha/Line.antt =====
-- captcha.go: `drawLine`. Its caller gives it points of the image, so that no sum leaves the range of int.
use onionguard.Base.{
  ℕ, zero, suc, ◌+◌, ◌==◌, Bool, ◌&&◌, Option, none, some, List, [], ◌∷◌, ℤ, pos, negsuc, pos_part,
  neg_part, ltb_ℤ, leb_ℤ, ◌+ℤ◌, ◌-ℤ◌, if◌then◌else◌,
}

abbrev pub same_int : ℤ → ℤ → Bool
same_int a b = pos_part a + neg_part b == pos_part b + neg_part a

abbrev pub magnitude : ℤ → ℤ
magnitude d = if ltb_ℤ d (pos 0) then pos 0 -ℤ d else d

-- `sx` and `sy`
abbrev pub direction : ℤ → ℤ → ℤ
direction from to = if leb_ℤ to from then negsuc 0 else pos 1

-- The variables of the loop.
pub record Pen : Type 0 where
  pub x : ℤ
  pub y : ℤ
  pub error : ℤ

-- A round of the loop behind its test.
unfoldable pub draw_step : ℤ → ℤ → ℤ → ℤ → Pen → Pen
draw_step dx dy sx sy p =
    let e2 = p.error +ℤ p.error in
    let q =
      if ltb_ℤ (pos 0 -ℤ dy) e2 then record p { error = p.error -ℤ dy; x = p.x +ℤ sx } else p in
    if ltb_ℤ e2 dx then record q { error = q.error +ℤ dx; y = q.y +ℤ sy } else q

-- The loop with fuel: the points that are set.
unfoldable pub draw_loop : ℕ → ℤ → ℤ → ℤ → ℤ → ℤ → ℤ → Pen → Option (List (ℤ × ℤ))
draw_loop zero dx dy sx sy x1 y1 p = none
draw_loop (suc fuel) dx dy sx sy x1 y1 p =
    let rest = draw_loop fuel dx dy sx sy x1 y1 (draw_step dx dy sx sy p) in
    if same_int p.x x1 && same_int p.y y1
    then some ((p.x, p.y) ∷ [])
    else (elim rest [ none ↦ none | some points ↦ some ((p.x, p.y) ∷ points) ])

unfoldable pub draw_line : ℕ → ℤ → ℤ → ℤ → ℤ → Option (List (ℤ × ℤ))
draw_line fuel x0 y0 x1 y1 =
    let dx = magnitude (x1 -ℤ x0) in
    let dy = magnitude (y1 -ℤ y0) in
    draw_loop fuel dx dy (direction x0 x1) (direction y0 y1) x1 y1
      (record { x = x0; y = y0; error = dx -ℤ dy })
