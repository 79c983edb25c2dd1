-- ===== src/Captcha/Glyphs.antt =====
-- captcha.go: `captchaGlyphs`, the letters as seven rows of five cells, under their ASCII codes.
use Prim.Native.String.{String}
use onionguard.Base.{
  ℕ, length, All, Bool, true, ◌&&◌, ◌≡◌, refl, arith, subst, Bool-cases, inl, inr, List, [], ◌∷◌,
  Option, none, some, Bytes, codes, ◌==◌, if◌then◌else◌,
}

abbrev pub Glyph : Type 0
Glyph = List Bytes

abbrev glyph_of : (r₀ r₁ r₂ r₃ r₄ r₅ r₆ : String) → Glyph
glyph_of r₀ r₁ r₂ r₃ r₄ r₅ r₆ =
    codes r₀ ∷ codes r₁ ∷ codes r₂ ∷ codes r₃ ∷ codes r₄ ∷ codes r₅ ∷ codes r₆ ∷ []

-- The letters I and O and the digits 0 and 1 are left out.
abbrev captcha_glyphs : List (ℕ × Glyph)
captcha_glyphs =
    (65, glyph_of "01110" "10001" "10001" "11111" "10001" "10001" "10001")
    ∷ (66, glyph_of "11110" "10001" "10001" "11110" "10001" "10001" "11110")
    ∷ (67, glyph_of "01111" "10000" "10000" "10000" "10000" "10000" "01111")
    ∷ (68, glyph_of "11110" "10001" "10001" "10001" "10001" "10001" "11110")
    ∷ (69, glyph_of "11111" "10000" "10000" "11110" "10000" "10000" "11111")
    ∷ (70, glyph_of "11111" "10000" "10000" "11110" "10000" "10000" "10000")
    ∷ (71, glyph_of "01111" "10000" "10000" "10111" "10001" "10001" "01111")
    ∷ (72, glyph_of "10001" "10001" "10001" "11111" "10001" "10001" "10001")
    ∷ (74, glyph_of "00111" "00010" "00010" "00010" "10010" "10010" "01100")
    ∷ (75, glyph_of "10001" "10010" "10100" "11000" "10100" "10010" "10001")
    ∷ (76, glyph_of "10000" "10000" "10000" "10000" "10000" "10000" "11111")
    ∷ (77, glyph_of "10001" "11011" "10101" "10101" "10001" "10001" "10001")
    ∷ (78, glyph_of "10001" "11001" "10101" "10011" "10001" "10001" "10001")
    ∷ (80, glyph_of "11110" "10001" "10001" "11110" "10000" "10000" "10000")
    ∷ (81, glyph_of "01110" "10001" "10001" "10001" "10101" "10010" "01101")
    ∷ (82, glyph_of "11110" "10001" "10001" "11110" "10100" "10010" "10001")
    ∷ (83, glyph_of "01111" "10000" "10000" "01110" "00001" "00001" "11110")
    ∷ (84, glyph_of "11111" "00100" "00100" "00100" "00100" "00100" "00100")
    ∷ (85, glyph_of "10001" "10001" "10001" "10001" "10001" "10001" "01110")
    ∷ (86, glyph_of "10001" "10001" "10001" "10001" "10001" "01010" "00100")
    ∷ (87, glyph_of "10001" "10001" "10001" "10101" "10101" "11011" "10001")
    ∷ (88, glyph_of "10001" "10001" "01010" "00100" "01010" "10001" "10001")
    ∷ (89, glyph_of "10001" "10001" "01010" "00100" "00100" "00100" "00100")
    ∷ (90, glyph_of "11111" "00001" "00010" "00100" "01000" "10000" "11111")
    ∷ (50, glyph_of "01110" "10001" "00001" "00010" "00100" "01000" "11111")
    ∷ (51, glyph_of "11110" "00001" "00001" "01110" "00001" "00001" "11110")
    ∷ (52, glyph_of "00010" "00110" "01010" "10010" "11111" "00010" "00010")
    ∷ (53, glyph_of "11111" "10000" "10000" "11110" "00001" "00001" "11110")
    ∷ (54, glyph_of "01110" "10000" "10000" "11110" "10001" "10001" "01110")
    ∷ (55, glyph_of "11111" "00001" "00010" "00100" "01000" "01000" "01000")
    ∷ (56, glyph_of "01110" "10001" "10001" "01110" "10001" "10001" "01110")
    ∷ (57, glyph_of "01110" "10001" "10001" "01111" "00001" "00001" "01110")
    ∷ []

abbrev glyph_in : ℕ → List (ℕ × Glyph) → Option Glyph
glyph_in c [] = none
glyph_in c ((d, g) ∷ gs) = if d == c then some g else glyph_in c gs

-- `captchaGlyphs[c]`
unfoldable pub captcha_glyph : ℕ → Option Glyph
captcha_glyph c = glyph_in c captcha_glyphs

-- seven rows of five
pub record IsGlyph (g : Glyph) : Type 0 where
  pub rows : length g ≡ 7
  pub columns : All (λ row. length row ≡ 5) g

abbrev are_five : Glyph → Bool
are_five [] = true
are_five (row ∷ rows) = length row == 5 && are_five rows

abbrev are_glyphs : List (ℕ × Glyph) → Bool
are_glyphs [] = true
are_glyphs ((c, g) ∷ gs) = (length g == 7 && are_five g) && are_glyphs gs

are_five-All : (g : Glyph) → are_five g ≡ true → All (λ row. length row ≡ 5) g
are_five-All [] h = tt
are_five-All (row ∷ rows) h = (ground (arith, h), are_five-All rows (ground (arith, h)))

glyph_in-IsGlyph :
    (c : ℕ) (gs : List (ℕ × Glyph)) (g : Glyph)
    → are_glyphs gs ≡ true
    → glyph_in c gs ≡ some g
    → IsGlyph g
glyph_in-IsGlyph c [] g h e = ground arith
glyph_in-IsGlyph c ((d, k) ∷ gs) g h e = elim (Bool-cases (d == c)) [
  | inl hit ↦
      subst IsGlyph (found hit)
        (record { rows = ground (arith, h); columns = are_five-All k (ground (arith, h)) })
  | inr miss ↦ glyph_in-IsGlyph c gs g (ground (arith, h)) (ground (arith, e, miss))
]
  where
    found : (d == c) ≡ true → k ≡ g
    found hit = ground (arith, e, hit)

pub captcha_glyph-IsGlyph : (c : ℕ) (g : Glyph) → captcha_glyph c ≡ some g → IsGlyph g
unfolding captcha_glyph
captcha_glyph-IsGlyph c g e = glyph_in-IsGlyph c captcha_glyphs g refl e
