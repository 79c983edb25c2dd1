-- ===== src/Captcha/Layout.antt =====
-- captcha.go: the size that `renderCaptchaPNG` gives the letters.
use onionguard.Base.{
  ℕ, zero, suc, ◌+◌, ◌*◌, ◌≤◌, ◌<◌, ◌≡◌, ◌⊎◌, inl, inr, refl, sym, subst, ltb, arith, if_either,
  Bytes, length,
}
use onionguard.Captcha.{total_width, fit_scale, first_scale, letter_scale, margin}

-- The largest size up to a first one at which the letters fit, or else 1.
pub record IsBestScale (letters width start scale : ℕ) : Type 0 where
  pub least : 1 ≤ scale
  pub most : scale ≤ start
  pub fits : (scale ≡ 1) ⊎ (total_width letters scale ≤ width)
  pub best : (t : ℕ) → scale < t → t ≤ start → width < total_width letters t

from_smaller :
    (letters width s scale : ℕ)
    → width < total_width letters (suc s)
    → IsBestScale letters width s scale
    → IsBestScale letters width (suc s) scale
from_smaller letters width s scale over b = record {
  least = b.least;
  most = omega (arith, b.most);
  fits = b.fits;
  best = λ t. λ more. λ up. (elim (last_or_less t s up) [
    | inl e ↦ subst (λ u. width < total_width letters u) (sym e) over
    | inr up' ↦ b.best t more up'
  ]);
}
  where
    last_or_less : (t s : ℕ) → t ≤ suc s → (t ≡ suc s) ⊎ (t ≤ s)
    last_or_less t s h = omega arith

-- From a first scale of at least 1, the loop that shrinks the letters ends with the largest scale
-- up to that at which they are no wider than the image, or with 1 if there is none.
pub fit_scale-IsBestScale :
    (letters width start : ℕ)
    → 1 ≤ start
    → IsBestScale letters width start (fit_scale letters width start)
unfolding fit_scale
fit_scale-IsBestScale letters width zero h = omega arith
fit_scale-IsBestScale letters width (suc zero) h = record {
  least = omega arith;
  most = omega arith;
  fits = inl refl;
  best = λ t. λ a. λ b. omega arith;
}
fit_scale-IsBestScale letters width (suc (suc s)) h =
    if_either (IsBestScale letters width (suc (suc s)))
      (ltb width (total_width letters (suc (suc s)))) _ _
      (λ over.
        from_smaller letters width (suc s) (fit_scale letters width (suc s)) (ground (arith, over))
          (fit_scale-IsBestScale letters width (suc s) (omega arith)))
      (λ fits. record {
        least = omega arith;
        most = omega arith;
        fits = inr (ground (arith, fits));
        best = λ t. λ a. λ b. omega arith;
      })

pub letter_scale-least : (answer : Bytes) (width height : ℕ) → 1 ≤ letter_scale answer width height
unfolding letter_scale first_scale
letter_scale-least answer width height =
    (fit_scale-IsBestScale (length answer) width (first_scale height) (ground arith)).least

-- A margin that is not empty is there twice.
pub margin-twice : (size used : ℕ) → 1 ≤ margin size used → 2 * margin size used + used ≤ size
unfolding margin
margin-twice size used h = omega arith
