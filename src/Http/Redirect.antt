-- ===== src/Http/Redirect.antt =====
-- middleware/http.go: `sanitizeRedirectTarget`.
use onionguard.Base.{
  ℕ, if_either, ◌≡◌, ◌≢◌, ◌≤◌, refl, Bool, false, ◌||◌, not, [], ◌∷◌, ltb, ◌==◌, Bytes, codes, same,
  All, arith, if◌then◌else◌,
}
use onionguard.Base.Strings.{trim_space, starts_with, contains}

-- `raw[i] < 32 || raw[i] == 127`, for some byte.
unfoldable pub has_control : Bytes → Bool
has_control [] = false
has_control (c ∷ s) = (ltb c 32 || c == 127) || has_control s

abbrev pub root : Bytes
root = codes "/"

unfoldable pub sanitize_redirect_target : Bytes → Bytes
unfolding starts_with contains has_control
sanitize_redirect_target given =
    let raw = trim_space given in
    if same raw []
    then root
    else if not (starts_with root raw) || starts_with (codes "//") raw
    then root
    else if contains (codes "\\") raw
    then root
    else if has_control raw
    then root
    else raw

-- A byte that neither a browser takes for a slash nor ends a header line.
abbrev pub IsPlain : ℕ → Type 0
IsPlain c = (c ≢ b'\\') × (32 ≤ c) × (c ≢ 127)

-- A path from the root of this host: a slash, then no second slash, and plain bytes.
abbrev pub IsLocal : Bytes → Type 0
IsLocal [] = ⊥
IsLocal (a ∷ []) = a ≡ b'/'
IsLocal (a ∷ b ∷ s) = (a ≡ b'/') × (b ≢ b'/') × All IsPlain (b ∷ s)

All-IsPlain : (s : Bytes) → contains (codes "\\") s ≡ false → has_control s ≡ false → All IsPlain s
unfolding contains starts_with has_control
All-IsPlain [] h k = tt
All-IsPlain (c ∷ s) h k = ground (arith, h, k, All-IsPlain s)

raw-IsLocal :
    (raw : Bytes)
    → same raw [] ≡ false
    → not (starts_with root raw) || starts_with (codes "//") raw ≡ false
    → contains (codes "\\") raw ≡ false
    → has_control raw ≡ false
    → IsLocal raw
unfolding starts_with same
raw-IsLocal [] a b c d = absurd (ground (arith, a))
raw-IsLocal (x ∷ []) a b c d = ground (arith, b)
raw-IsLocal (x ∷ y ∷ s) a b c d =
    (ground (arith, b), ground (arith, b), (All-IsPlain (x ∷ y ∷ s) c d).1)

pub sanitize_redirect_target-IsLocal : (given : Bytes) → IsLocal (sanitize_redirect_target given)
unfolding sanitize_redirect_target
sanitize_redirect_target-IsLocal given =
    let raw = trim_space given in
    if_either IsLocal (same raw []) _ _ (λ _. refl)
      (λ a.
        if_either IsLocal (not (starts_with root raw) || starts_with (codes "//") raw) _ _
          (λ _. refl)
          (λ b.
            if_either IsLocal (contains (codes "\\") raw) _ _ (λ _. refl)
              (λ c.
                if_either IsLocal (has_control raw) _ _ (λ _. refl)
                  (λ d. raw-IsLocal raw a b c d))))
