-- ===== src/Base/Strings.antt =====
-- What the code uses of Go's package strings, on bytes.
use Prim.Native.Nat.{ℕ, ◌+◌}
use mathlib.Core.Bool.{Bool, true, false, ◌&&◌, ◌||◌}
use mathlib.Core.List.{[], ◌∷◌, map, reverse}
use onionguard.Base.Tests.{leb, ltb, ◌==◌, if◌then◌else◌}
use onionguard.Base.Text.{Bytes}

-- `unicode.IsSpace`, for the characters of one, two and three bytes in UTF-8.
abbrev is_space : ℕ → Bool
is_space c = (leb 9 c && leb c 13) || c == 32

abbrev is_space_pair : ℕ → ℕ → Bool
is_space_pair a b = a == 194 && (b == 133 || b == 160)

abbrev is_general_space : ℕ → ℕ → Bool
is_general_space b c =
    (b == 128 && ((leb 128 c && leb c 138) || (c == 168 || (c == 169 || c == 175))))
    || (b == 129 && c == 159)

abbrev is_space_triple : ℕ → ℕ → ℕ → Bool
is_space_triple a b c =
    (a == 225 && (b == 154 && c == 128))
    || ((a == 226 && is_general_space b c) || (a == 227 && (b == 128 && c == 128)))

-- Drops the spaces in front, given what a space of two and of three bytes is.
unfoldable pub trim_front : (ℕ → ℕ → Bool) → (ℕ → ℕ → ℕ → Bool) → Bytes → Bytes
trim_front pair triple [] = []
trim_front pair triple (a ∷ []) = if is_space a then [] else a ∷ []
trim_front pair triple (a ∷ b ∷ []) =
    let one = trim_front pair triple (b ∷ []) in
    if is_space a then one else if pair a b then [] else a ∷ b ∷ []
trim_front pair triple (a ∷ b ∷ c ∷ s) =
    let one = trim_front pair triple (b ∷ c ∷ s) in
    let two = trim_front pair triple (c ∷ s) in
    let three = trim_front pair triple s in
    if is_space a
    then one
    else if pair a b
    then two
    else if triple a b c
    then three
    else a ∷ b ∷ c ∷ s

-- `strings.TrimSpace`: the end is the front of the reversed bytes.
unfoldable pub trim_space : Bytes → Bytes
unfolding trim_front
trim_space s = reverse (
    trim_front (λ b a. is_space_pair a b) (λ c b a. is_space_triple a b c)
      (reverse (trim_front is_space_pair is_space_triple s)))

unfoldable pub is_ascii : Bytes → Bool
is_ascii [] = true
is_ascii (c ∷ s) = ltb c 128 && is_ascii s

abbrev lower : ℕ → ℕ
lower c = if leb b'A' c && leb c b'Z' then c + 32 else c

-- `strings.ToLower`. Text that is not ASCII goes through the tables of package unicode: `unicode`.
unfoldable pub to_lower : (Bytes → Bytes) → Bytes → Bytes
unfolding is_ascii
to_lower unicode s = if is_ascii s then map lower s else unicode s

-- `strings.HasPrefix` and `strings.Contains`
unfoldable pub starts_with : Bytes → Bytes → Bool
starts_with [] s = true
starts_with (p ∷ ps) [] = false
starts_with (p ∷ ps) (c ∷ s) = p == c && starts_with ps s

unfoldable pub contains : Bytes → Bytes → Bool
unfolding starts_with
contains sub [] = starts_with sub []
contains sub (c ∷ s) = starts_with sub (c ∷ s) || contains sub s
