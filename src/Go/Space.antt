-- ===== src/Go/Space.antt =====
-- strings.TrimSpace and bytes.TrimSpace on UTF-8 bytes: the runes of unicode.IsSpace go at both
-- ends. A space rune is ASCII, or one of the sequences 0xC2 0x85, 0xC2 0xA0, 0xE1 0x9A 0x80,
-- 0xE2 0x80 with 0x80 to 0x8A, 0xA8, 0xA9 or 0xAF, 0xE2 0x81 0x9F, and 0xE3 0x80 0x80.
pub mod Braces
use mathlib.Core.List.{reverse}
use notch.Prelude.{ℕ, ◌≡◌, refl, Bool, ◌&&◌, ◌||◌, [], ◌∷◌, leb, ◌==◌, if◌then◌else◌}
use notch.Go.Bytes.{Bytes, codes}

unfoldable pub is_ascii_space : ℕ → Bool
is_ascii_space c = c == 0x20 || (leb 9 c && leb c 13)

unfoldable pub is_space2 : ℕ → ℕ → Bool
is_space2 a b = a == 0xC2 && (b == 0x85 || b == 0xA0)

unfoldable pub is_space3 : ℕ → ℕ → ℕ → Bool
is_space3 a b c =
    (a == 0xE1 && b == 0x9A && c == 0x80)
    || (a == 0xE2
        && b == 0x80
        && ((leb 0x80 c && leb c 0x8A) || c == 0xA8 || c == 0xA9 || c == 0xAF))
    || (a == 0xE2 && b == 0x81 && c == 0x9F)
    || (a == 0xE3 && b == 0x80 && c == 0x80)

-- The text behind the leading spaces; `ok` tells whether a sequence reads as a space rune.
unfoldable pub trim_with : (ℕ → ℕ → Bool) → (ℕ → ℕ → ℕ → Bool) → Bytes → Bytes
unfolding is_ascii_space
trim_with two three [] = []
trim_with two three (a ∷ []) = if is_ascii_space a then [] else a ∷ []
trim_with two three (a ∷ b ∷ []) =
    let rest = trim_with two three (b ∷ []) in
    if is_ascii_space a then rest else if two a b then [] else a ∷ b ∷ []
trim_with two three (a ∷ b ∷ c ∷ s) =
    let one = trim_with two three (b ∷ c ∷ s) in
    let double = trim_with two three (c ∷ s) in
    let triple = trim_with two three s in
    if is_ascii_space a
    then one
    else if two a b
    then double
    else if three a b c
    then triple
    else a ∷ b ∷ c ∷ s

unfoldable pub trim_left : Bytes → Bytes
unfolding trim_with is_space2 is_space3
trim_left = trim_with is_space2 is_space3

-- Read from the end, a sequence comes with its bytes reversed.
unfoldable pub trim_right : Bytes → Bytes
unfolding trim_with is_space2 is_space3
trim_right s = reverse (trim_with (λ b a. is_space2 a b) (λ c b a. is_space3 a b c) (reverse s))

unfoldable pub trim_space : Bytes → Bytes
unfolding trim_left trim_right
trim_space s = trim_right (trim_left s)

trims : trim_space (codes " \n ab c\t ") ≡ codes "ab c"
unfolding trim_space
trims = refl

trims_wide : trim_space (0xC2 ∷ 0xA0 ∷ 0x61 ∷ 0xE2 ∷ 0x80 ∷ 0xA8 ∷ []) ≡ 0x61 ∷ []
unfolding trim_space
trims_wide = refl
