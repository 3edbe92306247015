-- ===== src/Go/Strings.antt =====
-- strings.HasPrefix, strings.Contains, and the order of strings, byte by byte.
use notch.Prelude.{Bool, true, false, ltb, ◌&&◌, ◌||◌, [], ◌∷◌, ◌==◌}
use notch.Go.Bytes.{Bytes}

unfoldable pub has_prefix : Bytes → Bytes → Bool
has_prefix s [] = true
has_prefix [] (c ∷ p) = false
has_prefix (d ∷ s) (c ∷ p) = d == c && has_prefix s p

unfoldable pub contains : Bytes → Bytes → Bool
unfolding has_prefix
contains [] p = has_prefix [] p
contains (c ∷ s) p = has_prefix (c ∷ s) p || contains s p

-- `<` of two strings.
unfoldable pub bytes_lt : Bytes → Bytes → Bool
bytes_lt s [] = false
bytes_lt [] (d ∷ t) = true
bytes_lt (c ∷ s) (d ∷ t) = ltb c d || (c == d && bytes_lt s t)
