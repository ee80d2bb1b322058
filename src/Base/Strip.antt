-- ===== src/Base/Strip.antt =====
-- `str.strip`, for a class of white space.
use greenline.Base.Texts.{Text}
use greenline.Base.Tests.{if◌then◌else◌}
use mathlib.Core.Bool.{Bool}
use mathlib.Core.List.{[], ◌∷◌, reverse}
use Prim.Native.Nat.{ℕ}

unfoldable pub strip_left : (ℕ → Bool) → Text → Text
strip_left is_space [] = []
strip_left is_space (c ∷ s) = let rest = strip_left is_space s in if is_space c then rest else c ∷ s

unfoldable pub strip : (ℕ → Bool) → Text → Text
unfolding strip_left
strip is_space s = reverse (strip_left is_space (reverse (strip_left is_space s)))
