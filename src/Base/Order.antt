-- ===== src/Base/Order.antt =====
-- SQLite's BINARY order of texts: by code points, a proper prefix first.
use mathlib.Core.Path.{◌≡◌, refl}
use mathlib.Core.Bool.{Bool, true, false}
use mathlib.Core.List.{[], ◌∷◌}
use native.Mathlib.Omega.{arith}
use greenline.Base.Tests.{ltb, nat_eq, if◌then◌else◌}
use greenline.Base.Texts.{Text, ◌==◌}

unfoldable pub before : Text → Text → Bool
before [] [] = false
before [] (y ∷ ys) = true
before (x ∷ xs) [] = false
before (x ∷ xs) (y ∷ ys) =
    let rest = before xs ys in if ltb x y then true else if nat_eq x y then rest else false

pub before_irrefl : (s : Text) → before s s ≡ false
unfolding before
before_irrefl [] = refl
before_irrefl (x ∷ xs) = ground (arith, before_irrefl xs)

pub before_trans : (r s t : Text) → before r s ≡ true → before s t ≡ true → before r t ≡ true
unfolding before
before_trans [] [] t p q = cc
before_trans [] (y ∷ ys) [] p q = cc
before_trans [] (y ∷ ys) (z ∷ zs) p q = refl
before_trans (x ∷ xs) [] t p q = cc
before_trans (x ∷ xs) (y ∷ ys) [] p q = cc
before_trans (x ∷ xs) (y ∷ ys) (z ∷ zs) p q = ground (arith, before_trans xs ys zs)

pub before_asym : (s t : Text) → before s t ≡ true → before t s ≡ false
unfolding before
before_asym [] [] p = refl
before_asym [] (y ∷ ys) p = refl
before_asym (x ∷ xs) [] p = cc
before_asym (x ∷ xs) (y ∷ ys) p = ground (arith, before_asym xs ys)

pub before_total : (s t : Text) → (s == t) ≡ false → before s t ≡ false → before t s ≡ true
unfolding before ◌==◌
before_total [] [] p q = cc
before_total [] (y ∷ ys) p q = cc
before_total (x ∷ xs) [] p q = refl
before_total (x ∷ xs) (y ∷ ys) p q = ground (arith, before_total xs ys)

pub ne_of_before : (s t : Text) → before s t ≡ true → (s == t) ≡ false
unfolding before ◌==◌
ne_of_before [] [] p = cc
ne_of_before [] (y ∷ ys) p = refl
ne_of_before (x ∷ xs) [] p = cc
ne_of_before (x ∷ xs) (y ∷ ys) p = ground (arith, ne_of_before xs ys)
