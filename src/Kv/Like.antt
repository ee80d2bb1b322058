-- ===== src/Kv/Like.antt =====
-- SQLite's `key LIKE ? || '%'`, by which `get_partial`, `get_partial_page` and `delete_partial` of
-- src/ut_components/kv.py find the keys of a prefix. `%` stands for any text, `_` for any one
-- character, and ASCII letters match in either case.
use mathlib.Core.List.{map}
use greenline.Base.{
  ℕ, ◌+◌, ◌≡◌, refl, Bool, true, false, ◌||◌, [], ◌∷◌, ◌++◌, arith, Text, leb, nat_eq,
  if◌then◌else◌, starts_with, Bool-cases, inl, inr,
}

-- ASCII case folding
unfoldable pub fold_case : ℕ → ℕ
fold_case c = if leb 65 c then (if leb c 90 then c + 32 else c) else c

unfoldable pub like : Text → Text → Bool
unfolding fold_case
like [] [] = true
like [] (x ∷ s) = false
like (c ∷ p) [] = let rest = like p [] in if nat_eq c 37 then rest else false
like (c ∷ p) (x ∷ s) =
    let skip = like p (x ∷ s) in
    let more = like (c ∷ p) s in
    let rest = like p s in
    if nat_eq c 37
    then skip || more
    else if nat_eq c 95
    then rest
    else if nat_eq (fold_case c) (fold_case x)
    then rest
    else false

-- `? || '%'`
unfoldable pub like_prefix : Text → Text → Bool
unfolding like
like_prefix beginning key = like (beginning ++ (37 ∷ [])) key

-- A pattern without `%` and `_`.
abbrev pub no_wildcard : Text → Bool
no_wildcard [] = true
no_wildcard (c ∷ p) = if nat_eq c 37 then false else if nat_eq c 95 then false else no_wildcard p

like-percent : (s : Text) → like (37 ∷ []) s ≡ true
unfolding like
like-percent [] = refl
like-percent (x ∷ s) = ground (arith, like-percent s)

or_true : (a b : Bool) → b ≡ true → (a || b) ≡ true
or_true true b h = refl
or_true false b h = h

-- `%` may stand for nothing, and for one character more.
like-percent_skip :
    (c : ℕ) (p s : Text) → nat_eq c 37 ≡ true → like p s ≡ true → like (c ∷ p) s ≡ true
unfolding like
like-percent_skip c p [] e h = ground arith
like-percent_skip c p (x ∷ s) e h = ground arith

like-percent_more :
    (c : ℕ) (p : Text) (x : ℕ) (s : Text)
    → nat_eq c 37 ≡ true
    → like (c ∷ p) s ≡ true
    → like (c ∷ p) (x ∷ s) ≡ true
unfolding like
like-percent_more c p x s e h = rw e (or_true (like p (x ∷ s)) (like (c ∷ p) s) h)

-- A key that starts with the text is always found.
pub like_prefix-append : (p s : Text) → like_prefix p (p ++ s) ≡ true
unfolding like_prefix
like_prefix-append [] s = like-percent s
like_prefix-append (c ∷ p) s = elim (Bool-cases (nat_eq c 37)) [
  | inl e ↦
      like-percent_more c (p ++ (37 ∷ [])) c (p ++ s) e
        (like-percent_skip c (p ++ (37 ∷ [])) (p ++ s) e (like_prefix-append p s))
  | inr n ↦ ground (arith, like_prefix-append p s)
]

-- Where the text has no wildcard, a key is found exactly when it starts with the text, up to case.
pub like_prefix-eq-starts_with :
    (p k : Text)
    → no_wildcard p ≡ true
    → like_prefix p k ≡ starts_with (map fold_case k) (map fold_case p)
unfolding like_prefix starts_with
like_prefix-eq-starts_with [] [] h = refl
like_prefix-eq-starts_with [] (x ∷ k) h = like-percent (x ∷ k)
like_prefix-eq-starts_with (c ∷ p) [] h = ground arith
like_prefix-eq-starts_with (c ∷ p) (x ∷ k) h = ground (arith, like_prefix-eq-starts_with p k)

-- The first character that is no wildcard decides, case aside.
pub like_prefix-first :
    (c x : ℕ) (p k : Text)
    → nat_eq c 37 ≡ false
    → nat_eq c 95 ≡ false
    → like_prefix (c ∷ p) (x ∷ k) ≡ true
    → nat_eq (fold_case c) (fold_case x) ≡ true
unfolding like_prefix like
like_prefix-first c x p k h i t = ground arith

pub like_prefix-other_first :
    (c x : ℕ) (p k : Text)
    → nat_eq c 37 ≡ false
    → nat_eq c 95 ≡ false
    → nat_eq (fold_case c) (fold_case x) ≡ false
    → like_prefix (c ∷ p) (x ∷ k) ≡ false
unfolding like_prefix like
like_prefix-other_first c x p k h i t = rw (h, i, t) refl
