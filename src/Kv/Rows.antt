-- ===== src/Kv/Rows.antt =====
-- Facts about lists of rows, for src/ut_components/kv.py: the last row of a page, short pages, and
-- the rows past a cursor.
use mathlib.Core.List.{append-nil, reverse-append}
use mathlib.Core.Option
use greenline.Base.{
  if◌then◌else◌, ℕ, zero, suc, ◌≤◌, ◌<◌, ◌≡◌, refl, ap, Bool, true, false, ◌&&◌, none, some, List,
  [], ◌∷◌, ◌++◌, map, reverse, arith, Text, length, take, last, select, select-append, All, before,
  before_irrefl, before_asym, Table, SortedBy, Ascending, Bool-cases, inl, inr,
}
use greenline.Kv.{Row, ordered}

module _ {ℓ} {A : Type ℓ} where
  pub split_last :
      (xs : List A) (r : A) → last xs ≡ some r → (ini : List A) × (xs ≡ ini ++ (r ∷ []))
  split_last [] r h = cc
  split_last (x ∷ []) r h = ([], ground arith)
  split_last (x ∷ y ∷ xs) r h = let (ini, e) = split_last (y ∷ xs) r h in (x ∷ ini, ap (◌∷◌ x) e)

  pub last-none : (xs : List A) → last xs ≡ none → xs ≡ []
  last-none [] h = refl
  last-none (x ∷ []) h = cc
  last-none (x ∷ y ∷ xs) h =
      let e : ◌≡◌ {A = List A} (y ∷ xs) [] = last-none (y ∷ xs) h in absurd (cc e)

  pub last-map {κ} :
      {B : Type κ} (f : A → B) (xs : List A) → last (map f xs) ≡ Option.map f (last xs)
  last-map f [] = refl
  last-map f (x ∷ []) = refl
  last-map f (x ∷ y ∷ xs) = last-map f (y ∷ xs)

  pub length-map {κ} : {B : Type κ} (f : A → B) (xs : List A) → length (map f xs) ≡ length xs
  length-map f [] = refl
  length-map f (x ∷ xs) = ap suc (length-map f xs)

  pub length-take-le : (n : ℕ) (xs : List A) → length (take n xs) ≤ n
  length-take-le zero xs = omega arith
  length-take-le (suc n) [] = omega arith
  length-take-le (suc n) (x ∷ xs) = omega (arith, length-take-le n xs)

  -- a short page is the last one
  pub take_of_short : (n : ℕ) (xs : List A) → length (take n xs) < n → take n xs ≡ xs
  take_of_short zero xs h = absurd (omega arith)
  take_of_short (suc n) [] h = refl
  take_of_short (suc n) (x ∷ xs) h = ap (◌∷◌ x) (take_of_short n xs (omega arith))

  pub select-and :
      (p q : A → Bool) (xs : List A) → select (λ x. p x && q x) xs ≡ select q (select p xs)
  unfolding select
  select-and p q [] = refl
  select-and p q (x ∷ xs) = ground (arith, select-and p q xs)

  pub select-reverse : (p : A → Bool) (xs : List A) → reverse (select p xs) ≡ select p (reverse xs)
  unfolding select
  select-reverse p [] = refl
  select-reverse p (x ∷ xs) = ground (
    arith,
    reverse-append (x ∷ []) xs,
    reverse-append (x ∷ []) (select p xs),
    select-append p (reverse xs) (x ∷ []),
    select-reverse p xs,
    append-nil (select p (reverse xs)),
  )

  pub select-true : (xs : List A) → select (λ _. true) xs ≡ xs
  unfolding select
  select-true [] = refl
  select-true (x ∷ xs) = ap (◌∷◌ x) (select-true xs)

-- The order of the keys in one direction or the other.
abbrev pub direction : Bool → Text → Text → Bool
direction d a b = if d then before b a else before a b

module _ (d : Bool) where
  direction_irrefl : (s : Text) → direction d s s ≡ false
  direction_irrefl s = elim (Bool-cases d) [
    | inl e ↦ rw e (before_irrefl s)
    | inr e ↦ rw e (before_irrefl s)
  ]

  direction_asym : (s t : Text) → direction d s t ≡ true → direction d t s ≡ false
  direction_asym s t h = elim (Bool-cases d) [
    | inl e ↦ rw e (before_asym t s (rw e at h))
    | inr e ↦ rw e (before_asym s t (rw e at h))
  ]

module _ {ℓ} {A : Type ℓ} where
  SortedBy_tail_only :
      (d : Bool) (c : Text) (rows : Table A)
      → All (λ r. direction d c r.0 ≡ true) rows
      → select (λ r. direction d c r.0) rows ≡ rows
  unfolding select
  SortedBy_tail_only d c [] all = refl
  SortedBy_tail_only d c (r ∷ rows) all =
      rw (all.0) (ap (◌∷◌ r) (SortedBy_tail_only d c rows all.1))

  pub All-append_mid :
      (P : Text × A → Type 0) (xs ys : Table A) (r : Text × A) → All P (xs ++ (r ∷ ys)) → P r
  All-append_mid P [] ys r all = all.0
  All-append_mid P (x ∷ xs) ys r all = All-append_mid P xs ys r all.1

  -- The rows past the key of a row are the ones that follow it.
  pub select-past :
      (d : Bool) (xs ys : Table A) (r : Text × A)
      → SortedBy (direction d) (xs ++ (r ∷ ys))
      → select (λ x. direction d r.0 x.0) (xs ++ (r ∷ ys)) ≡ ys
  unfolding select
  select-past d [] ys r s = rw (direction_irrefl d r.0) (SortedBy_tail_only d r.0 ys s.0)
  select-past d (x ∷ xs) ys r s =
      rw (direction_asym d x.0 r.0 (All-append_mid (λ y. direction d x.0 y.0 ≡ true) xs ys r s.0))
        (select-past d xs ys r s.1)

  All-concat :
      (P : Text × A → Type 0) (xs : Table A) (r : Text × A)
      → All P xs
      → P r
      → All P (xs ++ (r ∷ []))
  All-concat P [] r all p = (p, tt)
  All-concat P (x ∷ xs) r all p = (all.0, All-concat P xs r all.1 p)

  SortedBy-concat :
      (b : Text → Text → Bool) (xs : Table A) (r : Text × A)
      → SortedBy b xs
      → All (λ x. b x.0 r.0 ≡ true) xs
      → SortedBy b (xs ++ (r ∷ []))
  SortedBy-concat b [] r s all = (tt, tt)
  SortedBy-concat b (x ∷ xs) r s all =
      (All-concat (λ y. b x.0 y.0 ≡ true) xs r s.0 all.0, SortedBy-concat b xs r s.1 all.1)

  All-reverse : (P : Text × A → Type 0) (xs : Table A) → All P xs → All P (reverse xs)
  All-reverse P [] all = tt
  All-reverse P (x ∷ xs) all =
      rw (reverse-append (x ∷ []) xs) (All-concat P (reverse xs) x (All-reverse P xs all.1) all.0)

  reverse-SortedBy : (xs : Table A) → Ascending xs → SortedBy (direction true) (reverse xs)
  reverse-SortedBy [] s = tt
  reverse-SortedBy (x ∷ xs) s = rw (reverse-append (x ∷ []) xs) (
      SortedBy-concat (direction true) (reverse xs) x (reverse-SortedBy xs s.1)
        (All-reverse (λ r. before x.0 r.0 ≡ true) xs s.0))

-- An ordered read of a table is sorted in its direction.
pub ordered-SortedBy :
    (d : Bool) (xs : Table Row) → Ascending xs → SortedBy (direction d) (ordered d xs)
ordered-SortedBy true xs s = reverse-SortedBy xs s
ordered-SortedBy false xs s = s
