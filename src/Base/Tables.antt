-- ===== src/Base/Tables.antt =====
-- A keyed table as its primary-key index holds it, in ascending order of the key.
use mathlib.Core.Logic.{inl, inr}
use mathlib.Core.Path.{◌≡◌, refl, ◌∙◌}
use mathlib.Core.Bool.{Bool, true}
use mathlib.Core.Option.{Option, none, some}
use mathlib.Core.List.{List, [], ◌∷◌}
use native.Mathlib.Omega.{arith}
use greenline.Base.Tests.{if◌then◌else◌, Bool-cases}
use greenline.Base.Lists.{All, select}
use greenline.Base.Texts.{Text, ◌==◌, eq_iff, eq_refl, eq_sound, eq_comm}
use greenline.Base.Order.{before, before_trans, before_total}

abbrev pub Table {ℓ} : Type ℓ → Type ℓ
Table A = List (Text × A)

module _ {ℓ} {A : Type ℓ} where
  unfoldable pub lookup : Text → Table A → Option A
  lookup k [] = none
  lookup k ((j, v) ∷ t) = if j == k then some v else lookup k t

  -- INSERT OR REPLACE
  unfoldable pub insert : Text → A → Table A → Table A
  insert k v [] = (k, v) ∷ []
  insert k v ((j, w) ∷ t) =
      if j == k
      then (k, v) ∷ t
      else if before k j
      then (k, v) ∷ (j, w) ∷ t
      else (j, w) ∷ insert k v t

  -- DELETE ... WHERE the key passes a test
  unfoldable pub erase_where : (Text → Bool) → Table A → Table A
  erase_where p [] = []
  erase_where p ((j, v) ∷ t) = let rest = erase_where p t in if p j then rest else (j, v) ∷ rest

  unfoldable pub erase : Text → Table A → Table A
  unfolding erase_where
  erase k t = erase_where (λ j. j == k) t

  -- Every row stands before the ones that follow it, by the order `b` of the keys.
  abbrev pub SortedBy : (Text → Text → Bool) → Table A → Type 0
  SortedBy b [] = Unit
  SortedBy b ((j, v) ∷ t) = All (λ r. b j r.0 ≡ true) t × SortedBy b t

  -- The primary key: strictly ascending, so that no key stands twice.
  abbrev pub Ascending : Table A → Type 0
  Ascending t = SortedBy before t

  pub lookup-insert :
      (k j : Text) (v : A) (t : Table A)
      → lookup j (insert k v t) ≡ (if k == j then some v else lookup j t)
  unfolding lookup insert
  lookup-insert k j v [] = refl
  lookup-insert k j v ((i, w) ∷ t) =
      ground (arith, lookup-insert k j v t, eq_iff i k, eq_iff i j, eq_iff k j)

  pub lookup-erase_where :
      (p : Text → Bool) (j : Text) (t : Table A)
      → lookup j (erase_where p t) ≡ (if p j then none else lookup j t)
  unfolding lookup erase_where
  lookup-erase_where p j [] = ground arith
  lookup-erase_where p j ((i, w) ∷ t) = elim (Bool-cases (i == j)) [
    | inl e ↦ rw (← eq_sound i j e) (ground (arith, lookup-erase_where p i t, eq_refl i))
    | inr n ↦ ground (arith, lookup-erase_where p j t)
  ]

  pub lookup-erase :
      (k j : Text) (t : Table A) → lookup j (erase k t) ≡ (if j == k then none else lookup j t)
  unfolding erase
  lookup-erase k j t = lookup-erase_where (λ i. i == k) j t

  All-insert :
      (i k : Text) (v : A) (t : Table A)
      → before i k ≡ true
      → All (λ r. before i r.0 ≡ true) t
      → All (λ r. before i r.0 ≡ true) (insert k v t)
  unfolding insert
  All-insert i k v [] h all = (h, tt)
  All-insert i k v ((j, w) ∷ t) h all = ground (arith, All-insert i k v t h all.1)

  All-before_trans :
      (i k : Text) (t : Table A)
      → before i k ≡ true
      → All (λ r. before k r.0 ≡ true) t
      → All (λ r. before i r.0 ≡ true) t
  All-before_trans i k [] h all = tt
  All-before_trans i k ((j, w) ∷ t) h all =
      (before_trans i k j h all.0, All-before_trans i k t h all.1)

  pub insert-Ascending : (k : Text) (v : A) (t : Table A) → Ascending t → Ascending (insert k v t)
  unfolding insert
  insert-Ascending k v [] s = (tt, tt)
  insert-Ascending k v ((j, w) ∷ t) s = elim (Bool-cases (j == k)) [
    | inl e ↦ rw (e, ← eq_sound j k e) s
    | inr n ↦ elim (Bool-cases (before k j)) [
      | inl b ↦ rw (n, b) ((b, All-before_trans k j t b s.0), s)
      | inr c ↦
          rw (n, c)
            (
              All-insert j k v t (before_total k j (eq_comm k j ∙ n) c) s.0,
              insert-Ascending k v t s.1,
            )
    ]
  ]

  All-erase_where :
      (i : Text) (p : Text → Bool) (t : Table A)
      → All (λ r. before i r.0 ≡ true) t
      → All (λ r. before i r.0 ≡ true) (erase_where p t)
  unfolding erase_where
  All-erase_where i p [] all = tt
  All-erase_where i p ((j, w) ∷ t) all = ground (arith, All-erase_where i p t all.1)

  pub erase_where-Ascending :
      (p : Text → Bool) (t : Table A) → Ascending t → Ascending (erase_where p t)
  unfolding erase_where
  erase_where-Ascending p [] s = tt
  erase_where-Ascending p ((j, w) ∷ t) s =
      ground (arith, All-erase_where j p t s.0, erase_where-Ascending p t s.1)

  All-select :
      (P : Text × A → Type 0) (p : Text × A → Bool) (t : Table A) → All P t → All P (select p t)
  unfolding select
  All-select P p [] all = tt
  All-select P p (r ∷ t) all = elim (Bool-cases (p r)) [
    | inl e ↦ rw e (all.0, All-select P p t all.1)
    | inr e ↦ rw e (All-select P p t all.1)
  ]

  pub select-SortedBy :
      (b : Text → Text → Bool) (p : Text × A → Bool) (t : Table A)
      → SortedBy b t
      → SortedBy b (select p t)
  unfolding select
  select-SortedBy b p [] s = tt
  select-SortedBy b p ((j, w) ∷ t) s = elim (Bool-cases (p (j, w))) [
    | inl e ↦ rw e (All-select (λ r. b j r.0 ≡ true) p t s.0, select-SortedBy b p t s.1)
    | inr e ↦ rw e (select-SortedBy b p t s.1)
  ]
