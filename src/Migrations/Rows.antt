-- ===== src/Migrations/Rows.antt =====
-- Pages of the rows of a table, for src/greenline/storage_migrations.py: what a page takes off the rows
-- that are left, and writing its rows again under the keys that they have.
use greenline.Base.{
  ℕ, zero, suc, ◌≡◌, refl, sym, ap, ◌∙◌, Bool, true, ◌&&◌, some, [], ◌∷◌, ◌++◌, arith, Text, take,
  last, select, before, before_irrefl, before_asym, Table, Ascending, insert, ◌==◌, eq_refl,
  eq_sound, Option-cases, Bool-cases, inl, inr,
}
use greenline.Kv.Rows.{last-none, All-append_mid}

module _ {ℓ} {A : Type ℓ} where
  last-cons : (x r : Text × A) (xs : Table A) → last xs ≡ some r → last (x ∷ xs) ≡ some r
  last-cons x r [] h = absurd (cc h)
  last-cons x r (y ∷ xs) h = h

  -- The rows up to the last one of a page, and those after it.
  pub record UpTo (p : Text × A → Bool) (n : ℕ) (rows : Table A) (r : Text × A) : Type ℓ where
    pub ini : Table A
    pub after : Table A
    pub whole : rows ≡ ini ++ (r ∷ after)
    pub page : take n (select p rows) ≡ select p (ini ++ (r ∷ []))

  -- A page that has a last row takes the chosen rows up to it.
  pub page-UpTo :
      (p : Text × A → Bool) (n : ℕ) (rows : Table A) (r : Text × A)
      → last (take n (select p rows)) ≡ some r
      → UpTo p n rows r
  unfolding select
  page-UpTo p zero rows r h = absurd (cc h)
  page-UpTo p (suc n) [] r h = absurd (cc h)
  page-UpTo p (suc n) (x ∷ rows) r h = elim (Bool-cases (p x)) [
    | inl e ↦ elim (Option-cases (last (take n (select p rows)))) [
      | inl missing ↦
          let empty : take n (select p rows) ≡ [] = last-none _ missing in
          let same : x ≡ r = cc (rw (e, empty) at h) in
          record {
            ini = [];
            after = rows;
            whole = ap (λ y. y ∷ rows) same;
            page = rw (e, empty) (rw (← same, e) refl);
          }
      | inr (y, found) ↦
          let up =
            page-UpTo p n rows r
              (found ∙ sym (last-cons x y (take n (select p rows)) found) ∙ rw e at h) in
          record {
            ini = x ∷ up.ini;
            after = up.after;
            whole = ap (λ t. x ∷ t) up.whole;
            page = rw e (ap (λ t. x ∷ t) up.page);
          }
    ]
    | inr e ↦
        let up = page-UpTo p (suc n) rows r (rw e at h) in
        record {
          ini = x ∷ up.ini;
          after = up.after;
          whole = ap (λ t. x ∷ t) up.whole;
          page = rw e up.page;
        }
  ]

  -- Writing a row again under the key that it has.
  pub insert_over :
      (d rest : Table A) (k : Text) (v w : A)
      → Ascending (d ++ ((k, v) ∷ rest))
      → insert k w (d ++ ((k, v) ∷ rest)) ≡ d ++ ((k, w) ∷ rest)
  unfolding insert
  insert_over [] rest k v w s = rw (eq_refl k)
  insert_over ((j, u) ∷ d) rest k v w s =
      let first : before j k ≡ true = All-append_mid (λ r. before j r.0 ≡ true) d rest (k, v) s.0 in
      elim (Bool-cases (j == k)) [
        | inl e ↦ absurd (cc (before_irrefl k, rw (eq_sound j k e) at first))
        | inr n ↦
            rw (n, before_asym j k first) (ap (λ t. (j, u) ∷ t) (insert_over d rest k v w s.1))
      ]

  pub select_comm :
      (p q : Text × A → Bool) (xs : Table A) → select (λ x. p x && q x) xs ≡ select p (select q xs)
  unfolding select
  select_comm p q [] = refl
  select_comm p q (x ∷ xs) = ground (arith, select_comm p q xs)
