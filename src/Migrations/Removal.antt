-- ===== src/Migrations/Removal.antt =====
-- The rows of a page from which src/greenline/storage_migrations.py removes fields.
use mathlib.Core.Path.{subst}
use mathlib.Core.List.{append_assoc, append-nil}
use greenline.Base.{
  ℕ, ◌*◌, ◌≤◌, arith, length, leb, true, ◌≡◌, refl, sym, ap, ◌∙◌, Bool, false, none, some, List, [],
  ◌∷◌, ◌++◌, Text, codes, map, select, Table, Ascending, insert-Ascending, Bool-cases, inl, inr,
  if◌then◌else◌,
}
use greenline.Dyn.{Dyn}
use greenline.Kv.{Kv, Row, init, put, decoded, selected}
use greenline.Kv.Rows.{length-map}
use greenline.Kv.Laws.{Entry, put_all, put_all_cached, commit-put_all_cached}
use greenline.Migrations.{
  Encoding, json, has_any, updated_value, put_changed, wrote_changes, write_page,
}
use greenline.Migrations.Rows.{insert_over}

module _ (E : Encoding) (now : ℕ) (names : List Text) where
  abbrev pub chosen : Text × Row → Bool
  chosen = selected (codes "message:") now

  unfoldable pub stripped_value : Dyn → Row → Row
  stripped_value value row =
      if has_any names value
      then (record { value = E.dumps (updated_value names value); ttl = none })
      else row

  -- A message without the fields; it is written, without a time to live, only where it has one of them.
  unfoldable pub stripped : Text × Row → Text × Row
  unfolding stripped_value
  stripped r = (r.0, if chosen r then stripped_value (E.loads r.1.value) r.1 else r.1)

  abbrev changes : List (Text × Dyn) → List (Entry (json E))
  changes [] = []
  changes ((key, value) ∷ rows) =
      if has_any names value
      then record { key = key; value = updated_value names value; ttl = none } ∷ changes rows
      else changes rows

  put_changed-eq :
      (rows : List (Text × Dyn)) (kv : Kv)
      → put_changed E now names rows kv ≡ put_all_cached (json E) now (changes rows) kv
  unfolding put_changed
  put_changed-eq [] kv = refl
  put_changed-eq ((key, value) ∷ rows) kv = elim (Bool-cases (has_any names value)) [
    | inl e ↦ rw e (put_changed-eq rows _)
    | inr n ↦ rw n (put_changed-eq rows kv)
  ]

  no_changes :
      (rows : List (Text × Dyn)) → wrote_changes E now names rows ≡ false → changes rows ≡ []
  no_changes [] h = refl
  no_changes ((key, value) ∷ rows) h = elim (Bool-cases (has_any names value)) [
    | inl e ↦ absurd (cc (rw e at h))
    | inr n ↦ rw n (no_changes rows (rw n at h))
  ]

  length-changes : (rows : List (Text × Dyn)) → length (changes rows) ≤ length rows
  length-changes [] = omega arith
  length-changes ((key, value) ∷ rows) = elim (Bool-cases (has_any names value)) [
    | inl e ↦ rw e (omega (arith, length-changes rows))
    | inr n ↦ rw n (omega (arith, length-changes rows))
  ]

  within : (n m : ℕ) → n ≤ m → 3 * m ≤ E.max_variables → leb (3 * n) E.max_variables ≡ true
  within n m le h = ground (arith, le, h)

  write_page-eq :
      (rows : List (Text × Dyn)) (kv : Kv)
      → 3 * length rows ≤ E.max_variables
      → kv.cache_values ≡ []
      → kv.cache_row_count ≡ 0
      → write_page E now names rows kv ≡ some (put_all (json E) now (changes rows) kv)
  unfolding write_page
  write_page-eq rows kv fit c z = elim (Bool-cases (wrote_changes E now names rows)) [
    | inl e ↦
        rw
          (
            e,
            put_changed-eq rows kv,
            commit-put_all_cached (json E) now E.max_variables (changes rows) kv c z,
            within (length (changes rows)) (length rows) (length-changes rows) fit,
          )
          refl
    | inr n ↦ rw (n, put_changed-eq rows kv, no_changes rows n) refl
  ]

  -- The puts of a page replace its rows where they stand.
  pub record Replaced (d a b : Table Row) (kv : Kv) : Type 0 where
    pub puts :
        put_all
          (json E)
          now
          (changes (map (decoded (json E)) (select chosen a)))
          (record kv { table = d ++ (a ++ b) })
        ≡ record kv { table = d ++ (map stripped a ++ b) }
    pub ascending : Ascending (d ++ (map stripped a ++ b))

  abbrev puts_of : Table Row → Table Row → Kv → Kv
  puts_of a t kv =
      put_all (json E) now (changes (map (decoded (json E)) (select chosen a)))
        (record kv { table = t })

  -- What the puts do at the first row.
  record FirstReplaced (d a b : Table Row) (x : Text × Row) (kv : Kv) : Type 0 where
    first : puts_of (x ∷ a) (d ++ (x ∷ (a ++ b))) kv ≡ puts_of a (d ++ (stripped x ∷ (a ++ b))) kv
    first_ascending : Ascending (d ++ (stripped x ∷ (a ++ b)))

  kept_first :
      (d a b : Table Row) (x : Text × Row) (kv : Kv)
      → stripped x ≡ x
      → Ascending (d ++ (x ∷ (a ++ b)))
      → puts_of (x ∷ a) (d ++ (x ∷ (a ++ b))) kv ≡ puts_of a (d ++ (x ∷ (a ++ b))) kv
      → FirstReplaced d a b x kv
  kept_first d a b x kv same s h = record { first = rw same h; first_ascending = rw same s }

  first-FirstReplaced :
      (d a b : Table Row) (x : Text × Row) (kv : Kv)
      → Ascending (d ++ (x ∷ (a ++ b)))
      → FirstReplaced d a b x kv
  unfolding select put stripped
  first-FirstReplaced d a b x kv s = elim (Bool-cases (chosen x)) [
    | inr n ↦ kept_first d a b x kv (rw n refl) s (rw n refl)
    | inl e ↦ elim (Bool-cases (has_any names (E.loads x.1.value))) [
      | inr n ↦ kept_first d a b x kv (rw (e, n) refl) s (rw (e, n) refl)
      | inl c ↦
          let over = insert_over d (a ++ b) x.0 x.1 _ s in
          record {
            first = rw (e, c) (ap (λ t. puts_of a t kv) over);
            first_ascending = rw (e, c) (subst Ascending over (insert-Ascending x.0 _ _ s));
          }
    ]
  ]

  pub page-Replaced : (d a b : Table Row) (kv : Kv) → Ascending (d ++ (a ++ b)) → Replaced d a b kv
  unfolding select
  page-Replaced d [] b kv s = record { puts = refl; ascending = s }
  page-Replaced d (x ∷ a) b kv s =
      let f = first-FirstReplaced d a b x kv s in
      let shift = sym (append_assoc d (stripped x ∷ []) (a ++ b)) in
      let back = append_assoc d (stripped x ∷ []) (map stripped a ++ b) in
      let r =
        page-Replaced (d ++ (stripped x ∷ [])) a b kv (subst Ascending shift f.first_ascending) in
      record {
        puts =
            f.first
            ∙ ap (λ t. puts_of a t kv) shift
            ∙ r.puts
            ∙ ap (λ t. record kv { table = t }) back;
        ascending = subst Ascending back r.ascending;
      }

  pub write-rows :
      (d a b : Table Row) (kv : Kv)
      → 3 * length (select chosen a) ≤ E.max_variables
      → kv.cache_values ≡ []
      → kv.cache_row_count ≡ 0
      → Ascending (d ++ (a ++ b))
      → write_page E now names
          (map (decoded (json E)) (select chosen a))
          (record kv { table = d ++ (a ++ b) })
        ≡ some (record kv { table = d ++ (map stripped a ++ b) })
  write-rows d a b kv fit c z s =
      write_page-eq (map (decoded (json E)) (select chosen a)) (record kv { table = d ++ (a ++ b) })
        (rw (length-map (decoded (json E)) (select chosen a)) fit) c z
      ∙ ap some (page-Replaced d a b kv s).puts

pub stripped-Ascending :
    (E : Encoding) (now : ℕ) (names : List Text) (t : Table Row)
    → Ascending t
    → Ascending (map (stripped E now names) t)
stripped-Ascending E now names t s =
    subst Ascending (append-nil (map (stripped E now names) t))
      (page-Replaced E now names [] t [] init (subst Ascending (sym (append-nil t)) s)).ascending
