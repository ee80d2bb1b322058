-- ===== src/Migrations/Clean.antt =====
-- The messages that src/greenline/storage_migrations.py has taken fields from.
use greenline.Base.{
  ℕ, ◌≡◌, refl, ◌∙◌, true, false, none, some, List, [], ◌∷◌, arith, Text, ◌==◌, eq_iff, eq_refl,
  map, any, All, length, ◌<◌, ◌≤◌, Table, Ascending, Bool-cases, inl, inr, if◌then◌else◌,
}
use greenline.Dyn.{Dyn, Fields}
use greenline.Kv.{Kv, Row, IsLawful}
use greenline.Migrations.{
  Encoding, json, has_field, pop_field, pop_fields, has_any, updated_value, remove_fields,
}
use greenline.Migrations.Pages.{remove_fields_exact}
use greenline.Migrations.Removal.{stripped, stripped_value, chosen}

has_field-pop_field :
    (name other : Text) (fs : Fields)
    → has_field name (pop_field other fs) ≡ (if other == name then false else has_field name fs)
unfolding has_field pop_field
has_field-pop_field name other Fields.end = ground arith
has_field-pop_field name other (Fields.field k v fs) =
    ground
      (arith, has_field-pop_field name other fs, eq_iff k name, eq_iff k other, eq_iff other name)

-- Popping does not bring a field back.
popped_stays :
    (name : Text) (names : List Text) (fs : Fields)
    → has_field name fs ≡ false
    → has_field name (pop_fields names fs) ≡ false
unfolding pop_fields
popped_stays name [] fs h = h
popped_stays name (other ∷ names) fs h =
    popped_stays name names (pop_field other fs) (ground (arith, has_field-pop_field name other fs))

all_popped :
    (names : List Text) (fs : Fields)
    → any (λ name. has_field name (pop_fields names fs)) names ≡ false
unfolding pop_fields
all_popped [] fs = refl
all_popped (name ∷ names) fs =
    let gone : has_field name (pop_field name fs) ≡ false =
      has_field-pop_field name name fs ∙ rw (eq_refl name) refl in
    rw (popped_stays name names (pop_field name fs) gone) (all_popped names (pop_field name fs))

updated-clean : (names : List Text) (d : Dyn) → has_any names (updated_value names d) ≡ false
unfolding has_any updated_value
updated-clean names (Dyn.obj fs) = all_popped names fs
updated-clean names Dyn.null = refl
updated-clean names (Dyn.bool b) = refl
updated-clean names (Dyn.num n) = refl
updated-clean names (Dyn.str s) = refl
updated-clean names (Dyn.arr xs) = refl

module _ (E : Encoding) (L : IsLawful (json E)) (now : ℕ) (names : List Text) where
  -- A live message is without the fields.
  abbrev pub IsClean : Text × Row → Type 0
  IsClean r = chosen E now names r ≡ true → has_any names (E.loads r.1.value) ≡ false

  stripped_value-clean :
      (row : Row)
      → has_any names (E.loads (stripped_value E now names (E.loads row.value) row).value) ≡ false
  unfolding stripped_value
  stripped_value-clean row = elim (Bool-cases (has_any names (E.loads row.value))) [
    | inl e ↦
        rw (e, L.loads-dumps (updated_value names (E.loads row.value)))
          (updated-clean names (E.loads row.value))
    | inr n ↦ rw n n
  ]

  pub stripped-IsClean : (r : Text × Row) → IsClean (stripped E now names r)
  unfolding stripped
  stripped-IsClean r = elim (Bool-cases (chosen E now names r)) [
    | inl e ↦ rw e (λ h. stripped_value-clean r.1)
    | inr n ↦ rw n (λ h. absurd (cc (n, h)))
  ]

  -- A message that is clean is not written again.
  pub IsClean-stripped : (r : Text × Row) → IsClean r → stripped E now names r ≡ r
  unfolding stripped stripped_value
  IsClean-stripped r clean = elim (Bool-cases (chosen E now names r)) [
    | inl e ↦ rw (e, clean e) refl
    | inr n ↦ rw n refl
  ]

  all-IsClean : (t : Table Row) → All IsClean (map (stripped E now names) t)
  all-IsClean [] = tt
  all-IsClean (r ∷ t) = (stripped-IsClean r, all-IsClean t)

-- Where SQLite allows the 150 variables of a page in a statement, and with fuel for one page more than there
-- are rows, the loop ends without an error at the table in which every live message with one of the fields is written without them and without a time to live, at its
-- place, and every other row is as it was; no live message of that table has one of the fields.
pub remove_fields-IsClean :
    (E : Encoding) (L : IsLawful (json E)) (now : ℕ) (names : List Text) (fuel : ℕ) (kv : Kv)
    → 150 ≤ E.max_variables
    → kv.cache_values ≡ []
    → kv.cache_row_count ≡ 0
    → Ascending kv.table
    → length kv.table < fuel
    → (remove_fields E now names fuel none kv
        ≡ some (record kv { table = map (stripped E now names) kv.table }))
      × All (IsClean E L now names) (map (stripped E now names) kv.table)
remove_fields-IsClean E L now names fuel kv fit c z s enough =
    (remove_fields_exact E now names fuel kv fit c z s enough, all-IsClean E L now names kv.table)
