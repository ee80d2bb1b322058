-- ===== src/Migrations/Pages.antt =====
-- The loop over pages in which src/greenline/storage_migrations.py removes fields of messages.
use mathlib.Core.Path.{subst}
use mathlib.Core.List.{append_assoc, append-nil, map-append}
use greenline.Base.{
  ℕ, zero, suc, ◌<◌, ◌≤◌, ◌*◌, ◌≡◌, refl, sym, ap, ◌∙◌, true, false, Option, none, some, List, [],
  ◌∷◌, ◌++◌, arith, Text, codes, map, nat_eq, nat_eq_iff, length, length-append, take, last, select,
  Table, Ascending, Option-cases, Bool-cases, inl, inr,
}
use greenline.Dyn.{Dyn}
use greenline.Kv.{Kv, Row, Page, get_partial_page, next_page, decoded, past_cursor}
use greenline.Kv.Rows.{
  last-none, last-map, length-map, select-past, select-true, take_of_short, length-take-le,
}
use greenline.Migrations.{Encoding, json, write_page, then_next, after_page, remove_fields}
use greenline.Migrations.Removal.{chosen, stripped, page-Replaced, write-rows}
use greenline.Migrations.Rows.{UpTo, page-UpTo, select_comm}

module _ (E : Encoding) (now : ℕ) (names : List Text) where
  -- The rows of a page, three variables for each, are within the limit of one statement.
  fits :
      (rows : List (Text × Row))
      → 150 ≤ E.max_variables
      → length rows ≤ 50
      → 3 * length rows ≤ E.max_variables
  fits rows h le = omega (arith, h, le)

  -- The page behind a cursor takes the first of the rows that are left.
  abbrev Behind : Option Text → Table Row → Type 0
  Behind none d = d ≡ []
  Behind (some c) d = (d0 : Table Row) × (row : Row) × (d ≡ d0 ++ ((c, row) ∷ []))

  abbrev page_rows : Table Row → Table Row
  page_rows rest = take 50 (select (chosen E now names) rest)

  abbrev page_of : List (Text × Dyn) → Option (Page (json E))
  page_of results = next_page (json E) 50 results (last results)

  past_done :
      (cursor : Option Text) (d rest : Table Row)
      → Behind cursor d
      → Ascending (d ++ rest)
      → select (λ r. past_cursor cursor false r.0) (d ++ rest) ≡ rest
  past_done none d rest h s = rw h (select-true rest)
  past_done (some c) d rest (d0, row, h) s =
      let e : d ++ rest ≡ d0 ++ ((c, row) ∷ rest) =
        ap (λ t. t ++ rest) h ∙ append_assoc d0 ((c, row) ∷ []) rest in
      rw e (select-past false d0 rest (c, row) (rw e at s))

  page-eq :
      (cursor : Option Text) (d rest : Table Row) (kv : Kv)
      → Behind cursor d
      → Ascending (d ++ rest)
      → get_partial_page
          (json E)
          now
          (codes "message:")
          50
          cursor
          false
          (record kv { table = d ++ rest })
        ≡ page_of (map (decoded (json E)) (page_rows rest))
  unfolding get_partial_page
  page-eq cursor d rest kv h s =
      rw
        (
          select_comm (chosen E now names) (λ r. past_cursor cursor false r.0) (d ++ rest),
          past_done cursor d rest h s,
        )
        refl

  next_page_short :
      (results : List (Text × Dyn)) (o : Option (Text × Dyn))
      → nat_eq (length results) 50 ≡ false
      → next_page (json E) 50 results o ≡ some (record { results = results; next_cursor = none })
  next_page_short results none h = rw h refl
  next_page_short results (some r) h = rw h refl

  next_page_full :
      (results : List (Text × Dyn)) (r : Text × Dyn)
      → nat_eq (length results) 50 ≡ true
      → next_page (json E) 50 results (some r)
        ≡ some (record { results = results; next_cursor = some r.0 })
  next_page_full results r h = rw h refl

  last_page :
      (next : Text → Kv → Option Kv) (d rest : Table Row) (kv : Kv)
      → 150 ≤ E.max_variables
      → kv.cache_values ≡ []
      → kv.cache_row_count ≡ 0
      → Ascending (d ++ rest)
      → nat_eq (length (page_rows rest)) 50 ≡ false
      → after_page E now next names
          (record kv { table = d ++ rest })
          (page_of (map (decoded (json E)) (page_rows rest)))
        ≡ some (record kv { table = d ++ map (stripped E now names) rest })
  last_page next d rest kv fit c z s short =
      let all : page_rows rest ≡ select (chosen E now names) rest =
        take_of_short 50 (select (chosen E now names) rest)
          (ground (arith, length-take-le 50 (select (chosen E now names) rest))) in
      let written =
        rw (append-nil rest, append-nil (map (stripped E now names) rest)) at
          (write-rows E now names d rest [] kv
            (fits (select (chosen E now names) rest) fit
              (rw all at (length-take-le 50 (select (chosen E now names) rest))))
            c z (subst (λ t. Ascending (d ++ t)) (sym (append-nil rest)) s)) in
      rw
        (
          next_page_short (map (decoded (json E)) (page_rows rest)) _
              (rw (length-map (decoded (json E)) (page_rows rest)) short),
          all,
          written,
        )
        refl

  -- After a full page the next one is read behind its last row.
  full_page :
      (next : Text → Kv → Option Kv) (d rest : Table Row) (kv : Kv) (r : Text × Row)
      (up : UpTo (chosen E now names) 50 rest r)
      → 150 ≤ E.max_variables
      → kv.cache_values ≡ []
      → kv.cache_row_count ≡ 0
      → Ascending (d ++ rest)
      → nat_eq (length (page_rows rest)) 50 ≡ true
      → last (page_rows rest) ≡ some r
      → after_page E now next names
          (record kv { table = d ++ rest })
          (page_of (map (decoded (json E)) (page_rows rest)))
        ≡ next r.0 (record kv {
          table = d ++ (map (stripped E now names) (up.ini ++ (r ∷ [])) ++ up.after);
        })
  full_page next d rest kv r up fit c z s full found =
      let whole : rest ≡ (up.ini ++ (r ∷ [])) ++ up.after =
        up.whole ∙ sym (append_assoc up.ini (r ∷ []) up.after) in
      let written =
        write-rows E now names d (up.ini ++ (r ∷ [])) up.after kv
          (fits (select (chosen E now names) (up.ini ++ (r ∷ []))) fit
            (rw up.page at (length-take-le 50 (select (chosen E now names) rest))))
          c z (subst (λ t. Ascending (d ++ t)) whole s) in
      rw
        (
          last-map (decoded (json E)) (page_rows rest),
          found,
          next_page_full (map (decoded (json E)) (page_rows rest)) (decoded (json E) r)
              (rw (length-map (decoded (json E)) (page_rows rest)) full),
          up.page,
        )
        (subst
          (λ t.
            then_next E now next (some r.0) (
              write_page E now names
                (map (decoded (json E)) (select (chosen E now names) (up.ini ++ (r ∷ []))))
                (record kv { table = d ++ t }))
            ≡ next r.0 (record kv {
              table = d ++ (map (stripped E now names) (up.ini ++ (r ∷ [])) ++ up.after);
            }))
          (sym whole) (rw written refl))

  no_rows :
      (rest : Table Row)
      → last (page_rows rest) ≡ none
      → nat_eq (length (page_rows rest)) 50 ≡ true
      → ⊥
  no_rows rest missing full =
      let empty : length (page_rows rest) ≡ 0 = ap length (last-none (page_rows rest) missing) in
      omega (arith, (nat_eq_iff (length (page_rows rest)) 50).0 full, empty)

  -- The rows behind a full page, and those that it leaves.
  record PageDone (d rest : Table Row) (r : Text × Row) (up : UpTo (chosen E now names) 50 rest r)
      : Type 0 where
    shift :
        d ++ (map (stripped E now names) (up.ini ++ (r ∷ [])) ++ up.after)
        ≡ (d ++ map (stripped E now names) (up.ini ++ (r ∷ []))) ++ up.after
    behind : Behind (some r.0) (d ++ map (stripped E now names) (up.ini ++ (r ∷ [])))
    sorted :
        (kv : Kv)
        → Ascending (d ++ rest)
        → Ascending ((d ++ map (stripped E now names) (up.ini ++ (r ∷ []))) ++ up.after)
    joined :
        (d ++ map (stripped E now names) (up.ini ++ (r ∷ [])))
          ++ map (stripped E now names) up.after
        ≡ d ++ map (stripped E now names) rest

  page_done :
      (d rest : Table Row) (r : Text × Row) (up : UpTo (chosen E now names) 50 rest r)
      → PageDone d rest r up
  unfolding stripped
  page_done d rest r up =
      let a = up.ini ++ (r ∷ []) in
      let whole : rest ≡ a ++ up.after = up.whole ∙ sym (append_assoc up.ini (r ∷ []) up.after) in
      let shift = sym (append_assoc d (map (stripped E now names) a) up.after) in
      record {
        shift = shift;
        behind = (
          d ++ map (stripped E now names) up.ini,
          ((stripped E now names) r).1,
          ap (λ t. d ++ t) (map-append (stripped E now names) up.ini (r ∷ []))
              ∙ sym (
                  append_assoc d (map (stripped E now names) up.ini)
                    ((stripped E now names) r ∷ [])),
        );
        sorted = λ kv s.
            subst Ascending shift
              (page-Replaced E now names d a up.after kv
                (subst (λ t. Ascending (d ++ t)) whole s)).ascending;
        joined =
            append_assoc d (map (stripped E now names) a) (map (stripped E now names) up.after)
            ∙ ap (λ t. d ++ t)
                (sym (map-append (stripped E now names) a up.after)
                  ∙ ap (map (stripped E now names)) (sym whole));
      }

  fewer :
      {fuel : ℕ} (rest : Table Row) (r : Text × Row) (up : UpTo (chosen E now names) 50 rest r)
      → length rest < suc fuel
      → length up.after < fuel
  fewer rest r up h = omega (arith, h, ap length up.whole, length-append up.ini (r ∷ up.after))

  -- The pages from a cursor on replace the rows that are left.
  pages_replace :
      (fuel : ℕ) (cursor : Option Text) (d rest : Table Row) (kv : Kv)
      → 150 ≤ E.max_variables
      → kv.cache_values ≡ []
      → kv.cache_row_count ≡ 0
      → Behind cursor d
      → Ascending (d ++ rest)
      → length rest < fuel
      → remove_fields E now names fuel cursor (record kv { table = d ++ rest })
        ≡ some (record kv { table = d ++ map (stripped E now names) rest })
  unfolding remove_fields
  pages_replace zero cursor d rest kv fit c z h s enough = absurd (omega (arith, enough))
  pages_replace (suc fuel) cursor d rest kv fit c z h s enough =
      rw (page-eq cursor d rest kv h s) (elim (Bool-cases (nat_eq (length (page_rows rest)) 50)) [
        | inr short ↦ last_page _ d rest kv fit c z s short
        | inl full ↦ elim (Option-cases (last (page_rows rest))) [
          | inl missing ↦ absurd (no_rows rest missing full)
          | inr (r, found) ↦
              let up = page-UpTo (chosen E now names) 50 rest r found in
              full_page _ d rest kv r up fit c z s full found
              ∙ ap (λ t. remove_fields E now names fuel (some r.0) (record kv { table = t }))
                  (page_done d rest r up).shift
              ∙ pages_replace fuel (some r.0) (d ++ map (stripped E now names) (up.ini ++ (r ∷ [])))
                  up.after kv fit c z (page_done d rest r up).behind
                  ((page_done d rest r up).sorted kv s) (fewer rest r up enough)
              ∙ ap (λ t. some (record kv { table = t })) (page_done d rest r up).joined
        ]
      ])

-- Where SQLite allows the 150 variables of a page in a statement, and with fuel for one page more than there
-- are rows, removing fields ends without an error, and what it
-- leaves is the table in which every live message with one of the fields is without them, at its old
-- place and without a time to live, and every other row is as it was.
pub remove_fields_exact :
    (E : Encoding) (now : ℕ) (names : List Text) (fuel : ℕ) (kv : Kv)
    → 150 ≤ E.max_variables
    → kv.cache_values ≡ []
    → kv.cache_row_count ≡ 0
    → Ascending kv.table
    → length kv.table < fuel
    → remove_fields E now names fuel none kv
      ≡ some (record kv { table = map (stripped E now names) kv.table })
remove_fields_exact E now names fuel kv fit c z s enough =
    pages_replace E now names fuel none [] kv.table kv fit c z refl s enough
