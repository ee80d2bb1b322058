-- ===== src/Kv/Paging.antt =====
-- Cursor pagination of src/ut_components/kv.py: following `next_cursor` from page to page, the loop that
-- `get_partial_page` documents.
use mathlib.Core.List.{append_assoc, map-append}
use mathlib.Core.Option
use greenline.Base.{
  ℕ, zero, suc, ◌<◌, ◌≡◌, refl, sym, ap, ◌∙◌, Bool, true, false, Option, none, some, List, [], ◌∷◌,
  ◌++◌, map, arith, Text, nat_eq, length, take, drop, last, select, length-append, take-append-drop,
  Table, SortedBy, Ascending, select-SortedBy, Bool-cases, nat_eq_iff, Option-cases, inl, inr,
}
use greenline.Kv.{
  Kv, Row, Json, get_partial_page, next_page, decoded, selected, past_cursor, ordered, Page,
}
use greenline.Kv.Rows.{
  split_last, last-none, last-map, length-map, take_of_short, length-take-le, select-and,
  select-reverse, select-true, select-past, ordered-SortedBy, direction,
}

-- The rows that `get_partial_page` pages through.
abbrev pub matching : ℕ → Text → Bool → Kv → Table Row
matching now beginning backwards kv = ordered backwards (select (selected beginning now) kv.table)

module _ (J : Json) where
  abbrev follow :
      (Text → Option (List (Text × J.Value))) → Option (Page J) → Option (List (Text × J.Value))
  follow next none = none
  follow next (some page) = elim (page.next_cursor) [
    | none ↦ some page.results
    | some c ↦ Option.map (λ rest. page.results ++ rest) (next c)
  ]

module _ (J : Json) (now : ℕ) (beginning : Text) (page_size : ℕ) (backwards : Bool) (kv : Kv) where
  -- `while True: rows, cursor = get_partial_page(..., cursor); ...; if cursor is None: break`; `none`
  -- is an error, or fuel that ran out.
  unfoldable pub read_pages : ℕ → Option Text → Option (List (Text × J.Value))
  read_pages zero cursor = none
  read_pages (suc fuel) cursor =
      follow J (λ c. read_pages fuel (some c))
        (get_partial_page J now beginning page_size cursor backwards kv)

  rows_at : Option Text → Table Row
  rows_at cursor =
      select (λ r. past_cursor cursor backwards r.0) (matching now beginning backwards kv)

  page_at : Table Row → Option (Page J)
  page_at rows =
      next_page J page_size (map (decoded J) (take page_size rows))
        (last (map (decoded J) (take page_size rows)))

  ordered-select :
      (p : Text × Row → Bool) (t : Table Row)
      → ordered backwards (select p t) ≡ select p (ordered backwards t)
  ordered-select p t = elim (Bool-cases backwards) [
    | inl e ↦ rw e (select-reverse p t)
    | inr e ↦ rw e
  ]

  page-eq :
      (cursor : Option Text)
      → get_partial_page J now beginning page_size cursor backwards kv ≡ page_at (rows_at cursor)
  unfolding get_partial_page page_at rows_at
  page-eq cursor =
      rw (select-and (selected beginning now) (λ r. past_cursor cursor backwards r.0) kv.table) (
        rw (
          ordered-select (λ r. past_cursor cursor backwards r.0)
            (select (selected beginning now) kv.table)))

  next_page_short :
      (results : List (Text × J.Value)) (o : Option (Text × J.Value))
      → length results < page_size
      → next_page J page_size results o ≡ some (record { results = results; next_cursor = none })
  next_page_short results none h = ground arith
  next_page_short results (some r) h = ground arith

  next_page_full :
      (results : List (Text × J.Value)) (r : Text × J.Value)
      → length results ≡ page_size
      → next_page J page_size results (some r)
        ≡ some (record { results = results; next_cursor = some r.0 })
  next_page_full results r h = ground arith

  -- A page that is not full is the last one.
  page_at_short :
      (rows : Table Row)
      → length (take page_size rows) < page_size
      → page_at rows ≡ some (record { results = map (decoded J) rows; next_cursor = none })
  unfolding page_at
  page_at_short rows h =
      let e : take page_size rows ≡ rows = take_of_short page_size rows h in
      rw e (
        next_page_short (map (decoded J) rows) (last (map (decoded J) rows))
          (rw length-map (rw e at h)))

  page_at_full :
      (rows : Table Row) (r : Text × Row)
      → length (take page_size rows) ≡ page_size
      → last (take page_size rows) ≡ some r
      → page_at rows
        ≡ some (record { results = map (decoded J) (take page_size rows); next_cursor = some r.0 })
  unfolding page_at
  page_at_full rows r full e = rw last-map (
      rw e
        (next_page_full (map (decoded J) (take page_size rows)) (decoded J r) (rw length-map full)))

  short_lt :
      (rest : Table Row)
      → nat_eq (length (take page_size rest)) page_size ≡ false
      → length (take page_size rest) < page_size
  short_lt rest h = ground (arith, length-take-le page_size rest)

  shorter :
      (rest : Table Row) {fuel : ℕ}
      → 0 < page_size
      → length (take page_size rest) ≡ page_size
      → length rest < suc fuel
      → length (drop page_size rest) < fuel
  shorter rest pos full h =
      let e : length (take page_size rest ++ drop page_size rest) ≡ length rest =
        ap length (take-append-drop page_size rest) in
      omega (arith, length-append (take page_size rest) (drop page_size rest))

  -- After a full page, its last key as the cursor selects exactly what follows the page.
  rows_at-next :
      (seen rest : Table Row) (r : Text × Row)
      → SortedBy (direction backwards) (matching now beginning backwards kv)
      → matching now beginning backwards kv ≡ seen ++ rest
      → last (take page_size rest) ≡ some r
      → rows_at (some r.0) ≡ drop page_size rest
  unfolding rows_at
  rows_at-next seen rest r sorted split e =
      let (ini, at_end) = split_last (take page_size rest) r e in
      let parts : matching now beginning backwards kv ≡ (seen ++ ini) ++ (r ∷ drop page_size rest) =
        split
        ∙ ap (λ t. seen ++ t)
            (sym (take-append-drop page_size rest)
              ∙ ap (λ t. t ++ drop page_size rest) at_end
              ∙ append_assoc ini (r ∷ []) (drop page_size rest))
        ∙ sym (append_assoc seen ini (r ∷ drop page_size rest)) in
      rw parts (select-past backwards (seen ++ ini) (drop page_size rest) r (rw parts at sorted))

  no_empty :
      (rest : Table Row)
      → 0 < page_size
      → nat_eq (length (take page_size rest)) page_size ≡ true
      → last (take page_size rest) ≡ none
      → ⊥
  no_empty rest pos full e =
      let none_left : length (take page_size rest) ≡ 0 =
        ap length (last-none (take page_size rest) e) in
      omega (arith, (nat_eq_iff (length (take page_size rest)) page_size).0 full)

  split_page :
      (seen rest : Table Row)
      → matching now beginning backwards kv ≡ seen ++ rest
      → matching now beginning backwards kv ≡ (seen ++ take page_size rest) ++ drop page_size rest
  split_page seen rest split =
      split
      ∙ ap (λ t. seen ++ t) (sym (take-append-drop page_size rest))
      ∙ sym (append_assoc seen (take page_size rest) (drop page_size rest))

  join_page :
      (rest : Table Row)
      → map (decoded J) (take page_size rest) ++ map (decoded J) (drop page_size rest)
        ≡ map (decoded J) rest
  join_page rest =
      sym (map-append (decoded J) (take page_size rest) (drop page_size rest))
      ∙ ap (map (decoded J)) (take-append-drop page_size rest)

  -- What the loop reads from a cursor on: the rows that no page has returned yet.
  read_pages_rest :
      (fuel : ℕ) (cursor : Option Text) (seen rest : Table Row)
      → 0 < page_size
      → SortedBy (direction backwards) (matching now beginning backwards kv)
      → matching now beginning backwards kv ≡ seen ++ rest
      → rows_at cursor ≡ rest
      → length rest < fuel
      → read_pages fuel cursor ≡ some (map (decoded J) rest)
  unfolding read_pages
  read_pages_rest zero cursor seen rest pos sorted split at h = elim h [ ]
  read_pages_rest (suc fuel) cursor seen rest pos sorted split at h =
      rw (page-eq cursor, at)
        (elim (Bool-cases (nat_eq (length (take page_size rest)) page_size)) [
          | inl full ↦ elim (Option-cases (last (take page_size rest))) [
            | inl e ↦ absurd (no_empty rest pos full e)
            | inr (r, e) ↦
                rw
                  (
                    page_at_full rest r ((nat_eq_iff _ _).0 full) e,
                    read_pages_rest fuel (some r.0) (seen ++ take page_size rest)
                        (drop page_size rest) pos sorted (split_page seen rest split)
                        (rows_at-next seen rest r sorted split e)
                        (shorter rest pos ((nat_eq_iff _ _).0 full) h),
                  )
                  (ap some (join_page rest))
          ]
          | inr short ↦ rw (page_at_short rest (short_lt rest short)) refl
        ])

-- Whatever the page size, from 1 on, and in either direction: with fuel for one page more than there
-- are rows, the loop ends without an error, and the pages together are all matching rows, each once,
-- in the order of their keys.
pub read_pages_complete :
    (J : Json) (now : ℕ) (beginning : Text) (page_size fuel : ℕ) (backwards : Bool) (kv : Kv)
    → Ascending kv.table
    → 0 < page_size
    → length (matching now beginning backwards kv) < fuel
    → read_pages J now beginning page_size backwards kv fuel none
      ≡ some (map (decoded J) (matching now beginning backwards kv))
read_pages_complete J now beginning page_size fuel backwards kv ascending pos enough =
    read_pages_rest J now beginning page_size backwards kv fuel none []
      (matching now beginning backwards kv) pos
      (ordered-SortedBy backwards _ (select-SortedBy _ (selected beginning now) kv.table ascending))
      refl (unfold rows_at in select-true (matching now beginning backwards kv)) enough
