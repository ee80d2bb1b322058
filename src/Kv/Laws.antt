-- ===== src/Kv/Laws.antt =====
-- What reads of the store return after writes (src/ut_components/kv.py).
use mathlib.Core.List.{foldl, append-nil, append_assoc}
use greenline.Base.{
  ◌==◌, ◌||◌, ◌*◌, leb, nat_eq, ltb, ℕ, zero, suc, ◌+◌, ◌≡◌, refl, sym, ap, ◌∙◌, Bool, true, false,
  Option, none, some, List, [], ◌∷◌, ◌++◌, map, arith, Text, if◌then◌else◌, length, length-append,
  lookup, lookup-insert, lookup-erase, lookup-erase_where, insert-Ascending, erase_where-Ascending,
  Ascending,
}
use greenline.Kv.Like.{like_prefix}
use greenline.Kv.Rows.{length-map}
use greenline.Kv.{
  Kv, Row, Json, IsLawful, put, get, get_value, get_found, delete, delete_partial, put_cached,
  commit_cached, commit_rows, insert_all, expiry, row_text, ttl_alive,
}

module _ (J : Json) where
  abbrev pub read : ℕ → Text → J.Value → Kv → J.Value
  read now key default kv = (get J now key default false kv).0

  -- What a read makes of the row of its key.
  abbrev shown : ℕ → J.Value → Option Row → J.Value
  shown now default row = elim (row_text now row) [ none ↦ default | some t ↦ J.loads t ]

  read-eq :
      (now : ℕ) (key : Text) (default : J.Value) (kv : Kv)
      → read now key default kv ≡ shown now default (lookup key kv.table)
  unfolding get get_found
  read-eq now key default kv = ground arith

-- Whether a value that was put at `now` with a lifetime is there `later`: always without a lifetime or
-- with one of 0, otherwise until the lifetime has passed.
abbrev pub lasts : ℕ → ℕ → Option ℕ → Bool
lasts now later none = true
lasts now later (some seconds) = nat_eq seconds 0 || ltb later (now + seconds)

-- The code's expiry time and its test do what `lasts` says.
pub ttl_alive-expiry :
    (now later : ℕ) (ttl : Option ℕ) → ttl_alive later (expiry now ttl) ≡ lasts now later ttl
unfolding expiry
ttl_alive-expiry now later none = refl
ttl_alive-expiry now later (some zero) = refl
ttl_alive-expiry now later (some (suc s)) =
    let some_time : nat_eq (suc s) 0 ≡ false = ground arith in rw some_time refl

module _ (J : Json) (L : IsLawful J) where
  -- After a write at the time `now`, a read at the time `later` returns, at the key written, the new value
  -- if the write had no lifetime, a lifetime of 0, or one for which `later` is before `now` plus the
  -- lifetime, and the default otherwise; at every other key it returns what it returned before.
  pub get-put :
      (now later : ℕ) (k j : Text) (v d : J.Value) (ttl : Option ℕ) (kv : Kv)
      → read J later j d (put J now k v ttl kv)
        ≡ (if k == j then (if lasts now later ttl then v else d) else read J later j d kv)
  unfolding put
  get-put now later k j v d ttl kv =
      rw
        (
          read-eq J later j d,
          read-eq J later j d,
          lookup-insert,
          sym (ttl_alive-expiry now later ttl),
        )
        (ground (arith, L.loads-dumps v, L.dumps_nonempty v))

  -- `get_value` after a write.
  pub get_value-put :
      (now later : ℕ) (k j : Text) (v : J.Value) (ttl : Option ℕ) (kv : Kv)
      → get_value J later j (put J now k v ttl kv) ≡ (
          if k == j then (if lasts now later ttl then some v else none) else get_value J later j kv)
  unfolding get_value put
  get_value-put now later k j v ttl kv =
      rw (lookup-insert, sym (ttl_alive-expiry now later ttl))
        (ground (arith, L.loads-dumps v, L.dumps_nonempty v))

module _ (J : Json) where
  -- After `delete` a read of the key returns the default, and other keys read as before.
  pub get-delete :
      (now : ℕ) (k j : Text) (d : J.Value) (kv : Kv)
      → read J now j d (delete k kv) ≡ (if j == k then d else read J now j d kv)
  unfolding delete
  get-delete now k j d kv = rw (read-eq J now j d, read-eq J now j d, lookup-erase) (ground arith)

  -- `delete_partial` deletes the keys that LIKE finds for its prefix, and no other.
  pub get-delete_partial :
      (now : ℕ) (beginning j : Text) (d : J.Value) (kv : Kv)
      → read J now j d (delete_partial beginning kv)
        ≡ (if like_prefix beginning j then d else read J now j d kv)
  unfolding delete_partial
  get-delete_partial now beginning j d kv =
      rw (read-eq J now j d, read-eq J now j d, lookup-erase_where) (ground arith)

-- A row to be written: the key, the value, its lifetime.
abbrev pub Entry : Json → Type 0
Entry J = record { key : Text; value : J.Value; ttl : Option ℕ }

module _ (J : Json) (now : ℕ) where
  abbrev pub put_all : List (Entry J) → Kv → Kv
  put_all es kv = foldl (λ kv' e. put J now e.key e.value e.ttl kv') kv es

  abbrev pub put_all_cached : List (Entry J) → Kv → Kv
  put_all_cached es kv = foldl (λ kv' e. put_cached J now e.key e.value e.ttl kv') kv es

  -- the row count is that of the collected rows
  abbrev pub IsCounted : Kv → Type 0
  IsCounted kv = kv.cache_row_count ≡ length kv.cache_values

  put_all_cached-IsCounted :
      (es : List (Entry J)) (kv : Kv) → IsCounted kv → IsCounted (put_all_cached es kv)
  unfolding put_cached
  put_all_cached-IsCounted [] kv h = h
  put_all_cached-IsCounted (e ∷ es) kv h =
      put_all_cached-IsCounted es (put_cached J now e.key e.value e.ttl kv) (
        omega (
          arith,
          length-append kv.cache_values
              ((e.key, record { value = J.dumps e.value; ttl = expiry now e.ttl }) ∷ []),
        ))

  -- The row that an entry becomes.
  abbrev row_of : Entry J → Text × Row
  row_of e = (e.key, record { value = J.dumps e.value; ttl = expiry now e.ttl })

  -- Caching touches only the collected rows.
  put_all_cached-eq :
      (es : List (Entry J)) (kv : Kv)
      → ((put_all_cached es kv).table ≡ kv.table)
        × ((put_all_cached es kv).cache_values ≡ kv.cache_values ++ map row_of es)
  unfolding put_cached
  put_all_cached-eq [] kv = (refl, sym (append-nil kv.cache_values))
  put_all_cached-eq (e ∷ es) kv =
      let h = put_all_cached-eq es (put_cached J now e.key e.value e.ttl kv) in
      (h.0, h.1 ∙ append_assoc kv.cache_values (row_of e ∷ []) (map row_of es))

  -- Puts are inserts of their rows, and touch only the table.
  put_all-eq :
      (es : List (Entry J)) (kv : Kv)
      → put_all es kv ≡ record kv { table = insert_all kv.table (map row_of es) }
  unfolding put
  put_all-eq [] kv = refl
  put_all-eq (e ∷ es) kv = put_all-eq es (put J now e.key e.value e.ttl kv)

  commit_rows-eq :
      (max_variables : ℕ) (rows : List (Text × Row)) (kv : Kv)
      → kv.cache_values ≡ rows
      → kv.cache_row_count ≡ length rows
      → commit_rows max_variables kv rows ≡ (
          if leb (3 * length rows) max_variables
          then some
              (record { table = insert_all kv.table rows; cache_values = []; cache_row_count = 0 })
          else none)
  unfolding commit_rows
  commit_rows-eq max_variables [] kv e h =
      let fits : leb 0 max_variables ≡ true = ground arith in
      rw fits
        (ap some (λ i. record { table = kv.table; cache_values = e i; cache_row_count = h i }))
  commit_rows-eq max_variables (r ∷ rows) kv e h =
      let same : nat_eq (suc (length rows)) kv.cache_row_count ≡ true = ground (arith, h) in
      rw (same, h) (ground arith)

  pub commit-put_all_cached :
      (max_variables : ℕ) (es : List (Entry J)) (kv : Kv)
      → kv.cache_values ≡ []
      → kv.cache_row_count ≡ 0
      → commit_cached max_variables (put_all_cached es kv)
        ≡ (if leb (3 * length es) max_variables then some (put_all es kv) else none)
  unfolding commit_cached
  commit-put_all_cached max_variables es kv e z =
      let (table, values) = put_all_cached-eq es kv in
      let rows : (put_all_cached es kv).cache_values ≡ map row_of es =
        values ∙ ap (λ t. t ++ map row_of es) e in
      let counted : IsCounted (put_all_cached es kv) =
        put_all_cached-IsCounted es kv (z ∙ ap length (sym e)) in
      let written : some (record {
        table = insert_all kv.table (map row_of es);
        cache_values = [];
        cache_row_count = 0;
      })
          ≡ some (record kv { table = insert_all kv.table (map row_of es) }) =
        ap some (λ i. record {
          table = insert_all kv.table (map row_of es);
          cache_values = sym e i;
          cache_row_count = sym z i;
        }) in
      rw rows (
        commit_rows-eq max_variables (map row_of es) (put_all_cached es kv) rows
          (counted ∙ ap length rows)
        ∙ rw (table, put_all-eq es kv, length-map row_of es, written) refl)

-- The table stays a table with a primary key under every operation.
module _ (J : Json) where
  pub put-Ascending :
      (now : ℕ) (k : Text) (v : J.Value) (ttl : Option ℕ) (kv : Kv)
      → Ascending kv.table
      → Ascending (put J now k v ttl kv).table
  unfolding put
  put-Ascending now k v ttl kv h = insert-Ascending k _ kv.table h

  pub delete_partial-Ascending :
      (beginning : Text) (kv : Kv)
      → Ascending kv.table
      → Ascending (delete_partial beginning kv).table
  unfolding delete_partial
  delete_partial-Ascending beginning kv h = erase_where-Ascending (like_prefix beginning) kv.table h
