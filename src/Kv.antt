-- ===== src/Kv.antt =====
-- src/ut_components/kv.py: the key-value store over one SQLite table, `kv(key, value, ttl)`.
-- The clock is the argument `now`, in whole seconds. The encoding of a value by `json` is a
-- parameter. A method returns the new state beside its result.
pub mod Like
pub mod Rows
pub mod Paging
pub mod Laws
use mathlib.Core.List.{foldl}
use mathlib.Core.Option
use greenline.Base.{
  ℕ, zero, suc, ◌+◌, Bool, true, false, ◌&&◌, Option, none, some, List, [], ◌∷◌, ◌++◌, map, reverse,
  Text, is_empty, ltb, leb, ◌*◌, nat_eq, if◌then◌else◌, length, take, last, select, before, Table,
  lookup, insert, erase, erase_where, ◌≡◌,
}
use greenline.Kv.Like.{like_prefix}

-- `json.dumps({"value": v})` and `json.loads(text).get("value")`
pub record Json : Type 1 where
  pub Value : Type 0
  pub dumps : Value → Text
  pub loads : Text → Value

pub record IsLawful (J : Json) : Type 0 where
  pub loads-dumps : (v : J.Value) → J.loads (J.dumps v) ≡ v
  pub dumps_nonempty : (v : J.Value) → is_empty (J.dumps v) ≡ false

-- The columns `value` and `ttl`; the key is the table's.
pub record Row : Type 0 where
  pub value : Text
  pub ttl : Option ℕ

-- `self.conn` as its table, and the rows that `put_cached` has collected.
pub record Kv : Type 0 where
  pub table : Table Row
  pub cache_values : List (Text × Row)
  pub cache_row_count : ℕ

abbrev pub init : Kv
init = record { table = []; cache_values = []; cache_row_count = 0 }

-- A missing ttl and a ttl of 0 are both no ttl.
unfoldable pub expiry : ℕ → Option ℕ → Option ℕ
expiry now none = none
expiry now (some zero) = none
expiry now (some (suc s)) = some (now + suc s)

-- `ttl IS NULL OR ttl > now`
abbrev pub ttl_alive : ℕ → Option ℕ → Bool
ttl_alive now none = true
ttl_alive now (some t) = ltb now t

abbrev pub is_live : ℕ → Row → Bool
is_live now r = ttl_alive now r.ttl

-- `if not result`: no row, or a row with an empty text
abbrev pub row_text : ℕ → Option Row → Option Text
row_text now none = none
row_text now (some r) =
    if is_live now r then (if is_empty r.value then none else some r.value) else none

abbrev order_value : Text × Row → List (Text × Row) → List (Text × Row)
order_value r [] = r ∷ []
order_value r (x ∷ rows) =
    let rest = order_value r rows in if before x.1.value r.1.value then x ∷ rest else r ∷ x ∷ rows

-- `ORDER BY value`
abbrev pub sort_by_value : List (Text × Row) → List (Text × Row)
sort_by_value [] = []
sort_by_value (r ∷ rows) = order_value r (sort_by_value rows)

-- The conditions of `get_partial_page` on a row.
abbrev pub past_cursor : Option Text → Bool → Text → Bool
past_cursor none backwards key = true
past_cursor (some c) backwards key = if backwards then before key c else before c key

abbrev pub selected : Text → ℕ → Text × Row → Bool
selected beginning now r = like_prefix beginning r.0 && is_live now r.1

-- The rows that `ORDER BY key` gives, in either direction.
abbrev pub ordered : Bool → Table Row → Table Row
ordered backwards rows = if backwards then reverse rows else rows

module _ (J : Json) where
  open J use {Value, dumps, loads}

  unfoldable pub put : ℕ → Text → Value → Option ℕ → Kv → Kv
  unfolding expiry
  put now key value ttl_seconds kv = record kv {
    table = insert key (record { value = dumps value; ttl = expiry now ttl_seconds }) kv.table;
  }

  -- The default is also stored, with no ttl, if `save_default_if_not_set`.
  get_found : ℕ → Text → Value → Bool → Kv → Option Text → Value × Kv
  get_found now key default save kv none =
      if save then (default, put now key default none kv) else (default, kv)
  get_found now key default save kv (some t) = (loads t, kv)

  -- `get` with a default that is no stored value: `none` is that default.
  unfoldable pub get_value : ℕ → Text → Kv → Option Value
  get_value now key kv = Option.map loads (row_text now (lookup key kv.table))

  unfoldable pub get : ℕ → Text → Value → Bool → Kv → Value × Kv
  unfolding get_found
  get now key default save_default_if_not_set kv =
      get_found now key default save_default_if_not_set kv (row_text now (lookup key kv.table))

  abbrev pub decoded : Text × Row → Text × Value
  decoded r = (r.0, loads r.1.value)

  unfoldable pub get_partial : ℕ → Text → Kv → List (Text × Value)
  get_partial now beginning kv =
      map decoded (sort_by_value (select (selected beginning now) kv.table))

  abbrev pub Page : Type 0
  Page = record { results : List (Text × Value); next_cursor : Option Text }

  -- `results[-1][0] if len(results) == page_size else None`; `none` is the IndexError of a page
  -- size of 0.
  abbrev pub next_page : ℕ → List (Text × Value) → Option (Text × Value) → Option Page
  next_page page_size results none =
      if nat_eq (length results) page_size
      then none
      else some (record { results = results; next_cursor = none })
  next_page page_size results (some r) =
      if nat_eq (length results) page_size
      then some (record { results = results; next_cursor = some r.0 })
      else some (record { results = results; next_cursor = none })

  unfoldable pub get_partial_page : ℕ → Text → ℕ → Option Text → Bool → Kv → Option Page
  get_partial_page now beginning page_size cursor backwards kv =
      let rows = take page_size (
        ordered backwards
          (select (λ r. selected beginning now r && past_cursor cursor backwards r.0) kv.table)) in
      let results = map decoded rows in next_page page_size results (last results)

  unfoldable pub put_cached : ℕ → Text → Value → Option ℕ → Kv → Kv
  unfolding expiry
  put_cached now key value ttl_seconds kv = record kv {
    cache_values =
        kv.cache_values
        ++ ((key, record { value = dumps value; ttl = expiry now ttl_seconds }) ∷ []);
    cache_row_count = kv.cache_row_count + 1;
  }

unfoldable pub delete : Text → Kv → Kv
delete key kv = record kv { table = erase key kv.table }

unfoldable pub delete_partial : Text → Kv → Kv
delete_partial beginning kv = record kv { table = erase_where (like_prefix beginning) kv.table }

abbrev pub insert_all : Table Row → List (Text × Row) → Table Row
insert_all = foldl (λ t r. insert r.0 r.1 t)

-- One INSERT with `cache_row_count` groups of three placeholders for the values of `cache_values`; `none`
-- is SQLite's error where there are more placeholders than the limit of its build allows
-- (SQLITE_MAX_VARIABLE_NUMBER, the parameter `max_variables`), or not as many as values.
commit_rows : ℕ → Kv → List (Text × Row) → Option Kv
commit_rows max_variables kv [] = some kv
commit_rows max_variables kv (r ∷ rows) =
    if leb (3 * kv.cache_row_count) max_variables && nat_eq (length (r ∷ rows)) kv.cache_row_count
    then some
        (record { table = insert_all kv.table (r ∷ rows); cache_values = []; cache_row_count = 0 })
    else none

unfoldable pub commit_cached : ℕ → Kv → Option Kv
unfolding commit_rows
commit_cached max_variables kv = commit_rows max_variables kv kv.cache_values
