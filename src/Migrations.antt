-- ===== src/Migrations.antt =====
-- src/greenline/storage_migrations.py: the version of the store's schema, and what brings an older store
-- up to it. `json` is a parameter; its values are the nested dicts and lists of `Dyn`.
pub mod Rows
pub mod Removal
pub mod Pages
pub mod Clean
pub mod Versions
use mathlib.Core.Option
use greenline.Base.{
  ℕ, zero, suc, Bool, true, false, not, ◌&&◌, Option, none, some, List, [], ◌∷◌, Text, codes, ◌==◌,
  any, length, ltb, leb, if◌then◌else◌,
}
use greenline.Contracts
use greenline.Contracts.{KvError, Codec, Result, raised, ok}
use greenline.Dyn.{Dyn, Fields}
use greenline.Keys.{schema_version_key}
use greenline.Kv
use greenline.Kv.{Kv, Json, Page, put_cached, get_partial_page, commit_cached}
use greenline.Models.{Record}

-- The texts of values, `json.dumps` and `json.loads`, and how many variables a statement of this build of
-- SQLite may have.
pub record Encoding : Type 0 where
  pub dumps : Dyn → Text
  pub loads : Text → Dyn
  pub max_variables : ℕ

abbrev pub json : Encoding → Json
json E = record { Value = Dyn; dumps = E.dumps; loads = E.loads }

abbrev pub obsolete_message_fields : List Text
obsolete_message_fields = codes "reply_to_sender" ∷ codes "sender_name" ∷ codes "sender_photo" ∷ []

-- `name in value` and `value.pop(name, None)` at the fields of a dict
unfoldable pub has_field : Text → Fields → Bool
has_field name Fields.end = false
has_field name (Fields.field k v fs) =
    let rest = has_field name fs in if k == name then true else rest

unfoldable pub pop_field : Text → Fields → Fields
pop_field name Fields.end = Fields.end
pop_field name (Fields.field k v fs) =
    let rest = pop_field name fs in if k == name then rest else Fields.field k v rest

unfoldable pub pop_fields : List Text → Fields → Fields
pop_fields [] fs = fs
pop_fields (name ∷ names) fs = pop_fields names (pop_field name fs)

-- A value that is a dict with one of the fields; only such a value is written again.
unfoldable pub has_any : List Text → Dyn → Bool
has_any names (Dyn.obj fs) = any (λ name. has_field name fs) names
has_any names _ = false

unfoldable pub updated_value : List Text → Dyn → Dyn
updated_value names (Dyn.obj fs) = Dyn.obj (pop_fields names fs)
updated_value names d = d

-- How `run_storage_migrations` ends: at the latest version, by the RuntimeError that names the stored
-- version, by an error of the typed store, or by an error of a migration.
pub data Run : Type 0 where
  migrated : Kv → Run
  too_new : ℕ → Run
  store_error : KvError → Run
  failed : Run

module _ (E : Encoding) (now : ℕ) where
  -- The loop over the rows of a page: those that change are collected.
  unfoldable pub put_changed : List Text → List (Text × Dyn) → Kv → Kv
  put_changed names [] kv = kv
  put_changed names ((key, value) ∷ rows) kv =
      if has_any names value
      then put_changed names rows (put_cached (json E) now key (updated_value names value) none kv)
      else put_changed names rows kv

  abbrev wrote_changes : List Text → List (Text × Dyn) → Bool
  wrote_changes names rows = any (λ row. has_any names row.1) rows

  unfoldable pub write_page : List Text → List (Text × Dyn) → Kv → Option Kv
  unfolding put_changed
  write_page names rows kv =
      if wrote_changes names rows
      then commit_cached E.max_variables (put_changed names rows kv)
      else some (put_changed names rows kv)

  abbrev pub then_next : (Text → Kv → Option Kv) → Option Text → Option Kv → Option Kv
  then_next next cursor none = none
  then_next next none (some kv) = some kv
  then_next next (some c) (some kv) = next c kv

  abbrev pub after_page :
      (Text → Kv → Option Kv) → List Text → Kv → Option (Page (json E)) → Option Kv
  after_page next names kv none = none
  after_page next names kv (some page) =
      then_next next page.next_cursor (write_page names page.results kv)

  -- The loop of both migrations, over pages of 50 rows; `none` is an error of SQLite, or fuel that ran
  -- out, of which each page takes one.
  unfoldable pub remove_fields : List Text → ℕ → Option Text → Kv → Option Kv
  remove_fields names zero cursor kv = none
  remove_fields names (suc fuel) cursor kv =
      after_page (λ c kv'. remove_fields names fuel (some c) kv') names kv
        (get_partial_page (json E) now (codes "message:") 50 cursor false kv)

  abbrev pub initialize_storage_schema : Kv → Option Kv
  initialize_storage_schema kv = some kv

  unfoldable pub remove_gallery_images_field : ℕ → Kv → Option Kv
  remove_gallery_images_field fuel kv = remove_fields (codes "images" ∷ []) fuel none kv

  unfoldable pub remove_legacy_ui_message_fields : ℕ → Kv → Option Kv
  remove_legacy_ui_message_fields fuel kv = remove_fields obsolete_message_fields fuel none kv

  unfoldable pub migrations : ℕ → List (Kv → Option Kv)
  migrations fuel =
      initialize_storage_schema
      ∷ remove_gallery_images_field fuel
      ∷ remove_legacy_ui_message_fields fuel
      ∷ []

  module _ (C : Codec (json E)) where
    abbrev pub version_of : Option Record → ℕ
    version_of (some (Record.schema_version v)) = v
    version_of _ = 0

    stored : Result Kv → (Kv → Run) → Run
    stored (raised problem) next = store_error problem
    stored (ok kv) next = next kv

    -- A migration that has run, and the version after it.
    after_migration : ℕ → Option Kv → (Kv → Run) → Run
    unfolding stored
    after_migration version none next = failed
    after_migration version (some kv) next =
        stored
          (Contracts.put_record (json E) C now schema_version_key (Record.schema_version version)
            none kv)
          next

    -- `for version, migration in enumerate(MIGRATIONS, start=1)`, from a version on
    run_from : ℕ → ℕ → List (Kv → Option Kv) → Kv → Run
    unfolding after_migration
    run_from version current_version [] kv = migrated kv
    run_from version current_version (m ∷ ms) kv =
        if leb version current_version
        then run_from (suc version) current_version ms kv
        else after_migration version (m kv) (λ kv'. run_from (suc version) version ms kv')

    run_at : ℕ → List (Kv → Option Kv) → Kv → Run
    unfolding run_from
    run_at current_version ms kv =
        if ltb (length ms) current_version
        then too_new current_version
        else run_from 1 current_version ms kv

    run_stored : ℕ → Kv → Result (Option Record) → Run
    unfolding run_at
    run_stored fuel kv (raised problem) = store_error problem
    run_stored fuel kv (ok r) = run_at (version_of r) (migrations fuel) kv

    unfoldable pub run_storage_migrations : ℕ → Kv → Run
    unfolding run_stored
    run_storage_migrations fuel kv =
        run_stored fuel kv (
          Contracts.get_record (json E) C now schema_version_key (some (Record.schema_version 0))
            kv)
