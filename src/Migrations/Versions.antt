-- ===== src/Migrations/Versions.antt =====
-- `run_storage_migrations` of src/greenline/storage_migrations.py: which migrations run, the version that
-- is stored, and the store of a newer program.
use greenline.Base.{
  ℕ, suc, ◌+◌, ◌≤◌, ◌<◌, ◌≡◌, refl, sym, ◌∙◌, false, Option, none, some, List, [], ◌∷◌, arith, Text,
  codes, length, ltb, leb, All, Table, Ascending, insert, insert-Ascending, Bool-cases, inl, inr,
  if◌then◌else◌, eq_refl,
}
use greenline.Contracts.{Codec, record_type, ok, put_record, get_record}
use greenline.Contracts.Families.{contract_for-schema_version}
use greenline.Contracts.Laws.{IsCodec, get_record-put_record, put_record-accepted}
use greenline.Keys.{schema_version_key}
use greenline.Kv.{Kv, IsLawful, put}
use greenline.Kv.Rows.{length-map}
use greenline.Models.{Record}
use greenline.Migrations.{
  Encoding, json, obsolete_message_fields, remove_fields, remove_gallery_images_field,
  remove_legacy_ui_message_fields, migrations, Run, migrated, too_new, stored, after_migration,
  run_from, run_at, run_stored, run_storage_migrations,
}
use greenline.Migrations.Pages.{remove_fields_exact}
use greenline.Migrations.Removal.{stripped, stripped-Ascending}

length-insert :
    {A : Type 0} (k : Text) (v : A) (t : Table A) → length (insert k v t) ≤ suc (length t)
unfolding insert
length-insert k v [] = omega arith
length-insert k v ((j, w) ∷ t) = ground (arith, length-insert k v t)

module _ (E : Encoding) (now : ℕ) (C : Codec (json E)) where
  -- The version that the store has.
  abbrev pub HasVersion : ℕ → Kv → Type 0
  HasVersion n kv =
      get_record (json E) C now schema_version_key (some (Record.schema_version 0)) kv
      ≡ ok (some (Record.schema_version n))

  run-HasVersion :
      (n fuel : ℕ) (kv : Kv)
      → HasVersion n kv
      → run_storage_migrations E now C fuel kv ≡ run_at E now C n (migrations E now fuel) kv
  unfolding run_storage_migrations run_stored
  run-HasVersion n fuel kv h = rw h refl

  -- A store of a newer version is refused by an error with that version; one of the latest version is
  -- left as it is. Nothing runs in either case, and both hold whatever the fuel.
  pub run_newer :
      (n fuel : ℕ) (kv : Kv)
      → HasVersion n kv
      → 3 ≤ n
      → run_storage_migrations E now C fuel kv ≡ (if ltb 3 n then too_new n else migrated kv)
  unfolding run_at run_from migrations
  run_newer n fuel kv h le = run-HasVersion n fuel kv h ∙ elim (Bool-cases (ltb 3 n)) [
    | inl e ↦ rw e refl
    | inr e ↦ let latest : n ≡ 3 = ground arith in rw latest refl
  ]

  -- Nothing is collected, and there is fuel for every row and `k` more.
  record IsReady (fuel k : ℕ) (kv : Kv) : Type 0 where
    none_cached : kv.cache_values ≡ []
    none_counted : kv.cache_row_count ≡ 0
    ascending : Ascending kv.table
    small : length kv.table + k < fuel

  abbrev IsGood : ℕ → (Kv → Option Kv) → Type 0
  IsGood fuel m =
      (k : ℕ) (kv : Kv) → IsReady fuel k kv → (kv' : Kv) × (m kv ≡ some kv') × IsReady fuel k kv'

  remove_fields-IsGood :
      (names : List Text) (fuel : ℕ)
      → 150 ≤ E.max_variables
      → IsGood fuel (remove_fields E now names fuel none)
  remove_fields-IsGood names fuel fit k kv r = (
    _,
    remove_fields_exact E now names fuel kv fit r.none_cached r.none_counted r.ascending
        (omega (arith, r.small)),
    record {
      none_cached = r.none_cached;
      none_counted = r.none_counted;
      ascending = stripped-Ascending E now names kv.table r.ascending;
      small = rw (length-map (stripped E now names) kv.table) r.small;
    },
  )

  migrations-AreGood :
      (fuel : ℕ) → 150 ≤ E.max_variables → All (IsGood fuel) (migrations E now fuel)
  unfolding migrations remove_gallery_images_field remove_legacy_ui_message_fields
  migrations-AreGood fuel fit = (
    λ k kv r. (kv, refl, r),
    (
      remove_fields-IsGood (codes "images" ∷ []) fuel fit,
      (remove_fields-IsGood obsolete_message_fields fuel fit, tt),
    ),
  )

  module _ (P : Record → Type 0) (K : IsCodec (json E) C P) (L : IsLawful (json E))
      (typed : (n : ℕ) → P (Record.schema_version n)) where
    record Versioned (fuel k version : ℕ) (kv kv' : Kv) : Type 0 where
      written :
          put_record (json E) C now schema_version_key (Record.schema_version version) none kv
          ≡ ok kv'
      ready : IsReady fuel k kv'
      version_kept : HasVersion version kv'

    put_version :
        (fuel k version : ℕ) (kv : Kv)
        → IsReady fuel (suc k) kv
        → (kv' : Kv) × Versioned fuel k version kv kv'
    unfolding record_type put
    put_version fuel k version kv r =
        let (c, known, class) = contract_for-schema_version in
        let written =
          put_record-accepted (json E) C P K now schema_version_key (Record.schema_version version)
            none kv c known (sym class) (typed version) in
        (
          _,
          record {
            written = written;
            ready = record {
              none_cached = r.none_cached;
              none_counted = r.none_counted;
              ascending = insert-Ascending schema_version_key _ kv.table r.ascending;
              small = omega (arith, r.small, length-insert schema_version_key _ kv.table);
            };
            version_kept =
                get_record-put_record (json E) C P K now now schema_version_key schema_version_key
                  (Record.schema_version version) (some (Record.schema_version 0)) kv _ L
                  (typed version) written
                ∙ rw (eq_refl schema_version_key) refl;
          },
        )

    -- How the loop ends.
    record Ends (last : ℕ) (run : Run) : Type 0 where
      kv : Kv
      done : run ≡ migrated kv
      version : HasVersion last kv

    run_from-Ends :
        (fuel version current_version last : ℕ) (ms : List (Kv → Option Kv)) (kv : Kv)
        → version + length ms ≡ suc last
        → version ≤ suc current_version
        → current_version ≤ last
        → HasVersion current_version kv
        → IsReady fuel (length ms) kv
        → All (IsGood fuel) ms
        → Ends last (run_from E now C version current_version ms kv)
    unfolding run_from after_migration stored
    run_from-Ends fuel version current last [] kv e le ge h r good =
        let same : current ≡ last = omega (arith, e, le, ge) in
        record { kv = kv; done = refl; version = rw same at h }
    run_from-Ends fuel version current last (m ∷ ms) kv e le ge h r (g, good) =
        elim (Bool-cases (leb version current)) [
          | inl skip ↦
              let enough : length kv.table + length ms < fuel = omega (arith, r.small) in
              rw skip (
                run_from-Ends fuel (suc version) current last ms kv (omega (arith, e))
                  (ground (arith, skip)) ge h
                  (record {
                    none_cached = r.none_cached;
                    none_counted = r.none_counted;
                    ascending = r.ascending;
                    small = enough;
                  })
                  good)
          | inr runs ↦
              let next : version ≤ last = omega (arith, e) in
              let (kv1, ran, r1) = g (suc (length ms)) kv r in
              let (kv2, v) = put_version fuel (length ms) version kv1 r1 in
              rw (runs, ran, v.written)
                (run_from-Ends fuel (suc version) version last ms kv2 (omega (arith, e))
                  (omega arith) next v.version_kept v.ready good)
        ]

    -- A store of the latest version or an older one, where SQLite allows the 150 variables of a page in a
    -- statement, with fuel for every row and the migrations' own
    -- record: the run ends without an error at a store of the latest version, which another run, at the
    -- same time and whatever its fuel, leaves as it is.
    pub run_storage_migrations-latest :
        (n fuel again : ℕ) (kv : Kv)
        → 150 ≤ E.max_variables
        → HasVersion n kv
        → n ≤ 3
        → kv.cache_values ≡ []
        → kv.cache_row_count ≡ 0
        → Ascending kv.table
        → length kv.table + 3 < fuel
        → (kv' : Kv) × (run_storage_migrations E now C fuel kv ≡ migrated kv')
          × HasVersion 3 kv'
          × (run_storage_migrations E now C again kv' ≡ migrated kv')
    unfolding run_at migrations
    run_storage_migrations-latest n fuel again kv fit h le c z s enough =
        let ready : IsReady fuel 3 kv = record {
          none_cached = c;
          none_counted = z;
          ascending = s;
          small = enough;
        } in
        let not_newer : ltb 3 n ≡ false = ground (arith, le) in
        let ends =
          run_from-Ends fuel 1 n 3 (migrations E now fuel) kv refl (omega arith) le h ready
            (migrations-AreGood fuel fit) in
        (
          ends.kv,
          run-HasVersion n fuel kv h ∙ rw not_newer ends.done,
          ends.version,
          run_newer 3 again ends.kv ends.version (omega arith),
        )
