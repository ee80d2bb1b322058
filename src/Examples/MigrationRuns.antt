-- ===== src/Examples/MigrationRuns.antt =====
-- The theorems on src/greenline/storage_migrations.py at a store with one message.
use greenline.Base.{
  ◌≡◌, refl, Option, none, some, [], ◌∷◌, arith, codes, ◌==◌, All, map, before, lookup, insert,
  starts_with,
}
use greenline.Contracts.{Codec, RecordType, record_type, contract_for, get_record, same_type}
use greenline.Contracts.Laws.{IsCodec}
use greenline.Dyn.{Dyn, Fields}
use greenline.Examples.DynTexts.{tagged, tagged-IsLawful}
use greenline.Keys.{schema_version_key}
use greenline.Kv.{Kv, init, put, get_value}
use greenline.Migrations.{json, remove_fields, run_storage_migrations, migrated, too_new}
use greenline.Migrations.Clean.{IsClean, remove_fields-IsClean}
use greenline.Migrations.Removal.{stripped}
use greenline.Migrations.Versions.{HasVersion, run_newer, run_storage_migrations-latest}
use greenline.Models.{Record}

abbrev message : Dyn
message = Dyn.obj (
    Fields.field (codes "text") (Dyn.str (codes "hi")) (
      Fields.field (codes "images") (Dyn.num 1)
        (Fields.field (codes "sender_name") (Dyn.str (codes "Ann")) Fields.end)))

abbrev old : Kv
old = record init {
  table = (codes "message:a", record { value = tagged.dumps message; ttl = some 500 }) ∷ [];
}

remove_fields-IsClean_example :
    (remove_fields tagged 100 (codes "images" ∷ []) 9 none old
      ≡ some (record old { table = map (stripped tagged 100 (codes "images" ∷ [])) old.table }))
    × All
        (IsClean tagged tagged-IsLawful 100 (codes "images" ∷ []))
        (map (stripped tagged 100 (codes "images" ∷ [])) old.table)
remove_fields-IsClean_example =
    remove_fields-IsClean tagged tagged-IsLawful 100 (codes "images" ∷ []) 9 old (omega arith) refl
      refl (tt, tt) (omega arith)

-- The records of the example: versions of the schema.
abbrev IsVersion : Record → Type 0
IsVersion (Record.schema_version n) = Unit
IsVersion _ = ⊥

abbrev version_payload : Record → Dyn
version_payload (Record.schema_version n) =
    Dyn.obj (Fields.field (codes "value") (Dyn.num n) Fields.end)
version_payload _ = Dyn.null

abbrev as_version : Dyn → Option Record
as_version (Dyn.num n) = some (Record.schema_version n)
as_version _ = none

abbrev version_record : RecordType → Dyn → Option Record
version_record RecordType.schema_version (Dyn.obj (Fields.field k v fs)) = as_version v
version_record _ _ = none

abbrev first_value : Dyn → Dyn
first_value (Dyn.obj (Fields.field k v fs)) = v
first_value d = d

abbrev versions : Codec (json tagged)
versions = record {
  payload = version_payload;
  from_dict = version_record;
  value_field = first_value;
  with_value = λ v. Dyn.obj (Fields.field (codes "value") v Fields.end);
  without_raw = λ v. v;
}

versions-keep :
    (r : Record) → IsVersion r → version_record (record_type r) (version_payload r) ≡ some r
unfolding record_type
versions-keep (Record.schema_version n) p = refl
versions-keep r p = absurd p

rewrapped :
    (r : Record)
    → IsVersion r
    → versions.with_value (versions.value_field (versions.payload r)) ≡ versions.payload r
rewrapped (Record.schema_version n) p = refl
rewrapped r p = absurd p

versions-IsCodec : IsCodec (json tagged) versions IsVersion
versions-IsCodec = record {
  from_dict-payload = versions-keep;
  with_value-value_field = λ r p h. rewrapped r p;
  from_dict-without_raw = λ m p h. absurd p;
}

abbrev newer : Kv
newer = put (json tagged) 0 schema_version_key (Dyn.num 7) none old

run_newer_example : run_storage_migrations tagged 100 versions 9 newer ≡ too_new 7
unfolding contract_for starts_with ◌==◌ schema_version_key lookup put get_record get_value insert
    before greenline.Contracts.decode_value
run_newer_example = run_newer tagged 100 versions 7 9 newer refl (omega arith)

run_storage_migrations-latest_example :
    (kv' : Kv) × (run_storage_migrations tagged 100 versions 9 old ≡ migrated kv')
    × HasVersion tagged 100 versions 3 kv'
    × (run_storage_migrations tagged 100 versions 0 kv' ≡ migrated kv')
unfolding contract_for starts_with ◌==◌ schema_version_key lookup get_record get_value same_type
    record_type
run_storage_migrations-latest_example =
    run_storage_migrations-latest tagged 100 versions IsVersion versions-IsCodec tagged-IsLawful
      (λ n. tt) 0 9 0 old (omega arith) refl (omega arith) refl refl (tt, tt) (omega arith)
