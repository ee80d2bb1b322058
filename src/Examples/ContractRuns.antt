-- ===== src/Examples/ContractRuns.antt =====
-- The theorems on src/greenline/contracts/kv.py at a codec for drafts and for the unread total.
use greenline.Base.{
  ◌≡◌, refl, false, Option, none, some, [], ◌∷◌, Text, codes, ◌==◌, lookup, insert, erase,
  starts_with,
}
use greenline.Contracts.{
  RecordType, Codec, KvContract, scalar, record_type, contract_for, put_record, get_record,
  delete_record, ok, same_type, encode_value,
}
use greenline.Contracts.Laws.{IsCodec, get_record-put_record}
use greenline.Contracts.Refinement.{
  Store, Represents, put_record-Represents, get_record-Represents, delete_record-Represents,
}
use greenline.Keys.{unread_total_key}
use greenline.Kv.{Kv, init, put, delete, expiry}
use greenline.Models.{Record}
use greenline.Examples.{texts, texts-IsLawful}

-- The records of the example.
abbrev IsPlain : Record → Type 0
IsPlain (Record.unread_total n) = Unit
IsPlain (Record.draft t) = Unit
IsPlain _ = ⊥

abbrev plain_payload : Record → Text
plain_payload (Record.unread_total n) = n ∷ []
plain_payload (Record.draft t) = t
plain_payload _ = []

abbrev plain_record : RecordType → Text → Option Record
plain_record RecordType.unread_total (n ∷ []) = some (Record.unread_total n)
plain_record RecordType.draft t = some (Record.draft t)
plain_record _ _ = none

abbrev plain : Codec texts
plain = record {
  payload = plain_payload;
  from_dict = plain_record;
  value_field = λ v. v;
  with_value = λ v. v;
  without_raw = λ v. v;
}

plain-keeps : (r : Record) → IsPlain r → plain_record (record_type r) (plain_payload r) ≡ some r
unfolding record_type
plain-keeps (Record.unread_total n) q = refl
plain-keeps (Record.draft t) q = refl
plain-keeps r q = absurd q

plain-IsCodec : IsCodec texts plain IsPlain
plain-IsCodec = record {
  from_dict-payload = plain-keeps;
  with_value-value_field = λ r q h. refl;
  from_dict-without_raw = λ m q h. absurd q;
}

abbrev five : Record
five = Record.unread_total 5

abbrev written : Kv
written = put texts 100 unread_total_key (5 ∷ []) none init

get_record-put_record_example :
    get_record texts plain 200 unread_total_key none written ≡ ok (some five)
unfolding put_record encode_value contract_for starts_with ◌==◌ same_type record_type
    unread_total_key
get_record-put_record_example =
    get_record-put_record texts plain IsPlain plain-IsCodec 100 200 unread_total_key
      unread_total_key five none init written texts-IsLawful tt refl

empty-Represents : Represents texts plain IsPlain init []
empty-Represents = record { rows = refl; typed = tt; kept = tt }

put_record-Represents_example :
    Represents texts plain IsPlain written (insert unread_total_key five [])
unfolding put_record encode_value contract_for starts_with ◌==◌ same_type record_type
    unread_total_key
put_record-Represents_example =
    put_record-Represents texts plain IsPlain texts-IsLawful plain-IsCodec 100 unread_total_key five
      init written [] empty-Represents tt refl

abbrev total_contract : KvContract
total_contract = record {
  name = codes "unread_total";
  record_type = RecordType.unread_total;
  storage = scalar;
  prefix = false;
}

abbrev stored : Store
stored = (unread_total_key, five) ∷ []

written-Represents : Represents texts plain IsPlain written stored
unfolding put expiry insert contract_for starts_with ◌==◌ record_type unread_total_key
written-Represents = record { rows = refl; typed = (refl, tt); kept = (tt, tt) }

get_record-Represents_example :
    get_record texts plain 100 unread_total_key none written ≡ ok (some five)
unfolding contract_for starts_with ◌==◌ unread_total_key lookup
get_record-Represents_example =
    get_record-Represents texts plain IsPlain texts-IsLawful plain-IsCodec 100 unread_total_key
      total_contract written stored written-Represents refl

delete_record-Represents_example :
    Represents texts plain IsPlain (delete unread_total_key written) (erase unread_total_key stored)
unfolding delete_record contract_for starts_with ◌==◌ unread_total_key
delete_record-Represents_example =
    delete_record-Represents texts plain IsPlain texts-IsLawful plain-IsCodec unread_total_key
      written (delete unread_total_key written) stored written-Represents refl
