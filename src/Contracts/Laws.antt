-- ===== src/Contracts/Laws.antt =====
-- The contracts of src/greenline/contracts/kv.py: which contract a key has, what a write refuses, and reads
-- after writes.
use greenline.Base.{
  ℕ, ◌≡◌, refl, true, Option, none, some, arith, Text, ◌==◌, Option-cases, eq_sound, if◌then◌else◌,
  Bool-cases, inl, inr, sym, ap, ◌∙◌,
}
use greenline.Models.{Record, StoredMessageRecord}
use greenline.Kv
use greenline.Kv.{Kv, Json, IsLawful, expiry}
use greenline.Kv.Laws.{get_value-put}
use greenline.Contracts.{
  RecordType, record_type, same_type, KvContract, Storage, object, scalar, contract_for, Codec,
  Result, ok, raised, stored_form, checked, unwrapped, decode_value, encode_value, put_record,
  get_record, ◌>>=◌,
}
use greenline.Contracts.Families.{
  is_value_class, fits_storage, contract_for-fits, same_type_sound, same_type_refl,
}

-- What the code relies on of dacite and of the encoding of dataclasses, for the records `P` that are
-- stored.
pub record IsCodec (J : Json) (C : Codec J) (P : Record → Type 0) : Type 0 where
  pub from_dict-payload : (r : Record) → P r → C.from_dict (record_type r) (C.payload r) ≡ some r
  pub with_value-value_field :
      (r : Record)
      → P r
      → is_value_class (record_type r) ≡ true
      → C.with_value (C.value_field (C.payload r)) ≡ C.payload r
  pub from_dict-without_raw :
      (m : StoredMessageRecord)
      → P (Record.stored_message m)
      → m.raw ≡ none
      → C.from_dict RecordType.stored_message (C.without_raw (C.payload (Record.stored_message m)))
        ≡ some (Record.stored_message m)

pub ok_injective {ℓ} : {A : Type ℓ} {a b : A} → ok a ≡ ok b → a ≡ b
ok_injective h = cc

pub bind_ok {ℓ} :
    {A B : Type ℓ} {last : B} (step : Result A) (next : A → Result B)
    → (step >>= next) ≡ ok last
    → (first : A) × (step ≡ ok first) × (next first ≡ ok last)
bind_ok (raised problem) next h = absurd (cc h)
bind_ok (ok first) next h = (first, refl, h)

module _ (J : Json) (C : Codec J) (P : Record → Type 0) (L : IsCodec J C P) where
  object_form : (r : Record) → P r → C.from_dict (record_type r) (stored_form J C object r) ≡ some r
  unfolding record_type
  object_form (Record.stored_message m) q = elim (Option-cases m.raw) [
    | inl e ↦ ground (arith, L.from_dict-without_raw m q e)
    | inr (d, e) ↦ ground (arith, L.from_dict-payload (Record.stored_message m) q)
  ]
  object_form r q = L.from_dict-payload r q

  read_back :
      (st : Storage) (t : RecordType) (r : Record)
      → P r
      → (elim st [ scalar ↦ is_value_class t | object ↦ true ]) ≡ true
      → record_type r ≡ t
      → C.from_dict t (unwrapped J C st (stored_form J C st r)) ≡ some r
  read_back scalar t r q fits same =
      rw (L.with_value-value_field r q (rw same fits)) (rw (← same) (L.from_dict-payload r q))
  read_back object t r q fits same = rw (← same) (object_form r q)

  -- What `encode_value` stores of a record, `decode_value` reads back as that record.
  pub decode_value-stored_form :
      (c : KvContract) (r : Record)
      → P r
      → fits_storage c ≡ true
      → record_type r ≡ c.record_type
      → decode_value J C c (stored_form J C c.storage r) ≡ ok r
  unfolding decode_value
  decode_value-stored_form c r q fits same = rw (read_back c.storage c.record_type r q fits same)

  checked-ok :
      (c : KvContract) (r : Record) (o : Option Record) (v : J.Value)
      → checked J C c r o ≡ ok v
      → v ≡ stored_form J C c.storage r
  checked-ok c r none v h = absurd (cc h)
  checked-ok c r (some _) v h = sym (ok_injective h)

  encode_value-ok :
      (c : KvContract) (r : Record) (v : J.Value)
      → encode_value J C c r ≡ ok v
      → (record_type r ≡ c.record_type) × (v ≡ stored_form J C c.storage r)
  unfolding encode_value
  encode_value-ok c r v h = elim (Bool-cases (same_type (record_type r) c.record_type)) [
    | inl e ↦
        let same = same_type_sound (record_type r) c.record_type e in
        (same, checked-ok c r (C.from_dict c.record_type (C.payload r)) v (rw e at h))
    | inr n ↦ ground arith
  ]

  abbrev Written : ℕ → Text → Record → Option ℕ → Kv → Kv → Type 0
  Written now k r ttl kv kv' =
      (c : KvContract) × (contract_for k ≡ ok c)
      × (record_type r ≡ c.record_type)
      × (kv' ≡ Kv.put J now k (stored_form J C c.storage r) ttl kv)

  -- What a write that succeeds has checked and done.
  pub put_record-ok :
      (now : ℕ) (k : Text) (r : Record) (ttl : Option ℕ) (kv kv' : Kv)
      → put_record J C now k r ttl kv ≡ ok kv'
      → Written now k r ttl kv kv'
  unfolding put_record
  put_record-ok now k r ttl kv kv' h =
      let (c, known, rest) = bind_ok (contract_for k) _ h in
      let (v, encoded, written) = bind_ok (encode_value J C c r) _ rest in
      let (same, form) = encode_value-ok c r v encoded in
      (c, known, same, sym (ok_injective written) ∙ ap (λ w. Kv.put J now k w ttl kv) form)

  -- A read after a write returns the record that was written, at its key, and what it returned before
  -- at every other key. (The written record is kept without a lifetime, as all callers do.)
  pub get_record-put_record :
      (now later : ℕ) (k j : Text) (r : Record) (d : Option Record) (kv kv' : Kv)
      → IsLawful J
      → P r
      → put_record J C now k r none kv ≡ ok kv'
      → get_record J C later j d kv' ≡ (if k == j then ok (some r) else get_record J C later j d kv)
  unfolding get_record
  get_record-put_record now later k j r d kv kv' lawful q h =
      let (c, known, same, e) = put_record-ok now k r none kv kv' h in
      rw (e, get_value-put J lawful now later k j)
        (elim (Bool-cases (k == j)) [
          | inl here ↦
              let at : j ≡ k = sym (eq_sound k j here) in
              rw (here, at, known)
                (unfold expiry in
                  rw (decode_value-stored_form c r q (contract_for-fits k c known) same))
          | inr there ↦ rw there
        ])

  -- A record of the class of its key is written.
  pub put_record-accepted :
      (now : ℕ) (k : Text) (r : Record) (ttl : Option ℕ) (kv : Kv) (c : KvContract)
      → contract_for k ≡ ok c
      → record_type r ≡ c.record_type
      → P r
      → put_record J C now k r ttl kv ≡ ok (Kv.put J now k (stored_form J C c.storage r) ttl kv)
  unfolding put_record encode_value
  put_record-accepted now k r ttl kv c known same q =
      let accepted : same_type (record_type r) c.record_type ≡ true =
        rw same (same_type_refl c.record_type) in
      let decodes : C.from_dict c.record_type (C.payload r) ≡ some r =
        rw (← same) (L.from_dict-payload r q) in
      rw (known, accepted, decodes) refl
