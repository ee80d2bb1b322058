-- ===== src/Contracts/Refinement.antt =====
-- The typed store of src/greenline/contracts/kv.py and the plain table of records over which the components
-- above it are written.
use mathlib.Core.Option
use mathlib.Core.Path.{subst}
use greenline.Base.{
  ◌≡◌, refl, sym, ap, Bool, none, some, [], ◌∷◌, Text, ◌==◌, ℕ, All, Table, lookup, insert, erase,
  erase_where, before, Bool-cases, Option-cases, inl, inr, eq_sound,
}
use greenline.Models.{Record}
use greenline.Kv
use greenline.Kv.{Kv, Json, Row, IsLawful, get_value, put, delete, expiry}
use greenline.Contracts.{
  record_type, KvContract, contract_for, Codec, Result, ok, raised, stored_form, put_record,
  get_record, delete_record,
}
use greenline.Contracts.Families.{type_of_key, contract_for-fits}
use greenline.Contracts.Laws.{
  IsCodec, put_record-ok, decode_value-stored_form, bind_ok, ok_injective,
}

-- The records of the store by their keys.
abbrev pub Store : Type 0
Store = Table Record

abbrev pub IsTyped : Text × Record → Type 0
IsTyped e = type_of_key e.0 ≡ some (record_type e.1)

module _ {ℓ κ} {A : Type ℓ} {B : Type κ} (f : Text → A → B) where
  abbrev map_rows : Table A → Table B
  map_rows [] = []
  map_rows ((k, v) ∷ t) = (k, f k v) ∷ map_rows t

  insert-map_rows :
      (k : Text) (v : A) (t : Table A) → insert k (f k v) (map_rows t) ≡ map_rows (insert k v t)
  unfolding insert
  insert-map_rows k v [] = refl
  insert-map_rows k v ((j, w) ∷ t) = elim (Bool-cases (j == k)) [
    | inl e ↦ rw e
    | inr n ↦ elim (Bool-cases (before k j)) [
      | inl b ↦ rw (n, b)
      | inr b ↦ rw (n, b) (ap (◌∷◌ (j, f j w)) (insert-map_rows k v t))
    ]
  ]

  erase_where-map_rows :
      (p : Text → Bool) (t : Table A) → erase_where p (map_rows t) ≡ map_rows (erase_where p t)
  unfolding erase_where
  erase_where-map_rows p [] = refl
  erase_where-map_rows p ((j, w) ∷ t) = elim (Bool-cases (p j)) [
    | inl e ↦ rw e (erase_where-map_rows p t)
    | inr n ↦ rw n (ap (◌∷◌ (j, f j w)) (erase_where-map_rows p t))
  ]

  lookup-map_rows : (k : Text) (t : Table A) → lookup k (map_rows t) ≡ Option.map (f k) (lookup k t)
  unfolding lookup
  lookup-map_rows k [] = refl
  lookup-map_rows k ((j, w) ∷ t) = elim (Bool-cases (j == k)) [
    | inl e ↦ rw (e, eq_sound j k e)
    | inr n ↦ rw n (lookup-map_rows k t)
  ]

module _ {ℓ} {A : Type ℓ} (P : Text × A → Type 0) where
  All-insert : (k : Text) (v : A) (t : Table A) → P (k, v) → All P t → All P (insert k v t)
  unfolding insert
  All-insert k v [] p all = (p, tt)
  All-insert k v ((j, w) ∷ t) p all = elim (Bool-cases (j == k)) [
    | inl e ↦ rw e (p, all.1)
    | inr n ↦ elim (Bool-cases (before k j)) [
      | inl b ↦ rw (n, b) (p, all)
      | inr b ↦ rw (n, b) (all.0, All-insert k v t p all.1)
    ]
  ]

  All-erase_where : (p : Text → Bool) (t : Table A) → All P t → All P (erase_where p t)
  unfolding erase_where
  All-erase_where p [] all = tt
  All-erase_where p ((j, w) ∷ t) all = elim (Bool-cases (p j)) [
    | inl e ↦ rw e (All-erase_where p t all.1)
    | inr n ↦ rw n (all.0, All-erase_where p t all.1)
  ]

  All-lookup : (k : Text) (v : A) (t : Table A) → All P t → lookup k t ≡ some v → P (k, v)
  unfolding lookup
  All-lookup k v [] all h = absurd (cc h)
  All-lookup k v ((j, w) ∷ t) all h = elim (Bool-cases (j == k)) [
    | inl e ↦
        let found : some w ≡ some v = rw e at h in
        let same : w ≡ v = cc in rw (← same, ← eq_sound j k e) (all.0)
    | inr n ↦ All-lookup k v t all.1 (rw n at h)
  ]

module _ (J : Json) (C : Codec J) (P : Record → Type 0) where
  abbrev form_at : Result KvContract → Record → J.Value
  form_at (ok c) r = stored_form J C c.storage r
  form_at (raised e) r = C.payload r

  -- The row that a record is stored as.
  abbrev row_of : Text → Record → Row
  row_of k r = record { value = J.dumps (form_at (contract_for k) r); ttl = none }

  pub record Represents (kv : Kv) (s : Store) : Type 0 where
    pub rows : kv.table ≡ map_rows row_of s
    pub typed : All IsTyped s
    pub kept : All (λ e. P e.1) s

module _ (J : Json) (C : Codec J) (P : Record → Type 0) (lawful : IsLawful J)
    (L : IsCodec J C P) where
  -- A write that succeeds is an insert of the record.
  pub put_record-Represents :
      (now : ℕ) (k : Text) (r : Record) (kv kv' : Kv) (s : Store)
      → Represents J C P kv s
      → P r
      → put_record J C now k r none kv ≡ ok kv'
      → Represents J C P kv' (insert k r s)
  unfolding put expiry
  put_record-Represents now k r kv kv' s h q written =
      let (c, known, same, e) = put_record-ok J C P L now k r none kv kv' written in
      record {
        rows =
            rw (e, h.rows)
              (subst
                (λ x.
                  insert k (record { value = J.dumps (form_at J C P x r); ttl = none })
                    (map_rows (row_of J C P) s)
                  ≡ map_rows (row_of J C P) (insert k r s))
                known (insert-map_rows (row_of J C P) k r s));
        typed = All-insert IsTyped k r s (rw known (ap some (sym same))) h.typed;
        kept = All-insert (λ e. P e.1) k r s q h.kept;
      }

  -- A read of a key that has a contract is a lookup.
  pub get_record-Represents :
      (now : ℕ) (k : Text) (c : KvContract) (kv : Kv) (s : Store)
      → Represents J C P kv s
      → contract_for k ≡ ok c
      → get_record J C now k none kv ≡ ok (lookup k s)
  unfolding get_record get_value
  get_record-Represents now k c kv s h known =
      rw (h.rows, lookup-map_rows (row_of J C P) k s, known)
        (elim (Option-cases (lookup k s)) [
          | inl e ↦ rw e
          | inr (r, e) ↦
              let typed : some c.record_type ≡ some (record_type r) =
                rw known at (All-lookup IsTyped k r s h.typed e) in
              let same : record_type r ≡ c.record_type = cc in
              rw (e, known)
                (rw (lawful.dumps_nonempty (stored_form J C c.storage r)) (
                  rw (lawful.loads-dumps (stored_form J C c.storage r)) (
                    rw (
                      decode_value-stored_form J C P L c r (All-lookup (λ x. P x.1) k r s h.kept e)
                        (contract_for-fits k c known) same))))
        ])

  -- A delete of a key that has a contract is an erase.
  pub delete_record-Represents :
      (k : Text) (kv kv' : Kv) (s : Store)
      → Represents J C P kv s
      → delete_record k kv ≡ ok kv'
      → Represents J C P kv' (erase k s)
  unfolding delete_record delete erase
  delete_record-Represents k kv kv' s h deleted =
      let (c, known, e) = bind_ok (contract_for k) (λ _. ok (Kv.delete k kv)) deleted in
      record {
        rows = rw (← ok_injective e, h.rows) (erase_where-map_rows (row_of J C P) (λ j. j == k) s);
        typed = All-erase_where IsTyped (λ j. j == k) s h.typed;
        kept = All-erase_where (λ e. P e.1) (λ j. j == k) s h.kept;
      }
