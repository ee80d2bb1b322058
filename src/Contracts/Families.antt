-- ===== src/Contracts/Families.antt =====
-- The contracts of src/greenline/contracts/kv.py: which one a key of each family has.
use greenline.Base.{
  ℕ, ◌≡◌, refl, Bool, true, false, Option, none, some, List, [], ◌∷◌, ◌++◌, Text, codes, ◌==◌,
  starts_with, if◌then◌else◌, nat_eq, All, Bool-cases, inl, inr, sym, ap, ◌∙◌, nat_eq_iff,
}
use greenline.Keys.{schema_version_key}
use mathlib.Core.Path.{subst}
use greenline.Contracts.{
  RecordType, type_rank, same_type, KvContract, object, scalar, kv_contracts, find_contract,
  contract_for, Result, ok, raised, matches,
}

abbrev pub found_type : Result KvContract → Option RecordType
found_type (ok c) = some c.record_type
found_type (raised e) = none

abbrev pub type_of_key : Text → Option RecordType
type_of_key key = found_type (contract_for key)

-- Every key of a family has the family's record type, whatever identifiers follow the prefix: no
-- contract is hidden by one that stands above it.
pub contract_for_families :
    (s : Text)
    → (type_of_key (codes "pending-outbox:" ++ s) ≡ some RecordType.pending_outbox)
      × (type_of_key (codes "unhandled_message:" ++ s) ≡ some RecordType.unhandled_message)
      × (type_of_key (codes "unknown_event:" ++ s) ≡ some RecordType.unknown_event)
      × (type_of_key (codes "message_index:" ++ s) ≡ some RecordType.message_index)
      × (type_of_key (codes "message:" ++ s) ≡ some RecordType.stored_message)
      × (type_of_key (codes "message_reaction:" ++ s) ≡ some RecordType.message_reaction)
      × (type_of_key (codes "chat:" ++ s) ≡ some RecordType.chat)
      × (type_of_key (codes "group_profile:" ++ s) ≡ some RecordType.group_profile)
      × (type_of_key (codes "draft_mentions:" ++ s) ≡ some RecordType.draft_mentions)
      × (type_of_key (codes "draft:" ++ s) ≡ some RecordType.draft)
      × (type_of_key (codes "lid_map:" ++ s) ≡ some RecordType.lid_map)
      × (type_of_key (codes "sticker_cache:" ++ s) ≡ some RecordType.sticker_cache)
unfolding contract_for starts_with ◌==◌
contract_for_families s = (refl, refl, refl, refl, refl, refl, refl, refl, refl, refl, refl, refl)

-- The classes whose one field is `value`.
abbrev pub is_value_class : RecordType → Bool
is_value_class RecordType.pending_outbox = false
is_value_class RecordType.unhandled_message = false
is_value_class RecordType.unknown_event = false
is_value_class RecordType.stored_message = false
is_value_class RecordType.message_reaction = false
is_value_class RecordType.chat = false
is_value_class RecordType.group_profile = false
is_value_class _ = true

-- A contract that stores a bare value is for a class with the one field `value`.
abbrev pub fits_storage : KvContract → Bool
fits_storage c = elim c.storage [ scalar ↦ is_value_class c.record_type | object ↦ true ]

find_contract-All :
    (P : KvContract → Type 0) (cs : List KvContract) (key : Text) (c : KvContract)
    → All P cs
    → find_contract cs key ≡ ok c
    → P c
unfolding find_contract
find_contract-All P [] key c all h = absurd (cc h)
find_contract-All P (d ∷ cs) key c all h = elim (Bool-cases (matches d key)) [
  | inl e ↦ let found : ok d ≡ ok c = rw e at h in let same : d ≡ c = cc in subst P same all.0
  | inr e ↦ find_contract-All P cs key c all.1 (rw e at h)
]

All-fit : All (λ d. fits_storage d ≡ true) kv_contracts
unfolding kv_contracts
All-fit = (
  refl,
  (
    refl,
    (
      refl,
      (
        refl,
        (
          refl,
          (
            refl,
            (
              refl,
              (
                refl,
                (
                  refl,
                  (
                    refl,
                    (refl, (refl, (refl, (refl, (refl, (refl, (refl, (refl, (refl, tt))))))))),
                  ),
                ),
              ),
            ),
          ),
        ),
      ),
    ),
  ),
)

pub contract_for-fits :
    (key : Text) (c : KvContract) → contract_for key ≡ ok c → fits_storage c ≡ true
unfolding contract_for
contract_for-fits key c h =
    find_contract-All (λ d. fits_storage d ≡ true) kv_contracts key c All-fit h

-- The class at a place of the list of classes.
abbrev of_rank : ℕ → RecordType
of_rank n =
    if nat_eq n 0
    then RecordType.last_event_id
    else if nat_eq n 1
    then RecordType.unread_total
    else if nat_eq n 2
    then RecordType.schema_version
    else if nat_eq n 3
    then RecordType.notifications_suppressed
    else if nat_eq n 4
    then RecordType.error_reporting
    else if nat_eq n 5
    then RecordType.stop_daemon_on_exit
    else if nat_eq n 6
    then RecordType.pending_outbox
    else if nat_eq n 7
    then RecordType.unhandled_message
    else if nat_eq n 8
    then RecordType.unknown_event
    else if nat_eq n 9
    then RecordType.message_index
    else if nat_eq n 10
    then RecordType.stored_message
    else if nat_eq n 11
    then RecordType.message_reaction
    else if nat_eq n 12
    then RecordType.chat
    else if nat_eq n 13
    then RecordType.group_profile
    else if nat_eq n 14
    then RecordType.draft_mentions
    else if nat_eq n 15
    then RecordType.draft
    else if nat_eq n 16
    then RecordType.lid_map
    else if nat_eq n 17
    then RecordType.sticker_cache
    else RecordType.own_jid

of_rank-type_rank : (a : RecordType) → of_rank (type_rank a) ≡ a
of_rank-type_rank RecordType.last_event_id = refl
of_rank-type_rank RecordType.unread_total = refl
of_rank-type_rank RecordType.schema_version = refl
of_rank-type_rank RecordType.notifications_suppressed = refl
of_rank-type_rank RecordType.error_reporting = refl
of_rank-type_rank RecordType.stop_daemon_on_exit = refl
of_rank-type_rank RecordType.pending_outbox = refl
of_rank-type_rank RecordType.unhandled_message = refl
of_rank-type_rank RecordType.unknown_event = refl
of_rank-type_rank RecordType.message_index = refl
of_rank-type_rank RecordType.stored_message = refl
of_rank-type_rank RecordType.message_reaction = refl
of_rank-type_rank RecordType.chat = refl
of_rank-type_rank RecordType.group_profile = refl
of_rank-type_rank RecordType.draft_mentions = refl
of_rank-type_rank RecordType.draft = refl
of_rank-type_rank RecordType.lid_map = refl
of_rank-type_rank RecordType.sticker_cache = refl
of_rank-type_rank RecordType.own_jid = refl

pub same_type_sound : (a b : RecordType) → same_type a b ≡ true → a ≡ b
unfolding same_type
same_type_sound a b h =
    sym (of_rank-type_rank a)
    ∙ ap of_rank ((nat_eq_iff (type_rank a) (type_rank b)).0 h)
    ∙ of_rank-type_rank b

-- The contract of the key of the schema's version.
pub contract_for-schema_version :
    (c : KvContract) × (contract_for schema_version_key ≡ ok c)
    × (c.record_type ≡ RecordType.schema_version)
unfolding contract_for find_contract kv_contracts schema_version_key ◌==◌
contract_for-schema_version = (_, refl, refl)

-- A class is the same as itself.
pub same_type_refl : (t : RecordType) → same_type t t ≡ true
unfolding same_type
same_type_refl t = (nat_eq_iff (type_rank t) (type_rank t)).1 refl
