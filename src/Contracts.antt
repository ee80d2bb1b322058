-- ===== src/Contracts.antt =====
-- src/greenline/contracts/kv.py: the typed store over src/ut_components/kv.py. Each family of keys
-- has a contract, the record type of its values. dacite and the JSON codec are parameters.
pub mod Families
pub mod Laws
pub mod Refinement
use mathlib.Core.List.{foldr}
use greenline.Base.{
  ℕ, Bool, true, false, Option, none, some, List, [], ◌∷◌, Text, codes, ◌==◌, starts_with,
  if◌then◌else◌, nat_eq,
}
use greenline.Models.{Record, StoredMessageRecord}
use greenline.Kv
use greenline.Kv.{Kv, Json, Page}

-- The classes of the records, by which `isinstance` tells them apart.
pub data RecordType : Type 0 where
  last_event_id unread_total schema_version notifications_suppressed error_reporting : RecordType
  stop_daemon_on_exit pending_outbox unhandled_message unknown_event message_index : RecordType
  stored_message message_reaction chat group_profile draft_mentions draft : RecordType
  lid_map sticker_cache own_jid : RecordType

unfoldable pub record_type : Record → RecordType
record_type (Record.last_event_id v) = RecordType.last_event_id
record_type (Record.unread_total v) = RecordType.unread_total
record_type (Record.schema_version v) = RecordType.schema_version
record_type (Record.notifications_suppressed v) = RecordType.notifications_suppressed
record_type (Record.error_reporting v) = RecordType.error_reporting
record_type (Record.stop_daemon_on_exit v) = RecordType.stop_daemon_on_exit
record_type (Record.pending_outbox v) = RecordType.pending_outbox
record_type (Record.unhandled_message v) = RecordType.unhandled_message
record_type (Record.unknown_event v) = RecordType.unknown_event
record_type (Record.message_index v) = RecordType.message_index
record_type (Record.stored_message v) = RecordType.stored_message
record_type (Record.message_reaction v) = RecordType.message_reaction
record_type (Record.chat v) = RecordType.chat
record_type (Record.group_profile v) = RecordType.group_profile
record_type (Record.draft_mentions v) = RecordType.draft_mentions
record_type (Record.draft v) = RecordType.draft
record_type (Record.lid_map v) = RecordType.lid_map
record_type (Record.sticker_cache v) = RecordType.sticker_cache
record_type (Record.own_jid v) = RecordType.own_jid

-- The place of a class in the list of classes; two classes are the same when their places are.
abbrev type_rank : RecordType → ℕ
type_rank RecordType.last_event_id = 0
type_rank RecordType.unread_total = 1
type_rank RecordType.schema_version = 2
type_rank RecordType.notifications_suppressed = 3
type_rank RecordType.error_reporting = 4
type_rank RecordType.stop_daemon_on_exit = 5
type_rank RecordType.pending_outbox = 6
type_rank RecordType.unhandled_message = 7
type_rank RecordType.unknown_event = 8
type_rank RecordType.message_index = 9
type_rank RecordType.stored_message = 10
type_rank RecordType.message_reaction = 11
type_rank RecordType.chat = 12
type_rank RecordType.group_profile = 13
type_rank RecordType.draft_mentions = 14
type_rank RecordType.draft = 15
type_rank RecordType.lid_map = 16
type_rank RecordType.sticker_cache = 17
type_rank RecordType.own_jid = 18

unfoldable pub same_type : RecordType → RecordType → Bool
same_type a b = nat_eq (type_rank a) (type_rank b)

pub data Storage : Type 0 where
  object scalar : Storage

-- `KVContract`; the field is `value` in all of them.
pub record KvContract : Type 0 where
  pub name : Text
  pub record_type : RecordType
  pub storage : Storage
  pub prefix : Bool

abbrev contract : Text → RecordType → Storage → Bool → KvContract
contract name t storage prefix = record {
  name = name;
  record_type = t;
  storage = storage;
  prefix = prefix;
}

unfoldable pub kv_contracts : List KvContract
kv_contracts =
    contract (codes "daemon:last_event_id") RecordType.last_event_id scalar false
    ∷ contract (codes "unread_total") RecordType.unread_total scalar false
    ∷ contract (codes "kv.schema_version") RecordType.schema_version scalar false
    ∷ contract (codes "notifications_suppressed") RecordType.notifications_suppressed scalar false
    ∷ contract (codes "crash.enabled") RecordType.error_reporting scalar false
    ∷ contract (codes "daemon.stop_on_exit") RecordType.stop_daemon_on_exit scalar false
    ∷ contract (codes "pending-outbox:") RecordType.pending_outbox object true
    ∷ contract (codes "unhandled_message:") RecordType.unhandled_message object true
    ∷ contract (codes "unknown_event:") RecordType.unknown_event object true
    ∷ contract (codes "message_index:") RecordType.message_index scalar true
    ∷ contract (codes "message:") RecordType.stored_message object true
    ∷ contract (codes "message_reaction:") RecordType.message_reaction object true
    ∷ contract (codes "chat:") RecordType.chat object true
    ∷ contract (codes "group_profile:") RecordType.group_profile object true
    ∷ contract (codes "draft_mentions:") RecordType.draft_mentions scalar true
    ∷ contract (codes "draft:") RecordType.draft scalar true
    ∷ contract (codes "lid_map:") RecordType.lid_map scalar true
    ∷ contract (codes "sticker_cache:") RecordType.sticker_cache scalar true
    ∷ contract (codes "self.jid") RecordType.own_jid scalar false
    ∷ []

-- `KeyError`, `TypeError`, `BoundaryValidationError`
pub data KvError : Type 0 where
  no_contract wrong_type invalid : KvError

pub data Result {ℓ} (A : Type ℓ) : Type ℓ where
  raised : KvError → Result A
  ok : A → Result A

infixl 5 ◌>>=◌
-- The first error ends the operation.
abbrev pub ◌>>=◌ {ℓ κ} :
    {A : Type ℓ} {B : Type κ} (done : Result A) (next : A → Result B) → Result B
raised problem >>= next = raised problem
ok result >>= next = next result

abbrev pub matches : KvContract → Text → Bool
matches c key = if c.prefix then starts_with key c.name else key == c.name

find_contract : List KvContract → Text → Result KvContract
find_contract [] key = raised no_contract
find_contract (c ∷ cs) key = let rest = find_contract cs key in if matches c key then ok c else rest

unfoldable pub contract_for : Text → Result KvContract
unfolding find_contract kv_contracts
contract_for key = find_contract kv_contracts key

-- `encode_dataclass`, dacite's strict `from_dict`, the payload's field `value`, and the payload
-- without its `raw` field.
pub record Codec (J : Json) : Type 0 where
  pub payload : Record → J.Value
  pub from_dict : RecordType → J.Value → Option Record
  pub value_field : J.Value → J.Value
  pub with_value : J.Value → J.Value
  pub without_raw : J.Value → J.Value

module _ (J : Json) (C : Codec J) where
  -- `payload.get("raw") is None` of a stored message
  abbrev lacks_raw : Record → Bool
  lacks_raw (Record.stored_message m) = elim m.raw [ none ↦ true | some _ ↦ false ]
  lacks_raw _ = false

  -- `{contract.field: value} if contract.storage == "scalar" else value`
  abbrev unwrapped : Storage → J.Value → J.Value
  unwrapped scalar value = C.with_value value
  unwrapped object value = value

  abbrev decoded_record : Option Record → Result Record
  decoded_record none = raised invalid
  decoded_record (some r) = ok r

  unfoldable pub decode_value : KvContract → J.Value → Result Record
  decode_value c value = decoded_record (C.from_dict c.record_type (unwrapped c.storage value))

  -- The payload in the form that the contract stores.
  abbrev stored_form : Storage → Record → J.Value
  stored_form scalar r = C.value_field (C.payload r)
  stored_form object r = if lacks_raw r then C.without_raw (C.payload r) else C.payload r

  -- The record is decoded once more before it is stored, and refused if that fails.
  abbrev checked : KvContract → Record → Option Record → Result J.Value
  checked c r none = raised invalid
  checked c r (some _) = ok (stored_form c.storage r)

  unfoldable pub encode_value : KvContract → Record → Result J.Value
  encode_value c r =
      if same_type (record_type r) c.record_type
      then checked c r (C.from_dict c.record_type (C.payload r))
      else raised wrong_type

  unfoldable pub put_record : ℕ → Text → Record → Option ℕ → Kv → Result Kv
  put_record now key r ttl_seconds kv = do
    c ← contract_for key
    value ← encode_value c r
    ok (Kv.put J now key value ttl_seconds kv)

  unfoldable pub put_cached_record : ℕ → Text → Record → Option ℕ → Kv → Result Kv
  put_cached_record now key r ttl_seconds kv = do
    c ← contract_for key
    value ← encode_value c r
    ok (Kv.put_cached J now key value ttl_seconds kv)

  abbrev default_record : KvContract → Option Record → Result (Option Record)
  default_record c none = ok none
  default_record c (some d) =
      if same_type (record_type d) c.record_type then ok (some d) else raised wrong_type

  abbrev read_record : KvContract → Option Record → Option J.Value → Result (Option Record)
  read_record c default none = default_record c default
  read_record c default (some value) = do r ← decode_value c value; ok (some r)

  -- A missing key gives the default, `None` if there is none; a default of another class is refused.
  unfoldable pub get_record : ℕ → Text → Option Record → Kv → Result (Option Record)
  get_record now key default kv = do
    c ← contract_for key
    read_record c default (Kv.get_value J now key kv)

  abbrev decode_rows : KvContract → List (Text × J.Value) → Result (List (Text × Record))
  decode_rows c [] = ok []
  decode_rows c ((k, v) ∷ rows) = do
    r ← decode_value c v
    rest ← decode_rows c rows
    ok ((k, r) ∷ rest)

  unfoldable pub get_partial_records : ℕ → Text → Kv → Result (List (Text × Record))
  get_partial_records now beginning kv = do
    c ← contract_for beginning
    decode_rows c (Kv.get_partial J now beginning kv)

  abbrev RecordPage : Type 0
  RecordPage = record { results : List (Text × Record); next_cursor : Option Text }

  abbrev decode_page : KvContract → Option (Page J) → Result (Option RecordPage)
  decode_page c none = ok none
  decode_page c (some p) = do
    rows ← decode_rows c p.results
    ok (some (record { results = rows; next_cursor = p.next_cursor }))

  -- `ok none` is the IndexError of a page size of 0.
  unfoldable pub get_partial_page_records :
      ℕ → Text → ℕ → Option Text → Bool → Kv → Result (Option RecordPage)
  get_partial_page_records now beginning page_size cursor backwards kv = do
    c ← contract_for beginning
    decode_page c (Kv.get_partial_page J now beginning page_size cursor backwards kv)

unfoldable pub delete_record : Text → Kv → Result Kv
delete_record key kv = do c ← contract_for key; ok (Kv.delete key kv)

unfoldable pub delete_partial_records : Text → Kv → Result Kv
delete_partial_records beginning kv = do
  c ← contract_for beginning
  ok (Kv.delete_partial beginning kv)
