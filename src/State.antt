-- ===== src/State.antt =====
-- What the python side of the program keeps: the records of the store, and the module variables of
-- src/greenline/store/identity.py. The parameters stand for the daemon and for the classes of
-- characters that Python's `str` methods know.
use greenline.Base.{ℕ, Bool, Option, none, some, [], Text, Table, insert, erase, false}
use greenline.Models.{Record, ChatListItem, StoredMessageRecord}
use greenline.Contracts.Refinement.{Store}

pub record State : Type 0 where
  pub store : Store
  -- `_CHAT_RUNTIME_CACHE`
  pub chat_cache : Table ChatListItem
  -- `_OWN_JID` and `_OWN_JID_BOOTSTRAP_ATTEMPTED`
  pub own_jid : Text
  pub bootstrap_attempted : Bool

abbrev pub fresh : State
fresh = record { store = []; chat_cache = []; own_jid = []; bootstrap_attempted = false }

-- `kv.get_record(key)` at the class that the key's contract gives it
abbrev pub as_chat : Option Record → Option ChatListItem
as_chat (some (Record.chat c)) = some c
as_chat _ = none

abbrev pub as_message : Option Record → Option StoredMessageRecord
as_message (some (Record.stored_message m)) = some m
as_message _ = none

abbrev pub as_index : Option Record → Option Text
as_index (some (Record.message_index k)) = some k
as_index _ = none

abbrev pub as_unread_total : Option Record → ℕ
as_unread_total (some (Record.unread_total n)) = n
as_unread_total _ = 0

abbrev pub as_own_jid : Option Record → Option Text
as_own_jid (some (Record.own_jid j)) = some j
as_own_jid _ = none

abbrev pub as_lid_map : Option Record → Option Text
as_lid_map (some (Record.lid_map j)) = some j
as_lid_map _ = none

-- `kv.put_record(key, record)` and `kv.delete(key)`
abbrev pub put_record : Text → Record → State → State
put_record key r st = record st { store = insert key r st.store }

abbrev pub delete_record : Text → State → State
delete_record key st = record st { store = erase key st.store }

-- The daemon's `ensure_jid`; `none` is an exception.
pub record Daemon : Type 0 where
  pub ensure_jid : Text → Option Text

-- Classes of characters, and case: `isdigit`, `isalnum`, `isspace`, `lower`, `upper`.
pub record Unicode : Type 0 where
  pub is_digit : ℕ → Bool
  pub is_alnum : ℕ → Bool
  pub is_space : ℕ → Bool
  pub lower : ℕ → ℕ
  pub upper : ℕ → ℕ
