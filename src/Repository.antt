-- ===== src/Repository.antt =====
-- src/greenline/store/repository.py: where a message is stored, and the index by message id.
pub mod Laws
use greenline.Base.{
  ℕ, Bool, true, false, ◌&&◌, ◌||◌, Option, none, some, Text, ◌==◌, is_empty, starts_with, lookup,
  insert, erase, if◌then◌else◌,
}
use greenline.Keys.{message_index_key, message_prefix}
use greenline.Models.{Record, StoredMessageRecord, Message}
use greenline.State.{as_index, as_message}
use greenline.Contracts.Refinement.{Store}

unfoldable pub put_message_index : Text → Text → Text → Store → Store
put_message_index chat_id message_id storage_key s =
    if is_empty chat_id || is_empty message_id || is_empty storage_key
    then s
    else insert (message_index_key chat_id message_id) (Record.message_index storage_key) s

unfoldable pub delete_message_index : Text → Text → Store → Store
delete_message_index chat_id message_id s =
    if is_empty chat_id || is_empty message_id
    then s
    else erase (message_index_key chat_id message_id) s

abbrev pub Entry : Type 0
Entry = Text × StoredMessageRecord

-- The conditions under which the record at the indexed key is the message.
abbrev pub is_entry : Text → Text → Text → StoredMessageRecord → Bool
is_entry chat_id message_id key m =
    starts_with key (message_prefix chat_id) && m.id == message_id && m.chat_id == chat_id

-- The record at the indexed key, or none and an index entry less where it is not the message.
indexed_entry : Text → Text → Text → Option StoredMessageRecord → Store → Option Entry × Store
indexed_entry chat_id message_id key none s = (none, delete_message_index chat_id message_id s)
indexed_entry chat_id message_id key (some m) s =
    if is_entry chat_id message_id key m
    then (some (key, m), s)
    else (none, delete_message_index chat_id message_id s)

follow_index : Text → Text → Option Text → Store → Option Entry × Store
unfolding indexed_entry
follow_index chat_id message_id none s = (none, s)
follow_index chat_id message_id (some key) s =
    if is_empty key
    then (none, s)
    else indexed_entry chat_id message_id key (as_message (lookup key s)) s

unfoldable pub get_message_entry_with_key : Text → Text → Store → Option Entry × Store
unfolding follow_index
get_message_entry_with_key chat_id message_id s =
    if is_empty chat_id || is_empty message_id
    then (none, s)
    else follow_index chat_id message_id
        (as_index (lookup (message_index_key chat_id message_id) s)) s
