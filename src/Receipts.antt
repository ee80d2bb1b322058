-- ===== src/Receipts.antt =====
-- src/receipt_store.py: delivery and read receipts.
pub mod Laws
pub mod Forward
use greenline.Base.{
  ℕ, zero, suc, Bool, true, false, ◌&&◌, ◌||◌, not, Option, none, some, List, [], ◌∷◌, ◌++◌, Text,
  codes, ◌==◌, is_empty, any, lookup, insert, ltb, if◌then◌else◌,
}
use greenline.Keys.{chat_key}
use greenline.Models.{Record, StoredMessageRecord, Message, ChatListItem, ReadReceipt}
use greenline.State.{State, as_chat, put_record}
use greenline.Contracts.Refinement.{Store}
use greenline.Repository.{Entry, get_message_entry_with_key}
use greenline.Unread.{decrement_unread_total}
use greenline.Events.{ReceiptEvent}

-- `RECEIPT_ORDER`
unfoldable pub receipt_order : ReadReceipt → ℕ
receipt_order ReadReceipt.unset = 0
receipt_order ReadReceipt.sent = 1
receipt_order ReadReceipt.delivered = 2
receipt_order ReadReceipt.read = 3

-- `RECEIPT_TYPE_MAP`
unfoldable pub receipt_type_map : Text → Option ReadReceipt
receipt_type_map type =
    if is_empty type
    then some ReadReceipt.delivered
    else if type == codes "read"
    then some ReadReceipt.read
    else if type == codes "read-self"
    then some ReadReceipt.read
    else none

unfoldable pub is_upgrade : ReadReceipt → ReadReceipt → Bool
unfolding receipt_order
is_upgrade current new = ltb (receipt_order current) (receipt_order new)

-- `replace(record, read_receipt=new_status)`
abbrev pub with_receipt : ReadReceipt → StoredMessageRecord → StoredMessageRecord
with_receipt r m = record m { message = record m.message { read_receipt = r } }

-- The messages that were updated, and whether one of those found is incoming.
abbrev pub Updates : Type 0
Updates = record { updated_messages : List Message; targets_incoming_messages : Bool }

update_entry : ReadReceipt → Option Entry → Store → Updates → Updates × Store
update_entry new none s acc = (acc, s)
update_entry new (some (key, m)) s acc =
    let incoming = acc.targets_incoming_messages || not m.is_outgoing in
    if is_upgrade m.read_receipt new
    then (
      record {
        updated_messages = acc.updated_messages ++ ((with_receipt new m).message ∷ []);
        targets_incoming_messages = incoming;
      },
      insert key (Record.stored_message (with_receipt new m)) s,
    )
    else (
      record { updated_messages = acc.updated_messages; targets_incoming_messages = incoming },
      s,
    )

update_one : Text → ReadReceipt → Text → Store → Updates → Updates × Store
unfolding update_entry
update_one chat_id new message_id s acc =
    let (found, s') = get_message_entry_with_key chat_id message_id s in
    update_entry new found s' acc

-- The loop over the set of ids, in the order that the set gives them.
update_loop : Text → ReadReceipt → List Text → Store → Updates → Updates × Store
unfolding update_one
update_loop chat_id new [] s acc = (acc, s)
update_loop chat_id new (id ∷ ids) s acc =
    let (acc', s') = update_one chat_id new id s acc in update_loop chat_id new ids s' acc'

abbrev no_updates : Updates
no_updates = record { updated_messages = []; targets_incoming_messages = false }

unfoldable pub update_messages : Text → List Text → ReadReceipt → Store → Updates × Store
unfolding update_loop
update_messages chat_id message_ids new s = update_loop chat_id new message_ids s no_updates

-- The chat's own receipt, which only somebody else's event moves.
abbrev pub chat_receipt : ReadReceipt → Bool → ChatListItem → Bool
chat_receipt new is_from_me c =
    not is_from_me && (ltb 0 (receipt_order c.read_receipt) && is_upgrade c.read_receipt new)

-- `new_status == READ and targets_incoming and (unread_count > 0 or first_unread != "")`
abbrev pub clears_unread : ReadReceipt → Bool → ChatListItem → Bool
clears_unread ReadReceipt.read incoming c =
    incoming && (ltb 0 c.unread_count || not (is_empty c.first_unread_message_id))
clears_unread _ incoming c = false

-- The two changes of `_update_chat`, with the counter's where the chat had unread messages.
cleared_total : ChatListItem → State → State
cleared_total c st =
    if ltb 0 c.unread_count then (decrement_unread_total c.unread_count st).1 else st

write_chat : Text → ReadReceipt → Bool → Bool → ChatListItem → State → Option ChatListItem × State
unfolding cleared_total
write_chat chat_id new moved cleared c st =
    let receipt = if moved then new else c.read_receipt in
    if cleared
    then (let c' = record c {
      read_receipt = receipt;
      unread_count = 0;
      first_unread_message_id = [];
    } in
        (some c', put_record (chat_key chat_id) (Record.chat c') (cleared_total c st)))
    else if moved
    then (let c' = record c { read_receipt = receipt } in
        (some c', put_record (chat_key chat_id) (Record.chat c') st))
    else (none, st)

update_found :
    Text → ReadReceipt → Bool → Bool → Option ChatListItem → State → Option ChatListItem × State
unfolding write_chat
update_found chat_id new is_from_me incoming none st = (none, st)
update_found chat_id new is_from_me incoming (some c) st =
    write_chat chat_id new (chat_receipt new is_from_me c) (clears_unread new incoming c) c st

unfoldable pub update_chat : Text → ReadReceipt → Bool → Bool → State → Option ChatListItem × State
unfolding update_found
update_chat chat_id new is_from_me targets_incoming_messages st =
    update_found chat_id new is_from_me targets_incoming_messages
      (as_chat (lookup (chat_key chat_id) st.store)) st

abbrev pub Processed : Type 0
Processed = record { messages : List Message; chat : Option ChatListItem }

abbrev without_duplicates : List Text → List Text
without_duplicates [] = []
without_duplicates (x ∷ xs) =
    let rest = without_duplicates xs in if any (λ y. y == x) rest then rest else x ∷ rest

process_known : ReceiptEvent → Option ReadReceipt → State → Processed × State
process_known evt none st = (record { messages = []; chat = none }, st)
process_known evt (some new) st =
    let (updates, s) = update_messages evt.chat (without_duplicates evt.message_ids) new st.store in
    let (chat, st') =
      update_chat evt.chat new evt.is_from_me updates.targets_incoming_messages
        (record st { store = s }) in
    (record { messages = updates.updated_messages; chat = chat }, st')

unfoldable pub process_receipt : ReceiptEvent → State → Processed × State
unfolding process_known
process_receipt evt st = process_known evt (receipt_type_map evt.type) st
