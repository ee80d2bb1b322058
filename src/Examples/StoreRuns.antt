-- ===== src/Examples/StoreRuns.antt =====
-- The theorems on messages, their index, their receipts and the unread total at a store with one chat.
use mathlib.Core.List.{foldr}
use greenline.Base.{
  take, ◌+◌, lookup, if◌then◌else◌, ◌==◌, ◌≤◌, ◌≡◌, refl, true, false, some, [], ◌∷◌, ◌++◌, codes,
  ◌==◌, insert, lookup, before, starts_with, decimal, arith,
}
use greenline.Events.{ReceiptEvent}
use greenline.Identity.{update_chat_name}
use greenline.Identity.Names.{update_chat_name-newer}
use greenline.Identity.Chats.{select_missing_avatar_priority_jids}
use greenline.Identity.Chats.Avatars.{
  IsSelection, first_of_each, contacts_without_photo, select_missing_avatar-IsSelection,
}
use greenline.Keys.{
  chat_key, message_storage_key, message_index_key, message_prefix, pending_outbox_key,
  unread_total_key,
}
use greenline.Messages.{upsert_chat}
use greenline.Messages.Laws.{upsert_chat-IsSound}
use greenline.Models.{Message, MessageType, ReadReceipt, Record}
use greenline.Models.Fresh.{new_message, new_chat}
use greenline.Outbox.{no_info}
use greenline.Receipts.{process_receipt}
use greenline.Receipts.Laws.{process_receipt-IsSound}
use greenline.Receipts.Forward.{Forward, process_receipt-Forward}
use greenline.Repository.{get_message_entry_with_key, put_message_index}
use greenline.Repository.Laws.{
  IsFound, get_message_entry_with_key-IsFound, get_message_entry_with_key-put,
}
use greenline.Unread.{reconcile_unread_total}
use greenline.Unread.Sums.{IsCounted, IsSound, chats_of, reconcile-IsCounted}
use greenline.Examples.{
  ascii, no_daemon, ann, state, store, store-IsSound, stored_pending, message_key, ann_chat,
}

abbrev incoming : Message
incoming = new_message (codes "m2") ann MessageType.text false (codes "10:05") 400 ReadReceipt.unset

abbrev read_receipt : ReceiptEvent
read_receipt = record {
  chat = ann;
  is_from_me = false;
  message_ids = codes "m1" ∷ [];
  type = codes "read";
}

upsert_chat-IsSound_example : IsSound (upsert_chat ascii incoming no_info true state).1.store
upsert_chat-IsSound_example = upsert_chat-IsSound ascii incoming no_info true state store-IsSound

process_receipt-IsSound_example : IsSound (process_receipt read_receipt state).1.store
process_receipt-IsSound_example = process_receipt-IsSound read_receipt state store-IsSound

process_receipt-Forward_example :
    Forward (lookup (codes "message:" ++ (ann ++ codes ":100:m1")) store) (
      lookup
        (codes "message:" ++ (ann ++ codes ":100:m1"))
        (process_receipt read_receipt state).1.store)
process_receipt-Forward_example =
    process_receipt-Forward read_receipt state (ann ++ codes ":100:m1")

get_message_entry_with_key-IsFound_example :
    IsFound ann (codes "m1") store (message_key, stored_pending)
    × ((get_message_entry_with_key ann (codes "m1") store).1 ≡ store)
unfolding new_message get_message_entry_with_key lookup insert starts_with message_prefix
    message_index_key message_storage_key ◌==◌ before chat_key pending_outbox_key unread_total_key
    decimal
get_message_entry_with_key-IsFound_example =
    get_message_entry_with_key-IsFound ann (codes "m1") store (message_key, stored_pending) refl

get_message_entry_with_key-put_example :
    (get_message_entry_with_key ann (codes "m1") (
      put_message_index ann
        (codes "m1")
        message_key
        (insert message_key (Record.stored_message stored_pending) []))).0
    ≡ some (message_key, stored_pending)
unfolding new_message starts_with message_prefix message_storage_key ◌==◌ decimal
get_message_entry_with_key-put_example =
    get_message_entry_with_key-put ann (codes "m1") message_key stored_pending [] refl refl refl
      refl

reconcile-IsCounted_example :
    let total = foldr (λ c n. c.unread_count + n) 0 (chats_of state.store) in
    let after = (reconcile_unread_total state).1.store in
    ((reconcile_unread_total state).0 ≡ total)
    × (lookup (chat_key ann) after ≡ (
        if unread_total_key == chat_key ann
        then some (Record.unread_total total)
        else lookup (chat_key ann) state.store))
    × IsCounted after
reconcile-IsCounted_example = reconcile-IsCounted (chat_key ann) state

select_missing_avatar-IsSelection_example :
    let chosen =
      select_missing_avatar_priority_jids ascii no_daemon 1 ((ann, []) ∷ (ann, []) ∷ []) state in
    (chosen
      ≡ take 1 (
          first_of_each []
            (contacts_without_photo ascii no_daemon state ((ann, []) ∷ (ann, []) ∷ []))))
    × IsSelection 1 chosen
select_missing_avatar-IsSelection_example =
    select_missing_avatar-IsSelection ascii no_daemon 1 ((ann, []) ∷ (ann, []) ∷ []) state
      (omega arith)

update_chat_name-newer_example :
    let c = (update_chat_name ann_chat 50 [] (codes "Annie") [] state).0.0 in
    (0 ≤ c.name_updated_at)
    × (c.full_name ≡ [])
    × (c.push_name ≡ codes "Annie")
    × (c.business_name ≡ [])
unfolding new_chat
update_chat_name-newer_example = update_chat_name-newer ann_chat 50 [] (codes "Annie") [] state
