-- ===== src/Receipts/Laws.antt =====
-- What a receipt does to the store (src/receipt_store.py): the read receipts of messages, and the unread total.
use greenline.Base.{
  ◌≡◌, refl, Bool, true, false, Option, none, some, List, [], ◌∷◌, arith, Text, lookup, insert, ltb,
  neg, add_clamped, insert-Ascending, Bool-cases, inl, inr,
}
use greenline.Keys.{chat_key, message_index_key}
use greenline.Models.{Record, ChatListItem, ReadReceipt}
use greenline.State.{State, as_chat}
use greenline.Contracts.Refinement.{Store}
use greenline.Repository.{Entry, get_message_entry_with_key}
use greenline.Repository.Laws.{
  IsFound, get_message_entry_with_key-IsFound, get_message_entry_with_key-cases,
}
use greenline.Unread.{get_unread_total, decrement_unread_total, increment_unread_total}
use greenline.Unread.Sums.{
  IsSound, put_total-IsCounted, put_chat-IsCounted, as_chat_sound, add_clamped-neg,
  unread_at-le-sum,
}
use greenline.Unread.Quiet.{
  Quiet, Quiet-refl, Quiet-trans, Quiet-insert, Quiet-erase, Quiet-IsCounted, message-IsOther,
  index-IsOther,
}
use greenline.Events.{ReceiptEvent}
use greenline.Receipts.{
  receipt_type_map, is_upgrade, with_receipt, Updates, update_entry, update_one, update_loop,
  update_messages, no_updates, update_chat, update_found, write_chat, cleared_total, chat_receipt,
  clears_unread, process_receipt, process_known, without_duplicates,
}

module _ (chat_id : Text) (new : ReadReceipt) where
  update_entry-Quiet :
      (id : Text) (found : Option Entry) (s : Store) (acc : Updates)
      → ((e : Entry) → found ≡ some e → IsFound chat_id id s e)
      → Quiet s (update_entry new found s acc).1
  unfolding update_entry
  update_entry-Quiet id none s acc at = Quiet-refl s
  update_entry-Quiet id (some (key, m)) s acc at =
      elim (Bool-cases (is_upgrade m.read_receipt new)) [
        | inl up ↦ rw up (
            Quiet-insert key (Record.stored_message (with_receipt new m)) s
              (message-IsOther chat_id key (at (key, m) refl).in_chat))
        | inr no_up ↦ rw no_up (Quiet-refl s)
      ]

  lookup-Quiet : (id : Text) (s : Store) → Quiet s (get_message_entry_with_key chat_id id s).1
  lookup-Quiet id s = elim (get_message_entry_with_key-cases chat_id id s) [
    | inl same ↦ rw same (Quiet-refl s)
    | inr (_, erased) ↦
        rw erased (Quiet-erase (message_index_key chat_id id) s (index-IsOther chat_id id))
  ]

  -- What was found stands in the store that the lookup leaves.
  pub IsFound-after :
      (id : Text) (s : Store) (e : Entry)
      → (get_message_entry_with_key chat_id id s).0 ≡ some e
      → IsFound chat_id id (get_message_entry_with_key chat_id id s).1 e
  IsFound-after id s e h =
      let (found, same) = get_message_entry_with_key-IsFound chat_id id s e h in rw same found

  update_loop-Quiet :
      (ids : List Text) (s : Store) (acc : Updates) → Quiet s (update_loop chat_id new ids s acc).1
  unfolding update_loop update_one
  update_loop-Quiet [] s acc = Quiet-refl s
  update_loop-Quiet (id ∷ ids) s acc =
      let (found, t) = get_message_entry_with_key chat_id id s in
      Quiet-trans (lookup-Quiet id s) (
        Quiet-trans (update_entry-Quiet id found t acc (IsFound-after id s))
          (update_loop-Quiet ids (update_entry new found t acc).1 (update_entry new found t acc).0))

module _ (chat_id : Text) (new : ReadReceipt) (c : ChatListItem) (st : State) where
  write_cleared-IsSound :
      (c' : ChatListItem)
      → c'.unread_count ≡ 0
      → lookup (chat_key chat_id) st.store ≡ some (Record.chat c)
      → IsSound st.store
      → IsSound (insert (chat_key chat_id) (Record.chat c') (cleared_total c st).store)
  unfolding cleared_total decrement_unread_total increment_unread_total
  write_cleared-IsSound c' z at (asc, counted) = elim (Bool-cases (ltb 0 c.unread_count)) [
    | inl some_unread ↦ rw some_unread (
      insert-Ascending _ _ _ (insert-Ascending _ _ st.store asc),
      put_total-IsCounted chat_id c' (add_clamped (get_unread_total st.store) (neg c.unread_count))
          st.store asc counted
          (rw (at, add_clamped-neg, z)
            (omega (arith, counted, rw at at (unread_at-le-sum chat_id st.store asc)))),
    )
    | inr none_unread ↦ rw none_unread (
      insert-Ascending _ _ st.store asc,
      put_chat-IsCounted chat_id c' st.store asc counted (rw (at, z) (ground arith)),
    )
  ]

  write_chat-IsSound :
      (moved cleared : Bool)
      → lookup (chat_key chat_id) st.store ≡ some (Record.chat c)
      → IsSound st.store
      → IsSound (write_chat chat_id new moved cleared c st).1.store
  unfolding write_chat
  write_chat-IsSound moved true at sound = write_cleared-IsSound _ refl at sound
  write_chat-IsSound true false at (asc, counted) = (
    insert-Ascending _ _ st.store asc,
    put_chat-IsCounted chat_id (record c { read_receipt = new }) st.store asc counted (rw at refl),
  )
  write_chat-IsSound false false at sound = sound

update_found-IsSound :
    (chat_id : Text) (new : ReadReceipt) (is_from_me incoming : Bool) (o : Option ChatListItem)
    (st : State)
    → as_chat (lookup (chat_key chat_id) st.store) ≡ o
    → IsSound st.store
    → IsSound (update_found chat_id new is_from_me incoming o st).1.store
unfolding update_found
update_found-IsSound chat_id new is_from_me incoming none st at sound = sound
update_found-IsSound chat_id new is_from_me incoming (some c) st at sound =
    write_chat-IsSound chat_id new c st (chat_receipt new is_from_me c)
      (clears_unread new incoming c) (as_chat_sound _ c at) sound

process_known-IsSound :
    (evt : ReceiptEvent) (o : Option ReadReceipt) (st : State)
    → IsSound st.store
    → IsSound (process_known evt o st).1.store
unfolding process_known update_messages update_chat
process_known-IsSound evt none st sound = sound
process_known-IsSound evt (some new) st (asc, counted) =
    let q =
      update_loop-Quiet evt.chat new (without_duplicates evt.message_ids) st.store no_updates in
    update_found-IsSound evt.chat new evt.is_from_me _ _ _ refl
      (q.ascending asc, Quiet-IsCounted q counted)

-- Whatever receipt arrives, the stored total stays the sum of the chats' unread counts, and the store
-- stays a table with one row for each key.
pub process_receipt-IsSound :
    (evt : ReceiptEvent) (st : State) → IsSound st.store → IsSound (process_receipt evt st).1.store
unfolding process_receipt
process_receipt-IsSound evt st sound =
    process_known-IsSound evt (receipt_type_map evt.type) st sound
