-- ===== src/Receipts/Forward.antt =====
-- The order of the read receipts that a message gets (src/receipt_store.py).
use mathlib.Core.Path.{subst}
use native.Mathlib.Nat.{le_refl, le_trans}
use greenline.Base.{
  ◌≤◌, ◌≡◌, refl, ap, ◌∙◌, Bool, true, false, Option, none, some, List, [], ◌∷◌, ◌++◌, arith, Text,
  codes, ◌==◌, eq_sound, lookup, lookup-insert, lookup-erase, ltb, Bool-cases, inl, inr,
}
use greenline.Keys.{chat_key, message_index_key, unread_total_key}
use greenline.Models.{Record, StoredMessageRecord, ReadReceipt, ChatListItem}
use greenline.State.{State, as_message}
use greenline.Contracts.Refinement.{Store}
use greenline.Repository.{Entry, get_message_entry_with_key}
use greenline.Repository.Laws.{IsFound, get_message_entry_with_key-cases}
use greenline.Unread.{decrement_unread_total, increment_unread_total}
use greenline.Events.{ReceiptEvent}
use greenline.Receipts.{
  receipt_order, receipt_type_map, is_upgrade, with_receipt, Updates, update_entry, update_one,
  update_loop, update_messages, no_updates, update_chat, update_found, write_chat, cleared_total,
  chat_receipt, clears_unread, process_receipt, process_known, without_duplicates,
}
use greenline.Receipts.Laws.{IsFound-after}

abbrev pub receipt_of : Option Record → ReadReceipt
receipt_of (some (Record.stored_message m)) = m.read_receipt
receipt_of _ = ReadReceipt.unset

-- The record with another receipt, where it is a message.
abbrev pub to_receipt : ReadReceipt → Option Record → Option Record
to_receipt r (some (Record.stored_message m)) = some (Record.stored_message (with_receipt r m))
to_receipt r o = o

-- A record as it was but for a receipt that did not move back.
abbrev pub Forward : Option Record → Option Record → Type 0
Forward before after =
    (r : ReadReceipt) × (after ≡ to_receipt r before)
    × (receipt_order (receipt_of before) ≤ receipt_order r)

Forward-refl : (o : Option Record) → Forward o o
Forward-refl none = (ReadReceipt.unset, refl, le_refl _)
Forward-refl (some (Record.stored_message m)) = (m.read_receipt, refl, le_refl _)
Forward-refl (some r) = (ReadReceipt.unset, refl, le_refl _)

Forward-of_eq : (a b : Option Record) → b ≡ a → Forward a b
Forward-of_eq a b e = rw e (Forward-refl a)

to_receipt-to_receipt :
    (r q : ReadReceipt) (o : Option Record) → to_receipt r (to_receipt q o) ≡ to_receipt r o
to_receipt-to_receipt r q none = refl
to_receipt-to_receipt r q (some (Record.stored_message m)) = refl
to_receipt-to_receipt r q (some x) = refl

receipt_of-to_receipt :
    (r : ReadReceipt) (o : Option Record)
    → receipt_order (receipt_of o) ≤ receipt_order r
    → receipt_order (receipt_of o) ≤ receipt_order (receipt_of (to_receipt r o))
receipt_of-to_receipt r none h = le_refl _
receipt_of-to_receipt r (some (Record.stored_message m)) h = h
receipt_of-to_receipt r (some x) h = le_refl _

Forward-trans : (a b c : Option Record) → Forward a b → Forward b c → Forward a c
Forward-trans a b c (r, e, h) (q, f, k) = (
  q,
  f ∙ ap (to_receipt q) e ∙ to_receipt-to_receipt q r a,
  le_trans (receipt_of-to_receipt r a h) (rw e at k),
)

as_message_sound :
    (o : Option Record) (m : StoredMessageRecord)
    → as_message o ≡ some m
    → o ≡ some (Record.stored_message m)
as_message_sound none m h = ground arith
as_message_sound (some (Record.stored_message d)) m h = ground arith
as_message_sound (some r) m h = ground arith

upgrade_le : (a b : ReadReceipt) → is_upgrade a b ≡ true → receipt_order a ≤ receipt_order b
unfolding is_upgrade
upgrade_le a b h = ground arith

module _ (x : Text) where
  -- A key of the family of messages.
  abbrev message_key : Text
  message_key = codes "message:" ++ x

  chat_key_apart : (id : Text) → (chat_key id == message_key) ≡ false
  unfolding chat_key ◌==◌
  chat_key_apart id = refl

  total_key_apart : (unread_total_key == message_key) ≡ false
  unfolding unread_total_key ◌==◌
  total_key_apart = refl

  index_key_apart : (c i : Text) → (message_key == message_index_key c i) ≡ false
  unfolding message_index_key ◌==◌
  index_key_apart c i = refl

  update_entry-Forward :
      (chat_id id : Text) (new : ReadReceipt) (found : Option Entry) (s : Store) (acc : Updates)
      → ((e : Entry) → found ≡ some e → IsFound chat_id id s e)
      → Forward (lookup message_key s) (lookup message_key (update_entry new found s acc).1)
  unfolding update_entry
  update_entry-Forward chat_id id new none s acc at = Forward-refl _
  update_entry-Forward chat_id id new (some (key, m)) s acc at =
      elim (Bool-cases (is_upgrade m.read_receipt new)) [
        | inl up ↦
            rw (up, lookup-insert)
              (elim (Bool-cases (key == message_key)) [
                | inl e ↦
                    let here : as_message (lookup message_key s) ≡ some m =
                      subst (λ k. as_message (lookup k s) ≡ some m) (eq_sound key message_key e)
                        (at (key, m) refl).stored in
                    let stored = as_message_sound (lookup message_key s) m here in
                    rw (e, stored) (new, refl, upgrade_le m.read_receipt new up)
                | inr n ↦ rw n (Forward-refl _)
              ])
        | inr no_up ↦ rw no_up (Forward-refl _)
      ]

  lookup-Forward :
      (chat_id id : Text) (s : Store)
      → Forward
          (lookup message_key s)
          (lookup message_key (get_message_entry_with_key chat_id id s).1)
  lookup-Forward chat_id id s = elim (get_message_entry_with_key-cases chat_id id s) [
    | inl same ↦ rw same (Forward-refl _)
    | inr (_, erased) ↦ rw (erased, lookup-erase, index_key_apart chat_id id) (Forward-refl _)
  ]

  update_loop-Forward :
      (chat_id : Text) (new : ReadReceipt) (ids : List Text) (s : Store) (acc : Updates)
      → Forward (lookup message_key s) (lookup message_key (update_loop chat_id new ids s acc).1)
  unfolding update_loop update_one
  update_loop-Forward chat_id new [] s acc = Forward-refl _
  update_loop-Forward chat_id new (id ∷ ids) s acc =
      let (found, t) = get_message_entry_with_key chat_id id s in
      let (acc', u) = update_entry new found t acc in
      Forward-trans _ (lookup message_key t) _ (lookup-Forward chat_id id s) (
        Forward-trans _ (lookup message_key u) _
          (update_entry-Forward chat_id id new found t acc (IsFound-after chat_id new id s))
          (update_loop-Forward chat_id new ids u acc'))

  cleared_total-same :
      (c : ChatListItem) (st : State)
      → lookup message_key (cleared_total c st).store ≡ lookup message_key st.store
  unfolding cleared_total decrement_unread_total increment_unread_total
  cleared_total-same c st = elim (Bool-cases (ltb 0 c.unread_count)) [
    | inl e ↦ rw (e, lookup-insert, total_key_apart)
    | inr n ↦ rw n
  ]

  write_chat-same :
      (chat_id : Text) (new : ReadReceipt) (moved cleared : Bool) (c : ChatListItem) (st : State)
      → lookup message_key (write_chat chat_id new moved cleared c st).1.store
        ≡ lookup message_key st.store
  unfolding write_chat
  write_chat-same chat_id new moved true c st =
      rw (lookup-insert, chat_key_apart chat_id) (cleared_total-same c st)
  write_chat-same chat_id new true false c st = rw (lookup-insert, chat_key_apart chat_id)
  write_chat-same chat_id new false false c st = refl

  update_found-same :
      (chat_id : Text) (new : ReadReceipt) (is_from_me incoming : Bool) (o : Option ChatListItem)
      (st : State)
      → lookup message_key (update_found chat_id new is_from_me incoming o st).1.store
        ≡ lookup message_key st.store
  unfolding update_found
  update_found-same chat_id new is_from_me incoming none st = refl
  update_found-same chat_id new is_from_me incoming (some c) st =
      write_chat-same chat_id new (chat_receipt new is_from_me c) (clears_unread new incoming c) c
        st

-- The record at a key that holds a message.
process_known-Forward :
    (x : Text) (evt : ReceiptEvent) (o : Option ReadReceipt) (st : State)
    → Forward
        (lookup (codes "message:" ++ x) st.store)
        (lookup (codes "message:" ++ x) (process_known evt o st).1.store)
unfolding process_known update_messages update_chat
process_known-Forward x evt none st = Forward-refl _
process_known-Forward x evt (some new) st =
    let loop =
      update_loop-Forward x evt.chat new (without_duplicates evt.message_ids) st.store no_updates in
    rw (update_found-same x evt.chat new evt.is_from_me) loop

-- Whatever receipt arrives, every record under a key of a message stays as it was, except that a
-- message's receipt may have moved, and then never back in the order unset, sent, delivered, read.
pub process_receipt-Forward :
    (evt : ReceiptEvent) (st : State) (x : Text)
    → Forward
        (lookup (codes "message:" ++ x) st.store)
        (lookup (codes "message:" ++ x) (process_receipt evt st).1.store)
unfolding process_receipt
process_receipt-Forward evt st x = process_known-Forward x evt (receipt_type_map evt.type) st
