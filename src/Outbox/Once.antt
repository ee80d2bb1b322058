-- ===== src/Outbox/Once.antt =====
-- A second attempt on a message of src/pending_outbox.py after one that sent it.
use greenline.Base.{
  ℕ, ◌≡◌, refl, sym, ◌∙◌, ap, Bool, true, false, ◌||◌, Option, none, some, arith, Text, codes, ◌==◌,
  any, is_empty, lookup, Bool-cases, inl, inr,
}
use greenline.Contracts.Refinement.{Store}
use greenline.Keys.{message_storage_key, message_index_key}
use greenline.Messages.Laws.{upsert_chat-other}
use greenline.Outbox.{
  Outbox, begin_pending_send, finish_pending_send, complete_pending_send, attempted, attempt_entry,
  attempt_body, attempt_pending_send, pending_send_token, sent_message, replace_sent, no_info,
}
use greenline.Outbox.Outside.{World, Reply}
use greenline.Outbox.Settled.{storage-IsOther}
use greenline.Outbox.Transport.{Sending, send_pending_message_via_rpc}
use greenline.Repository.{Entry, get_message_entry_with_key}
use greenline.Repository.Laws.{get_message_entry_with_key-IsFound, get_message_entry_with_key-index}
use greenline.State.{as_index, as_message}
use greenline.Unread.Quiet.{IsOther, index-IsOther}
use greenline.Outbox.Replaced.{sent-status, replaced-index, replaced-message, same_message}

-- What a successful attempt was: a pending message, found at its key, that was replaced by one sent.
record IsSent (W : World) (chat_id message_id : Text) (s t : Store) : Type 0 where
  entry : Entry
  reply : Reply
  found : (get_message_entry_with_key chat_id message_id s).0 ≡ some entry
  pending : (entry.1.send_status == codes "pending") ≡ true
  keeps :
      (k : Text)
      → (IsOther k)
      → lookup k t
        ≡ lookup k (replace_sent W entry.0 entry.1.message (sent_message W entry.1.message reply) s)

module _ (W : World) (now : ℕ) (chat_id message_id : Text) where
  attempted-IsSent :
      (e : Entry) (r : Sending) (o : Outbox) (s : Store)
      → (get_message_entry_with_key chat_id message_id s).0 ≡ some e
      → (e.1.send_status == codes "pending") ≡ true
      → o.state.store ≡ s
      → (attempted W now chat_id message_id e r o).0 ≡ true
      → IsSent W chat_id message_id s (attempted W now chat_id message_id e r o).1.state.store
  unfolding attempted complete_pending_send
  attempted-IsSent (key, m) (Sending.sent reply) o s at p same t = record {
    entry = (key, m);
    reply = reply;
    found = at;
    pending = p;
    keeps = λ k other.
        upsert_chat-other W.unicode (sent_message W m.message reply) no_info true _ k other
        ∙ ap (λ x. lookup k (replace_sent W key m.message (sent_message W m.message reply) x)) same;
  }
  attempted-IsSent (key, m) Sending.refused o s at p same t = absurd (cc t)
  attempted-IsSent (key, m) Sending.unreachable o s at p same t = absurd (cc t)

  entry-IsSent :
      (found : Option Entry) (o : Outbox) (s : Store)
      → (get_message_entry_with_key chat_id message_id s).0 ≡ found
      → ((e : Entry) → found ≡ some e → o.state.store ≡ s)
      → (attempt_entry W now chat_id message_id found o).0 ≡ true
      → IsSent W chat_id message_id s (attempt_entry W now chat_id message_id found o).1.state.store
  unfolding attempt_entry
  entry-IsSent none o s at same t = absurd (cc t)
  entry-IsSent (some e) o s at same t = elim (Bool-cases (e.1.send_status == codes "pending")) [
    | inl p ↦ rw p (
        attempted-IsSent e (send_pending_message_via_rpc W o.state e.1.message) o s at p
          (same e refl) (rw p at t))
    | inr n ↦ absurd (cc (rw n at t))
  ]

  attempt-IsSent :
      (o : Outbox)
      → (attempt_pending_send W now chat_id message_id o).0 ≡ true
      → IsSent W chat_id message_id o.state.store
          (attempt_pending_send W now chat_id message_id o).1.state.store
  unfolding attempt_pending_send begin_pending_send finish_pending_send attempt_body
  attempt-IsSent o t =
      elim (Bool-cases (any (λ x. x == pending_send_token chat_id message_id) o.in_flight)) [
        | inl e ↦ absurd (cc (rw e at t))
        | inr n ↦ rw n (
            entry-IsSent (get_message_entry_with_key chat_id message_id o.state.store).0 _
              o.state.store refl
              (λ e found.
                (get_message_entry_with_key-IsFound chat_id message_id o.state.store e found).1)
              (rw n at t))
      ]

-- After a message is sent, no pending message is found by its id.
not_pending_again :
    (W : World) (chat_id message_id : Text) (s t : Store) (e : Entry)
    → IsSent W chat_id message_id s t
    → (get_message_entry_with_key chat_id message_id t).0 ≡ some e
    → (e.1.send_status == codes "pending") ≡ false
unfolding ◌==◌
not_pending_again W chat_id message_id s t e sent at =
    let m = sent.entry.1.message in
    let new = sent_message W m sent.reply in
    let was = get_message_entry_with_key-IsFound chat_id message_id s sent.entry sent.found in
    let now = get_message_entry_with_key-IsFound chat_id message_id t e at in
    let (indexed, ids) = get_message_entry_with_key-index chat_id message_id t e at in
    let indexed' : as_index (lookup (message_index_key m.chat_id m.id) t) ≡ some e.0 =
      rw (was.0.same_chat, was.0.same_id) indexed in
    let ids' : (is_empty m.chat_id || is_empty m.id) ≡ false =
      rw (was.0.same_chat, was.0.same_id) ids in
    let k = message_storage_key new.chat_id new.timestamp_unix new.id in
    let at_key : e.0 ≡ k = replaced-index W sent.entry.0 m new s e.0 ids' (
      ap as_index
        (sym (sent.keeps (message_index_key m.chat_id m.id) (index-IsOther m.chat_id m.id)))
      ∙ indexed') in
    let written = ap as_message (
      ap (λ x. lookup x t) at_key
      ∙ sent.keeps k (storage-IsOther new.chat_id new.timestamp_unix new.id)
      ∙ replaced-message W sent.entry.0 m new s) in
    let same = same_message (sym now.0.stored ∙ written) in
    ap (λ x. x.send_status == codes "pending") same
    ∙ ap (λ x. x == codes "pending") (sent-status W m sent.reply)

-- After an attempt that sent a message and returned, another attempt for its id, at any time and before
-- another change of the store, returns false.
pub attempt_once :
    (W : World) (now later : ℕ) (chat_id message_id : Text) (o : Outbox)
    → (attempt_pending_send W now chat_id message_id o).0 ≡ true
    → (attempt_pending_send W later chat_id message_id
        (attempt_pending_send W now chat_id message_id o).1).0
      ≡ false
attempt_once W now later chat_id message_id o t =
    let after = (attempt_pending_send W now chat_id message_id o).1 in
    let first = attempt-IsSent W now chat_id message_id o t in
    elim (Bool-cases (attempt_pending_send W later chat_id message_id after).0) [
      | inr refused ↦ refused
      | inl again ↦
          let second = attempt-IsSent W later chat_id message_id after again in
          let not_pending =
            not_pending_again W chat_id message_id o.state.store after.state.store second.entry
              first second.found in
          absurd (differ second.pending not_pending)
    ]
  where
    differ : {b : Bool} → b ≡ true → b ≡ false → ⊥
    differ p q = grind arith
