-- ===== src/Outbox/Settles.antt =====
-- What an attempt of src/pending_outbox.py leaves of the message's entry in the outbox.
use greenline.Base.{
  ℕ, ◌≡◌, ◌⊎◌, refl, sym, ◌∙◌, true, false, ◌||◌, Option, none, some, Text, codes, ◌==◌, eq_refl,
  any, is_empty, lookup, erase, lookup-insert, lookup-erase, Bool-cases, inl, inr,
}
use greenline.Contracts.Refinement.{Store}
use greenline.Keys.{message_storage_key, pending_outbox_key}
use greenline.Messages.Laws.{upsert_chat-other}
use greenline.Models.{Message, PendingOutboxRecord}
use greenline.Outbox.{
  Outbox, begin_pending_send, finish_pending_send, clear_pending_outbox_entry,
  mark_pending_message_failed, complete_pending_send, attempted, attempt_entry, attempt_body,
  attempt_pending_send, pending_send_token, sent_message, failed_message, replace_sent, as_pending,
  attempts, no_info,
}
use greenline.Outbox.Backoff.{IsPutOff, schedule-IsPutOff}
use greenline.Outbox.Replaced.{pending-ne-index, pending-ne-storage}
use greenline.Outbox.Outside.{World}
use greenline.Outbox.Settled.{outbox-IsOther}
use greenline.Outbox.Transport.{Sending, send_pending_message_via_rpc}
use greenline.Repository.{Entry, get_message_entry_with_key, put_message_index}
use greenline.Repository.Laws.{IsFound, get_message_entry_with_key-IsFound}

replace_sent-removes :
    (W : World) (key : Text) (m sent : Message) (s : Store)
    → lookup (pending_outbox_key m.chat_id m.id) (replace_sent W key m sent s) ≡ none
unfolding replace_sent put_message_index
replace_sent-removes W key m sent s =
    let k = message_storage_key sent.chat_id sent.timestamp_unix sent.id in
    elim (Bool-cases (is_empty sent.chat_id || is_empty sent.id || is_empty k)) [
      | inl e ↦
          rw
            (
              e,
              lookup-insert,
              pending-ne-storage m.chat_id m.id sent.chat_id sent.timestamp_unix sent.id,
              lookup-erase,
              eq_refl (pending_outbox_key m.chat_id m.id),
            )
            refl
      | inr n ↦
          rw
            (
              n,
              lookup-insert,
              pending-ne-index m.chat_id m.id sent.chat_id sent.id,
              lookup-insert,
              pending-ne-storage m.chat_id m.id sent.chat_id sent.timestamp_unix sent.id,
              lookup-erase,
              eq_refl (pending_outbox_key m.chat_id m.id),
            )
            refl
    ]

-- The entry of a message in the outbox is gone, or it was put off once more.
abbrev pub IsSettled : ℕ → Text → Text → Store → Store → Type 0
IsSettled now chat_id message_id s t =
    let key = pending_outbox_key chat_id message_id in
    (lookup key t ≡ none)
    ⊎ ((p : PendingOutboxRecord) × (as_pending (lookup key t) ≡ some p)
        × IsPutOff now (attempts (as_pending (lookup key s))) p)

module _ (W : World) (now : ℕ) (chat_id message_id : Text) where
  attempted-IsSettled :
      (e : Entry) (r : Sending) (o : Outbox)
      → e.1.chat_id ≡ chat_id
      → e.1.id ≡ message_id
      → IsSettled now chat_id message_id o.state.store
          (attempted W now chat_id message_id e r o).1.state.store
  unfolding attempted complete_pending_send mark_pending_message_failed
  attempted-IsSettled (key, m) (Sending.sent reply) o c i =
      rw (sym c, sym i)
        (inl (
          upsert_chat-other W.unicode (sent_message W m.message reply) no_info true _ _
            (outbox-IsOther m.chat_id m.id)
          ∙ replace_sent-removes W key m.message (sent_message W m.message reply) o.state.store))
  attempted-IsSettled (key, m) Sending.refused o c i =
      rw (sym c, sym i)
        (inl (
          upsert_chat-other W.unicode (failed_message W m.message) no_info true _ _
            (outbox-IsOther m.chat_id m.id)
          ∙ rw (lookup-erase, eq_refl (pending_outbox_key m.chat_id m.id)) refl))
  attempted-IsSettled (key, m) Sending.unreachable o c i =
      inr (schedule-IsPutOff now chat_id message_id o)

  cleared :
      (s : Store)
      → lookup
          (pending_outbox_key chat_id message_id)
          (erase (pending_outbox_key chat_id message_id) s)
        ≡ none
  cleared s = rw (lookup-erase, eq_refl (pending_outbox_key chat_id message_id)) refl

  entry-IsSettled :
      (found : Option Entry) (o : Outbox) (s : Store)
      → ((e : Entry) → found ≡ some e → IsFound chat_id message_id s e × (o.state.store ≡ s))
      → IsSettled now chat_id message_id s
          (attempt_entry W now chat_id message_id found o).1.state.store
  unfolding attempt_entry clear_pending_outbox_entry
  entry-IsSettled none o s at = inl (cleared o.state.store)
  entry-IsSettled (some e) o s at = elim (Bool-cases (e.1.send_status == codes "pending")) [
    | inl p ↦
        let (found, same) = at e refl in
        rw (p, sym same)
          (attempted-IsSettled e (send_pending_message_via_rpc W o.state e.1.message) o
            found.same_chat found.same_id)
    | inr n ↦ rw n (inl (cleared o.state.store))
  ]

  -- After an attempt that returns, for a message that is not in flight, its entry in the outbox is gone, or
  -- it counts one attempt more and is due within the next 32 seconds, and not at once.
  pub attempt-IsSettled :
      (o : Outbox)
      → any (λ t. t == pending_send_token chat_id message_id) o.in_flight ≡ false
      → IsSettled now chat_id message_id o.state.store
          (attempt_pending_send W now chat_id message_id o).1.state.store
  unfolding attempt_pending_send begin_pending_send finish_pending_send attempt_body
  attempt-IsSettled o idle = rw idle (
      entry-IsSettled (get_message_entry_with_key chat_id message_id o.state.store).0 _
        o.state.store
        (λ e found. get_message_entry_with_key-IsFound chat_id message_id o.state.store e found))
