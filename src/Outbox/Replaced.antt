-- ===== src/Outbox/Replaced.antt =====
-- The store after a pending message of src/pending_outbox.py was replaced by the message sent.
use greenline.Base.{
  ℕ, ◌≡◌, refl, sym, ◌∙◌, ap, false, ◌||◌, Option, none, some, [], Text, ◌==◌, eq_refl, eq_comm,
  is_empty, lookup, insert, erase, lookup-insert, lookup-erase, Bool-cases, inl, inr,
}
use greenline.Contracts.Refinement.{Store}
use greenline.Dyn.{Dyn}
use greenline.Keys.{message_storage_key, message_index_key, pending_outbox_key}
use greenline.Models.{Record, Message, StoredMessageRecord}
use greenline.Outbox.{sent_message, replace_sent}
use greenline.Outbox.Outside.{World, Reply}
use greenline.Outbox.Transport.{
  message_storage_record, stored_message_record, with_text_render_fields,
}
use greenline.Repository.{delete_message_index, put_message_index}
use greenline.State.{as_index}

module _ (chat_id message_id : Text) where
  -- The outbox's entries stand apart from the messages and from their index.
  pub pending-ne-index :
      (i j : Text) → (message_index_key i j == pending_outbox_key chat_id message_id) ≡ false
  unfolding message_index_key pending_outbox_key ◌==◌
  pending-ne-index i j = refl

  pub pending-ne-storage :
      (i : Text) (t : ℕ) (j : Text)
      → (message_storage_key i t j == pending_outbox_key chat_id message_id) ≡ false
  unfolding message_storage_key pending_outbox_key ◌==◌
  pending-ne-storage i t j = refl

  index-ne-storage :
      (i : Text) (t : ℕ) (j : Text)
      → (message_index_key chat_id message_id == message_storage_key i t j) ≡ false
  unfolding message_storage_key message_index_key ◌==◌
  index-ne-storage i t j = refl

stored_message :
    (W : World) (m : Message) (raw : Option Dyn)
    → (stored_message_record W m raw).message ≡ with_text_render_fields W m
unfolding stored_message_record
stored_message W m none = refl
stored_message W m (some raw) = refl

-- What a message sent leaves behind is not pending.
pub sent-status :
    (W : World) (m : Message) (reply : Reply)
    → (message_storage_record W (sent_message W m reply)).send_status ≡ []
unfolding message_storage_record with_text_render_fields
sent-status W m reply = ap (λ m. m.send_status) (stored_message W (sent_message W m reply) _)

pub no_index : (k : Text) → as_index none ≡ some k → ⊥
no_index k h = cc h

pub same_message :
    {a b : StoredMessageRecord} → ◌≡◌ {A = Option StoredMessageRecord} (some a) (some b) → a ≡ b
same_message h = cc h

same_text : {a b : Text} → ◌≡◌ {A = Option Text} (some a) (some b) → a ≡ b
same_text h = cc h

module _ (W : World) (key : Text) (m sent : Message) (s : Store) where
  abbrev sent_key : Text
  sent_key = message_storage_key sent.chat_id sent.timestamp_unix sent.id

  -- The store before the sent message's index entry is written.
  abbrev before_index : Store
  before_index = insert sent_key (Record.stored_message (message_storage_record W sent)) (
      erase (pending_outbox_key m.chat_id m.id) (delete_message_index m.chat_id m.id (erase key s)))

  before_index-none :
      (is_empty m.chat_id || is_empty m.id) ≡ false
      → lookup (message_index_key m.chat_id m.id) before_index ≡ none
  unfolding delete_message_index
  before_index-none h =
      rw
        (
          lookup-insert,
          eq_comm sent_key (message_index_key m.chat_id m.id),
          index-ne-storage m.chat_id m.id sent.chat_id sent.timestamp_unix sent.id,
        )
        (rw
          (
            lookup-erase,
            pending-ne-index m.chat_id m.id m.chat_id m.id,
            h,
            lookup-erase,
            eq_refl (message_index_key m.chat_id m.id),
          )
          refl)

  -- Where the pending message was indexed, either nothing is, or the message sent.
  pub replaced-index :
      (k : Text)
      → (is_empty m.chat_id || is_empty m.id) ≡ false
      → as_index (lookup (message_index_key m.chat_id m.id) (replace_sent W key m sent s)) ≡ some k
      → k ≡ sent_key
  unfolding replace_sent put_message_index
  replaced-index k h t =
      elim (Bool-cases (is_empty sent.chat_id || is_empty sent.id || is_empty sent_key)) [
        | inl e ↦ absurd (no_index k (ap as_index (sym (before_index-none h)) ∙ (rw e at t)))
        | inr n ↦
            elim (Bool-cases
              (message_index_key sent.chat_id sent.id == message_index_key m.chat_id m.id)) [
                | inl same ↦ sym (same_text (rw (n, lookup-insert, same) at t))
                | inr apart ↦ absurd (
                    no_index k (
                      ap as_index (sym (before_index-none h))
                      ∙ (rw (n, lookup-insert, apart) at t)))
              ]
      ]

  pub replaced-message :
      lookup sent_key (replace_sent W key m sent s)
      ≡ some (Record.stored_message (message_storage_record W sent))
  unfolding replace_sent put_message_index
  replaced-message =
      elim (Bool-cases (is_empty sent.chat_id || is_empty sent.id || is_empty sent_key)) [
        | inl e ↦ rw (e, lookup-insert, eq_refl sent_key) refl
        | inr n ↦
            rw
              (
                n,
                lookup-insert,
                index-ne-storage sent.chat_id sent.id sent.chat_id sent.timestamp_unix sent.id,
                lookup-insert,
                eq_refl sent_key,
              )
              refl
      ]
