-- ===== src/Outbox/Settled.antt =====
-- What the writes of src/pending_outbox.py do to the other records of the store, and to the unread
-- total.
use greenline.Base.{ℕ, refl, true, Text, ◌==◌, is_empty, ◌||◌, Bool-cases, inl, inr}
use greenline.Contracts.Refinement.{Store}
use greenline.Keys.{unread_total_key, pending_outbox_key, message_storage_key}
use greenline.Kv.Like.{like_prefix}
use greenline.Messages.{upsert_chat}
use greenline.Messages.Laws.{upsert_chat-IsSound}
use greenline.Models.{Message, StoredMessageRecord}
use greenline.Outbox.{
  Outbox, no_info, store_pending_message, mark_pending_message_failed, complete_pending_send,
  replace_sent, sent_message, failed_message,
}
use greenline.Outbox.Outside.{World, Reply}
use greenline.Repository.{put_message_index, delete_message_index}
use greenline.State.{State}
use greenline.Unread.Quiet.{
  IsOther, Quiet, Quiet-refl, Quiet-trans, Quiet-insert, Quiet-erase, Quiet-IsCounted,
  index-IsOther,
}
use greenline.Unread.Sums.{IsSound}

pub outbox-IsOther : (chat_id message_id : Text) → IsOther (pending_outbox_key chat_id message_id)
unfolding pending_outbox_key unread_total_key like_prefix ◌==◌
outbox-IsOther chat_id message_id = record { no_chat = refl; no_total = refl }

pub storage-IsOther :
    (chat_id : Text) (time : ℕ) (message_id : Text)
    → IsOther (message_storage_key chat_id time message_id)
unfolding message_storage_key unread_total_key like_prefix ◌==◌
storage-IsOther chat_id time message_id = record { no_chat = refl; no_total = refl }

pub put_message_index-Quiet :
    (chat_id message_id key : Text) (s : Store)
    → Quiet s (put_message_index chat_id message_id key s)
unfolding put_message_index
put_message_index-Quiet chat_id message_id key s =
    elim (Bool-cases (is_empty chat_id || is_empty message_id || is_empty key)) [
      | inl e ↦ rw e (Quiet-refl s)
      | inr n ↦ rw n (Quiet-insert _ _ s (index-IsOther chat_id message_id))
    ]

pub delete_message_index-Quiet :
    (chat_id message_id : Text) (s : Store) → Quiet s (delete_message_index chat_id message_id s)
unfolding delete_message_index
delete_message_index-Quiet chat_id message_id s =
    elim (Bool-cases (is_empty chat_id || is_empty message_id)) [
      | inl e ↦ rw e (Quiet-refl s)
      | inr n ↦ rw n (Quiet-erase _ s (index-IsOther chat_id message_id))
    ]

pub Quiet-IsSound : {s t : Store} → Quiet s t → IsSound s → IsSound t
Quiet-IsSound q sound = (q.ascending sound.0, Quiet-IsCounted q sound.1)

module _ (W : World) where
  pub announce-IsSound :
      (m : Message) (st : State)
      → IsSound st.store
      → IsSound (upsert_chat W.unicode m no_info true st).1.store
  announce-IsSound m st sound = upsert_chat-IsSound W.unicode m no_info true st sound

  -- A message that is queued keeps the unread total the sum.
  pub store_pending_message-IsSound :
      (m : Message) (o : Outbox)
      → IsSound o.state.store
      → IsSound (store_pending_message W m o).state.store
  unfolding store_pending_message
  store_pending_message-IsSound m o sound = announce-IsSound m _ (
      Quiet-IsSound
        (Quiet-trans
          (Quiet-insert _ _ o.state.store (storage-IsOther m.chat_id m.timestamp_unix m.id))
          (Quiet-trans (put_message_index-Quiet _ _ _ _)
            (Quiet-insert _ _ _ (outbox-IsOther m.chat_id m.id))))
        sound)

  module _ (key : Text) (other : IsOther key) where
    pub mark_failed-IsSound :
        (e : StoredMessageRecord) (o : Outbox)
        → IsSound o.state.store
        → IsSound (mark_pending_message_failed W key e o).state.store
    unfolding mark_pending_message_failed
    mark_failed-IsSound e o sound = announce-IsSound (failed_message W e.message) _ (
        Quiet-IsSound
          (Quiet-trans (Quiet-insert key _ o.state.store other)
            (Quiet-erase _ _ (outbox-IsOther e.chat_id e.id)))
          sound)

    pub complete-IsSound :
        (m : Message) (reply : Reply) (o : Outbox)
        → IsSound o.state.store
        → IsSound (complete_pending_send W key m reply o).state.store
    unfolding complete_pending_send replace_sent
    complete-IsSound m reply o sound =
        let sent = sent_message W m reply in
        announce-IsSound sent _ (
          Quiet-IsSound
            (Quiet-trans (Quiet-erase key o.state.store other) (
              Quiet-trans (delete_message_index-Quiet m.chat_id m.id _) (
                Quiet-trans (Quiet-erase _ _ (outbox-IsOther m.chat_id m.id)) (
                  Quiet-trans
                    (Quiet-insert _ _ _ (storage-IsOther sent.chat_id sent.timestamp_unix sent.id))
                    (put_message_index-Quiet _ _ _ _)))))
            sound)
