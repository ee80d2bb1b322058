-- ===== src/Outbox.antt =====
-- src/pending_outbox.py: messages that wait to be sent, the attempts to send them and the retries.
pub mod Outside
pub mod Transport
pub mod Backoff
pub mod Settled
pub mod Laws
pub mod Interrupted
pub mod Retries
pub mod Replaced
pub mod Once
pub mod Settles
use greenline.Base.{
  ℕ, suc, ◌+◌, ◌-◌, ◌*◌, ◌^◌, min, Bool, true, false, ◌||◌, not, Option, none, some, List, [], ◌∷◌,
  ◌++◌, Text, codes, ◌==◌, is_empty, starts_with, drop, any, select, lookup, insert, erase, ltb,
  if◌then◌else◌,
}
use greenline.Events.{MessageInfo}
use greenline.Keys.{pending_outbox_key, message_storage_key}
use greenline.Kv.Like.{like_prefix}
use greenline.Messages.{upsert_chat}
use greenline.Models.{
  Record, Message, MessageType, StoredMessageRecord, ChatListItem, ReadReceipt, PendingOutboxRecord,
}
use greenline.Repository.{
  Entry, put_message_index, delete_message_index, get_message_entry_with_key,
}
use greenline.State.{State, put_record, delete_record}
use greenline.Contracts.Refinement.{Store}
use greenline.Outbox.Outside.{World, UiEvent, Reply}
use greenline.Outbox.Transport.{Sending, message_storage_record, send_pending_message_via_rpc}

-- The store, `_PENDING_SEND_IN_FLIGHT` and what was reported to the user interface, latest last.
pub record Outbox : Type 0 where
  pub state : State
  pub in_flight : List Text
  pub reported : List UiEvent

abbrev pub pending_retry_interval_seconds : ℕ
pending_retry_interval_seconds = 1

abbrev pub pending_retry_max_backoff_seconds : ℕ
pending_retry_max_backoff_seconds = 300

abbrev pub pending_outbox_key_prefix : Text
pending_outbox_key_prefix = codes "pending-outbox:"

unfoldable pub pending_send_token : Text → Text → Text
pending_send_token chat_id message_id = chat_id ++ (codes ":" ++ message_id)

-- `MessageInfo()`
abbrev pub no_info : MessageInfo
no_info = record {
  chat = [];
  sender = [];
  is_from_me = false;
  sender_alt = [];
  id = [];
  type = [];
  push_name = [];
  timestamp = [];
  media_type = [];
  edit = [];
  edit_target_id = [];
  meta_target_id = [];
  verified_name = none;
}

abbrev pub as_pending : Option Record → Option PendingOutboxRecord
as_pending (some (Record.pending_outbox p)) = some p
as_pending _ = none

-- `_begin_pending_send`: whether the message was not in flight, and is now.
unfoldable pub begin_pending_send : Text → Text → Outbox → Bool × Outbox
begin_pending_send chat_id message_id o =
    let token = pending_send_token chat_id message_id in
    if any (λ t. t == token) o.in_flight
    then (false, o)
    else (true, record o { in_flight = token ∷ o.in_flight })

unfoldable pub finish_pending_send : Text → Text → Outbox → Outbox
finish_pending_send chat_id message_id o = record o {
  in_flight = select (λ t. not (t == pending_send_token chat_id message_id)) o.in_flight;
}

unfoldable pub clear_pending_outbox_entry : Text → Text → Outbox → Outbox
clear_pending_outbox_entry chat_id message_id o = record o {
  state = delete_record (pending_outbox_key chat_id message_id) o.state;
}

-- `existing.attempt_count`, 0 by the default
abbrev pub attempts : Option PendingOutboxRecord → ℕ
attempts none = 0
attempts (some p) = p.attempt_count

-- `delay_seconds` at an attempt count
unfoldable pub delay_seconds : ℕ → ℕ
delay_seconds attempt_count =
    min pending_retry_max_backoff_seconds
      (pending_retry_interval_seconds * 2 ^ min (attempt_count - 1) 5)

-- `now` is `int(time.time())`.
unfoldable pub schedule_pending_retry : ℕ → Text → Text → Outbox → Outbox
unfolding delay_seconds
schedule_pending_retry now chat_id message_id o =
    let key = pending_outbox_key chat_id message_id in
    let attempt_count = attempts (as_pending (lookup key o.state.store)) + 1 in
    record o {
      state =
          put_record key
            (Record.pending_outbox (record {
              chat_id = chat_id;
              message_id = message_id;
              attempt_count = attempt_count;
              next_attempt_at = now + delay_seconds attempt_count;
            }))
            o.state;
    }

abbrev pub report : Message → ChatListItem → List UiEvent → List UiEvent
report message chat events =
    events ++ (UiEvent.message_upsert message ∷ UiEvent.chat_list_update chat ∷ [])

-- `upsert_chat(message, MessageInfo())`, then `_emit_message_change(message, chat)`
abbrev pub announce : World → Message → Outbox → Outbox
announce W message o =
    let (chat, st) = upsert_chat W.unicode message no_info true o.state in
    record o { state = st; reported = report message chat o.reported }

-- A write of messages and of outbox entries.
abbrev pub on_store : (Store → Store) → Outbox → Outbox
on_store f o = record o { state = record o.state { store = f o.state.store } }

module _ (W : World) where
  abbrev pub pending_entry : Message → Record
  pending_entry message = Record.pending_outbox (record {
    chat_id = message.chat_id;
    message_id = message.id;
    attempt_count = 0;
    next_attempt_at = 0;
  })

  -- `_store_pending_message` and what `queue_and_attempt_send` does before it schedules the event.
  unfoldable pub store_pending_message : Message → Outbox → Outbox
  store_pending_message message o =
      let storage_key = message_storage_key message.chat_id message.timestamp_unix message.id in
      announce W message (
        on_store
          (λ s. insert (pending_outbox_key message.chat_id message.id) (pending_entry message) (
            put_message_index message.chat_id message.id storage_key
              (insert storage_key (Record.stored_message (message_storage_record W message)) s)))
          o)

  abbrev pub failed_message : Message → Message
  failed_message m = record m { send_status = codes "failed"; read_receipt = ReadReceipt.unset }

  unfoldable pub mark_pending_message_failed : Text → StoredMessageRecord → Outbox → Outbox
  mark_pending_message_failed entry_key entry o =
      let m = failed_message entry.message in
      announce W m (
        on_store
          (λ s.
            erase (pending_outbox_key m.chat_id m.id)
              (insert entry_key (Record.stored_message (message_storage_record W m)) s))
          o)

  abbrev pub sent_message : Message → Reply → Message
  sent_message m reply = record m {
    id = reply.message_id;
    timestamp = W.clock_text reply.timestamp;
    timestamp_unix = reply.timestamp;
    read_receipt = ReadReceipt.sent;
    send_status = [];
    temp_id = m.id;
  }

  -- The writes of `_complete_pending_send`: the pending message, its index entry and its outbox entry
  -- go, the sent message and its index entry come.
  unfoldable pub replace_sent : Text → Message → Message → Store → Store
  replace_sent entry_key m sent s =
      let storage_key = message_storage_key sent.chat_id sent.timestamp_unix sent.id in
      put_message_index sent.chat_id sent.id storage_key (
        insert storage_key (Record.stored_message (message_storage_record W sent)) (
          erase (pending_outbox_key m.chat_id m.id)
            (delete_message_index m.chat_id m.id (erase entry_key s))))

  unfoldable pub complete_pending_send : Text → Message → Reply → Outbox → Outbox
  unfolding replace_sent
  complete_pending_send entry_key m reply o =
      let sent = sent_message m reply in
      announce W sent (on_store (replace_sent entry_key m sent) o)

  attempted : ℕ → Text → Text → Entry → Sending → Outbox → Bool × Outbox
  attempted now chat_id message_id (key, m) (Sending.sent reply) o =
      (true, complete_pending_send key m.message reply o)
  attempted now chat_id message_id (key, m) Sending.refused o =
      (false, mark_pending_message_failed key m o)
  attempted now chat_id message_id e Sending.unreachable o =
      (false, schedule_pending_retry now chat_id message_id o)

  attempt_entry : ℕ → Text → Text → Option Entry → Outbox → Bool × Outbox
  unfolding attempted
  attempt_entry now chat_id message_id none o =
      (false, clear_pending_outbox_entry chat_id message_id o)
  attempt_entry now chat_id message_id (some e) o =
      if e.1.send_status == codes "pending"
      then attempted now chat_id message_id e (send_pending_message_via_rpc W o.state e.1.message) o
      else (false, clear_pending_outbox_entry chat_id message_id o)

  -- The body of `_attempt_pending_send`'s `try`.
  pub attempt_body : ℕ → Text → Text → Outbox → Bool × Outbox
  unfolding attempt_entry
  attempt_body now chat_id message_id o =
      let (found, s) = get_message_entry_with_key chat_id message_id o.state.store in
      attempt_entry now chat_id message_id found (on_store (λ old. s) o)

  -- `_attempt_pending_send` where no exception leaves it; Interrupted has those that do.
  unfoldable pub attempt_pending_send : ℕ → Text → Text → Outbox → Bool × Outbox
  unfolding attempt_body begin_pending_send finish_pending_send
  attempt_pending_send now chat_id message_id o =
      let (begun, o') = begin_pending_send chat_id message_id o in
      let (sent, o'') = attempt_body now chat_id message_id o' in
      if begun then (sent, finish_pending_send chat_id message_id o'') else (false, o)

  -- One entry of the retries: a broken one is deleted, one that is not due stays.
  unfoldable pub retry_entry : ℕ → (Text → ℕ) → Text → PendingOutboxRecord → Outbox → Outbox
  unfolding attempt_pending_send
  retry_entry now clock key p o =
      if is_empty p.chat_id || is_empty p.message_id
      then record o { state = delete_record key o.state }
      else if ltb now p.next_attempt_at
      then o
      else (attempt_pending_send (clock key) p.chat_id p.message_id o).1

  retry_loop : ℕ → (Text → ℕ) → List (Text × PendingOutboxRecord) → Outbox → Outbox
  unfolding retry_entry
  retry_loop now clock [] o = o
  retry_loop now clock ((key, p) ∷ entries) o =
      retry_loop now clock entries (retry_entry now clock key p o)

  -- The rows under the prefix, before they are sorted by their value.
  unfoldable pub pending_rows : Store → List (Text × PendingOutboxRecord)
  pending_rows [] = []
  pending_rows ((k, r) ∷ s) =
      let rest = pending_rows s in
      if like_prefix pending_outbox_key_prefix k
      then elim (as_pending (some r)) [ none ↦ rest | some p ↦ (k, p) ∷ rest ]
      else rest

  -- `PendingMessageRetryEvent.trigger`; `clock` is the time that an attempt reads for its own retry.
  unfoldable pub trigger_retries : ℕ → (Text → ℕ) → Outbox → Outbox
  unfolding retry_loop pending_rows
  trigger_retries now clock o = retry_loop now clock (W.by_value (pending_rows o.state.store)) o
