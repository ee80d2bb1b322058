-- ===== src/Outbox/Interrupted.antt =====
-- An attempt of src/pending_outbox.py in which a call of the store, of `upsert_chat` or of the user interface
-- raises: `_attempt_pending_send` with its `finally`.
pub mod InFlight
use greenline.Base.{
  ℕ, zero, suc, ◌≡◌, refl, Bool, true, false, Option, none, some, List, [], ◌∷◌, ◌++◌, Text, codes,
  ◌==◌, any, insert, erase, All, Bool-cases, inl, inr, if◌then◌else◌,
}
use mathlib.Core.Path.{subst}
use greenline.Contracts.Refinement.{Store}
use greenline.Keys.{pending_outbox_key, message_storage_key}
use greenline.Messages.{upsert_chat}
use greenline.Models.{Record, Message, StoredMessageRecord}
use greenline.Repository.{
  Entry, put_message_index, delete_message_index, get_message_entry_with_key,
}
use greenline.Outbox.{
  announce, complete_pending_send, replace_sent, mark_pending_message_failed, Outbox, no_info,
  on_store, begin_pending_send, finish_pending_send, failed_message, sent_message, attempt_body,
  attempt_pending_send, pending_send_token,
}
use greenline.Outbox.Outside.{World, UiEvent, Reply}
use greenline.Outbox.Transport.{Sending, message_storage_record, send_pending_message_via_rpc}
use greenline.Outbox.Laws.{body-in_flight, finish-in_flight}

-- How an attempt ends: it returns, or an exception leaves it.
pub data Attempt : Type 0 where
  returned : Bool → Outbox → Attempt
  raised : Outbox → Attempt

abbrev pub left : Attempt → Outbox
left (returned sent o) = o
left (raised o) = o

-- The state before each of some writes of the store; each write is committed by itself.
unfoldable before_writes : List (Store → Store) → Outbox → List Outbox
before_writes [] o = []
before_writes (f ∷ fs) o = o ∷ before_writes fs (on_store f o)

unfoldable after_writes : List (Store → Store) → Outbox → Outbox
after_writes [] o = o
after_writes (f ∷ fs) o = after_writes fs (on_store f o)

-- The state that is there when the call of a number begins; `none` where there are fewer calls.
abbrev call_at : ℕ → List Outbox → Option Outbox
call_at n [] = none
call_at zero (o ∷ os) = some o
call_at (suc n) (o ∷ os) = call_at n os

-- `finally: _finish_pending_send(chat_id, message_id)`
unfoldable finally : Text → Text → Attempt → Attempt
unfolding finish_pending_send
finally chat_id message_id (returned sent o) =
    returned sent (finish_pending_send chat_id message_id o)
finally chat_id message_id (raised o) = raised (finish_pending_send chat_id message_id o)

module _ (W : World) where
  -- The state before `upsert_chat`, which is one call here, and before each of the two reports to the user interface.
  abbrev before_announce : Message → Outbox → List Outbox
  before_announce message o =
      let (chat, st) = upsert_chat W.unicode message no_info true o.state in
      o
      ∷ record o { state = st }
      ∷ record o { state = st; reported = o.reported ++ (UiEvent.message_upsert message ∷ []) }
      ∷ []

  abbrev failure_writes : Text → Message → List (Store → Store)
  failure_writes entry_key m =
      insert entry_key (Record.stored_message (message_storage_record W m))
      ∷ erase (pending_outbox_key m.chat_id m.id)
      ∷ []

  abbrev completion_writes : Text → Message → Message → List (Store → Store)
  completion_writes entry_key m sent =
      let storage_key = message_storage_key sent.chat_id sent.timestamp_unix sent.id in
      erase entry_key
      ∷ delete_message_index m.chat_id m.id
      ∷ erase (pending_outbox_key m.chat_id m.id)
      ∷ insert storage_key (Record.stored_message (message_storage_record W sent))
      ∷ put_message_index sent.chat_id sent.id storage_key
      ∷ []

  abbrev before_calls_of : List (Store → Store) → Message → Outbox → List Outbox
  before_calls_of writes message o =
      before_writes writes o ++ before_announce message (after_writes writes o)

  -- The state before each call, after the message was sent or was not; sending catches its exceptions.
  before_sending_calls : Entry → Sending → Outbox → List Outbox
  before_sending_calls (key, m) (Sending.sent reply) o =
      let sent = sent_message W m.message reply in
      before_calls_of (completion_writes key m.message sent) sent o
  before_sending_calls (key, m) Sending.refused o =
      before_calls_of (failure_writes key (failed_message W m.message)) (failed_message W m.message)
        o
  before_sending_calls e Sending.unreachable o = o ∷ []

  before_entry_calls : Option Entry → Outbox → List Outbox
  unfolding before_sending_calls
  before_entry_calls none o = o ∷ []
  before_entry_calls (some e) o =
      if e.1.send_status == codes "pending"
      then before_sending_calls e (send_pending_message_via_rpc W o.state e.1.message) o
      else o ∷ []

  -- The state before each call of the body of the `try` that can raise, the look-up first.
  before_calls : Text → Text → Outbox → List Outbox
  unfolding before_entry_calls
  before_calls chat_id message_id o =
      let (found, s) = get_message_entry_with_key chat_id message_id o.state.store in
      o ∷ before_entry_calls found (on_store (λ old. s) o)

  abbrev interrupted : Option Outbox → Bool × Outbox → Attempt
  interrupted none (sent, o) = returned sent o
  interrupted (some o) end = raised o

  -- The body, where the call of a number raises, or none does.
  guarded_body : ℕ → Text → Text → Option ℕ → Outbox → Attempt
  unfolding before_calls attempt_body
  guarded_body now chat_id message_id none o =
      interrupted none (attempt_body W now chat_id message_id o)
  guarded_body now chat_id message_id (some call) o =
      interrupted (call_at call (before_calls chat_id message_id o))
        (attempt_body W now chat_id message_id o)

  unfoldable pub attempt_with_raise : ℕ → Text → Text → Option ℕ → Outbox → Attempt
  unfolding guarded_body finally begin_pending_send before_writes after_writes
  attempt_with_raise now chat_id message_id raising o =
      let (begun, o') = begin_pending_send chat_id message_id o in
      if begun
      then finally chat_id message_id (guarded_body now chat_id message_id raising o')
      else returned false o

-- The writes of a completion and of a failure are those of `_complete_pending_send` and of
-- `_mark_pending_message_failed`, in their order.
completion_writes-complete_pending_send :
    (W : World) (entry_key : Text) (m : Message) (reply : Reply) (o : Outbox)
    → announce W
        (sent_message W m reply)
        (after_writes (completion_writes W entry_key m (sent_message W m reply)) o)
      ≡ complete_pending_send W entry_key m reply o
unfolding after_writes complete_pending_send replace_sent
completion_writes-complete_pending_send W entry_key m reply o = refl

failure_writes-mark_pending_message_failed :
    (W : World) (entry_key : Text) (r : StoredMessageRecord) (o : Outbox)
    → announce W
        (failed_message W r.message)
        (after_writes (failure_writes W entry_key (failed_message W r.message)) o)
      ≡ mark_pending_message_failed W entry_key r o
unfolding after_writes mark_pending_message_failed
failure_writes-mark_pending_message_failed W entry_key r o = refl
