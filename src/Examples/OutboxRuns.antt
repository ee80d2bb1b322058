-- ===== src/Examples/OutboxRuns.antt =====
-- The theorems on src/pending_outbox.py at a store with one message that waits to be sent.
use greenline.Base.{
  min, ◌*◌, ◌≤◌, ◌<◌, ◌≡◌, refl, some, none, false, codes, ◌==◌, insert, lookup, decimal, before,
  starts_with,
}
use greenline.Keys.{
  chat_key, message_storage_key, message_index_key, message_prefix, pending_outbox_key,
  unread_total_key,
}
use greenline.Models.Fresh.{new_message}
use greenline.Outbox.{attempt_pending_send, trigger_retries, delay_seconds, begin_pending_send}
use greenline.Outbox.Backoff.{delay_doubles}
use greenline.Outbox.Interrupted.{left, returned, attempt_with_raise}
use greenline.Outbox.Interrupted.InFlight.{attempt_with_raise-in_flight}
use greenline.Outbox.Laws.{attempt-IsSound}
use greenline.Outbox.Once.{attempt_once}
use greenline.Outbox.Retries.{trigger_retries-IsSound}
use greenline.Outbox.Settles.{IsSettled, attempt-IsSettled}
use greenline.Outbox.Transport.{send_pending_message_via_rpc, pending_reply_context}
use greenline.Repository.{get_message_entry_with_key}
use greenline.Unread.Sums.{IsSound}
use greenline.Examples.{world, outbox, ann, store-IsSound}

-- The first attempt sends the message, so that a second one is refused.
attempt_once_example :
    (attempt_pending_send world 130 ann
      (codes "m1")
      (attempt_pending_send world 101 ann (codes "m1") outbox).1).0
    ≡ false
unfolding attempt_pending_send begin_pending_send get_message_entry_with_key lookup insert
    starts_with message_prefix message_index_key message_storage_key ◌==◌
    send_pending_message_via_rpc new_message before chat_key pending_outbox_key unread_total_key
    decimal pending_reply_context
attempt_once_example = attempt_once world 101 130 ann (codes "m1") outbox refl

attempt-IsSettled_example :
    IsSettled 101 ann
      (codes "m1")
      outbox.state.store
      (attempt_pending_send world 101 ann (codes "m1") outbox).1.state.store
attempt-IsSettled_example = attempt-IsSettled world 101 ann (codes "m1") outbox refl

attempt_with_raise-in_flight_example :
    ((left (attempt_with_raise world 101 ann (codes "m1") (some 3) outbox)).in_flight
      ≡ outbox.in_flight)
    × (attempt_with_raise world 101 ann (codes "m1") none outbox ≡ (
        let end = attempt_pending_send world 101 ann (codes "m1") outbox in returned end.0 end.1))
attempt_with_raise-in_flight_example =
    attempt_with_raise-in_flight world ann (codes "m1") 101 (some 3) outbox

attempt-IsSound_example :
    IsSound (attempt_pending_send world 101 ann (codes "m1") outbox).1.state.store
attempt-IsSound_example = attempt-IsSound world 101 ann (codes "m1") outbox store-IsSound

trigger_retries-IsSound_example :
    ((trigger_retries world 101 (λ key. 102) outbox).in_flight ≡ outbox.in_flight)
    × IsSound (trigger_retries world 101 (λ key. 102) outbox).state.store
trigger_retries-IsSound_example =
    trigger_retries-IsSound world 101 (λ key. 102) outbox (λ rows keys. keys) store-IsSound

delay_doubles_example :
    (delay_seconds 1 ≡ 1)
    × (delay_seconds 6 ≡ min 32 (2 * delay_seconds 5))
    × (1 ≤ delay_seconds 4)
    × (delay_seconds 4 < 300)
delay_doubles_example = delay_doubles 4
