-- ===== src/Outbox/Laws.antt =====
-- The attempts of src/pending_outbox.py: the set of messages in flight and the unread total.
use greenline.Base.{
  ℕ, ◌≡◌, refl, ◌∙◌, ap, false, not, Option, none, some, List, [], ◌∷◌, Text, codes, ◌==◌, eq_refl,
  any, select, Bool-cases, inl, inr,
}
use greenline.Contracts.Refinement.{Store}
use greenline.Outbox.{
  Outbox, begin_pending_send, finish_pending_send, clear_pending_outbox_entry,
  schedule_pending_retry, mark_pending_message_failed, complete_pending_send, attempted,
  attempt_entry, attempt_body, attempt_pending_send, pending_send_token,
}
use greenline.Outbox.Outside.{World}
use greenline.Outbox.Transport.{Sending, send_pending_message_via_rpc}
use greenline.Outbox.Settled.{outbox-IsOther, Quiet-IsSound, mark_failed-IsSound, complete-IsSound}
use greenline.Repository.{Entry, get_message_entry_with_key}
use greenline.Repository.Laws.{get_message_entry_with_key-IsFound, get_message_entry_with_key-cases}
use greenline.Unread.Quiet.{
  IsOther, Quiet, Quiet-refl, Quiet-insert, Quiet-erase, message-IsOther, index-IsOther,
}
use greenline.Unread.Sums.{IsSound}

-- Dropping an element that is not there.
discard-absent :
    (t : Text) (xs : List Text) → any (λ x. x == t) xs ≡ false → select (λ x. not (x == t)) xs ≡ xs
unfolding select
discard-absent t [] h = refl
discard-absent t (x ∷ xs) h = elim (Bool-cases (x == t)) [
  | inl e ↦ absurd (cc (rw e at h))
  | inr n ↦ rw n (ap (λ ys. x ∷ ys) (discard-absent t xs (rw n at h)))
]

module _ (W : World) (now : ℕ) (chat_id message_id : Text) where
  attempted-in_flight :
      (e : Entry) (s : Sending) (o : Outbox)
      → (attempted W now chat_id message_id e s o).1.in_flight ≡ o.in_flight
  unfolding attempted complete_pending_send mark_pending_message_failed schedule_pending_retry
  attempted-in_flight (key, m) (Sending.sent reply) o = refl
  attempted-in_flight (key, m) Sending.refused o = refl
  attempted-in_flight (key, m) Sending.unreachable o = refl

  entry-in_flight :
      (found : Option Entry) (o : Outbox)
      → (attempt_entry W now chat_id message_id found o).1.in_flight ≡ o.in_flight
  unfolding attempt_entry clear_pending_outbox_entry
  entry-in_flight none o = refl
  entry-in_flight (some e) o = elim (Bool-cases (e.1.send_status == codes "pending")) [
    | inl p ↦ rw p (attempted-in_flight e (send_pending_message_via_rpc W o.state e.1.message) o)
    | inr n ↦ rw n refl
  ]

  attempted-IsSound :
      (e : Entry) (s : Sending) (o : Outbox)
      → IsOther e.0
      → IsSound o.state.store
      → IsSound (attempted W now chat_id message_id e s o).1.state.store
  unfolding attempted schedule_pending_retry
  attempted-IsSound (key, m) (Sending.sent reply) o other sound =
      complete-IsSound W key other m.message reply o sound
  attempted-IsSound (key, m) Sending.refused o other sound =
      mark_failed-IsSound W key other m o sound
  attempted-IsSound (key, m) Sending.unreachable o other sound =
      Quiet-IsSound (Quiet-insert _ _ _ (outbox-IsOther chat_id message_id)) sound

  entry-IsSound :
      (found : Option Entry) (o : Outbox)
      → ((e : Entry) → found ≡ some e → IsOther e.0)
      → IsSound o.state.store
      → IsSound (attempt_entry W now chat_id message_id found o).1.state.store
  unfolding attempt_entry clear_pending_outbox_entry
  entry-IsSound none o at sound =
      Quiet-IsSound (Quiet-erase _ _ (outbox-IsOther chat_id message_id)) sound
  entry-IsSound (some e) o at sound = elim (Bool-cases (e.1.send_status == codes "pending")) [
    | inl p ↦ rw p (
        attempted-IsSound e (send_pending_message_via_rpc W o.state e.1.message) o (at e refl)
          sound)
    | inr n ↦ rw n (Quiet-IsSound (Quiet-erase _ _ (outbox-IsOther chat_id message_id)) sound)
  ]

  lookup-Quiet : (s : Store) → Quiet s (get_message_entry_with_key chat_id message_id s).1
  lookup-Quiet s = elim (get_message_entry_with_key-cases chat_id message_id s) [
    | inl same ↦ rw same (Quiet-refl s)
    | inr (nothing, erased) ↦ rw erased (Quiet-erase _ s (index-IsOther chat_id message_id))
  ]

  body-IsSound :
      (o : Outbox)
      → IsSound o.state.store
      → IsSound (attempt_body W now chat_id message_id o).1.state.store
  unfolding attempt_body
  body-IsSound o sound =
      entry-IsSound (get_message_entry_with_key chat_id message_id o.state.store).0 _
        (λ e found.
          message-IsOther chat_id e.0
            (get_message_entry_with_key-IsFound chat_id message_id o.state.store e found).0.in_chat)
        (Quiet-IsSound (lookup-Quiet o.state.store) sound)

  pub body-in_flight :
      (o : Outbox) → (attempt_body W now chat_id message_id o).1.in_flight ≡ o.in_flight
  unfolding attempt_body
  body-in_flight o =
      entry-in_flight (get_message_entry_with_key chat_id message_id o.state.store).0 _

  -- A message that is taken out again.
  pub finish-in_flight :
      (o p : Outbox)
      → any (λ t. t == pending_send_token chat_id message_id) o.in_flight ≡ false
      → p.in_flight ≡ pending_send_token chat_id message_id ∷ o.in_flight
      → (finish_pending_send chat_id message_id p).in_flight ≡ o.in_flight
  unfolding finish_pending_send select
  finish-in_flight o p n h =
      let token = pending_send_token chat_id message_id in
      ap (select (λ t. not (t == token))) h
      ∙ (rw (eq_refl token) (discard-absent token o.in_flight n))

  -- An attempt in which no call raises but those whose exceptions the code catches leaves the set of
  -- messages in flight as it was.
  pub attempt-in_flight :
      (o : Outbox) → (attempt_pending_send W now chat_id message_id o).1.in_flight ≡ o.in_flight
  unfolding attempt_pending_send begin_pending_send
  attempt-in_flight o =
      elim (Bool-cases (any (λ t. t == pending_send_token chat_id message_id) o.in_flight)) [
        | inl e ↦ rw e refl
        | inr n ↦ rw n (
            let begun = record o {
              in_flight = pending_send_token chat_id message_id ∷ o.in_flight;
            } in
            finish-in_flight o (attempt_body W now chat_id message_id begun).1 n
              (body-in_flight begun))
      ]

  -- An attempt that returns, whatever comes of it, keeps the unread total the sum of the chats' unread counts, and
  -- the store a table with one row for each key.
  pub attempt-IsSound :
      (o : Outbox)
      → IsSound o.state.store
      → IsSound (attempt_pending_send W now chat_id message_id o).1.state.store
  unfolding attempt_pending_send begin_pending_send finish_pending_send
  attempt-IsSound o sound =
      elim (Bool-cases (any (λ t. t == pending_send_token chat_id message_id) o.in_flight)) [
        | inl e ↦ rw e sound
        | inr n ↦ rw n (body-IsSound _ sound)
      ]
