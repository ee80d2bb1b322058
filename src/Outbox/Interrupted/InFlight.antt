-- ===== src/Outbox/Interrupted/InFlight.antt =====
-- The set of messages in flight of src/pending_outbox.py when an exception leaves an attempt.
use greenline.Base.{
  ℕ, zero, suc, ◌≡◌, refl, Bool, false, Option, none, some, List, [], ◌∷◌, ◌++◌, Text, codes, ◌==◌,
  any, All, Bool-cases, inl, inr,
}
use mathlib.Core.Path.{subst}
use greenline.Contracts.Refinement.{Store}
use greenline.Models.{Message}
use greenline.Repository.{Entry, get_message_entry_with_key}
use greenline.Outbox.{
  Outbox, on_store, begin_pending_send, attempt_pending_send, pending_send_token,
}
use greenline.Outbox.Outside.{World}
use greenline.Outbox.Transport.{Sending, send_pending_message_via_rpc}
use greenline.Outbox.Laws.{body-in_flight, finish-in_flight}
use greenline.Outbox.Interrupted.{
  Attempt, returned, raised, left, before_writes, after_writes, call_at, finally, before_calls_of,
  before_sending_calls, before_entry_calls, before_calls, interrupted, guarded_body,
  attempt_with_raise,
}

before_writes-in_flight :
    (fs : List (Store → Store)) (o : Outbox)
    → All (λ s. s.in_flight ≡ o.in_flight) (before_writes fs o)
unfolding before_writes
before_writes-in_flight [] o = tt
before_writes-in_flight (f ∷ fs) o = (refl, before_writes-in_flight fs (on_store f o))

after_writes-in_flight :
    (fs : List (Store → Store)) (o : Outbox) → (after_writes fs o).in_flight ≡ o.in_flight
unfolding after_writes
after_writes-in_flight [] o = refl
after_writes-in_flight (f ∷ fs) o = after_writes-in_flight fs (on_store f o)

all_append : (xs ys : List Outbox) (P : Outbox → Type 0) → All P xs → All P ys → All P (xs ++ ys)
all_append [] ys P a b = b
all_append (x ∷ xs) ys P (p, a) b = (p, all_append xs ys P a b)

call_at-All :
    (n : ℕ) (xs : List Outbox) (P : Outbox → Type 0) (o : Outbox)
    → All P xs
    → call_at n xs ≡ some o
    → P o
call_at-All n [] P o a h = absurd (cc h)
call_at-All zero (x ∷ xs) P o (p, a) h = subst P (same h) p
  where
    same : {x y : Outbox} → ◌≡◌ {A = Option Outbox} (some x) (some y) → x ≡ y
    same e = cc
call_at-All (suc n) (x ∷ xs) P o (p, a) h = call_at-All n xs P o a h

module _ (W : World) (chat_id message_id : Text) where
  -- The states have a set of messages in flight.
  abbrev Keep : List Text → List Outbox → Type 0
  Keep f os = All (λ s. s.in_flight ≡ f) os

  before_calls_of-in_flight :
      (writes : List (Store → Store)) (message : Message) (o : Outbox)
      → Keep o.in_flight (before_calls_of W writes message o)
  before_calls_of-in_flight writes message o =
      let same = after_writes-in_flight writes o in
      all_append (before_writes writes o) _ (λ s. s.in_flight ≡ o.in_flight)
        (before_writes-in_flight writes o) (same, (same, (same, tt)))

  sending_calls-in_flight :
      (e : Entry) (s : Sending) (o : Outbox) → Keep o.in_flight (before_sending_calls W e s o)
  unfolding before_sending_calls
  sending_calls-in_flight (key, m) (Sending.sent reply) o = before_calls_of-in_flight _ _ o
  sending_calls-in_flight (key, m) Sending.refused o = before_calls_of-in_flight _ _ o
  sending_calls-in_flight (key, m) Sending.unreachable o = (refl, tt)

  entry_calls-in_flight :
      (found : Option Entry) (o : Outbox) → Keep o.in_flight (before_entry_calls W found o)
  unfolding before_entry_calls
  entry_calls-in_flight none o = (refl, tt)
  entry_calls-in_flight (some e) o = elim (Bool-cases (e.1.send_status == codes "pending")) [
    | inl p ↦
        rw p (sending_calls-in_flight e (send_pending_message_via_rpc W o.state e.1.message) o)
    | inr n ↦ rw n (refl, tt)
  ]

  calls-in_flight : (o : Outbox) → Keep o.in_flight (before_calls W chat_id message_id o)
  unfolding before_calls
  calls-in_flight o =
      let (found, s) = get_message_entry_with_key chat_id message_id o.state.store in
      (refl, entry_calls-in_flight found (on_store (λ old. s) o))

  interrupted-in_flight :
      (f : List Text) (at : Option Outbox) (end : Bool × Outbox)
      → ((o : Outbox) → at ≡ some o → o.in_flight ≡ f)
      → end.1.in_flight ≡ f
      → (left (interrupted W at end)).in_flight ≡ f
  interrupted-in_flight f none end h e = e
  interrupted-in_flight f (some o) end h e = h o refl

  guarded_body-in_flight :
      (now : ℕ) (raising : Option ℕ) (o : Outbox)
      → (left (guarded_body W now chat_id message_id raising o)).in_flight ≡ o.in_flight
  unfolding guarded_body
  guarded_body-in_flight now none o = body-in_flight W now chat_id message_id o
  guarded_body-in_flight now (some call) o =
      interrupted-in_flight o.in_flight (call_at call (before_calls W chat_id message_id o)) _
        (λ s.
          call_at-All call (before_calls W chat_id message_id o) (λ t. t.in_flight ≡ o.in_flight) s
            (calls-in_flight o))
        (body-in_flight W now chat_id message_id o)

  finally-in_flight :
      (o : Outbox) (end : Attempt)
      → any (λ t. t == pending_send_token chat_id message_id) o.in_flight ≡ false
      → (left end).in_flight ≡ pending_send_token chat_id message_id ∷ o.in_flight
      → (left (finally chat_id message_id end)).in_flight ≡ o.in_flight
  unfolding finally
  finally-in_flight o (returned sent p) n h = finish-in_flight W 0 chat_id message_id o p n h
  finally-in_flight o (raised p) n h = finish-in_flight W 0 chat_id message_id o p n h

  -- An attempt leaves the set of messages in flight as it was, whether it returns or a call of the store,
  -- of `upsert_chat` or of the user interface raises, at any of these calls. Where none raises, it does
  -- what `attempt_pending_send` does.
  pub attempt_with_raise-in_flight :
      (now : ℕ) (raising : Option ℕ) (o : Outbox)
      → ((left (attempt_with_raise W now chat_id message_id raising o)).in_flight ≡ o.in_flight)
        × (attempt_with_raise W now chat_id message_id none o
            ≡ (let end = attempt_pending_send W now chat_id message_id o in returned end.0 end.1))
  unfolding attempt_with_raise attempt_pending_send guarded_body finally begin_pending_send
  attempt_with_raise-in_flight now raising o =
      elim (Bool-cases (any (λ t. t == pending_send_token chat_id message_id) o.in_flight)) [
        | inl e ↦ rw e (refl, refl)
        | inr n ↦
            let begun = record o {
              in_flight = pending_send_token chat_id message_id ∷ o.in_flight;
            } in
            rw n (
              finally-in_flight o (guarded_body W now chat_id message_id raising begun) n
                  (guarded_body-in_flight now raising begun),
              refl,
            )
      ]
