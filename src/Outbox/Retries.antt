-- ===== src/Outbox/Retries.antt =====
-- The pass over the outbox of `PendingMessageRetryEvent.trigger` in src/pending_outbox.py.
use greenline.Base.{
  ℕ, ◌≡◌, refl, ◌∙◌, true, false, ◌||◌, Option, none, some, List, [], ◌∷◌, arith, All, Text, codes,
  ◌==◌, is_empty, Bool-cases, inl, inr, ltb, nat_eq,
}
use greenline.Contracts.Refinement.{Store}
use greenline.Keys.{unread_total_key}
use greenline.Kv.Like.{like_prefix, fold_case, like_prefix-first, like_prefix-other_first}
use greenline.Models.{PendingOutboxRecord}
use greenline.Outbox.{
  Outbox, as_pending, retry_entry, retry_loop, pending_rows, trigger_retries,
  pending_outbox_key_prefix,
}
use greenline.Outbox.Outside.{World}
use greenline.Outbox.Laws.{attempt-in_flight, attempt-IsSound}
use greenline.Outbox.Settled.{Quiet-IsSound}
use greenline.Unread.Quiet.{IsOther, Quiet-erase}
use greenline.Unread.Sums.{IsSound}

-- A row whose key is neither a chat's nor the unread total's.
abbrev pub HasOtherKey : Text × PendingOutboxRecord → Type 0
HasOtherKey row = IsOther row.0

no_u : (x : ℕ) → nat_eq (fold_case 112) (fold_case x) ≡ true → nat_eq x 117 ≡ false
unfolding fold_case
no_u x h = ground arith

no_c :
    (x : ℕ)
    → nat_eq (fold_case 112) (fold_case x) ≡ true
    → nat_eq (fold_case 99) (fold_case x) ≡ false
unfolding fold_case
no_c x h = ground arith

total-first : (x : ℕ) (k : Text) → nat_eq x 117 ≡ false → ((x ∷ k) == unread_total_key) ≡ false
unfolding unread_total_key ◌==◌
total-first x k h = rw h refl

found-IsOther : (k : Text) → like_prefix pending_outbox_key_prefix k ≡ true → IsOther k
unfolding like_prefix unread_total_key ◌==◌
found-IsOther [] h = record { no_chat = refl; no_total = refl }
found-IsOther (x ∷ k) h =
    let e = like_prefix-first 112 x (codes "ending-outbox:") k refl refl h in
    record {
      no_chat = like_prefix-other_first 99 x (codes "hat:") k refl refl (no_c x e);
      no_total = total-first x k (no_u x e);
    }

kept_row-HasOtherKey :
    (k : Text) (o : Option PendingOutboxRecord) (rest : List (Text × PendingOutboxRecord))
    → IsOther k
    → All HasOtherKey rest
    → All HasOtherKey (elim o [ none ↦ rest | some p ↦ (k, p) ∷ rest ])
kept_row-HasOtherKey k none rest i h = h
kept_row-HasOtherKey k (some p) rest i h = (i, h)

pending_rows-HasOtherKey : (W : World) (s : Store) → All HasOtherKey (pending_rows W s)
unfolding pending_rows
pending_rows-HasOtherKey W [] = tt
pending_rows-HasOtherKey W ((k, r) ∷ s) =
    elim (Bool-cases (like_prefix pending_outbox_key_prefix k)) [
      | inl e ↦ rw e (
          kept_row-HasOtherKey k (as_pending (some r)) (pending_rows W s) (found-IsOther k e)
            (pending_rows-HasOtherKey W s))
      | inr n ↦ rw n (pending_rows-HasOtherKey W s)
    ]

module _ (W : World) (now : ℕ) (clock : Text → ℕ) where
  -- What a step of the pass keeps.
  abbrev Kept : Outbox → Outbox → Type 0
  Kept o o' = (o'.in_flight ≡ o.in_flight) × (IsSound o.state.store → IsSound o'.state.store)

  retry_entry-Kept :
      (key : Text) (p : PendingOutboxRecord) (o : Outbox)
      → IsOther key
      → Kept o (retry_entry W now clock key p o)
  unfolding retry_entry
  retry_entry-Kept key p o other = elim (Bool-cases (is_empty p.chat_id || is_empty p.message_id)) [
    | inl e ↦ rw e (refl, λ sound. Quiet-IsSound (Quiet-erase key o.state.store other) sound)
    | inr n ↦ elim (Bool-cases (ltb now p.next_attempt_at)) [
      | inl e ↦ rw (n, e) (refl, λ sound. sound)
      | inr m ↦
          rw (n, m)
            (
              attempt-in_flight W (clock key) p.chat_id p.message_id o,
              attempt-IsSound W (clock key) p.chat_id p.message_id o,
            )
    ]
  ]

  retry_loop-Kept :
      (rows : List (Text × PendingOutboxRecord)) (o : Outbox)
      → All HasOtherKey rows
      → Kept o (retry_loop W now clock rows o)
  unfolding retry_loop
  retry_loop-Kept [] o h = (refl, λ sound. sound)
  retry_loop-Kept ((key, p) ∷ rows) o (h, hs) =
      let first = retry_entry-Kept key p o h in
      let rest = retry_loop-Kept rows (retry_entry W now clock key p o) hs in
      (rest.0 ∙ first.0, λ sound. rest.1 (first.1 sound))

-- A pass over the outbox that no exception leaves, where the store's order of rows only reorders them, leaves the set of messages
-- in flight as it was and keeps the unread total the sum of the chats' unread counts.
pub trigger_retries-IsSound :
    (W : World) (now : ℕ) (clock : Text → ℕ) (o : Outbox)
    → ((rows : List (Text × PendingOutboxRecord))
        → All HasOtherKey rows
        → All HasOtherKey (W.by_value rows))
    → IsSound o.state.store
    → ((trigger_retries W now clock o).in_flight ≡ o.in_flight)
      × IsSound (trigger_retries W now clock o).state.store
unfolding trigger_retries
trigger_retries-IsSound W now clock o reorders sound =
    let kept =
      retry_loop-Kept W now clock (W.by_value (pending_rows W o.state.store)) o
        (reorders _ (pending_rows-HasOtherKey W o.state.store)) in
    (kept.0, kept.1 sound)
