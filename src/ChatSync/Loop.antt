-- ===== src/ChatSync/Loop.antt =====
-- The loop of the sync, and one batch (`_do_trigger` and `process_events_once` of
-- src/greenline/events/chat_sync.py).
use mathlib.Core.Path.{subst}
use greenline.Base.{
  ℕ, zero, suc, ◌≡◌, refl, ◌∙◌, Bool, true, false, Option, none, some, List, [], ◌∷◌, ltb, length,
  Bool-cases, inl, inr,
}
use greenline.ChatSync.{
  Event, Handlers, no_updates, Client, Batch, larger, Ran, list_events, dispatch_all, show_updates,
  show, sync_status, settle, settled, after_settled, after_batch, after_reply, called, run,
  do_trigger, once_settled, once_replied, process_events_once,
}
use greenline.ChatSync.Bounds.{AllIn}
use greenline.ChatSync.Kept.{
  IsKept, dispatch_all-Dispatches, show_updates-Goes, shown-IsKept, same_but_shown, deleted-IsKept,
  BatchKept, batch-BatchKept,
}

module _ (inserted : List Event) where
  module _ (H : Handlers) (calls : ℕ → Bool) where
    -- What `settle` leaves, and the last id.
    record Settles (l : ℕ) (c : Client) : Type 0 where
      settled_kept : IsKept inserted c
      at_last_id : c.last_event_id ≡ l

    settled-Settles :
        (last max : ℕ) (c c' : Client)
        → IsKept inserted c
        → AllIn max c.dispatched c.events
        → c.last_event_id ≡ last
        → settled H calls last max c ≡ some c'
        → Settles (larger max last) c'
    unfolding settle
    settled-Settles last max c c' k all at h = elim (Bool-cases (ltb last max)) [
      | inr n ↦ rw n (
          subst (λ d. Settles last d) (some_injective (rw n at h))
            (record { settled_kept = k; at_last_id = at }))
      | inl e ↦ elim (Bool-cases (calls c.calls)) [
        | inr n ↦ absurd (cc (rw (e, n) at h))
        | inl ok ↦ rw e (
            subst (λ d. Settles max d) (some_injective (rw (e, ok) at h))
              (record {
                settled_kept = deleted-IsKept inserted max (suc c.calls) c k all;
                at_last_id = refl;
              }))
      ]
    ]
      where
        some_injective : {a b : Client} → ◌≡◌ {A = Option Client} (some a) (some b) → a ≡ b
        some_injective h = cc

    module _ (next : ℕ → Client → Ran)
        (goes : (l : ℕ) (c : Client)
          → IsKept inserted c
          → c.last_event_id ≡ l
          → IsKept inserted (next l c).client) where
      after_settled-IsKept :
          (reply : List Event) (l : ℕ) (c : Client) (o : Option Client)
          → IsKept inserted c
          → ((c' : Client) → o ≡ some c' → Settles l c')
          → IsKept inserted (after_settled H calls next reply l c o).client
      after_settled-IsKept reply l c none k s =
          shown-IsKept inserted c _ (same_but_shown inserted c c.shown (suc c.calls)) k
      after_settled-IsKept reply l c (some c') k s =
          let t = s c' refl in
          elim (Bool-cases (ltb (length reply) 500)) [
            | inl e ↦ rw e t.settled_kept
            | inr n ↦ rw n (goes l c' t.settled_kept t.at_last_id)
          ]

      after_batch-IsKept :
          (reply : List Event) (last : ℕ) (b : Batch)
          → BatchKept inserted b
          → b.client.last_event_id ≡ last
          → IsKept inserted (after_batch H calls next reply last b).client
      unfolding show_updates
      after_batch-IsKept reply last b k at = elim (Bool-cases b.raised) [
        | inl e ↦ rw e k.kept
        | inr n ↦
            let c = show_updates b.updates b.client in
            let g = show_updates-Goes b.updates b.client in
            let shown = shown-IsKept inserted b.client c g k.kept in
            rw n (
              after_settled-IsKept reply (larger b.max_id last) c (settled H calls last b.max_id c)
                shown
                (λ c' h. settled-Settles last b.max_id c c' shown (k.known n) (g.same_last ∙ at) h))
      ]

      dispatched-IsKept :
          (reply : List Event) (c : Client)
          → IsKept inserted c
          → reply ≡ list_events c.last_event_id 500 c.events
          → IsKept inserted
              (after_batch H calls next reply c.last_event_id
                (dispatch_all H reply no_updates c.last_event_id c)).client
      dispatched-IsKept reply c k from =
          let d = dispatch_all-Dispatches H reply no_updates c.last_event_id c in
          let b = dispatch_all H reply no_updates c.last_event_id c in
          let kept : BatchKept inserted b =
            rw from (batch-BatchKept inserted H 500 no_updates c k) in
          after_batch-IsKept reply c.last_event_id b kept d.goes.same_last

      after_reply-IsKept :
          (syncing : Bool) (c : Client) (reply : List Event)
          → IsKept inserted c
          → reply ≡ list_events c.last_event_id 500 c.events
          → IsKept inserted (after_reply H calls next syncing c.last_event_id c reply).client
      after_reply-IsKept syncing c [] k from = k
      after_reply-IsKept true c (e ∷ reply) k from = dispatched-IsKept (e ∷ reply) c k from
      after_reply-IsKept false c (e ∷ reply) k from =
          dispatched-IsKept (e ∷ reply) (show (sync_status true ∷ []) c)
            (shown-IsKept inserted c _ (same_but_shown inserted c _ c.calls) k) from

    run-IsKept :
        (fuel : ℕ) (syncing : Bool) (last : ℕ) (c : Client)
        → IsKept inserted c
        → c.last_event_id ≡ last
        → IsKept inserted (run H calls fuel syncing last c).client
    unfolding run
    run-IsKept zero syncing last c k at = k
    run-IsKept (suc fuel) syncing last c k at = elim (Bool-cases (calls c.calls)) [
      | inl e ↦
          rw (e, ← at)
            (after_reply-IsKept (λ l c'. run H calls fuel true l c')
              (λ l c' k' at'. run-IsKept fuel true l c' k' at') syncing (called H calls c) _
              (shown-IsKept inserted c _ (same_but_shown inserted c c.shown (suc c.calls)) k) refl)
      | inr n ↦ rw n (shown-IsKept inserted c _ (same_but_shown inserted c c.shown (suc c.calls)) k)
    ]

    pub do_trigger-IsKept :
        (fuel : ℕ) (c : Client) → IsKept inserted c → IsKept inserted (do_trigger H calls fuel c).1
    unfolding do_trigger
    do_trigger-IsKept fuel c k =
        let r = run H calls fuel false c.last_event_id c in
        let kept = run-IsKept fuel false c.last_event_id c k refl in
        elim (Bool-cases r.syncing) [
          | inl e ↦ rw e (
              shown-IsKept inserted r.client _ (same_but_shown inserted r.client _ r.client.calls)
                kept)
          | inr n ↦ rw n kept
        ]

    once_settled-IsKept :
        (l : ℕ) (c : Client) (o : Option Client)
        → IsKept inserted c
        → ((c' : Client) → o ≡ some c' → Settles l c')
        → IsKept inserted (once_settled H calls c o).1
    once_settled-IsKept l c none k s =
        shown-IsKept inserted c _ (same_but_shown inserted c c.shown (suc c.calls)) k
    once_settled-IsKept l c (some c') k s = (s c' refl).settled_kept

    once_replied-IsKept :
        (limit : ℕ) (c : Client) (reply : List Event)
        → IsKept inserted c
        → reply ≡ list_events c.last_event_id limit c.events
        → IsKept inserted (once_replied H calls c.last_event_id c reply).1
    once_replied-IsKept limit c [] k from = k
    once_replied-IsKept limit c (e ∷ reply) k from =
        let b = dispatch_all H (e ∷ reply) no_updates c.last_event_id c in
        let d = dispatch_all-Dispatches H (e ∷ reply) no_updates c.last_event_id c in
        let bk : BatchKept inserted b = rw from (batch-BatchKept inserted H limit no_updates c k) in
        elim (Bool-cases b.raised) [
          | inl r ↦ rw r bk.kept
          | inr n ↦ rw n (
              once_settled-IsKept (larger b.max_id c.last_event_id) b.client _ bk.kept (λ c' h.
                settled-Settles c.last_event_id b.max_id b.client c' bk.kept (bk.known n)
                  d.goes.same_last h))
        ]

    pub once-IsKept :
        (limit : ℕ) (c : Client)
        → IsKept inserted c
        → IsKept inserted (process_events_once H calls limit c).1
    unfolding process_events_once
    once-IsKept limit c k =
        let k' =
          shown-IsKept inserted c (called H calls c)
            (same_but_shown inserted c c.shown (suc c.calls)) k in
        elim (Bool-cases (calls c.calls)) [
          | inl e ↦ rw e (once_replied-IsKept limit (called H calls c) _ k' refl)
          | inr n ↦ rw n k'
        ]
