-- ===== src/ChatSync/Reached.antt =====
-- The clients that inserts by the daemon and runs of src/greenline/events/chat_sync.py lead to.
use greenline.Base.{ℕ, ◌<◌, ◌≡◌, Bool, true, ◌||◌, List, [], ◌∷◌, ◌++◌, arith, All}
use greenline.ChatSync.{Event, Handlers, Client, do_trigger, process_events_once}
use greenline.ChatSync.Bounds.{has_id, Rising, AllIn, has_id-append}
use greenline.ChatSync.Kept.{IsKept}
use greenline.ChatSync.Loop.{do_trigger-IsKept, once-IsKept}

-- What can happen, in any order: the daemon inserts an event, whose id is above all former ones; the loop
-- of the sync runs, with any fuel; and one batch is processed. Any call of the daemon can fail.
pub data Reached (H : Handlers) : List Event → Client → Type 0 where
  start : (c : Client) → c.events ≡ [] → Reached H [] c
  inserts :
      {inserted : List Event} {c : Client}
      → Reached H inserted c
      → (e : Event) → All (λ x. x.id < e.id) c.events
      → c.last_event_id < e.id
      → Reached H (e ∷ inserted) (record c { events = c.events ++ (e ∷ []) })
  triggers :
      {inserted : List Event} {c : Client}
      → Reached H inserted c
      → (calls : ℕ → Bool) (fuel : ℕ) → Reached H inserted (do_trigger H calls fuel c).1
  processes :
      {inserted : List Event} {c : Client}
      → Reached H inserted c
      → (calls : ℕ → Bool) (limit : ℕ) → Reached H inserted (process_events_once H calls limit c).1

insert-IsKept :
    (inserted : List Event) (c : Client) (e : Event)
    → All (λ x. x.id < e.id) c.events
    → c.last_event_id < e.id
    → IsKept inserted c
    → IsKept (e ∷ inserted) (record c { events = c.events ++ (e ∷ []) })
insert-IsKept inserted c e above new k = record {
  rising = rise c.events k.rising above;
  covered = (ground (arith, has_id-append e.id c.events (e ∷ [])), cover inserted k.covered);
  seen = see c.events k.seen;
}
  where
    rise : (xs : List Event) → Rising xs → All (λ x. x.id < e.id) xs → Rising (xs ++ (e ∷ []))
    rise [] r all = (tt, tt)
    rise (x ∷ xs) (q, r) (p, all) = (last_above xs q, rise xs r all)
      where
        last_above :
            (ys : List Event) → All (λ y. x.id < y.id) ys → All (λ y. x.id < y.id) (ys ++ (e ∷ []))
        last_above [] h = (p, tt)
        last_above (y ∷ ys) (h, hs) = (h, last_above ys hs)

    cover :
        (xs : List Event)
        → All (λ x. (has_id x.id c.events || has_id x.id c.dispatched) ≡ true) xs
        → All (λ x. (has_id x.id (c.events ++ (e ∷ [])) || has_id x.id c.dispatched) ≡ true) xs
    cover [] all = tt
    cover (x ∷ xs) (p, all) = (ground (arith, has_id-append x.id c.events (e ∷ [])), cover xs all)

    see :
        (xs : List Event)
        → AllIn c.last_event_id c.dispatched xs
        → AllIn c.last_event_id c.dispatched (xs ++ (e ∷ []))
    see [] all = (ground arith, tt)
    see (x ∷ xs) (p, all) = (p, see xs all)

-- However inserts, runs of the sync and failures of the daemon, of its calls or of the handlers follow on
-- each other, no event is lost: each that was inserted is still with the daemon or was dispatched without
-- an error, and those up to the stored last id were dispatched.
pub reached-IsKept :
    (H : Handlers) {inserted : List Event} {c : Client} → Reached H inserted c → IsKept inserted c
reached-IsKept H (start c empty) = record { rising = rw empty tt; covered = tt; seen = rw empty tt }
reached-IsKept H (inserts r e above new) = insert-IsKept _ _ e above new (reached-IsKept H r)
reached-IsKept H (triggers r calls fuel) = do_trigger-IsKept _ H calls fuel _ (reached-IsKept H r)
reached-IsKept H (processes r calls limit) = once-IsKept _ H calls limit _ (reached-IsKept H r)
