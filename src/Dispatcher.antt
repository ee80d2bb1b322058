-- ===== src/Dispatcher.antt =====
-- src/ut_components/event.py: the queue of scheduled events and the loop that triggers them. Times are
-- in microseconds. `heapq` is a list in the order of its entries, of which the first is popped.
pub mod Order
pub mod Live
pub mod Recurring
use greenline.Base.{
  ℕ, zero, suc, ◌+◌, ◌/◌, Bool, true, false, ◌&&◌, ◌||◌, not, Option, none, some, List, [], ◌∷◌,
  ◌++◌, Text, codes, ◌==◌, ltb, leb, nat_eq, if◌then◌else◌,
}
use greenline.Dyn.{Dyn, Fields}

-- A call of `schedule` that a trigger makes: the event, its metadata and its delay.
pub record Request : Type 0 where
  pub event_id : Text
  pub metadata : Option Dyn
  pub delay : ℕ

-- What a trigger does: the calls that it makes, in order, and its result, which is sent where it is not
-- false; `none` is an exception.
pub record Triggered : Type 0 where
  pub requests : List Request
  pub result : Option (Option Dyn)

-- The trigger of an event at its metadata; an interval of none or of 0 is no interval.
pub record Event : Type 0 where
  pub id : Text
  pub execution_interval : Option ℕ
  pub next_execution_date : Option ℕ
  pub trigger : Option Dyn → Triggered

-- An entry of the heap, `(heap_key, counter, QueuedEvent(event, metadata))`.
pub record Queued : Type 0 where
  pub heap_key : ℕ
  pub counter : ℕ
  pub event : Event
  pub metadata : Option Dyn

-- The fields of `EventDispatcher`, what was sent to the user interface, and the entries that were
-- triggered, both latest last. `events` is in the order in which the ids were registered.
pub record Dispatcher : Type 0 where
  pub queue : List Queued
  pub events : List Event
  pub counter : ℕ
  pub sent : List (Text × Dyn)
  pub triggered : List Queued

abbrev pub new : Dispatcher
new = record { queue = []; events = []; counter = 0; sent = []; triggered = [] }

unfoldable pub set_event : Event → List Event → List Event
set_event e [] = e ∷ []
set_event e (x ∷ xs) = let rest = set_event e xs in if x.id == e.id then e ∷ xs else x ∷ rest

unfoldable pub find_event : Text → List Event → Option Event
find_event id [] = none
find_event id (x ∷ xs) = let rest = find_event id xs in if x.id == id then some x else rest

unfoldable pub remove_event : Text → List Event → List Event
remove_event id [] = []
remove_event id (x ∷ xs) = let rest = remove_event id xs in if x.id == id then xs else x ∷ rest

unfoldable pub register_event : Event → Dispatcher → Dispatcher
register_event e d = record d { events = set_event e d.events }

-- An id that is not registered is only warned of.
unfoldable pub unregister_event : Text → Dispatcher → Dispatcher
unregister_event id d = record d { events = remove_event id d.events }

-- `ceil(timestamp * 1000)`: in milliseconds
unfoldable pub heap_key_of : ℕ → ℕ
heap_key_of date = (date + 999) / 1000

-- The order of the heap: the counters of two entries differ.
abbrev pub precedes : Queued → Queued → Bool
precedes a b = ltb a.heap_key b.heap_key || nat_eq a.heap_key b.heap_key && ltb a.counter b.counter

unfoldable pub heappush : Queued → List Queued → List Queued
heappush q [] = q ∷ []
heappush q (x ∷ xs) = let rest = heappush q xs in if precedes q x then q ∷ x ∷ xs else x ∷ rest

abbrev delay_of : Option ℕ → ℕ
delay_of none = 0
delay_of (some t) = t

schedule_event : ℕ → Option Dyn → ℕ → Option Event → Dispatcher → Dispatcher
schedule_event now metadata delay none d = d
schedule_event now metadata delay (some e) d = record d {
  queue =
      heappush
        (record {
          heap_key = heap_key_of (now + delay);
          counter = d.counter;
          event = e;
          metadata = metadata;
        })
        d.queue;
  counter = d.counter + 1;
}

unfoldable pub schedule : ℕ → Text → Option Dyn → ℕ → Dispatcher → Dispatcher
unfolding schedule_event
schedule now id metadata delay d = schedule_event now metadata delay (find_event id d.events) d

unfoldable pub schedule_all : ℕ → List Request → Dispatcher → Dispatcher
schedule_all now [] d = d
schedule_all now (r ∷ rs) d = schedule_all now rs (schedule now r.event_id r.metadata r.delay d)

-- `not next_execution_date or next_execution_date < now`
abbrev is_due : ℕ → Option ℕ → Bool
is_due now none = true
is_due now (some t) = ltb t now

-- `execution_interval` where it is not false
abbrev pub interval_of : Option ℕ → Option ℕ
interval_of none = none
interval_of (some zero) = none
interval_of (some (suc t)) = some (suc t)

enqueue_event : ℕ → Event → Option ℕ → Dispatcher → Dispatcher
enqueue_event now e none d = d
enqueue_event now e (some interval) d =
    if is_due now e.next_execution_date
    then (let e' = record e { next_execution_date = some (now + interval) } in
        schedule now e.id none 0 (record d { events = set_event e' d.events }))
    else d

enqueue_loop : ℕ → List Event → Dispatcher → Dispatcher
unfolding enqueue_event
enqueue_loop now [] d = d
enqueue_loop now (e ∷ es) d =
    enqueue_loop now es (enqueue_event now e (interval_of e.execution_interval) d)

-- `_enqueue`, at one reading of the clock
unfoldable pub enqueue : ℕ → Dispatcher → Dispatcher
unfolding enqueue_loop
enqueue now d = enqueue_loop now d.events d

abbrev pub send : Text → Option Dyn → List (Text × Dyn) → List (Text × Dyn)
send id none sent = sent
send id (some r) sent = sent ++ ((id, r) ∷ [])

-- How `_process` ends: by its tests, by an exception of a trigger, or not within the fuel.
pub data Ended : Type 0 where
  drained raised unfinished : Ended

-- The effects of a trigger on the dispatcher.
unfoldable pub after_trigger :
    ℕ → Queued → Option (Option Dyn) → List Request → Dispatcher → Dispatcher
after_trigger now q none rs d = schedule_all now rs d
after_trigger now q (some r) rs d =
    let d' = schedule_all now rs d in record d' { sent = send q.event.id r d'.sent }

abbrev pub fails : Option (Option Dyn) → Bool
fails none = true
fails (some r) = false

-- What is popped is triggered; the rest of the queue stays.
unfoldable pub trigger_first : ℕ → Queued → List Queued → Dispatcher → Dispatcher
unfolding after_trigger
trigger_first now q qs d =
    let t = q.event.trigger q.metadata in
    after_trigger now q t.result t.requests
      (record d { queue = qs; triggered = d.triggered ++ (q ∷ []) })

-- `_process`; the clock's readings are numbered.
unfoldable pub process : ℕ → (ℕ → ℕ) → ℕ → List Queued → Dispatcher → Ended × Dispatcher
unfolding trigger_first
process zero clock i queue d = (Ended.unfinished, d)
process (suc fuel) clock i [] d = (Ended.drained, d)
process (suc fuel) clock i (q ∷ qs) d =
    let d' = trigger_first (clock i) q qs d in
    let rest = process fuel clock (suc i) d'.queue d' in
    if leb q.heap_key (heap_key_of (clock i))
    then (if fails (q.event.trigger q.metadata).result then (Ended.raised, d') else rest)
    else (Ended.drained, d)

-- One round of `_run`: an exception of a trigger schedules the error event, at the time `end`.
after_round : ℕ → Dyn → Ended × Dispatcher → Dispatcher
after_round now error (Ended.raised, d) = schedule now (codes "error-event") (some error) 0 d
after_round now error (_, d) = d

unfoldable pub run_round : ℕ → (ℕ → ℕ) → ℕ → Dyn → Dispatcher → Dispatcher
unfolding after_round process enqueue
run_round fuel clock end error d =
    let d' = enqueue (clock 0) d in after_round end error (process fuel clock 0 d'.queue d')
