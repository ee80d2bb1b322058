-- ===== src/Dispatcher/Recurring.antt =====
-- The recurring events of src/ut_components/event.py, and the look at the events that schedules those that
-- are due (`_enqueue`).
pub mod Twice
pub mod Registered
use greenline.Base.{
  ℕ, suc, Bool, true, arith, length, select, leb, Option-cases, ◌+◌, ◌≡◌, false, Option, none, some,
  List, [], ◌∷◌, arith, All, ◌==◌, eq_sound, if◌then◌else◌, ltb,
}
use greenline.Dispatcher.{
  Event, Queued, Dispatcher, find_event, heappush, is_due, interval_of, enqueue, register_event,
}

abbrev pub IsApart : Event → Event → Type 0
IsApart a b = (a.id == b.id) ≡ false

-- Each id is registered once.
abbrev pub HasOwnIds : List Event → Type 0
HasOwnIds [] = Unit
HasOwnIds (e ∷ es) = All (IsApart e) es × HasOwnIds es

-- An event after a look at it: one that is due is marked with the time of its next execution.
abbrev pub marked_by : ℕ → Event → Option ℕ → Event
marked_by now e none = e
marked_by now e (some interval) =
    if is_due now e.next_execution_date
    then record e { next_execution_date = some (now + interval) }
    else e

abbrev pub marked : ℕ → Event → Event
marked now e = marked_by now e (interval_of e.execution_interval)

-- All of some events stand apart from all of some others.
abbrev AllApart : List Event → List Event → Type 0
AllApart before es = All (λ f. All (λ x. IsApart x f) before) es
