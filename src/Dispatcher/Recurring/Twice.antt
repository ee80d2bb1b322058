-- ===== src/Dispatcher/Recurring/Twice.antt =====
-- Two looks at the events of src/ut_components/event.py (`_enqueue`), one after the other.
use greenline.Base.{
  ℕ, Bool, true, arith, leb, ◌+◌, false, Option, none, some, arith, if◌then◌else◌, ltb,
}
use greenline.Dispatcher.{Event, Dispatcher, interval_of}

-- Whether an event is not due `later`, after a look at it at `now`: it does not recur, or `later` is not
-- past the interval from `now` where it was due then, or not past its date where it was not.
abbrev waits_by : ℕ → ℕ → Option ℕ → Option ℕ → Bool
waits_by now later none date = true
waits_by now later (some t) none = leb later (now + t)
waits_by now later (some t) (some s) = if ltb s now then leb later (now + t) else leb later s

abbrev pub waits : ℕ → ℕ → Event → Bool
waits now later e = waits_by now later (interval_of e.execution_interval) e.next_execution_date

-- Whether a look at an event schedules it: it recurs, and has no date or one that is past.
abbrev runs_by : ℕ → Option ℕ → Option ℕ → Bool
runs_by now none date = false
runs_by now (some t) none = true
runs_by now (some t) (some s) = ltb s now

abbrev pub runs : ℕ → Event → Bool
runs now e = runs_by now (interval_of e.execution_interval) e.next_execution_date
