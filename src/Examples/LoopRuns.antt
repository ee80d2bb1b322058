-- ===== src/Examples/LoopRuns.antt =====
-- The theorems on src/ut_components/memoize.py and src/ut_components/event.py at small inputs.
use greenline.Base.{
  ◌||◌, nat_eq, ltb, ℕ, ◌+◌, ◌≡◌, refl, not, none, some, [], ◌∷◌, ◌++◌, arith, Text, codes, ◌==◌,
  lookup, if◌then◌else◌,
}
use greenline.Dyn.{Dyn}
use greenline.Dispatcher.{Event, Queued, Dispatcher, process}
use greenline.Dispatcher.Live.{IsDone, process-IsDone}
use greenline.Dispatcher.Order.{Ordered, process-IsTimely}
use greenline.Examples.{texts, texts-IsLawful}
use greenline.Kv.{init, get_value}
use greenline.Memoize.{Hashing, Function, memoized}
use greenline.Memoize.Laws.{memoized_again}

abbrev plain_hashing : Hashing texts
plain_hashing = record {
  sha1 = λ t. t;
  Arguments = Text;
  dumps_args = λ a. a;
  dumps_kwargs = λ a. [];
  is_none = λ v. v == codes "null";
}

abbrev doubled : Function texts plain_hashing
doubled = record { module_name = codes "m"; name = codes "f"; apply = λ a. some (a ++ a) }

memoized_again_example :
    let r =
      memoized texts plain_hashing 60 doubled 130 131
        (codes "ab")
        (memoized texts plain_hashing 60 doubled 100 101 (codes "ab") init).kv in
    let alive = nat_eq 60 0 || ltb 130 (101 + 60) in
    (r.called ≡ not alive)
    × (r.result ≡ (if alive then some (codes "abab") else some (codes "abab")))
unfolding memoized get_value lookup ◌==◌
memoized_again_example =
    memoized_again texts plain_hashing 60 doubled (codes "ab") 100 101 130 131 (codes "abab") init
      texts-IsLawful refl refl refl

-- A recurring event that answers, and one that asks for another run of itself.
abbrev ping : Event
ping = record {
  id = codes "ping";
  execution_interval = some 2000000;
  next_execution_date = none;
  trigger = λ m. record { requests = []; result = some (some (Dyn.num 1)) };
}

abbrev retry : Event
retry = record {
  id = codes "retry";
  execution_interval = none;
  next_execution_date = none;
  trigger = λ m. record {
    requests = record { event_id = codes "retry"; metadata = none; delay = 5000 } ∷ [];
    result = some none;
  };
}

abbrev entry : ℕ → ℕ → Event → Queued
entry key counter e = record { heap_key = key; counter = counter; event = e; metadata = none }

abbrev busy : Dispatcher
busy = record {
  queue = entry 10 0 retry ∷ entry 12 1 ping ∷ [];
  events = ping ∷ retry ∷ [];
  counter = 2;
  sent = [];
  triggered = [];
}

abbrev quiet : Dispatcher
quiet = record {
  queue = entry 10 0 ping ∷ entry 90 1 ping ∷ [];
  events = ping ∷ [];
  counter = 2;
  sent = [];
  triggered = [];
}

abbrev clock : ℕ → ℕ
clock i = 12000 + i

process-IsTimely_example :
    Ordered (
      (process 3 clock 0 busy.queue busy).1.triggered
      ++ (process 3 clock 0 busy.queue busy).1.queue)
process-IsTimely_example =
    process-IsTimely 3 clock 0 busy.queue busy (λ n. omega arith) refl
      (record {
        ordered = ((refl, tt), (tt, tt));
        past = tt;
        counted = (omega arith, (omega arith, tt));
      })

process-IsDone_example : IsDone 12000 quiet (process 3 clock 0 quiet.queue quiet)
process-IsDone_example =
    process-IsDone 3 clock 0 quiet.queue quiet (λ n. omega arith) refl
      (
        record { schedules_nothing = refl; succeeds = refl },
        (record { schedules_nothing = refl; succeeds = refl }, tt),
      )
      ((refl, tt), (tt, tt)) (omega arith)
