-- ===== src/Dispatcher/Order.antt =====
-- The order in which src/ut_components/event.py triggers events.
use mathlib.Core.List.{append_assoc}
use mathlib.Core.Path.{subst}
use greenline.Base.{
  ℕ, zero, suc, ◌+◌, ◌≤◌, ◌<◌, ◌≡◌, refl, sym, true, false, Option, none, some, List, [], ◌∷◌, ◌++◌,
  arith, All, Text, leb, Bool-cases, inl, inr,
}
use greenline.Dyn.{Dyn}
use greenline.Dispatcher.{
  Request, Event, Queued, Dispatcher, precedes, heappush, heap_key_of, find_event, schedule,
  schedule_event, schedule_all, trigger_first, after_trigger, process, fails,
}

-- Entries in the order of the heap, each before all that follow it.
abbrev pub Ordered : List Queued → Type 0
Ordered [] = Unit
Ordered (x ∷ xs) = All (λ y. precedes x y ≡ true) xs × Ordered xs

precedes_trans : (a b c : Queued) → precedes a b ≡ true → precedes b c ≡ true → precedes a c ≡ true
precedes_trans a b c h k = ground arith

All-precedes_trans :
    (a b : Queued) (xs : List Queued)
    → precedes a b ≡ true
    → All (λ y. precedes b y ≡ true) xs
    → All (λ y. precedes a y ≡ true) xs
All-precedes_trans a b [] h all = tt
All-precedes_trans a b (x ∷ xs) h (k, all) =
    (precedes_trans a b x h k, All-precedes_trans a b xs h all)

-- What is scheduled later comes after an entry that it is not before.
counter_decides :
    (x y : Queued) → y.counter < x.counter → precedes x y ≡ false → precedes y x ≡ true
counter_decides x y h n = ground arith

module _ (P : Queued → Type 0) (x : Queued) (p : P x) where
  All-heappush : (queue : List Queued) → All P queue → All P (heappush x queue)
  unfolding heappush
  All-heappush [] all = (p, tt)
  All-heappush (y ∷ ys) (q, all) = elim (Bool-cases (precedes x y)) [
    | inl e ↦ rw e (p, (q, all))
    | inr n ↦ rw n (q, All-heappush ys all)
  ]

  All-append-heappush :
      (log queue : List Queued) → All P (log ++ queue) → All P (log ++ heappush x queue)
  All-append-heappush [] queue all = All-heappush queue all
  All-append-heappush (l ∷ log) queue (q, all) = (q, All-append-heappush log queue all)

Ordered-heappush :
    (x : Queued) (queue : List Queued)
    → Ordered queue
    → All (λ y. y.counter < x.counter) queue
    → Ordered (heappush x queue)
unfolding heappush
Ordered-heappush x [] o c = (tt, tt)
Ordered-heappush x (y ∷ ys) (first, o) (c, cs) = elim (Bool-cases (precedes x y)) [
  | inl e ↦ rw e ((e, All-precedes_trans x y ys e first), (first, o))
  | inr n ↦ rw n (
    All-heappush (λ z. precedes y z ≡ true) x (counter_decides x y c n) ys first,
    Ordered-heappush x ys o cs,
  )
]

Ordered-append-heappush :
    (x : Queued) (log queue : List Queued)
    → Ordered (log ++ queue)
    → All (λ y. y.counter < x.counter) queue
    → All (λ l. precedes l x ≡ true) log
    → Ordered (log ++ heappush x queue)
Ordered-append-heappush x [] queue o c l = Ordered-heappush x queue o c
Ordered-append-heappush x (y ∷ log) queue (first, o) c (l, ls) = (
  All-append-heappush (λ z. precedes y z ≡ true) x l log queue first,
  Ordered-append-heappush x log queue o c ls,
)

-- What was triggered, and then what waits, is in order; what was triggered was due by now, and the
-- counters are below the next one.
pub record IsTimely (now : ℕ) (d : Dispatcher) : Type 0 where
  pub ordered : Ordered (d.triggered ++ d.queue)
  pub past : All (λ l. (l.heap_key ≤ heap_key_of now) × (l.counter < d.counter)) d.triggered
  pub counted : All (λ y. y.counter < d.counter) d.queue

pub All-map {ℓ} :
    {A : Type ℓ} (P Q : A → Type 0) → ((a : A) → P a → Q a) → (xs : List A) → All P xs → All Q xs
All-map P Q f [] all = tt
All-map P Q f (x ∷ xs) (p, all) = (f x p, All-map P Q f xs all)

pub heap_key_of_mono : (a b : ℕ) → a ≤ b → heap_key_of a ≤ heap_key_of b
unfolding heap_key_of
heap_key_of_mono a b h = omega arith

past-precedes :
    (now delay n : ℕ) (e : Event) (m : Option Dyn) (l : Queued)
    → (l.heap_key ≤ heap_key_of now) × (l.counter < n)
    → precedes l
        (record { heap_key = heap_key_of (now + delay); counter = n; event = e; metadata = m })
      ≡ true
past-precedes now delay n e m l h = ground (arith, heap_key_of_mono now (now + delay))

schedule_event-IsTimely :
    (now : ℕ) (m : Option Dyn) (delay : ℕ) (o : Option Event) (d : Dispatcher)
    → IsTimely now d
    → IsTimely now (schedule_event now m delay o d)
unfolding schedule_event
schedule_event-IsTimely now m delay none d t = t
schedule_event-IsTimely now m delay (some e) d t = record {
  ordered =
      Ordered-append-heappush _ d.triggered d.queue t.ordered t.counted
        (All-map _ _ (past-precedes now delay d.counter e m) d.triggered t.past);
  past = All-map _ _ (λ l h. omega (arith, h)) d.triggered t.past;
  counted =
      All-heappush (λ y. y.counter < d.counter + 1) _ (omega arith) d.queue
        (All-map _ _ (λ y h. omega (arith, h)) d.queue t.counted);
}

pub schedule-IsTimely :
    (now : ℕ) (id : Text) (m : Option Dyn) (delay : ℕ) (d : Dispatcher)
    → IsTimely now d
    → IsTimely now (schedule now id m delay d)
unfolding schedule
schedule-IsTimely now id m delay d t =
    schedule_event-IsTimely now m delay (find_event id d.events) d t

schedule_all-IsTimely :
    (now : ℕ) (rs : List Request) (d : Dispatcher)
    → IsTimely now d
    → IsTimely now (schedule_all now rs d)
unfolding schedule_all
schedule_all-IsTimely now [] d t = t
schedule_all-IsTimely now (r ∷ rs) d t =
    schedule_all-IsTimely now rs _ (schedule-IsTimely now r.event_id r.metadata r.delay d t)

IsTimely-later : (now later : ℕ) (d : Dispatcher) → now ≤ later → IsTimely now d → IsTimely later d
IsTimely-later now later d h t = record {
  ordered = t.ordered;
  past =
      All-map _ _ (λ l p. (omega (arith, p.0, heap_key_of_mono now later h), p.1)) d.triggered
        t.past;
  counted = t.counted;
}

All-append {ℓ} :
    {A : Type ℓ} (P : A → Type 0) (xs : List A) (a : A) → All P xs → P a → All P (xs ++ (a ∷ []))
All-append P [] a all p = (p, tt)
All-append P (x ∷ xs) a (q, all) p = (q, All-append P xs a all p)

after_trigger-IsTimely :
    (now : ℕ) (q : Queued) (r : Option (Option Dyn)) (rs : List Request) (d : Dispatcher)
    → IsTimely now d
    → IsTimely now (after_trigger now q r rs d)
unfolding after_trigger
after_trigger-IsTimely now q none rs d t = schedule_all-IsTimely now rs d t
after_trigger-IsTimely now q (some r) rs d t =
    let t' = schedule_all-IsTimely now rs d t in
    record { ordered = t'.ordered; past = t'.past; counted = t'.counted }

trigger_first-IsTimely :
    (now : ℕ) (q : Queued) (qs : List Queued) (d : Dispatcher)
    → d.queue ≡ q ∷ qs
    → leb q.heap_key (heap_key_of now) ≡ true
    → IsTimely now d
    → IsTimely now (trigger_first now q qs d)
unfolding trigger_first
trigger_first-IsTimely now q qs d at due t =
    let c : All (λ y. y.counter < d.counter) (q ∷ qs) =
      subst (All (λ y. y.counter < d.counter)) at t.counted in
    let o : Ordered (d.triggered ++ (q ∷ qs)) =
      subst (λ x. Ordered (d.triggered ++ x)) at t.ordered in
    after_trigger-IsTimely now q _ _ _ (record {
      ordered = subst Ordered (sym (append_assoc d.triggered (q ∷ []) qs)) o;
      past = All-append _ d.triggered q t.past (ground arith, c.0);
      counted = c.1;
    })

-- Where the clock does not go back, a run of the loop, however it ends, has triggered the entries in
-- the order of their times, and of their scheduling where these are the same; what waits comes after
-- all that was triggered. This holds with what the triggers themselves schedule.
pub process-IsTimely :
    (fuel : ℕ) (clock : ℕ → ℕ) (i : ℕ) (queue : List Queued) (d : Dispatcher)
    → ((n : ℕ) → clock n ≤ clock (suc n))
    → d.queue ≡ queue
    → IsTimely (clock i) d
    → Ordered ((process fuel clock i queue d).1.triggered ++ (process fuel clock i queue d).1.queue)
unfolding process
process-IsTimely zero clock i queue d mono at t = t.ordered
process-IsTimely (suc fuel) clock i [] d mono at t = t.ordered
process-IsTimely (suc fuel) clock i (q ∷ qs) d mono at t =
    elim (Bool-cases (leb q.heap_key (heap_key_of (clock i)))) [
      | inr late ↦ rw late t.ordered
      | inl due ↦
          let d' = trigger_first (clock i) q qs d in
          let t' = trigger_first-IsTimely (clock i) q qs d at due t in
          elim (Bool-cases (fails (q.event.trigger q.metadata).result)) [
            | inl bad ↦ rw (due, bad) t'.ordered
            | inr fine ↦
                rw (due, fine)
                  (process-IsTimely fuel clock (suc i) d'.queue d' mono refl
                    (IsTimely-later (clock i) (clock (suc i)) d' (mono i) t'))
          ]
    ]
