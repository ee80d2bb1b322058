-- ===== src/Dispatcher/Live.antt =====
-- How the loop of src/ut_components/event.py ends (`_process`).
use mathlib.Core.List.{append_assoc}
use mathlib.Core.Path.{subst}
use greenline.Base.{
  ℕ, zero, suc, ◌≤◌, ◌<◌, ◌≡◌, refl, sym, ap, ◌∙◌, true, false, Option, none, some, List, [], ◌∷◌,
  ◌++◌, arith, All, length, leb, Bool-cases, inl, inr,
}
use greenline.Dyn.{Dyn}
use greenline.Dispatcher.{
  Request, Queued, Dispatcher, Ended, precedes, heap_key_of, schedule_all, trigger_first,
  after_trigger, process, fails,
}
use greenline.Dispatcher.Order.{Ordered, All-map, heap_key_of_mono}

-- An entry whose trigger schedules nothing and does not fail.
pub record IsQuiet (q : Queued) : Type 0 where
  pub schedules_nothing : (q.event.trigger q.metadata).requests ≡ []
  pub succeeds : fails (q.event.trigger q.metadata).result ≡ false

-- A dispatcher with this queue and these triggered entries.
record HasQueue (queue triggered : List Queued) (d : Dispatcher) : Type 0 where
  same_queue : d.queue ≡ queue
  same_triggered : d.triggered ≡ triggered

after_trigger-HasQueue :
    (now : ℕ) (q : Queued) (r : Option (Option Dyn)) (rs : List Request) (d : Dispatcher)
    → rs ≡ []
    → HasQueue d.queue d.triggered (after_trigger now q r rs d)
unfolding after_trigger schedule_all
after_trigger-HasQueue now q r (x ∷ rs) d h = absurd (cc h)
after_trigger-HasQueue now q none [] d h = record { same_queue = refl; same_triggered = refl }
after_trigger-HasQueue now q (some r) [] d h = record { same_queue = refl; same_triggered = refl }

trigger_first-HasQueue :
    (now : ℕ) (q : Queued) (qs : List Queued) (d : Dispatcher)
    → IsQuiet q
    → HasQueue qs (d.triggered ++ (q ∷ [])) (trigger_first now q qs d)
unfolding trigger_first
trigger_first-HasQueue now q qs d h = after_trigger-HasQueue now q _ _ _ h.schedules_nothing

-- How a run of the loop ends well: by its tests, with nothing lost and nothing due by `now`.
pub record IsDone (now : ℕ) (d : Dispatcher) (r : Ended × Dispatcher) : Type 0 where
  pub drained : r.0 ≡ Ended.drained
  pub nothing_lost : r.1.triggered ++ r.1.queue ≡ d.triggered ++ d.queue
  pub nothing_due : All (λ y. heap_key_of now < y.heap_key) r.1.queue

later_too :
    (n : ℕ) (q : Queued) (xs : List Queued)
    → n < q.heap_key
    → All (λ y. precedes q y ≡ true) xs
    → All (λ y. n < y.heap_key) xs
later_too n q [] h all = tt
later_too n q (x ∷ xs) h (k, all) = (ground arith, later_too n q xs h all)

not_due : (q : Queued) (n : ℕ) → leb q.heap_key n ≡ false → n < q.heap_key
not_due q n h = ground arith

-- With fuel for one round more than there are entries, and triggers that schedule nothing and do not
-- fail, the loop ends by its tests: nothing is lost, and no entry that was due when it began still
-- waits.
pub process-IsDone :
    (fuel : ℕ) (clock : ℕ → ℕ) (i : ℕ) (queue : List Queued) (d : Dispatcher)
    → ((n : ℕ) → clock n ≤ clock (suc n))
    → d.queue ≡ queue
    → All IsQuiet queue
    → Ordered queue
    → length queue < fuel
    → IsDone (clock i) d (process fuel clock i queue d)
unfolding process
process-IsDone zero clock i queue d mono at quiet o enough = absurd (omega (arith, enough))
process-IsDone (suc fuel) clock i [] d mono at quiet o enough = record {
  drained = refl;
  nothing_lost = refl;
  nothing_due = subst (All _) (sym at) tt;
}
process-IsDone (suc fuel) clock i (q ∷ qs) d mono at (quiet, quiets) (first, o) enough =
    elim (Bool-cases (leb q.heap_key (heap_key_of (clock i)))) [
      | inr late ↦ rw late (record {
        drained = refl;
        nothing_lost = refl;
        nothing_due =
            subst (All _) (sym at) (not_due q _ late, later_too _ q qs (not_due q _ late) first);
      })
      | inl due ↦
          let d' = trigger_first (clock i) q qs d in
          let t = trigger_first-HasQueue (clock i) q qs d quiet in
          let rest =
            process-IsDone fuel clock (suc i) d'.queue d' mono refl
              (subst (All IsQuiet) (sym t.same_queue) quiets) (subst Ordered (sym t.same_queue) o)
              (rw t.same_queue (omega (arith, enough))) in
          rw (due, quiet.succeeds)
            (record {
              drained = rest.drained;
              nothing_lost =
                  rest.nothing_lost
                  ∙ (λ j. t.same_triggered j ++ t.same_queue j)
                  ∙ append_assoc d.triggered (q ∷ []) qs
                  ∙ ap (λ x. d.triggered ++ x) (sym at);
              nothing_due =
                  All-map _ _
                    (λ y h. omega (arith, h, heap_key_of_mono (clock i) (clock (suc i)) (mono i))) _
                    rest.nothing_due;
            })
    ]
