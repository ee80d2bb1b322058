-- ===== src/Outbox/Backoff.antt =====
-- The delays of the retries of src/pending_outbox.py, and what a retry writes.
use greenline.Base.{
  ℕ, zero, suc, ◌+◌, ◌≤◌, ◌<◌, ◌≡◌, refl, ap, ◌-◌, ◌*◌, ◌^◌, min, some, arith, Text, lookup,
  lookup-insert, eq_refl,
}
use greenline.Keys.{pending_outbox_key}
use greenline.Models.{PendingOutboxRecord}
use greenline.Outbox.{
  Outbox, as_pending, attempts, delay_seconds, schedule_pending_retry,
  pending_retry_max_backoff_seconds, pending_retry_interval_seconds,
}

min_past : (n : ℕ) → min (suc (suc (suc (suc (suc (suc n))))) - 1) 5 ≡ 5
min_past n = omega arith

delay_late : (n : ℕ) → delay_seconds (suc (suc (suc (suc (suc (suc n)))))) ≡ 32
unfolding delay_seconds
delay_late n =
    ap (λ e. min pending_retry_max_backoff_seconds (pending_retry_interval_seconds * 2 ^ e))
      (min_past n)

late_bounds :
    (d e : ℕ)
    → d ≡ 32
    → e ≡ 32
    → (1 ≤ d) × (d ≤ 32) × (d ≤ e) × (d < pending_retry_max_backoff_seconds)
late_bounds d e h k = ground arith

pub delay_bounds :
    (n : ℕ)
    → (1 ≤ delay_seconds n)
      × (delay_seconds n ≤ 32)
      × (delay_seconds n ≤ delay_seconds (suc n))
      × (delay_seconds n < pending_retry_max_backoff_seconds)
unfolding delay_seconds
delay_bounds zero = ground arith
delay_bounds (suc zero) = ground arith
delay_bounds (suc (suc zero)) = ground arith
delay_bounds (suc (suc (suc zero))) = ground arith
delay_bounds (suc (suc (suc (suc zero)))) = ground arith
delay_bounds (suc (suc (suc (suc (suc zero))))) = ground arith
delay_bounds (suc (suc (suc (suc (suc (suc n)))))) =
    late_bounds _ _ (delay_late n) (delay_late (suc n))

late_step : (d e : ℕ) → d ≡ 32 → e ≡ 32 → e ≡ min 32 (2 * d)
late_step d e h k = omega (arith, h, k)

delay_step : (n : ℕ) → delay_seconds (suc (suc n)) ≡ min 32 (2 * delay_seconds (suc n))
unfolding delay_seconds
delay_step zero = refl
delay_step (suc zero) = refl
delay_step (suc (suc zero)) = refl
delay_step (suc (suc (suc zero))) = refl
delay_step (suc (suc (suc (suc zero)))) = refl
delay_step (suc (suc (suc (suc (suc n))))) = late_step _ _ (delay_late n) (delay_late (suc n))

-- After the first attempt the delay is one second, and after each further attempt it is twice the delay
-- before, up to 32 seconds; it is a second at least, and below the limit of 300 seconds that the code sets.
pub delay_doubles :
    (n : ℕ)
    → (delay_seconds 1 ≡ 1)
      × (delay_seconds (suc (suc n)) ≡ min 32 (2 * delay_seconds (suc n)))
      × (1 ≤ delay_seconds n)
      × (delay_seconds n < pending_retry_max_backoff_seconds)
unfolding delay_seconds
delay_doubles n = let b = delay_bounds n in (refl, delay_step n, b.0, b.3)

-- An entry that was put off once more, at a time, after a number of attempts.
pub record IsPutOff (now before : ℕ) (p : PendingOutboxRecord) : Type 0 where
  pub counted : p.attempt_count ≡ before + 1
  pub later : now < p.next_attempt_at
  pub soon : p.next_attempt_at ≤ now + 32

pub schedule-IsPutOff :
    (now : ℕ) (chat_id message_id : Text) (o : Outbox)
    → let key = pending_outbox_key chat_id message_id in
      let n = attempts (as_pending (lookup key o.state.store)) in
      (p : PendingOutboxRecord) × (as_pending
          (lookup key (schedule_pending_retry now chat_id message_id o).state.store)
        ≡ some p)
      × IsPutOff now n p
unfolding schedule_pending_retry
schedule-IsPutOff now chat_id message_id o =
    let key = pending_outbox_key chat_id message_id in
    let n = attempts (as_pending (lookup key o.state.store)) + 1 in
    (
      record {
        chat_id = chat_id;
        message_id = message_id;
        attempt_count = n;
        next_attempt_at = now + delay_seconds n;
      },
      rw (lookup-insert, eq_refl key) refl,
      record {
        counted = refl;
        later = omega (arith, (delay_bounds n).0);
        soon = omega (arith, (delay_bounds n).1);
      },
    )
