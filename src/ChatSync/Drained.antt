-- ===== src/ChatSync/Drained.antt =====
-- How the loop of the sync ends (`_do_trigger` of src/greenline/events/chat_sync.py).
use mathlib.Core.Path.{subst}
use greenline.Base.{
  ℕ, zero, suc, ◌≤◌, ◌<◌, ◌≡◌, refl, sym, ap, ◌∙◌, Bool, true, false, List, [], ◌∷◌, arith, All,
  ltb, length, select, take, Bool-cases, inl, inr,
}
use greenline.ChatSync.{
  Event, Handlers, Handled, handled, raised_again, failed, Updates, no_updates, Client, Batch,
  larger, finished, Ran, list_events, delete_events, dispatch_event, dispatch_all, after_dispatch,
  show_updates, show, sync_status, settle, after_batch, after_reply, called, run, do_trigger,
}
use greenline.ChatSync.Bounds.{top}
use greenline.ChatSync.Kept.{dispatch_all-Dispatches}
use greenline.Kv.Rows.{take_of_short}
use greenline.State.{State}

abbrev pub raises : Handled → Bool
raises (handled st u) = false
raises _ = true

-- The events that are still to be listed.
abbrev pub pending : Client → List Event
pending c = select (λ e. ltb c.last_event_id e.id) c.events

take-empty : {A : Type 0} (n : ℕ) (xs : List A) → take (suc n) xs ≡ [] → xs ≡ []
take-empty n [] h = refl
take-empty n (x ∷ xs) h = absurd (cc h)

top-le : (m : ℕ) (events : List Event) → m ≤ top m events
top-le m [] = omega arith
top-le m (e ∷ events) = ground (arith, top-le (larger e.id m) events)

all_le-top : (m : ℕ) (events : List Event) → All (λ e. e.id ≤ top m events) events
all_le-top m [] = tt
all_le-top m (e ∷ events) =
    (ground (arith, top-le (larger e.id m) events), all_le-top (larger e.id m) events)

-- Where all events above an id are at most another, none is above that.
none_above :
    (last m : ℕ) (events : List Event)
    → last ≤ m
    → All (λ e. e.id ≤ m) (select (λ e. ltb last e.id) events)
    → select (λ e. ltb m e.id) events ≡ []
unfolding select
none_above last m [] le all = refl
none_above last m (e ∷ events) le all = elim (Bool-cases (ltb last e.id)) [
  | inl h ↦
      let (p, rest) = rw h at all in
      let low : ltb m e.id ≡ false = ground arith in rw low (none_above last m events le rest)
  | inr n ↦
      let low : ltb m e.id ≡ false = ground arith in
      rw low (none_above last m events le (rw n at all))
]

select_le : (p : Event → Bool) (events : List Event) → length (select p events) ≤ length events
unfolding select
select_le p [] = omega arith
select_le p (e ∷ events) = ground (arith, select_le p events)

-- Deleting up to an id takes at least one event, where one above `last` is at most that id.
fewer :
    (last m : ℕ) (x : Event) (rest events : List Event)
    → select (λ e. ltb last e.id) events ≡ x ∷ rest
    → x.id ≤ m
    → length (select (λ e. ltb m e.id) events) < length events
unfolding select
fewer last m x rest [] h le = absurd (cc h)
fewer last m x rest (e ∷ events) h le = elim (Bool-cases (ltb last e.id)) [
  | inl hit ↦
      let same : e ≡ x = head (rw hit at h) in
      let low : ltb m e.id ≡ false = rw same (ground arith) in
      rw low (ground (arith, select_le (λ y. ltb m y.id) events))
  | inr n ↦ ground (arith, fewer last m x rest events (rw n at h) le)
]
  where
    head : {a b : Event} {as' bs : List Event} → ◌≡◌ {A = List Event} (a ∷ as') (b ∷ bs) → a ≡ b
    head h = cc

below : (a b : ℕ) → ltb a b ≡ true → a < b
below a b h = ground arith

select-above :
    (last : ℕ) (events : List Event) → All (λ e. last < e.id) (select (λ e. ltb last e.id) events)
unfolding select
select-above last [] = tt
select-above last (e ∷ events) = elim (Bool-cases (ltb last e.id)) [
  | inl h ↦ rw h (ground arith, select-above last events)
  | inr n ↦ rw n (select-above last events)
]

take-head :
    (n : ℕ) (xs : List Event) (x : Event) (rest : List Event)
    → take n xs ≡ x ∷ rest
    → (more : List Event) × (xs ≡ x ∷ more)
take-head zero xs x rest h = absurd (cc h)
take-head (suc n) [] x rest h = absurd (cc h)
take-head (suc n) (y ∷ xs) x rest h = (xs, ap (λ z. z ∷ xs) (head h))
  where
    head : {a b : Event} {as' bs : List Event} → ◌≡◌ {A = List Event} (a ∷ as') (b ∷ bs) → a ≡ b
    head h = cc

module _ (H : Handlers) (calls : ℕ → Bool)
    (fine : (e : Event) (st : State) (u : Updates) → raises (dispatch_event H e st u) ≡ false)
    (answered : (n : ℕ) → calls n ≡ true) where
  after_dispatch-fine :
      (next : Updates → ℕ → Client → Batch) (e : Event) (max_id : ℕ) (c : Client) (h : Handled)
      → raises h ≡ false
      → ((u : Updates) (m : ℕ) (c' : Client) → (next u m c').raised ≡ false)
      → (after_dispatch H next e max_id c h).raised ≡ false
  after_dispatch-fine next e max_id c (handled st u) q rest = rest u _ _
  after_dispatch-fine next e max_id c (raised_again st u) q rest = absurd (cc q)
  after_dispatch-fine next e max_id c (failed st u) q rest = absurd (cc q)

  dispatch_all-fine :
      (events : List Event) (u : Updates) (m : ℕ) (c : Client)
      → (dispatch_all H events u m c).raised ≡ false
  unfolding dispatch_all
  dispatch_all-fine [] u m c = refl
  dispatch_all-fine (e ∷ events) u m c =
      after_dispatch-fine (λ u' m' c'. dispatch_all H events u' m' c') e m c
        (dispatch_event H e c.state u) (fine e c.state u)
        (λ u' m' c'. dispatch_all-fine events u' m' c')

  -- How the loop ends: by its tests, with nothing left to list.
  record Drains (r : Ran) : Type 0 where
    done : r.ended ≡ finished
    none_left : pending r.client ≡ []

  module _ (next : ℕ → Client → Ran) (fuel : ℕ)
      (goes : (c : Client) → length c.events < fuel → Drains (next c.last_event_id c)) where
    -- A reply that is not empty, at the client before it.
    reply-Drains :
        (c : Client) (x : Event) (rest : List Event)
        → take 500 (pending c) ≡ x ∷ rest
        → length c.events < suc fuel
        → Drains (
            after_batch H calls next
              (x ∷ rest)
              c.last_event_id
              (dispatch_all H (x ∷ rest) no_updates c.last_event_id c))
    unfolding settle show_updates delete_events select
    reply-Drains c x rest from enough =
        let reply = x ∷ rest in
        let b = dispatch_all H reply no_updates c.last_event_id c in
        let ok = dispatch_all-fine reply no_updates c.last_event_id c in
        let d = dispatch_all-Dispatches H reply no_updates c.last_event_id c in
        let max : b.max_id ≡ top c.last_event_id reply = (d.whole ok).1 in
        let (more, whole) = take-head 500 (pending c) x rest from in
        let first : c.last_event_id < x.id =
          (subst (All (λ e. c.last_event_id < e.id)) whole
            (select-above c.last_event_id c.events)).0 in
        let at_most : x.id ≤ b.max_id = rw max ((all_le-top c.last_event_id reply).0) in
        let above : ltb c.last_event_id b.max_id ≡ true = ground (arith, first, at_most) in
        let same = d.goes.same_events in
        let left : length (select (λ e. ltb b.max_id e.id) b.client.events) < fuel =
          rw same
            (omega (arith, enough, fewer c.last_event_id b.max_id x more c.events whole at_most)) in
        rw (ok, above, answered b.client.calls)
          (elim (Bool-cases (ltb (length reply) 500)) [
            | inl short ↦
                let all_listed : take 500 (pending c) ≡ pending c =
                  take_of_short 500 (pending c) (rw from (below (length reply) 500 short)) in
                let low : All (λ e. e.id ≤ b.max_id) (pending c) =
                  subst (All (λ e. e.id ≤ b.max_id)) (sym from ∙ all_listed) (
                    subst (λ m. All (λ e. e.id ≤ m) reply) (sym max)
                      (all_le-top c.last_event_id reply)) in
                let gone : select (λ e. ltb b.max_id e.id) b.client.events ≡ [] = rw same (
                  none_above c.last_event_id b.max_id c.events (omega (arith, first, at_most))
                    low) in
                rw short
                  (record { done = refl; none_left = ap (select (λ e. ltb b.max_id e.id)) gone })
            | inr full ↦ rw full (goes _ left)
          ])

    after_reply-Drains :
        (syncing : Bool) (c : Client) (reply : List Event)
        → take 500 (pending c) ≡ reply
        → length c.events < suc fuel
        → Drains (after_reply H calls next syncing c.last_event_id c reply)
    after_reply-Drains syncing c [] from enough = record {
      done = refl;
      none_left = take-empty 499 (pending c) from;
    }
    after_reply-Drains true c (x ∷ rest) from enough = reply-Drains c x rest from enough
    after_reply-Drains false c (x ∷ rest) from enough =
        reply-Drains (show (sync_status true ∷ []) c) x rest from enough

  run-Drains :
      (fuel : ℕ) (syncing : Bool) (c : Client)
      → length c.events < fuel
      → Drains (run H calls fuel syncing c.last_event_id c)
  unfolding run list_events
  run-Drains zero syncing c enough = absurd (omega (arith, enough))
  run-Drains (suc fuel) syncing c enough = rw (answered c.calls) (
      after_reply-Drains (λ l c'. run H calls fuel true l c') fuel
        (λ c' less. run-Drains fuel true c' less) syncing (called H calls c) _ refl enough)

-- Where the daemon answers every call and no dispatch of an event raises, a run of the sync with fuel for
-- one round more than the daemon has events ends by its tests, and there is no event left to list.
pub do_trigger_drains :
    (H : Handlers) (calls : ℕ → Bool) (fuel : ℕ) (c : Client)
    → ((e : Event) (st : State) (u : Updates) → raises (dispatch_event H e st u) ≡ false)
    → ((n : ℕ) → calls n ≡ true)
    → length c.events < fuel
    → ((do_trigger H calls fuel c).0 ≡ finished) × (pending (do_trigger H calls fuel c).1 ≡ [])
unfolding do_trigger
do_trigger_drains H calls fuel c fine answered enough =
    let r = run H calls fuel false c.last_event_id c in
    let d = run-Drains H calls fine answered fuel false c enough in
    (d.done, elim (Bool-cases r.syncing) [ inl e ↦ rw e d.none_left | inr n ↦ rw n d.none_left ])
