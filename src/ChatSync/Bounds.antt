-- ===== src/ChatSync/Bounds.antt =====
-- The ids of a reply of the daemon: which events are in it, and which are above its largest id
-- (src/daemon/eventstore and src/greenline/events/chat_sync.py).
use mathlib.Core.Path.{subst}
use greenline.Base.{
  ℕ, zero, suc, ◌<◌, ◌≡◌, refl, sym, Bool, true, false, ◌&&◌, ◌||◌, List, [], ◌∷◌, ◌++◌, arith, All,
  ltb, leb, nat_eq, select, take, Bool-cases, inl, inr,
}
use greenline.ChatSync.{Event, larger}

abbrev pub has_id : ℕ → List Event → Bool
has_id i [] = false
has_id i (e ∷ events) = nat_eq e.id i || has_id i events

-- The ids rise.
abbrev pub Rising : List Event → Type 0
Rising [] = Unit
Rising (e ∷ events) = All (λ x. e.id < x.id) events × Rising events

abbrev all_below : ℕ → List Event → Bool
all_below i [] = true
all_below i (e ∷ events) = ltb e.id i && all_below i events

abbrev pub top : ℕ → List Event → ℕ
top m [] = m
top m (e ∷ events) = top (larger e.id m) events

top-below : (i m : ℕ) (page : List Event) → m < i → all_below i page ≡ true → top m page < i
top-below i m [] h k = h
top-below i m (e ∷ page) h k = top-below i (larger e.id m) page (ground arith) (ground arith)

-- Each event is at most `last_id`, or in the page, or above the whole page.
abbrev placed : ℕ → List Event → Event → Bool
placed last_id page e = leb e.id last_id || (has_id e.id page || all_below e.id page)

placed-cons :
    (last_id : ℕ) (x : Event) (page events : List Event)
    → All (λ e. x.id < e.id) events
    → All (λ e. placed last_id page e ≡ true) events
    → All (λ e. placed last_id (x ∷ page) e ≡ true) events
placed-cons last_id x page [] above all = tt
placed-cons last_id x page (e ∷ events) (h, above) (p, all) =
    (ground arith, placed-cons last_id x page events above all)

none_placed : (last_id : ℕ) (events : List Event) → All (λ e. placed last_id [] e ≡ true) events
none_placed last_id [] = tt
none_placed last_id (e ∷ events) = (ground arith, none_placed last_id events)

page-placed :
    (last_id n : ℕ) (events : List Event)
    → Rising events
    → All (λ e. placed last_id (take n (select (λ e. ltb last_id e.id) events)) e ≡ true) events
unfolding select
page-placed last_id zero events r = none_placed last_id events
page-placed last_id (suc n) [] r = tt
page-placed last_id (suc n) (x ∷ events) (above, r) = elim (Bool-cases (ltb last_id x.id)) [
  | inl e ↦
      let page = take n (select (λ y. ltb last_id y.id) events) in
      let whole : take (suc n) (select (λ y. ltb last_id y.id) (x ∷ events)) ≡ x ∷ page =
        rw e refl in
      subst (λ p. All (λ y. placed last_id p y ≡ true) (x ∷ events)) (sym whole)
        (ground arith, placed-cons last_id x page events above (page-placed last_id n events r))
  | inr low ↦
      let page = take (suc n) (select (λ y. ltb last_id y.id) events) in
      let whole : take (suc n) (select (λ y. ltb last_id y.id) (x ∷ events)) ≡ page = rw low refl in
      subst (λ p. All (λ y. placed last_id p y ≡ true) (x ∷ events)) (sym whole)
        (ground arith, page-placed last_id (suc n) events r)
]

-- All events up to an id are in a list.
abbrev pub AllIn : ℕ → List Event → List Event → Type 0
AllIn i known events = All (λ e. (ltb i e.id || has_id e.id known) ≡ true) events

has_id-subset :
    (i : ℕ) (page known : List Event)
    → All (λ e. has_id e.id known ≡ true) page
    → has_id i page ≡ true
    → has_id i known ≡ true
has_id-subset i [] known all h = absurd (cc h)
has_id-subset i (e ∷ page) known (p, all) h = ground (arith, has_id-subset i page known all)

-- Where the events up to an id are known and those of the next page are, too, all up to the largest id of
-- that page are known.
pub page-AllIn :
    (last_id n : ℕ) (known events : List Event)
    → Rising events
    → AllIn last_id known events
    → let page = take n (select (λ e. ltb last_id e.id) events) in
      All (λ e. has_id e.id known ≡ true) page → AllIn (top last_id page) known events
page-AllIn last_id n known events r before all =
    join (take n (select (λ e. ltb last_id e.id) events)) all events before
      (page-placed last_id n events r)
  where
    join :
        (page : List Event)
        → All (λ e. has_id e.id known ≡ true) page
        → (xs : List Event) → AllIn last_id known xs
        → All (λ e. placed last_id page e ≡ true) xs
        → AllIn (top last_id page) known xs
    join page all [] k p = tt
    join page all (e ∷ xs) (k, ks) (p, ps) = (
      ground (arith, has_id-subset e.id page known all, top-below e.id last_id page),
      join page all xs ks ps,
    )

module _ (P : Event → Type 0) (p : Event → Bool) where
  pub All-select : (events : List Event) → All P events → All P (select p events)
  unfolding select
  All-select [] all = tt
  All-select (e ∷ events) (q, all) = elim (Bool-cases (p e)) [
    | inl hit ↦ rw hit (q, All-select events all)
    | inr n ↦ rw n (All-select events all)
  ]

pub select-Rising :
    (p : Event → Bool) (events : List Event) → Rising events → Rising (select p events)
unfolding select
select-Rising p [] r = tt
select-Rising p (e ∷ events) (above, r) = elim (Bool-cases (p e)) [
  | inl h ↦ rw h (All-select (λ x. e.id < x.id) p events above, select-Rising p events r)
  | inr n ↦ rw n (select-Rising p events r)
]

pub has_id-append :
    (i : ℕ) (xs ys : List Event) → has_id i (xs ++ ys) ≡ (has_id i xs || has_id i ys)
has_id-append i [] ys = refl
has_id-append i (x ∷ xs) ys = ground (arith, has_id-append i xs ys)

-- An event that is known or there is so, too, where what is known up to an id has been deleted.
pub has_id-delete :
    (i m : ℕ) (known events : List Event)
    → AllIn m known events
    → (has_id i events || has_id i known) ≡ true
    → (has_id i (select (λ e. ltb m e.id) events) || has_id i known) ≡ true
unfolding select
has_id-delete i m known [] all h = h
has_id-delete i m known (e ∷ events) (k, all) h = ground (arith, has_id-delete i m known events all)
