-- ===== src/ChatSync/Kept.antt =====
-- Events that are dispatched by a batch, and what the daemon keeps (src/greenline/events/chat_sync.py).
use mathlib.Core.Path.{subst}
use mathlib.Core.List.{append_assoc, append-nil}
use greenline.Base.{
  ℕ, ◌≡◌, refl, sym, ap, ◌∙◌, true, false, ◌||◌, List, [], ◌∷◌, ◌++◌, arith, All, ltb, select,
}
use greenline.State.{State}
use greenline.ChatSync.{
  Event, Handlers, Handled, handled, raised_again, failed, Updates, Client, Shown, Batch, larger,
  list_events, delete_events, dispatch_event, dispatch_all, after_dispatch, show_updates,
}
use greenline.ChatSync.Bounds.{
  has_id, Rising, top, AllIn, page-AllIn, All-select, select-Rising, has_id-append, has_id-delete,
}

-- The daemon's events are in the order of their ids; every event that was inserted is still with the daemon
-- or was dispatched; and those up to the last id were dispatched.
pub record IsKept (inserted : List Event) (c : Client) : Type 0 where
  pub rising : Rising c.events
  pub covered : All (λ e. (has_id e.id c.events || has_id e.id c.dispatched) ≡ true) inserted
  pub seen : AllIn c.last_event_id c.dispatched c.events

-- A client with the same events and last id, that has dispatched more.
pub record Goes (more : List Event) (c c' : Client) : Type 0 where
  pub same_events : c'.events ≡ c.events
  pub same_last : c'.last_event_id ≡ c.last_event_id
  pub adds : c'.dispatched ≡ c.dispatched ++ more

Goes-trans :
    {more more' : List Event} {a b c : Client}
    → Goes more a b
    → Goes more' b c
    → Goes (more ++ more') a c
Goes-trans {more} {more'} {a} g h = record {
  same_events = h.same_events ∙ g.same_events;
  same_last = h.same_last ∙ g.same_last;
  adds = h.adds ∙ ap (λ d. d ++ more') g.adds ∙ append_assoc a.dispatched more more';
}

Goes-IsKept :
    (inserted more : List Event) (c c' : Client)
    → Goes more c c'
    → IsKept inserted c
    → IsKept inserted c'
Goes-IsKept inserted more c c' g k = record {
  rising = rw g.same_events k.rising;
  covered = rw (g.same_events, g.adds) (cover inserted k.covered);
  seen = rw (g.same_events, g.same_last, g.adds) (see c.events k.seen);
}
  where
    cover :
        (xs : List Event)
        → All (λ e. (has_id e.id c.events || has_id e.id c.dispatched) ≡ true) xs
        → All (λ e. (has_id e.id c.events || has_id e.id (c.dispatched ++ more)) ≡ true) xs
    cover [] all = tt
    cover (e ∷ xs) (p, all) = (ground (arith, has_id-append e.id c.dispatched more), cover xs all)

    see :
        (xs : List Event)
        → AllIn c.last_event_id c.dispatched xs
        → AllIn c.last_event_id (c.dispatched ++ more) xs
    see [] all = tt
    see (e ∷ xs) (p, all) = (ground (arith, has_id-append e.id c.dispatched more), see xs all)

-- What a batch has dispatched: all its events, unless one raised.
pub record Dispatches (events : List Event) (max_id : ℕ) (c : Client) (b : Batch) : Type 0 where
  pub more : List Event
  pub goes : Goes more c b.client
  pub whole : b.raised ≡ false → (more ≡ events) × (b.max_id ≡ top max_id events)

nothing_more : (c : Client) (st : State) → Goes [] c (record c { state = st })
nothing_more c st = record {
  same_events = refl;
  same_last = refl;
  adds = sym (append-nil c.dispatched);
}

module _ (H : Handlers) where
  after_dispatch-Dispatches :
      (next : Updates → ℕ → Client → Batch) (e : Event) (events : List Event) (max_id : ℕ)
      (c : Client) (h : Handled)
      → ((u : Updates) (m : ℕ) (c' : Client) → Dispatches events m c' (next u m c'))
      → Dispatches (e ∷ events) max_id c (after_dispatch H next e max_id c h)
  after_dispatch-Dispatches next e events max_id c (handled st u) rest =
      let d =
        rest u (larger e.id max_id)
          (record c { state = st; dispatched = c.dispatched ++ (e ∷ []) }) in
      record {
        more = e ∷ d.more;
        goes = record {
          same_events = d.goes.same_events;
          same_last = d.goes.same_last;
          adds = d.goes.adds ∙ append_assoc c.dispatched (e ∷ []) d.more;
        };
        whole = λ h. (ap (λ xs. e ∷ xs) (d.whole h).0, (d.whole h).1);
      }
  after_dispatch-Dispatches next e events max_id c (raised_again st u) rest = record {
    more = [];
    goes = nothing_more c st;
    whole = λ h. absurd (cc h);
  }
  after_dispatch-Dispatches next e events max_id c (failed st u) rest = record {
    more = [];
    goes = nothing_more c st;
    whole = λ h. absurd (cc h);
  }

  pub dispatch_all-Dispatches :
      (events : List Event) (updates : Updates) (max_id : ℕ) (c : Client)
      → Dispatches events max_id c (dispatch_all H events updates max_id c)
  unfolding dispatch_all
  dispatch_all-Dispatches [] updates max_id c = record {
    more = [];
    goes = nothing_more c c.state;
    whole = λ h. (refl, refl);
  }
  dispatch_all-Dispatches (e ∷ events) updates max_id c =
      after_dispatch-Dispatches _ e events max_id c (dispatch_event H e c.state updates)
        (λ u m c'. dispatch_all-Dispatches events u m c')

pub show_updates-Goes : (u : Updates) (c : Client) → Goes [] c (show_updates u c)
unfolding show_updates
show_updates-Goes u c = record {
  same_events = refl;
  same_last = refl;
  adds = sym (append-nil c.dispatched);
}

-- Each event of a list is in a list that ends with it.
at_end : (known events : List Event) → All (λ e. has_id e.id (known ++ events) ≡ true) events
at_end known [] = tt
at_end known (e ∷ events) = (
  ground (arith, has_id-append e.id known (e ∷ events)),
  subst (λ t. All (λ x. has_id x.id t ≡ true) events) (append_assoc known (e ∷ []) events)
      (at_end (known ++ (e ∷ [])) events),
)

module _ (inserted : List Event) where
  -- The client after the daemon has deleted the events up to an id, all of which were dispatched.
  pub deleted-IsKept :
      (m calls : ℕ) (c : Client)
      → IsKept inserted c
      → AllIn m c.dispatched c.events
      → IsKept inserted
          (record c { events = delete_events m c.events; last_event_id = m; calls = calls })
  unfolding delete_events
  deleted-IsKept m calls c k all = record {
    rising = select-Rising (λ e. ltb m e.id) c.events k.rising;
    covered = cover inserted k.covered;
    seen = All-select _ (λ e. ltb m e.id) c.events all;
  }
    where
      cover :
          (xs : List Event)
          → All (λ e. (has_id e.id c.events || has_id e.id c.dispatched) ≡ true) xs
          → All
              (λ e.
                (has_id e.id (select (λ x. ltb m x.id) c.events) || has_id e.id c.dispatched)
                ≡ true)
              xs
      cover [] all' = tt
      cover (e ∷ xs) (p, rest) = (has_id-delete e.id m c.dispatched c.events all p, cover xs rest)

  -- A client that is kept, after a batch: the events up to the largest id were dispatched, unless one raised.
  pub record BatchKept (b : Batch) : Type 0 where
    pub kept : IsKept inserted b.client
    pub known : b.raised ≡ false → AllIn b.max_id b.client.dispatched b.client.events

  pub batch-BatchKept :
      (H : Handlers) (limit : ℕ) (updates : Updates) (c : Client)
      → IsKept inserted c
      → BatchKept
          (dispatch_all H (list_events c.last_event_id limit c.events) updates c.last_event_id c)
  unfolding list_events
  batch-BatchKept H limit updates c k =
      let reply = list_events c.last_event_id limit c.events in
      let d = dispatch_all-Dispatches H reply updates c.last_event_id c in
      let kept = Goes-IsKept inserted d.more c _ d.goes k in
      record {
        kept = kept;
        known = λ h.
            let (same, max) = d.whole h in
            let before = rw (d.goes.same_last, d.goes.same_events) at kept.seen in
            let all : All
                (λ e.
                  has_id e.id (dispatch_all H reply updates c.last_event_id c).client.dispatched
                  ≡ true)
                reply =
              rw (d.goes.adds, same) (at_end c.dispatched reply) in
            rw (max, d.goes.same_events)
              (page-AllIn c.last_event_id _ _ c.events k.rising before all);
      }

  pub shown-IsKept : (c c' : Client) → Goes [] c c' → IsKept inserted c → IsKept inserted c'
  shown-IsKept c c' g k = Goes-IsKept inserted [] c c' g k

  pub same_but_shown :
      (c : Client) (shown : List Shown) (calls : ℕ)
      → Goes [] c (record c { shown = shown; calls = calls })
  same_but_shown c shown calls = record {
    same_events = refl;
    same_last = refl;
    adds = sym (append-nil c.dispatched);
  }
