-- ===== src/Dispatcher/Recurring/Registered.antt =====
-- The ids of the events that are registered (`register_event` of src/ut_components/event.py).
use mathlib.Core.Path.{subst}
use greenline.Base.{◌≡◌, false, List, [], ◌∷◌, All, ◌==◌, eq_sound, Bool-cases, inl, inr}
use greenline.Dispatcher.{Event, Dispatcher, set_event, register_event}
use greenline.Dispatcher.Recurring.{IsApart, HasOwnIds}

set_event-IsApart :
    (e x : Event) (es : List Event)
    → IsApart x e
    → All (IsApart x) es
    → All (IsApart x) (set_event e es)
unfolding set_event
set_event-IsApart e x [] a all = (a, tt)
set_event-IsApart e x (y ∷ es) a (b, all) = elim (Bool-cases (y.id == e.id)) [
  | inl same ↦ rw same (a, all)
  | inr other ↦ rw other (b, set_event-IsApart e x es a all)
]

same_id-IsApart :
    (y e : Event) (es : List Event) → y.id ≡ e.id → All (IsApart y) es → All (IsApart e) es
same_id-IsApart y e [] h all = tt
same_id-IsApart y e (x ∷ es) h (a, all) =
    (subst (λ i. (i == x.id) ≡ false) h a, same_id-IsApart y e es h all)

set_event-HasOwnIds : (e : Event) (es : List Event) → HasOwnIds es → HasOwnIds (set_event e es)
unfolding set_event
set_event-HasOwnIds e [] own = (tt, tt)
set_event-HasOwnIds e (y ∷ es) (mine, own) = elim (Bool-cases (y.id == e.id)) [
  | inl same ↦ rw same (same_id-IsApart y e es (eq_sound y.id e.id same) mine, own)
  | inr other ↦ rw other (set_event-IsApart e y es other mine, set_event-HasOwnIds e es own)
]

-- Registering an event keeps that each id is registered once.
pub register_event-HasOwnIds :
    (e : Event) (d : Dispatcher) → HasOwnIds d.events → HasOwnIds (register_event e d).events
unfolding register_event
register_event-HasOwnIds e d own = set_event-HasOwnIds e d.events own
