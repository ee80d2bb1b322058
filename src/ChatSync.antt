-- ===== src/ChatSync.antt =====
-- src/greenline/events/chat_sync.py: the events of the daemon, from its store (src/daemon/eventstore) to the
-- handlers, and dispatch_event of src/greenline/events/handlers.py. The handlers are an interface.
pub mod Dispatch
pub mod Bounds
pub mod Kept
pub mod Loop
pub mod Reached
pub mod Drained
use greenline.Base.{
  ℕ, zero, suc, Bool, true, false, Option, none, some, List, [], ◌∷◌, ◌++◌, map, any, Text, codes,
  ◌==◌, ltb, leb, nat_eq, select, take, length, Table, is_empty, if◌then◌else◌,
}
use greenline.Dyn.{Dyn}
use greenline.Keys.{unknown_event_key}
use greenline.Models.{Record}
use greenline.State.{State, put_record}
pub use greenline.ChatSync.Dispatch.{
  Event, Updates, no_updates, Handled, Handler, Handlers, handled, raised_again, failed,
}
unfoldable pub use greenline.ChatSync.Dispatch.{
  list_events, delete_events, handle_unknown, dispatch_event_inner, dispatch_event,
}

-- What is shown by `qml_events`, latest last.
pub data Shown : Type 0 where
  sync_status : Bool → Shown
  message_upsert message_reaction_update sender_photo_update : List Dyn → Shown
  presence_update chat_presence chat_list_update : List Dyn → Shown

-- The daemon's events; the record under the key of the last event's id, which no handler writes; all else
-- that the handlers change; what was shown; the events that were dispatched without an error, latest
-- last; and the number of calls of the daemon.
pub record Client : Type 0 where
  pub events : List Event
  pub last_event_id : ℕ
  pub state : State
  pub shown : List Shown
  pub dispatched : List Event
  pub calls : ℕ

pub data Ended : Type 0 where
  finished raised unfinished : Ended

abbrev pub show : List Shown → Client → Client
show new c = record c { shown = c.shown ++ new }

abbrev pub show_some : (List Dyn → Shown) → List Dyn → List Shown
show_some f [] = []
show_some f (x ∷ xs) = f (x ∷ xs) ∷ []

pub show_updates : Updates → Client → Client
show_updates u c =
    show
      (show_some message_upsert (u.message_upserts ++ u.message_updates)
        ++ (show_some message_reaction_update u.reaction_updates
            ++ (show_some chat_list_update (map (λ r. r.1) u.chat_updates)
                ++ (show_some sender_photo_update u.photo_updates
                    ++ (show_some presence_update u.presence_updates
                        ++ show_some chat_presence u.chat_presence_updates)))))
      c

-- The loop over the events of a reply: whether an event's dispatch raised, what was collected, the largest
-- id, and the client.
abbrev pub Batch : Type 0
Batch = record { raised : Bool; updates : Updates; max_id : ℕ; client : Client }

abbrev pub larger : ℕ → ℕ → ℕ
larger id max_id = if ltb max_id id then id else max_id

-- A run of the loop: how it ended, and whether the status of the sync is shown.
abbrev pub Ran : Type 0
Ran = record { ended : Ended; syncing : Bool; client : Client }

module _ (H : Handlers) where
  abbrev pub after_dispatch : (Updates → ℕ → Client → Batch) → Event → ℕ → Client → Handled → Batch
  after_dispatch next event max_id c (handled st updates) =
      next updates (larger event.id max_id)
        (record c { state = st; dispatched = c.dispatched ++ (event ∷ []) })
  after_dispatch next event max_id c (raised_again st updates) = record {
    raised = true;
    updates = updates;
    max_id = max_id;
    client = record c { state = st };
  }
  after_dispatch next event max_id c (failed st updates) = record {
    raised = true;
    updates = updates;
    max_id = max_id;
    client = record c { state = st };
  }

  unfoldable pub dispatch_all : List Event → Updates → ℕ → Client → Batch
  dispatch_all [] updates max_id c = record {
    raised = false;
    updates = updates;
    max_id = max_id;
    client = c;
  }
  dispatch_all (event ∷ events) updates max_id c =
      after_dispatch (λ u m c'. dispatch_all events u m c') event max_id c
        (dispatch_event H event c.state updates)

  -- `calls n` tells whether the daemon answers the call with the number `n`.
  module _ (calls : ℕ → Bool) where
    abbrev pub called : Client → Client
    called c = record c { calls = suc c.calls }

    -- `daemon_client().delete_events(up_to_id=max_id)`, and the record of the last id; `none` is an error.
    unfoldable pub settle : ℕ → Client → Option Client
    settle max_id c =
        if calls c.calls
        then some
            (record (called c) { events = delete_events max_id c.events; last_event_id = max_id })
        else none

    -- After a reply has been dispatched and shown.
    abbrev pub settled : ℕ → ℕ → Client → Option Client
    settled last_id max_id c = if ltb last_id max_id then settle max_id c else some c

    abbrev pub raised_at : Client → Ran
    raised_at c = record { ended = raised; syncing = true; client = c }

    abbrev pub after_settled : (ℕ → Client → Ran) → List Event → ℕ → Client → Option Client → Ran
    after_settled next reply last_id c none = raised_at (called c)
    after_settled next reply last_id c (some c') =
        if ltb (length reply) 500
        then record { ended = finished; syncing = true; client = c' }
        else next last_id c'

    abbrev pub after_batch : (ℕ → Client → Ran) → List Event → ℕ → Batch → Ran
    after_batch next reply last_id b =
        let c = show_updates b.updates b.client in
        if b.raised
        then raised_at b.client
        else after_settled next reply (larger b.max_id last_id) c (settled last_id b.max_id c)

    abbrev pub after_reply : (ℕ → Client → Ran) → Bool → ℕ → Client → List Event → Ran
    after_reply next syncing last_id c [] = record {
      ended = finished;
      syncing = syncing;
      client = c;
    }
    after_reply next syncing last_id c (e ∷ reply) = after_batch next (e ∷ reply) last_id (
        dispatch_all (e ∷ reply) no_updates last_id
          (if syncing then c else show (sync_status true ∷ []) c))

    -- The loop of `_do_trigger`
    unfoldable pub run : ℕ → Bool → ℕ → Client → Ran
    run zero syncing last_id c = record { ended = unfinished; syncing = syncing; client = c }
    run (suc fuel) syncing last_id c =
        if calls c.calls
        then after_reply (λ l c'. run fuel true l c') syncing last_id (called c)
            (list_events last_id 500 c.events)
        else record { ended = raised; syncing = syncing; client = called c }

    -- `finally: if syncing`
    abbrev pub at_last : Ran → Ended × Client
    at_last r = (r.ended, if r.syncing then show (sync_status false ∷ []) r.client else r.client)

    unfoldable pub do_trigger : ℕ → Client → Ended × Client
    do_trigger fuel c = at_last (run fuel false c.last_event_id c)

    abbrev pub once_settled : Client → Option Client → Ended × Client
    once_settled c none = (raised, called c)
    once_settled c (some c') = (finished, c')

    abbrev pub once_replied : ℕ → Client → List Event → Ended × Client
    once_replied last_id c [] = (finished, c)
    once_replied last_id c (e ∷ reply) =
        let b = dispatch_all (e ∷ reply) no_updates last_id c in
        if b.raised
        then (raised, b.client)
        else once_settled b.client (settled last_id b.max_id b.client)

    unfoldable pub process_events_once : ℕ → Client → Ended × Client
    process_events_once batch_limit c =
        if calls c.calls
        then once_replied c.last_event_id (called c)
            (list_events c.last_event_id batch_limit c.events)
        else (raised, called c)
