-- ===== src/Examples/SyncRuns.antt =====
-- The theorems on src/greenline/events/chat_sync.py and src/greenline/events/handlers.py: a daemon that gets
-- two events, where a handler fails, and the names of some contacts and groups.
use greenline.Base.{◌≡◌, false, ℕ, refl, Bool, true, some, List, [], ◌∷◌, arith, codes}
use greenline.ContactSync.{Contact, Group, refresh_chats}
use greenline.ContactSync.NewNames.{
  NameEvent, handle_contact, handle_push_name, handle_business_name,
}
use greenline.ContactSync.NewNames.Stored.{OnResult, new_names-OnResult}
use greenline.ContactSync.Sound.{refresh_chats-IsSound}
use greenline.State.{Daemon, State}
use greenline.Unread.Sums.{IsSound}
use greenline.ChatSync.{
  Event, Handlers, Handler, handled, raised_again, failed, Client, do_trigger, process_events_once,
}
use greenline.ChatSync.{Updates, dispatch_event, dispatch_event_inner, finished}
use greenline.ChatSync.Drained.{raises, pending, do_trigger_drains}
use greenline.ChatSync.Kept.{IsKept}
use greenline.ChatSync.Reached.{start, inserts, triggers, processes, reached-IsKept}
use greenline.Examples.{state, ascii, ann, store-IsSound}

abbrev fine : Handler
fine event st updates = handled st updates

-- Receipts are not handled while the daemon is away, and contacts are never understood.
abbrev handlers : Handlers
handlers = record {
  message = fine;
  receipt = λ event st updates. raised_again st updates;
  undecryptable_message = fine;
  contact = λ event st updates. failed st updates;
  mute = fine;
  picture = fine;
  avatar_sync = fine;
  push_name = fine;
  business_name = fine;
  presence = fine;
  chat_presence = fine;
  history_sync = fine;
  parse_ignored_event = fine;
}

abbrev message_event : Event
message_event = record { id = 1; event_type = codes "Message"; payload = codes "{}" }

abbrev receipt_event : Event
receipt_event = record { id = 2; event_type = codes "Receipt"; payload = codes "{}" }

abbrev client : Client
client = record {
  events = [];
  last_event_id = 0;
  state = state;
  shown = [];
  dispatched = [];
  calls = 0;
}

abbrev always : ℕ → Bool
always n = true

abbrev with_message : Client
with_message = record client { events = message_event ∷ [] }

abbrev both : Client
both = record client { events = message_event ∷ receipt_event ∷ [] }

reached-IsKept_example :
    IsKept
      (receipt_event ∷ message_event ∷ [])
      (process_events_once handlers always 1 (do_trigger handlers always 3 both).1).1
reached-IsKept_example = reached-IsKept handlers (
    processes
      (triggers
        (inserts (inserts (start client refl) message_event tt (omega arith)) receipt_event
          (omega arith, tt) (omega arith))
        always 3)
      always 1)

-- A daemon that knows each JID under its own name.
abbrev online : Daemon
online = record { ensure_jid = λ jid. some jid }

abbrev contacts : List Contact
contacts =
    record {
      jid = ann;
      full_name = codes "Ann B";
      push_name = codes "ann";
      business_name = [];
      avatar_path = codes "/ann.jpg";
    }
    ∷ record {
      jid = codes "bob@s.whatsapp.net";
      full_name = codes "Bob";
      push_name = [];
      business_name = [];
      avatar_path = [];
    }
    ∷ []

abbrev groups : List Group
groups =
    record {
      jid = codes "1@g.us";
      name = codes "Friends";
      topic = codes "talk";
      avatar_path = [];
      participant_count = 0;
      participants = record { jid = ann; display_name = codes "Ann" } ∷ [];
    }
    ∷ []

refresh_chats-IsSound_example :
    IsSound (refresh_chats ascii online 100 (some contacts) (some groups) state).state.store
refresh_chats-IsSound_example =
    refresh_chats-IsSound ascii online 100 (some contacts) (some groups) state store-IsSound

abbrev renamed : NameEvent
renamed = record { jid = ann; name = codes "Ann C"; timestamp = 200 }

new_names-OnResult_example :
    OnResult (handle_contact ascii online renamed state)
    × OnResult (handle_push_name ascii online renamed state)
    × OnResult (handle_business_name ascii online renamed state)
new_names-OnResult_example = new_names-OnResult ascii online renamed state store-IsSound

-- Handlers that all succeed.
abbrev all_fine : Handlers
all_fine = record handlers { receipt = fine; contact = fine }

all_fine-succeeds :
    (e : Event) (st : State) (u : Updates) → raises (dispatch_event all_fine e st u) ≡ false
unfolding dispatch_event dispatch_event_inner
all_fine-succeeds e st u = ground arith

do_trigger_drains_example :
    ((do_trigger all_fine always 3 both).0 ≡ finished)
    × (pending (do_trigger all_fine always 3 both).1 ≡ [])
do_trigger_drains_example =
    do_trigger_drains all_fine always 3 both all_fine-succeeds (λ n. refl) (omega arith)
