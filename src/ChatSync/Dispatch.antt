-- ===== src/ChatSync/Dispatch.antt =====
-- The events of the daemon's store (daemon/eventstore/eventstore.go) and `dispatch_event` of
-- src/greenline/events/handlers.py, which hands each to the handler of its type.
use greenline.Base.{
  ℕ, Bool, List, [], ◌∷◌, any, Text, codes, ◌==◌, ltb, nat_eq, select, take, if◌then◌else◌,
}
use greenline.Dyn.{Dyn}
use greenline.Keys.{unknown_event_key}
use greenline.Models.{Record}
use greenline.State.{State, put_record}

-- An event of the daemon's store.
pub record Event : Type 0 where
  pub id : ℕ
  pub event_type : Text
  pub payload : Text

-- `Store.List` and `Store.Delete` of the daemon, whose rows are in the order of their ids.
unfoldable pub list_events : ℕ → ℕ → List Event → List Event
list_events after_id limit events =
    let at_least = if nat_eq limit 0 then 100 else limit in
    let at_most = if ltb 500 at_least then 500 else at_least in
    take at_most (select (λ e. ltb after_id e.id) events)

unfoldable pub delete_events : ℕ → List Event → List Event
delete_events up_to_id events = select (λ e. ltb up_to_id e.id) events

-- What the handlers collect for the user interface; `chat_updates` is a dict in the order of its keys.
pub record Updates : Type 0 where
  pub chat_updates : List (Text × Dyn)
  pub message_upserts : List Dyn
  pub message_updates : List Dyn
  pub reaction_updates : List Dyn
  pub photo_updates : List Dyn
  pub presence_updates : List Dyn
  pub chat_presence_updates : List Dyn

abbrev pub no_updates : Updates
no_updates = record {
  chat_updates = [];
  message_upserts = [];
  message_updates = [];
  reaction_updates = [];
  photo_updates = [];
  presence_updates = [];
  chat_presence_updates = [];
}

-- How a handler ends: well, by an error that `dispatch_event` raises again (a daemon that is not there, or
-- a value that is refused), or by another error; with what it has changed until then.
pub data Handled : Type 0 where
  handled : State → Updates → Handled
  raised_again : State → Updates → Handled
  failed : State → Updates → Handled

abbrev pub Handler : Type 0
Handler = Event → State → Updates → Handled

-- The handlers of the types of events; `history_sync` is that branch of `_dispatch_event_inner`.
pub record Handlers : Type 0 where
  pub message : Handler
  pub receipt : Handler
  pub undecryptable_message : Handler
  pub contact : Handler
  pub mute : Handler
  pub picture : Handler
  pub avatar_sync : Handler
  pub push_name : Handler
  pub business_name : Handler
  pub presence : Handler
  pub chat_presence : Handler
  pub history_sync : Handler
  pub parse_ignored_event : Handler

abbrev pub passed_types : List Text
passed_types =
    codes "AppState"
    ∷ codes "AppStateSyncComplete"
    ∷ codes "AppStateSyncError"
    ∷ codes "CallAccept"
    ∷ codes "CallOffer"
    ∷ codes "CallOfferNotice"
    ∷ codes "CallRelayLatency"
    ∷ codes "CallTerminate"
    ∷ codes "Connected"
    ∷ codes "KeepAliveRestored"
    ∷ codes "KeepAliveTimeout"
    ∷ codes "OfflineSyncCompleted"
    ∷ codes "OfflineSyncPreview"
    ∷ codes "PairError"
    ∷ codes "PairSuccess"
    ∷ codes "QR"
    ∷ []

abbrev pub parsed_types : List Text
parsed_types =
    codes "GroupInfo"
    ∷ codes "Blocklist"
    ∷ codes "CallReject"
    ∷ codes "IdentityChange"
    ∷ codes "JoinedGroup"
    ∷ codes "UserAbout"
    ∷ []

abbrev one_of : List Text → Text → Bool
one_of types t = any (λ u. u == t) types

-- `_handle_unknown`
unfoldable pub handle_unknown : Event → State → State
handle_unknown event st =
    put_record (unknown_event_key event.event_type event.id)
      (Record.unknown_event (record { event_type = event.event_type; payload = event.payload })) st

-- `_dispatch_event_inner`
unfoldable pub dispatch_event_inner : Handlers → Handler
unfolding handle_unknown
dispatch_event_inner H event st updates =
    let t = event.event_type in
    if t == codes "Message"
    then H.message event st updates
    else if t == codes "Receipt"
    then H.receipt event st updates
    else if t == codes "UndecryptableMessage"
    then H.undecryptable_message event st updates
    else if t == codes "Contact"
    then H.contact event st updates
    else if t == codes "Mute"
    then H.mute event st updates
    else if t == codes "Picture"
    then H.picture event st updates
    else if t == codes "AvatarSync"
    then H.avatar_sync event st updates
    else if t == codes "PushName"
    then H.push_name event st updates
    else if t == codes "BusinessName"
    then H.business_name event st updates
    else if t == codes "Presence"
    then H.presence event st updates
    else if t == codes "ChatPresence"
    then H.chat_presence event st updates
    else if t == codes "HistorySync"
    then H.history_sync event st updates
    else if one_of parsed_types t
    then H.parse_ignored_event event st updates
    else if one_of passed_types t
    then handled st updates
    else handled (handle_unknown event st) updates

-- Of the errors, only those that are raised again end the dispatch of an event badly.
after_handler : Event → Handled → Handled
unfolding handle_unknown
after_handler event (failed st updates) = handled (handle_unknown event st) updates
after_handler event h = h

unfoldable pub dispatch_event : Handlers → Handler
unfolding after_handler
dispatch_event H event st updates = after_handler event (dispatch_event_inner H event st updates)
