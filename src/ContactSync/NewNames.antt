-- ===== src/ContactSync/NewNames.antt =====
-- The handlers of new names: `_handle_contact`, `_handle_push_name` and `_handle_business_name` of
-- src/greenline/events/handlers.py, at the fields of their events.
pub mod Stored
use greenline.Base.{
  ℕ, Bool, true, false, Option, none, some, [], Text, is_empty, lookup, if◌then◌else◌,
}
use greenline.Identity.{preferred_contact_name, remember_chat, update_chat_name}
use greenline.Identity.Jids.{canonicalize_contact_jid}
use greenline.Keys.{chat_key}
use greenline.Models.{Record, ChatListItem, ReadReceipt}
use greenline.Models.Fresh.{new_chat}
use greenline.State.{State, Daemon, Unicode, as_chat, put_record}

-- The JID, the name that is new, and the time of its `Timestamp` in seconds, 0 where it is empty.
pub record NameEvent : Type 0 where
  pub jid : Text
  pub name : Text
  pub timestamp : ℕ

-- The chat that is shown, if one changed, and the state.
abbrev pub Named : Type 0
Named = record { shown : Option ChatListItem; state : State }

put_named : Text → ChatListItem → State → Named
put_named jid c st = record {
  shown = some c;
  state = remember_chat c (put_record (chat_key jid) (Record.chat c) st);
}

put_changed_name : Text → (ChatListItem × Bool) × State → Named
unfolding put_named
put_changed_name jid ((c, changed), st) =
    if changed then put_named jid c st else record { shown = none; state = st }

new_named : NameEvent → Text → Text × State → Named
unfolding put_named
new_named event jid (name, st) =
    put_named jid
      (record (new_chat jid name [] [] [] 0 ReadReceipt.unset 0 false) {
        full_name = event.name;
        name_updated_at = event.timestamp;
      })
      st

-- A contact that has no chat gets one.
contact_named : NameEvent → Text → State → Option ChatListItem → Named
unfolding put_changed_name new_named
contact_named event jid st none =
    new_named event jid (preferred_contact_name jid event.name [] [] [] st)
contact_named event jid st (some c) =
    put_changed_name jid (update_chat_name c event.timestamp event.name [] [] st)

push_named : NameEvent → Text → State → Option ChatListItem → Named
unfolding put_changed_name
push_named event jid st none = record { shown = none; state = st }
push_named event jid st (some c) =
    put_changed_name jid (update_chat_name c event.timestamp [] event.name [] st)

business_named : NameEvent → Text → State → Option ChatListItem → Named
unfolding put_changed_name
business_named event jid st none = record { shown = none; state = st }
business_named event jid st (some c) =
    put_changed_name jid (update_chat_name c event.timestamp [] [] event.name st)

module _ (U : Unicode) (D : Daemon) where
  abbrev at_chat : (Text → State → Option ChatListItem → Named) → Text → State → Named
  at_chat named jid st = named jid st (as_chat (lookup (chat_key jid) st.store))

  -- `none` is an error of the daemon's `ensure_jid`.
  abbrev at_jid :
      (Text → State → Option ChatListItem → Named) → Text → State → Option Text → Option Named
  at_jid named name st none = none
  at_jid named name st (some jid) =
      if is_empty name
      then some (record { shown = none; state = st })
      else some (at_chat named (canonicalize_contact_jid U D none jid st) st)

  unfoldable pub handle_contact : NameEvent → State → Option Named
  unfolding contact_named
  handle_contact event st = at_jid (contact_named event) event.name st (D.ensure_jid event.jid)

  unfoldable pub handle_push_name : NameEvent → State → Option Named
  unfolding push_named
  handle_push_name event st = at_jid (push_named event) event.name st (D.ensure_jid event.jid)

  unfoldable pub handle_business_name : NameEvent → State → Option Named
  unfolding business_named
  handle_business_name event st =
      at_jid (business_named event) event.name st (D.ensure_jid event.jid)
