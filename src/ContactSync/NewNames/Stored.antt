-- ===== src/ContactSync/NewNames/Stored.antt =====
-- What the handlers of new names (src/greenline/events/handlers.py) store and show.
use greenline.Base.{
  ℕ, ◌≡◌, refl, sym, ap, ◌∙◌, Option, none, some, [], Text, eq_refl, is_empty, lookup,
  lookup-insert, insert-Ascending, Bool-cases, inl, inr,
}
use greenline.ContactSync.NewNames.{
  NameEvent, Named, put_named, put_changed_name, new_named, contact_named, push_named,
  business_named, at_jid, handle_contact, handle_push_name, handle_business_name,
}
use greenline.Identity.{remember_chat, update_chat_name, preferred_contact_name}
use greenline.Identity.Jids.{canonicalize_contact_jid}
use greenline.Keys.{chat_key}
use greenline.Messages.Names.{update_chat_name-Keeps, preferred_contact_name-store}
use greenline.Models.{Record, ChatListItem}
use greenline.Models.Fresh.{new_chat}
use greenline.State.{State, Daemon, Unicode, as_chat}
use greenline.Unread.Sums.{IsSound, unread_at, put_chat-IsCounted, as_chat_sound}

-- The chat of a record as the handlers show it: it stands in the store under the key of some JID.
abbrev pub IsStored : Option ChatListItem → State → Type 0
IsStored none st = Unit
IsStored (some c) st = (jid : Text) × (lookup (chat_key jid) st.store ≡ some (Record.chat c))

-- The result of a handler, where it has one: the total is the sum, and what is shown is stored.
pub record IsKeptUp (r : Named) : Type 0 where
  pub sound : IsSound r.state.store
  pub stored : IsStored r.shown r.state

abbrev pub OnResult : Option Named → Type 0
OnResult none = Unit
OnResult (some r) = IsKeptUp r

put_named-IsKeptUp :
    (jid : Text) (c : ChatListItem) (st : State)
    → IsSound st.store
    → unread_at (lookup (chat_key jid) st.store) ≡ c.unread_count
    → IsKeptUp (put_named jid c st)
unfolding put_named remember_chat
put_named-IsKeptUp jid c st (asc, counted) e = record {
  sound = (
    insert-Ascending (chat_key jid) (Record.chat c) st.store asc,
    put_chat-IsCounted jid c st.store asc counted e,
  );
  stored = (jid, rw (lookup-insert, eq_refl (chat_key jid)) refl);
}

put_changed_name-IsKeptUp :
    (jid : Text) (c : ChatListItem) (timestamp : ℕ) (full push business : Text) (st : State)
    → IsSound st.store
    → as_chat (lookup (chat_key jid) st.store) ≡ some c
    → IsKeptUp (put_changed_name jid (update_chat_name c timestamp full push business st))
unfolding put_changed_name
put_changed_name-IsKeptUp jid c timestamp full push business st s h =
    let u = update_chat_name c timestamp full push business st in
    let k = update_chat_name-Keeps c timestamp full push business st in
    let sound : IsSound u.1.store = rw k.store s in
    elim (Bool-cases u.0.1) [
      | inl e ↦
          let at : unread_at (lookup (chat_key jid) u.1.store) ≡ u.0.0.unread_count =
            ap (λ t. unread_at (lookup (chat_key jid) t)) k.store
            ∙ ap unread_at (as_chat_sound _ c h)
            ∙ sym k.unread in
          rw e (put_named-IsKeptUp jid u.0.0 u.1 sound at)
      | inr n ↦ rw n (record { sound = sound; stored = tt })
    ]

no_chat-unread : (o : Option Record) → as_chat o ≡ none → unread_at o ≡ 0
no_chat-unread none h = refl
no_chat-unread (some (Record.chat c)) h = absurd (cc h)
no_chat-unread (some r) h = refl

module _ (event : NameEvent) (jid : Text) (st : State) (s : IsSound st.store) where
  contact_named-IsKeptUp :
      (o : Option ChatListItem)
      → as_chat (lookup (chat_key jid) st.store) ≡ o
      → IsKeptUp (contact_named event jid st o)
  unfolding contact_named new_named new_chat
  contact_named-IsKeptUp none h =
      let p = preferred_contact_name jid event.name [] [] [] st in
      let same : p.1.store ≡ st.store = preferred_contact_name-store jid event.name [] [] [] st in
      put_named-IsKeptUp jid _ p.1 (rw same s) (rw same (no_chat-unread _ h))
  contact_named-IsKeptUp (some c) h =
      put_changed_name-IsKeptUp jid c event.timestamp event.name [] [] st s h

  push_named-IsKeptUp :
      (o : Option ChatListItem)
      → as_chat (lookup (chat_key jid) st.store) ≡ o
      → IsKeptUp (push_named event jid st o)
  unfolding push_named
  push_named-IsKeptUp none h = record { sound = s; stored = tt }
  push_named-IsKeptUp (some c) h =
      put_changed_name-IsKeptUp jid c event.timestamp [] event.name [] st s h

  business_named-IsKeptUp :
      (o : Option ChatListItem)
      → as_chat (lookup (chat_key jid) st.store) ≡ o
      → IsKeptUp (business_named event jid st o)
  unfolding business_named
  business_named-IsKeptUp none h = record { sound = s; stored = tt }
  business_named-IsKeptUp (some c) h =
      put_changed_name-IsKeptUp jid c event.timestamp [] [] event.name st s h

module _ (U : Unicode) (D : Daemon) (named : Text → State → Option ChatListItem → Named)
    (st : State) (s : IsSound st.store) where
  at_jid-OnResult :
      ((jid : Text) (o : Option ChatListItem)
        → as_chat (lookup (chat_key jid) st.store) ≡ o
        → IsKeptUp (named jid st o))
      → (name : Text) (o : Option Text) → OnResult (at_jid U D named name st o)
  at_jid-OnResult f name none = tt
  at_jid-OnResult f name (some jid) = elim (Bool-cases (is_empty name)) [
    | inl e ↦ rw e (record { sound = s; stored = tt })
    | inr n ↦ rw n (f (canonicalize_contact_jid U D none jid st) _ refl)
  ]

-- Each of the three handlers, at any event and where the daemon answers, keeps the unread total the sum of
-- the chats' counts, and the chat that it gives to be shown is the one that is stored.
pub new_names-OnResult :
    (U : Unicode) (D : Daemon) (event : NameEvent) (st : State)
    → IsSound st.store
    → OnResult (handle_contact U D event st)
      × OnResult (handle_push_name U D event st)
      × OnResult (handle_business_name U D event st)
unfolding handle_contact handle_push_name handle_business_name
new_names-OnResult U D event st s = (
  at_jid-OnResult U D (contact_named event) st s (λ jid. contact_named-IsKeptUp event jid st s)
      event.name (D.ensure_jid event.jid),
  at_jid-OnResult U D (push_named event) st s (λ jid. push_named-IsKeptUp event jid st s) event.name
      (D.ensure_jid event.jid),
  at_jid-OnResult U D (business_named event) st s (λ jid. business_named-IsKeptUp event jid st s)
      event.name (D.ensure_jid event.jid),
)
