-- ===== src/ContactSync/Sound.antt =====
-- The refresh of contacts and groups (src/greenline/events/chat_sync.py) and the unread total. It counts with
-- the chats that it read at the beginning.
use mathlib.Core.Path.{subst}
use greenline.Base.{
  ℕ, ◌≡◌, refl, sym, ap, ◌∙◌, Bool, true, false, ◌||◌, Option, none, some, List, [], ◌∷◌, ◌++◌,
  arith, Text, ◌==◌, eq_sound, is_empty, Table, lookup, insert, lookup-insert, insert-Ascending,
  Bool-cases, inl, inr, All, Ascending, before, ne_of_before, eq_comm, if◌then◌else◌,
}
use greenline.ContactSync.{
  Contact, Group, Refresh, existing_chats, put_chat, refresh_existing, contact_names, new_contact,
  refresh_contact_at, put_profile, same_profile, group_profile_key, refresh_group_at,
  refresh_contact, refresh_contacts, reading, sync_contacts, profile_of, refresh_group,
  refresh_groups, sync_groups, refresh_chats,
}
use greenline.Contracts.Refinement.{Store}
use greenline.Identity.{differs, remember_chat, update_chat_name}
use greenline.Identity.Jids.{canonicalize_contact_jid}
use greenline.Keys.{chat_key, chat_prefix, unread_total_key}
use greenline.Kv.Like.{like_prefix}
use greenline.Messages.Names.{update_chat_name-Keeps, preferred_contact_name-store}
use greenline.Models.{Record, ChatListItem, GroupProfileRecord}
use greenline.Models.Fresh.{new_chat}
use greenline.State.{State, Daemon, Unicode}
use greenline.Unread.Quiet.{IsOther, Quiet-insert, Quiet-IsCounted}
use greenline.Unread.Sums.{IsSound, unread_at, put_chat-IsCounted, chat_key-is_chat}

abbrev unread_in : Option ChatListItem → ℕ
unread_in none = 0
unread_in (some c) = c.unread_count

-- The chats that were read have the counts of the stored ones; of the others none has unread messages.
abbrev Agrees : Table ChatListItem → Store → Type 0
Agrees existing s =
    (id : Text) → unread_in (lookup (chat_key id) existing) ≡ unread_at (lookup (chat_key id) s)

-- The store is sound and agrees.
record IsFit (r : Refresh) : Type 0 where
  sound : IsSound r.state.store
  agrees : Agrees r.existing r.state.store

not_after : (j : Text) (s : Store) → All (λ e. before j e.0 ≡ true) s → lookup j s ≡ none
unfolding lookup
not_after j [] all = refl
not_after j ((i, r) ∷ s) all =
    ground (arith, ne_of_before j i all.0, eq_comm i j, not_after j s all.1)

-- A row that is no chat has no unread messages, and no other row has its key.
no_chat-Agrees :
    (key : Text) (r : Record) (s : Store) (id : Text)
    → unread_at (some r) ≡ 0
    → All (λ e. before key e.0 ≡ true) s
    → unread_in (lookup (chat_key id) (existing_chats s)) ≡ unread_at (lookup (chat_key id) s)
    → unread_in (lookup (chat_key id) (existing_chats s))
      ≡ unread_at (lookup (chat_key id) ((key, r) ∷ s))
unfolding lookup
no_chat-Agrees key r s id zero_unread all h = elim (Bool-cases (key == chat_key id)) [
  | inl e ↦
      let gone : lookup (chat_key id) s ≡ none =
        subst (λ k. lookup k s ≡ none) (eq_sound key (chat_key id) e) (not_after key s all) in
      rw e (h ∙ ap unread_at gone ∙ sym zero_unread)
  | inr n ↦ rw n h
]

existing-Agrees : (s : Store) → Ascending s → Agrees (existing_chats s) s
unfolding existing_chats lookup
existing-Agrees [] a id = refl
existing-Agrees ((key, Record.chat c) ∷ s) a id = elim (Bool-cases (key == chat_key id)) [
  | inl e ↦
      let found : like_prefix chat_prefix key ≡ true =
        subst (λ k. like_prefix chat_prefix k ≡ true) (sym (eq_sound key (chat_key id) e))
          (chat_key-is_chat id) in
      rw (found, e) refl
  | inr n ↦ elim (Bool-cases (like_prefix chat_prefix key)) [
    | inl f ↦ rw (f, n) (existing-Agrees s a.1 id)
    | inr f ↦ rw (f, n) (existing-Agrees s a.1 id)
  ]
]
existing-Agrees ((key, r) ∷ s) a id = no_chat-Agrees key _ s id refl a.0 (existing-Agrees s a.1 id)

-- A chat is put with the count that its row has; where it was read, it changes there, too.
put_chat-IsFit :
    (jid : Text) (c : ChatListItem) (r : Refresh) (b : Bool) (photos : List (Text × Text))
    → c.unread_count ≡ unread_in (lookup (chat_key jid) r.existing)
    → IsFit r
    → IsFit (
        put_chat jid c (record r {
          existing = if b then insert (chat_key jid) c r.existing else r.existing;
          photo_updates = photos;
        }))
unfolding remember_chat
put_chat-IsFit jid c r b photos e f = record {
  sound = (
    insert-Ascending (chat_key jid) (Record.chat c) r.state.store f.sound.0,
    put_chat-IsCounted jid c r.state.store f.sound.0 f.sound.1 (sym (f.agrees jid) ∙ sym e),
  );
  agrees = agree b;
}
  where
    agree :
        (b : Bool)
        → Agrees
            (if b then insert (chat_key jid) c r.existing else r.existing)
            (insert (chat_key jid) (Record.chat c) r.state.store)
    agree true id = elim (Bool-cases (chat_key jid == chat_key id)) [
      | inl h ↦ rw (lookup-insert, lookup-insert, h) refl
      | inr n ↦ rw (lookup-insert, lookup-insert, n) (f.agrees id)
    ]
    agree false id = elim (Bool-cases (chat_key jid == chat_key id)) [
      | inl h ↦ rw (lookup-insert, h, ← eq_sound (chat_key jid) (chat_key id) h) (sym e)
      | inr n ↦ rw (lookup-insert, n) (f.agrees id)
    ]

same_store-IsFit :
    (r : Refresh) (st : State)
    → st.store ≡ r.state.store
    → IsFit r
    → IsFit (record r { state = st })
same_store-IsFit r st e f = record { sound = rw e f.sound; agrees = rw e f.agrees }

refresh_existing-IsFit :
    (jid photo : Text) (c : ChatListItem) (changed : Bool) (r : Refresh)
    → c.unread_count ≡ unread_in (lookup (chat_key jid) r.existing)
    → IsFit r
    → IsFit (refresh_existing jid photo c changed r)
unfolding refresh_existing
refresh_existing-IsFit jid photo c changed r e f = elim (Bool-cases (differs photo c.photo)) [
  | inl moved ↦ rw moved (
      put_chat-IsFit jid (record c { photo = photo }) r true
        (r.photo_updates ++ ((jid, photo) ∷ [])) e f)
  | inr still ↦ elim (Bool-cases changed) [
    | inl h ↦ rw (still, h) (put_chat-IsFit jid c r true r.photo_updates e f)
    | inr n ↦ rw (still, n) f
  ]
]

refresh_contact_at-IsFit :
    (now : ℕ) (jid photo : Text) (p : Text × State) (contact : Contact) (o : Option ChatListItem)
    (r : Refresh)
    → p.1.store ≡ r.state.store
    → lookup (chat_key jid) r.existing ≡ o
    → IsFit r
    → IsFit (refresh_contact_at now jid photo p contact o r)
unfolding refresh_contact_at contact_names new_contact new_chat
refresh_contact_at-IsFit now jid photo (name, st) contact (some c) r e h f =
    let k =
      update_chat_name-Keeps c now contact.full_name contact.push_name contact.business_name st in
    let u = update_chat_name c now contact.full_name contact.push_name contact.business_name st in
    refresh_existing-IsFit jid photo u.0.0 u.0.1 (record r { state = u.1 })
      (k.unread ∙ ap unread_in (sym h)) (same_store-IsFit r u.1 (k.store ∙ e) f)
refresh_contact_at-IsFit now jid photo (name, st) contact none r e h f =
    put_chat-IsFit jid _ (record r { state = st }) false r.photo_updates (ap unread_in (sym h))
      (same_store-IsFit r st e f)

refresh_group_at-IsFit :
    (now : ℕ) (jid photo : Text) (group : Group) (o : Option ChatListItem) (r : Refresh)
    → lookup (chat_key jid) r.existing ≡ o
    → IsFit r
    → IsFit (refresh_group_at now jid photo group o r)
unfolding refresh_group_at new_chat
refresh_group_at-IsFit now jid photo group (some c) r h f =
    elim (Bool-cases (c.name == group.name)) [
      | inl e ↦ rw e (refresh_existing-IsFit jid photo c false r (ap unread_in (sym h)) f)
      | inr n ↦ rw n (refresh_existing-IsFit jid photo _ true r (ap unread_in (sym h)) f)
    ]
refresh_group_at-IsFit now jid photo group none r h f =
    put_chat-IsFit jid _ r false r.photo_updates (ap unread_in (sym h)) f

profile-IsOther : (jid : Text) → IsOther (group_profile_key jid)
unfolding group_profile_key unread_total_key like_prefix ◌==◌
profile-IsOther jid = record { no_chat = refl; no_total = refl }

put_profile-IsFit :
    (jid : Text) (profile : GroupProfileRecord) (r : Refresh)
    → IsFit r
    → IsFit (record r { state = put_profile jid profile r.state })
unfolding put_profile
put_profile-IsFit jid profile r f =
    elim (Bool-cases (same_profile (lookup (group_profile_key jid) r.state.store) profile)) [
      | inl e ↦ rw e f
      | inr n ↦
          let q =
            Quiet-insert (group_profile_key jid) (Record.group_profile profile) r.state.store
              (profile-IsOther jid) in
          rw n (record {
            sound = (q.ascending f.sound.0, Quiet-IsCounted q f.sound.1);
            agrees = λ id. f.agrees id ∙ ap unread_at (sym (q.chats id));
          })
    ]

module _ (U : Unicode) (D : Daemon) (now : ℕ) where
  refresh_contacts-IsFit :
      (contacts : List Contact) (r : Refresh)
      → IsFit r
      → IsFit (refresh_contacts U D now contacts r)
  unfolding refresh_contacts refresh_contact
  refresh_contacts-IsFit [] r f = f
  refresh_contacts-IsFit (c ∷ contacts) r f = elim (Bool-cases (is_empty c.jid)) [
    | inl e ↦ rw e (refresh_contacts-IsFit contacts r f)
    | inr n ↦
        let jid = canonicalize_contact_jid U D none c.jid r.state in
        rw n (
          refresh_contacts-IsFit contacts _ (
            refresh_contact_at-IsFit now jid _ _ c _ r
              (preferred_contact_name-store jid c.full_name c.push_name c.business_name [] r.state)
              refl f))
  ]

  refresh_groups-IsFit :
      (groups : List Group) (r : Refresh) → IsFit r → IsFit (refresh_groups U D now groups r)
  unfolding refresh_groups refresh_group
  refresh_groups-IsFit [] r f = f
  refresh_groups-IsFit (g ∷ groups) r f = elim (Bool-cases (is_empty g.jid || is_empty g.name)) [
    | inl e ↦ rw e (refresh_groups-IsFit groups r f)
    | inr n ↦
        let jid = canonicalize_contact_jid U D none g.jid r.state in
        rw n (
          refresh_groups-IsFit groups _ (
            refresh_group_at-IsFit now jid _ g _ _ refl
              (put_profile-IsFit jid (profile_of U D now r.state g) r f)))
  ]

  reading-IsFit : (r : Refresh) → IsSound r.state.store → IsFit (reading U D now r)
  reading-IsFit r s = record { sound = s; agrees = existing-Agrees r.state.store s.0 }

  sync_contacts-IsSound :
      (contacts : List Contact) (r : Refresh)
      → IsSound r.state.store
      → IsSound (sync_contacts U D now contacts r).state.store
  unfolding sync_contacts
  sync_contacts-IsSound [] r s = s
  sync_contacts-IsSound (c ∷ contacts) r s =
      (refresh_contacts-IsFit (c ∷ contacts) _ (reading-IsFit r s)).sound

  sync_groups-IsSound :
      (groups : List Group) (r : Refresh)
      → IsSound r.state.store
      → IsSound (sync_groups U D now groups r).state.store
  unfolding sync_groups
  sync_groups-IsSound [] r s = s
  sync_groups-IsSound (g ∷ groups) r s =
      (refresh_groups-IsFit (g ∷ groups) _ (reading-IsFit r s)).sound

-- Whatever contacts and groups the daemon gives, and whichever of the two calls fails, the refresh of the
-- chats keeps the unread total the sum of the chats' counts.
pub refresh_chats-IsSound :
    (U : Unicode) (D : Daemon) (now : ℕ) (contacts : Option (List Contact))
    (groups : Option (List Group)) (st : State)
    → IsSound st.store
    → IsSound (refresh_chats U D now contacts groups st).state.store
unfolding refresh_chats
refresh_chats-IsSound U D now none groups st s = s
refresh_chats-IsSound U D now (some contacts) none st s = sync_contacts-IsSound U D now contacts _ s
refresh_chats-IsSound U D now (some contacts) (some groups) st s =
    sync_groups-IsSound U D now groups _ (sync_contacts-IsSound U D now contacts _ s)
