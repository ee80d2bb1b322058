-- ===== src/ContactSync.antt =====
-- The names and photos of chats: ChatListUpdateEvent of src/greenline/events/chat_sync.py, which asks the
-- daemon for contacts and groups, and the handlers of new names of src/greenline/events/handlers.py.
pub mod Sound
pub mod NewNames
use greenline.Base.{
  ℕ, Bool, true, false, ◌&&◌, ◌||◌, not, Option, none, some, List, [], ◌∷◌, ◌++◌, Text, codes, ◌==◌,
  is_empty, nat_eq, length, Table, lookup, insert, if◌then◌else◌,
}
use greenline.Contracts.Refinement.{Store}
use greenline.Identity.{differs, preferred_contact_name, remember_chat, update_chat_name}
use greenline.Identity.Jids.{canonicalize_contact_jid}
use greenline.Keys.{chat_key, chat_prefix}
use greenline.Kv.Like.{like_prefix}
use greenline.Models.{
  Record, ChatListItem, ReadReceipt, GroupProfileRecord, GroupProfileMemberRecord,
}
use greenline.Models.Fresh.{new_chat}
use greenline.State.{State, Daemon, Unicode, as_chat, put_record}

-- The fields of the daemon's `Contact`, `GroupParticipant` and `Group` that are read.
pub record Contact : Type 0 where
  pub jid : Text
  pub full_name : Text
  pub push_name : Text
  pub business_name : Text
  pub avatar_path : Text

pub record GroupParticipant : Type 0 where
  pub jid : Text
  pub display_name : Text

pub record Group : Type 0 where
  pub jid : Text
  pub name : Text
  pub topic : Text
  pub avatar_path : Text
  pub participant_count : ℕ
  pub participants : List GroupParticipant

-- The state, the chats read at the beginning, which change as their objects do, and what is shown: the
-- chats and the photos of JIDs that changed, latest last.
pub record Refresh : Type 0 where
  pub state : State
  pub existing : Table ChatListItem
  pub chat_updates : List ChatListItem
  pub photo_updates : List (Text × Text)

abbrev pub with_existing :
    Option ChatListItem → Bool → Text → Table ChatListItem → Table ChatListItem
with_existing none is_chat key rest = rest
with_existing (some c) is_chat key rest = if is_chat then (key, c) ∷ rest else rest

-- `{key: value for key, value in kv.get_partial_records("chat:")}`
unfoldable pub existing_chats : Store → Table ChatListItem
existing_chats [] = []
existing_chats ((key, r) ∷ s) =
    with_existing (as_chat (some r)) (like_prefix chat_prefix key) key (existing_chats s)

abbrev pub photo_of : Text → Text
photo_of avatar_path = if is_empty avatar_path then [] else codes "file://" ++ avatar_path

-- `kv.put_record(key, chat)`, `remember_chat(chat)`, and the chat among those that are shown
abbrev pub put_chat : Text → ChatListItem → Refresh → Refresh
put_chat jid c r = record r {
  state = remember_chat c (put_record (chat_key jid) (Record.chat c) r.state);
  chat_updates = r.chat_updates ++ (c ∷ []);
}

-- The end of both branches for a known chat: the photo, and the chat is put where anything changed.
unfoldable pub refresh_existing : Text → Text → ChatListItem → Bool → Refresh → Refresh
refresh_existing jid photo c changed r =
    if differs photo c.photo
    then (let c' = record c { photo = photo } in
        put_chat jid c' (record r {
          existing = insert (chat_key jid) c' r.existing;
          photo_updates = r.photo_updates ++ ((jid, photo) ∷ []);
        }))
    else if changed
    then put_chat jid c (record r { existing = insert (chat_key jid) c r.existing })
    else r

contact_names : ℕ → Text → Text → Contact → (ChatListItem × Bool) × State → Refresh → Refresh
unfolding refresh_existing
contact_names now jid photo contact ((c, changed), st) r =
    refresh_existing jid photo c changed (record r { state = st })

new_contact : ℕ → Text → Text → Text → Contact → Refresh → Refresh
new_contact now jid photo display_name contact r =
    put_chat jid
      (record (new_chat jid display_name photo [] [] 0 ReadReceipt.unset 0 false) {
        full_name = contact.full_name;
        push_name = contact.push_name;
        business_name = contact.business_name;
        name_updated_at = now;
      })
      r

refresh_contact_at :
    ℕ → Text → Text → Text × State → Contact → Option ChatListItem → Refresh → Refresh
unfolding contact_names new_contact
refresh_contact_at now jid photo (display_name, st) contact (some c) r =
    contact_names now jid photo contact
      (update_chat_name c now contact.full_name contact.push_name contact.business_name st) r
refresh_contact_at now jid photo (display_name, st) contact none r =
    new_contact now jid photo display_name contact (record r { state = st })

abbrev same_member : GroupProfileMemberRecord → GroupProfileMemberRecord → Bool
same_member a b = a.jid == b.jid && a.display_name == b.display_name

abbrev same_members : List GroupProfileMemberRecord → List GroupProfileMemberRecord → Bool
same_members [] [] = true
same_members (a ∷ xs) (b ∷ ys) = same_member a b && same_members xs ys
same_members _ _ = false

abbrev same_profile : Option Record → GroupProfileRecord → Bool
same_profile (some (Record.group_profile p)) q =
    p.description == q.description
    && nat_eq p.member_count q.member_count
    && same_members p.members q.members
same_profile _ q = false

unfoldable pub group_profile_key : Text → Text
group_profile_key jid = codes "group_profile:" ++ jid

-- `if kv.get_record(profile_key) != profile: kv.put_record(profile_key, profile)`
unfoldable pub put_profile : Text → GroupProfileRecord → State → State
put_profile jid profile st =
    if same_profile (lookup (group_profile_key jid) st.store) profile
    then st
    else put_record (group_profile_key jid) (Record.group_profile profile) st

refresh_group_at : ℕ → Text → Text → Group → Option ChatListItem → Refresh → Refresh
unfolding refresh_existing
refresh_group_at now jid photo group (some c) r =
    if c.name == group.name
    then refresh_existing jid photo c false r
    else refresh_existing jid photo (record c { name = group.name; name_updated_at = now }) true r
refresh_group_at now jid photo group none r =
    put_chat jid
      (record (new_chat jid group.name photo [] [] 0 ReadReceipt.unset 0 true) {
        name_updated_at = now;
      })
      r

module _ (U : Unicode) (D : Daemon) (now : ℕ) where
  refresh_contact : Contact → Refresh → Refresh
  unfolding refresh_contact_at
  refresh_contact contact r =
      if is_empty contact.jid
      then r
      else (let jid = canonicalize_contact_jid U D none contact.jid r.state in
          refresh_contact_at now jid (photo_of contact.avatar_path)
            (preferred_contact_name jid contact.full_name contact.push_name contact.business_name []
              r.state)
            contact (lookup (chat_key jid) r.existing) r)

  refresh_contacts : List Contact → Refresh → Refresh
  unfolding refresh_contact
  refresh_contacts [] r = r
  refresh_contacts (contact ∷ contacts) r = refresh_contacts contacts (refresh_contact contact r)

  abbrev reading : Refresh → Refresh
  reading r = record r { existing = existing_chats r.state.store }

  -- `_sync_contacts`, at the daemon's reply
  unfoldable pub sync_contacts : List Contact → Refresh → Refresh
  unfolding refresh_contacts
  sync_contacts [] r = r
  sync_contacts (contact ∷ contacts) r = refresh_contacts (contact ∷ contacts) (reading r)

  members_of : State → List GroupParticipant → List GroupProfileMemberRecord
  members_of st [] = []
  members_of st (p ∷ participants) =
      let rest = members_of st participants in
      if is_empty p.jid
      then rest
      else record {
        jid = canonicalize_contact_jid U D none p.jid st;
        display_name = p.display_name;
      }
        ∷ rest

  profile_of : State → Group → GroupProfileRecord
  unfolding members_of
  profile_of st group =
      let members = members_of st group.participants in
      record {
        description = group.topic;
        member_count =
            if nat_eq group.participant_count 0 then length members else group.participant_count;
        members = members;
      }

  refresh_group : Group → Refresh → Refresh
  unfolding refresh_group_at profile_of put_profile
  refresh_group group r =
      if is_empty group.jid || is_empty group.name
      then r
      else (let jid = canonicalize_contact_jid U D none group.jid r.state in
          refresh_group_at now jid (photo_of group.avatar_path) group
            (lookup (chat_key jid) r.existing)
            (record r { state = put_profile jid (profile_of r.state group) r.state }))

  refresh_groups : List Group → Refresh → Refresh
  unfolding refresh_group
  refresh_groups [] r = r
  refresh_groups (group ∷ groups) r = refresh_groups groups (refresh_group group r)

  -- `_sync_groups`, at the daemon's reply
  unfoldable pub sync_groups : List Group → Refresh → Refresh
  unfolding refresh_groups
  sync_groups [] r = r
  sync_groups (group ∷ groups) r = refresh_groups (group ∷ groups) (reading r)

  -- `trigger`: an error of the first call ends it and one of the second does not; `none` is an error. What
  -- is shown is in the result.
  unfoldable pub refresh_chats : Option (List Contact) → Option (List Group) → State → Refresh
  unfolding sync_contacts sync_groups
  refresh_chats none groups st = record {
    state = st;
    existing = [];
    chat_updates = [];
    photo_updates = [];
  }
  refresh_chats (some contacts) none st =
      sync_contacts contacts
        (record { state = st; existing = []; chat_updates = []; photo_updates = [] })
  refresh_chats (some contacts) (some groups) st = sync_groups groups (
      sync_contacts contacts
        (record { state = st; existing = []; chat_updates = []; photo_updates = [] }))
