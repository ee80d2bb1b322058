-- ===== src/Identity/Chats.antt =====
-- The operations of src/greenline/store/identity.py that write chats and the own JID, and those that
-- read names and photos.
pub mod Avatars
use greenline.Base.{
  ℕ, Bool, not, ◌||◌, Option, none, some, List, [], ◌∷◌, ◌++◌, Text, ◌==◌, is_empty, ends_with, any,
  length, leb, lookup, if◌then◌else◌,
}
use greenline.Keys.{chat_key, own_jid_key}
use greenline.Models.{ChatListItem, Record, ReadReceipt}
use greenline.Models.Fresh.{new_chat}
use greenline.State.{State, as_chat, put_record, Daemon, Unicode}
use greenline.Identity.{
  group_jid_suffix, get_chat_data, preferred_contact_name, update_chat_name, remember_chat,
  is_avatar_priority_jid,
}
use greenline.Identity.Jids.{canonicalize_contact_jid}

named_sender : Text → Text → Text × State → Text × State
named_sender sender push (name, st) =
    if is_empty name
    then preferred_contact_name sender [] push [] [] st
    else if name == sender
    then preferred_contact_name sender [] push [] [] st
    else (name, st)

sender_name : Text → Text → Option ChatListItem × State → Text × State
unfolding named_sender
sender_name sender push (none, st) = preferred_contact_name sender [] push [] [] st
sender_name sender push (some c, st) =
    named_sender sender push
      (preferred_contact_name sender c.full_name c.push_name c.business_name c.name st)

-- The name that a message shows of its sender: the stored one, unless that is only the JID.
unfoldable pub resolve_sender_name : Text → Text → State → Text × State
unfolding sender_name
resolve_sender_name sender_jid push_name st =
    sender_name sender_jid push_name (get_chat_data sender_jid st)

sender_photo : Option ChatListItem → Text
sender_photo none = []
sender_photo (some c) = c.photo

unfoldable pub resolve_sender_photo : Text → State → Text × State
unfolding sender_photo
resolve_sender_photo sender_jid st =
    let (c, st') = get_chat_data sender_jid st in (sender_photo c, st')

module _ (U : Unicode) (D : Daemon) where
  unfoldable pub remember_own_jid : Text → State → Text × State
  remember_own_jid jid st =
      let normalized = canonicalize_contact_jid U D none jid st in
      if is_empty normalized then ([], st) else (
        normalized,
        put_record own_jid_key (Record.own_jid normalized) (record st { own_jid = normalized }),
      )

  -- The chat of a contact that is not stored yet.
  contact_chat : Text → ℕ → Text → Text → Text → State → State
  contact_chat chat_id timestamp full push business st =
      let (name, st') = preferred_contact_name chat_id full push business [] st in
      let c =
        record (new_chat chat_id name [] [] [] 0 ReadReceipt.unset 0
          (ends_with chat_id group_jid_suffix)) {
            full_name = full;
            push_name = push;
            business_name = business;
            name_updated_at = timestamp;
          } in
      remember_chat c (put_record (chat_key chat_id) (Record.chat c) st')

  renamed_chat : Text → (ChatListItem × Bool) × State → State
  renamed_chat chat_id ((c, changed), st) =
      remember_chat c (if changed then put_record (chat_key chat_id) (Record.chat c) st else st)

  identity_chat : Text → ℕ → Text → Text → Text → Option ChatListItem → State → State
  unfolding contact_chat renamed_chat
  identity_chat chat_id timestamp full push business none st =
      contact_chat chat_id timestamp full push business st
  identity_chat chat_id timestamp full push business (some c) st =
      renamed_chat chat_id (update_chat_name c timestamp full push business st)

  unfoldable pub upsert_identity_chat : Text → ℕ → Text → Text → Text → State → State
  unfolding identity_chat
  upsert_identity_chat chat_id timestamp full push business st =
      if is_empty chat_id
      then st
      else (let id = canonicalize_contact_jid U D none chat_id st in
          identity_chat id timestamp full push business (as_chat (lookup (chat_key id) st.store))
            st)

  -- The loop of `select_missing_avatar_priority_jids`; `seen` is the set, `found` the list so far.
  select_avatars : ℕ → List (Text × Text) → List Text → List Text → State → List Text
  select_avatars limit [] seen found st = found
  select_avatars limit ((id, photo) ∷ chats) seen found st =
      let jid = canonicalize_contact_jid U D none id st in
      let skip = select_avatars limit chats seen found st in
      let found' = found ++ (jid ∷ []) in
      let more = select_avatars limit chats (jid ∷ seen) found' st in
      if not (is_avatar_priority_jid jid) || any (λ j. j == jid) seen
      then skip
      else if not (is_empty photo)
      then skip
      else if leb limit (length found')
      then found'
      else more

  -- The chats are pairs of an id and a photo, most recent first.
  unfoldable pub select_missing_avatar_priority_jids : ℕ → List (Text × Text) → State → List Text
  unfolding select_avatars
  select_missing_avatar_priority_jids limit chats st = select_avatars limit chats [] [] st
