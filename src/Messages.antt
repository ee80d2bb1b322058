-- ===== src/Messages.antt =====
-- src/greenline/store/messages.py: types, previews, and the chat of a message.
pub mod Names
pub mod Laws
use greenline.Base.{
  ℕ, suc, Bool, true, false, ◌&&◌, ◌||◌, not, Option, none, some, List, [], ◌∷◌, ◌++◌, Text, codes,
  ◌==◌, ◌+◌, is_empty, strip, leb, nat_eq, ends_with, lookup, if◌then◌else◌, ℤ, pos,
}
use greenline.Events.{MessageInfo}
use greenline.Identity.{
  group_jid_suffix, jid_display_name, preferred_contact_name, update_chat_name, remember_chat,
}
use greenline.Keys.{chat_key}
use greenline.Models.{Record, Message, MessageType, ChatListItem, ReadReceipt, type_text}
use greenline.Models.Fresh.{new_chat}
use greenline.State.{State, as_chat, put_record, Unicode}
use greenline.Unread.{increment_unread_total}

-- `_derive_message_type`
unfoldable pub derive_media_type : Text → Option MessageType
derive_media_type media_type =
    if media_type == codes "image"
    then some MessageType.image
    else if media_type == codes "video"
    then some MessageType.video
    else if media_type == codes "audio" || media_type == codes "ptt"
    then some MessageType.audio
    else if media_type == codes "document"
    then some MessageType.document
    else if media_type == codes "vcard" || media_type == codes "contact_array"
    then some MessageType.contact
    else if media_type == codes "location" || media_type == codes "livelocation"
    then some MessageType.location
    else if media_type == codes "sticker" || media_type == codes "user_created_sticker"
    then some MessageType.sticker
    else if media_type == codes "url"
    then some MessageType.link_preview
    else none

unfoldable pub derive_message_type : Text → Text → Option MessageType
unfolding derive_media_type
derive_message_type info_type media_type =
    if info_type == codes "text"
    then some MessageType.text
    else if info_type == codes "media"
    then derive_media_type media_type
    else none

module _ (U : Unicode) where
  -- `_contact_preview` and `location_preview` of src/greenline/store/media.py
  unfoldable pub contact_preview : Text → Text
  contact_preview display_name =
      let name = strip U.is_space display_name in
      if is_empty name then codes "👤 Contact" else codes "👤 " ++ name

  unfoldable pub location_preview : Text → Text → Text
  location_preview title detail =
      let title' = strip U.is_space title in
      let detail' = strip U.is_space detail in
      if not (is_empty title')
      then codes "📍 " ++ title'
      else if not (is_empty detail')
      then codes "📍 " ++ detail'
      else codes "📍 Location"

  -- `previews.get(msg.type, msg.type)`
  abbrev type_preview : MessageType → Text
  type_preview MessageType.image = codes "📷 Photo"
  type_preview MessageType.video = codes "🎥 Video"
  type_preview MessageType.audio = codes "🎵 Audio"
  type_preview MessageType.document = codes "📄 Document"
  type_preview MessageType.sticker = codes "🏷" ++ (65039 ∷ codes " Sticker")
  type_preview MessageType.link_preview = codes "🔗 Link"
  type_preview MessageType.location = codes "📍 Location"
  type_preview t = type_text t

  -- The preview where the type does not settle it at once: the text, the caption, the type.
  content_preview : Message → Text → Text × List Text
  content_preview msg fallback =
      if not (is_empty msg.text)
      then (msg.text, msg.mentioned_jids)
      else if not (is_empty msg.caption)
      then (msg.caption, msg.mentioned_jids)
      else (fallback, [])

  preview_by_type : MessageType → Message → Text × List Text
  unfolding content_preview
  preview_by_type MessageType.deleted msg = (codes "Deleted message", [])
  preview_by_type MessageType.location msg = (location_preview msg.text msg.caption, [])
  preview_by_type MessageType.contact msg = content_preview msg (contact_preview msg.file_name)
  preview_by_type t msg = content_preview msg (type_preview t)

  unfoldable pub message_preview_data : Message → Text × List Text
  unfolding preview_by_type
  message_preview_data msg = preview_by_type msg.type msg

abbrev pub verified_name_of : MessageInfo → Text
verified_name_of info = elim (info.verified_name) [ none ↦ [] | some name ↦ name ]

-- `"" if msg.is_outgoing else name`
abbrev direct : Message → Text → Text
direct msg name = if msg.is_outgoing then [] else name

module _ (U : Unicode) where
  -- An incoming message counts as unread; the first of them is remembered.
  count_message : Message → Bool → ChatListItem → State → ChatListItem × State
  count_message msg false c st = (c, st)
  count_message msg true c st = (
    record c {
      first_unread_message_id =
          if nat_eq c.unread_count 0 then msg.id else c.first_unread_message_id;
      unread_count = c.unread_count + 1;
    },
    (increment_unread_total (pos 1) st).1,
  )

  -- The chat's last message, unless a later one is known.
  last_message : Message → Bool → ChatListItem → State → ChatListItem × State
  unfolding count_message
  last_message msg count_unread c st =
      if leb c.last_message_timestamp msg.timestamp_unix
      then (let (preview, jids) = message_preview_data U msg in
          let shown = record c {
            last_message = preview;
            last_message_mentioned_jids = jids;
            last_message_type = type_text msg.type;
            date = msg.timestamp;
            last_message_timestamp = msg.timestamp_unix;
            read_receipt = if msg.is_outgoing then msg.read_receipt else ReadReceipt.unset;
          } in
          if msg.is_outgoing then (shown, st) else count_message msg count_unread shown st)
      else (c, st)

  -- The names of an existing direct chat.
  renamed : Message → MessageInfo → ChatListItem × State → ChatListItem × State
  renamed msg info (c, st) =
      if ends_with msg.chat_id group_jid_suffix
      then (c, st)
      else (let (result, st') =
            update_chat_name c msg.timestamp_unix [] (direct msg info.push_name)
              (direct msg (verified_name_of info)) st in
          (result.0, st'))

  display_name : Message → MessageInfo → State → Text × State
  display_name msg info st =
      if ends_with msg.chat_id group_jid_suffix
      then (jid_display_name msg.chat_id, st)
      else preferred_contact_name msg.chat_id [] (direct msg info.push_name)
          (direct msg (verified_name_of info)) [] st

  -- Whether the message counts as unread in its chat.
  abbrev pub counts : Message → Bool → Bool
  counts msg count_unread = not msg.is_outgoing && count_unread

  first_chat : Message → MessageInfo → Bool → State → ChatListItem × State
  unfolding display_name
  first_chat msg info count_unread st =
      let is_group = ends_with msg.chat_id group_jid_suffix in
      let (preview, jids) = message_preview_data U msg in
      let (name, st') = display_name msg info st in
      let c =
        record (new_chat msg.chat_id name [] preview msg.timestamp msg.timestamp_unix
          (if msg.is_outgoing then msg.read_receipt else ReadReceipt.unset)
          (if counts msg count_unread then 1 else 0) is_group) {
            first_unread_message_id = if counts msg count_unread then msg.id else [];
            last_message_mentioned_jids = jids;
            last_message_type = type_text msg.type;
            push_name = if is_group then [] else direct msg info.push_name;
            business_name = if is_group then [] else direct msg (verified_name_of info);
            name_updated_at = msg.timestamp_unix;
          } in
      (c, if counts msg count_unread then (increment_unread_total (pos 1) st').1 else st')

  chat_of : Message → MessageInfo → Bool → Option ChatListItem → State → ChatListItem × State
  unfolding first_chat last_message renamed
  chat_of msg info count_unread none st = first_chat msg info count_unread st
  chat_of msg info count_unread (some c) st = renamed msg info (last_message msg count_unread c st)

  unfoldable pub upsert_chat : Message → MessageInfo → Bool → State → ChatListItem × State
  unfolding chat_of
  upsert_chat msg info count_unread st =
      let (c, st') =
        chat_of msg info count_unread (as_chat (lookup (chat_key msg.chat_id) st.store)) st in
      (c, remember_chat c (put_record (chat_key msg.chat_id) (Record.chat c) st'))
