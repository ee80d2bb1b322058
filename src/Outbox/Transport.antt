-- ===== src/Outbox/Transport.antt =====
-- `_message_storage_record`, `_send_pending_message_via_rpc` and their helpers of
-- src/pending_outbox.py, with `stored_message_record` of src/greenline/store/records.py.
use greenline.Base.{
  ℕ, suc, ◌-◌, ◌*◌, true, false, not, Option, none, some, [], map, Text, codes, is_empty, or_text,
  starts_with, drop, ℤ, pos, negsuc, add_clamped, if◌then◌else◌,
}
use greenline.Dyn.{Dyn, Fields, get_key, is_dict}
use greenline.Identity.{split_first}
use greenline.Models.{Message, MessageType, StoredMessageRecord}
use greenline.Models.Fresh.{no_media}
use greenline.State.{State}
use greenline.Mentions.{SpanInput, Payload, mention_transport_payload}
use greenline.Outbox.Outside.{World, Request, Reply}

-- What came of sending: the reply, one of the errors that make the message fail, or another.
pub data Sending : Type 0 where
  sent : Reply → Sending
  refused : Sending
  unreachable : Sending

unfoldable pub local_media_path : Text → Text
local_media_path media_path =
    if starts_with media_path (codes "file://") then drop 7 media_path else media_path

-- `max(0, minutes * 60 + seconds)`
abbrev pub duration_of : ℤ → ℤ → ℕ
duration_of (pos minutes) seconds = add_clamped (minutes * 60) seconds
duration_of (negsuc minutes) (pos seconds) = seconds - suc minutes * 60
duration_of (negsuc minutes) (negsuc seconds) = 0

both_numbers : Option ℤ → Option ℤ → ℕ
both_numbers (some minutes) (some seconds) = duration_of minutes seconds
both_numbers _ _ = 0

module _ (W : World) where
  duration_parts : Option (Text × Text) → ℕ
  unfolding both_numbers
  duration_parts none = 0
  duration_parts (some (minutes, seconds)) = both_numbers (W.int_of minutes) (W.int_of seconds)

  unfoldable pub parse_duration_seconds : Text → ℕ
  unfolding duration_parts
  parse_duration_seconds duration = duration_parts (split_first 58 duration)

  unfoldable pub with_text_render_fields : Message → Message
  with_text_render_fields m =
      let rendered = W.build_text_render_data m.text m.mentioned_jids m.mention_spans in
      record m {
        rendered_text = rendered.plain_text;
        rendered_formatted_text = rendered.rich_text;
        text_render_mode = rendered.render_mode;
      }

  unfoldable pub stored_message_record : Message → Option Dyn → StoredMessageRecord
  stored_message_record m none = record {
    message = with_text_render_fields m;
    media_download = no_media;
    reply_quote_payload_json = [];
    raw = none;
  }
  stored_message_record m (some raw) = record {
    message = with_text_render_fields m;
    media_download = W.media_download_record raw;
    reply_quote_payload_json =
        if is_dict (get_key (codes "Message") raw)
        then W.dumps (get_key (codes "Message") raw)
        else [];
    raw = some raw;
  }

  abbrev contact_raw : Text → Option Text → Option Dyn
  contact_raw name none = none
  contact_raw name (some vcard) = some (
      Dyn.obj (
        Fields.field (codes "Message")
          (Dyn.obj (
            Fields.field (codes "contactMessage")
              (Dyn.obj (
                Fields.field (codes "displayName") (Dyn.str (or_text name (codes "Contact")))
                  (Fields.field (codes "vcard") (Dyn.str vcard) Fields.end)))
              Fields.end))
          Fields.end))

  contact_record : Message → Text → Option Dyn
  contact_record m path =
      if not (is_empty path)
      then (if W.exists path then contact_raw m.file_name (W.read_file path) else none)
      else none

  -- The raw payload of a message that is stored: that of a contact's card.
  storage_raw : MessageType → Message → Option Dyn
  unfolding contact_record
  storage_raw MessageType.contact m =
      if is_empty m.media_path then none else contact_record m (local_media_path m.media_path)
  storage_raw _ m = none

  unfoldable pub message_storage_record : Message → StoredMessageRecord
  unfolding storage_raw
  message_storage_record m = stored_message_record m (storage_raw m.type m)

  -- The outer option is an exception of the resolver.
  unfoldable pub pending_reply_context : Message → Option (Option Dyn)
  pending_reply_context m =
      if is_empty m.reply_to_id
      then some none
      else W.resolve_reply_context m.chat_id (record {
        id = m.reply_to_id;
        participant = or_text m.reply_to_sender_raw m.reply_to_sender_id;
        participant_raw = m.reply_to_sender_raw;
        participant_canonical = m.reply_to_sender_id;
        from_me = m.reply_to_from_me;
        text = m.reply_to_text;
      })

  replied : Option Reply → Sending
  replied none = Sending.unreachable
  replied (some reply) = Sending.sent reply

  module _ (st : State) (m : Message) (context : Option Dyn) where
    abbrev request : Text → Request
    request type = record {
      chat_id = m.chat_id;
      type = type;
      text = [];
      file_path = [];
      file_name = [];
      caption = [];
      coordinates = none;
      reply_context = context;
      mentioned_jids = [];
      duration_seconds = 0;
      ptt = false;
    }

    text_request : Payload → Request
    text_request payload = record (request (codes "text")) {
      text = payload.text;
      mentioned_jids = payload.jids;
    }

    send_location : Option (Text × Text) → Sending
    unfolding replied
    send_location none = Sending.refused
    send_location (some c) =
        replied (W.send_message (record (request (codes "location")) { coordinates = some c }))

    -- The request of a message with a file, none for the other types.
    file_request : MessageType → Text → Option Request
    file_request MessageType.image path =
        some (record (request (codes "image")) { file_path = path; caption = m.caption })
    file_request MessageType.video path =
        some (record (request (codes "video")) { file_path = path; caption = m.caption })
    file_request MessageType.document path = some (record (request (codes "document")) {
      file_path = path;
      file_name = m.file_name;
      caption = m.caption;
    })
    file_request MessageType.audio path = some (record (request (codes "audio")) {
      file_path = path;
      duration_seconds = parse_duration_seconds m.duration;
      ptt = true;
    })
    file_request MessageType.sticker path =
        some (record (request (codes "sticker")) { file_path = path })
    file_request MessageType.contact path =
        some (record (request (codes "contact")) { text = m.file_name; file_path = path })
    file_request _ path = none

    send_request : Option Request → Sending
    unfolding replied
    send_request none = Sending.refused
    send_request (some r) = replied (W.send_message r)

    send_file : Text → Sending
    unfolding send_request file_request
    send_file path =
        if is_empty path
        then Sending.refused
        else if W.exists path
        then send_request (file_request m.type path)
        else Sending.refused

    send_type : MessageType → Sending
    unfolding send_file send_location text_request replied
    send_type MessageType.text = replied (
        W.send_message (
          text_request (
            mention_transport_payload W.unicode W.conversions W.daemon st m.text
              (map SpanInput.typed m.mention_spans))))
    send_type MessageType.location = send_location (W.parse_location_link_url m.link_url)
    send_type _ = send_file (local_media_path m.media_path)

  send_in_context : State → Message → Option (Option Dyn) → Sending
  unfolding send_type
  send_in_context st m none = Sending.unreachable
  send_in_context st m (some context) = send_type st m context m.type

  unfoldable pub send_pending_message_via_rpc : State → Message → Sending
  unfolding send_in_context
  send_pending_message_via_rpc st m = send_in_context st m (pending_reply_context m)
