-- ===== src/Models.antt =====
-- src/models.py and src/greenline/store/records.py: the data that the store keeps.
-- Timestamps and counts are non-negative. `raw` is the event as `json.loads` gave it.
pub mod Fresh
use greenline.Base.{ℕ, Bool, true, false, Option, none, some, List, [], Text, codes}
use greenline.Dyn.{Dyn}

pub data MessageType : Type 0 where
  text view_once deleted image video audio document contact location sticker link_preview :
      MessageType

-- `str(message_type)`: the value of the enum
abbrev pub type_text : MessageType → Text
type_text text = codes "text"
type_text view_once = codes "view_once"
type_text deleted = codes "deleted"
type_text image = codes "image"
type_text video = codes "video"
type_text audio = codes "audio"
type_text document = codes "document"
type_text contact = codes "contact"
type_text location = codes "location"
type_text sticker = codes "sticker"
type_text link_preview = codes "link_preview"

-- `ReadReceipt`; `unset` is its `NONE`.
pub data ReadReceipt : Type 0 where
  unset sent delivered read : ReadReceipt

pub record ChatListItem : Type 0 where
  pub id : Text
  pub name : Text
  pub photo : Text
  pub last_message : Text
  pub date : Text
  pub last_message_timestamp : ℕ
  pub read_receipt : ReadReceipt
  pub unread_count : ℕ
  pub is_group : Bool
  pub first_unread_message_id : Text
  pub last_message_mentioned_jids : List Text
  pub last_message_type : Text
  pub muted : Bool
  pub archived : Bool
  pub full_name : Text
  pub push_name : Text
  pub business_name : Text
  pub name_updated_at : ℕ

pub record MentionSpan : Type 0 where
  pub jid : Text
  pub label : Text
  pub start : ℕ
  pub length : ℕ

pub record Message : Type 0 where
  pub id : Text
  pub chat_id : Text
  pub type : MessageType
  pub is_outgoing : Bool
  pub timestamp : Text
  pub timestamp_unix : ℕ
  pub read_receipt : ReadReceipt
  pub edited : Bool
  pub has_reactions : Bool
  pub sender : Text
  pub sender_raw : Text
  pub text : Text
  pub rendered_text : Text
  pub rendered_formatted_text : Text
  pub text_render_mode : Text
  pub mentioned_jids : List Text
  pub mention_spans : List MentionSpan
  pub image_source : Text
  pub caption : Text
  pub duration : Text
  pub sticker_source : Text
  pub media_path : Text
  pub thumbnail_path : Text
  pub mimetype : Text
  pub file_name : Text
  pub send_status : Text
  pub temp_id : Text
  pub reply_to_id : Text
  pub reply_to_sender_id : Text
  pub reply_to_sender_raw : Text
  pub reply_to_from_me : Bool
  pub reply_to_text : Text
  pub reply_to_mentioned_jids : List Text
  pub button_text : Text
  pub button_url : Text
  pub link_title : Text
  pub link_description : Text
  pub link_url : Text

pub record MediaDownloadRecord : Type 0 where
  pub media_type : Text
  pub direct_path : Text
  pub media_key : Text
  pub file_enc_sha256 : Text
  pub file_sha256 : Text
  pub file_length : ℕ
  pub mimetype : Text
  pub file_name : Text

-- A subclass of `Message`: the inherited fields are those of `message`.
pub record StoredMessageRecord : Type 0 where
  pub message : Message
  pub open message use *
  pub media_download : MediaDownloadRecord
  pub reply_quote_payload_json : Text
  pub raw : Option Dyn

pub record MessageReactionRecord : Type 0 where
  pub chat_id : Text
  pub message_id : Text
  pub sender_jid : Text
  pub emoji : Text

pub record PendingOutboxRecord : Type 0 where
  pub chat_id : Text
  pub message_id : Text
  pub attempt_count : ℕ
  pub next_attempt_at : ℕ

pub record UnhandledMessageRecord : Type 0 where
  pub event_id : ℕ
  pub info_type : Text
  pub media_type : Text
  pub chat : Text
  pub sender : Text
  pub message_id : Text
  pub timestamp : Text
  pub payload : Text

pub record UnknownEventRecord : Type 0 where
  pub event_type : Text
  pub payload : Text

pub record GroupProfileMemberRecord : Type 0 where
  pub jid : Text
  pub display_name : Text

pub record GroupProfileRecord : Type 0 where
  pub description : Text
  pub member_count : ℕ
  pub members : List GroupProfileMemberRecord

-- The record types of the store, one constructor for each; those with the one field `value` carry it.
pub data Record : Type 0 where
  last_event_id : ℕ → Record
  unread_total : ℕ → Record
  schema_version : ℕ → Record
  notifications_suppressed : Bool → Record
  error_reporting : Bool → Record
  stop_daemon_on_exit : Bool → Record
  pending_outbox : PendingOutboxRecord → Record
  unhandled_message : UnhandledMessageRecord → Record
  unknown_event : UnknownEventRecord → Record
  message_index : Text → Record
  stored_message : StoredMessageRecord → Record
  message_reaction : MessageReactionRecord → Record
  chat : ChatListItem → Record
  group_profile : GroupProfileRecord → Record
  draft_mentions : List MentionSpan → Record
  draft : Text → Record
  lid_map : Text → Record
  sticker_cache : Text → Record
  own_jid : Text → Record
