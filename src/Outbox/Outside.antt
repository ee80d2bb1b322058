-- ===== src/Outbox/Outside.antt =====
-- What src/pending_outbox.py asks of the rest: files, the clock, the daemon's `send_message`, and the
-- modules that render texts and read links (an interface that those modules fill).
use greenline.Base.{ℕ, Bool, Option, List, Text, ℤ}
use greenline.Dyn.{Dyn}
use greenline.Models.{Message, MentionSpan, MediaDownloadRecord, ChatListItem, PendingOutboxRecord}
use greenline.State.{Daemon, Unicode}
use greenline.Mentions.{Conversions}

-- `qml_events.emit_message_upsert` and `qml_events.emit_chat_list_update`
pub data UiEvent : Type 0 where
  message_upsert : Message → UiEvent
  chat_list_update : ChatListItem → UiEvent

-- `RenderData` of src/greenline/qml_text.py
pub record RenderData : Type 0 where
  pub plain_text : Text
  pub rich_text : Text
  pub render_mode : Text

-- The dict that `_pending_reply_context` builds.
pub record ReplyTo : Type 0 where
  pub id : Text
  pub participant : Text
  pub participant_raw : Text
  pub participant_canonical : Text
  pub from_me : Bool
  pub text : Text

-- The arguments of `send_message`; those that are not given are empty, 0 or none.
pub record Request : Type 0 where
  pub chat_id : Text
  pub type : Text
  pub text : Text
  pub file_path : Text
  pub file_name : Text
  pub caption : Text
  pub coordinates : Option (Text × Text)
  pub reply_context : Option Dyn
  pub mentioned_jids : List Text
  pub duration_seconds : ℕ
  pub ptt : Bool

-- `SendMessageReply`
pub record Reply : Type 0 where
  pub message_id : Text
  pub timestamp : ℕ

pub record World : Type 0 where
  pub unicode : Unicode
  -- `os.path.exists`, and a file's text; `none` is an exception.
  pub exists : Text → Bool
  pub read_file : Text → Option Text
  -- `json.dumps` with `separators=(",", ":")`, `int` of a text, and `strftime("%H:%M")` of a time
  pub dumps : Dyn → Text
  pub int_of : Text → Option ℤ
  pub clock_text : ℕ → Text
  -- The daemon, and the resolver of replies; `none` is an exception.
  pub send_message : Request → Option Reply
  pub resolve_reply_context : Text → ReplyTo → Option (Option Dyn)
  -- What resolves a contact's JID, and conversions of values of JSON.
  pub daemon : Daemon
  pub conversions : Conversions
  -- `build_text_render_data`, `_media_download_record` and `parse_location_link_url`
  pub build_text_render_data : Text → List Text → List MentionSpan → RenderData
  pub media_download_record : Dyn → MediaDownloadRecord
  pub parse_location_link_url : Text → Option (Text × Text)
  -- The order of the store's rows: by the JSON of their values.
  pub by_value : List (Text × PendingOutboxRecord) → List (Text × PendingOutboxRecord)
