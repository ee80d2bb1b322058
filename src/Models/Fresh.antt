-- ===== src/Models/Fresh.antt =====
-- Values with the defaults of the dataclasses of src/models.py.
use greenline.Base.{ℕ, Bool, false, [], Text, codes}
use greenline.Models.{Message, MessageType, ReadReceipt, ChatListItem, MediaDownloadRecord}

-- The fields that have no default, and the defaults of the others.
unfoldable pub new_message : Text → Text → MessageType → Bool → Text → ℕ → ReadReceipt → Message
new_message id chat_id type is_outgoing timestamp timestamp_unix read_receipt = record {
  id = id;
  chat_id = chat_id;
  type = type;
  is_outgoing = is_outgoing;
  timestamp = timestamp;
  timestamp_unix = timestamp_unix;
  read_receipt = read_receipt;
  edited = false;
  has_reactions = false;
  sender = [];
  sender_raw = [];
  text = [];
  rendered_text = [];
  rendered_formatted_text = [];
  text_render_mode = codes "simple";
  mentioned_jids = [];
  mention_spans = [];
  image_source = [];
  caption = [];
  duration = [];
  sticker_source = [];
  media_path = [];
  thumbnail_path = [];
  mimetype = [];
  file_name = [];
  send_status = [];
  temp_id = [];
  reply_to_id = [];
  reply_to_sender_id = [];
  reply_to_sender_raw = [];
  reply_to_from_me = false;
  reply_to_text = [];
  reply_to_mentioned_jids = [];
  button_text = [];
  button_url = [];
  link_title = [];
  link_description = [];
  link_url = [];
}

abbrev pub no_media : MediaDownloadRecord
no_media = record {
  media_type = [];
  direct_path = [];
  media_key = [];
  file_enc_sha256 = [];
  file_sha256 = [];
  file_length = 0;
  mimetype = [];
  file_name = [];
}

-- The fields of `ChatListItem` that have no default, and the defaults of the others.
unfoldable pub new_chat :
    Text → Text → Text → Text → Text → ℕ → ReadReceipt → ℕ → Bool → ChatListItem
new_chat id name photo last_message date last_message_timestamp read_receipt unread_count is_group =
    record {
      id = id;
      name = name;
      photo = photo;
      last_message = last_message;
      date = date;
      last_message_timestamp = last_message_timestamp;
      read_receipt = read_receipt;
      unread_count = unread_count;
      is_group = is_group;
      first_unread_message_id = [];
      last_message_mentioned_jids = [];
      last_message_type = [];
      muted = false;
      archived = false;
      full_name = [];
      push_name = [];
      business_name = [];
      name_updated_at = 0;
    }
