-- ===== src/Keys.antt =====
-- The keys of the store: the f-strings of src/greenline/store, src/pending_outbox.py,
-- src/unread_counter.py, src/greenline/events and src/greenline/api/chats.py.
use greenline.Base.{ℕ, Text, codes, ◌++◌, decimal}

abbrev pub chat_prefix : Text
chat_prefix = codes "chat:"

unfoldable pub chat_key : Text → Text
chat_key chat_id = codes "chat:" ++ chat_id

unfoldable pub message_prefix : Text → Text
message_prefix chat_id = codes "message:" ++ (chat_id ++ codes ":")

unfoldable pub message_storage_key : Text → ℕ → Text → Text
message_storage_key chat_id timestamp_unix message_id =
    codes "message:"
    ++ (chat_id ++ (codes ":" ++ (decimal timestamp_unix ++ (codes ":" ++ message_id))))

unfoldable pub message_index_key : Text → Text → Text
message_index_key chat_id message_id =
    codes "message_index:" ++ (chat_id ++ (codes ":" ++ message_id))

unfoldable pub message_reaction_prefix : Text → Text → Text
message_reaction_prefix chat_id message_id =
    codes "message_reaction:" ++ (chat_id ++ (codes ":" ++ (message_id ++ codes ":")))

unfoldable pub message_reaction_key : Text → Text → Text → Text
message_reaction_key chat_id message_id sender_jid =
    codes "message_reaction:"
    ++ (chat_id ++ (codes ":" ++ (message_id ++ (codes ":" ++ sender_jid))))

unfoldable pub pending_outbox_key : Text → Text → Text
pending_outbox_key chat_id message_id =
    codes "pending-outbox:" ++ (chat_id ++ (codes ":" ++ message_id))

unfoldable pub unread_total_key : Text
unread_total_key = codes "unread_total"

unfoldable pub own_jid_key : Text
own_jid_key = codes "self.jid"

unfoldable pub lid_map_key : Text → Text
lid_map_key jid = codes "lid_map:" ++ jid

unfoldable pub draft_key : Text → Text
draft_key chat_id = codes "draft:" ++ chat_id

unfoldable pub draft_mentions_key : Text → Text
draft_mentions_key chat_id = codes "draft_mentions:" ++ chat_id

unfoldable pub last_event_id_key : Text
last_event_id_key = codes "daemon:last_event_id"

unfoldable pub schema_version_key : Text
schema_version_key = codes "kv.schema_version"

unfoldable pub unknown_event_key : Text → ℕ → Text
unknown_event_key event_type id =
    codes "unknown_event:" ++ (event_type ++ (codes ":" ++ decimal id))

unfoldable pub unhandled_message_key : ℕ → Text
unhandled_message_key id = codes "unhandled_message:" ++ decimal id
