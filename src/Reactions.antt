-- ===== src/Reactions.antt =====
-- src/greenline/store/reactions.py: the reactions of a message, and the message's flag that it has some.
pub mod Flag
use greenline.Base.{
  Bool, true, false, ◌&&◌, ◌||◌, not, Option, none, some, List, [], ◌∷◌, Text, is_empty, insert,
  erase, if◌then◌else◌,
}
use greenline.Contracts.Refinement.{Store}
use greenline.Keys.{message_reaction_prefix, message_reaction_key}
use greenline.Kv.Like.{like_prefix}
use greenline.Models.{Record, Message, StoredMessageRecord, MessageReactionRecord}
use greenline.Outbox.Outside.{World}
use greenline.Outbox.Transport.{with_text_render_fields}
use greenline.Repository.{Entry, get_message_entry_with_key}

-- The rows that the scan for a prefix finds, in the order of their keys (the store sorts them by value).
unfoldable pub reaction_rows : Text → Store → List (Text × MessageReactionRecord)
reaction_rows prefix [] = []
reaction_rows prefix ((k, Record.message_reaction r) ∷ s) =
    let rest = reaction_rows prefix s in if like_prefix prefix k then (k, r) ∷ rest else rest
reaction_rows prefix ((k, _) ∷ s) = reaction_rows prefix s

unfoldable pub list_message_reactions : Text → Text → Store → List (Text × MessageReactionRecord)
unfolding reaction_rows
list_message_reactions chat_id message_id s =
    if is_empty chat_id || is_empty message_id
    then []
    else reaction_rows (message_reaction_prefix chat_id message_id) s

abbrev has_rows : List (Text × MessageReactionRecord) → Bool
has_rows [] = false
has_rows (row ∷ rows) = true

unfoldable pub has_message_reactions : Text → Text → Store → Bool
unfolding list_message_reactions
has_message_reactions chat_id message_id s = has_rows (list_message_reactions chat_id message_id s)

unfoldable pub put_message_reaction : Text → Text → Text → Text → Store → Store
put_message_reaction chat_id message_id sender_jid emoji s =
    if is_empty chat_id || is_empty message_id || is_empty sender_jid || is_empty emoji
    then s
    else insert (message_reaction_key chat_id message_id sender_jid)
        (Record.message_reaction (record {
          chat_id = chat_id;
          message_id = message_id;
          sender_jid = sender_jid;
          emoji = emoji;
        }))
        s

unfoldable pub delete_message_reaction : Text → Text → Text → Store → Store
delete_message_reaction chat_id message_id sender_jid s =
    if is_empty chat_id || is_empty message_id || is_empty sender_jid
    then s
    else erase (message_reaction_key chat_id message_id sender_jid) s

-- `message.has_reactions == has_reactions`
abbrev pub same_flag : Bool → Bool → Bool
same_flag true b = b
same_flag false b = not b

unfoldable pub apply_message_reactions_flag : Message → Store → Message
unfolding has_message_reactions
apply_message_reactions_flag m s =
    let has_reactions = has_message_reactions m.chat_id m.id s in
    if same_flag m.has_reactions has_reactions
    then m
    else record m { has_reactions = has_reactions }

module _ (W : World) where
  -- `updated_stored_message_record` of src/greenline/store/records.py
  unfoldable pub updated_stored_message_record : StoredMessageRecord → Message → StoredMessageRecord
  unfolding with_text_render_fields
  updated_stored_message_record r m = record r { message = with_text_render_fields W m }

  -- The updated message differs from the message exactly where the flag does.
  refreshed : Option Entry → Store → Option Message × Store
  unfolding apply_message_reactions_flag updated_stored_message_record
  refreshed none s = (none, s)
  refreshed (some (key, r)) s =
      let updated = apply_message_reactions_flag r.message s in
      (
        some updated,
        if same_flag r.has_reactions updated.has_reactions
            then s
            else insert key (Record.stored_message (updated_stored_message_record r updated)) s,
      )

  unfoldable pub refresh_message_reactions_flag : Text → Text → Store → Option Message × Store
  unfolding refreshed
  refresh_message_reactions_flag chat_id message_id s =
      if is_empty chat_id || is_empty message_id
      then (none, s)
      else (let (found, t) = get_message_entry_with_key chat_id message_id s in refreshed found t)
