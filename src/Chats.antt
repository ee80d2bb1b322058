-- ===== src/Chats.antt =====
-- src/greenline/api/chats.py: the drafts of chats, and their flags. What is shown by `qml_events` stands beside
-- the state.
pub mod Drafts
use greenline.Base.{
  Bool, true, false, not, Option, none, some, List, [], ◌∷◌, map, Text, codes, is_empty, lookup,
  if◌then◌else◌,
}
use greenline.Keys.{chat_key, draft_key, draft_mentions_key}
use greenline.Mentions.{SpanInput, Conversions, validate_mention_spans}
use greenline.Models.{Record, ChatListItem, MentionSpan}
use greenline.State.{State, Daemon, Unicode, as_chat, put_record, delete_record}

abbrev as_draft : Option Record → Text
as_draft (some (Record.draft t)) = t
as_draft _ = []

abbrev as_draft_mentions : Option Record → List MentionSpan
as_draft_mentions (some (Record.draft_mentions spans)) = spans
as_draft_mentions _ = []

-- `ChatDraftResponse`
abbrev pub ChatDraft : Type 0
ChatDraft = record { text : Text; mention_spans : List MentionSpan }

module _ (U : Unicode) (V : Conversions) (D : Daemon) where
  -- The two records, with their defaults.
  unfoldable pub get_chat_draft : Text → State → ChatDraft
  get_chat_draft chat_id st =
      let text = as_draft (lookup (draft_key chat_id) st.store) in
      let spans = as_draft_mentions (lookup (draft_mentions_key chat_id) st.store) in
      record {
        text = text;
        mention_spans = validate_mention_spans U V D st text (map SpanInput.typed spans);
      }

  put_draft_mentions : Text → List MentionSpan → State → State
  put_draft_mentions chat_id [] st = delete_record (draft_mentions_key chat_id) st
  put_draft_mentions chat_id (s ∷ spans) st =
      put_record (draft_mentions_key chat_id) (Record.draft_mentions (s ∷ spans)) st

  -- The state, and the text that is shown as the chat's draft.
  unfoldable pub set_chat_draft : Text → Text → List SpanInput → State → State × Text
  unfolding put_draft_mentions
  set_chat_draft chat_id text mention_spans st =
      let validated = validate_mention_spans U V D st text mention_spans in
      if is_empty text
      then (delete_record (draft_mentions_key chat_id) (delete_record (draft_key chat_id) st), text)
      else (
        put_draft_mentions chat_id validated
            (put_record (draft_key chat_id) (Record.draft text) st),
        text,
      )

-- `SuccessResponse`, the chats that are shown, and the state.
abbrev pub Toggled : Type 0
Toggled = record { success : Bool; message : Text; shown : List ChatListItem; state : State }

toggled : (ChatListItem → ChatListItem) → Text → State → Option ChatListItem → Toggled
toggled f chat_id st none = record {
  success = false;
  message = codes "Chat not found";
  shown = [];
  state = st;
}
toggled f chat_id st (some c) = record {
  success = true;
  message = [];
  shown = f c ∷ [];
  state = put_record (chat_key chat_id) (Record.chat (f c)) st;
}

unfoldable pub toggle_archive : Text → State → Toggled
unfolding toggled
toggle_archive chat_id st =
    toggled (λ c. record c { archived = not c.archived }) chat_id st
      (as_chat (lookup (chat_key chat_id) st.store))

unfoldable pub toggle_mute : Text → State → Toggled
unfolding toggled
toggle_mute chat_id st =
    toggled (λ c. record c { muted = not c.muted }) chat_id st
      (as_chat (lookup (chat_key chat_id) st.store))
