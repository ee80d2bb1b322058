-- ===== src/Examples/MentionRuns.antt =====
-- The theorems on src/greenline/store/mentions.py at a text with two mentions and an emoji.
use greenline.Base.{List, ◌∷◌, [], ◌≡◌, refl, Text, ◌==◌, ends_with, starts_with, codes}
use greenline.Examples.{ascii, no_daemon, no_conversions, state, ann}
use greenline.Chats.{get_chat_draft, set_chat_draft}
use greenline.Chats.Drafts.{set_chat_draft-get_chat_draft}
use greenline.Identity.{is_contact_identity_jid, split_first, split_last}
use greenline.Identity.Jids.{canonicalize_contact_jid, strip_device_suffix}
use greenline.Mentions.{
  coerce_mention_span, utf16_length, mention_span_matches, mention_span_text, find_boundary,
  utf16_boundary_map, SpanInput, validate_mention_spans, mention_transport_payload,
}
use greenline.Mentions.Payload.{Replaces, transport_payload-Replaces}
use greenline.Mentions.Valid.{AreMentions, validate-AreMentions}

-- An emoji, two units of UTF-16, then the mentions.
abbrev text : Text
text = 128512 ∷ codes " @Ann and @Bob"

abbrev spans : List SpanInput
spans =
    SpanInput.typed
      (record { jid = codes "bob@s.whatsapp.net"; label = codes "Bob"; start = 12; length = 4 })
    ∷ SpanInput.typed (record { jid = ann; label = codes "Ann"; start = 3; length = 4 })
    ∷ SpanInput.typed (record { jid = ann; label = codes "Ann"; start = 2; length = 4 })
    ∷ []

validate-AreMentions_example :
    AreMentions ascii text (validate_mention_spans ascii no_conversions no_daemon state text spans)
validate-AreMentions_example = validate-AreMentions ascii no_conversions no_daemon state text spans

transport_payload-Replaces_example :
    Replaces ascii text
      (validate_mention_spans ascii no_conversions no_daemon state text spans)
      (mention_transport_payload ascii no_conversions no_daemon state text spans)
transport_payload-Replaces_example =
    transport_payload-Replaces ascii no_conversions no_daemon state text spans

-- A draft with one mention.
abbrev draft_text : Text
draft_text = codes "hi @Ann"

abbrev draft_spans : List SpanInput
draft_spans =
    SpanInput.typed (record { jid = ann; label = codes "Ann"; start = 3; length = 4 }) ∷ []

set_chat_draft-get_chat_draft_example :
    get_chat_draft ascii no_conversions no_daemon ann
      (set_chat_draft ascii no_conversions no_daemon ann draft_text draft_spans state).0
    ≡ record {
      text = draft_text;
      mention_spans = record { jid = ann; label = codes "Ann"; start = 3; length = 4 } ∷ [];
    }
unfolding validate_mention_spans coerce_mention_span utf16_length mention_span_matches
    mention_span_text find_boundary utf16_boundary_map ◌==◌ canonicalize_contact_jid
    is_contact_identity_jid ends_with starts_with strip_device_suffix split_first split_last
set_chat_draft-get_chat_draft_example =
    set_chat_draft-get_chat_draft ascii no_conversions no_daemon ann draft_text draft_spans state
      (refl, tt)
