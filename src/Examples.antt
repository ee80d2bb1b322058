-- ===== src/Examples.antt =====
-- Small concrete inputs for the theorems: a store with one chat, and a message that waits to be sent.
mod KvRuns
mod StoreRuns
mod OutboxRuns
mod ContractRuns
mod ReactionRuns
mod DynTexts
mod LoopRuns
mod MentionRuns
mod MigrationRuns
mod SyncRuns
use greenline.Base.{
  ℕ, Bool, true, false, ◌&&◌, none, some, [], ◌∷◌, Text, codes, leb, nat_eq, refl, ◌≡◌, insert,
  lookup, before, ◌==◌,
}
use greenline.Contracts.Refinement.{Store}
use greenline.Dyn.{Dyn}
use greenline.Kv.{Json, IsLawful}
use greenline.Kv.Like.{like_prefix}
use greenline.Keys.{
  chat_key, message_storage_key, message_index_key, pending_outbox_key, unread_total_key,
}
use greenline.Models.{Record, Message, MessageType, ReadReceipt, ChatListItem, StoredMessageRecord}
use greenline.Models.Fresh.{new_message, new_chat, no_media}
use greenline.Mentions.{Conversions}
use greenline.Outbox.{Outbox}
use greenline.Outbox.Outside.{World}
use greenline.State.{State, Unicode, Daemon}
use greenline.Unread.{get_unread_total, unread_sum}
use greenline.Unread.Sums.{IsSound}

-- A value is a text; its encoding starts with a brace.
abbrev encode : Text → Text
encode v = 123 ∷ v

abbrev decode : Text → Text
decode [] = []
decode (c ∷ v) = v

abbrev pub texts : Json
texts = record { Value = Text; dumps = encode; loads = decode }

pub texts-IsLawful : IsLawful texts
texts-IsLawful = record { loads-dumps = λ v. refl; dumps_nonempty = λ v. refl }

abbrev pub ascii : Unicode
ascii = record {
  is_digit = λ c. leb 48 c && leb c 57;
  is_alnum = λ c. leb 48 c && leb c 122;
  is_space = λ c. nat_eq c 32;
  lower = λ c. c;
  upper = λ c. c;
}

abbrev pub no_daemon : Daemon
no_daemon = record { ensure_jid = λ jid. none }

abbrev pub ann : Text
ann = codes "ann@s.whatsapp.net"

abbrev pub pending_message : Message
pending_message =
    record (new_message (codes "m1") ann MessageType.text true (codes "10:00") 100
      ReadReceipt.unset) { text = codes "hi"; send_status = codes "pending" }

abbrev pub stored_pending : StoredMessageRecord
stored_pending = record {
  message = pending_message;
  media_download = no_media;
  reply_quote_payload_json = [];
  raw = none;
}

abbrev pub ann_chat : ChatListItem
ann_chat =
    record (new_chat ann (codes "Ann") [] (codes "hi") (codes "10:00") 100 ReadReceipt.unset 2
      false) { first_unread_message_id = codes "m0" }

abbrev pub pending_row : Record
pending_row =
    Record.pending_outbox
      (record { chat_id = ann; message_id = codes "m1"; attempt_count = 0; next_attempt_at = 0 })

abbrev pub message_key : Text
message_key = message_storage_key ann 100 (codes "m1")

abbrev pub store : Store
store = insert (chat_key ann) (Record.chat ann_chat) (
    insert message_key (Record.stored_message stored_pending) (
      insert (message_index_key ann (codes "m1")) (Record.message_index message_key) (
        insert (pending_outbox_key ann (codes "m1")) pending_row
          (insert unread_total_key (Record.unread_total 2) []))))

pub store-IsSound : IsSound store
unfolding get_unread_total unread_sum insert lookup new_chat like_prefix ◌==◌ before chat_key
    message_storage_key message_index_key pending_outbox_key unread_total_key
store-IsSound = (
  (
    (refl, (refl, (refl, (refl, tt)))),
    ((refl, (refl, (refl, tt))), ((refl, (refl, tt)), ((refl, tt), (tt, tt)))),
  ),
  refl,
)

abbrev pub state : State
state = record { store = store; chat_cache = []; own_jid = []; bootstrap_attempted = false }

abbrev pub outbox : Outbox
outbox = record { state = state; in_flight = []; reported = [] }

abbrev pub no_conversions : Conversions
no_conversions = record { str_of = λ d. []; int_of = λ t. none }

-- A daemon that sends everything at the time 105.
abbrev pub world : World
world = record {
  unicode = ascii;
  exists = λ path. true;
  read_file = λ path. none;
  dumps = λ d. [];
  int_of = λ t. none;
  daemon = no_daemon;
  conversions = no_conversions;
  clock_text = λ t. codes "10:01";
  send_message = λ r. some (record { message_id = codes "s1"; timestamp = 105 });
  resolve_reply_context = λ chat reply. some none;
  build_text_render_data = λ text jids spans. record {
    plain_text = text;
    rich_text = text;
    render_mode = codes "simple";
  };
  media_download_record = λ raw. no_media;
  parse_location_link_url = λ url. none;
  by_value = λ rows. rows;
}
