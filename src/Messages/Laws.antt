-- ===== src/Messages/Laws.antt =====
-- `_upsert_chat` of src/greenline/store/messages.py: the unread total, and a chat's last message.
use greenline.Base.{
  ℕ, ◌+◌, ◌≡◌, refl, sym, ap, ◌∙◌, Bool, true, false, ◌&&◌, Option, none, some, arith, Text, leb,
  lookup, lookup-insert, eq_comm, insert, ends_with, if◌then◌else◌, Bool-cases, inl, inr,
  insert-Ascending,
}
use greenline.Events.{MessageInfo}
use greenline.Identity.{group_jid_suffix, remember_chat}
use greenline.Keys.{chat_key, unread_total_key}
use greenline.Models.{Record, Message, ChatListItem}
use greenline.Models.Fresh.{new_chat}
use greenline.State.{State, as_chat, Unicode}
use greenline.Contracts.Refinement.{Store}
use greenline.Unread.{get_unread_total, increment_unread_total}
use greenline.Unread.Quiet.{IsOther, chat_key_apart}
use greenline.Unread.Sums.{
  IsSound, unread_at, put_total-IsCounted, put_chat-IsCounted, as_chat_sound,
}
use greenline.Messages.{
  counts, count_message, last_message, renamed, display_name, first_chat, chat_of, upsert_chat,
}
use greenline.Messages.Names.{preferred_contact_name-store, Keeps, update_chat_name-Keeps}

-- The store of a step that counts one more unread message, or none.
counted_store : Bool → Store → Store
counted_store true s = insert unread_total_key (Record.unread_total (get_unread_total s + 1)) s
counted_store false s = s

-- A step on a chat that counts one more message if the test says so, in the chat and in the total.
record Counts (b : Bool) (n time : ℕ) (s : Store) (r : ChatListItem × State) : Type 0 where
  unread : r.0.unread_count ≡ (if b then n + 1 else n)
  last_time : r.0.last_message_timestamp ≡ time
  store : r.1.store ≡ counted_store b s

module _ (U : Unicode) (msg : Message) (info : MessageInfo) (count_unread : Bool) where
  -- Whether the message is counted in a chat that is stored.
  abbrev is_counted : ChatListItem → Bool
  is_counted c = leb c.last_message_timestamp msg.timestamp_unix && counts U msg count_unread

  abbrev later_time : ChatListItem → ℕ
  later_time c =
      if leb c.last_message_timestamp msg.timestamp_unix
      then msg.timestamp_unix
      else c.last_message_timestamp

  count_message-Counts :
      (b : Bool) (c : ChatListItem) (st : State)
      → Counts b c.unread_count c.last_message_timestamp st.store (count_message U msg b c st)
  unfolding count_message counted_store increment_unread_total
  count_message-Counts true c st = record { unread = refl; last_time = refl; store = refl }
  count_message-Counts false c st = record { unread = refl; last_time = refl; store = refl }

  last_message-Counts :
      (c : ChatListItem) (st : State)
      → Counts
          (is_counted c)
          c.unread_count
          (later_time c)
          st.store
          (last_message U msg count_unread c st)
  unfolding last_message counted_store
  last_message-Counts c st = elim (Bool-cases (leb c.last_message_timestamp msg.timestamp_unix)) [
    | inl e ↦ elim (Bool-cases msg.is_outgoing) [
      | inl out ↦ rw (e, out) (record { unread = refl; last_time = refl; store = refl })
      | inr inc ↦ rw (e, inc) (count_message-Counts count_unread _ st)
    ]
    | inr n ↦ rw n (record { unread = refl; last_time = refl; store = refl })
  ]

  renamed-Keeps :
      (r : ChatListItem × State)
      → Keeps r.0.unread_count r.0.last_message_timestamp r.1.store (renamed U msg info r)
  unfolding renamed
  renamed-Keeps (c, st) = elim (Bool-cases (ends_with msg.chat_id group_jid_suffix)) [
    | inl e ↦ rw e (record { unread = refl; last_time = refl; store = refl })
    | inr n ↦ rw n (update_chat_name-Keeps c _ _ _ _ st)
  ]

  existing-Counts :
      (c : ChatListItem) (st : State)
      → Counts
          (is_counted c)
          c.unread_count
          (later_time c)
          st.store
          (chat_of U msg info count_unread (some c) st)
  unfolding chat_of
  existing-Counts c st =
      let p = last_message-Counts c st in
      let q = renamed-Keeps (last_message U msg count_unread c st) in
      record {
        unread = q.unread ∙ p.unread;
        last_time = q.last_time ∙ p.last_time;
        store = q.store ∙ p.store;
      }

  display_name-store : (st : State) → (display_name U msg info st).1.store ≡ st.store
  unfolding display_name
  display_name-store st = elim (Bool-cases (ends_with msg.chat_id group_jid_suffix)) [
    | inl e ↦ rw e refl
    | inr n ↦ rw n (preferred_contact_name-store _ _ _ _ _ st)
  ]

  first-Counts :
      (st : State)
      → Counts
          (counts U msg count_unread)
          0
          msg.timestamp_unix
          st.store
          (first_chat U msg info count_unread st)
  unfolding first_chat counted_store increment_unread_total new_chat display_name
  first-Counts st = elim (Bool-cases (counts U msg count_unread)) [
    | inl e ↦ rw e (record {
      unread = refl;
      last_time = refl;
      store =
          ap (λ s. insert unread_total_key (Record.unread_total (get_unread_total s + 1)) s)
            (display_name-store st);
    })
    | inr n ↦ rw n (record { unread = refl; last_time = refl; store = display_name-store st })
  ]

-- The write of a counted chat keeps the total the sum.
put_counted-IsSound :
    (b : Bool) (id : Text) (n time : ℕ) (s : Store) (r : ChatListItem × State)
    → Counts b n time s r
    → unread_at (lookup (chat_key id) s) ≡ n
    → IsSound s
    → IsSound (insert (chat_key id) (Record.chat r.0) r.1.store)
unfolding counted_store
put_counted-IsSound true id n time s r q at (asc, counted) = rw q.store (
  insert-Ascending _ _ _ (insert-Ascending _ _ s asc),
  put_total-IsCounted id r.0 (get_unread_total s + 1) s asc counted (omega (arith, at, q.unread)),
)
put_counted-IsSound false id n time s r q at (asc, counted) =
    rw q.store
      (insert-Ascending _ _ s asc, put_chat-IsCounted id r.0 s asc counted (at ∙ sym q.unread))

unread_at-no_chat : (o : Option Record) → as_chat o ≡ none → unread_at o ≡ 0
unread_at-no_chat none h = refl
unread_at-no_chat (some (Record.chat c)) h = ground arith
unread_at-no_chat (some r) h = ground arith

unread_at-chat :
    (o : Option Record) (c : ChatListItem) → as_chat o ≡ some c → unread_at o ≡ c.unread_count
unread_at-chat o c h = rw (as_chat_sound o c h) refl

module _ (U : Unicode) (msg : Message) (info : MessageInfo) (count_unread : Bool) (st : State) where
  upsert_from :
      (o : Option ChatListItem)
      → as_chat (lookup (chat_key msg.chat_id) st.store) ≡ o
      → IsSound st.store
      → let r = chat_of U msg info count_unread o st in
        IsSound (insert (chat_key msg.chat_id) (Record.chat r.0) r.1.store)
  unfolding chat_of
  upsert_from none at sound =
      put_counted-IsSound (counts U msg count_unread) msg.chat_id 0 msg.timestamp_unix st.store _
        (first-Counts U msg info count_unread st)
        (unread_at-no_chat (lookup (chat_key msg.chat_id) st.store) at) sound
  upsert_from (some c) at sound =
      put_counted-IsSound (is_counted U msg info count_unread c) msg.chat_id c.unread_count
        (later_time U msg info count_unread c) st.store _
        (existing-Counts U msg info count_unread c st)
        (unread_at-chat (lookup (chat_key msg.chat_id) st.store) c at) sound

counted_store-other :
    (b : Bool) (k : Text) (s : Store) → IsOther k → lookup k (counted_store b s) ≡ lookup k s
unfolding counted_store
counted_store-other true k s o = rw (lookup-insert, eq_comm unread_total_key k, o.no_total)
counted_store-other false k s o = refl

module _ (U : Unicode) (msg : Message) (info : MessageInfo) (count_unread : Bool) (st : State)
    (k : Text) where
  chat_of-other :
      (found : Option ChatListItem)
      → IsOther k
      → lookup k (chat_of U msg info count_unread found st).1.store ≡ lookup k st.store
  unfolding chat_of
  chat_of-other none o =
      ap (lookup k) (first-Counts U msg info count_unread st).store
      ∙ counted_store-other (counts U msg count_unread) k st.store o
  chat_of-other (some c) o =
      ap (lookup k) (existing-Counts U msg info count_unread c st).store
      ∙ counted_store-other (is_counted U msg info count_unread c) k st.store o

  -- A message that is entered into its chat leaves every other record alone.
  pub upsert_chat-other :
      IsOther k → lookup k (upsert_chat U msg info count_unread st).1.store ≡ lookup k st.store
  unfolding upsert_chat remember_chat
  upsert_chat-other o =
      rw (lookup-insert, eq_comm (chat_key msg.chat_id) k, chat_key_apart k msg.chat_id o)
        (chat_of-other (as_chat (lookup (chat_key msg.chat_id) st.store)) o)

-- Whatever message is entered into its chat, known or new, the stored total stays the sum of the chats'
-- unread counts, and the store stays a table with one row for each key.
pub upsert_chat-IsSound :
    (U : Unicode) (msg : Message) (info : MessageInfo) (count_unread : Bool) (st : State)
    → IsSound st.store
    → IsSound (upsert_chat U msg info count_unread st).1.store
unfolding upsert_chat remember_chat
upsert_chat-IsSound U msg info count_unread st sound =
    upsert_from U msg info count_unread st _ refl sound
