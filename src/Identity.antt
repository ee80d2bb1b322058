-- ===== src/Identity.antt =====
-- src/greenline/store/identity.py: contact identifiers (JIDs), names, and the cache of chats.
pub mod Jids
pub mod Chats
pub mod Names
use greenline.Base.{
  ℕ, zero, suc, ◌+◌, ◌-◌, ◌≡◌, Bool, true, false, ◌&&◌, ◌||◌, not, Option, none, some, List, [],
  ◌∷◌, ◌++◌, map, Text, codes, ◌==◌, is_empty, or_text, ends_with, length, take, drop, any, Table,
  lookup, insert, if◌then◌else◌, nat_eq, ltb, leb,
}
use greenline.Keys.{chat_key, own_jid_key, lid_map_key}
use greenline.Models.{ChatListItem, Record, ReadReceipt}
use greenline.Models.Fresh.{new_chat}
use greenline.State.{State, as_chat, as_own_jid, as_lid_map, put_record, Daemon, Unicode}

-- src/constants.py
abbrev pub group_jid_suffix : Text
group_jid_suffix = codes "@g.us"

abbrev pub whatsapp_jid_suffix : Text
whatsapp_jid_suffix = codes "@s.whatsapp.net"

abbrev pub status_broadcast_jid : Text
status_broadcast_jid = codes "status@broadcast"

abbrev pub newsletter_jid_suffix : Text
newsletter_jid_suffix = codes "@newsletter"

abbrev pub lid_jid_suffix : Text
lid_jid_suffix = codes "@lid"

-- `s[:-len(suffix)]`
abbrev without_last : ℕ → Text → Text
without_last n s = take (length s - n) s

unfoldable pub jid_display_name : Text → Text
jid_display_name jid =
    if ends_with jid whatsapp_jid_suffix
    then without_last (length whatsapp_jid_suffix) jid
    else if ends_with jid group_jid_suffix
    then without_last (length group_jid_suffix) jid
    else jid

-- `s.split(c, 1)` where `c` occurs: what stands before its first occurrence, and after it.
unfoldable pub split_first : ℕ → Text → Option (Text × Text)
split_first c [] = none
split_first c (x ∷ s) =
    let rest = split_first c s in
    if nat_eq x c then some ([], s) else elim rest [ none ↦ none | some p ↦ some (x ∷ p.0, p.1) ]

-- `s.rpartition(c)` where `c` occurs: what stands before its last occurrence, and after it.
unfoldable pub split_last : ℕ → Text → Option (Text × Text)
split_last c [] = none
split_last c (x ∷ s) = elim (split_last c s) [
  | some p ↦ some (x ∷ p.0, p.1)
  | none ↦ if nat_eq x c then some ([], s) else none
]

unfoldable pub is_contact_identity_jid : Text → Bool
is_contact_identity_jid jid =
    not (is_empty jid)
    && not (jid == status_broadcast_jid)
    && not (ends_with jid group_jid_suffix)
    && not (ends_with jid newsletter_jid_suffix)

unfoldable pub is_avatar_priority_jid : Text → Bool
is_avatar_priority_jid jid =
    not (is_empty jid)
    && not (jid == status_broadcast_jid)
    && not (ends_with jid newsletter_jid_suffix)

-- The runtime cache.
unfoldable pub remember_chat : ChatListItem → State → State
remember_chat c st = record st { chat_cache = insert c.id c st.chat_cache }

unfoldable pub clear_chat_runtime_cache : State → State
clear_chat_runtime_cache st = record st {
  chat_cache = [];
  own_jid = [];
  bootstrap_attempted = false;
}

abbrev own_jid_or : Text → Option Text → Text
own_jid_or old none = old
own_jid_or old (some jid) = jid

unfoldable pub get_own_jid : State → Text × State
get_own_jid st =
    if is_empty st.own_jid
    then (let jid = own_jid_or st.own_jid (as_own_jid (lookup own_jid_key st.store)) in
        (jid, record st { own_jid = jid }))
    else (st.own_jid, st)

cached_or_stored :
    Text → State → Option ChatListItem → Option ChatListItem → Option ChatListItem × State
cached_or_stored jid st (some c) stored = (some c, st)
cached_or_stored jid st none none = (none, st)
cached_or_stored jid st none (some c) =
    (some c, record st { chat_cache = insert jid c st.chat_cache })

unfoldable pub get_chat_data : Text → State → Option ChatListItem × State
unfolding cached_or_stored
get_chat_data chat_jid st =
    if is_empty chat_jid
    then (none, st)
    else cached_or_stored chat_jid st (lookup chat_jid st.chat_cache)
        (as_chat (lookup (chat_key chat_jid) st.store))

-- `push_name or full_name or business_name or fallback or jid_display_name(jid)`
abbrev own_order : Text → Text → Text → Text → Text → Text
own_order jid full push business fallback =
    or_text push (or_text full (or_text business (or_text fallback (jid_display_name jid))))

abbrev contact_order : Text → Text → Text → Text → Text → Text
contact_order jid full push business fallback =
    or_text full (or_text push (or_text business (or_text fallback (jid_display_name jid))))

-- The names are `full_name`, `push_name`, `business_name`, `fallback`.
unfoldable pub preferred_contact_name : Text → Text → Text → Text → Text → State → Text × State
unfolding get_own_jid
preferred_contact_name jid full push business fallback st =
    if is_empty jid
    then (contact_order jid full push business fallback, st)
    else (let (own, st') = get_own_jid st in
        if jid == own
        then (own_order jid full push business fallback, st')
        else (contact_order jid full push business fallback, st'))

-- `if name and chat.field != name: chat.field = name; changed = True`
abbrev pub differs : Text → Text → Bool
differs new old = if is_empty new then false else not (old == new)

-- A name older than the one that is kept is ignored.
unfoldable pub update_chat_name :
    ChatListItem → ℕ → Text → Text → Text → State → (ChatListItem × Bool) × State
unfolding preferred_contact_name
update_chat_name c timestamp full push business st =
    if ltb timestamp c.name_updated_at
    then ((c, false), st)
    else if differs full c.full_name || differs push c.push_name || differs business c.business_name
    then (let full' = if differs full c.full_name then full else c.full_name in
        let push' = if differs push c.push_name then push else c.push_name in
        let business' = if differs business c.business_name then business else c.business_name in
        let (name', st') = preferred_contact_name c.id full' push' business' c.name st in
        (
          (
            record c {
              full_name = full';
              push_name = push';
              business_name = business';
              name_updated_at = timestamp;
              name = name';
            },
            true,
          ),
          st',
        ))
    else ((c, false), st)
