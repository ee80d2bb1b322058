-- ===== src/Unread.antt =====
-- src/unread_counter.py: the total of the unread counts of all chats.
pub mod Sums
pub mod Quiet
use mathlib.Core.List.{foldr}
use greenline.Base.{
  ℕ, ◌+◌, Bool, Option, none, some, List, [], ◌∷◌, Text, Table, lookup, insert, if◌then◌else◌, ℤ,
  neg, add_clamped,
}
use greenline.Kv.Like.{like_prefix}
use greenline.Keys.{unread_total_key, chat_prefix}
use greenline.Models.{Record, ChatListItem}
use greenline.State.{State, as_unread_total, put_record}
use greenline.Contracts.Refinement.{Store}

unfoldable pub get_unread_total : Store → ℕ
get_unread_total s = as_unread_total (lookup unread_total_key s)

unfoldable pub increment_unread_total : ℤ → State → ℕ × State
unfolding get_unread_total
increment_unread_total amount st =
    let total = add_clamped (get_unread_total st.store) amount in
    (total, put_record unread_total_key (Record.unread_total total) st)

unfoldable pub decrement_unread_total : ℕ → State → ℕ × State
unfolding increment_unread_total
decrement_unread_total amount st = increment_unread_total (neg amount) st

-- The unread count of a record, 0 unless it is a chat.
abbrev pub unread_of : Record → ℕ
unread_of (Record.chat c) = c.unread_count
unread_of _ = 0

-- `sum(chat.unread_count for _, chat in entries)` over `get_partial_records("chat:")`; the order in
-- which the rows come does not matter to the sum.
unfoldable pub unread_sum : Store → ℕ
unread_sum [] = 0
unread_sum ((k, r) ∷ s) =
    let rest = unread_sum s in if like_prefix chat_prefix k then unread_of r + rest else rest

unfoldable pub reconcile_unread_total : State → ℕ × State
reconcile_unread_total st =
    let total = unread_sum st.store in
    (total, put_record unread_total_key (Record.unread_total total) st)
