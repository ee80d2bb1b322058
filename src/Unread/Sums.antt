-- ===== src/Unread/Sums.antt =====
-- The stored total of src/unread_counter.py and the sum that it stands for.
use mathlib.Core.List.{foldr}
use greenline.Base.{
  List, map, codes, starts_with, if◌then◌else◌, zero, suc, ◌-◌, ◌≤◌, neg, add_clamped, ℕ, ◌+◌, ◌≡◌,
  refl, sym, ap, ◌∙◌, true, false, Option, none, some, [], ◌∷◌, arith, Text, ◌==◌, lookup, insert,
  before, Ascending, All, Bool-cases, inl, inr, eq_sound, eq_comm, eq_refl, before_trans,
  lookup-insert, insert-Ascending, ne_of_before,
}
use greenline.Kv.Like.{like_prefix, fold_case, like_prefix-append, like_prefix-eq-starts_with}
use greenline.Keys.{unread_total_key, chat_prefix, chat_key}
use greenline.Models.{Record, ChatListItem}
use greenline.State.{as_chat, State}
use greenline.Contracts.Refinement.{Store}
use greenline.Unread.{get_unread_total, unread_of, unread_sum, reconcile_unread_total}

-- The stored total is the sum of the chats' unread counts.
abbrev pub IsCounted : Store → Type 0
IsCounted s = get_unread_total s ≡ unread_sum s

-- A table with one row for each key, whose total is the sum.
abbrev pub IsSound : Store → Type 0
IsSound s = Ascending s × IsCounted s

abbrev pub unread_at : Option Record → ℕ
unread_at none = 0
unread_at (some r) = unread_of r

lookup-none_of_All :
    (k j : Text) (s : Store)
    → before k j ≡ true
    → All (λ e. before j e.0 ≡ true) s
    → lookup k s ≡ none
unfolding lookup
lookup-none_of_All k j [] b all = refl
lookup-none_of_All k j ((i, r) ∷ s) b all = ground (
  arith,
  ne_of_before k i (before_trans k j i b all.0),
  eq_comm k i,
  lookup-none_of_All k j s b all.1,
)

-- Writing a key that the scan for chats finds exchanges its part of the sum.
pub unread_sum-insert :
    (k : Text) (r : Record) (s : Store)
    → Ascending s
    → like_prefix chat_prefix k ≡ true
    → unread_sum (insert k r s) + unread_at (lookup k s) ≡ unread_sum s + unread_of r
unfolding unread_sum insert lookup
unread_sum-insert k r [] a h = ground arith
unread_sum-insert k r ((j, q) ∷ s) a h = elim (Bool-cases (j == k)) [
  | inl e ↦ rw (e, eq_sound j k e, h) (omega arith)
  | inr n ↦ elim (Bool-cases (before k j)) [
    | inl b ↦ rw (n, b, lookup-none_of_All k j s b a.0, h) (omega arith)
    | inr b ↦ rw (n, b) (ground (arith, unread_sum-insert k r s a.1 h))
  ]
]

-- Writing any other key leaves the sum alone.
pub unread_sum-insert_other :
    (k : Text) (r : Record) (s : Store)
    → like_prefix chat_prefix k ≡ false
    → unread_sum (insert k r s) ≡ unread_sum s
unfolding unread_sum insert
unread_sum-insert_other k r [] h = rw h
unread_sum-insert_other k r ((j, q) ∷ s) h = elim (Bool-cases (j == k)) [
  | inl e ↦ rw (e, eq_sound j k e, h)
  | inr n ↦ elim (Bool-cases (before k j)) [
    | inl b ↦ rw (n, b, h)
    | inr b ↦ rw (n, b) (ground (arith, unread_sum-insert_other k r s h))
  ]
]

-- The total is not among the chats.
pub unread_total_key-not_chat : like_prefix chat_prefix unread_total_key ≡ false
unfolding like_prefix unread_total_key
unread_total_key-not_chat = refl

pub chat_key-is_chat : (id : Text) → like_prefix chat_prefix (chat_key id) ≡ true
unfolding chat_key
chat_key-is_chat id = like_prefix-append chat_prefix id

pub unread_total_key-ne-chat_key : (id : Text) → (chat_key id == unread_total_key) ≡ false
unfolding chat_key unread_total_key ◌==◌
unread_total_key-ne-chat_key id = refl

pub get_unread_total-insert_chat :
    (id : Text) (r : Record) (s : Store)
    → get_unread_total (insert (chat_key id) r s) ≡ get_unread_total s
unfolding get_unread_total
get_unread_total-insert_chat id r s = rw (lookup-insert, unread_total_key-ne-chat_key id)

pub get_unread_total-put :
    (n : ℕ) (s : Store) → get_unread_total (insert unread_total_key (Record.unread_total n) s) ≡ n
unfolding get_unread_total
get_unread_total-put n s = rw (lookup-insert, eq_refl unread_total_key)

-- The chats: the records of chats under the keys that begin with `chat:` in either case, as the store's
-- LIKE reads them.
abbrev pub chats_of : Store → List ChatListItem
chats_of [] = []
chats_of ((k, Record.chat c) ∷ s) =
    let rest = chats_of s in
    if starts_with (map fold_case k) (codes "chat:") then c ∷ rest else rest
chats_of (e ∷ s) = chats_of s

folded_prefix : map fold_case chat_prefix ≡ codes "chat:"
unfolding fold_case
folded_prefix = refl

unread_sum-chats : (s : Store) → unread_sum s ≡ foldr (λ c n. c.unread_count + n) 0 (chats_of s)
unfolding unread_sum
unread_sum-chats [] = refl
unread_sum-chats ((k, Record.chat c) ∷ s) =
    let same : like_prefix chat_prefix k ≡ starts_with (map fold_case k) (codes "chat:") =
      like_prefix-eq-starts_with chat_prefix k refl
      ∙ ap (starts_with (map fold_case k)) folded_prefix in
    elim (Bool-cases (starts_with (map fold_case k) (codes "chat:"))) [
      | inl e ↦ rw (same, e) (omega (arith, unread_sum-chats s))
      | inr n ↦ rw (same, n) (unread_sum-chats s)
    ]
unread_sum-chats ((k, r) ∷ s) = ground (arith, unread_sum-chats s)

-- Whatever was stored, a reconciliation returns the sum of the unread counts of all chats and stores it as
-- the total; under every other key, that of each chat too, it leaves what was there, and the total stored is
-- the sum of the chats then stored.
pub reconcile-IsCounted :
    (key : Text) (st : State)
    → let total = foldr (λ c n. c.unread_count + n) 0 (chats_of st.store) in
      let after = (reconcile_unread_total st).1.store in
      ((reconcile_unread_total st).0 ≡ total)
      × (lookup key after ≡ (
          if unread_total_key == key
          then some (Record.unread_total total)
          else lookup key st.store))
      × IsCounted after
unfolding reconcile_unread_total
reconcile-IsCounted key st =
    let same =
      unread_sum-insert_other unread_total_key (Record.unread_total (unread_sum st.store)) st.store
        unread_total_key-not_chat in
    let total = unread_sum-chats st.store in
    (
      total,
      rw (sym total) (rw lookup-insert refl),
      get_unread_total-put (unread_sum st.store) st.store ∙ sym same,
    )

-- A total that is moved by as much as one chat's count moves stays the sum.
pub put_total-IsCounted :
    (id : Text) (c : ChatListItem) (n : ℕ) (s : Store)
    → Ascending s
    → IsCounted s
    → n + unread_at (lookup (chat_key id) s) ≡ get_unread_total s + c.unread_count
    → IsCounted
        (insert (chat_key id) (Record.chat c) (insert unread_total_key (Record.unread_total n) s))
put_total-IsCounted id c n s a h e =
    let t = insert unread_total_key (Record.unread_total n) s in
    let apart : lookup (chat_key id) t ≡ lookup (chat_key id) s =
      rw (lookup-insert, eq_comm unread_total_key (chat_key id), unread_total_key-ne-chat_key id)
        refl in
    rw (get_unread_total-insert_chat, get_unread_total-put)
      (omega (
        arith,
        rw apart at (
            unread_sum-insert (chat_key id) (Record.chat c) t
              (insert-Ascending unread_total_key (Record.unread_total n) s a)
              (chat_key-is_chat id)),
        unread_sum-insert_other unread_total_key (Record.unread_total n) s
            unread_total_key-not_chat,
      ))

-- A chat that is written with the unread count that it had leaves the total the sum.
pub put_chat-IsCounted :
    (id : Text) (c : ChatListItem) (s : Store)
    → Ascending s
    → IsCounted s
    → unread_at (lookup (chat_key id) s) ≡ c.unread_count
    → IsCounted (insert (chat_key id) (Record.chat c) s)
put_chat-IsCounted id c s a h e =
    rw get_unread_total-insert_chat
      (omega (arith, unread_sum-insert (chat_key id) (Record.chat c) s a (chat_key-is_chat id)))

-- A record that is neither a chat nor the total leaves the total the sum.
pub put_other-IsCounted :
    (k : Text) (r : Record) (s : Store)
    → like_prefix chat_prefix k ≡ false
    → (k == unread_total_key) ≡ false
    → IsCounted s
    → IsCounted (insert k r s)
unfolding get_unread_total
put_other-IsCounted k r s n m h = rw (unread_sum-insert_other k r s n, lookup-insert, m) h

pub as_chat_sound :
    (o : Option Record) (c : ChatListItem) → as_chat o ≡ some c → o ≡ some (Record.chat c)
as_chat_sound none c h = ground arith
as_chat_sound (some (Record.chat d)) c h = ground arith
as_chat_sound (some r) c h = ground arith

pub add_clamped-neg : (total n : ℕ) → add_clamped total (neg n) ≡ total - n
add_clamped-neg total zero = omega arith
add_clamped-neg total (suc n) = refl

-- One chat's count is at most the sum of all.
pub unread_at-le-sum :
    (id : Text) (s : Store) → Ascending s → unread_at (lookup (chat_key id) s) ≤ unread_sum s
unread_at-le-sum id s a =
    omega (arith, unread_sum-insert (chat_key id) (Record.unread_total 0) s a (chat_key-is_chat id))
