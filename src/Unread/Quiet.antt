-- ===== src/Unread/Quiet.antt =====
-- Writes that touch neither a chat nor the unread total: those of messages, of their index and of
-- the other records of the store.
use greenline.Base.{
  ◌≡◌, refl, sym, ◌∙◌, Bool, true, false, [], ◌∷◌, arith, Text, ◌==◌, starts_with, lookup, insert,
  erase, erase_where, lookup-insert, lookup-erase, insert-Ascending, erase_where-Ascending,
  Ascending, eq_comm, eq_sound, Bool-cases, inl, inr,
}
use mathlib.Core.Path.{subst}
use greenline.Kv.Like.{like_prefix}
use greenline.Keys.{unread_total_key, chat_prefix, chat_key, message_prefix, message_index_key}
use greenline.Models.{Record}
use greenline.Contracts.Refinement.{Store}
use greenline.Unread.{get_unread_total, unread_sum}
use greenline.Unread.Sums.{IsCounted, unread_sum-insert_other, chat_key-is_chat}

-- A store as it was, as far as chats and the unread total go.
pub record Quiet (s t : Store) : Type 0 where
  pub ascending : Ascending s → Ascending t
  pub total : get_unread_total t ≡ get_unread_total s
  pub sum : unread_sum t ≡ unread_sum s
  pub chats : (id : Text) → lookup (chat_key id) t ≡ lookup (chat_key id) s

-- A key that is neither the total's nor found by the scan for chats.
pub record IsOther (k : Text) : Type 0 where
  pub no_chat : like_prefix chat_prefix k ≡ false
  pub no_total : (k == unread_total_key) ≡ false

pub chat_key_apart : (k id : Text) → IsOther k → (k == chat_key id) ≡ false
chat_key_apart k id o = elim (Bool-cases (k == chat_key id)) [
  | inl e ↦
      let found : like_prefix chat_prefix k ≡ true =
        subst (λ j. like_prefix chat_prefix j ≡ true) (sym (eq_sound k (chat_key id) e))
          (chat_key-is_chat id) in
      absurd (differ found o.no_chat)
  | inr f ↦ f
]
  where
    differ : {b : Bool} → b ≡ true → b ≡ false → ⊥
    differ p q = grind arith

pub Quiet-refl : (s : Store) → Quiet s s
Quiet-refl s = record { ascending = λ a. a; total = refl; sum = refl; chats = λ id. refl }

pub Quiet-trans : {s t u : Store} → Quiet s t → Quiet t u → Quiet s u
Quiet-trans p q = record {
  ascending = λ a. q.ascending (p.ascending a);
  total = q.total ∙ p.total;
  sum = q.sum ∙ p.sum;
  chats = λ id. q.chats id ∙ p.chats id;
}

pub Quiet-insert : (k : Text) (r : Record) (s : Store) → IsOther k → Quiet s (insert k r s)
unfolding get_unread_total
Quiet-insert k r s o = record {
  ascending = insert-Ascending k r s;
  total = rw (lookup-insert, o.no_total);
  sum = unread_sum-insert_other k r s o.no_chat;
  chats = λ id. rw (lookup-insert, chat_key_apart k id o);
}

unread_sum-erase :
    (k : Text) (s : Store)
    → like_prefix chat_prefix k ≡ false
    → unread_sum (erase k s) ≡ unread_sum s
unfolding unread_sum erase erase_where
unread_sum-erase k [] h = refl
unread_sum-erase k ((j, r) ∷ s) h = elim (Bool-cases (j == k)) [
  | inl e ↦ rw (e, eq_sound j k e, h) (unread_sum-erase k s h)
  | inr n ↦ rw n (ground (arith, unread_sum-erase k s h))
]

pub Quiet-erase : (k : Text) (s : Store) → IsOther k → Quiet s (erase k s)
unfolding get_unread_total
Quiet-erase k s o = record {
  ascending = unfold erase in erase_where-Ascending (λ j. j == k) s;
  total = rw (lookup-erase, eq_comm unread_total_key k, o.no_total);
  sum = unread_sum-erase k s o.no_chat;
  chats = λ id. rw (lookup-erase, eq_comm (chat_key id) k, chat_key_apart k id o);
}

pub Quiet-IsCounted : {s t : Store} → Quiet s t → IsCounted s → IsCounted t
Quiet-IsCounted q h = q.total ∙ h ∙ sym q.sum

-- A key under a chat's prefix of messages is such a key.
pub message-IsOther : (chat_id k : Text) → starts_with k (message_prefix chat_id) ≡ true → IsOther k
unfolding message_prefix starts_with unread_total_key like_prefix ◌==◌
message-IsOther chat_id [] h = absurd (impossible h)
  where
    impossible : false ≡ true → ⊥
    impossible e = grind arith
message-IsOther chat_id (x ∷ k) h = record { no_chat = ground arith; no_total = ground arith }

pub index-IsOther : (chat_id message_id : Text) → IsOther (message_index_key chat_id message_id)
unfolding message_index_key unread_total_key like_prefix ◌==◌
index-IsOther chat_id message_id = record { no_chat = refl; no_total = refl }
