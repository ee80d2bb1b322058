-- ===== src/Reactions/Flag.antt =====
-- The reactions of src/greenline/store/reactions.py: the scan for the reactions of a message, and the flag of
-- the message.
use greenline.Base.{
  ◌≡◌, refl, ap, ◌∙◌, true, false, [], ◌∷◌, ◌++◌, arith, Text, codes, ◌==◌, is_empty, insert,
  before, Bool-cases, inl, inr,
}
use mathlib.Core.List.{append_assoc}
use mathlib.Core.Path.{subst}
use greenline.Contracts.Refinement.{Store}
use greenline.Keys.{message_reaction_prefix, message_reaction_key}
use greenline.Kv.Like.{like_prefix, like_prefix-append}
use greenline.Models.{Record, MessageReactionRecord}
use greenline.Reactions.{
  reaction_rows, has_rows, list_message_reactions, has_message_reactions, put_message_reaction,
}

has_rows-cons :
    (p j : Text) (q : Record) (s : Store)
    → has_rows (reaction_rows p s) ≡ true
    → has_rows (reaction_rows p ((j, q) ∷ s)) ≡ true
unfolding reaction_rows
has_rows-cons p j (Record.message_reaction r) s h = ground arith
has_rows-cons p j q s h = h

has_rows-insert :
    (p k : Text) (r : MessageReactionRecord) (s : Store)
    → like_prefix p k ≡ true
    → has_rows (reaction_rows p (insert k (Record.message_reaction r) s)) ≡ true
unfolding reaction_rows insert
has_rows-insert p k r [] h = rw h refl
has_rows-insert p k r ((j, q) ∷ s) h = elim (Bool-cases (j == k)) [
  | inl e ↦ rw (e, h) refl
  | inr n ↦ elim (Bool-cases (before k j)) [
    | inl b ↦ rw (n, b, h) refl
    | inr b ↦
        rw (n, b)
          (has_rows-cons p j q (insert k (Record.message_reaction r) s) (has_rows-insert p k r s h))
  ]
]

reaction_key-in_prefix :
    (chat_id message_id sender_jid : Text)
    → like_prefix
        (message_reaction_prefix chat_id message_id)
        (message_reaction_key chat_id message_id sender_jid)
      ≡ true
unfolding message_reaction_prefix message_reaction_key
reaction_key-in_prefix chat_id message_id sender_jid =
    let pre = message_reaction_prefix chat_id message_id in
    let joined =
      append_assoc chat_id (58 ∷ (message_id ++ (58 ∷ []))) sender_jid
      ∙ ap (λ x. chat_id ++ (58 ∷ x)) (append_assoc message_id (58 ∷ []) sender_jid) in
    subst (λ k. like_prefix pre k ≡ true) (ap (λ x. codes "message_reaction:" ++ x) joined)
      (like_prefix-append pre sender_jid)

-- A reaction that is put, with a chat, a message, a sender and an emoji that are not empty, is seen: the
-- message has reactions.
pub put-has_message_reactions :
    (chat_id message_id sender_jid emoji : Text) (s : Store)
    → is_empty chat_id ≡ false
    → is_empty message_id ≡ false
    → is_empty sender_jid ≡ false
    → is_empty emoji ≡ false
    → has_message_reactions chat_id message_id
        (put_message_reaction chat_id message_id sender_jid emoji s)
      ≡ true
unfolding has_message_reactions list_message_reactions put_message_reaction
put-has_message_reactions chat_id message_id sender_jid emoji s c m j e =
    rw (c, m, j, e)
      (has_rows-insert (message_reaction_prefix chat_id message_id)
        (message_reaction_key chat_id message_id sender_jid) _ s
        (reaction_key-in_prefix chat_id message_id sender_jid))
