-- ===== src/Chats/Drafts.antt =====
-- Setting and getting a draft (`set_chat_draft` and `get_chat_draft` of src/greenline/api/chats.py).
use mathlib.Core.Path.{subst}
use greenline.Base.{
  ◌≡◌, refl, sym, ap, true, false, none, List, [], ◌∷◌, All, Text, ◌==◌, eq_refl, is_empty, lookup,
  lookup-insert, lookup-erase, Bool-cases, inl, inr,
}
use greenline.Chats.{
  as_draft, as_draft_mentions, get_chat_draft, put_draft_mentions, set_chat_draft,
}
use greenline.Identity.Jids.{canonicalize_contact_jid}
use greenline.Keys.{draft_key, draft_mentions_key}
use greenline.Mentions.{SpanInput, Conversions, validate_mention_spans}
use greenline.Mentions.Again.{validate_again, none_kept}
use greenline.Models.{Record, MentionSpan}
use greenline.State.{State, Daemon, Unicode, put_record, delete_record}

draft_keys_apart : (a b : Text) → (draft_mentions_key a == draft_key b) ≡ false
unfolding draft_key draft_mentions_key ◌==◌
draft_keys_apart a b = refl

draft_keys_apart' : (a b : Text) → (draft_key a == draft_mentions_key b) ≡ false
unfolding draft_key draft_mentions_key ◌==◌
draft_keys_apart' a b = refl

mentions_put :
    (U : Unicode) (V : Conversions) (D : Daemon) (chat_id : Text) (spans : List MentionSpan)
    (st : State)
    → (as_draft_mentions
          (lookup (draft_mentions_key chat_id) (put_draft_mentions U V D chat_id spans st).store)
        ≡ spans)
      × (lookup (draft_key chat_id) (put_draft_mentions U V D chat_id spans st).store
          ≡ lookup (draft_key chat_id) st.store)
unfolding put_draft_mentions
mentions_put U V D chat_id [] st = (
  rw (lookup-erase, eq_refl (draft_mentions_key chat_id)) refl,
  rw (lookup-erase, draft_keys_apart' chat_id chat_id) refl,
)
mentions_put U V D chat_id (s ∷ spans) st = (
  rw (lookup-insert, eq_refl (draft_mentions_key chat_id)) refl,
  rw (lookup-insert, draft_keys_apart chat_id chat_id) refl,
)

module _ (U : Unicode) (V : Conversions) (D : Daemon) (chat_id text : Text) (spans : List SpanInput)
    (st : State) where
  abbrev pub after : State
  after = (set_chat_draft U V D chat_id text spans st).0

  abbrev pub validated : List MentionSpan
  validated = validate_mention_spans U V D st text spans

  -- What is read at a state that has the text and the spans.
  read_at :
      (st' : State)
      → as_draft (lookup (draft_key chat_id) st'.store) ≡ text
      → as_draft_mentions (lookup (draft_mentions_key chat_id) st'.store) ≡ validated
      → All (λ s. canonicalize_contact_jid U D none s.jid st' ≡ s.jid) validated
      → get_chat_draft U V D chat_id st' ≡ record { text = text; mention_spans = validated }
  unfolding get_chat_draft
  read_at st' t m canonical =
      rw (t, m)
        (ap (λ xs. record { text = text; mention_spans = xs })
          (validate_again U V D st st' text spans canonical))

  after_empty :
      is_empty text ≡ true
      → (set_chat_draft U V D chat_id text spans st).0
        ≡ delete_record (draft_mentions_key chat_id) (delete_record (draft_key chat_id) st)
  unfolding set_chat_draft
  after_empty e = rw e refl

  after_set :
      is_empty text ≡ false
      → (set_chat_draft U V D chat_id text spans st).0
        ≡ put_draft_mentions U V D chat_id validated
            (put_record (draft_key chat_id) (Record.draft text) st)
  unfolding set_chat_draft
  after_set e = rw e refl

  empty : (t : Text) → is_empty t ≡ true → t ≡ []
  empty [] e = refl
  empty (c ∷ t) e = absurd (cc e)

  after-draft : as_draft (lookup (draft_key chat_id) after.store) ≡ text
  after-draft = elim (Bool-cases (is_empty text)) [
    | inl e ↦
        subst (λ d. as_draft (lookup (draft_key chat_id) d.store) ≡ text) (sym (after_empty e))
          (rw
            (
              lookup-erase,
              draft_keys_apart' chat_id chat_id,
              lookup-erase,
              eq_refl (draft_key chat_id),
            )
            (sym (empty text e)))
    | inr n ↦
        subst (λ d. as_draft (lookup (draft_key chat_id) d.store) ≡ text) (sym (after_set n))
          (rw
            (
              (mentions_put U V D chat_id validated
                  (put_record (draft_key chat_id) (Record.draft text) st)).1,
              lookup-insert,
              eq_refl (draft_key chat_id),
            )
            refl)
  ]

  after-mentions : as_draft_mentions (lookup (draft_mentions_key chat_id) after.store) ≡ validated
  after-mentions = elim (Bool-cases (is_empty text)) [
    | inl e ↦
        subst (λ d. as_draft_mentions (lookup (draft_mentions_key chat_id) d.store) ≡ validated)
          (sym (after_empty e))
          (rw (lookup-erase, eq_refl (draft_mentions_key chat_id))
            (sym (none_kept U V D st text spans e)))
    | inr n ↦
        subst (λ d. as_draft_mentions (lookup (draft_mentions_key chat_id) d.store) ≡ validated)
          (sym (after_set n))
          (mentions_put U V D chat_id validated
            (put_record (draft_key chat_id) (Record.draft text) st)).0
  ]

  -- After a draft is set, whatever it was before, it is read with its text and with the spans that were
  -- kept, where their JIDs are canonical then; an empty text leaves no draft and no spans.
  pub set_chat_draft-get_chat_draft :
      All (λ s. canonicalize_contact_jid U D none s.jid after ≡ s.jid) validated
      → get_chat_draft U V D chat_id after ≡ record { text = text; mention_spans = validated }
  set_chat_draft-get_chat_draft canonical = read_at after after-draft after-mentions canonical
