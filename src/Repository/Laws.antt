-- ===== src/Repository/Laws.antt =====
-- The index of messages (src/greenline/store/repository.py).
use greenline.Base.{
  ◌≡◌, ◌⊎◌, refl, sym, ◌∙◌, ap, true, false, ◌||◌, Option, none, some, arith, Text, ◌==◌, eq_refl,
  eq_sound, eq_iff, is_empty, starts_with, lookup, insert, erase, lookup-insert, lookup-erase,
  Bool-cases, inl, inr,
}
use mathlib.Core.Path.{subst}
use greenline.Keys.{message_index_key, message_prefix}
use greenline.Models.{Record, StoredMessageRecord}
use greenline.State.{as_index, as_message}
use greenline.Contracts.Refinement.{Store}
use greenline.Repository.{
  Entry, is_entry, put_message_index, delete_message_index, get_message_entry_with_key,
  indexed_entry, follow_index,
}

-- What a lookup that finds a message guarantees: the message has the ids that were asked for, stands
-- at its key under the chat's prefix, and the store is as it was.
pub record IsFound (chat_id message_id : Text) (s : Store) (e : Entry) : Type 0 where
  pub stored : as_message (lookup e.0 s) ≡ some e.1
  pub same_id : e.1.id ≡ message_id
  pub same_chat : e.1.chat_id ≡ chat_id
  pub in_chat : starts_with e.0 (message_prefix chat_id) ≡ true

module _ (chat_id message_id : Text) where
  is_entry_sound :
      (key : Text) (m : StoredMessageRecord)
      → is_entry chat_id message_id key m ≡ true
      → (starts_with key (message_prefix chat_id) ≡ true)
        × (m.id ≡ message_id)
        × (m.chat_id ≡ chat_id)
  is_entry_sound key m h = ground (arith, eq_iff m.id message_id, eq_iff m.chat_id chat_id)

  indexed_entry-IsFound :
      (key : Text) (o : Option StoredMessageRecord) (s : Store) (e : Entry)
      → as_message (lookup key s) ≡ o
      → (indexed_entry chat_id message_id key o s).0 ≡ some e
      → IsFound chat_id message_id s e × ((indexed_entry chat_id message_id key o s).1 ≡ s)
  unfolding indexed_entry
  indexed_entry-IsFound key none s e at h = absurd (cc h)
  indexed_entry-IsFound key (some m) s e at h =
      elim (Bool-cases (is_entry chat_id message_id key m)) [
        | inl t ↦
            let found : ◌≡◌ {A = Option Entry} (some (key, m)) (some e) = rw t at h in
            let same : ◌≡◌ {A = Entry} (key, m) e = cc in
            let facts = is_entry_sound key m t in
            rw t (
              subst (IsFound chat_id message_id s) same (record {
                stored = at;
                same_id = facts.1;
                same_chat = facts.2;
                in_chat = facts.0;
              }),
              refl,
            )
        | inr f ↦ absurd (cc (rw f at h))
      ]

  follow_index-IsFound :
      (o : Option Text) (s : Store) (e : Entry)
      → (follow_index chat_id message_id o s).0 ≡ some e
      → IsFound chat_id message_id s e × ((follow_index chat_id message_id o s).1 ≡ s)
  unfolding follow_index
  follow_index-IsFound none s e h = absurd (cc h)
  follow_index-IsFound (some key) s e h = elim (Bool-cases (is_empty key)) [
    | inl t ↦ absurd (cc (rw t at h))
    | inr f ↦ rw f (indexed_entry-IsFound key (as_message (lookup key s)) s e refl (rw f at h))
  ]

  -- A lookup returns only the message that was asked for, and then changes nothing.
  pub get_message_entry_with_key-IsFound :
      (s : Store) (e : Entry)
      → (get_message_entry_with_key chat_id message_id s).0 ≡ some e
      → IsFound chat_id message_id s e × ((get_message_entry_with_key chat_id message_id s).1 ≡ s)
  unfolding get_message_entry_with_key
  get_message_entry_with_key-IsFound s e h =
      elim (Bool-cases (is_empty chat_id || is_empty message_id)) [
        | inl t ↦ absurd (cc (rw t at h))
        | inr f ↦ rw f (
            follow_index-IsFound (as_index (lookup (message_index_key chat_id message_id) s)) s e
              (rw f at h))
      ]

  indexed_entry-key :
      (key : Text) (o : Option StoredMessageRecord) (s : Store) (e : Entry)
      → (indexed_entry chat_id message_id key o s).0 ≡ some e
      → e.0 ≡ key
  unfolding indexed_entry
  indexed_entry-key key none s e h = absurd (cc h)
  indexed_entry-key key (some m) s e h = elim (Bool-cases (is_entry chat_id message_id key m)) [
    | inl t ↦
        let found : ◌≡◌ {A = Option Entry} (some (key, m)) (some e) = rw t at h in
        let same : ◌≡◌ {A = Entry} (key, m) e = cc in sym (ap (λ x. x.0) same)
    | inr f ↦ absurd (cc (rw f at h))
  ]

  follow_index-key :
      (o : Option Text) (s : Store) (e : Entry)
      → (follow_index chat_id message_id o s).0 ≡ some e
      → o ≡ some e.0
  unfolding follow_index
  follow_index-key none s e h = absurd (cc h)
  follow_index-key (some key) s e h = elim (Bool-cases (is_empty key)) [
    | inl t ↦ absurd (cc (rw t at h))
    | inr f ↦ ap some (sym (indexed_entry-key key (as_message (lookup key s)) s e (rw f at h)))
  ]

  -- The key that a lookup returns is the indexed one, and neither id is empty.
  pub get_message_entry_with_key-index :
      (s : Store) (e : Entry)
      → (get_message_entry_with_key chat_id message_id s).0 ≡ some e
      → (as_index (lookup (message_index_key chat_id message_id) s) ≡ some e.0)
        × ((is_empty chat_id || is_empty message_id) ≡ false)
  unfolding get_message_entry_with_key
  get_message_entry_with_key-index s e h =
      elim (Bool-cases (is_empty chat_id || is_empty message_id)) [
        | inl t ↦ absurd (cc (rw t at h))
        | inr f ↦ (follow_index-key _ s e (rw f at h), f)
      ]

  -- What a lookup may do to the store: nothing, or drop the index entry of the message.
  pub get_message_entry_with_key-cases :
      (s : Store)
      → ((get_message_entry_with_key chat_id message_id s).1 ≡ s)
        ⊎ (((get_message_entry_with_key chat_id message_id s).0 ≡ none)
            × ((get_message_entry_with_key chat_id message_id s).1
                ≡ erase (message_index_key chat_id message_id) s))
  unfolding get_message_entry_with_key delete_message_index
  get_message_entry_with_key-cases s = ground arith

  missing_index :
      (s : Store)
      → as_index (lookup (message_index_key chat_id message_id) s) ≡ none
      → get_message_entry_with_key chat_id message_id s ≡ (none, s)
  unfolding get_message_entry_with_key
  missing_index s h = rw h (ground arith)

  -- A lookup that is repeated returns the same, and changes nothing more: a stale index entry is gone
  -- after the first.
  pub get_message_entry_with_key_twice :
      (s : Store)
      → let found = get_message_entry_with_key chat_id message_id s in
        get_message_entry_with_key chat_id message_id found.1 ≡ found
  get_message_entry_with_key_twice s = elim (get_message_entry_with_key-cases s) [
    | inl same ↦ ap (get_message_entry_with_key chat_id message_id) same
    | inr (nothing, erased) ↦ rw erased (
        missing_index (erase (message_index_key chat_id message_id) s)
          (rw (lookup-erase, eq_refl (message_index_key chat_id message_id)))
        ∙ (λ j. (sym nothing j, erase (message_index_key chat_id message_id) s)))
  ]

  index_key_no_message :
      starts_with (message_index_key chat_id message_id) (message_prefix chat_id) ≡ false
  unfolding message_index_key message_prefix starts_with
  index_key_no_message = refl

  pub index_key_apart :
      (key : Text)
      → starts_with key (message_prefix chat_id) ≡ true
      → (message_index_key chat_id message_id == key) ≡ false
  index_key_apart key h = elim (Bool-cases (message_index_key chat_id message_id == key)) [
    | inl e ↦
        let no : starts_with key (message_prefix chat_id) ≡ false =
          subst (λ k. starts_with k (message_prefix chat_id) ≡ false)
            (eq_sound (message_index_key chat_id message_id) key e) index_key_no_message in
        ground arith
    | inr f ↦ f
  ]

  -- A message that is stored under its chat's prefix and indexed is found by its ids.
  pub get_message_entry_with_key-put :
      (key : Text) (m : StoredMessageRecord) (s : Store)
      → is_empty chat_id ≡ false
      → is_empty message_id ≡ false
      → is_empty key ≡ false
      → is_entry chat_id message_id key m ≡ true
      → (get_message_entry_with_key chat_id message_id
          (put_message_index chat_id message_id key (insert key (Record.stored_message m) s))).0
        ≡ some (key, m)
  unfolding get_message_entry_with_key put_message_index
  get_message_entry_with_key-put key m s c i k t =
      let apart = index_key_apart key (is_entry_sound key m t).0 in
      rw (c, i, k, lookup-insert, eq_refl (message_index_key chat_id message_id))
        (rw k
          (rw (lookup-insert, apart, lookup-insert, eq_refl key) (unfold indexed_entry in rw t)))
