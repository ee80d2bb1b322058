-- ===== src/Messages/Names.antt =====
-- How `_upsert_chat` chooses and updates names (src/greenline/store/identity.py).
use greenline.Base.{
  ℕ, ◌≡◌, refl, ◌||◌, Text, ltb, is_empty, ◌==◌, if◌then◌else◌, Bool-cases, inl, inr,
}
use greenline.Identity.{get_own_jid, preferred_contact_name, update_chat_name, differs}
use greenline.Models.{ChatListItem}
use greenline.State.{State}
use greenline.Contracts.Refinement.{Store}

-- Names are read without a write to the store.
get_own_jid-store : (st : State) → (get_own_jid st).1.store ≡ st.store
unfolding get_own_jid
get_own_jid-store st = elim (Bool-cases (is_empty st.own_jid)) [
  | inl e ↦ rw e refl
  | inr n ↦ rw n refl
]

pub preferred_contact_name-store :
    (jid full push business fallback : Text) (st : State)
    → (preferred_contact_name jid full push business fallback st).1.store ≡ st.store
unfolding preferred_contact_name
preferred_contact_name-store jid full push business fallback st = elim (Bool-cases (is_empty jid)) [
  | inl e ↦ rw e refl
  | inr n ↦ elim (Bool-cases (jid == (get_own_jid st).0)) [
    | inl e ↦ rw (n, e) (get_own_jid-store st)
    | inr m ↦ rw (n, m) (get_own_jid-store st)
  ]
]

-- A step that leaves the store alone, and keeps a count and a time.
pub record Keeps (n time : ℕ) (s : Store) (r : ChatListItem × State) : Type 0 where
  pub unread : r.0.unread_count ≡ n
  pub last_time : r.0.last_message_timestamp ≡ time
  pub store : r.1.store ≡ s

pub update_chat_name-Keeps :
    (c : ChatListItem) (timestamp : ℕ) (full push business : Text) (st : State)
    → let r = update_chat_name c timestamp full push business st in
      Keeps c.unread_count c.last_message_timestamp st.store (r.0.0, r.1)
unfolding update_chat_name
update_chat_name-Keeps c timestamp full push business st =
    elim (Bool-cases (ltb timestamp c.name_updated_at)) [
      | inl e ↦ rw e (record { unread = refl; last_time = refl; store = refl })
      | inr n ↦
          elim (Bool-cases (
            differs full c.full_name
            || differs push c.push_name
            || differs business c.business_name)) [
              | inl e ↦
                  rw (n, e)
                    (record {
                      unread = refl;
                      last_time = refl;
                      store =
                          preferred_contact_name-store c.id
                            (if differs full c.full_name then full else c.full_name)
                            (if differs push c.push_name then push else c.push_name)
                            (if differs business c.business_name then business else c.business_name)
                            c.name st;
                    })
              | inr m ↦ rw (n, m) (record { unread = refl; last_time = refl; store = refl })
            ]
    ]
