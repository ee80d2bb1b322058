-- ===== src/Identity/Names.antt =====
-- What `update_chat_name` of src/greenline/store/identity.py makes of the names of a chat.
use greenline.Base.{
  ℕ, ◌≤◌, ◌≡◌, refl, Bool, false, ◌||◌, arith, [], ◌∷◌, Text, ◌==◌, eq_sound, is_empty, ltb,
  if◌then◌else◌, Bool-cases, inl, inr,
}
use greenline.Models.{ChatListItem}
use greenline.State.{State}
use greenline.Identity.{differs, update_chat_name}

-- The newer name, unless it is empty.
abbrev pub newer : Text → Text → Text
newer new old = if is_empty new then old else new

changed-newer : (new old : Text) → (if differs new old then new else old) ≡ newer new old
changed-newer [] old = refl
changed-newer (c ∷ new) old = elim (Bool-cases (old == (c ∷ new))) [
  | inl e ↦ rw e (eq_sound old (c ∷ new) e)
  | inr n ↦ rw n refl
]

same-newer : (new old : Text) → differs new old ≡ false → old ≡ newer new old
same-newer new old h = rw h at (changed-newer new old)

none_differ : (a b c : Bool) → (a || b || c) ≡ false → (a ≡ false) × (b ≡ false) × (c ≡ false)
none_differ a b c h = ground arith

-- An update that is older than the names of a chat changes none of them. Any other makes each of the
-- three names the given one, unless that is empty. The time of the names never goes back.
pub update_chat_name-newer :
    (c : ChatListItem) (timestamp : ℕ) (full push business : Text) (st : State)
    → let c' = (update_chat_name c timestamp full push business st).0.0 in
      let old = ltb timestamp c.name_updated_at in
      (c.name_updated_at ≤ c'.name_updated_at)
      × (c'.full_name ≡ (if old then c.full_name else newer full c.full_name))
      × (c'.push_name ≡ (if old then c.push_name else newer push c.push_name))
      × (c'.business_name ≡ (if old then c.business_name else newer business c.business_name))
unfolding update_chat_name
update_chat_name-newer c timestamp full push business st =
    elim (Bool-cases (ltb timestamp c.name_updated_at)) [
      | inl e ↦ rw e (omega arith, refl, refl, refl)
      | inr n ↦
          elim (Bool-cases (
            differs full c.full_name
            || differs push c.push_name
            || differs business c.business_name)) [
              | inl e ↦
                  rw (n, e)
                    (
                      later n,
                      changed-newer full c.full_name,
                      changed-newer push c.push_name,
                      changed-newer business c.business_name,
                    )
              | inr m ↦
                  let (f, p, b) = none_differ _ _ _ m in
                  rw (n, m)
                    (
                      omega arith,
                      same-newer full c.full_name f,
                      same-newer push c.push_name p,
                      same-newer business c.business_name b,
                    )
            ]
    ]
  where
    later : ltb timestamp c.name_updated_at ≡ false → c.name_updated_at ≤ timestamp
    later h = ground arith
