-- ===== src/Identity/Chats/Avatars.antt =====
-- The contacts that `select_missing_avatar_priority_jids` of src/greenline/store/identity.py chooses.
use greenline.Base.{
  ℕ, ◌+◌, ◌≤◌, ◌<◌, ◌≡◌, refl, Bool, true, false, not, ◌||◌, ◌&&◌, if◌then◌else◌, zero, suc, take,
  sym, ◌∙◌, none, List, [], ◌∷◌, ◌++◌, arith, Text, ◌==◌, eq_refl, eq_sound, eq_comm, any, length,
  leb, length-append, is_empty, All, Bool-cases, inl, inr,
}
use mathlib.Core.Path.{subst}
use mathlib.Core.List.{append-nil, append_assoc}
use greenline.State.{State, Daemon, Unicode}
use greenline.Identity.{is_avatar_priority_jid}
use greenline.Identity.Jids.{canonicalize_contact_jid}
use greenline.Identity.Chats.{select_avatars, select_missing_avatar_priority_jids}

abbrev pub has : Text → List Text → Bool
has j xs = any (λ y. y == j) xs

-- A list in which nothing occurs twice.
abbrev pub Distinct : List Text → Type 0
Distinct [] = Unit
Distinct (x ∷ xs) = (has x xs ≡ false) × Distinct xs

-- An element that may be chosen.
record Chosen (seen : List Text) (j : Text) : Type 0 where
  priority : is_avatar_priority_jid j ≡ true
  is_seen : has j seen ≡ true

has-append :
    (x j : Text) (xs : List Text)
    → has x xs ≡ false
    → (j == x) ≡ false
    → has x (xs ++ (j ∷ [])) ≡ false
has-append x j [] h n = rw n refl
has-append x j (y ∷ xs) h n = ground (arith, has-append x j xs)

Distinct-append :
    (j : Text) (xs : List Text) → has j xs ≡ false → Distinct xs → Distinct (xs ++ (j ∷ []))
Distinct-append j [] h d = (refl, tt)
Distinct-append j (x ∷ xs) h (d, ds) = elim (Bool-cases (x == j)) [
  | inl e ↦ absurd (cc (rw e at h))
  | inr n ↦ (has-append x j xs d (rw (eq_comm j x) n), Distinct-append j xs (rw n at h) ds)
]

unseen :
    (seen : List Text) (j : Text) (xs : List Text)
    → All (Chosen seen) xs
    → has j seen ≡ false
    → has j xs ≡ false
unseen seen j [] c h = refl
unseen seen j (x ∷ xs) (c, cs) h = elim (Bool-cases (x == j)) [
  | inl e ↦ absurd (differ (subst (λ y. has y seen ≡ true) (eq_sound x j e) c.is_seen) h)
  | inr n ↦ rw n (unseen seen j xs cs h)
]
  where
    differ : {b : Bool} → b ≡ true → b ≡ false → ⊥
    differ p q = grind arith

has-cons : (x j : Text) (seen : List Text) → has x seen ≡ true → has x (j ∷ seen) ≡ true
has-cons x j seen h = ground arith

All-Chosen-append :
    (seen : List Text) (j : Text) (xs : List Text)
    → All (Chosen seen) xs
    → is_avatar_priority_jid j ≡ true
    → All (Chosen (j ∷ seen)) (xs ++ (j ∷ []))
All-Chosen-append seen j [] c p = (record { priority = p; is_seen = rw (eq_refl j) refl }, tt)
All-Chosen-append seen j (x ∷ xs) (c, cs) p = (
  record { priority = c.priority; is_seen = has-cons x j seen c.is_seen },
  All-Chosen-append seen j xs cs p,
)

-- What the choice promises.
pub record IsSelection (limit : ℕ) (xs : List Text) : Type 0 where
  pub distinct : Distinct xs
  pub priority : All (λ j. is_avatar_priority_jid j ≡ true) xs
  pub bounded : length xs ≤ limit

priorities :
    (seen xs : List Text) → All (Chosen seen) xs → All (λ j. is_avatar_priority_jid j ≡ true) xs
priorities seen [] c = tt
priorities seen (x ∷ xs) (c, cs) = (c.priority, priorities seen xs cs)

module _ (U : Unicode) (D : Daemon) (limit : ℕ) (st : State) where
  select_avatars-IsSelection :
      (chats : List (Text × Text)) (seen found : List Text)
      → Distinct found
      → All (Chosen seen) found
      → length found < limit
      → IsSelection limit (select_avatars U D limit chats seen found st)
  unfolding select_avatars
  select_avatars-IsSelection [] seen found d c l = record {
    distinct = d;
    priority = priorities seen found c;
    bounded = omega (arith, l);
  }
  select_avatars-IsSelection ((id, photo) ∷ chats) seen found d c l =
      let jid = canonicalize_contact_jid U D none id st in
      let found' = found ++ (jid ∷ []) in
      let skip = select_avatars-IsSelection chats seen found d c l in
      elim (Bool-cases (not (is_avatar_priority_jid jid) || has jid seen)) [
        | inl e ↦ rw e skip
        | inr n ↦
            let facts = chosen jid seen n in
            let d' = Distinct-append jid found (unseen seen jid found c facts.1) d in
            let c' = All-Chosen-append seen jid found c facts.0 in
            let grown : length found' ≡ length found + 1 = length-append found (jid ∷ []) in
            elim (Bool-cases (is_empty photo)) [
              | inr has_photo ↦ rw (n, has_photo) skip
              | inl no_photo ↦ elim (Bool-cases (leb limit (length found'))) [
                | inl full ↦
                    rw (n, no_photo, full)
                      (record {
                        distinct = d';
                        priority = priorities (jid ∷ seen) found' c';
                        bounded = omega (arith, grown, l);
                      })
                | inr more ↦
                    rw (n, no_photo, more)
                      (select_avatars-IsSelection chats (jid ∷ seen) found' d' c'
                        (below (length found') more))
              ]
            ]
      ]
    where
      chosen :
          (j : Text) (seen : List Text)
          → (not (is_avatar_priority_jid j) || has j seen) ≡ false
          → (is_avatar_priority_jid j ≡ true) × (has j seen ≡ false)
      chosen j seen h = ground arith

      below : (n : ℕ) → leb limit n ≡ false → n < limit
      below n h = ground arith

-- The elements at their first occurrence, without those seen before.
abbrev pub first_of_each : List Text → List Text → List Text
first_of_each seen [] = []
first_of_each seen (j ∷ js) =
    let skip = first_of_each seen js in
    let more = first_of_each (j ∷ seen) js in if has j seen then skip else j ∷ more

module _ (U : Unicode) (D : Daemon) (st : State) where
  -- The contacts of the chats without a photo, in the order of the chats: their identifiers in one form,
  -- without those that get no photo.
  abbrev pub contacts_without_photo : List (Text × Text) → List Text
  contacts_without_photo [] = []
  contacts_without_photo ((id, photo) ∷ chats) =
      let jid = canonicalize_contact_jid U D none id st in
      let rest = contacts_without_photo chats in
      if is_empty photo && is_avatar_priority_jid jid then jid ∷ rest else rest

  at_limit : (n limit : ℕ) → n + 1 ≡ limit → leb limit (n + 1) ≡ true
  at_limit n limit h = ground arith

  below_limit : (n m limit : ℕ) → n + suc (suc m) ≡ limit → leb limit (n + 1) ≡ false
  below_limit n m limit h = ground arith

  -- A contact that is added, with room for `m` more.
  select_avatars-added :
      (limit m : ℕ) (jid : Text) (chats : List (Text × Text)) (seen found : List Text)
      → length found + suc m ≡ limit
      → ((m' : ℕ)
          → length (found ++ (jid ∷ [])) + suc m' ≡ limit
          → select_avatars U D limit chats (jid ∷ seen) (found ++ (jid ∷ [])) st
            ≡ (found ++ (jid ∷ []))
              ++ take (suc m') (first_of_each (jid ∷ seen) (contacts_without_photo chats)))
      → (if leb limit (length (found ++ (jid ∷ [])))
          then found ++ (jid ∷ [])
          else select_avatars U D limit chats (jid ∷ seen) (found ++ (jid ∷ [])) st)
        ≡ found ++ take (suc m) (jid ∷ first_of_each (jid ∷ seen) (contacts_without_photo chats))
  select_avatars-added limit zero jid chats seen found h next =
      rw (length-append found (jid ∷ []), at_limit (length found) limit h) refl
  select_avatars-added limit (suc m) jid chats seen found h next =
      let grown = length-append found (jid ∷ []) in
      let full : leb limit (length (found ++ (jid ∷ []))) ≡ false =
        rw grown (below_limit (length found) m limit h) in
      rw full (
        next m (omega (arith, grown, h))
        ∙ append_assoc found (jid ∷ [])
            (take (suc m) (first_of_each (jid ∷ seen) (contacts_without_photo chats))))

  select_avatars-eq :
      (limit m : ℕ) (chats : List (Text × Text)) (seen found : List Text)
      → length found + suc m ≡ limit
      → select_avatars U D limit chats seen found st
        ≡ found ++ take (suc m) (first_of_each seen (contacts_without_photo chats))
  unfolding select_avatars
  select_avatars-eq limit m [] seen found h = sym (append-nil found)
  select_avatars-eq limit m ((id, photo) ∷ chats) seen found h =
      let jid = canonicalize_contact_jid U D none id st in
      let skip = select_avatars-eq limit m chats seen found h in
      elim (Bool-cases (is_avatar_priority_jid jid)) [
        | inr other ↦ elim (Bool-cases (is_empty photo)) [
          | inl no_photo ↦ rw (other, no_photo) skip
          | inr has_photo ↦ rw (other, has_photo) skip
        ]
        | inl priority ↦ elim (Bool-cases (is_empty photo)) [
          | inr has_photo ↦ elim (Bool-cases (has jid seen)) [
            | inl again ↦ rw (priority, has_photo, again) skip
            | inr fresh ↦ rw (priority, has_photo, fresh) skip
          ]
          | inl no_photo ↦ elim (Bool-cases (has jid seen)) [
            | inl again ↦ rw (priority, no_photo, again) skip
            | inr fresh ↦
                rw (priority, no_photo, fresh)
                  (select_avatars-added limit m jid chats seen found h
                    (λ m'. select_avatars-eq limit m' chats (jid ∷ seen) (found ++ (jid ∷ []))))
          ]
        ]
      ]

-- At a limit that is not 0, the contacts chosen to have their photo fetched are the first ones, up to the
-- limit, of the contacts of the chats that have no photo, each taken once, in the order of the chats, with
-- their identifiers in one form and without those that get no photo. They are no more than the limit, no
-- two of them are the same, and each is one that gets a photo.
pub select_missing_avatar-IsSelection :
    (U : Unicode) (D : Daemon) (limit : ℕ) (chats : List (Text × Text)) (st : State)
    → 0 < limit
    → (select_missing_avatar_priority_jids U D limit chats st
        ≡ take limit (first_of_each [] (contacts_without_photo U D st chats)))
      × IsSelection limit (select_missing_avatar_priority_jids U D limit chats st)
unfolding select_missing_avatar_priority_jids
select_missing_avatar-IsSelection U D zero chats st h = absurd (omega (arith, h))
select_missing_avatar-IsSelection U D (suc limit) chats st h = (
  select_avatars-eq U D st (suc limit) limit chats [] [] (omega arith),
  select_avatars-IsSelection U D (suc limit) st chats [] [] tt tt h,
)
