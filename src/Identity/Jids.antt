-- ===== src/Identity/Jids.antt =====
-- `_strip_device_suffix` and `canonicalize_contact_jid` of src/greenline/store/identity.py.
use greenline.Base.{
  Bool, true, false, ◌&&◌, not, Option, none, some, [], ◌∷◌, ◌++◌, Text, codes, is_empty, ends_with,
  Table, lookup, if◌then◌else◌,
}
use greenline.Keys.{lid_map_key}
use greenline.State.{State, as_lid_map, Daemon, Unicode}
use greenline.Contracts.Refinement.{Store}
use greenline.Identity.{split_first, split_last, is_contact_identity_jid, lid_jid_suffix}

module _ (U : Unicode) where
  abbrev all_digits : Text → Bool
  all_digits [] = true
  all_digits (c ∷ s) = if U.is_digit c then all_digits s else false

  -- `s.isdigit()`, false of the empty text
  abbrev pub is_digits : Text → Bool
  is_digits [] = false
  is_digits (c ∷ s) = all_digits (c ∷ s)

  -- The user part of a JID without the device after its last colon.
  strip_device : Text → Option (Text × Text) → Text
  strip_device user none = user
  strip_device user (some (base, device)) =
      if not (is_empty base) && is_digits device then base else user

  join_jid : Text → Option (Text × Text) → Text
  join_jid jid none = jid
  join_jid jid (some (user, server)) =
      strip_device user (split_last 58 user) ++ (codes "@" ++ server)

  -- A JID with no `@` stays as it is.
  unfoldable pub strip_device_suffix : Text → Text
  unfolding strip_device join_jid
  strip_device_suffix jid = join_jid jid (split_first 64 jid)

first_some : Option Text → Option Text → Option Text
first_some none b = b
first_some (some a) b = some a

-- `jid_map.get(stripped_jid)`, then `jid_map.get(jid)`
mapped : Option (Table Text) → Text → Text → Option Text
mapped none stripped jid = none
mapped (some m) stripped jid = first_some (lookup stripped m) (lookup jid m)

-- The cached mapping of a hidden identifier, then the daemon's; a failing daemon gives it back.
module _ (D : Daemon) where
  asked : Text → Option Text → Text
  asked stripped none = stripped
  asked stripped (some reply) = reply

  resolve_lid : Store → Text → Text → Text
  resolve_lid s stripped jid =
      let cached =
        first_some (as_lid_map (lookup (lid_map_key stripped) s))
          (as_lid_map (lookup (lid_map_key jid) s)) in
      elim cached [ some r ↦ r | none ↦ asked stripped (D.ensure_jid stripped) ]

  resolve : Store → Text → Text → Option Text → Text
  resolve s stripped jid (some r) = r
  resolve s stripped jid none =
      if ends_with stripped lid_jid_suffix then resolve_lid s stripped jid else stripped

module _ (U : Unicode) (D : Daemon) where
  unfoldable pub canonicalize_contact_jid : Option (Table Text) → Text → State → Text
  unfolding first_some mapped asked resolve_lid resolve
  canonicalize_contact_jid jid_map jid st =
      if is_contact_identity_jid jid
      then (let stripped = strip_device_suffix U jid in
          strip_device_suffix U (resolve D st.store stripped jid (mapped jid_map stripped jid)))
      else jid
