-- ===== src/Mentions/Boundaries.antt =====
-- Offsets in units of UTF-16 and in characters (`_utf16_boundary_map` and `_mention_span_text` of
-- src/greenline/store/mentions.py).
use greenline.Base.{
  ℕ, zero, suc, ◌+◌, ◌≤◌, ◌<◌, ◌≡◌, refl, ap, true, Option, none, some, [], ◌∷◌, ◌++◌, arith, Text,
  codes, eq_sound, nat_eq, drop, Bool-cases, inl, inr,
}
use greenline.Mentions.{
  units, utf16_boundary_map, boundaries_from, find_boundary, mention_span_text, both_found, Found,
  slice, found_matches, mention_span_matches,
}
use greenline.State.{Unicode}

-- What is found lies past the offsets that the list starts from.
boundaries_past :
    (offset index u i : ℕ) (s : Text)
    → find_boundary u (boundaries_from offset index s) ≡ some i
    → (offset < u) × (index < i)
unfolding boundaries_from find_boundary
boundaries_past offset index u i [] h = absurd (cc h)
boundaries_past offset index u i (c ∷ s) h =
    ground (arith, boundaries_past (offset + units c) (suc index) u i s)

boundaries_mono :
    (offset index u v i j : ℕ) (s : Text)
    → u ≤ v
    → find_boundary u (boundaries_from offset index s) ≡ some i
    → find_boundary v (boundaries_from offset index s) ≡ some j
    → i ≤ j
unfolding boundaries_from find_boundary
boundaries_mono offset index u v i j [] le h k = absurd (cc h)
boundaries_mono offset index u v i j (c ∷ s) le h k = ground (
  arith,
  boundaries_past (offset + units c) (suc index) u i s,
  boundaries_past (offset + units c) (suc index) v j s,
  boundaries_mono (offset + units c) (suc index) u v i j s,
)

-- A later offset is that of a later character.
pub find_boundary_mono :
    (u v i j : ℕ) (s : Text)
    → u ≤ v
    → find_boundary u (utf16_boundary_map s) ≡ some i
    → find_boundary v (utf16_boundary_map s) ≡ some j
    → i ≤ j
unfolding utf16_boundary_map find_boundary
find_boundary_mono u v i j s le h k =
    ground
      (arith, boundaries_past 0 0 u i s, boundaries_past 0 0 v j s, boundaries_mono 0 0 u v i j s)

-- The two ends of a span that is found.
record HasEnds (text : Text) (start length : ℕ) (f : Found) : Type 0 where
  starts : find_boundary start (utf16_boundary_map text) ≡ some f.start_index
  ends : find_boundary (start + length) (utf16_boundary_map text) ≡ some f.end_index

both_found-ends :
    (a b : Option ℕ) (f : Found)
    → both_found a b ≡ some f
    → (a ≡ some f.start_index) × (b ≡ some f.end_index)
unfolding both_found
both_found-ends (some a) (some b) f h = ground arith
both_found-ends none b f h = absurd (cc h)
both_found-ends (some a) none f h = absurd (cc h)

span_text-HasEnds :
    (text : Text) (start length : ℕ) (f : Found)
    → mention_span_text text start length ≡ some f
    → HasEnds text start length f
unfolding mention_span_text
span_text-HasEnds text start length f h = elim (Bool-cases (nat_eq length 0)) [
  | inl e ↦ absurd (cc (rw e at h))
  | inr n ↦ let (a, b) = both_found-ends _ _ f (rw n at h) in record { starts = a; ends = b }
]

pub span_text-ordered :
    (text : Text) (start length : ℕ) (f : Found)
    → mention_span_text text start length ≡ some f
    → f.start_index ≤ f.end_index
span_text-ordered text start length f h =
    let e = span_text-HasEnds text start length f h in
    find_boundary_mono start (start + length) f.start_index f.end_index text (omega arith) e.starts
      e.ends

-- A span that begins where another has ended, or later, is found behind it.
pub span_text-apart :
    (text : Text) (start length start' length' : ℕ) (f g : Found)
    → start + length ≤ start'
    → mention_span_text text start length ≡ some f
    → mention_span_text text start' length' ≡ some g
    → f.end_index ≤ g.start_index
span_text-apart text start length start' length' f g le h k =
    let a = span_text-HasEnds text start length f h in
    let b = span_text-HasEnds text start' length' g k in
    find_boundary_mono (start + length) start' f.end_index g.start_index text le a.ends b.starts

found_matches-slice :
    (U : Unicode) (text label : Text) (o : Option Found)
    → found_matches U text label o ≡ true
    → (f : Found) × (o ≡ some f) × (slice f.start_index f.end_index text ≡ (codes "@" ++ label))
unfolding found_matches
found_matches-slice U text label none h = absurd (cc h)
found_matches-slice U text label (some f) h =
    (f, refl, eq_sound (slice f.start_index f.end_index text) (codes "@" ++ label) (ground arith))

-- A span that matches is found, and the text has the mention there.
pub span_matches-slice :
    (U : Unicode) (text label : Text) (start length : ℕ)
    → mention_span_matches U text label start length ≡ true
    → (f : Found) × (mention_span_text text start length ≡ some f)
      × (slice f.start_index f.end_index text ≡ (codes "@" ++ label))
unfolding mention_span_matches
span_matches-slice U text label start length h = found_matches-slice U text label _ h

pub slice-drop : (a b : ℕ) (t : Text) → a ≤ b → slice a b t ++ drop b t ≡ drop a t
slice-drop zero zero t h = refl
slice-drop zero (suc b) [] h = refl
slice-drop zero (suc b) (c ∷ t) h = ap (λ x. c ∷ x) (slice-drop zero b t (omega arith))
slice-drop (suc a) zero t h = absurd (omega (arith, h))
slice-drop (suc a) (suc b) [] h = refl
slice-drop (suc a) (suc b) (c ∷ t) h = slice-drop a b t (omega (arith, h))
