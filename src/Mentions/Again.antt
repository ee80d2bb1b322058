-- ===== src/Mentions/Again.antt =====
-- Validating what was validated (`validate_mention_spans` of src/greenline/store/mentions.py).
use greenline.Base.{
  ℕ, ◌+◌, ◌≤◌, ◌≡◌, refl, sym, ap, ◌∙◌, true, false, ◌||◌, Option, none, some, List, [], ◌∷◌, arith,
  Text, codes, ℤ, pos, negsuc, All, map, is_empty, ltb, nat_eq, Bool-cases, inl, inr,
}
use greenline.Dyn.{get_key}
use greenline.Identity.Jids.{canonicalize_contact_jid}
use greenline.Mentions.{
  SpanInput, Conversions, is_mention, kept_span, matching_spans, coerce_mention_span, numbered,
  usable, text_of, as_int, insert_by_start, sort_by_start, non_overlapping, with_jids,
  validate_mention_spans,
}
use greenline.Mentions.Valid.{
  Apart, All-sort_by_start, All-non_overlapping, AreMentions, validate-AreMentions,
}
use greenline.Models.{MentionSpan}
use greenline.State.{State, Daemon, Unicode}

module _ (U : Unicode) (V : Conversions) (text : Text) where
  -- A span that has a label and a length, and is a mention of the text.
  abbrev IsFull : MentionSpan → Type 0
  IsFull s = ((is_empty s.label || nat_eq s.length 0) ≡ false) × (is_mention U V text s ≡ true)

  usable-full :
      (s t : MentionSpan) → usable V s ≡ some t → (is_empty t.label || nat_eq t.length 0) ≡ false
  usable-full s t h = elim (Bool-cases (is_empty s.jid || is_empty s.label || nat_eq s.length 0)) [
    | inl e ↦ absurd (cc (rw e at h))
    | inr n ↦
        let same : s ≡ t = some_injective (rw n at h) in
        let full : (is_empty s.label || nat_eq s.length 0) ≡ false = ground arith in
        rw (← same) full
  ]
    where
      some_injective : {a b : MentionSpan} → ◌≡◌ {A = Option MentionSpan} (some a) (some b) → a ≡ b
      some_injective e = cc

  numbered-full :
      (jid label : Text) (a b : Option ℤ) (t : MentionSpan)
      → numbered V jid label a b ≡ some t
      → (is_empty t.label || nat_eq t.length 0) ≡ false
  unfolding numbered
  numbered-full jid label (some (pos start)) (some (pos length)) t h =
      usable-full (record { jid = jid; label = label; start = start; length = length }) t h
  numbered-full jid label none b t h = absurd (cc h)
  numbered-full jid label (some (negsuc n)) b t h = absurd (cc h)
  numbered-full jid label (some (pos start)) none t h = absurd (cc h)
  numbered-full jid label (some (pos start)) (some (negsuc n)) t h = absurd (cc h)

  coerce-full :
      (x : SpanInput) (t : MentionSpan)
      → coerce_mention_span V x ≡ some t
      → (is_empty t.label || nat_eq t.length 0) ≡ false
  unfolding coerce_mention_span
  coerce-full (SpanInput.typed s) t h = usable-full s t h
  coerce-full (SpanInput.mapping d) t h =
      numbered-full (text_of V (get_key (codes "jid") d)) (text_of V (get_key (codes "label") d))
        (as_int V (get_key (codes "start") d)) (as_int V (get_key (codes "length") d)) t h
  coerce-full SpanInput.neither t h = absurd (cc h)

  kept_span-IsFull :
      (o : Option MentionSpan) (spans : List MentionSpan)
      → ((t : MentionSpan) → o ≡ some t → (is_empty t.label || nat_eq t.length 0) ≡ false)
      → All IsFull spans
      → All IsFull (kept_span U V text o spans)
  unfolding kept_span
  kept_span-IsFull none spans f all = all
  kept_span-IsFull (some s) spans f all = elim (Bool-cases (is_mention U V text s)) [
    | inl e ↦ rw e ((f s refl, e), all)
    | inr n ↦ rw n all
  ]

  matching_spans-IsFull : (xs : List SpanInput) → All IsFull (matching_spans U V text xs)
  unfolding matching_spans
  matching_spans-IsFull [] = tt
  matching_spans-IsFull (x ∷ xs) =
      kept_span-IsFull (coerce_mention_span V x) (matching_spans U V text xs) (coerce-full x)
        (matching_spans-IsFull xs)

  -- Spans that are full and have JIDs match again.
  matching_again :
      (xs : List MentionSpan)
      → All IsFull xs
      → All (λ s. is_empty s.jid ≡ false) xs
      → matching_spans U V text (map SpanInput.typed xs) ≡ xs
  unfolding matching_spans coerce_mention_span kept_span
  matching_again [] full named = refl
  matching_again (x ∷ xs) ((full, mention), fulls) (named, nameds) =
      let is_usable : (is_empty x.jid || is_empty x.label || nat_eq x.length 0) ≡ false =
        ground arith in
      rw (is_usable, mention) (ap (λ t. x ∷ t) (matching_again xs fulls nameds))

  module _ (D : Daemon) (st : State) where
    with_jids-IsFull : (xs : List MentionSpan) → All IsFull xs → All IsFull (with_jids U V D st xs)
    unfolding with_jids
    with_jids-IsFull [] all = tt
    with_jids-IsFull (x ∷ xs) (p, all) =
        elim (Bool-cases (is_empty (canonicalize_contact_jid U D none x.jid st))) [
          | inl e ↦ rw e (with_jids-IsFull xs all)
          | inr n ↦ rw n (p, with_jids-IsFull xs all)
        ]

    validate-IsFull :
        (spans : List SpanInput) → All IsFull (validate_mention_spans U V D st text spans)
    unfolding validate_mention_spans
    validate-IsFull spans = elim (Bool-cases (is_empty text)) [
      | inl e ↦ rw e tt
      | inr n ↦ rw n (
          with_jids-IsFull _
            (All-non_overlapping _ 0 _ (All-sort_by_start _ _ (matching_spans-IsFull spans))))
    ]

    with_jids_again :
        (xs : List MentionSpan)
        → All (λ s. canonicalize_contact_jid U D none s.jid st ≡ s.jid) xs
        → All (λ s. is_empty s.jid ≡ false) xs
        → with_jids U V D st xs ≡ xs
    unfolding with_jids
    with_jids_again [] same named = refl
    with_jids_again (x ∷ xs) (p, same) (q, named) =
        rw (p, q) (ap (λ t. x ∷ t) (with_jids_again xs same named))

sort_again : (xs : List MentionSpan) → Apart xs → sort_by_start xs ≡ xs
unfolding sort_by_start insert_by_start
sort_again [] apart = refl
sort_again (x ∷ []) apart = refl
sort_again (x ∷ y ∷ xs) (from, apart) =
    let before : ltb y.start x.start ≡ false = ground (arith, from.0) in
    rw (sort_again (y ∷ xs) apart, before) refl

non_overlapping_again :
    (n : ℕ) (xs : List MentionSpan)
    → All (λ s. n ≤ s.start) xs
    → Apart xs
    → non_overlapping n xs ≡ xs
unfolding non_overlapping
non_overlapping_again n [] all apart = refl
non_overlapping_again n (x ∷ xs) (p, all) (from, apart) =
    let later : ltb x.start n ≡ false = ground (arith, p) in
    rw later (ap (λ t. x ∷ t) (non_overlapping_again (x.start + x.length) xs from apart))

from_zero : (xs : List MentionSpan) → All (λ s. 0 ≤ s.start) xs
from_zero [] = tt
from_zero (x ∷ xs) = (omega arith, from_zero xs)

kept_again :
    (U : Unicode) (V : Conversions) (D : Daemon) (st : State) (text : Text) (xs : List MentionSpan)
    → is_empty text ≡ false
    → All (IsFull U V text) xs
    → AreMentions U text xs
    → All (λ s. canonicalize_contact_jid U D none s.jid st ≡ s.jid) xs
    → validate_mention_spans U V D st text (map SpanInput.typed xs) ≡ xs
unfolding validate_mention_spans
kept_again U V D st text xs e full are same =
    rw
      (
        e,
        matching_again U V text xs full are.named,
        sort_again xs are.apart,
        non_overlapping_again 0 xs (from_zero xs) are.apart,
      )
      (with_jids_again U V text D st xs same are.named)

pub none_kept :
    (U : Unicode) (V : Conversions) (D : Daemon) (st : State) (text : Text) (spans : List SpanInput)
    → is_empty text ≡ true
    → validate_mention_spans U V D st text spans ≡ []
unfolding validate_mention_spans
none_kept U V D st text spans e = rw e refl

-- Spans that were kept are kept as they are when they are validated with the text again, at any state where
-- their JIDs are canonical.
pub validate_again :
    (U : Unicode) (V : Conversions) (D : Daemon) (st st' : State) (text : Text)
    (spans : List SpanInput)
    → All
        (λ s. canonicalize_contact_jid U D none s.jid st' ≡ s.jid)
        (validate_mention_spans U V D st text spans)
    → validate_mention_spans U V D st' text
        (map SpanInput.typed (validate_mention_spans U V D st text spans))
      ≡ validate_mention_spans U V D st text spans
validate_again U V D st st' text spans canonical = elim (Bool-cases (is_empty text)) [
  | inl e ↦ none_kept U V D st' text _ e ∙ sym (none_kept U V D st text spans e)
  | inr n ↦
      kept_again U V D st' text (validate_mention_spans U V D st text spans) n
        (validate-IsFull U V text D st spans) (validate-AreMentions U V D st text spans) canonical
]
