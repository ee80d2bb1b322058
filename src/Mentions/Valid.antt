-- ===== src/Mentions/Valid.antt =====
-- The spans that `validate_mention_spans` of src/greenline/store/mentions.py keeps.
use greenline.Base.{
  ℕ, ◌+◌, ◌≤◌, ◌≡◌, true, false, Option, none, some, List, [], ◌∷◌, arith, Text, All, is_empty, ltb,
  Bool-cases, inl, inr,
}
use greenline.Identity.Jids.{canonicalize_contact_jid}
use greenline.Models.{MentionSpan}
use greenline.State.{State, Daemon, Unicode}
use greenline.Mentions.{
  SpanInput, Conversions, mention_span_matches, is_mention, kept_span, matching_spans,
  coerce_mention_span, insert_by_start, sort_by_start, non_overlapping, with_jids,
  validate_mention_spans,
}

-- Each span ends where those behind it begin, or before.
abbrev pub Apart : List MentionSpan → Type 0
Apart [] = Unit
Apart (s ∷ xs) = All (λ t. s.start + s.length ≤ t.start) xs × Apart xs

-- Spans that are mentions in the text: there the text has the label behind an at sign, between
-- characters that are no part of a word; no two overlap and they stand in order; each has a JID.
pub record AreMentions (U : Unicode) (text : Text) (spans : List MentionSpan) : Type 0 where
  pub matched : All (λ s. mention_span_matches U text s.label s.start s.length ≡ true) spans
  pub apart : Apart spans
  pub named : All (λ s. is_empty s.jid ≡ false) spans

-- All chosen spans begin at `last_end` or later, and are apart.
chosen_from :
    (last_end : ℕ) (xs : List MentionSpan)
    → All (λ t. last_end ≤ t.start) (non_overlapping last_end xs)
      × Apart (non_overlapping last_end xs)
unfolding non_overlapping
chosen_from last_end [] = (tt, tt)
chosen_from last_end (s ∷ xs) = elim (Bool-cases (ltb s.start last_end)) [
  | inl e ↦ rw e (chosen_from last_end xs)
  | inr n ↦
      let (from, apart) = chosen_from (s.start + s.length) xs in
      rw n
        ((ground arith, later (s.start + s.length) last_end (not_before n) _ from), (from, apart))
]
  where
    not_before : ltb s.start last_end ≡ false → last_end ≤ s.start + s.length
    not_before h = ground arith

    later :
        (a b : ℕ)
        → b ≤ a
        → (ys : List MentionSpan) → All (λ t. a ≤ t.start) ys
        → All (λ t. b ≤ t.start) ys
    later a b h [] all = tt
    later a b h (y ∷ ys) (p, all) = (omega (arith, h, p), later a b h ys all)

module _ (P : MentionSpan → Type 0) where
  All-insert_by_start :
      (s : MentionSpan) (xs : List MentionSpan) → P s → All P xs → All P (insert_by_start s xs)
  unfolding insert_by_start
  All-insert_by_start s [] p all = (p, tt)
  All-insert_by_start s (x ∷ xs) p (q, all) = elim (Bool-cases (ltb x.start s.start)) [
    | inl e ↦ rw e (q, All-insert_by_start s xs p all)
    | inr n ↦ rw n (p, (q, all))
  ]

  pub All-sort_by_start : (xs : List MentionSpan) → All P xs → All P (sort_by_start xs)
  unfolding sort_by_start
  All-sort_by_start [] all = tt
  All-sort_by_start (x ∷ xs) (p, all) =
      All-insert_by_start x (sort_by_start xs) p (All-sort_by_start xs all)

  pub All-non_overlapping :
      (last_end : ℕ) (xs : List MentionSpan) → All P xs → All P (non_overlapping last_end xs)
  unfolding non_overlapping
  All-non_overlapping last_end [] all = tt
  All-non_overlapping last_end (s ∷ xs) (p, all) = elim (Bool-cases (ltb s.start last_end)) [
    | inl e ↦ rw e (All-non_overlapping last_end xs all)
    | inr n ↦ rw n (p, All-non_overlapping (s.start + s.length) xs all)
  ]

module _ (U : Unicode) (V : Conversions) (text : Text) where
  abbrev IsMatched : MentionSpan → Type 0
  IsMatched s = mention_span_matches U text s.label s.start s.length ≡ true

  kept_span-IsMatched :
      (o : Option MentionSpan) (spans : List MentionSpan)
      → All IsMatched spans
      → All IsMatched (kept_span U V text o spans)
  unfolding kept_span
  kept_span-IsMatched none spans all = all
  kept_span-IsMatched (some s) spans all = elim (Bool-cases (is_mention U V text s)) [
    | inl e ↦ rw e (ground arith, all)
    | inr n ↦ rw n all
  ]

  matching_spans-IsMatched : (xs : List SpanInput) → All IsMatched (matching_spans U V text xs)
  unfolding matching_spans
  matching_spans-IsMatched [] = tt
  matching_spans-IsMatched (x ∷ xs) =
      kept_span-IsMatched (coerce_mention_span V x) (matching_spans U V text xs)
        (matching_spans-IsMatched xs)

  module _ (D : Daemon) (st : State) where
    All-with_jids :
        (n : ℕ) (xs : List MentionSpan)
        → All (λ t. n ≤ t.start) xs
        → All (λ t. n ≤ t.start) (with_jids U V D st xs)
    unfolding with_jids
    All-with_jids n [] all = tt
    All-with_jids n (s ∷ xs) (p, all) =
        elim (Bool-cases (is_empty (canonicalize_contact_jid U D none s.jid st))) [
          | inl e ↦ rw e (All-with_jids n xs all)
          | inr m ↦ rw m (p, All-with_jids n xs all)
        ]

    with_jids-AreMentions :
        (xs : List MentionSpan)
        → All IsMatched xs
        → Apart xs
        → AreMentions U text (with_jids U V D st xs)
    unfolding with_jids
    with_jids-AreMentions [] all apart = record { matched = tt; apart = tt; named = tt }
    with_jids-AreMentions (s ∷ xs) (p, all) (q, apart) =
        let rest = with_jids-AreMentions xs all apart in
        elim (Bool-cases (is_empty (canonicalize_contact_jid U D none s.jid st))) [
          | inl e ↦ rw e rest
          | inr n ↦ rw n (record {
            matched = (p, rest.matched);
            apart = (All-with_jids (s.start + s.length) xs q, rest.apart);
            named = (n, rest.named);
          })
        ]

-- Whatever spans the interface gives, those that are kept are mentions in the text: each matches it, they
-- stand in order, no two overlap, and each has a JID.
pub validate-AreMentions :
    (U : Unicode) (V : Conversions) (D : Daemon) (st : State) (text : Text) (spans : List SpanInput)
    → AreMentions U text (validate_mention_spans U V D st text spans)
unfolding validate_mention_spans
validate-AreMentions U V D st text spans = elim (Bool-cases (is_empty text)) [
  | inl e ↦ rw e (record { matched = tt; apart = tt; named = tt })
  | inr n ↦
      let sorted = sort_by_start (matching_spans U V text spans) in
      rw n (
        with_jids-AreMentions U V text D st (non_overlapping 0 sorted)
          (All-non_overlapping _ 0 sorted
            (All-sort_by_start _ _ (matching_spans-IsMatched U V text spans)))
          (chosen_from 0 sorted).1)
]
