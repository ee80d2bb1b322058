-- ===== src/Mentions.antt =====
-- src/greenline/store/mentions.py: mentions in a text that is sent, as spans in units of UTF-16.
pub mod Boundaries
pub mod Valid
pub mod Payload
pub mod Again
use greenline.Base.{
  ℕ, zero, suc, ◌+◌, ◌-◌, Bool, true, false, ◌&&◌, ◌||◌, not, Option, none, some, List, [], ◌∷◌,
  ◌++◌, Text, codes, ◌==◌, is_empty, ltb, leb, nat_eq, length, take, drop, decimal, ℤ, pos, negsuc,
  if◌then◌else◌,
}
use greenline.Dyn.{Dyn, get_key, is_dict, truthy}
use greenline.Identity.{split_first}
use greenline.Identity.Jids.{canonicalize_contact_jid, strip_device_suffix}
use greenline.Models.{MentionSpan}
use greenline.State.{State, Daemon, Unicode}

-- The units of UTF-16 that a character takes, and a text.
abbrev pub units : ℕ → ℕ
units c = if ltb 65535 c then 2 else 1

unfoldable pub utf16_length : Text → ℕ
utf16_length [] = 0
utf16_length (c ∷ s) = units c + utf16_length s

-- The entries of `_utf16_boundary_map` after the first: offsets in units, and in characters.
unfoldable pub boundaries_from : ℕ → ℕ → Text → List (ℕ × ℕ)
boundaries_from offset index [] = []
boundaries_from offset index (c ∷ s) =
    (offset + units c, suc index) ∷ boundaries_from (offset + units c) (suc index) s

unfoldable pub utf16_boundary_map : Text → List (ℕ × ℕ)
unfolding boundaries_from
utf16_boundary_map text = (0, 0) ∷ boundaries_from 0 0 text

unfoldable pub find_boundary : ℕ → List (ℕ × ℕ) → Option ℕ
find_boundary offset [] = none
find_boundary offset ((o, i) ∷ entries) =
    let rest = find_boundary offset entries in if nat_eq o offset then some i else rest

-- `text[a:b]`
abbrev pub slice : ℕ → ℕ → Text → Text
slice a b text = drop a (take b text)

abbrev pub Found : Type 0
Found = record { start_index : ℕ; end_index : ℕ }

both_found : Option ℕ → Option ℕ → Option Found
both_found (some a) (some b) = some (record { start_index = a; end_index = b })
both_found _ _ = none

-- `_mention_span_text`; its third result is the slice between the two.
unfoldable pub mention_span_text : Text → ℕ → ℕ → Option Found
unfolding both_found
mention_span_text text start length =
    if nat_eq length 0
    then none
    else both_found (find_boundary start (utf16_boundary_map text))
        (find_boundary (start + length) (utf16_boundary_map text))

-- The character at an index, none past the end.
abbrev char_at : ℕ → Text → Option ℕ
char_at i [] = none
char_at zero (c ∷ s) = some c
char_at (suc i) (c ∷ s) = char_at i s

module _ (U : Unicode) where
  unfoldable pub is_mention_boundary_char : Option ℕ → Bool
  is_mention_boundary_char none = true
  is_mention_boundary_char (some c) = not (U.is_alnum c || nat_eq c 95)

  -- `text[start_index - 1] if start_index > 0 else ""`
  abbrev char_before : ℕ → Text → Option ℕ
  char_before zero text = none
  char_before (suc i) text = char_at i text

  found_matches : Text → Text → Option Found → Bool
  unfolding is_mention_boundary_char
  found_matches text label none = false
  found_matches text label (some f) =
      slice f.start_index f.end_index text == (codes "@" ++ label)
      && is_mention_boundary_char (char_before f.start_index text)
      && is_mention_boundary_char (char_at f.end_index text)

  unfoldable pub mention_span_matches : Text → Text → ℕ → ℕ → Bool
  unfolding found_matches
  mention_span_matches text label start length =
      found_matches text label (mention_span_text text start length)

  user_token : Text → Text
  user_token user = if is_empty user then [] else codes "@" ++ user

  abbrev before_at : Text → Option (Text × Text) → Text
  before_at jid none = jid
  before_at jid (some (user, server)) = user

  unfoldable pub mention_transport_token : Text → Text
  unfolding user_token
  mention_transport_token jid =
      let stripped = strip_device_suffix U jid in
      user_token (before_at stripped (split_first 64 stripped))

-- A span as the interface gives it: typed, a mapping, or anything else.
pub data SpanInput : Type 0 where
  typed : MentionSpan → SpanInput
  mapping : Dyn → SpanInput
  neither : SpanInput

-- `str(value)` of a value that is no text, and `int` of a text; `none` is an exception.
pub record Conversions : Type 0 where
  pub str_of : Dyn → Text
  pub int_of : Text → Option ℤ

module _ (V : Conversions) where
  abbrev shown : Dyn → Text
  shown (Dyn.str s) = s
  shown d = V.str_of d

  -- `str(value or "")`
  abbrev text_of : Dyn → Text
  text_of d = if truthy d then shown d else []

  -- `int(value)`; `none` also where the value is `None`.
  as_int : Dyn → Option ℤ
  as_int (Dyn.num n) = some (pos n)
  as_int (Dyn.bool b) = some (pos (if b then 1 else 0))
  as_int (Dyn.str s) = V.int_of s
  as_int _ = none

  abbrev usable : MentionSpan → Option MentionSpan
  usable s = if is_empty s.jid || is_empty s.label || nat_eq s.length 0 then none else some s

  numbered : Text → Text → Option ℤ → Option ℤ → Option MentionSpan
  numbered jid label (some (pos start)) (some (pos length)) =
      usable (record { jid = jid; label = label; start = start; length = length })
  numbered jid label _ _ = none

  unfoldable pub coerce_mention_span : SpanInput → Option MentionSpan
  unfolding as_int numbered
  coerce_mention_span (typed s) = usable s
  coerce_mention_span (mapping d) =
      numbered (text_of (get_key (codes "jid") d)) (text_of (get_key (codes "label") d))
        (as_int (get_key (codes "start") d)) (as_int (get_key (codes "length") d))
  coerce_mention_span neither = none

-- The stable sort by the start.
unfoldable pub insert_by_start : MentionSpan → List MentionSpan → List MentionSpan
insert_by_start s [] = s ∷ []
insert_by_start s (x ∷ xs) =
    let rest = insert_by_start s xs in if ltb x.start s.start then x ∷ rest else s ∷ x ∷ xs

unfoldable pub sort_by_start : List MentionSpan → List MentionSpan
unfolding insert_by_start
sort_by_start [] = []
sort_by_start (x ∷ xs) = insert_by_start x (sort_by_start xs)

-- The loop over the sorted spans; no start is below the first `last_end`, -1 in the code.
unfoldable pub non_overlapping : ℕ → List MentionSpan → List MentionSpan
non_overlapping last_end [] = []
non_overlapping last_end (s ∷ xs) =
    let rest = non_overlapping last_end xs in
    let more = non_overlapping (s.start + s.length) xs in
    if ltb s.start last_end then rest else s ∷ more

-- What has been put together: the parts, the spans and the JIDs, and the end of the last mention.
abbrev pub Parts : Type 0
Parts = record { text : Text; spans : List MentionSpan; jids : List Text; last_end : ℕ }

-- The text, the spans and the JIDs.
abbrev pub Payload : Type 0
Payload = record { text : Text; spans : List MentionSpan; jids : List Text }

module _ (U : Unicode) (V : Conversions) where
  abbrev is_mention : Text → MentionSpan → Bool
  is_mention text s =
      nat_eq s.length (utf16_length (codes "@" ++ s.label))
      && mention_span_matches U text s.label s.start s.length

  kept_span : Text → Option MentionSpan → List MentionSpan → List MentionSpan
  kept_span text none spans = spans
  kept_span text (some s) spans = if is_mention text s then s ∷ spans else spans

  matching_spans : Text → List SpanInput → List MentionSpan
  unfolding kept_span
  matching_spans text [] = []
  matching_spans text (x ∷ xs) = kept_span text (coerce_mention_span V x) (matching_spans text xs)

  module _ (D : Daemon) (st : State) where
    abbrev normalized : MentionSpan → MentionSpan
    normalized s = record s { jid = canonicalize_contact_jid U D none s.jid st }

    with_jids : List MentionSpan → List MentionSpan
    with_jids [] = []
    with_jids (s ∷ xs) =
        let rest = with_jids xs in
        if is_empty (canonicalize_contact_jid U D none s.jid st) then rest else normalized s ∷ rest

    unfoldable pub validate_mention_spans : Text → List SpanInput → List MentionSpan
    unfolding matching_spans with_jids sort_by_start non_overlapping
    validate_mention_spans text spans =
        if is_empty text
        then []
        else with_jids (non_overlapping 0 (sort_by_start (matching_spans text spans)))

    add_part : Text → MentionSpan → Option Found → Parts → Parts
    add_part text s none p = p
    add_part text s (some f) p =
        let token = mention_transport_token U s.jid in
        if is_empty token then p else record {
          text = p.text ++ (slice p.last_end f.start_index text ++ token);
          spans = p.spans ++ (s ∷ []);
          jids = p.jids ++ (s.jid ∷ []);
          last_end = f.end_index;
        }

    add_parts : Text → List MentionSpan → Parts → Parts
    unfolding add_part
    add_parts text [] p = p
    add_parts text (s ∷ xs) p =
        add_parts text xs (add_part text s (mention_span_text text s.start s.length) p)

    -- Where no span is kept, this is the text itself, as the code's early results are.
    abbrev finished : Text → Parts → Payload
    finished text p = record {
      text = p.text ++ drop p.last_end text;
      spans = p.spans;
      jids = p.jids;
    }

    unfoldable pub payload_of : Text → List MentionSpan → Payload
    unfolding add_parts
    payload_of text spans =
        finished text
          (add_parts text spans (record { text = []; spans = []; jids = []; last_end = 0 }))

    unfoldable pub mention_transport_payload : Text → List SpanInput → Payload
    unfolding payload_of validate_mention_spans
    mention_transport_payload text spans = payload_of text (validate_mention_spans text spans)
