-- ===== src/Mentions/Payload.antt =====
-- What `mention_transport_payload` of src/greenline/store/mentions.py puts in a text's place.
use greenline.Base.{
  ℕ, ◌+◌, ◌≤◌, ◌≡◌, refl, sym, ap, ◌∙◌, true, false, not, some, List, [], ◌∷◌, ◌++◌, arith, Text,
  codes, All, map, select, is_empty, drop, Bool-cases, inl, inr,
}
use mathlib.Core.List.{append-nil, append_assoc}
use greenline.Models.{MentionSpan}
use greenline.State.{State, Daemon, Unicode}
use greenline.Mentions.{
  SpanInput, Conversions, Found, slice, mention_span_text, mention_span_matches,
  mention_transport_token, Parts, Payload, add_part, add_parts, payload_of, validate_mention_spans,
  mention_transport_payload,
}
use greenline.Mentions.Boundaries.{
  span_text-ordered, span_text-apart, span_matches-slice, slice-drop,
}
use greenline.Mentions.Valid.{Apart, AreMentions, validate-AreMentions}

-- A mention and the text between the mention before it and this one.
abbrev pub Piece : Type 0
Piece = record { before : Text; span : MentionSpan }

-- The pieces with each mention as it is written, then the tail.
abbrev pub originals : List Piece → Text → Text
originals [] tail = tail
originals (p ∷ ps) tail = p.before ++ ((codes "@" ++ p.span.label) ++ originals ps tail)

module _ (U : Unicode) where
  -- The pieces with each mention as it is sent, then the tail.
  abbrev pub replaced : List Piece → Text → Text
  replaced [] tail = tail
  replaced (p ∷ ps) tail = p.before ++ (mention_transport_token U p.span.jid ++ replaced ps tail)

  -- The spans whose JID has a user to mention.
  abbrev pub sendable : List MentionSpan → List MentionSpan
  sendable spans = select (λ s. not (is_empty (mention_transport_token U s.jid))) spans

  -- The text of the payload is the text with the label of each sendable span replaced by the token of its
  -- JID and all else kept; the payload has these spans and their JIDs, in this order.
  pub record Replaces (text : Text) (spans : List MentionSpan) (payload : Payload) : Type 0 where
    pub pieces : List Piece
    pub tail : Text
    pub written : originals pieces tail ≡ text
    pub sent : replaced pieces tail ≡ payload.text
    pub mentioned : map (λ p. p.span) pieces ≡ sendable spans
    pub spans_kept : payload.spans ≡ sendable spans
    pub jids_kept : payload.jids ≡ map (λ s. s.jid) (sendable spans)

module _ (U : Unicode) (V : Conversions) (D : Daemon) (st : State) (text : Text) where
  -- Every span is found at the end of the last mention or behind it.
  abbrev Behind : ℕ → List MentionSpan → Type 0
  Behind last_end spans =
      All
        (λ s.
          (f : Found) → mention_span_text text s.start s.length ≡ some f → last_end ≤ f.start_index)
        spans

  -- What is added to the parts behind `last_end`.
  record Adds (spans : List MentionSpan) (p q : Parts) : Type 0 where
    pieces : List Piece
    tail : Text
    written : originals pieces tail ≡ drop p.last_end text
    sent : q.text ++ drop q.last_end text ≡ p.text ++ replaced U pieces tail
    mentioned : map (λ p. p.span) pieces ≡ sendable U spans
    spans_kept : q.spans ≡ p.spans ++ sendable U spans
    jids_kept : q.jids ≡ p.jids ++ map (λ s. s.jid) (sendable U spans)

  later-Behind :
      (s : MentionSpan) (f : Found) (xs : List MentionSpan)
      → mention_span_text text s.start s.length ≡ some f
      → All (λ t. s.start + s.length ≤ t.start) xs
      → Behind f.end_index xs
  later-Behind s f [] e all = tt
  later-Behind s f (x ∷ xs) e (p, all) = (
    λ g h. span_text-apart text s.start s.length x.start x.length f g p e h,
    later-Behind s f xs e all,
  )

  abbrev with_mention : MentionSpan → Found → Parts → Parts
  with_mention s f p = record {
    text = p.text ++ (slice p.last_end f.start_index text ++ mention_transport_token U s.jid);
    spans = p.spans ++ (s ∷ []);
    jids = p.jids ++ (s.jid ∷ []);
    last_end = f.end_index;
  }

  added :
      (s : MentionSpan) (xs : List MentionSpan) (p : Parts) (f : Found) (q : Parts)
      → p.last_end ≤ f.start_index
      → f.start_index ≤ f.end_index
      → slice f.start_index f.end_index text ≡ (codes "@" ++ s.label)
      → is_empty (mention_transport_token U s.jid) ≡ false
      → Adds xs (with_mention s f p) q
      → Adds (s ∷ xs) p q
  unfolding select
  added s xs p f q le ordered at t a =
      let before = slice p.last_end f.start_index text in
      let token = mention_transport_token U s.jid in
      record {
        pieces = record { before = before; span = s } ∷ a.pieces;
        tail = a.tail;
        written =
            ap (λ x. before ++ x)
              (ap (λ x. x ++ originals a.pieces a.tail) (sym at)
                ∙ ap (λ x. slice f.start_index f.end_index text ++ x) a.written
                ∙ slice-drop f.start_index f.end_index text ordered)
            ∙ slice-drop p.last_end f.start_index text le;
        sent =
            a.sent
            ∙ append_assoc p.text (before ++ token) (replaced U a.pieces a.tail)
            ∙ ap (λ x. p.text ++ x) (append_assoc before token (replaced U a.pieces a.tail));
        mentioned = rw t (ap (λ x. s ∷ x) a.mentioned);
        spans_kept = rw t (a.spans_kept ∙ append_assoc p.spans (s ∷ []) (sendable U xs));
        jids_kept =
            rw t
              (a.jids_kept ∙ append_assoc p.jids (s.jid ∷ []) (map (λ s. s.jid) (sendable U xs)));
      }

  skipped :
      (s : MentionSpan) (xs : List MentionSpan) (p q : Parts)
      → is_empty (mention_transport_token U s.jid) ≡ true
      → Adds xs p q
      → Adds (s ∷ xs) p q
  unfolding select
  skipped s xs p q t a = record {
    pieces = a.pieces;
    tail = a.tail;
    written = a.written;
    sent = a.sent;
    mentioned = rw t a.mentioned;
    spans_kept = rw t a.spans_kept;
    jids_kept = rw t a.jids_kept;
  }

  add_parts-Adds :
      (xs : List MentionSpan) (p : Parts)
      → All (λ s. mention_span_matches U text s.label s.start s.length ≡ true) xs
      → Apart xs
      → Behind p.last_end xs
      → Adds xs p (add_parts U V D st text xs p)
  unfolding add_parts add_part select
  add_parts-Adds [] p all apart behind = record {
    pieces = [];
    tail = drop p.last_end text;
    written = refl;
    sent = refl;
    mentioned = refl;
    spans_kept = sym (append-nil p.spans);
    jids_kept = sym (append-nil p.jids);
  }
  add_parts-Adds (s ∷ xs) p (m, all) (from, apart) (b, behind) =
      let (f, e, at) = span_matches-slice U text s.label s.start s.length m in
      rw e (elim (Bool-cases (is_empty (mention_transport_token U s.jid))) [
        | inl t ↦ rw t (skipped s xs p _ t (add_parts-Adds xs p all apart behind))
        | inr t ↦ rw t (
            added s xs p f _ (b f e) (span_text-ordered text s.start s.length f e) at t
              (add_parts-Adds xs (with_mention s f p) all apart (later-Behind s f xs e from)))
      ])

  from_start : (xs : List MentionSpan) → Behind 0 xs
  from_start [] = tt
  from_start (x ∷ xs) = (λ f h. omega arith, from_start xs)

  payload_of-Replaces :
      (spans : List MentionSpan)
      → AreMentions U text spans
      → Replaces U text spans (payload_of U V D st text spans)
  unfolding payload_of
  payload_of-Replaces spans are =
      let a = add_parts-Adds spans _ are.matched are.apart (from_start spans) in
      record {
        pieces = a.pieces;
        tail = a.tail;
        written = a.written;
        sent = sym a.sent;
        mentioned = a.mentioned;
        spans_kept = a.spans_kept;
        jids_kept = a.jids_kept;
      }

-- Whatever text and spans the interface gives, the payload's text is the text with every sendable one of the
-- spans that `validate_mention_spans` keeps replaced by the token of its JID, and nothing else changed.
pub transport_payload-Replaces :
    (U : Unicode) (V : Conversions) (D : Daemon) (st : State) (text : Text) (spans : List SpanInput)
    → Replaces U text
        (validate_mention_spans U V D st text spans)
        (mention_transport_payload U V D st text spans)
unfolding mention_transport_payload
transport_payload-Replaces U V D st text spans =
    payload_of-Replaces U V D st text _ (validate-AreMentions U V D st text spans)
