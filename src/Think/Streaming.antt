-- ===== src/Think/Streaming.antt =====
-- providers/common/think_parser.py on a whole stream: `feed` for each piece, then `flush`.
use liberated_claude_code.Prelude.{
  ℕ, zero, suc, ◌<◌, ◌≡◌, refl, sym, ap, ◌∙◌, inl, inr, Bool, true, false, List, [], ◌∷◌, ◌++◌,
  append-nil, append_assoc, Option, none, some, arith, length,
}
use liberated_claude_code.Text.{Text}
use liberated_claude_code.Think.{
  ContentChunk, text, thinking, ThinkTagParser, new, parse_step, after_step, feed_loop, feed, flush,
}
use liberated_claude_code.Think.Spec.{label, label_chunks, label_chunk?, split}
use liberated_claude_code.Think.Step.{NoTag, split-NoTag}
use liberated_claude_code.Think.Good.{at, IsGood, label-chunk_unless_empty, parse_step-IsGood}

-- The loop ends by its own tests, reads the buffer as the specification does, and leaves no tag.
pub record Fed (m : Bool) (b : Text) (r : List ContentChunk × ThinkTagParser) : Type 0 where
  pub sound :
      (x : Text)
      → split 0 m (b ++ x) ≡ label_chunks r.0 ++ split 0 r.1.in_think_tag (r.1.buffer ++ x)
  pub left : NoTag r.1.in_think_tag r.1.buffer
  pub short : length r.1.buffer < 8

Fed-after_step :
    (m : Bool) (b : Text) (chunk : Option ContentChunk) (p : ThinkTagParser)
    (rest : Option (List ContentChunk × ThinkTagParser))
    → IsGood m b (chunk, p)
    → (length p.buffer < length b
        → (r : List ContentChunk × ThinkTagParser) × (rest ≡ some r)
          × Fed p.in_think_tag p.buffer r)
    → (r : List ContentChunk × ThinkTagParser) × (after_step (length b) chunk p rest ≡ some r)
      × Fed m b r
unfolding after_step
Fed-after_step m b none p rest g next = elim g.moves [
  | inl (e, same, no_tag, short) ↦ (
    ([], p),
    rw same (ground arith),
    record { sound = g.sound; left = rw same no_tag; short = rw same short },
  )
  | inr less ↦
      let (r, e, fed) = next less in
      (
        r,
        ground arith,
        record { sound = λ x. g.sound x ∙ fed.sound x; left = fed.left; short = fed.short },
      )
]
Fed-after_step m b (some c) p rest g next = elim g.moves [
  | inl (e, same, no_tag, short) ↦ cc
  | inr less ↦
      let (r, e, fed) = next less in
      (
        (c ∷ r.0, r.1),
        rw e,
        record {
          sound = λ x.
              g.sound x ∙ rw append_assoc (ap (λ r. label c.type c.content ++ r) (fed.sound x));
          left = fed.left;
          short = fed.short;
        },
      )
]

feed_loop-Fed :
    (fuel : ℕ) (m : Bool) (b : Text)
    → length b < fuel
    → (r : List ContentChunk × ThinkTagParser) × (feed_loop fuel (at m b) ≡ some r) × Fed m b r
unfolding feed_loop
feed_loop-Fed zero m b h = absurd (omega arith)
feed_loop-Fed (suc fuel) m [] h =
    (([], at m []), refl, record { sound = λ x. refl; left = tt; short = omega arith })
feed_loop-Fed (suc fuel) m (c ∷ s) h =
    let r = parse_step (at m (c ∷ s)) in
    Fed-after_step m (c ∷ s) r.0 r.1 (feed_loop fuel r.1) (parse_step-IsGood m c s)
      (λ less. feed_loop-Fed fuel r.1.in_think_tag r.1.buffer (omega arith))

-- A stream: the pieces are fed one after the other, and the rest is flushed.
unfoldable pub feed_all : ThinkTagParser → List Text → Option (List ContentChunk × ThinkTagParser)
feed_all p [] = some ([], p)
feed_all p (content ∷ contents) = elim (feed content p) [
  | none ↦ none
  | some (cs, p') ↦ elim (feed_all p' contents) [ none ↦ none | some (ds, q) ↦ some (cs ++ ds, q) ]
]

abbrev pub join : List Text → Text
join [] = []
join (s ∷ ss) = s ++ join ss

pub label_chunks-append :
    (cs ds : List ContentChunk) → label_chunks (cs ++ ds) ≡ label_chunks cs ++ label_chunks ds
label_chunks-append [] ds = refl
label_chunks-append (c ∷ cs) ds = rw (label_chunks-append cs ds, append_assoc)

feed-Fed :
    (content : Text) (m : Bool) (b : Text)
    → (r : List ContentChunk × ThinkTagParser) × (feed content (at m b) ≡ some r)
      × Fed m (b ++ content) r
unfolding feed
feed-Fed content m b = feed_loop-Fed (suc (length (b ++ content))) m (b ++ content) (omega arith)

feed_all-Fed :
    (contents : List Text) (m : Bool) (b : Text)
    → NoTag m b
    → (r : List ContentChunk × ThinkTagParser) × (feed_all (at m b) contents ≡ some r)
      × (split 0 m (b ++ join contents) ≡ label_chunks r.0 ++ split 0 r.1.in_think_tag r.1.buffer)
      × NoTag r.1.in_think_tag r.1.buffer
unfolding feed_all
feed_all-Fed [] m b n = (([], at m b), refl, rw append-nil, n)
feed_all-Fed (content ∷ contents) m b n =
    let ((cs, p), e, fed) = feed-Fed content m b in
    let ((ds, q), e', all, n') = feed_all-Fed contents p.in_think_tag p.buffer fed.left in
    (
      (cs ++ ds, q),
      rw (e, feed_all, e'),
      rw (← append_assoc) (
          fed.sound (join contents)
          ∙ ap (λ r. label_chunks cs ++ r) all
          ∙ rw (label_chunks-append, append_assoc)),
      n',
    )

flush_lem : (m : Bool) (b : Text) → NoTag m b → label_chunk? (flush (at m b)).0 ≡ split 0 m b
unfolding flush
flush_lem true b n = label-chunk_unless_empty thinking b ∙ sym (split-NoTag true b n)
flush_lem false b n = label-chunk_unless_empty text b ∙ sym (split-NoTag false b n)

-- For every way of cutting a stream into pieces the parser comes to an end on each piece, and the
-- chunks that it yields, with what the final `flush` yields, are the reading of the whole stream
-- from left to right: each character outside the tags once, in order, with the type of its mode.
pub stream-eq-split :
    (contents : List Text)
    → (cs : List ContentChunk) × (p : ThinkTagParser) × (feed_all new contents ≡ some (cs, p))
      × (label_chunks cs ++ label_chunk? (flush p).0 ≡ split 0 false (join contents))
stream-eq-split contents =
    let ((cs, p), e, all, n) = feed_all-Fed contents false [] tt in
    (cs, p, e, rw (flush_lem p.in_think_tag p.buffer n) (sym all))

-- What a call of `feed` holds back for the next one is shorter than a closing tag, and a call
-- always comes to an end.
pub feed_holds_short :
    (content : Text) (p : ThinkTagParser)
    → (r : List ContentChunk × ThinkTagParser) × (feed content p ≡ some r) × (length r.1.buffer < 8)
feed_holds_short content p =
    let (r, e, fed) = feed-Fed content p.in_think_tag p.buffer in (r, e, fed.short)
