-- ===== src/Transcript/Fits.antt =====
-- messaging/transcript.py: `render` and the limit on the length of its text.
use liberated_claude_code.Prelude.{
  ℕ, zero, suc, ◌≤◌, ◌<◌, ◌≡◌, ◌⊎◌, inl, inr, true, false, List, [], ◌∷◌, length, leb, drop, arith,
  Bool-cases,
}
use liberated_claude_code.Text.{Text}
use liberated_claude_code.Transcript.{TranscriptBuffer}
use liberated_claude_code.Transcript.Render.{
  RenderCtx, join_parts, drop_oldest, fallback, last_tail, dropped_all, shorten, rendered, render,
  status_text_of,
}

leb_le : {a b : ℕ} → leb a b ≡ true → a ≤ b
leb_le h = ground arith

module _ (ctx : RenderCtx) (sorted : List Text → List Text) where
  -- A text that fits, if there is one.
  abbrev Fits : ℕ → Text ⊎ Text → Type 0
  Fits limit (inl candidate) = length candidate ≤ limit
  Fits limit (inr last_part) = 0 ≤ limit

  drop_oldest-Fits :
      (limit : ℕ) (status_text last_part : Text) (parts : List Text)
      → Fits limit (drop_oldest ctx sorted limit status_text last_part parts)
  unfolding drop_oldest
  drop_oldest-Fits limit status_text last_part [] = omega arith
  drop_oldest-Fits limit status_text last_part (t ∷ ts) =
      elim (Bool-cases (leb (length (join_parts ctx sorted status_text true (t ∷ ts))) limit)) [
        | inl e ↦ rw e (leb_le e)
        | inr e ↦ rw e (drop_oldest-Fits limit status_text t ts)
      ]

  fallback-le :
      (limit : ℕ) (status : Text)
      → length status ≤ limit
      → length (fallback ctx sorted limit status) ≤ limit
  unfolding fallback
  fallback-le limit status h = ground arith

  last_tail-le :
      (limit : ℕ) (status last_part : Text)
      → length status ≤ limit
      → length (last_tail ctx sorted limit status last_part) ≤ limit
  unfolding last_tail
  last_tail-le limit status last_part h = ground (arith, fallback-le limit status h)

  dropped_all-le :
      (limit : ℕ) (status : Text) (r : Text ⊎ Text)
      → Fits limit r
      → length status ≤ limit
      → length (dropped_all ctx sorted limit status r) ≤ limit
  dropped_all-le limit status (inl candidate) f h = f
  dropped_all-le limit status (inr last_part) f h = last_tail-le limit status last_part h

  shorten-le :
      (limit : ℕ) (status : Text) (parts : List Text)
      → length status ≤ limit
      → length (shorten ctx sorted limit status parts) ≤ limit
  shorten-le limit status [] h = h
  shorten-le limit status (t ∷ ts) h =
      dropped_all-le limit status
        (drop_oldest ctx sorted limit (status_text_of ctx sorted status) [] (t ∷ ts))
        (drop_oldest-Fits limit (status_text_of ctx sorted status) [] (t ∷ ts)) h

  -- A status that fits the limit: the rendered transcript, with whatever markup, segments and
  -- status it has, is never longer than the limit.
  pub render-le :
      (limit : ℕ) (status : Text) (b : TranscriptBuffer)
      → length status ≤ limit
      → length (render ctx sorted limit status b) ≤ limit
  unfolding render
  render-le limit status b h = ground (arith, shorten-le limit status (rendered ctx sorted b) h)

  abbrev KeptFrom : ℕ → Text → List Text → ℕ → Text ⊎ Text → Type 0
  KeptFrom limit status_text parts j r =
      (i : ℕ) × ((i ≤ j) × (r ≡ inl (join_parts ctx sorted status_text true (drop i parts))))

  drop_oldest-KeptFrom :
      (limit : ℕ) (status_text last_part : Text) (parts : List Text) (j : ℕ)
      → j < length parts
      → length (join_parts ctx sorted status_text true (drop j parts)) ≤ limit
      → KeptFrom limit status_text parts j
          (drop_oldest ctx sorted limit status_text last_part parts)
  unfolding drop_oldest
  drop_oldest-KeptFrom limit status_text last_part [] j below fits = absurd (omega arith)
  drop_oldest-KeptFrom limit status_text last_part (t ∷ ts) zero below fits =
      let e : leb (length (join_parts ctx sorted status_text true (t ∷ ts))) limit ≡ true =
        ground arith in
      (0, (omega arith, rw e))
  drop_oldest-KeptFrom limit status_text last_part (t ∷ ts) (suc j) below fits =
      elim (Bool-cases (leb (length (join_parts ctx sorted status_text true (t ∷ ts))) limit)) [
        | inl e ↦ (0, (omega arith, rw e))
        | inr e ↦
            let r = drop_oldest-KeptFrom limit status_text t ts j (omega arith) fits in
            (suc r.0, (omega (arith, r.1.0), rw (e, r.1.1)))
      ]

  shorten-longest :
      (limit : ℕ) (status : Text) (parts : List Text) (j : ℕ)
      → j < length parts
      → length (join_parts ctx sorted (status_text_of ctx sorted status) true (drop j parts))
        ≤ limit
      → (i : ℕ) × ((i ≤ j)
          × (shorten ctx sorted limit status parts
              ≡ join_parts ctx sorted (status_text_of ctx sorted status) true (drop i parts)))
  shorten-longest limit status [] j below fits = absurd (omega arith)
  shorten-longest limit status (t ∷ ts) j below fits =
      let r =
        drop_oldest-KeptFrom limit (status_text_of ctx sorted status) [] (t ∷ ts) j below fits in
      (r.0, (r.1.0, rw r.1.1))

  -- Where the whole transcript is too long, and it fits without its oldest `j` parts, `j` less than
  -- the number of parts: the text is the marker, a tail of the parts with no more than `j` parts
  -- dropped, and the status.
  pub render-longest :
      (limit : ℕ) (status : Text) (b : TranscriptBuffer) (j : ℕ)
      → limit
        < length
            (join_parts ctx sorted (status_text_of ctx sorted status) false (rendered ctx sorted b))
      → j < length (rendered ctx sorted b)
      → length (
          join_parts ctx sorted
            (status_text_of ctx sorted status)
            true
            (drop j (rendered ctx sorted b)))
        ≤ limit
      → (i : ℕ) × ((i ≤ j)
          × (render ctx sorted limit status b
              ≡ join_parts ctx sorted
                  (status_text_of ctx sorted status)
                  true
                  (drop i (rendered ctx sorted b))))
  unfolding render
  render-longest limit status b j long below fits =
      let e : leb
            (length (
              join_parts ctx sorted (status_text_of ctx sorted status) false
                (rendered ctx sorted b)))
            limit
          ≡ false =
        ground arith in
      let r = shorten-longest limit status (rendered ctx sorted b) j below fits in
      (r.0, (r.1.0, rw (e, r.1.1)))
