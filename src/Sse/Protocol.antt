-- ===== src/Sse/Protocol.antt =====
-- What a reader of the event stream relies on: blocks are opened under consecutive indices, and a
-- delta or a stop names a block that is open, the delta one of its own kind.
use liberated_claude_code.Prelude.{
  ℕ, suc, Bool, true, false, List, [], ◌∷◌, ◌++◌, Option, none, some, ◌≡◌, ◌≢◌, ◌≤◌, ◌⊎◌, refl,
  arith, ◌==◌, if◌then◌else◌, inl, inr, Option-cases,
}
use liberated_claude_code.Sse.Builder.{
  Block, Delta, SseEvent, thinking_block, text_block, tool_use_block, thinking_delta, text_delta,
  input_json_delta, content_block_start, content_block_delta, content_block_stop,
}

pub data Kind : Type 0 where
  thinking text tool : Kind

pub record Reader : Type 0 where
  pub next : ℕ
  pub kind : ℕ → Option Kind

abbrev pub fresh : Reader
fresh = record { next = 0; kind = λ i. none }

abbrev pub block_kind : Block → Kind
block_kind thinking_block = thinking
block_kind text_block = text
block_kind (tool_use_block id name) = tool

abbrev pub delta_kind : Delta → Kind
delta_kind (thinking_delta t) = thinking
delta_kind (text_delta t) = text
delta_kind (input_json_delta t) = tool

abbrev pub same_kind : Kind → Kind → Bool
same_kind thinking thinking = true
same_kind text text = true
same_kind tool tool = true
same_kind _ _ = false

abbrev pub update : ℕ → Option Kind → (ℕ → Option Kind) → ℕ → Option Kind
update i v f j = if i == j then v else f j

abbrev accept_delta : Option Kind → Kind → Reader → Option Reader
accept_delta none k r = none
accept_delta (some j) k r = if same_kind j k then some r else none

abbrev accept_stop : Option Kind → ℕ → Reader → Option Reader
accept_stop none i r = none
accept_stop (some k) i r = some (record r { kind = update i none r.kind })

unfoldable pub accept : SseEvent → Reader → Option Reader
accept (content_block_start (some i) block) r =
    if i == r.next
    then some (record { next = suc r.next; kind = update i (some (block_kind block)) r.kind })
    else none
accept (content_block_delta (some i) delta) r = accept_delta (r.kind i) (delta_kind delta) r
accept (content_block_stop (some i)) r = accept_stop (r.kind i) i r
accept _ r = none

unfoldable pub accepts : List SseEvent → Reader → Option Reader
accepts [] r = some r
accepts (e ∷ es) r = elim (accept e r) [ none ↦ none | some r' ↦ accepts es r' ]

pub accepts-append :
    (es fs : List SseEvent) (r r' : Reader)
    → accepts es r ≡ some r'
    → accepts (es ++ fs) r ≡ accepts fs r'
unfolding accepts
accepts-append [] fs r r' h = ground (arith, h)
accepts-append (e ∷ es) fs r r' h = elim (Option-cases (accept e r)) [
  | inl p ↦ ground (arith, p, h)
  | inr (q, p) ↦
      let h' : accepts es q ≡ some r' = ground (arith, p, h) in
      rw (p, accepts) (accepts-append es fs q r' h')
]

abbrev pub opened : Kind → Reader → Reader
opened k r = record { next = suc r.next; kind = update r.next (some k) r.kind }

abbrev pub closed : ℕ → Reader → Reader
closed i r = record r { kind = update i none r.kind }

-- No block is open from the next index on.
abbrev pub IsBounded : Reader → Type 0
IsBounded r = (i : ℕ) → r.next ≤ i → r.kind i ≡ none

module _ (k : Kind) (r : Reader) (h : IsBounded r) where
  pub opened_keeps : (i : ℕ) (j : Kind) → r.kind i ≡ some j → (opened k r).kind i ≡ some j
  opened_keeps i j e = ground (arith, h i, e)

  pub opened_here : (opened k r).kind r.next ≡ some k
  opened_here = ground arith

  pub opened_cases :
      (i : ℕ) (j : Kind)
      → (opened k r).kind i ≡ some j
      → ((i ≡ r.next) × (j ≡ k)) ⊎ (r.kind i ≡ some j)
  opened_cases i j e = ground (arith, e)

  pub opened-IsBounded : IsBounded (opened k r)
  opened-IsBounded i l = ground (arith, h i)

module _ (i : ℕ) (r : Reader) where
  pub closed_keeps : (j : ℕ) (k : Kind) → i ≢ j → r.kind j ≡ some k → (closed i r).kind j ≡ some k
  closed_keeps j k n e = ground (arith, n, e)

  pub closed_cases :
      (j : ℕ) (k : Kind) → (closed i r).kind j ≡ some k → (i ≢ j) × (r.kind j ≡ some k)
  closed_cases j k e = ground (arith, e)

  pub closed-IsBounded : IsBounded r → IsBounded (closed i r)
  closed-IsBounded h j l = ground (arith, h j)

pub accepts_stop :
    (o : Option ℕ) (i : ℕ) (k : Kind) (r : Reader)
    → o ≡ some i
    → r.kind i ≡ some k
    → accepts (content_block_stop o ∷ []) r ≡ some (closed i r)
unfolding accepts accept
accepts_stop o i k r e h = ground (arith, e, h)

same_kind_refl : (k : Kind) → same_kind k k ≡ true
same_kind_refl thinking = refl
same_kind_refl text = refl
same_kind_refl tool = refl

pub accepts_delta :
    (o : Option ℕ) (i : ℕ) (d : Delta) (r : Reader)
    → o ≡ some i
    → r.kind i ≡ some (delta_kind d)
    → accepts (content_block_delta o d ∷ []) r ≡ some r
unfolding accepts accept
accepts_delta o i d r e h = ground (arith, e, h, same_kind_refl (delta_kind d))

pub whole_block_accepts :
    (block : Block) (delta : Delta) (n : ℕ) (r : Reader)
    → r.next ≡ n
    → delta_kind delta ≡ block_kind block
    → accepts
        (content_block_start (some n) block
          ∷ content_block_delta (some n) delta
          ∷ content_block_stop (some n)
          ∷ [])
        r
      ≡ some (closed n (opened (block_kind block) r))
unfolding accepts accept
whole_block_accepts block delta n r e same =
    ground (arith, same_kind_refl (block_kind block), e, same)
