-- ===== src/Sse/Slots.antt =====
-- Which block each started tool holds.
use liberated_claude_code.Prelude.{
  ℕ, ◌≡◌, refl, sym, ◌∙◌, ◌⊎◌, inl, inr, true, false, List, [], ◌∷◌, Option, none, some, arith,
  ◌==◌, if◌then◌else◌, Bool-cases, some_eq, none≢some,
}
use liberated_claude_code.Sse.Tools.{ToolCallState, ToolStates, get_tool, put_tool}
use liberated_claude_code.Sse.Protocol.{Reader, Kind, tool}

-- `some o` for a started tool with block index `o`.
abbrev pub slot : ToolCallState → Option (Option ℕ)
slot s = if s.started then some s.block_index else none

abbrev pub Slots : Type 0
Slots = List (ℕ × Option (Option ℕ))

abbrev pub slots : ToolStates → Slots
slots [] = []
slots ((k, s) ∷ d) = (k, slot s) ∷ slots d

unfoldable pub get_slot : ℕ → Slots → Option (Option (Option ℕ))
get_slot k [] = none
get_slot k ((j, s) ∷ d) = if j == k then some s else get_slot k d

unfoldable pub put_slot : ℕ → Option (Option ℕ) → Slots → Slots
put_slot k s [] = (k, s) ∷ []
put_slot k s ((j, t) ∷ d) = if j == k then (j, s) ∷ d else (j, t) ∷ put_slot k s d

pub slots-put_tool :
    (k : ℕ) (s : ToolCallState) (d : ToolStates)
    → slots (put_tool k s d) ≡ put_slot k (slot s) (slots d)
unfolding put_tool put_slot
slots-put_tool k s [] = refl
slots-put_tool k s ((j, t) ∷ d) = ground (arith, slots-put_tool k s d)

pub get_slot-slots :
    (k : ℕ) (d : ToolStates) (s : ToolCallState)
    → get_tool k d ≡ some s
    → get_slot k (slots d) ≡ some (slot s)
unfolding get_tool get_slot
get_slot-slots k [] s e = cc
get_slot-slots k ((j, t) ∷ d) s e = ground (arith, get_slot-slots k d s)

pub put_slot_same :
    (k : ℕ) (x : Option (Option ℕ)) (d : Slots) → get_slot k d ≡ some x → put_slot k x d ≡ d
unfolding get_slot put_slot
put_slot_same k x [] e = cc
put_slot_same k x ((j, t) ∷ d) e = ground (arith, put_slot_same k x d)

abbrev pub IsOpenAt : Reader → Option ℕ → Kind → Type 0
IsOpenAt r o k = (i : ℕ) × (o ≡ some i) × (r.kind i ≡ some k)

abbrev pub SlotOpen : Reader → Option (Option ℕ) → Type 0
SlotOpen r none = Unit {0}
SlotOpen r (some o) = IsOpenAt r o tool

-- Each started tool holds an open block.
abbrev pub SlotsOpen : Reader → Slots → Type 0
SlotsOpen r [] = Unit {0}
SlotsOpen r ((k, x) ∷ d) = SlotOpen r x × SlotsOpen r d

abbrev pub Holds : ℕ → Slots → Type 0
Holds i [] = ⊥
Holds i ((k, x) ∷ d) = (x ≡ some (some i)) ⊎ Holds i d

-- No two tools hold one block, and no key stands twice.
abbrev pub SlotsApart : Slots → Type 0
SlotsApart [] = Unit {0}
SlotsApart ((k, x) ∷ d) =
    ((i : ℕ) → x ≡ some (some i) → ¬ Holds i d) × (get_slot k d ≡ none) × SlotsApart d

-- The tool blocks that are open for one reader are open for the other.
abbrev pub MoreTools : Reader → Reader → Type 0
MoreTools r r' = (i : ℕ) → r.kind i ≡ some tool → r'.kind i ≡ some tool

SlotOpen-mono :
    (r r' : Reader) (x : Option (Option ℕ)) → MoreTools r r' → SlotOpen r x → SlotOpen r' x
SlotOpen-mono r r' none m h = tt
SlotOpen-mono r r' (some o) m (i, e, h) = (i, e, m i h)

pub SlotsOpen-mono : (r r' : Reader) (d : Slots) → MoreTools r r' → SlotsOpen r d → SlotsOpen r' d
SlotsOpen-mono r r' [] m h = tt
SlotsOpen-mono r r' ((k, x) ∷ d) m h = (SlotOpen-mono r r' x m h.0, SlotsOpen-mono r r' d m h.1)

pub SlotsOpen-put :
    (r : Reader) (k : ℕ) (x : Option (Option ℕ)) (d : Slots)
    → SlotOpen r x
    → SlotsOpen r d
    → SlotsOpen r (put_slot k x d)
unfolding put_slot
SlotsOpen-put r k x [] o h = (o, tt)
SlotsOpen-put r k x ((j, y) ∷ d) o h = elim (Bool-cases (j == k)) [
  | inl e ↦ rw e (o, h.1)
  | inr e ↦ rw e (h.0, SlotsOpen-put r k x d o h.1)
]

pub Holds-put :
    (i k : ℕ) (x : Option (Option ℕ)) (d : Slots)
    → Holds i (put_slot k x d)
    → (x ≡ some (some i)) ⊎ Holds i d
unfolding put_slot
Holds-put i k x [] h = h
Holds-put i k x ((j, y) ∷ d) h = elim (Bool-cases (j == k)) [
  | inl e ↦
      let h' : (x ≡ some (some i)) ⊎ Holds i d = rw e at h in
      elim h' [ inl p ↦ inl p | inr p ↦ inr (inr p) ]
  | inr e ↦
      let h' : (y ≡ some (some i)) ⊎ Holds i (put_slot k x d) = rw e at h in
      elim h' [
        | inl p ↦ inr (inl p)
        | inr p ↦ elim (Holds-put i k x d p) [ inl q ↦ inl q | inr q ↦ inr (inr q) ]
      ]
]

get_slot-put_ne :
    (j k : ℕ) (x : Option (Option ℕ)) (d : Slots)
    → (j == k) ≡ false
    → get_slot j (put_slot k x d) ≡ get_slot j d
unfolding get_slot put_slot
get_slot-put_ne j k x [] e = ground arith
get_slot-put_ne j k x ((i, y) ∷ d) e = ground (arith, get_slot-put_ne j k x d e)

-- A slot is given the block `n`, which no tool holds, or none.
pub SlotsApart-put :
    (k : ℕ) (x : Option (Option ℕ)) (d : Slots)
    → ((n : ℕ) → x ≡ some (some n) → ¬ Holds n d)
    → SlotsApart d
    → SlotsApart (put_slot k x d)
unfolding put_slot get_slot
SlotsApart-put k x [] f h = ((λ i e hold. hold), refl, tt)
SlotsApart-put k x ((j, y) ∷ d) f h = elim (Bool-cases (j == k)) [
  | inl e ↦ rw e ((λ i p hold. f i p (inr hold)), h.1, h.2)
  | inr e ↦ rw e (
    (λ i p hold. elim (Holds-put i k x d hold) [ inl q ↦ f i q (inl p) | inr q ↦ h.0 i p q ]),
    get_slot-put_ne j k x d e ∙ h.1,
    SlotsApart-put k x d (λ n p hold. f n p (inr hold)) h.2,
  )
]

pub Holds-put_self : (k i : ℕ) (d : Slots) → Holds i (put_slot k (some (some i)) d)
unfolding put_slot
Holds-put_self k i [] = inl refl
Holds-put_self k i ((j, y) ∷ d) = elim (Bool-cases (j == k)) [
  | inl e ↦ rw e (inl refl)
  | inr e ↦ rw e (inr (Holds-put_self k i d))
]

-- The slot of `k` holds no block.
abbrev pub IsFree : ℕ → Slots → Type 0
IsFree k d = (x : Option (Option ℕ)) → get_slot k d ≡ some x → x ≡ none

IsFree-head :
    (k j : ℕ) (y : Option (Option ℕ)) (d : Slots)
    → IsFree k ((j, y) ∷ d)
    → (j == k) ≡ true
    → y ≡ none
unfolding get_slot
IsFree-head k j y d f e = f y (rw e refl)

IsFree-tail :
    (k j : ℕ) (y : Option (Option ℕ)) (d : Slots)
    → IsFree k ((j, y) ∷ d)
    → (j == k) ≡ false
    → IsFree k d
unfolding get_slot
IsFree-tail k j y d f e x g = f x (rw e g)

pub Holds-put_keep :
    (i k : ℕ) (x : Option (Option ℕ)) (d : Slots)
    → IsFree k d
    → Holds i d
    → Holds i (put_slot k x d)
unfolding put_slot
Holds-put_keep i k x [] f h = elim h [ ]
Holds-put_keep i k x ((j, y) ∷ d) f h = elim (Bool-cases (j == k)) [
  | inl e ↦
      rw e
        (elim h [ inl p ↦ absurd (none≢some (sym (IsFree-head k j y d f e) ∙ p)) | inr p ↦ inr p ])
  | inr e ↦
      rw e (elim h [
        | inl p ↦ inl p
        | inr p ↦ inr (Holds-put_keep i k x d (IsFree-tail k j y d f e) p)
      ])
]

pub Holds-open : (r : Reader) (i : ℕ) (d : Slots) → SlotsOpen r d → Holds i d → r.kind i ≡ some tool
Holds-open r i [] o h = elim h [ ]
Holds-open r i ((k, x) ∷ d) o (inl e) =
    let (j, p, q) : SlotOpen r (some (some i)) = rw e at o.0 in rw (some_eq p) q
Holds-open r i ((k, x) ∷ d) o (inr h) = Holds-open r i d o.1 h

pub SlotsOpen-get :
    (r : Reader) (k : ℕ) (x : Option (Option ℕ)) (d : Slots)
    → SlotsOpen r d
    → get_slot k d ≡ some x
    → SlotOpen r x
unfolding get_slot
SlotsOpen-get r k x [] o e = absurd (none≢some e)
SlotsOpen-get r k x ((j, y) ∷ d) o e = elim (Bool-cases (j == k)) [
  | inl h ↦ let same : some y ≡ some x = rw h at e in rw (← some_eq same) o.0
  | inr h ↦ SlotsOpen-get r k x d o.1 (rw h at e)
]
