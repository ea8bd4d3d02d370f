-- ===== src/Limits/Window/Bounds.antt =====
-- messaging/limiter.py: how many slots a window holds.
use liberated_claude_code.Prelude.{
  ℕ, ◌+◌, ◌≤◌, ◌<◌, ◌≡◌, refl, sym, ap, ◌∙◌, inl, inr, true, false, ◌&&◌, List, [], ◌∷◌, ◌++◌,
  append-nil, append_assoc, Option, none, some, arith, ltb, leb, length, length-append,
  if◌then◌else◌, Bool-cases, some_eq, none≢some,
}
use liberated_claude_code.Limits.Window.{drop_old, wait_time, attempt}

abbrev pub noted : Option ℕ → ℕ → List ℕ → List ℕ
noted none now rest = now ∷ rest
noted (some w) now rest = rest

-- The slots that were granted at these attempts, in order, from the state `times`.
unfoldable pub granted : ℕ → ℕ → List ℕ → List ℕ → List ℕ
granted limit window [] times = []
granted limit window (now ∷ nows) times =
    let r = attempt limit window now times in
    let rest = granted limit window nows r.0 in noted r.1 now rest

-- How many of the times lie in the window that starts at `a`.
unfoldable pub in_window : ℕ → ℕ → List ℕ → ℕ
in_window window a [] = 0
in_window window a (t ∷ ts) =
    (if leb a t && ltb t (a + window) then 1 else 0) + in_window window a ts

-- The clock does not run backwards.
abbrev pub IsClock : ℕ → List ℕ → Type 0
IsClock from [] = Unit {0}
IsClock from (now ∷ nows) = (from ≤ now) × IsClock now nows

in_window-append :
    (window a : ℕ) (xs ys : List ℕ)
    → in_window window a (xs ++ ys) ≡ in_window window a xs + in_window window a ys
unfolding in_window
in_window-append window a [] ys = omega arith
in_window-append window a (x ∷ xs) ys = omega (arith, in_window-append window a xs ys)

in_window-le-length : (window a : ℕ) (xs : List ℕ) → in_window window a xs ≤ length xs
unfolding in_window
in_window-le-length window a [] = omega arith
in_window-le-length window a (x ∷ xs) = ground (arith, in_window-le-length window a xs)

-- All these times left the window by `now`.
abbrev AllOld : ℕ → ℕ → List ℕ → Type 0
AllOld window now [] = Unit {0}
AllOld window now (t ∷ ts) = (t + window ≤ now) × AllOld window now ts

AllOld-later :
    (window now later : ℕ) (ts : List ℕ)
    → now ≤ later
    → AllOld window now ts
    → AllOld window later ts
AllOld-later window now later [] h o = tt
AllOld-later window now later (t ∷ ts) h o = (omega arith, AllOld-later window now later ts h o.1)

AllOld-append :
    (window now : ℕ) (xs ys : List ℕ)
    → AllOld window now xs
    → AllOld window now ys
    → AllOld window now (xs ++ ys)
AllOld-append window now [] ys h k = k
AllOld-append window now (x ∷ xs) ys h k = (h.0, AllOld-append window now xs ys h.1 k)

-- A window that has not ended holds none of them.
in_window-AllOld :
    (window now a : ℕ) (ts : List ℕ)
    → AllOld window now ts
    → now < a + window
    → in_window window a ts ≡ 0
unfolding in_window
in_window-AllOld window now a [] o h = refl
in_window-AllOld window now a (t ∷ ts) o h = ground (arith, in_window-AllOld window now a ts o.1 h)

-- What is dropped is old.
drop_old-AllOld :
    (window now : ℕ) (ts : List ℕ)
    → (gone : List ℕ) × (ts ≡ gone ++ drop_old window now ts) × AllOld window now gone
unfolding drop_old
drop_old-AllOld window now [] = ([], refl, tt)
drop_old-AllOld window now (t ∷ ts) = elim (Bool-cases (leb (t + window) now)) [
  | inl e ↦
      let (gone, same, old) = drop_old-AllOld window now ts in
      (t ∷ gone, rw e (ap (λ r. t ∷ r) same), (ground arith, old))
  | inr e ↦ ([], rw e refl, tt)
]

-- What was granted, `past` and then what is still kept, holds no full window too many.
record Bounded (limit window now : ℕ) (past times : List ℕ) : Type 0 where
  old : AllOld window now past
  few : length times ≤ limit
  bound : (a : ℕ) → in_window window a (past ++ times) ≤ limit

Bounded-drop :
    (limit window now later : ℕ) (past times : List ℕ)
    → now ≤ later
    → Bounded limit window now past times
    → (past' : List ℕ) × (past' ++ drop_old window later times ≡ past ++ times)
      × Bounded limit window later past' (drop_old window later times)
Bounded-drop limit window now later past times h b =
    let (gone, same, o) = drop_old-AllOld window later times in
    let whole : (past ++ gone) ++ drop_old window later times ≡ past ++ times =
      append_assoc past gone _ ∙ ap (λ r. past ++ r) (sym same) in
    (
      past ++ gone,
      whole,
      record {
        old = AllOld-append window later past gone (AllOld-later window now later past h b.old) o;
        few =
            omega (arith, length-append gone (drop_old window later times), ap length same, b.few);
        bound = λ a. rw whole (b.bound a);
      },
    )

-- A slot that is granted.
Bounded-grant :
    (limit window now : ℕ) (past times : List ℕ)
    → length times < limit
    → Bounded limit window now past times
    → Bounded limit window now past (times ++ now ∷ [])
unfolding in_window
Bounded-grant limit window now past times room b = record {
  old = b.old;
  few = omega (arith, length-append times (now ∷ []));
  bound = λ a. elim (Bool-cases (leb a now && ltb now (a + window))) [
    | inl e ↦ omega (
      arith,
      in_window-append window a past (times ++ now ∷ []),
      in_window-append window a times (now ∷ []),
      one a e,
      in_window-AllOld window now a past b.old (ground arith),
      in_window-le-length window a times,
    )
    | inr e ↦ omega (
      arith,
      in_window-append window a past (times ++ now ∷ []),
      in_window-append window a times (now ∷ []),
      in_window-append window a past times,
      none_of a e,
      b.bound a,
    )
  ];
}
  where
    one : (a : ℕ) → leb a now && ltb now (a + window) ≡ true → in_window window a (now ∷ []) ≡ 1
    one a e = rw e refl

    none_of :
        (a : ℕ) → leb a now && ltb now (a + window) ≡ false → in_window window a (now ∷ []) ≡ 0
    none_of a e = rw e refl

granted-Bounded :
    (limit window now : ℕ) (nows past times : List ℕ) (a : ℕ)
    → Bounded limit window now past times
    → IsClock now nows
    → in_window window a ((past ++ times) ++ granted limit window nows times) ≤ limit
unfolding granted attempt
granted-Bounded limit window now [] past times a b c = rw append-nil (b.bound a)
granted-Bounded limit window now (later ∷ nows) past times a b c =
    let (past', whole, b') = Bounded-drop limit window now later past times c.0 b in
    let kept = drop_old window later times in
    elim (Bool-cases (ltb (length kept) limit)) [
      | inl e ↦
          let grown = Bounded-grant limit window later past' kept (ground (arith, e)) b' in
          let ih = granted-Bounded limit window later nows past' (kept ++ later ∷ []) a grown c.1 in
          let same : (past' ++ (kept ++ later ∷ []))
                ++ granted limit window nows (kept ++ later ∷ [])
              ≡ (past ++ times) ++ later ∷ granted limit window nows (kept ++ later ∷ []) =
            rw (← whole) (simp append_assoc) in
          rw (e, granted) (rw same at ih)
      | inr e ↦
          let ih = granted-Bounded limit window later nows past' kept a b' c.1 in
          rw (e, granted) (rw whole at ih)
    ]

-- Whatever the times at which a fresh limiter is tried, as long as the clock does not run
-- backwards, every half-open window of the limiter's length holds at most `limit` granted slots.
pub in_window-granted-le :
    (limit window from : ℕ) (nows : List ℕ) (a : ℕ)
    → IsClock from nows
    → in_window window a (granted limit window nows []) ≤ limit
unfolding in_window
in_window-granted-le limit window from nows a c =
    granted-Bounded limit window from nows [] [] a
      (record { old = tt; few = omega arith; bound = λ b. omega arith }) c

length-drop_old : (window now : ℕ) (ts : List ℕ) → length (drop_old window now ts) ≤ length ts
unfolding drop_old
length-drop_old window now [] = omega arith
length-drop_old window now (t ∷ ts) = ground (arith, length-drop_old window now ts)

-- A full limiter that is tried again when its oldest time has left the window.
after_oldest :
    (limit window now later : ℕ) (kept : List ℕ)
    → 0 < limit
    → length kept ≤ limit
    → ltb (length kept) limit ≡ false
    → now + wait_time window now kept ≤ later
    → length (drop_old window later kept) < limit
unfolding drop_old
after_oldest limit window now later [] pos few full h = ground arith
after_oldest limit window now later (t ∷ ts) pos few full h =
    ground (arith, length-drop_old window later ts)

-- A turn that was refused says how long to sleep: a turn at any time after that sleep, with no
-- other in between, is granted.
pub attempt_after_wait :
    (limit window now later w : ℕ) (times : List ℕ)
    → 0 < limit
    → length times ≤ limit
    → (attempt limit window now times).1 ≡ some w
    → now + w ≤ later
    → (attempt limit window later (attempt limit window now times).0).1 ≡ none
unfolding attempt
attempt_after_wait limit window now later w times pos few refused h =
    let kept = drop_old window now times in
    elim (Bool-cases (ltb (length kept) limit)) [
      | inl e ↦ absurd (none≢some (rw e at refused))
      | inr e ↦
          let same : some (wait_time window now kept) ≡ some w = rw e at refused in
          let short =
            after_oldest limit window now later kept pos
              (omega (arith, length-drop_old window now times, few)) e
              (omega (arith, some_eq same, h)) in
          rw e (ground (arith, short))
    ]
