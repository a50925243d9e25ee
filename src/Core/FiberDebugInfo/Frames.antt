-- ===== src/Core/FiberDebugInfo/Frames.antt =====
-- updateFrame ends within its 64 entries, whatever the unwinder answers.
use mathlib.Core.Option.{some-injective}
use ustevent.Prelude.{
  All, drop, ℕ, zero, suc, ◌+◌, ◌-◌, ◌≤◌, ◌<◌, ◌≡◌, ◌∙◌, refl, arith, Bool-cases, inl, inr, Option,
  none, some, List, [], ◌∷◌, Outcome, done, ltb, ◌==◌, length, set, get_elem?, get_elem?-set_self,
  get_elem?-set_ne, length-set, lt→ltb,
}
use ustevent.Core.FiberDebugInfo.{
  Unwinder, FiberDebugInfo, backtrace_size, store_frame, clear_from, last_frame, walk, update_frame,
}

-- The call ends with more than `low` entries stored, in an array that keeps its 64.
abbrev pub Ends : ℕ → Outcome (ℕ × List ℕ) → Type 0
Ends low o =
    (j : ℕ) × (d : List ℕ) × (o ≡ done (j, d))
    × (low < j)
    × (j ≤ backtrace_size)
    × (length d ≡ backtrace_size)

stored :
    (b : List ℕ) (i : ℕ) (ip : Option ℕ)
    → length b ≡ 64
    → i < 64
    → (c : List ℕ) × (store_frame b i ip ≡ done c) × (length c ≡ 64)
unfolding store_frame
stored b i none l h = (b, ground arith, l)
stored b i (some a) l h = (set b i a, ground arith, ground (arith, length-set b i a))

-- Clearing leaves what stands below `i`, and makes the rest 0.
pub clear_from-zero :
    (rest i : ℕ) (b : List ℕ)
    → length b ≡ 64
    → i + rest ≡ 64
    → (c : List ℕ) × (clear_from rest i b ≡ done c)
      × (length c ≡ 64)
      × ((j : ℕ) → j < i → get_elem? c j ≡ get_elem? b j)
      × ((j : ℕ) → i ≤ j → j < 64 → get_elem? c j ≡ some 0)
unfolding clear_from store_frame
clear_from-zero zero i b l e = (b, refl, l, λ j h. refl, λ j h k. absurd (omega arith))
clear_from-zero (suc rest) i b l e =
    let (c, run, same_length, below, above) =
      clear_from-zero rest (suc i) (set b i 0) (ground (arith, length-set b i 0)) (omega arith) in
    (
      c,
      ground arith,
      same_length,
      λ j h. ground (arith, below j, get_elem?-set_ne b {i = i} {j = j} 0),
      λ j h k. elim (Bool-cases (i == j)) [
        | inl e' ↦
            let j_i : j ≡ i = ground arith in
            rw j_i (below i (omega arith) ∙ get_elem?-set_self b i 0 (omega arith))
        | inr ne ↦ above j (ground arith) k
      ],
    )

-- The entries from `n` on, as a list.
zeros_of :
    (n : ℕ) (b : List ℕ)
    → ((j : ℕ) → n ≤ j → j < length b → get_elem? b j ≡ some 0)
    → All (λ x. x ≡ 0) (drop n b)
zeros_of zero [] h = tt
zeros_of zero (x ∷ b) h = (
  some-injective x 0 (h 0 (omega arith) (omega arith)),
  zeros_of zero b (λ j l k. h (suc j) (omega arith) (omega arith)),
)
zeros_of (suc n) [] h = tt
zeros_of (suc n) (x ∷ b) h = zeros_of n b (λ j l k. h (suc j) (omega arith) (omega arith))

module _ (u : Unwinder) where
  open u use {Cursor, get_ip, step}

  last_frame-Ends :
      (c : Cursor) (i : ℕ) (b : List ℕ)
      → length b ≡ 64
      → suc i ≤ 64
      → Ends i (last_frame u c (suc i) b)
  unfolding last_frame
  last_frame-Ends c i b l h = elim (Bool-cases (ltb (suc i) 64)) [
    | inl e ↦
        let (d, run, m) = stored b (suc i) (get_ip c) l (ground arith) in
        (suc (suc i), d, rw e (rw run), omega arith, ground arith, m)
    | inr e ↦ (suc i, b, rw e, omega arith, h, l)
  ]

  -- The loop ends with between 1 and 64 entries stored, each in the array.
  pub walk-Ends :
      (fuel : ℕ) (c : Cursor) (i : ℕ) (b : List ℕ)
      → length b ≡ 64
      → i + suc fuel ≡ 64
      → Ends i (walk u (suc fuel) c i b)
  unfolding walk
  walk-Ends zero c i b l e =
      let (d, run, m) = stored b i (get_ip c) l (omega arith) in
      elim (Bool-cases (step c).0) [
        | inl is_last ↦ rw (run, is_last) (last_frame-Ends (step c).1 i d m (omega arith))
        | inr more ↦ (suc i, d, rw run (rw more (ground arith)), omega arith, omega arith, m)
      ]
  walk-Ends (suc fuel) c i b l e =
      let (d, run, m) = stored b i (get_ip c) l (omega arith) in
      elim (Bool-cases (step c).0) [
        | inl is_last ↦ rw (run, is_last) (last_frame-Ends (step c).1 i d m (omega arith))
        | inr more ↦
            let (j, d', run', low, high, m') =
              walk-Ends fuel (step c).1 (suc i) d m (omega arith) in
            (
              j,
              d',
              rw run (rw more (rw (lt→ltb (suc i) 64 (omega arith)) run')),
              omega arith,
              high,
              m',
            )
      ]

  -- updateFrame ends without a write outside the array: at least one and at most 64 frames are
  -- counted, the entries behind them are 0, and the links, the description and the flag stay.
  pub update_frame-Ends :
      (c : Cursor) (d : FiberDebugInfo)
      → length d.backtrace ≡ backtrace_size
      → (t : FiberDebugInfo) × (update_frame u c d ≡ done t)
        × (0 < t.size)
        × (t.size ≤ backtrace_size)
        × (length t.backtrace ≡ backtrace_size)
        × All (λ x. x ≡ 0) (drop t.size t.backtrace)
        × (t.prev ≡ d.prev)
        × (t.next ≡ d.next)
        × (t.description ≡ d.description)
        × (t.terminated ≡ d.terminated)
  unfolding update_frame
  update_frame-Ends c d l =
      let (i, b, run, low, high, m) = walk-Ends 63 c 0 d.backtrace l refl in
      let (b', run', m', _, zeros) = clear_from-zero (64 - i) i b m (omega arith) in
      (
        record d { size = i; backtrace = b' },
        rw run (rw run'),
        low,
        high,
        m',
        zeros_of i b' (λ j h k. zeros j h (omega (arith, m'))),
        refl,
        refl,
        refl,
        refl,
      )
