-- ===== src/Core/SpinMutex/Moves.antt =====
-- What the steps of the threads of a SpinMutex do to its invariant.
use ustevent.Prelude.{
  ℕ, ◌≡◌, ◌∙◌, ◌⊎◌, refl, sym, subst, arith, Bool, true, false, not, Bool-cases, inl, inr, none,
  some, update, ◌==◌,
}
use ustevent.Core.SpinMutex.{
  Pc, idle, swapped, linking, spinning, critical, closing, awaiting, clearing, SpinMutex, create,
  goes,
}

-- A thread that has the lock, or that will enter when it looks at its node.
abbrev pub owns_at : Pc → Bool → Bool
owns_at critical b = true
owns_at closing b = true
owns_at awaiting b = true
owns_at spinning b = not b
owns_at _ b = false

abbrev pub owns : SpinMutex → ℕ → Bool
owns s i = owns_at (s.pc i) (s.locked i)

abbrev pub is_clearing : Pc → Bool
is_clearing clearing = true
is_clearing _ = false

abbrev pub is_linking : Pc → Bool
is_linking (linking p) = true
is_linking _ = false

pub record Inv (s : SpinMutex) : Type 0 where
  pub one : (i j : ℕ) → owns s i ≡ true → owns s j ≡ true → i ≡ j
  pub held : (i : ℕ) → s.tail ≡ none → owns s i ≡ false
  pub waits :
      (q i : ℕ)
      → s.next q ≡ some i
      → is_clearing (s.pc q) ≡ false
      → (s.pc i ≡ spinning) × (s.locked i ≡ true)
  pub single :
      (q r i : ℕ)
      → s.next q ≡ some i
      → s.next r ≡ some i
      → is_clearing (s.pc q) ≡ false
      → is_clearing (s.pc r) ≡ false
      → q ≡ r
  pub marked : (i : ℕ) → is_linking (s.pc i) ≡ true → s.locked i ≡ true

pub create-Inv : Inv create
create-Inv = record {
  one = λ i j h k. cc;
  held = λ i e. refl;
  waits = λ q i e h. cc;
  single = λ q r i e f h k. cc;
  marked = λ i h. cc;
}

module _ {s : SpinMutex} (v : Inv s) (i : ℕ) where
  open v use {one, held, waits, single, marked}

  -- A thread moves on its own, and gets no lock by it.
  pub quiet-Inv :
      (p : Pc)
      → (owns_at p (s.locked i) ≡ true → owns s i ≡ true)
      → (s.pc i ≡ spinning → (p ≡ spinning) ⊎ (s.locked i ≡ false))
      → (is_clearing (s.pc i) ≡ false)
      → (is_linking p ≡ true → s.locked i ≡ true)
      → Inv (goes s i p)
  quiet-Inv p own leave open_ link = record {
    one = λ a b h k. one a b (after a h) (after b k);
    held = λ a e. elim (Bool-cases (owns (goes s i p) a)) [
      | inl h ↦ absurd (cc (held a e, after a h))
      | inr h ↦ h
    ];
    waits = λ q a e h. elim (Bool-cases (i == a)) [
      | inl y ↦
          let i_a : i ≡ a = ground arith in
          let (at, lk) = waits q a e (before q h) in
          (
            ground (
              arith,
              leave (subst (λ x. s.pc x ≡ spinning) (sym i_a) at),
              subst (λ x. s.locked x ≡ true) (sym i_a) lk,
            ),
            lk,
          )
      | inr y ↦ ground (arith, waits q a e (before q h))
    ];
    single = λ q r a e f h k. single q r a e f (before q h) (before r k);
    marked = λ a h. elim (Bool-cases (i == a)) [
      | inl y ↦
          let i_a : i ≡ a = ground arith in subst (λ x. s.locked x ≡ true) i_a (link (ground arith))
      | inr y ↦ marked a (ground arith)
    ];
  }
    where
      after : (a : ℕ) → owns (goes s i p) a ≡ true → owns s a ≡ true
      after a h = elim (Bool-cases (i == a)) [
        | inl y ↦
            let i_a : i ≡ a = ground arith in
            subst (λ x. owns s x ≡ true) i_a
              (own (subst (λ x. owns_at p (s.locked x) ≡ true) (sym i_a) (rw y at h)))
        | inr y ↦ rw y at h
      ]

      before : (q : ℕ) → is_clearing ((goes s i p).pc q) ≡ false → is_clearing (s.pc q) ≡ false
      before q h = elim (Bool-cases (i == q)) [
        | inl y ↦
            let i_q : i ≡ q = ground arith in subst (λ x. is_clearing (s.pc x) ≡ false) i_q open_
        | inr y ↦ rw y at h
      ]

  pub tail_some-Inv : Inv (record s { tail = some i })
  tail_some-Inv = record {
    one = one;
    held = λ a e. cc;
    waits = waits;
    single = single;
    marked = marked;
  }

  -- A free lock is taken.
  pub enter-Inv : s.tail ≡ none → s.pc i ≡ idle → Inv (goes (record s { tail = some i }) i critical)
  enter-Inv free at = record {
    one = λ a b h k. mine a h ∙ sym (mine b k);
    held = λ a e. cc;
    waits = λ q a e h. ground (arith, waits q a);
    single = λ q r a e f h k. single q r a e f (ground arith) (ground arith);
    marked = λ a h. ground (arith, marked a);
  }
    where
      mine : (a : ℕ) → owns (goes (record s { tail = some i }) i critical) a ≡ true → a ≡ i
      mine a h = ground (arith, held a)

  -- The thread marks its node before it links it.
  pub mark-Inv : (p : ℕ) → s.pc i ≡ swapped p → Inv (record s { locked = update s.locked i true })
  mark-Inv p at = record {
    one = λ a b h k. one a b (same a h) (same b k);
    held = λ a e. ground (arith, held a);
    waits = λ q a e h. ground (arith, waits q a);
    single = single;
    marked = λ a h. ground (arith, marked a);
  }
    where
      same :
          (a : ℕ) → owns (record s { locked = update s.locked i true }) a ≡ true → owns s a ≡ true
      same a h = ground arith

  -- It links its node, which is marked.
  pub link-Inv :
      (p : ℕ)
      → s.pc i ≡ linking p
      → Inv (goes (record s { next = update s.next p (some i) }) i spinning)
  link-Inv p at = record {
    one = λ a b h k. one a b (same a h) (same b k);
    held = λ a e. ground (arith, held a, marked i);
    waits = λ q a e h. elim (Bool-cases (p == q)) [
      | inl y ↦ ground (arith, marked i)
      | inr y ↦ ground (arith, waits q a)
    ];
    single = λ q r a e f h k. elim (Bool-cases (p == q)) [
      | inl y ↦ elim (Bool-cases (p == r)) [
        | inl z ↦ ground arith
        | inr z ↦ absurd (ground (arith, waits r i))
      ]
      | inr y ↦ elim (Bool-cases (p == r)) [
        | inl z ↦ absurd (ground (arith, waits q i))
        | inr z ↦ single q r a (ground arith) (ground arith) (ground arith) (ground arith)
      ]
    ];
    marked = λ a h. ground (arith, marked a);
  }
    where
      same :
          (a : ℕ)
          → owns (goes (record s { next = update s.next p (some i) }) i spinning) a ≡ true
          → owns s a ≡ true
      same a h = ground (arith, marked i)

  -- The last in the queue gives the lock back.
  pub release-Inv : s.pc i ≡ closing → Inv (goes (record s { tail = none }) i idle)
  release-Inv at = record {
    one = λ a b h k. absurd (ground (arith, none_left a));
    held = λ a e. none_left a;
    waits = λ q a e h. ground (arith, waits q a);
    single = λ q r a e f h k. single q r a e f (ground arith) (ground arith);
    marked = λ a h. ground (arith, marked a);
  }
    where
      none_left : (a : ℕ) → owns (goes (record s { tail = none }) i idle) a ≡ false
      none_left a = ground (arith, one a i)

  -- The lock goes to the next in the queue.
  pub hand-Inv :
      (j : ℕ)
      → s.pc i ≡ awaiting
      → s.next i ≡ some j
      → Inv (goes (record s { locked = update s.locked j false }) i clearing)
  hand-Inv j at e' = record {
    one = λ a b h k. mine a h ∙ sym (mine b k);
    held = λ a e. absurd (ground (arith, held i));
    waits = λ q a e h. ground (arith, waits q a, single q i j);
    single = λ q r a e f h k. single q r a e f (ground arith) (ground arith);
    marked = λ a h. ground (arith, marked a, waits i j);
  }
    where
      mine :
          (a : ℕ)
          → owns (goes (record s { locked = update s.locked j false }) i clearing) a ≡ true
          → a ≡ j
      mine a h = ground (arith, one a i)

  pub clear-Inv : s.pc i ≡ clearing → Inv (goes (record s { next = update s.next i none }) i idle)
  clear-Inv at = record {
    one = λ a b h k. one a b (ground arith) (ground arith);
    held = λ a e. ground (arith, held a);
    waits = λ q a e h. ground (arith, waits q a);
    single =
        λ q r a e f h k. single q r a (ground arith) (ground arith) (ground arith) (ground arith);
    marked = λ a h. ground (arith, marked a);
  }
