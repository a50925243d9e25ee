-- ===== src/Core/ContextStrategy/Chains.antt =====
-- The list that _recordBacktrace and _eraseBacktrace of ContextStrategy keep: nodes linked both ways.
use ustevent.Prelude.{
  ℕ, ◌≡◌, ◌∙◌, refl, sym, subst, arith, Bool, true, false, Bool-cases, inl, inr, Option, none, some,
  List, [], ◌∷◌, ◌++◌, ◌==◌, if◌then◌else◌,
}
use ustevent.Core.ListNodeAllocator.Chains.{has, Distinct, last, has-last}
use ustevent.Core.ContextStrategy.{Infos, set_next, set_prev, append_waiting}

-- From `p` on, the nodes are linked both ways, and the last one has no successor.
abbrev pub Doubly : Infos → ℕ → List ℕ → Type 0
Doubly m p [] = (m p).next ≡ none
Doubly m p (q ∷ qs) = ((m p).next ≡ some q) × ((m q).prev ≡ some p) × Doubly m q qs

-- The list without a node.
abbrev pub remove : ℕ → List ℕ → List ℕ
remove d [] = []
remove d (q ∷ qs) = if q == d then qs else q ∷ remove d qs

pub has-remove : (a d : ℕ) (qs : List ℕ) → has a qs ≡ false → has a (remove d qs) ≡ false
has-remove a d [] h = refl
has-remove a d (q ∷ qs) h = ground (arith, has-remove a d qs)

pub has-remove_ne : (a d : ℕ) (qs : List ℕ) → (a == d) ≡ false → has a (remove d qs) ≡ has a qs
has-remove_ne a d [] h = refl
has-remove_ne a d (q ∷ qs) h = ground (arith, has-remove_ne a d qs)

pub remove-Distinct : (d : ℕ) (qs : List ℕ) → Distinct qs → Distinct (remove d qs)
remove-Distinct d [] h = tt
remove-Distinct d (q ∷ qs) h = elim (Bool-cases (q == d)) [
  | inl e ↦ rw e h.1
  | inr e ↦ rw e (has-remove q d qs h.0, remove-Distinct d qs h.1)
]

pub remove_self : (d : ℕ) (qs : List ℕ) → Distinct qs → has d (remove d qs) ≡ false
remove_self d [] h = refl
remove_self d (q ∷ qs) h = ground (arith, remove_self d qs)

pub remove_absent : (d : ℕ) (qs : List ℕ) → has d qs ≡ false → remove d qs ≡ qs
remove_absent d [] h = refl
remove_absent d (q ∷ qs) h = ground (arith, remove_absent d qs)

-- The chain reads the successors of its nodes, and the predecessors of all but the first.
pub Doubly-frame :
    (m m' : Infos) (p : ℕ) (qs : List ℕ)
    → ((a : ℕ) → has a (p ∷ qs) ≡ true → (m' a).next ≡ (m a).next)
    → ((a : ℕ) → has a qs ≡ true → (m' a).prev ≡ (m a).prev)
    → Doubly m p qs
    → Doubly m' p qs
Doubly-frame m m' p [] nexts prevs l = nexts p (ground arith) ∙ l
Doubly-frame m m' p (q ∷ qs) nexts prevs l = (
  nexts p (ground arith) ∙ l.0,
  prevs q (ground arith) ∙ l.1,
  Doubly-frame m m' q qs (λ a i. nexts a (ground arith)) (λ a i. prevs a (ground arith)) l.2,
)

-- The neighbours of a node of the chain are nodes of it.
pub Doubly-prev :
    (m : Infos) (d p : ℕ) (qs : List ℕ)
    → Doubly m p qs
    → has d qs ≡ true
    → (a : ℕ) × ((m d).prev ≡ some a) × (has a (p ∷ qs) ≡ true)
Doubly-prev m d p [] l h = absurd (ground arith)
Doubly-prev m d p (q ∷ qs) l h = elim (Bool-cases (d == q)) [
  | inl e ↦ (p, ground arith, ground arith)
  | inr e ↦ let (a, at, i) = Doubly-prev m d q qs l.2 (ground arith) in (a, at, ground arith)
]

pub Doubly-next :
    (m : Infos) (d b p : ℕ) (qs : List ℕ)
    → Doubly m p qs
    → Distinct (p ∷ qs)
    → has d (p ∷ qs) ≡ true
    → (m d).next ≡ some b
    → (has b qs ≡ true) × ((b == d) ≡ false)
Doubly-next m d b p [] l ds h e = absurd (ground arith)
Doubly-next m d b p (q ∷ qs) l ds h e = elim (Bool-cases (d == p)) [
  | inl e' ↦ ground arith
  | inr e' ↦ let (i, j) = Doubly-next m d b q qs l.2 ds.1 (ground arith) e in (ground arith, j)
]

-- The end of the chain is the node without a successor.
pub Doubly-last :
    (m : Infos) (d p : ℕ) (qs : List ℕ)
    → Doubly m p qs
    → has d (p ∷ qs) ≡ true
    → (m d).next ≡ none
    → last p qs ≡ d
Doubly-last m d p [] l h e = ground arith
Doubly-last m d p (q ∷ qs) l h e = elim (Bool-cases (d == p)) [
  | inl e' ↦ absurd (ground arith)
  | inr e' ↦ Doubly-last m d q qs l.2 (ground arith) e
]

-- A node that is outside the chain is appended.
pub append_waiting-Doubly :
    (m : Infos) (d p : ℕ) (qs : List ℕ)
    → Doubly m p qs
    → Distinct (p ∷ qs)
    → has d (p ∷ qs) ≡ false
    → (m d).next ≡ none
    → Doubly (append_waiting m (last p qs) d).0 p (qs ++ d ∷ [])
unfolding append_waiting
append_waiting-Doubly m d p [] l ds out e = (ground arith, ground arith, ground arith)
append_waiting-Doubly m d p (q ∷ qs) l ds out e = (
  ground (arith, has-last q qs),
  ground (arith, has-last q qs),
  append_waiting-Doubly m d q qs l.2 ds.1 (ground arith) e,
)

-- The links after `d` is taken from between `a` and `b`, or from behind `a` at the end.
abbrev pub cut : Infos → ℕ → ℕ → Option ℕ → Infos
cut m d a none = set_next (set_prev (set_next m a none) d none) d none
cut m d a (some b) = set_next (set_prev (set_prev (set_next m a (some b)) b (some a)) d none) d none

pub cut-next :
    (m : Infos) (d a : ℕ) (b : Option ℕ) (x : ℕ)
    → ((cut m d a b x).next) ≡ (if d == x then none else if a == x then b else (m x).next)
cut-next m d a none x = ground arith
cut-next m d a (some b) x = ground arith

-- The predecessor of the node behind `d`.
abbrev pub behind : Option ℕ → ℕ → Bool
behind none x = false
behind (some b) x = b == x

pub cut-prev :
    (m : Infos) (d a : ℕ) (b : Option ℕ) (x : ℕ)
    → ((cut m d a b x).prev) ≡ (if d == x then none else if behind b x then some a else (m x).prev)
cut-prev m d a none x = ground arith
cut-prev m d a (some b) x = ground arith

pub cut-backtrace :
    (m : Infos) (d a : ℕ) (b : Option ℕ) (x : ℕ) → ((cut m d a b x).backtrace) ≡ (m x).backtrace
cut-backtrace m d a none x = ground arith
cut-backtrace m d a (some b) x = ground arith

-- Taking out the node behind the first one.
cut-first :
    (m : Infos) (d p : ℕ) (o : Option ℕ) (qs : List ℕ)
    → Doubly m p (d ∷ qs)
    → Distinct (p ∷ d ∷ qs)
    → (m d).next ≡ o
    → Doubly (cut m d p o) p qs
cut-first m d p none [] l ds e = ground arith
cut-first m d p (some b) [] l ds e = cc (l.2)
cut-first m d p none (b ∷ qs) l ds e = cc (l.2.0)
cut-first m d p (some c) (b ∷ qs) l ds e =
    subst (λ x. Doubly (cut m d p x) p (b ∷ qs)) (sym l.2.0 ∙ e)
      (
        ground arith,
        ground arith,
        Doubly-frame m (cut m d p (some b)) b qs (λ x i. ground (arith, cut-next m d p (some b) x))
            (λ x i. ground (arith, cut-prev m d p (some b) x)) l.2.2,
      )

-- The first node of a chain is not behind another of its nodes.
behind-first :
    (m : Infos) (d p : ℕ) (o : Option ℕ) (qs : List ℕ)
    → Doubly m p qs
    → Distinct (p ∷ qs)
    → has d (p ∷ qs) ≡ true
    → (m d).next ≡ o
    → behind o p ≡ false
behind-first m d p none qs l ds h e = refl
behind-first m d p (some b) qs l ds h e =
    let (i, _) = Doubly-next m d b p qs l ds h e in
    elim (Bool-cases (b == p)) [
      | inl e' ↦
          let same : b ≡ p = ground arith in absurd (cc (ds.0, subst (λ x. has x qs ≡ true) same i))
      | inr e' ↦ e'
    ]

pub cut-Doubly :
    (m : Infos) (d a p : ℕ) (o : Option ℕ) (qs : List ℕ)
    → Doubly m p qs
    → Distinct (p ∷ qs)
    → has d qs ≡ true
    → (m d).prev ≡ some a
    → (m d).next ≡ o
    → Doubly (cut m d a o) p (remove d qs)
cut-Doubly m d a p o [] l ds h e f = absurd (ground arith)
cut-Doubly m d a p o (q ∷ qs) l ds h e f = elim (Bool-cases (q == d)) [
  | inl e' ↦
      let d_q : d ≡ q = ground arith in
      let a_p : a ≡ p = ground arith in
      rw (e', a_p)
        (cut-first m d p o qs (subst (λ x. Doubly m p (x ∷ qs)) (sym d_q) l)
          (subst (λ x. Distinct (p ∷ x ∷ qs)) (sym d_q) ds) f)
  | inr e' ↦
      let (a', at, i) = Doubly-prev m d q qs l.2 (ground arith) in
      rw e' (
        ground (arith, cut-next m d a o p),
        ground (arith, cut-prev m d a o q, behind-first m d q o qs l.2 ds.1 (ground arith) f),
        cut-Doubly m d a q o qs l.2 ds.1 (ground arith) e f,
      )
]
