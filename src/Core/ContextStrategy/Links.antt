-- ===== src/Core/ContextStrategy/Links.antt =====
-- The links of one list of waiting fibers.
use ustevent.Prelude.{
  ℕ, ◌≤◌, ◌≡◌, ◌∙◌, refl, subst, arith, true, false, Bool-cases, inl, inr, Option, none, some, List,
  [], ◌∷◌, done, ◌==◌, length,
}
use ustevent.Core.FiberDebugInfo.{backtrace_size}
use ustevent.Core.ListNodeAllocator.Chains.{has, Distinct, Below-le, last}
use ustevent.Core.ContextStrategy.{Infos, append_waiting, erase_backtrace, unlink}
use ustevent.Core.ContextStrategy.Chains.{Doubly, remove, Doubly-frame, cut}
use ustevent.Core.ContextStrategy.Waiting.{Table, Tracked}

-- The last node after one is taken out.
pub last-remove_end :
    (m : Infos) (d a p : ℕ) (qs : List ℕ)
    → Doubly m p qs
    → Distinct (p ∷ qs)
    → has d qs ≡ true
    → (m d).prev ≡ some a
    → (m d).next ≡ none
    → last p (remove d qs) ≡ a
last-remove_end m d a p [] l ds h e f = absurd (ground arith)
last-remove_end m d a p (q ∷ []) l ds h e f = ground arith
last-remove_end m d a p (q ∷ r ∷ qs) l ds h e f = elim (Bool-cases (q == d)) [
  | inl e' ↦ absurd (ground arith)
  | inr e' ↦ rw e' (last-remove_end m d a q (r ∷ qs) l.2 ds.1 (ground arith) e f)
]

pub last-remove_middle :
    (m : Infos) (d b p : ℕ) (qs : List ℕ)
    → Doubly m p qs
    → has d qs ≡ true
    → (m d).next ≡ some b
    → last p (remove d qs) ≡ last p qs
last-remove_middle m d b p [] l h f = refl
last-remove_middle m d b p (q ∷ []) l h f = absurd (ground arith)
last-remove_middle m d b p (q ∷ r ∷ qs) l h f = elim (Bool-cases (q == d)) [
  | inl e' ↦ rw e' refl
  | inr e' ↦ rw e' (last-remove_middle m d b q (r ∷ qs) l.2 (ground arith) f)
]

pub append_waiting-backtrace :
    (m : Infos) (tail d x : ℕ) → (((append_waiting m tail d).0 x).backtrace) ≡ (m x).backtrace
unfolding append_waiting
append_waiting-backtrace m tail d x = ground arith

pub apart_one :
    (d : ℕ) (qs : List ℕ) → has d qs ≡ false → (a : ℕ) → has a qs ≡ true → has a (d ∷ []) ≡ false
apart_one d qs out a i = elim (Bool-cases (a == d)) [
  | inl e ↦
      let same : a ≡ d = ground arith in absurd (cc (out, subst (λ z. has z qs ≡ true) same i))
  | inr e ↦ ground arith
]

abbrev pub end : Option ℕ → ℕ → ℕ → ℕ
end none a tail = a
end (some b) a tail = tail

pub erase_backtrace-cut :
    (m : Infos) (tail d a : ℕ) (o : Option ℕ)
    → (m d).prev ≡ some a
    → (m d).next ≡ o
    → erase_backtrace m tail d ≡ done (cut m d a o, end o a tail)
unfolding erase_backtrace
erase_backtrace-cut m tail d a none p n = λ i. unlink m tail d (n i) (p i)
erase_backtrace-cut m tail d a (some b) p n = λ i. unlink m tail d (n i) (p i)

-- Other infos with the same links.
pub same_links-Tracked :
    {Q : Type 0} {m : Infos} {table : Table Q} {fresh : ℕ} {ws : ℕ → List ℕ}
    → Tracked m table fresh ws
    → (m' : Infos) (fresh' : ℕ)
    → ((a : ℕ) → ((m' a).prev ≡ (m a).prev) × ((m' a).next ≡ (m a).next))
    → ((a : ℕ) → length ((m' a).backtrace) ≡ backtrace_size)
    → fresh ≤ fresh'
    → Tracked m' table fresh' ws
same_links-Tracked {m} {fresh} {ws} tr m' fresh' same long low = record {
  kept = λ j r e. record {
    chain =
        Doubly-frame m m' r.waiting_fibers_head (ws j) (λ a i. (same a).1) (λ a i. (same a).0)
          (tr.kept j r e).chain;
    distinct = (tr.kept j r e).distinct;
    tail = (tr.kept j r e).tail;
  };
  numbered = tr.numbered;
  used = λ j r e. Below-le fresh fresh' (r.waiting_fibers_head ∷ ws j) low (tr.used j r e);
  apart = tr.apart;
  idle = λ a o. ((same a).0 ∙ (tr.idle a o).0, (same a).1 ∙ (tr.idle a o).1);
  sized = long;
}
