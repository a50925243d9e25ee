-- ===== src/Core/SpinMutex/Stuck.antt =====
-- An unlock of a SpinMutex whose successor has linked itself already.
use ustevent.Prelude.{
  ℕ, ◌≡◌, ◌≢◌, refl, sym, subst, arith, false, Bool-cases, inl, inr, Option, none, some,
  Option-cases, ◌==◌,
}
use ustevent.Core.SpinMutex.{
  Pc, idle, swapped, linking, spinning, critical, closing, awaiting, clearing, SpinMutex, create,
  goes, behind, lock, try_lock, try_lock_at, advance, advance_from, Step, locks, tries, advances,
  Reach, here, next_step,
}
use ustevent.Core.SpinMutex.Moves.{owns, owns_at, Inv}
use ustevent.Core.SpinMutex.Invariant.{Step-Inv, Reach-Inv}

-- Nobody has the lock, and it is not free.
record Dead (s : SpinMutex) : Type 0 where
  nobody : (k : ℕ) → owns s k ≡ false
  taken : s.tail ≢ none

module _ {s : SpinMutex} (v : Inv s) (d : Dead s) (i : ℕ) where
  -- A thread moves on its own, and gets no lock by it.
  moved-Dead : (p : Pc) → owns_at p (s.locked i) ≡ false → Dead (goes s i p)
  moved-Dead p h = record {
    nobody = λ k. elim (Bool-cases (i == k)) [
      | inl e ↦
          let i_k : i ≡ k = ground arith in rw e (subst (λ x. owns_at p (s.locked x) ≡ false) i_k h)
      | inr e ↦ rw e (d.nobody k)
    ];
    taken = d.taken;
  }

  lock-Dead : Dead (lock s i)
  unfolding lock
  lock-Dead = elim (Option-cases s.tail) [
    | inl e ↦ absurd (d.taken e)
    | inr (p, e) ↦
        subst (λ o. Dead (goes (record s { tail = some i }) i (behind o))) (sym e)
          (record { nobody = λ k. ground (arith, d.nobody k); taken = λ h. cc })
  ]

  try_lock_at-Dead : (o : Option ℕ) → s.tail ≡ o → Dead (try_lock_at s i o)
  unfolding try_lock_at
  try_lock_at-Dead none e = absurd (d.taken e)
  try_lock_at-Dead (some p) e = d

  advance_from-Dead : (p : Pc) → s.pc i ≡ p → Dead (advance_from s i p)
  unfolding advance_from
  advance_from-Dead idle at = d
  advance_from-Dead (swapped p) at = record {
    nobody = λ k. ground (arith, d.nobody k);
    taken = d.taken;
  }
  advance_from-Dead (linking p) at = record {
    nobody = λ k. ground (arith, d.nobody k, v.marked i);
    taken = d.taken;
  }
  advance_from-Dead spinning at = elim (Bool-cases (s.locked i)) [
    | inl e ↦ rw e d
    | inr e ↦ absurd (ground (arith, d.nobody i))
  ]
  advance_from-Dead critical at = absurd (ground (arith, d.nobody i))
  advance_from-Dead closing at = absurd (ground (arith, d.nobody i))
  advance_from-Dead awaiting at = absurd (ground (arith, d.nobody i))
  advance_from-Dead clearing at = record {
    nobody = λ k. ground (arith, d.nobody k);
    taken = d.taken;
  }

Step-Dead : {s t : SpinMutex} → Step s t → Inv s → Dead s → Dead t
unfolding try_lock advance
Step-Dead (locks i at) v d = lock-Dead v d i
Step-Dead {s} (tries i at) v d = try_lock_at-Dead v d i s.tail refl
Step-Dead {s} (advances i) v d = advance_from-Dead v d i (s.pc i) refl

Reach-Dead : {s t : SpinMutex} → Reach s t → Inv s → Dead s → Inv t × Dead t
Reach-Dead here v d = (v, d)
Reach-Dead (next_step r st) v d =
    let (v', d') = Reach-Dead r v d in (Step-Inv st v', Step-Dead st v' d')

-- The step of unlock by a thread whose successor has linked itself.
unlocked-Dead :
    {s : SpinMutex} → Inv s → (i j : ℕ) → s.pc i ≡ critical → s.next i ≡ some j → Dead (advance s i)
unfolding advance advance_from
unlocked-Dead {s} v i j at linked = rw at (
    rw linked
      (record { nobody = λ k. ground (arith, v.one k i); taken = λ e. ground (arith, v.held i) }))

-- When a thread unlocks after its successor has linked itself, the lock is lost: whatever the
-- threads do from then on, none ever has it again.
pub Reach-lost :
    {s t : SpinMutex} (i j k : ℕ)
    → Reach create s
    → s.pc i ≡ critical
    → s.next i ≡ some j
    → Reach (advance s i) t
    → owns t k ≡ false
Reach-lost i j k r at linked later =
    let v = Reach-Inv r in
    let (_, d) = Reach-Dead later (Step-Inv (advances i) v) (unlocked-Dead v i j at linked) in
    d.nobody k
