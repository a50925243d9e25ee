-- ===== src/Core/SpinMutex/Invariant.antt =====
-- The states that a SpinMutex reaches.
use ustevent.Prelude.{
  ℕ, ◌≡◌, refl, sym, subst, arith, Bool, true, false, Bool-cases, inl, inr, Option, none, some,
  Option-cases,
}
use ustevent.Core.SpinMutex.{
  Pc, idle, swapped, linking, spinning, critical, closing, awaiting, clearing, SpinMutex, create,
  goes, behind, lock, try_lock, try_lock_at, leaves, is_node, close, hand_over, advance,
  advance_from, Step, locks, tries, advances, Reach, here, next_step,
}
use ustevent.Core.SpinMutex.Moves.{
  owns, Inv, create-Inv, quiet-Inv, tail_some-Inv, enter-Inv, mark-Inv, link-Inv, release-Inv,
  hand-Inv, clear-Inv,
}

lock-Inv : {s : SpinMutex} → Inv s → (i : ℕ) → s.pc i ≡ idle → Inv (lock s i)
unfolding lock
lock-Inv {s} v i at = elim (Option-cases s.tail) [
  | inl e ↦
      subst (λ o. Inv (goes (record s { tail = some i }) i (behind o))) (sym e) (enter-Inv v i e at)
  | inr (p, e) ↦
      subst (λ o. Inv (goes (record s { tail = some i }) i (behind o))) (sym e)
        (quiet-Inv (tail_some-Inv v i) i (swapped p) (λ h. cc) (λ h. absurd (ground arith))
          (rw at refl) (λ h. cc))
]

try_lock_at-Inv :
    {s : SpinMutex}
    → Inv s
    → (i : ℕ) (o : Option ℕ) → s.tail ≡ o
    → s.pc i ≡ idle
    → Inv (try_lock_at s i o)
unfolding try_lock_at
try_lock_at-Inv v i none e at = enter-Inv v i e at
try_lock_at-Inv v i (some p) e at = v

close-Inv : {s : SpinMutex} → Inv s → (i : ℕ) (b : Bool) → s.pc i ≡ closing → Inv (close s i b)
unfolding close
close-Inv v i true at = release-Inv v i at
close-Inv v i false at =
    quiet-Inv v i awaiting (λ h. rw at refl) (λ h. absurd (ground arith)) (rw at refl) (λ h. cc)

hand_over-Inv :
    {s : SpinMutex}
    → Inv s
    → (i : ℕ) (o : Option ℕ) → s.next i ≡ o
    → s.pc i ≡ awaiting
    → Inv (hand_over s i o)
unfolding hand_over
hand_over-Inv v i none e at = v
hand_over-Inv v i (some j) e at = hand-Inv v i j at e

advance_from-Inv :
    {s : SpinMutex} → Inv s → (i : ℕ) (p : Pc) → s.pc i ≡ p → Inv (advance_from s i p)
unfolding advance_from
advance_from-Inv v i idle at = v
advance_from-Inv v i (swapped p) at =
    quiet-Inv (mark-Inv v i p at) i (linking p) (λ h. cc) (λ h. absurd (ground arith)) (rw at refl)
      (λ h. ground arith)
advance_from-Inv v i (linking p) at = link-Inv v i p at
advance_from-Inv {s} v i spinning at = elim (Bool-cases (s.locked i)) [
  | inl e ↦ rw e v
  | inr e ↦ rw e (quiet-Inv v i critical (λ h. rw (at, e) refl) (λ h. inr e) (rw at refl) (λ h. cc))
]
advance_from-Inv {s} v i critical at = elim (Option-cases (s.next i)) [
  | inl e ↦
      subst (λ o. Inv (goes s i (leaves o))) (sym e)
        (quiet-Inv v i closing (λ h. rw at refl) (λ h. absurd (ground arith)) (rw at refl)
          (λ h. cc))
  | inr (j, e) ↦
      subst (λ o. Inv (goes s i (leaves o))) (sym e)
        (quiet-Inv v i idle (λ h. cc) (λ h. absurd (ground arith)) (rw at refl) (λ h. cc))
]
advance_from-Inv {s} v i closing at = close-Inv v i (is_node s.tail i) at
advance_from-Inv {s} v i awaiting at = hand_over-Inv v i (s.next i) refl at
advance_from-Inv v i clearing at = clear-Inv v i at

pub Step-Inv : {s t : SpinMutex} → Step s t → Inv s → Inv t
unfolding try_lock advance
Step-Inv (locks i at) v = lock-Inv v i at
Step-Inv {s} (tries i at) v = try_lock_at-Inv v i s.tail refl at
Step-Inv {s} (advances i) v = advance_from-Inv v i (s.pc i) refl

pub Reach-Inv : {s : SpinMutex} → Reach create s → Inv s
Reach-Inv here = create-Inv
Reach-Inv (next_step r st) = Step-Inv st (Reach-Inv r)

-- Of any number of threads that lock, try to lock and unlock in any order of their accesses, never
-- two have the lock: from the entry on until unlock gives it back or hands it over.
pub Reach-one :
    {s : SpinMutex} (i j : ℕ) → Reach create s → owns s i ≡ true → owns s j ≡ true → i ≡ j
Reach-one i j r h k = (Reach-Inv r).one i j h k
