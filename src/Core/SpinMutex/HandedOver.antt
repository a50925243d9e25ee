-- ===== src/Core/SpinMutex/HandedOver.antt =====
-- An unlock of a SpinMutex whose successor links itself in time.
use ustevent.Prelude.{ℕ, ◌≡◌, ◌∙◌, ap, arith, true, false, none, some, update, ◌==◌}
use ustevent.Core.SpinMutex.{
  Pc, swapped, linking, spinning, critical, closing, awaiting, clearing, SpinMutex, goes, leaves,
  is_node, close, hand_over, advance, advance_from,
}

-- A step from where the thread stands.
from : (s : SpinMutex) (i : ℕ) (p : Pc) → s.pc i ≡ p → advance s i ≡ advance_from s i p
unfolding advance
from s i p e = ap (advance_from s i) e

module _ (s : SpinMutex) (i j k : ℕ) (holds : s.pc i ≡ critical) (unlinked : s.next i ≡ none)
    (tail : s.tail ≡ some k) (queued : (k == i) ≡ false) (behind : s.pc j ≡ swapped i) where
  abbrev s1 : SpinMutex
  s1 = goes s i closing

  abbrev s2 : SpinMutex
  s2 = goes s1 i awaiting

  abbrev s3 : SpinMutex
  s3 = goes (record s2 { locked = update s2.locked j true }) j (linking i)

  abbrev s4 : SpinMutex
  s4 = goes (record s3 { next = update s3.next i (some j) }) j spinning

  abbrev s5 : SpinMutex
  s5 = goes (record s4 { locked = update s4.locked j false }) i clearing

  apart : (j == i) ≡ false
  apart = ground arith

  step1 : advance s i ≡ s1
  unfolding advance_from
  step1 = from s i critical holds ∙ ap (λ o. goes s i (leaves o)) unlinked

  step2 : advance s1 i ≡ s2
  unfolding advance_from close
  step2 =
      from s1 i closing (ground arith)
      ∙ ap (λ o. close s1 i (is_node o i)) tail
      ∙ ap (close s1 i) queued

  step3 : advance s2 j ≡ s3
  unfolding advance_from
  step3 = from s2 j (swapped i) (ground (arith, apart))

  step4 : advance s3 j ≡ s4
  unfolding advance_from
  step4 = from s3 j (linking i) (ground arith)

  step5 : advance s4 i ≡ s5
  unfolding advance_from hand_over
  step5 =
      let linked : s4.next i ≡ some j = ground arith in
      from s4 i awaiting (ground (arith, apart)) ∙ ap (hand_over s4 i) linked

  step6 : (advance s5 j).pc j ≡ critical
  unfolding advance_from
  step6 = ap (λ t. t.pc j) (from s5 j spinning (ground (arith, apart))) ∙ ground arith

  -- When the test of unlock finds no successor linked, but one is in the queue, unlock waits for it:
  -- once the thread that was behind has marked and linked its node, unlock hands the lock over and
  -- that thread enters.
  pub advance-enters :
      (advance (advance (advance (advance (advance (advance s i) i) j) j) i) j).pc j ≡ critical
  advance-enters =
      ap (λ t. (advance (advance (advance (advance (advance t i) j) j) i) j).pc j) step1
      ∙ ap (λ t. (advance (advance (advance (advance t j) j) i) j).pc j) step2
      ∙ ap (λ t. (advance (advance (advance t j) i) j).pc j) step3
      ∙ ap (λ t. (advance (advance t i) j).pc j) step4
      ∙ ap (λ t. (advance t j).pc j) step5
      ∙ step6
