-- ===== src/Core/RingBuffer/Observe.antt =====
-- What MpscRingBuffer::consume sees of the workers.
use ustevent.Prelude.{
  ℕ, ◌^◌, ◌≤◌, ◌<◌, min, ◌≡◌, refl, ◌⊎◌, inl, inr, true, false, List, [], ◌∷◌, arith, Outcome, done,
  Bool-cases, leb, All,
}
use native.Mathlib.Decide.{dec_lt}
use ustevent.Core.RingBuffer.{Worker, observe_one, observe, is_locked}

-- What the consumer relies on of a worker: no lock bit, and no unfinished bytes among those handed.
abbrev pub Fine : ℕ → ℕ → Worker → Type 0
Fine written g w = w.registered ≡ true → (w.seen < 2 ^ 63) × ((w.seen < written) ⊎ (g ≤ w.seen))

-- No registered worker at or after `written` is before `ready`.
abbrev pub Clear : ℕ → ℕ → Worker → Type 0
Clear written ready w = w.registered ≡ true → written ≤ w.seen → ready ≤ w.seen

module _ (written g ready : ℕ) (w : Worker) (on : w.registered ≡ true)
    (small : w.seen < 2 ^ 63) where
  unlocked : is_locked w.seen ≡ false
  unlocked = ground arith

  observe_one-before : w.seen < written → written ≤ ready → observe_one written w ready ≡ done ready
  unfolding observe_one
  observe_one-before h p = rw (on, unlocked, before, above) refl
    where
      before : leb written w.seen ≡ false
      before = ground arith

      above : leb written ready ≡ true
      above = ground arith

  observe_one-after :
      written ≤ w.seen → written ≤ ready → observe_one written w ready ≡ done (min w.seen ready)
  unfolding observe_one
  observe_one-after h p = rw (on, unlocked, after, above) refl
    where
      after : leb written w.seen ≡ true
      after = ground arith

      above : leb written (min w.seen ready) ≡ true
      above = ground arith

observe_one-off :
    (written ready : ℕ) (w : Worker)
    → w.registered ≡ false
    → observe_one written w ready ≡ done ready
unfolding observe_one
observe_one-off written ready w off = rw off refl

-- What the loop over the workers has found: `k` is not before what was handed out already, and no
-- registered worker from `written` on is before `k`.
abbrev Observed : ℕ → ℕ → ℕ → List Worker → Outcome ℕ → Type 0
Observed written g ready ws out =
    (k : ℕ) × (out ≡ done k) × (g ≤ k) × (k ≤ ready) × All (Clear written k) ws

observe_one_lem :
    (written g ready : ℕ) (w : Worker)
    → Fine written g w
    → written ≤ g
    → g ≤ ready
    → Observed written g ready (w ∷ []) (observe_one written w ready)
observe_one_lem written g ready w f h p = elim (Bool-cases w.registered) [
  | inr off ↦ (ready, observe_one-off written ready w off, p, omega arith, ((λ on. cc), tt))
  | inl on ↦ elim (dec_lt w.seen written) [
    | yes q ↦ (
      ready,
      observe_one-before written g ready w on (f on).0 q (omega arith),
      p,
      omega arith,
      ((λ _ t. absurd (omega arith)), tt),
    )
    | no q ↦ (
      min w.seen ready,
      observe_one-after written g ready w on (f on).0 (omega arith) (omega arith),
      omega (arith, (f on).1),
      omega arith,
      ((λ _ t. omega arith), tt),
    )
  ]
]

-- The loop ends, with no assertion failed.
pub observe-Observed :
    (written g ready : ℕ) (ws : List Worker)
    → All (Fine written g) ws
    → written ≤ g
    → g ≤ ready
    → Observed written g ready ws (observe written ws ready)
unfolding observe
observe-Observed written g ready [] f h p = (ready, refl, p, omega arith, tt)
observe-Observed written g ready (w ∷ ws) f h p =
    let (k, e, p', q, c) = observe_one_lem written g ready w f.0 h p in
    let (k', e', p'', q', c') = observe-Observed written g k ws f.1 h p' in
    (k', rw e e', p'', omega arith, ((λ on t. omega (arith, c.0 on t)), c'))
