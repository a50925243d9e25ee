-- ===== src/Core/BasicBarrier/Rounds.antt =====
-- Threads that arrive one after another.
use ustevent.Prelude.{
  ℕ, zero, suc, ◌+◌, ◌-◌, ◌%◌, ◌^◌, ◌<◌, ◌≡◌, ◌∙◌, refl, arith, ap, subst, Bool, true, false, not,
  List, [], ◌∷◌, ◌++◌, replicate, ◌==◌,
}
use ustevent.Core.BasicBarrier.{BasicBarrier, arrive, goes_on}

-- The results of `n` calls, and the state.
abbrev pub arrivals : ℕ → BasicBarrier → List Bool × BasicBarrier
arrivals zero b = ([], b)
arrivals (suc n) b =
    let (now, b') = arrive b in let (later, b'') = arrivals n b' in (now ∷ later, b'')

abbrev pub counting : ℕ → ℕ → ℕ → BasicBarrier
counting n k g = record { threshold = n; count = k; generation = g }

pub not_last :
    (n k g : ℕ)
    → suc (suc k) < 2 ^ 64
    → arrive (counting n (suc (suc k)) g) ≡ (false, counting n (suc k) g)
unfolding arrive
not_last n k g h =
    let e : (suc (suc k) + (2 ^ 64 - 1)) % 2 ^ 64 ≡ suc k = omega arith in
    let z : (suc k == 0) ≡ false = ground arith in rw (e, z) refl

pub last_one : (n g : ℕ) → arrive (counting n 1 g) ≡ (true, counting n n ((g + 1) % 2 ^ 64))
unfolding arrive
last_one n g = refl

-- Of as many threads as the barrier waits for, the last one to arrive gets true and starts the next generation with a
-- full count; the others wait.
pub arrivals_lem :
    (n k g : ℕ)
    → suc k < 2 ^ 64
    → arrivals (suc k) (counting n (suc k) g)
      ≡ (replicate k false ++ true ∷ [], counting n n ((g + 1) % 2 ^ 64))
arrivals_lem n zero g h = ap (λ u. (u.0 ∷ [], u.1)) (last_one n g)
arrivals_lem n (suc k) g h =
    ap (λ u. let r = arrivals (suc k) u.1 in (u.0 ∷ r.0, r.1)) (not_last n k g h)
    ∙ ap (λ r. (false ∷ r.0, r.1)) (arrivals_lem n k g (omega arith))

keeps_generation :
    (n k m g : ℕ)
    → suc m + k < 2 ^ 64
    → (arrivals k (counting n (suc m + k) g)).1 ≡ counting n (suc m) g
keeps_generation n zero m g h = ap (λ x. counting n x g) (omega arith)
keeps_generation n (suc k) m g h =
    let e : suc m + suc k ≡ suc (suc (m + k)) = omega arith in
    let f : suc (m + k) ≡ suc m + k = omega arith in
    rw (e, not_last n (m + k) g (omega arith), f) (keeps_generation n k m g (omega arith))

-- A thread that waits in generation `g` goes on when the last of the `n` threads has arrived, and not while fewer have.
pub goes_on-arrivals :
    (n k g : ℕ)
    → k < n
    → n < 2 ^ 64
    → g < 2 ^ 64
    → (goes_on (arrivals k (counting n n g)).1 g ≡ false)
      × (goes_on (arrivals n (counting n n g)).1 g ≡ true)
unfolding goes_on
goes_on-arrivals n k g p q r =
    let e : suc (n - suc k) + k ≡ n = omega arith in
    let f : suc (n - 1) ≡ n = omega arith in
    let before =
      subst (λ x. (arrivals k (counting n x g)).1 ≡ counting n (suc (n - suc k)) g) e
        (keeps_generation n k (n - suc k) g (omega arith)) in
    let after =
      subst (λ x. (arrivals x (counting n x g)).1 ≡ counting n n ((g + 1) % 2 ^ 64)) f
        (ap (λ u. u.1) (arrivals_lem n (n - 1) g (omega arith))) in
    let same : not (g == g) ≡ false = ground arith in
    let next : not (g == (g + 1) % 2 ^ 64) ≡ true = ground arith in
    (rw (before, same) refl, rw (after, next) refl)
