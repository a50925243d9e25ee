-- ===== src/Core/AppendOnlyArray/Tests.antt =====
-- The theorems on the append-only array with a `clzll` that is computed.
use ustevent.Prelude.{
  ℕ, zero, suc, ◌+◌, ◌-◌, ◌*◌, ◌^◌, ◌≤◌, ◌<◌, ◌≡◌, refl, arith, Bool-cases, inl, inr, some, done,
  leb, leb→le, if◌then◌else◌,
}
use ustevent.Core.AppendOnlyArray.{AppendOnlyArray, emplace, at}
use ustevent.Core.AppendOnlyArray.Buckets.{at-emplace}

-- The place of the highest bit of a number, among the first `k + 1` bits.
top : ℕ → ℕ → ℕ
top zero x = 0
top (suc k) x = let rest = top k x in if leb (2 ^ suc k) x then suc k else rest

top_lem :
    (k x : ℕ) → 0 < x → x < 2 ^ suc k → (2 ^ top k x ≤ x) × (x < 2 * 2 ^ top k x) × (top k x ≤ k)
unfolding top
top_lem zero x p h = (omega arith, omega arith, omega arith)
top_lem (suc k) x p h = elim (Bool-cases (leb (2 ^ suc k) x)) [
  | inl e ↦ let q = leb→le (2 ^ suc k) x e in rw e (q, omega arith, omega arith)
  | inr e ↦
      let b : x < 2 ^ suc k = ground arith in
      let (l, u, t) = top_lem k x p b in rw e (l, u, omega arith)
]

clzll : ℕ → ℕ
clzll x = 63 - top 63 x

clzll_lem :
    (x : ℕ) → 0 < x → x < 2 ^ 64 → (2 ^ (64 - clzll x - 1) ≤ x) × (x < 2 * 2 ^ (64 - clzll x - 1))
unfolding clzll
clzll_lem x p h =
    let (l, u, t) = top_lem 63 x p h in
    let e : 64 - (63 - top 63 x) - 1 ≡ top 63 x = omega arith in rw e (l, u)

abbrev two : AppendOnlyArray ℕ
two = record { index = 2; size = 2; array = λ b. some (λ i. 7) }

at-emplace_example :
    (t : AppendOnlyArray ℕ) × (emplace clzll 0 two 9 ≡ done (2, t))
    × (t.size ≡ 2 + 1)
    × (t.index ≡ t.size)
    × (at clzll 0 t 2 ≡ done (some 9))
at-emplace_example = at-emplace clzll 0 clzll_lem two 9 refl (omega arith)

abbrev full : AppendOnlyArray ℕ
full = record { index = 0xFFFFFFFF; size = 0xFFFFFFFF; array = λ b. some (λ i. 7) }
