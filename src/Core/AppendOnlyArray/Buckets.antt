-- ===== src/Core/AppendOnlyArray/Buckets.antt =====
-- The bucket and the place of an index, and what is found there.
use native.Mathlib.Nat.{pow-le-pow_right}
use ustevent.Prelude.{
  ℕ, suc, ◌+◌, ◌-◌, ◌*◌, ◌^◌, ◌≤◌, ◌<◌, ◌≡◌, ◌∙◌, refl, sym, ap, arith, true, false, Bool-cases,
  inl, inr, some, update, done, fault, ltb, leb, ltb→lt, leb→le, ◌==◌,
}
use ustevent.Core.AppendOnlyArray.{
  AppendOnlyArray, bucket_size, bucket_size_sum, entry, log2, array_index, index_in_bucket, element,
  at, bucket_of, emplace,
}
use ustevent.Core.AppendOnlyArray.Powers.{entry-Powers, bucket_size-Powers, bucket_size_sum-Powers}

-- The array of a type, a `clzll` that counts the zero bits before the highest one of a 64-bit number, and a blank.
module _ {A : Type 0} (clzll : ℕ → ℕ) (blank : A)
    (counts : (x : ℕ)
      → 0 < x
      → x < 2 ^ 64
      → (2 ^ (64 - clzll x - 1) ≤ x) × (x < 2 * 2 ^ (64 - clzll x - 1))) where
  abbrev bucket : ℕ → ℕ
  bucket i = array_index clzll blank i

  highest : (i : ℕ) → i + 1 < 2 ^ 64 → (2 ^ bucket i ≤ i + 1) × (i + 1 < 2 * 2 ^ bucket i)
  unfolding log2
  highest i h = counts (i + 1) (omega arith) h

  bucket-small : (i : ℕ) → i + 1 < 2 ^ 32 → bucket i < 32
  bucket-small i h = elim (Bool-cases (leb 32 (bucket i))) [
    | inl e ↦
        let p = pow-le-pow_right {n = 2} (omega arith) (leb→le 32 (bucket i) e) in
        let q = (highest i (omega arith)).0 in absurd (omega arith)
    | inr e ↦ ground arith
  ]

  place :
      (i : ℕ)
      → i + 1 < 2 ^ 32
      → index_in_bucket clzll blank (bucket i) i ≡ done (i + 1 - 2 ^ bucket i)
  unfolding index_in_bucket
  place i h =
      let (low, high) = highest i (omega arith) in
      let small = bucket-small i h in
      elim (Bool-cases (ltb 0 (bucket i))) [
        | inl e ↦
            let positive = ltb→lt 0 (bucket i) e in
            let (x, p, q) =
              entry-Powers 1 1 (bucket i - 1) bucket_size_sum bucket_size_sum-Powers
                (omega arith) in
            let a : 1 + (bucket i - 1) ≡ bucket i = omega arith in
            let r : x + 1 ≡ 2 ^ bucket i = q ∙ ap (λ k. 2 ^ k) a in
            rw (e, p) (ap done (omega arith))
        | inr e ↦
            let z : bucket i ≡ 0 = ground arith in
            let r : 2 ^ bucket i ≡ 1 = ap (λ k. 2 ^ k) z in rw e (ap done (omega arith))
      ]

  room : (i : ℕ) → i + 1 < 2 ^ 32 → entry bucket_size (bucket i) ≡ done (2 ^ bucket i)
  room i h =
      let (x, p, q) =
        entry-Powers 0 0 (bucket i) bucket_size bucket_size-Powers (bucket-small i h) in
      let e : 0 + bucket i ≡ bucket i = omega arith in
      let r : x ≡ 2 ^ bucket i = omega (arith, q, ap (λ k. 2 ^ k) e) in p ∙ ap done r

  self : (n : ℕ) → (n == n) ≡ true
  self n = ground arith

  abbrev appended : AppendOnlyArray A → A → AppendOnlyArray A
  appended s x = record {
    index = s.index + 1;
    size = s.index + 1;
    array = update s.array (bucket s.index) (
        some (
          update (bucket_of clzll blank (s.array (bucket s.index)))
            (s.index + 1 - 2 ^ bucket s.index) x));
  }

  -- An element that is appended to an array in which no other thread is between its two counts, and which holds fewer
  -- than 2 ^ 32 - 1 elements, gets the next index, and `at` finds it there; the size grows by one.
  pub at-emplace :
      (s : AppendOnlyArray A) (x : A)
      → s.index ≡ s.size
      → s.index + 1 < 2 ^ 32
      → (t : AppendOnlyArray A) × (emplace clzll blank s x ≡ done (s.size, t))
        × (t.size ≡ s.size + 1)
        × (t.index ≡ t.size)
        × (at clzll blank t s.size ≡ done (some x))
  unfolding emplace at element
  at-emplace s x e h =
      let i = s.index in
      let o = i + 1 - 2 ^ bucket i in
      let (low, high) = highest i (omega arith) in
      let fits : leb (2 ^ bucket i) (i + 1 - 2 ^ bucket i) ≡ false = ground arith in
      let inside : ltb (i + 1 - 2 ^ bucket i) (2 ^ bucket i) ≡ true = ground arith in
      let last : leb (i + 1) i ≡ false = ground arith in
      rw (sym e) (
        appended s x,
        rw (place i h, room i h, fits, self i) refl,
        refl,
        refl,
        rw (last, place i h, room i h, self (bucket i), inside, self (i + 1 - 2 ^ bucket i)) refl,
      )

  -- An array that holds 2 ^ 32 - 1 elements is full: the next call of `emplace` reads beyond the 32 buckets.
  pub emplace-full :
      (s : AppendOnlyArray A) (x : A) → s.index + 1 ≡ 2 ^ 32 → emplace clzll blank s x ≡ fault
  unfolding emplace entry index_in_bucket
  emplace-full s x h =
      let (low, high) = highest s.index (omega arith) in
      let above : 32 ≤ bucket s.index = elim (Bool-cases (ltb (bucket s.index) 32)) [
        | inl e ↦
            let p = pow-le-pow_right {n = 2} (omega arith) (ltb→lt (bucket s.index) 32 e) in
            let q : 2 ^ suc (bucket s.index) ≡ 2 * 2 ^ bucket s.index = omega arith in
            absurd (omega arith)
        | inr e ↦ ground arith
      ] in
      let below : bucket s.index ≤ 32 = elim (Bool-cases (leb 33 (bucket s.index))) [
        | inl e ↦
            let p = pow-le-pow_right {n = 2} (omega arith) (leb→le 33 (bucket s.index) e) in
            absurd (omega arith)
        | inr e ↦ ground arith
      ] in
      let z : bucket s.index ≡ 32 = omega arith in rw z refl
