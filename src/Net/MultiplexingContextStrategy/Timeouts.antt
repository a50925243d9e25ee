-- ===== src/Net/MultiplexingContextStrategy/Timeouts.antt =====
-- The timeouts that a MultiplexingContextStrategy gives to select.
use ustevent.Prelude.{
  ℕ, zero, suc, ◌+◌, ◌-◌, ◌*◌, ◌/◌, ◌%◌, ◌^◌, ◌<◌, ◌≤◌, ◌≡◌, ◌≢◌, ◌⊎◌, refl, sym, subst, arith,
  false, Bool-cases, inl, inr, ℤ, pos, negsuc, ◌==◌, leb, ltb, is_positive, ltb→lt, lt→ltb,
}
use ustevent.Net.MultiplexingContextStrategy.{
  blocking, time_point_max, negative, milliseconds, to_int, at_least_one, timeout_of,
}

-- A number of milliseconds to sleep, of at least one.
abbrev pub Sleeps : ℤ → Type 0
Sleeps t = (n : ℕ) × (t ≡ pos n) × (0 < n) × (n < 2 ^ 31)

at_least_one-Sleeps : (n : ℕ) → n < 2 ^ 31 → Sleeps (at_least_one (pos n))
at_least_one-Sleeps zero h = (1, refl, omega arith, omega arith)
at_least_one-Sleeps (suc n) h = (suc n, ground arith, omega arith, h)

to_int-Sleeps : (z : ℤ) → Sleeps (at_least_one (to_int z))
unfolding to_int
to_int-Sleeps (pos n) = elim (Bool-cases (ltb (n % 2 ^ 32) (2 ^ 31))) [
  | inl h ↦ rw h (at_least_one-Sleeps (n % 2 ^ 32) (ltb→lt (n % 2 ^ 32) (2 ^ 31) h))
  | inr h ↦ rw h (1, refl, omega arith, omega arith)
]
to_int-Sleeps (negsuc n) = elim (Bool-cases (ltb (n % 2 ^ 32) (2 ^ 31))) [
  | inl h ↦ rw h (1, refl, omega arith, omega arith)
  | inr h ↦ rw h (at_least_one-Sleeps (2 ^ 32 - 1 - n % 2 ^ 32) (ground arith))
]

not_max : (a b : ℕ) → a ≢ b → (b == a) ≡ false
not_max a b h = elim (Bool-cases (b == a)) [ inl e ↦ ground (arith, h) | inr e ↦ e ]

timeout_of-before :
    (time_point now : ℕ)
    → time_point ≢ time_point_max
    → timeout_of blocking time_point now ≡ at_least_one (to_int (milliseconds time_point now))
unfolding timeout_of
timeout_of-before time_point now before = rw (not_max time_point time_point_max before) refl

-- For every time point but the greatest, also one that has passed or is too far away for an int
-- of milliseconds, the timeout of a blocking strategy is a positive int: it neither polls nor
-- sleeps for ever.
pub timeout_of-Sleeps :
    (time_point now : ℕ) → time_point ≢ time_point_max → Sleeps (timeout_of blocking time_point now)
timeout_of-Sleeps time_point now before =
    subst Sleeps (sym (timeout_of-before time_point now before))
      (to_int-Sleeps (milliseconds time_point now))

to_int-small : (n : ℕ) → n < 2 ^ 31 → to_int (pos n) ≡ pos n
unfolding to_int
to_int-small n h = let e : n % 2 ^ 32 ≡ n = omega arith in rw e (rw (lt→ltb n (2 ^ 31) h) refl)

to_int-negative : (n : ℕ) → n < 2 ^ 31 → is_positive (to_int (negative n)) ≡ false
unfolding to_int
to_int-negative zero h = refl
to_int-negative (suc n) h =
    let e : n % 2 ^ 32 ≡ n = omega arith in rw e (rw (lt→ltb n (2 ^ 31) (omega arith)) refl)

-- The sleep of `n` milliseconds until a time that is `rest` nanoseconds away.
abbrev pub Meets : ℕ → ℤ → Type 0
Meets rest t =
    (n : ℕ) × (t ≡ pos n) × (0 < n) × ((n ≡ 1) ⊎ (n * 1000000 ≤ rest)) × (rest < (n + 1) * 1000000)

at_least_one-Meets : (rest n : ℕ) → rest / 1000000 ≡ n → Meets rest (at_least_one (pos n))
at_least_one-Meets rest zero e = (1, refl, omega arith, inl refl, omega arith)
at_least_one-Meets rest (suc n) e =
    (suc n, ground arith, omega arith, inr (omega arith), omega arith)

-- For a time point that is not the greatest and less than 2^31 milliseconds away, ahead or past,
-- a blocking strategy sleeps for one millisecond or for some that do not pass the time point, and
-- for one millisecond more they would pass it.
pub timeout_of-Meets :
    (time_point now : ℕ)
    → time_point ≢ time_point_max
    → time_point < now + 2 ^ 31 * 1000000
    → now < time_point + 2 ^ 31 * 1000000
    → Meets (time_point - now) (timeout_of blocking time_point now)
unfolding milliseconds
timeout_of-Meets time_point now before near past =
    subst (Meets (time_point - now)) (sym (timeout_of-before time_point now before))
      (elim (Bool-cases (leb now time_point)) [
        | inl h ↦ rw h (
            rw (to_int-small ((time_point - now) / 1000000) (omega arith))
              (at_least_one-Meets (time_point - now) ((time_point - now) / 1000000) refl))
        | inr h ↦ rw h (
            rw (to_int-negative ((now - time_point) / 1000000) (omega arith))
              (1, refl, omega arith, inl refl, ground arith))
      ])
