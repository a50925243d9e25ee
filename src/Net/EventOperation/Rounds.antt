-- ===== src/Net/EventOperation/Rounds.antt =====
-- The rounds of `EventOperation::perform`: when each one that goes on uses up something, the loop ends.
use ustevent.Prelude.{
  ◌≡◌, ◌<◌, ℕ, zero, suc, Bool, true, false, Bool-cases, inl, inr, ◌⊎◌, refl, arith, Outcome, done,
  spin, fault, ℤ, pos, is_positive,
}
use ustevent.Net.EventOperation.{
  Operation, perform_loop, perform, unless, waited_for, waited, tried,
}

-- It is a result, or, where `F` holds, a failed assertion.
abbrev pub Returns : Type 0 → {R : Type 0} → Outcome R → Type 0
Returns F spin = ⊥
Returns F fault = F
Returns F (done r) = Unit

pub Returns-cases :
    {F R : Type 0} (o : Outcome R) → Returns F o → (F × (o ≡ fault)) ⊎ ((r : R) × (o ≡ done r))
Returns-cases spin h = elim h [ ]
Returns-cases fault h = inl (h, refl)
Returns-cases (done r) h = inr (r, refl)

-- `P n` holds of the states from which the loop has at most `n` more rounds.
module _ (F : Type 0) {S : Type 0} (op : Operation S) (P : ℕ → S → Type 0) (timeout : ℤ) where
  abbrev pub Fewer : ℕ → Outcome (Bool × ℤ × S) → Type 0
  Fewer n spin = ⊥
  Fewer n fault = F
  Fewer n (done (true, error, s)) = Unit
  Fewer n (done (false, error, s)) = (m : ℕ) × (m < n) × P m s

  abbrev pub Woken : ℕ → ℤ → Outcome (Bool × S) → Type 0
  Woken n error spin = ⊥
  Woken n error fault = F
  Woken n error (done (true, s)) = Fewer n (op.on_notified s error)
  Woken n error (done (false, s)) = Unit

  abbrev pub Awoken : ℕ → ℤ → Outcome S → Type 0
  Awoken n error spin = ⊥
  Awoken n error fault = F
  Awoken n error (done s) = Fewer n (op.on_notified s error)

  abbrev pub Rounds : ℕ → Outcome (Bool × ℤ × S) → Type 0
  Rounds n spin = ⊥
  Rounds n fault = F
  Rounds n (done (true, error, s)) = Fewer n (op.on_operated s error)
  Rounds n (done (false, error, s)) =
      (is_positive timeout ≡ true → Woken n error (op.wait_for s))
      × (is_positive timeout ≡ false → Awoken n error (op.wait s))

module _ (F : Type 0) {S : Type 0} (op : Operation S) (P : ℕ → S → Type 0) (timeout : ℤ)
    (rule : (n : ℕ) (s : S) (error : ℤ)
      → P n s
      → op.is_open s ≡ true
      → Rounds F op P timeout n (op.non_blocking_operation s error)) where
  module _ (n : ℕ) (again : ℤ → S → Outcome (ℤ × S))
      (more : (m : ℕ) (error : ℤ) (s : S) → m < n → P m s → Returns F (again error s)) where
    unless-Returns :
        (out : Outcome (Bool × ℤ × S))
        → Fewer F op P timeout n out
        → Returns F (unless op timeout again out)
    unless-Returns spin h = h
    unless-Returns fault h = h
    unless-Returns (done (true, error, s)) h = tt
    unless-Returns (done (false, error, s)) (m, low, p) = more m error s low p

    waited_for-Returns :
        (error : ℤ) (out : Outcome (Bool × S))
        → Woken F op P timeout n error out
        → Returns F (waited_for op timeout again error out)
    waited_for-Returns error spin h = h
    waited_for-Returns error fault h = h
    waited_for-Returns error (done (true, s)) h = elim (Bool-cases (op.interrupted s)) [
      | inl e ↦ rw e tt
      | inr e ↦ rw e (unless-Returns (op.on_notified s error) h)
    ]
    waited_for-Returns error (done (false, s)) h = tt

    waited-Returns :
        (error : ℤ) (out : Outcome S)
        → Awoken F op P timeout n error out
        → Returns F (waited op timeout again error out)
    waited-Returns error spin h = h
    waited-Returns error fault h = h
    waited-Returns error (done s) h = elim (Bool-cases (op.interrupted s)) [
      | inl e ↦ rw e tt
      | inr e ↦ rw e (unless-Returns (op.on_notified s error) h)
    ]

    tried-Returns :
        (out : Outcome (Bool × ℤ × S))
        → Rounds F op P timeout n out
        → Returns F (tried op timeout again out)
    tried-Returns spin h = h
    tried-Returns fault h = h
    tried-Returns (done (true, error, s)) h = unless-Returns (op.on_operated s error) h
    tried-Returns (done (false, error, s)) (h, g) = elim (Bool-cases (is_positive timeout)) [
      | inl e ↦ rw e (waited_for-Returns error (op.wait_for s) (h e))
      | inr e ↦ rw e (waited-Returns error (op.wait s) (g e))
    ]

  perform_loop-Returns :
      (fuel n : ℕ) (error : ℤ) (s : S)
      → n < fuel
      → P n s
      → Returns F (perform_loop op timeout fuel error s)
  unfolding perform_loop
  perform_loop-Returns zero n error s low p = elim low [ ]
  perform_loop-Returns (suc fuel) n error s low p = elim (Bool-cases (op.is_open s)) [
    | inl e ↦
        rw (e, perform_loop)
          (tried-Returns n (perform_loop op timeout fuel)
            (λ m error t fewer q. perform_loop-Returns fuel m error t (omega arith) q)
            (op.non_blocking_operation s error) (rule n s error p e))
    | inr e ↦ rw (e, perform_loop) tt
  ]

  pub perform-Returns :
      (fuel n : ℕ) (has_object : Bool) (s : S)
      → n < fuel
      → P n (op.clear_interrupted s)
      → Returns F (perform op timeout fuel has_object s)
  unfolding perform
  perform-Returns fuel n true s low p =
      perform_loop-Returns fuel n (pos 0) (op.clear_interrupted s) low p
  perform-Returns fuel n false s low p = tt
