-- ===== src/Net/EventOperation/Laws.antt =====
-- The rule for `EventOperation::perform`: what its handlers keep and establish, its result has.
use ustevent.Prelude.{
  ◌≡◌, ℕ, zero, suc, Bool, true, false, Outcome, done, spin, fault, ℤ, pos, Bool-cases, inl, inr,
  is_positive,
}
use ustevent.Net.Error
use ustevent.Net.EventOperation.{
  Operation, perform_loop, perform, unless, woken, waited_for, waited, tried,
}

module _ {S : Type 0} (op : Operation S) (P : S → Type 0) (Q : ℤ → S → Type 0) where
  -- `Q` holds of what is returned.
  abbrev pub Ends : Outcome (ℤ × S) → Type 0
  Ends spin = Unit
  Ends fault = Unit
  Ends (done (error, s)) = Q error s

  -- A handler establishes `Q` where it stops and keeps `P` where it does not.
  abbrev pub Handled : Outcome (Bool × ℤ × S) → Type 0
  Handled spin = Unit
  Handled fault = Unit
  Handled (done (true, error, s)) = Q error s
  Handled (done (false, error, s)) = P s

  abbrev pub Tried : Outcome (Bool × ℤ × S) → Type 0
  Tried spin = Unit
  Tried fault = Unit
  Tried (done (true, error, s)) = Handled (op.on_operated s error)
  Tried (done (false, error, s)) = P s

  abbrev pub WaitedFor : Outcome (Bool × S) → Type 0
  WaitedFor spin = Unit
  WaitedFor fault = Unit
  WaitedFor (done (in_time, s)) = P s

  abbrev pub Waited : Outcome S → Type 0
  Waited spin = Unit
  Waited fault = Unit
  Waited (done s) = P s

  pub record Rule : Type 0 where
    pub closes : (s : S) → P s → Q Error.closed s
    pub times_out : (s : S) → P s → Q Error.timeout s
    pub interrupts : (s : S) → P s → op.interrupted s ≡ true → Q Error.interrupted s
    pub clears : (s : S) → P s → P (op.clear_interrupted s)
    pub operates : (s : S) (error : ℤ) → P s → Tried (op.non_blocking_operation s error)
    pub notifies : (s : S) (error : ℤ) → P s → Handled (op.on_notified s error)
    pub waits_for : (s : S) → P s → WaitedFor (op.wait_for s)
    pub waits : (s : S) → P s → Waited (op.wait s)

module _ {S : Type 0} (op : Operation S) (P : S → Type 0) (Q : ℤ → S → Type 0) (timeout : ℤ)
    (rule : Rule op P Q) where
  module _ (again : ℤ → S → Outcome (ℤ × S))
      (more : (error : ℤ) (s : S) → P s → Ends op P Q (again error s)) where
    unless-Ends :
        (out : Outcome (Bool × ℤ × S))
        → Handled op P Q out
        → Ends op P Q (unless op timeout again out)
    unless-Ends spin h = tt
    unless-Ends fault h = tt
    unless-Ends (done (true, error, s)) h = h
    unless-Ends (done (false, error, s)) h = more error s h

    woken-Ends : (error : ℤ) (s : S) → P s → Ends op P Q (woken op timeout again error s)
    woken-Ends error s p = elim (Bool-cases (op.interrupted s)) [
      | inl e ↦ rw e (rule.interrupts s p e)
      | inr e ↦ rw e (unless-Ends (op.on_notified s error) (rule.notifies s error p))
    ]

    waited_for-Ends :
        (error : ℤ) (out : Outcome (Bool × S))
        → WaitedFor op P Q out
        → Ends op P Q (waited_for op timeout again error out)
    waited_for-Ends error spin h = tt
    waited_for-Ends error fault h = tt
    waited_for-Ends error (done (true, s)) h = woken-Ends error s h
    waited_for-Ends error (done (false, s)) h = rule.times_out s h

    waited-Ends :
        (error : ℤ) (out : Outcome S)
        → Waited op P Q out
        → Ends op P Q (waited op timeout again error out)
    waited-Ends error spin h = tt
    waited-Ends error fault h = tt
    waited-Ends error (done s) h = woken-Ends error s h

    tried-Ends :
        (out : Outcome (Bool × ℤ × S)) → Tried op P Q out → Ends op P Q (tried op timeout again out)
    tried-Ends spin h = tt
    tried-Ends fault h = tt
    tried-Ends (done (true, error, s)) h = unless-Ends (op.on_operated s error) h
    tried-Ends (done (false, error, s)) h = elim (Bool-cases (is_positive timeout)) [
      | inl e ↦ rw e (waited_for-Ends error (op.wait_for s) (rule.waits_for s h))
      | inr e ↦ rw e (waited-Ends error (op.wait s) (rule.waits s h))
    ]

  perform_loop-Ends :
      (fuel : ℕ) (error : ℤ) (s : S) → P s → Ends op P Q (perform_loop op timeout fuel error s)
  unfolding perform_loop
  perform_loop-Ends zero error s p = tt
  perform_loop-Ends (suc fuel) error s p = elim (Bool-cases (op.is_open s)) [
    | inl e ↦
        rw (e, perform_loop)
          (tried-Ends (perform_loop op timeout fuel) (perform_loop-Ends fuel)
            (op.non_blocking_operation s error) (rule.operates s error p))
    | inr e ↦ rw (e, perform_loop) (rule.closes s p)
  ]

  pub perform-Ends :
      (fuel : ℕ) (has_object : Bool) (s : S)
      → P s
      → Ends op P Q (perform op timeout fuel has_object s)
  unfolding perform
  perform-Ends fuel true s p =
      perform_loop-Ends fuel (pos 0) (op.clear_interrupted s) (rule.clears s p)
  perform-Ends fuel false s p = rule.closes s p
