-- ===== src/Net/EventOperation.antt =====
-- ustevent/net/detail/EventOperation.hpp: an operation on a non-blocking device that waits for the
-- device's events. The lambdas that `perform` is given, and what the waits of the event object do,
-- are the fields of `Operation`; `S` is all that they read and write.
pub mod Laws
pub mod Rounds
use ustevent.Prelude.{
  ℕ, zero, suc, Bool, true, false, Outcome, done, spin, fault, ℤ, pos, if◌then◌else◌, is_positive,
}
use ustevent.Net.Error

pub record Operation (S : Type 0) : Type 0 where
  pub is_open : S → Bool
  pub non_blocking_operation : S → ℤ → Outcome (Bool × ℤ × S)
  pub on_operated : S → ℤ → Outcome (Bool × ℤ × S)
  pub on_notified : S → ℤ → Outcome (Bool × ℤ × S)
  -- `waitFor` with its result, `wait`, and the flag `_interrupted`.
  pub wait_for : S → Outcome (Bool × S)
  pub wait : S → Outcome S
  pub interrupted : S → Bool
  pub clear_interrupted : S → S

module _ {S : Type 0} (op : Operation S) (timeout : ℤ) where
  -- The result of a handler: return the error, or go round the loop by `again`.
  abbrev pub unless : (ℤ → S → Outcome (ℤ × S)) → Outcome (Bool × ℤ × S) → Outcome (ℤ × S)
  unless again spin = spin
  unless again fault = fault
  unless again (done (stop, error, s)) =
      let more = again error s in if stop then done (error, s) else more

  -- What follows a wait that ended in time.
  abbrev pub woken : (ℤ → S → Outcome (ℤ × S)) → ℤ → S → Outcome (ℤ × S)
  woken again error s =
      if op.interrupted s
      then done (Error.interrupted, s)
      else unless again (op.on_notified s error)

  abbrev pub waited_for : (ℤ → S → Outcome (ℤ × S)) → ℤ → Outcome (Bool × S) → Outcome (ℤ × S)
  waited_for again error spin = spin
  waited_for again error fault = fault
  waited_for again error (done (in_time, s)) =
      if in_time then woken again error s else done (Error.timeout, s)

  abbrev pub waited : (ℤ → S → Outcome (ℤ × S)) → ℤ → Outcome S → Outcome (ℤ × S)
  waited again error spin = spin
  waited again error fault = fault
  waited again error (done s) = woken again error s

  abbrev pub tried : (ℤ → S → Outcome (ℤ × S)) → Outcome (Bool × ℤ × S) → Outcome (ℤ × S)
  tried again spin = spin
  tried again fault = fault
  tried again (done (finished, error, s)) =
      if finished
      then unless again (op.on_operated s error)
      else if is_positive timeout
      then waited_for again error (op.wait_for s)
      else waited again error (op.wait s)

  -- The loop of `perform`; `spin` where the fuel is used up.
  unfoldable pub perform_loop : ℕ → ℤ → S → Outcome (ℤ × S)
  perform_loop zero error s = spin
  perform_loop (suc fuel) error s = elim (op.is_open s) [
    | true ↦ tried (perform_loop fuel) (op.non_blocking_operation s error)
    | false ↦ done (Error.closed, s)
  ]

  -- `has_object` says whether the shared pointer to the event object is set.
  unfoldable pub perform : ℕ → Bool → S → Outcome (ℤ × S)
  unfolding perform_loop
  perform fuel has_object s =
      if has_object
      then perform_loop fuel (pos 0) (op.clear_interrupted s)
      else done (Error.closed, s)
