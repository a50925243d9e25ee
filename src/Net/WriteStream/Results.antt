-- ===== src/Net/WriteStream/Results.antt =====
-- What the results of `write` and `writeSome` say, whatever the system does during the call.
use ustevent.Prelude.{
  ℕ, ◌+◌, ◌>>=◌, ◌≤◌, ◌≡◌, inl, inr, Bool, true, false, Option, none, some, List, done, ℤ, pos, ◌⊎◌,
  ◌≢◌, subst, ==ℤ→eq, arith, Bool-cases, is_error, ◌==ℤ◌, ltb, ◌==◌, [], ◌∷◌,
}
use ustevent.Net.Platform.{Platform, CallResult}
use ustevent.Net.TcpSocket.{Io, non_blocking_send}
use ustevent.Net.EventOperation.Laws.{Ends, Handled, Tried, Rule, perform-Ends, WaitedFor, Waited}
use ustevent.Net.ReadStream.{Wake}
use ustevent.Net.WriteStream.{
  Writing, non_blocking_write_some, sent_from, operation, all_operated, write, take_wake,
}

module _ (os : Platform) (size : ℕ) where
  abbrev Progress : Writing → Type 0
  Progress s = s.next_data + s.next_size ≡ size

  abbrev Counted : ℤ → Writing → Type 0
  Counted error s = (s.next_data ≤ size) × (error ≡ pos 0 → s.next_data ≡ size)

  either :
      (error : ℤ) (s : Writing)
      → Counted error s
      → (s.next_data ≤ size) × ((s.next_data ≡ size) ⊎ (error ≢ pos 0))
  either error s (b, h) = (
    b,
    elim (Bool-cases (error ==ℤ pos 0)) [
      | inl e ↦ inl (h (==ℤ→eq error (pos 0) e))
      | inr e ↦
          inr (λ q. let z : true ≡ false = subst (λ x. (x ==ℤ pos 0) ≡ false) q e in absurd cc)
    ],
  )

  all_operated_lem :
      (s : Writing) (error : ℤ)
      → Progress s
      → Handled (operation os 0 size (all_operated os)) Progress Counted (all_operated os s error)
  all_operated_lem s error p = elim (Bool-cases (error ==ℤ pos os.epipe)) [
    | inl e ↦ rw e (omega arith, λ q. ground arith)
    | inr e ↦ rw e (elim (Bool-cases (is_error error)) [
      | inl h ↦ rw h (omega arith, λ q. ground arith)
      | inr h ↦ rw h (elim (Bool-cases (ltb s.bytes_written s.next_size)) [
        | inl k ↦ rw k (ground arith)
        | inr k ↦ rw k (elim (Bool-cases (s.bytes_written == s.next_size)) [
          | inl t ↦ rw t (ground arith, λ _. ground arith)
          | inr t ↦ rw t tt
        ])
      ])
    ])
  ]

  attempt_lem :
      (s : Writing) (buffer : ℕ) (out : Option (Io × List CallResult))
      → Progress s
      → Tried (operation os 0 size (all_operated os)) Progress Counted (sent_from s buffer out)
  attempt_lem s buffer none p = tt
  attempt_lem s buffer (some (io, rest)) p = elim (Bool-cases io.finished) [
    | inl e ↦ rw e (all_operated_lem _ io.error p)
    | inr e ↦ rw e p
  ]

  woken_lem :
      (s : Writing) (ws : List Wake)
      → Progress s
      → WaitedFor (operation os 0 size (all_operated os)) Progress Counted (take_wake s ws)
        × Waited
            (operation os 0 size (all_operated os))
            Progress
            Counted
            (take_wake s ws >>= λ r. done r.1)
  woken_lem s [] p = (tt, tt)
  woken_lem s (w ∷ ws) p = (p, p)

  rule : Rule (operation os 0 size (all_operated os)) Progress Counted
  unfolding non_blocking_write_some
  rule = record {
    closes = λ s p. (omega arith, λ q. ground arith);
    times_out = λ s p. (omega arith, λ q. ground arith);
    interrupts = λ s p set. (omega arith, λ q. ground arith);
    clears = λ s p. p;
    operates = λ s error p. attempt_lem s 0 (non_blocking_send os s.socket s.results) p;
    notifies = λ s error p. p;
    waits_for = λ s p. (woken_lem s s.wakes p).0;
    waits = λ s p. (woken_lem s s.wakes p).1;
  }

  -- Whatever the system does during a call of `write`, with the fuel that the call takes: when it returns, the count is at
  -- most the size that was asked for, and it is that size unless the error is not 0.
  pub write_counts :
      (fuel : ℕ) (has_object : Bool) (timeout error : ℤ) (s t : Writing)
      → write os fuel has_object size timeout s ≡ done (error, t)
      → (t.next_data ≤ size) × ((t.next_data ≡ size) ⊎ (error ≢ pos 0))
  unfolding write
  write_counts fuel has_object timeout error s t e = either error t (
      subst (Ends (operation os 0 size (all_operated os)) Progress Counted) e (
        perform-Ends (operation os 0 size (all_operated os)) Progress Counted timeout rule fuel
          has_object (record s { bytes_written = 0; next_data = 0; next_size = size })
          (omega arith)))
