-- ===== src/Net/ReadStream/Results.antt =====
-- What the results of `read` and `readSome` say, whatever the system does during the call.
use ustevent.Prelude.{
  ℕ, ◌+◌, ◌-◌, ◌>>=◌, ◌≤◌, ◌≡◌, inl, inr, Bool, true, false, Option, none, some, List, done, fault,
  ℤ, pos, ◌⊎◌, ◌≢◌, subst, ==ℤ→eq, ◌==ℤ◌, arith, Bool-cases, is_error, ltb, ◌==◌, if◌then◌else◌, [],
  ◌∷◌,
}
use ustevent.Net.Platform.{Platform, CallResult}
use ustevent.Net.Error
use ustevent.Net.TcpSocket.{Io, non_blocking_receive}
use ustevent.Net.EventOperation.Laws.{Ends, Handled, Tried, Rule, perform-Ends, WaitedFor, Waited}
use ustevent.Net.ReadStream.{
  Reading, Wake, non_blocking_read_some, received_into, operation, all_operated, read, take_wake,
}

module _ (os : Platform) (size : ℕ) where
  abbrev Progress : Reading → Type 0
  Progress s = s.next_buffer + s.next_size ≡ size

  abbrev Counted : ℤ → Reading → Type 0
  Counted error s = (s.next_buffer ≤ size) × (error ≡ pos 0 → s.next_buffer ≡ size)

  either :
      (error : ℤ) (s : Reading)
      → Counted error s
      → (s.next_buffer ≤ size) × ((s.next_buffer ≡ size) ⊎ (error ≢ pos 0))
  either error s (b, h) = (
    b,
    elim (Bool-cases (error ==ℤ pos 0)) [
      | inl e ↦ inl (h (==ℤ→eq error (pos 0) e))
      | inr e ↦
          inr (λ q. let z : true ≡ false = subst (λ x. (x ==ℤ pos 0) ≡ false) q e in absurd cc)
    ],
  )

  all_operated_lem :
      (s : Reading) (error : ℤ)
      → Progress s
      → Handled (operation os 0 size all_operated) Progress Counted (all_operated s error)
  all_operated_lem s error p = elim (Bool-cases (is_error error)) [
    | inl e ↦ rw e (omega arith, λ q. ground arith)
    | inr e ↦ rw e (counted e)
  ]
    where
      counted :
          is_error error ≡ false
          → Handled (operation os 0 size all_operated) Progress Counted (
              if s.bytes_read == 0
              then done (true, Error.remotely_closed, s)
              else if ltb s.bytes_read s.next_size
              then done (
                false,
                error,
                record s {
                  next_buffer = s.next_buffer + s.bytes_read;
                  next_size = s.next_size - s.bytes_read;
                },
              )
              else if s.bytes_read == s.next_size
              then done (
                true,
                error,
                record s { next_buffer = s.next_buffer + s.bytes_read; next_size = 0 },
              )
              else fault)
      counted e = elim (Bool-cases (s.bytes_read == 0)) [
        | inl h ↦ rw h (omega arith, λ q. ground arith)
        | inr h ↦ rw h (elim (Bool-cases (ltb s.bytes_read s.next_size)) [
          | inl k ↦ rw k (ground arith)
          | inr k ↦ rw k (elim (Bool-cases (s.bytes_read == s.next_size)) [
            | inl t ↦ rw t (ground arith, λ _. ground arith)
            | inr t ↦ rw t tt
          ])
        ])
      ]

  attempt_lem :
      (s : Reading) (buffer : ℕ) (out : Option (Io × List CallResult))
      → Progress s
      → Tried (operation os 0 size all_operated) Progress Counted (received_into s buffer out)
  attempt_lem s buffer none p = tt
  attempt_lem s buffer (some (io, rest)) p = elim (Bool-cases io.finished) [
    | inl e ↦ rw e (all_operated_lem _ io.error p)
    | inr e ↦ rw e p
  ]

  woken_lem :
      (s : Reading) (ws : List Wake)
      → Progress s
      → WaitedFor (operation os 0 size all_operated) Progress Counted (take_wake s ws)
        × Waited
            (operation os 0 size all_operated)
            Progress
            Counted
            (take_wake s ws >>= λ r. done r.1)
  woken_lem s [] p = (tt, tt)
  woken_lem s (w ∷ ws) p = (p, p)

  rule : Rule (operation os 0 size all_operated) Progress Counted
  unfolding non_blocking_read_some
  rule = record {
    closes = λ s p. (omega arith, λ q. ground arith);
    times_out = λ s p. (omega arith, λ q. ground arith);
    interrupts = λ s p set. (omega arith, λ q. ground arith);
    clears = λ s p. p;
    operates = λ s error p. attempt_lem s 0 (non_blocking_receive os s.socket s.results error) p;
    notifies = λ s error p. p;
    waits_for = λ s p. (woken_lem s s.wakes p).0;
    waits = λ s p. (woken_lem s s.wakes p).1;
  }

  -- Whatever the system does during a call of `read`, with the fuel that the call takes: when it returns, the count is at
  -- most the size that was asked for, and it is that size unless the error is not 0.
  pub read_counts :
      (fuel : ℕ) (has_object : Bool) (timeout error : ℤ) (s t : Reading)
      → read os fuel has_object size timeout s ≡ done (error, t)
      → (t.next_buffer ≤ size) × ((t.next_buffer ≡ size) ⊎ (error ≢ pos 0))
  unfolding read
  read_counts fuel has_object timeout error s t e = either error t (
      subst (Ends (operation os 0 size all_operated) Progress Counted) e (
        perform-Ends (operation os 0 size all_operated) Progress Counted timeout rule fuel
          has_object (record s { bytes_read = 0; next_buffer = 0; next_size = size })
          (omega arith)))
