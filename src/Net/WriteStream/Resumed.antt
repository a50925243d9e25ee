-- ===== src/Net/WriteStream/Resumed.antt =====
-- Calls of `write` followed to their end: a message sent at once or in two pieces.
use ustevent.Prelude.{
  ℕ, suc, ◌+◌, ◌-◌, ◌++◌, ◌<◌, ◌≡◌, refl, Bool, true, false, List, Outcome, done, ℤ, pos, arith,
  ltb, ◌==◌, ◌∷◌, take, ◌∙◌,
}
use ustevent.Net.Platform.{Platform, CallResult, returned}
use ustevent.Net.TcpSocket.Loops.{send-retries}
use ustevent.Net.EventOperation.{perform_loop, unless}
use ustevent.Net.WriteStream.{Writing, non_blocking_write_some, operation, all_operated, write}

-- The state after a call of `::sendmsg` that takes `n` bytes.
abbrev pub accepted : Writing → ℕ → List CallResult → Writing
accepted s n rest = record s {
  results = rest;
  bytes_written = n;
  wire = s.wire ++ take n s.message;
}

module _ (os : Platform) (size : ℕ) (timeout : ℤ)
    (on_operated : Writing → ℤ → Outcome (Bool × ℤ × Writing)) where
  abbrev loop : ℕ → ℤ → Writing → Outcome (ℤ × Writing)
  loop = perform_loop (operation os 0 size on_operated) timeout

  loop-returned :
      (fuel n : ℕ) (error : ℤ) (s : Writing) (rest : List CallResult)
      → s.shutdown ≡ false
      → s.results ≡ returned n ∷ rest
      → loop (suc fuel) error s
        ≡ unless
            (operation os 0 size on_operated)
            timeout
            (loop fuel)
            (on_operated (accepted s n rest) (pos 0))
  unfolding perform_loop non_blocking_write_some
  loop-returned fuel n error s rest opened e =
      rw (opened, e, send-retries os s.socket 0 (returned n) rest tt) refl

module _ (os : Platform) (fuel size : ℕ) (timeout : ℤ) (s : Writing)
    (opened : s.shutdown ≡ false) where
  -- The state in which `write` enters its loop.
  abbrev pub begun : Writing
  begun = record s { bytes_written = 0; next_data = 0; next_size = size; interrupted = false }

  no_pipe : (0 == os.epipe) ≡ false
  no_pipe = ground (arith, os.epipe_pos)

  -- A socket that takes the whole size in one piece: `write` counts it, with error 0, and the socket has
  -- been given those bytes of the message.
  pub write_whole :
      (rest : List CallResult)
      → s.results ≡ returned size ∷ rest
      → (t : Writing) × (write os (suc fuel) true size timeout s ≡ done (pos 0, t))
        × (t.next_data ≡ size)
        × (t.wire ≡ s.wire ++ take size s.message)
  unfolding write
  write_whole rest e = (
    record (accepted begun size rest) { next_data = 0 + size; next_size = 0 },
    loop-returned os size timeout (all_operated os) fuel size (pos 0) begun rest opened e
        ∙ rw (no_pipe, all, exactly) refl,
    omega arith,
    refl,
  )
    where
      all : ltb size size ≡ false
      all = ground arith

      exactly : (size == size) ≡ true
      exactly = ground arith

  -- A socket that takes the size in two pieces: `write` counts the whole size, with error 0, but the
  -- second piece too is taken from the beginning of the message.
  pub write_in_two :
      (k m : ℕ) (rest : List CallResult)
      → 0 < m
      → k + m ≡ size
      → s.results ≡ returned k ∷ returned m ∷ rest
      → (t : Writing) × (write os (suc (suc fuel)) true size timeout s ≡ done (pos 0, t))
        × (t.next_data ≡ size)
        × (t.wire ≡ (s.wire ++ take k s.message) ++ take m s.message)
  unfolding write
  write_in_two k m rest q sum e = (
    record (accepted halfway m rest) { next_data = 0 + k + m; next_size = 0 },
    loop-returned os size timeout (all_operated os) (suc fuel) k (pos 0) begun (returned m ∷ rest)
          opened e
        ∙ first
        ∙ loop-returned os size timeout (all_operated os) fuel m (pos 0) halfway rest opened refl
        ∙ second,
    omega arith,
    refl,
  )
    where
      halfway : Writing
      halfway = record (accepted begun k (returned m ∷ rest)) {
        next_data = 0 + k;
        next_size = size - k;
      }

      first :
          unless
            (operation os 0 size (all_operated os))
            timeout
            (perform_loop (operation os 0 size (all_operated os)) timeout (suc fuel))
            (all_operated os (accepted begun k (returned m ∷ rest)) (pos 0))
          ≡ perform_loop (operation os 0 size (all_operated os)) timeout (suc fuel) (pos 0) halfway
      first = rw (no_pipe, f3) refl
        where
          f3 : ltb k size ≡ true
          f3 = ground arith

      second :
          unless
            (operation os 0 size (all_operated os))
            timeout
            (perform_loop (operation os 0 size (all_operated os)) timeout fuel)
            (all_operated os (accepted halfway m rest) (pos 0))
          ≡ done (pos 0, record (accepted halfway m rest) { next_data = 0 + k + m; next_size = 0 })
      second = rw (no_pipe, s3, s4) refl
        where
          s3 : ltb m (size - k) ≡ false
          s3 = ground arith

          s4 : (m == size - k) ≡ true
          s4 = ground arith
