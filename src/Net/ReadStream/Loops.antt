-- ===== src/Net/ReadStream/Loops.antt =====
-- The loop of read, by the answer of recvmsg.
use ustevent.Prelude.{
  ℕ, suc, ◌≡◌, ◌≢◌, refl, Bool, true, false, List, Outcome, ℤ, pos, arith, is_positive, ltb, ◌==◌,
  if◌then◌else◌, ◌∷◌, take, drop, copy, Bool-cases, inl, inr, ◌||◌,
}
use ustevent.Net.Platform.{Platform, CallResult, returned, failed}
use ustevent.Net.TcpSocket.Loops.{receive-retries}
use ustevent.Net.EventOperation.{perform_loop, unless}
use ustevent.Net.ReadStream.{Reading, Wake, non_blocking_read_some, operation}

-- The state after a call of `::recvmsg` that delivers `n` bytes.
abbrev pub delivered : Reading → ℕ → List CallResult → Reading
delivered s n rest = record s {
  results = rest;
  bytes_read = n;
  memory = copy 0 (take n s.arriving) s.memory;
  arriving = drop n s.arriving;
}

module _ (os : Platform) (size : ℕ) (timeout : ℤ)
    (on_operated : Reading → ℤ → Outcome (Bool × ℤ × Reading)) where
  abbrev pub loop : ℕ → ℤ → Reading → Outcome (ℤ × Reading)
  loop = perform_loop (operation os 0 size on_operated) timeout

  pub loop-returned :
      (fuel n : ℕ) (error : ℤ) (s : Reading) (rest : List CallResult)
      → s.shutdown ≡ false
      → s.results ≡ returned n ∷ rest
      → loop (suc fuel) error s
        ≡ unless
            (operation os 0 size on_operated)
            timeout
            (loop fuel)
            (on_operated (delivered s n rest) (if ltb 0 n then pos 0 else error))
  unfolding perform_loop non_blocking_read_some
  loop-returned fuel n error s rest opened e =
      rw (opened, e, receive-retries os s.socket 0 (returned n) rest error tt) refl

  pub loop-failed :
      (fuel k : ℕ) (error : ℤ) (s : Reading) (rest : List CallResult)
      → s.shutdown ≡ false
      → s.results ≡ failed k ∷ rest
      → k ≢ os.eagain
      → k ≢ os.eintr
      → loop (suc fuel) error s
        ≡ unless
            (operation os 0 size on_operated)
            timeout
            (loop fuel)
            (on_operated (delivered s 0 rest) (pos k))
  unfolding perform_loop non_blocking_read_some
  loop-failed fuel k error s rest opened e p q =
      rw (opened, e, receive-retries os s.socket 0 (failed k) rest error q, final) refl
    where
      final : (k == os.eagain) ≡ false
      final = ground arith

  pub loop-eagain :
      (fuel : ℕ) (error : ℤ) (s : Reading) (rest : List CallResult) (ws : List Wake)
      → s.shutdown ≡ false
      → s.interrupted ≡ false
      → s.results ≡ failed os.eagain ∷ rest
      → s.wakes ≡ record { in_time = true; shutdown = false } ∷ ws
      → loop (suc fuel) error s
        ≡ loop fuel
            (pos os.eagain)
            (record (delivered s 0 rest) { wakes = ws; shutdown = s.shutdown || false })
  unfolding perform_loop non_blocking_read_some
  loop-eagain fuel error s rest ws opened calm e f =
      rw
        (
          opened,
          e,
          receive-retries os s.socket 0 (failed os.eagain) rest error os.eagain-ne-eintr,
          again,
          f,
        )
        (elim (Bool-cases (is_positive timeout)) [
          | inl h ↦ rw (h, calm) refl
          | inr h ↦ rw (h, calm) refl
        ])
    where
      again : (os.eagain == os.eagain) ≡ true
      again = ground arith
