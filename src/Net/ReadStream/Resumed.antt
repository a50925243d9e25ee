-- ===== src/Net/ReadStream/Resumed.antt =====
-- Calls of `read` and `readSome` followed to their end: a buffer filled at once or in two pieces, and
-- the errors of the socket.
use ustevent.Prelude.{
  ℕ, suc, ◌+◌, ◌-◌, ◌<◌, ◌≡◌, ◌≢◌, refl, true, false, List, done, ℤ, pos, arith, ltb, ◌==◌,
  if◌then◌else◌, ◌∷◌, take, drop, copy, ◌∙◌, ◌||◌,
}
use ustevent.Net.Platform.{Platform, CallResult, returned, failed}
use ustevent.Net.Error
use ustevent.Net.EventOperation.{perform_loop, unless}
use ustevent.Net.ReadStream.{Reading, Wake, operation, some_operated, all_operated, read_some, read}
use ustevent.Net.ReadStream.Loops.{delivered, loop-returned, loop-failed, loop-eagain}

module _ (os : Platform) (fuel size : ℕ) (timeout : ℤ) (s : Reading)
    (opened : s.shutdown ≡ false) where
  -- The state in which `read` enters its loop.
  abbrev pub begun : Reading
  begun = record s { bytes_read = 0; next_buffer = 0; next_size = size; interrupted = false }

  -- A stream that delivers the whole size in one piece: `read` counts it, with error 0, and the buffer
  -- begins with those bytes.
  pub read_whole :
      (rest : List CallResult)
      → 0 < size
      → s.results ≡ returned size ∷ rest
      → (t : Reading) × (read os (suc fuel) true size timeout s ≡ done (pos 0, t))
        × (t.next_buffer ≡ size)
        × (t.memory ≡ copy 0 (take size s.arriving) s.memory)
  unfolding read
  read_whole rest p e = (
    record (delivered begun size rest) { next_buffer = 0 + size; next_size = 0 },
    loop-returned os size timeout all_operated fuel size (pos 0) begun rest opened e
        ∙ rw (positive, some, all, exactly) refl,
    omega arith,
    refl,
  )
    where
      positive : ltb 0 size ≡ true
      positive = ground arith

      some : (size == 0) ≡ false
      some = ground arith

      all : ltb size size ≡ false
      all = ground arith

      exactly : (size == size) ≡ true
      exactly = ground arith

  -- A stream that delivers the size in two pieces: `read` counts the whole size, with error 0, but the
  -- second piece is written over the first, from the beginning of the buffer.
  pub read_in_two :
      (k m : ℕ) (rest : List CallResult)
      → 0 < k
      → 0 < m
      → k + m ≡ size
      → s.results ≡ returned k ∷ returned m ∷ rest
      → (t : Reading) × (read os (suc (suc fuel)) true size timeout s ≡ done (pos 0, t))
        × (t.next_buffer ≡ size)
        × (t.memory ≡ copy 0 (take m (drop k s.arriving)) (copy 0 (take k s.arriving) s.memory))
  unfolding read
  read_in_two k m rest p q sum e = (
    record (delivered halfway m rest) { next_buffer = 0 + k + m; next_size = 0 },
    loop-returned os size timeout all_operated (suc fuel) k (pos 0) begun (returned m ∷ rest) opened
          e
        ∙ first
        ∙ loop-returned os size timeout all_operated fuel m (pos 0) halfway rest opened refl
        ∙ second,
    omega arith,
    refl,
  )
    where
      halfway : Reading
      halfway = record (delivered begun k (returned m ∷ rest)) {
        next_buffer = 0 + k;
        next_size = size - k;
      }

      first :
          unless
            (operation os 0 size all_operated)
            timeout
            (perform_loop (operation os 0 size all_operated) timeout (suc fuel))
            (all_operated
              (delivered begun k (returned m ∷ rest))
              (if ltb 0 k then pos 0 else pos 0))
          ≡ perform_loop (operation os 0 size all_operated) timeout (suc fuel) (pos 0) halfway
      first = rw (f1, f2, f3) refl
        where
          f1 : ltb 0 k ≡ true
          f1 = ground arith

          f2 : (k == 0) ≡ false
          f2 = ground arith

          f3 : ltb k size ≡ true
          f3 = ground arith

      second :
          unless
            (operation os 0 size all_operated)
            timeout
            (perform_loop (operation os 0 size all_operated) timeout fuel)
            (all_operated (delivered halfway m rest) (if ltb 0 m then pos 0 else pos 0))
          ≡ done
              (pos 0, record (delivered halfway m rest) { next_buffer = 0 + k + m; next_size = 0 })
      second = rw (s1, s2, s3, s4) refl
        where
          s1 : ltb 0 m ≡ true
          s1 = ground arith

          s2 : (m == 0) ≡ false
          s2 = ground arith

          s3 : ltb m (size - k) ≡ false
          s3 = ground arith

          s4 : (m == size - k) ≡ true
          s4 = ground arith

  -- A stream that has ended when `read` first calls `::recvmsg`: `read` returns REMOTELY_CLOSED and counts nothing.
  pub read_end_at_once :
      (rest : List CallResult)
      → s.results ≡ returned 0 ∷ rest
      → (t : Reading) × (read os (suc fuel) true size timeout s ≡ done (Error.remotely_closed, t))
        × (t.next_buffer ≡ 0)
  unfolding read
  read_end_at_once rest e = (
    delivered begun 0 rest,
    loop-returned os size timeout all_operated fuel 0 (pos 0) begun rest opened e ∙ refl,
    refl,
  )

  -- A stream that ends after `read` had to wait once: `read` returns EAGAIN, the error of the call before the wait,
  -- and counts nothing.
  pub read_end_after_wait :
      (rest : List CallResult) (ws : List Wake)
      → s.results ≡ failed os.eagain ∷ returned 0 ∷ rest
      → s.wakes ≡ record { in_time = true; shutdown = false } ∷ ws
      → (t : Reading) × (read os (suc (suc fuel)) true size timeout s ≡ done (pos os.eagain, t))
        × (t.next_buffer ≡ 0)
  unfolding read
  read_end_after_wait rest ws e f = (
    delivered after 0 rest,
    loop-eagain os size timeout all_operated (suc fuel) (pos 0) begun (returned 0 ∷ rest) ws opened
          refl e f
        ∙ loop-returned os size timeout all_operated fuel 0 (pos os.eagain) after rest
            (rw opened refl) refl
        ∙ rw nonzero refl,
    refl,
  )
    where
      waiting : Reading
      waiting = delivered begun 0 (returned 0 ∷ rest)

      after : Reading
      after = record waiting { wakes = ws; shutdown = s.shutdown || false }

      nonzero : ltb 0 os.eagain ≡ true
      nonzero = ground (arith, os.eagain_pos)

  -- An errno of the socket other than EAGAIN and EINTR is lost by `readSome`: it returns no bytes and
  -- REMOTELY_CLOSED, and `read` returns the errno itself.
  pub read_some-read_errno :
      (k : ℕ) (rest : List CallResult)
      → s.results ≡ failed k ∷ rest
      → 0 < k
      → k ≢ os.eagain
      → k ≢ os.eintr
      → ((t : Reading) × (read_some os (suc fuel) true size timeout s
            ≡ done (Error.remotely_closed, t))
          × (t.bytes_read ≡ 0))
        × ((t : Reading) × (read os (suc fuel) true size timeout s ≡ done (pos k, t))
            × (t.next_buffer ≡ 0))
  unfolding read read_some
  read_some-read_errno k rest e h p q = (
    (
      delivered (record s { bytes_read = 0; interrupted = false }) 0 rest,
      loop-failed os size timeout some_operated fuel k (pos 0)
            (record s { bytes_read = 0; interrupted = false }) rest opened e p q
          ∙ refl,
      refl,
    ),
    (
      delivered begun 0 rest,
      loop-failed os size timeout all_operated fuel k (pos 0) begun rest opened e p q
          ∙ rw nonzero refl,
      refl,
    ),
  )
    where
      nonzero : ltb 0 k ≡ true
      nonzero = ground arith
