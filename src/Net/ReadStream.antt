-- ===== src/Net/ReadStream.antt =====
-- ustevent/net/detail/ReactorSyncReadStream.hpp and
-- ustevent/net/tcp/detail/linux/TcpSyncReadStream.cpp: reading from a socket until there is
-- something, or until the buffer is full.
pub mod Results
pub mod Loops
pub mod Resumed
pub mod Returned
use ustevent.Prelude.{
  ℕ, zero, suc, ◌+◌, ◌-◌, Bool, true, false, not, Option, none, some, List, [], ◌∷◌, Outcome, done,
  spin, fault, ◌==◌, ltb, if◌then◌else◌, ℤ, pos, is_error, take, drop, copy, ◌||◌, ◌>>=◌,
}
use ustevent.Net.Error
use ustevent.Net.Platform.{Platform, CallResult}
use ustevent.Net.TcpSocket.{TcpSocket, Io, non_blocking_receive}
use ustevent.Net.EventOperation.{Operation, perform}

-- How a wait ends: in time or not, and whether the stream is shut down by then. The flag `_interrupted`
-- belongs to the operation, which no other code can reach: `interrupt` of a stream makes an operation of
-- its own and sets the flag of that one.
pub record Wake : Type 0 where
  pub in_time : Bool
  pub shutdown : Bool

-- The stream, the variables of the call, and what the system does: `results` are those of the calls
-- of `::recvmsg` to come, `arriving` the bytes that they deliver, `wakes` the waits to come.
-- `next_buffer` is an offset into the caller's buffer, whose bytes are `memory`.
pub record Reading : Type 0 where
  pub shutdown : Bool
  pub interrupted : Bool
  pub socket : TcpSocket
  pub results : List CallResult
  pub arriving : List ℕ
  pub wakes : List Wake
  pub memory : List ℕ
  pub bytes_read : ℕ
  pub next_buffer : ℕ
  pub next_size : ℕ

abbrev pub received_into :
    Reading → ℕ → Option (Io × List CallResult) → Outcome (Bool × ℤ × Reading)
received_into s offset none = spin
received_into s offset (some (io, rest)) = done (
  io.finished,
  io.error,
  record s {
    results = rest;
    bytes_read = io.transferred;
    memory = copy offset (take io.transferred s.arriving) s.memory;
    arriving = drop io.transferred s.arriving;
  },
)

-- `nonBlockingReadSome(buffer, size, &bytes_read, error)`. The size bounds the results of
-- `::recvmsg`.
unfoldable pub non_blocking_read_some :
    Platform → ℕ → ℕ → Reading → ℤ → Outcome (Bool × ℤ × Reading)
non_blocking_read_some os buffer size s error =
    received_into s buffer (non_blocking_receive os s.socket s.results error)

abbrev pub take_wake : Reading → List Wake → Outcome (Bool × Reading)
take_wake s [] = spin
take_wake s (w ∷ ws) =
    done (w.in_time, record s { wakes = ws; shutdown = s.shutdown || w.shutdown })

abbrev pub wait_for : Reading → Outcome (Bool × Reading)
wait_for s = take_wake s s.wakes

abbrev pub wait : Reading → Outcome Reading
wait s = wait_for s >>= λ r. done r.1

-- `readSome`: what is done when the operation has been performed.
abbrev pub some_operated : Reading → ℤ → Outcome (Bool × ℤ × Reading)
some_operated s error = done (true, (if s.bytes_read == 0 then Error.remotely_closed else error), s)

-- The same of `read`.
abbrev pub all_operated : Reading → ℤ → Outcome (Bool × ℤ × Reading)
all_operated s error =
    if is_error error
    then done (true, error, s)
    else if s.bytes_read == 0
    then done (true, Error.remotely_closed, s)
    else if ltb s.bytes_read s.next_size
    then done (
      false,
      error,
      record s {
        next_buffer = s.next_buffer + s.bytes_read;
        next_size = s.next_size - s.bytes_read;
      },
    )
    else if s.bytes_read == s.next_size
    then done (true, error, record s { next_buffer = s.next_buffer + s.bytes_read; next_size = 0 })
    else fault

-- The lambda captures the buffer and the size by value, so they are those of the call.
abbrev pub operation :
    Platform → ℕ → ℕ → (Reading → ℤ → Outcome (Bool × ℤ × Reading)) → Operation Reading
operation os buffer size on_operated = record {
  is_open = λ s. not s.shutdown;
  non_blocking_operation = non_blocking_read_some os buffer size;
  on_operated = on_operated;
  on_notified = λ s error. done (false, error, s);
  wait_for = wait_for;
  wait = wait;
  interrupted = λ s. s.interrupted;
  clear_interrupted = λ s. record s { interrupted = false };
}

-- The error, and the state with the count in `bytes_read`.
unfoldable pub read_some : Platform → ℕ → Bool → ℕ → ℤ → Reading → Outcome (ℤ × Reading)
unfolding perform
read_some os fuel has_object size timeout s =
    perform (operation os 0 size some_operated) timeout fuel has_object
      (record s { bytes_read = 0 })

-- The error, and the state with the count in `next_buffer`.
unfoldable pub read : Platform → ℕ → Bool → ℕ → ℤ → Reading → Outcome (ℤ × Reading)
unfolding perform
read os fuel has_object size timeout s =
    perform (operation os 0 size all_operated) timeout fuel has_object
      (record s { bytes_read = 0; next_buffer = 0; next_size = size })
