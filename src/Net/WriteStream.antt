-- ===== src/Net/WriteStream.antt =====
-- ustevent/net/detail/ReactorSyncWriteStream.hpp and
-- ustevent/net/tcp/detail/linux/TcpSyncWriteStream.cpp: writing to a socket until it
-- takes something, or until the message is sent.
pub mod Results
pub mod Resumed
use ustevent.Prelude.{
  ℕ, zero, suc, ◌+◌, ◌-◌, ◌++◌, Bool, true, false, not, Option, none, some, List, [], ◌∷◌, Outcome,
  done, spin, fault, ◌==◌, ltb, if◌then◌else◌, ℤ, pos, is_error, ◌==ℤ◌, take, drop, ◌||◌, ◌>>=◌,
}
use ustevent.Net.Error
use ustevent.Net.Platform.{Platform, CallResult}
use ustevent.Net.TcpSocket.{TcpSocket, Io, non_blocking_send}
use ustevent.Net.ReadStream.{Wake}
use ustevent.Net.EventOperation.{Operation, perform}

-- The stream, the variables of the call, and what the system does: `results` are those of the calls
-- of `::sendmsg` to come, `wire` the bytes that it has taken, `wakes` the waits to come. `message` is
-- the caller's data, and `next_data` an offset into it.
pub record Writing : Type 0 where
  pub shutdown : Bool
  pub interrupted : Bool
  pub socket : TcpSocket
  pub results : List CallResult
  pub wakes : List Wake
  pub message : List ℕ
  pub wire : List ℕ
  pub bytes_written : ℕ
  pub next_data : ℕ
  pub next_size : ℕ

abbrev pub sent_from : Writing → ℕ → Option (Io × List CallResult) → Outcome (Bool × ℤ × Writing)
sent_from s offset none = spin
sent_from s offset (some (io, rest)) = done (
  io.finished,
  io.error,
  record s {
    results = rest;
    bytes_written = io.transferred;
    wire = s.wire ++ take io.transferred (drop offset s.message);
  },
)

-- `nonBlockingWriteSome(data, size, &bytes_written, error)`. The size bounds the results of
-- `::sendmsg`.
unfoldable pub non_blocking_write_some :
    Platform → ℕ → ℕ → Writing → ℤ → Outcome (Bool × ℤ × Writing)
non_blocking_write_some os buffer size s error =
    sent_from s buffer (non_blocking_send os s.socket s.results)

abbrev pub take_wake : Writing → List Wake → Outcome (Bool × Writing)
take_wake s [] = spin
take_wake s (w ∷ ws) =
    done (w.in_time, record s { wakes = ws; shutdown = s.shutdown || w.shutdown })

abbrev pub wait_for : Writing → Outcome (Bool × Writing)
wait_for s = take_wake s s.wakes

abbrev pub wait : Writing → Outcome Writing
wait s = wait_for s >>= λ r. done r.1

-- `writeSome`: what is done when the operation has been performed.
abbrev pub some_operated : Platform → Writing → ℤ → Outcome (Bool × ℤ × Writing)
some_operated os s error =
    done (true, (if error ==ℤ pos os.epipe then Error.remotely_closed else error), s)

-- The same of `write`.
abbrev pub all_operated : Platform → Writing → ℤ → Outcome (Bool × ℤ × Writing)
all_operated os s error =
    if error ==ℤ pos os.epipe
    then done (true, Error.remotely_closed, s)
    else if is_error error
    then done (true, error, s)
    else if ltb s.bytes_written s.next_size
    then done (
      false,
      error,
      record s {
        next_data = s.next_data + s.bytes_written;
        next_size = s.next_size - s.bytes_written;
      },
    )
    else if s.bytes_written == s.next_size
    then done (true, error, record s { next_data = s.next_data + s.bytes_written; next_size = 0 })
    else fault

-- The lambda captures the data and the size by value, so they are those of the call.
abbrev pub operation :
    Platform → ℕ → ℕ → (Writing → ℤ → Outcome (Bool × ℤ × Writing)) → Operation Writing
operation os buffer size on_operated = record {
  is_open = λ s. not s.shutdown;
  non_blocking_operation = non_blocking_write_some os buffer size;
  on_operated = on_operated;
  on_notified = λ s error. done (false, error, s);
  wait_for = wait_for;
  wait = wait;
  interrupted = λ s. s.interrupted;
  clear_interrupted = λ s. record s { interrupted = false };
}

-- The error, and the state with the count in `bytes_written`.
unfoldable pub write_some : Platform → ℕ → Bool → ℕ → ℤ → Writing → Outcome (ℤ × Writing)
unfolding perform
write_some os fuel has_object size timeout s =
    perform (operation os 0 size (some_operated os)) timeout fuel has_object
      (record s { bytes_written = 0 })

-- The error, and the state with the count in `next_data`.
unfoldable pub write : Platform → ℕ → Bool → ℕ → ℤ → Writing → Outcome (ℤ × Writing)
unfolding perform
write os fuel has_object size timeout s =
    perform (operation os 0 size (all_operated os)) timeout fuel has_object
      (record s { bytes_written = 0; next_data = 0; next_size = size })
