-- ===== src/Net/Tests.antt =====
-- The theorems on sockets, streams and addresses at concrete states, with the numbers of Linux.
use ustevent.Prelude.{
  ℕ, ◌≤◌, ◌≡◌, ◌≢◌, ◌⊎◌, refl, sym, ap, true, false, Option, none, some, List, [], ◌∷◌, done, fault,
  ℤ, pos, arith, replicate, take, drop, copy, length,
}
use ustevent.Net.Platform.{Platform, CallResult, returned, failed}
use ustevent.Net.TcpSocket.{TcpSocket}
use ustevent.Net.ReadStream.{Reading, read}
use ustevent.Net.ReadStream.Resumed.{read_in_two, read_end_after_wait}
use ustevent.Net.ReadStream.Returned.{read-Returns}
use ustevent.Net.WriteStream.{Writing}
use ustevent.Net.IpAddress.{parse, parse_buffer, parse_v4}
use ustevent.Net.IpAddress.Mapped.{parse_buffer_lem}
use ustevent.Net.TcpAddress.{Sockets}

abbrev pub linux : Platform
linux = record {
  eagain = 11;
  eintr = 4;
  epipe = 32;
  einprogress = 115;
  af_inet = 2;
  af_inet6 = 10;
  eagain_pos = omega arith;
  eintr_pos = omega arith;
  epipe_pos = omega arith;
  einprogress_pos = omega arith;
  eagain-ne-eintr = λ e. omega arith;
  eagain-ne-epipe = λ e. omega arith;
  eintr-ne-epipe = λ e. omega arith;
  af_inet-ne-af_inet6 = λ e. omega arith;
}

abbrev five : TcpSocket
five = record { socket_fd = some 5 }

abbrev six : TcpSocket
six = record { socket_fd = some 6 }

-- A stream whose socket has the given results to come, and delivers 1, 2, 3 into a buffer of four zeros.
abbrev pub stream : List CallResult → Reading
stream rs = record {
  shutdown = false;
  interrupted = false;
  socket = five;
  results = rs;
  arriving = 1 ∷ 2 ∷ 3 ∷ [];
  wakes = record { in_time = true; shutdown = false } ∷ [];
  memory = 0 ∷ 0 ∷ 0 ∷ 0 ∷ [];
  bytes_read = 0;
  next_buffer = 0;
  next_size = 0;
}

abbrev pub sink : List CallResult → Writing
sink rs = record {
  shutdown = false;
  interrupted = false;
  socket = five;
  results = rs;
  wakes = [];
  message = 1 ∷ 2 ∷ 3 ∷ [];
  wire = [];
  bytes_written = 0;
  next_data = 0;
  next_size = 0;
}

read_in_two_example :
    (t : Reading) × (read linux 2 true 3 (pos 0) (stream (returned 2 ∷ returned 1 ∷ []))
      ≡ done (pos 0, t))
    × (t.next_buffer ≡ 3)
    × (t.memory
        ≡ copy 0
            (take 1 (drop 2 (1 ∷ 2 ∷ 3 ∷ [])))
            (copy 0 (take 2 (1 ∷ 2 ∷ 3 ∷ [])) (0 ∷ 0 ∷ 0 ∷ 0 ∷ [])))
read_in_two_example =
    read_in_two linux 0 3 (pos 0) (stream (returned 2 ∷ returned 1 ∷ [])) refl 2 1 [] (omega arith)
      (omega arith) refl refl

read_end_after_wait_example :
    (t : Reading) × (read linux 2 true 3 (pos 0) (stream (failed 11 ∷ returned 0 ∷ []))
      ≡ done (pos 11, t))
    × (t.next_buffer ≡ 0)
read_end_after_wait_example =
    read_end_after_wait linux 0 3 (pos 0) (stream (failed 11 ∷ returned 0 ∷ [])) refl [] [] refl
      refl

abbrev filled : Reading
filled = record (stream []) {
  bytes_read = 3;
  next_buffer = 3;
  arriving = [];
  memory = 1 ∷ 2 ∷ 3 ∷ 0 ∷ [];
}

-- Two bytes, nothing, and a wait of two that ends at its time.
abbrev slow : Reading
slow =
    record (stream
      (returned 2 ∷ failed 4 ∷ failed 11 ∷ failed 11 ∷ returned 1 ∷ returned 1 ∷ returned 1 ∷ [])) {
        wakes =
            record { in_time = true; shutdown = false }
            ∷ record { in_time = false; shutdown = false }
            ∷ [];
      }

read-Returns_example :
    (read linux 6 true 3 (pos 5) slow ≡ fault)
    ⊎ ((error : ℤ) × (t : Reading) × (read linux 6 true 3 (pos 5) slow ≡ done (error, t))
        × (t.next_buffer ≤ 3)
        × ((t.next_buffer ≡ 3) ⊎ (error ≢ pos 0)))
read-Returns_example =
    read-Returns linux 3 6 true (pos 5) slow refl refl (omega arith) (omega arith)

abbrev drained : Writing
drained = record (sink []) { bytes_written = 3; next_data = 3; wire = 1 ∷ 2 ∷ 3 ∷ [] }

-- A parser that takes every text of one character for 127.0.0.1.
abbrev pton : List ℕ → Option (List ℕ)
pton (x ∷ []) = some (127 ∷ 0 ∷ 0 ∷ 1 ∷ [])
pton _ = none

abbrev no_pton : List ℕ → Option (List ℕ)
no_pton host = none

abbrev bytes_in : Option (List ℕ) → ℕ
bytes_in none = 4
bytes_in (some b) = length b

pton_four : (t b : List ℕ) → pton t ≡ some b → length b ≡ 4
pton_four [] b h = sym (ap bytes_in h)
pton_four (x ∷ []) b h = sym (ap bytes_in h)
pton_four (x ∷ y ∷ t) b h = sym (ap bytes_in h)

parse_buffer_lem_example :
    parse_buffer pton no_pton (97 ∷ []) (replicate 16 0) 16
    ≡ (true, copy 0 (127 ∷ 0 ∷ 0 ∷ 1 ∷ []) (replicate 16 0))
unfolding parse parse_v4
parse_buffer_lem_example = parse_buffer_lem pton no_pton (97 ∷ []) (replicate 16 0) 16 (omega arith)

abbrev sockets : Sockets
sockets = record {
  af_inet = 2;
  af_inet6 = 10;
  htons = λ n. n;
  bytes = λ n. n ∷ 0 ∷ [];
  pton_v4 = pton;
  pton_v6 = no_pton;
}
