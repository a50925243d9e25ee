-- ===== src/Net/TcpSocket/Loops.antt =====
-- The loops of the non-blocking methods over the results of the system calls.
use ustevent.Prelude.{
  ℕ, zero, suc, ◌≡◌, ◌≢◌, refl, true, not, Option, none, some, List, ◌∷◌, ◌++◌, ◌==◌, arith, ℤ, pos,
  replicate, ltb, if◌then◌else◌,
}
use ustevent.Net.Platform.{Platform, CallResult, returned, failed}
use ustevent.Net.TcpSocket.{
  TcpSocket, Io, non_blocking_receive, non_blocking_send, non_blocking_accept, Accepting, accepted,
  refused, Accept, keeps, given,
}

module _ (os : Platform) where
  open os use {eagain, eintr, eagain-ne-eintr}

  -- Not an interruption.
  abbrev pub Final : CallResult → Type 0
  Final (returned n) = Unit
  Final (failed e) = e ≢ eintr

  -- What `nonBlockingReceive` makes of the result that ends its loop.
  abbrev pub received : CallResult → ℤ → Io
  received (returned n) before = record {
    finished = true;
    transferred = n;
    error = if ltb 0 n then pos 0 else before;
  }
  received (failed e) before = record {
    finished = not (e == eagain);
    transferred = 0;
    error = pos e;
  }

  -- `nonBlockingReceive` skips any number of interruptions and answers by the next result of
  -- `::recvmsg`: a count with error 0, the end of the stream with the error left as it was, or an
  -- errno, which is "not finished" for EAGAIN alone.
  pub receive-retries :
      (s : TcpSocket) (n : ℕ) (c : CallResult) (rest : List CallResult) (before : ℤ)
      → Final c
      → non_blocking_receive os s (replicate n (failed eintr) ++ c ∷ rest) before
        ≡ some (received c before, rest)
  unfolding non_blocking_receive
  receive-retries s zero (returned k) rest before h = refl
  receive-retries s zero (failed e) rest before h = ground arith
  receive-retries s (suc n) c rest before h =
      ground (arith, receive-retries s n c rest before h, eagain-ne-eintr)

  abbrev pub sent : CallResult → Io
  sent (returned n) = record { finished = true; transferred = n; error = pos 0 }
  sent (failed e) = record { finished = not (e == eagain); transferred = 0; error = pos e }

  -- `nonBlockingSend` skips any number of interruptions and answers by the next result of
  -- `::sendmsg`: a count with error 0, or an errno, which is "not finished" for EAGAIN alone.
  pub send-retries :
      (s : TcpSocket) (n : ℕ) (c : CallResult) (rest : List CallResult)
      → Final c
      → non_blocking_send os s (replicate n (failed eintr) ++ c ∷ rest) ≡ some (sent c, rest)
  unfolding non_blocking_send
  send-retries s zero (returned k) rest h = refl
  send-retries s zero (failed e) rest h = ground arith
  send-retries s (suc n) c rest h = ground (arith, send-retries s n c rest h, eagain-ne-eintr)

  abbrev pub Decided : Accepting → Type 0
  Decided (accepted fd k) = Unit
  Decided (refused e) = e ≢ eintr

  abbrev pub answered : Accepting → Option ℕ → Accept
  answered (accepted fd k) size = record {
    finished = true;
    accepted_socket = some fd;
    error = pos 0;
    has_address = keeps size k;
  }
  answered (refused e) size = record {
    finished = not (e == eagain);
    accepted_socket = none;
    error = pos e;
    has_address = given size;
  }

  -- `nonBlockingAccept` skips any number of interruptions and answers by the next result of
  -- `::accept4`: a descriptor with error 0, the remote address kept only if it fits, or an errno
  -- with no descriptor, which is "not finished" for EAGAIN alone.
  pub accept-retries :
      (s : TcpSocket) (n : ℕ) (c : Accepting) (rest : List Accepting) (size : Option ℕ)
      → Decided c
      → non_blocking_accept os s (replicate n (refused eintr) ++ c ∷ rest) size
        ≡ some (answered c size, rest)
  unfolding non_blocking_accept
  accept-retries s zero (accepted fd k) rest size h = refl
  accept-retries s zero (refused e) rest size h = ground arith
  accept-retries s (suc n) c rest size h =
      ground (arith, accept-retries s n c rest size h, eagain-ne-eintr)
