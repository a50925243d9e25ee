-- ===== src/Net/Platform.antt =====
-- What the sources take from the operating system: the
-- numbers of its headers and the results of its calls.
use ustevent.Prelude.{ℕ, ◌<◌, ◌≢◌, ℤ, pos}

-- Constants of <errno.h> and <sys/socket.h>, which are not part of the repository.
pub record Platform : Type 0 where
  pub eagain : ℕ
  pub eintr : ℕ
  pub epipe : ℕ
  pub einprogress : ℕ
  pub af_inet : ℕ
  pub af_inet6 : ℕ
  pub eagain_pos : 0 < eagain
  pub eintr_pos : 0 < eintr
  pub epipe_pos : 0 < epipe
  pub einprogress_pos : 0 < einprogress
  pub eagain-ne-eintr : eagain ≢ eintr
  pub eagain-ne-epipe : eagain ≢ epipe
  pub eintr-ne-epipe : eintr ≢ epipe
  pub af_inet-ne-af_inet6 : af_inet ≢ af_inet6

-- A system call that returns a number, or fails with an errno.
pub data CallResult : Type 0 where
  returned : ℕ → CallResult
  failed : ℕ → CallResult

-- The pattern `if (call() != 0) return errno; return 0;`
abbrev pub error_of : CallResult → ℤ
error_of (returned n) = pos 0
error_of (failed e) = pos e
