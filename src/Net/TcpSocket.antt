-- ===== src/Net/TcpSocket.antt =====
-- ustevent/net/tcp/detail/linux/TcpSocket.h and .cpp. The results of the system calls that a method
-- makes are its arguments; a loop that retries a call takes the list of its results, and is `none`
-- where the list ends before the loop does.
pub mod Loops
pub mod Ownership
use ustevent.Prelude.{
  ℕ, Bool, true, false, not, ◌&&◌, ◌||◌, Option, none, some, List, [], ◌∷◌, ◌++◌, ◌==◌, ltb, leb,
  if◌then◌else◌, ℤ, pos, is_error, ◌≤◌, take,
}
use ustevent.Net.Error
use ustevent.Net.Protocal
use ustevent.Net.Platform.{Platform, CallResult, returned, failed, error_of}

-- `none` is INVALID_FD.
pub record TcpSocket : Type 0 where
  pub socket_fd : Option ℕ

-- The assignment of the result of `::socket`, and the test behind the switch of `open`.
abbrev pub store_opened : CallResult → ℤ × TcpSocket
store_opened (returned fd) = (pos 0, record { socket_fd = some fd })
store_opened (failed e) = (pos e, record { socket_fd = none })

-- The error of a protocol that is not one of TCP over IP.
abbrev pub unsupported : ℕ → ℤ
unsupported protocal =
    if not (Protocal.has_ipv4 protocal) && not (Protocal.has_ipv6 protocal)
    then Error.invalid_network_protocal
    else Error.invalid_transport_protocal

-- `opened` is the result of `::socket`.
unfoldable pub open_socket : TcpSocket → ℕ → CallResult → ℤ × TcpSocket
open_socket s protocal opened =
    if protocal == Protocal.tcp_ipv4 || protocal == Protocal.tcp_ipv6
    then store_opened opened
    else (unsupported protocal, s)

-- The error, the socket, and the descriptors that `::close` is called on.
abbrev pub close_fd : Option ℕ → CallResult → ℤ × TcpSocket × List ℕ
close_fd none closed = (pos 0, record { socket_fd = none }, [])
close_fd (some fd) (returned _) = (pos 0, record { socket_fd = some fd }, fd ∷ [])
close_fd (some fd) (failed e) = (pos e, record { socket_fd = none }, fd ∷ [])

unfoldable pub close : TcpSocket → CallResult → ℤ × TcpSocket × List ℕ
close s closed = close_fd s.socket_fd closed

-- The destructor: the descriptors that it closes.
abbrev pub destroy_fd : Option ℕ → List ℕ
destroy_fd none = []
destroy_fd (some fd) = fd ∷ []

unfoldable pub destroy : TcpSocket → List ℕ
destroy s = destroy_fd s.socket_fd

-- The move constructor: the new socket and the old one.
pub move_construct : TcpSocket → TcpSocket × TcpSocket
move_construct another = (record { socket_fd = another.socket_fd }, record { socket_fd = none })

-- The move assignment between two objects: the one assigned to and the old one.
pub move_assign : TcpSocket → TcpSocket → TcpSocket × TcpSocket
move_assign s another =
    (record s { socket_fd = another.socket_fd }, record another { socket_fd = none })

pub release : TcpSocket → Option ℕ × TcpSocket
release s = (s.socket_fd, record s { socket_fd = none })

pub shutdown : TcpSocket → CallResult → ℤ
shutdown s result = error_of result

-- The result of `::setsockopt` is not looked at.
unfoldable pub bind : TcpSocket → CallResult → CallResult → ℤ
bind s reuse bound = error_of bound

unfoldable pub listen : TcpSocket → CallResult → ℤ
listen s result = error_of result

unfoldable pub connect : TcpSocket → CallResult → ℤ
connect s result = error_of result

unfoldable pub set_reuse_port : TcpSocket → CallResult → ℤ
set_reuse_port s result = error_of result

pub set_no_delay : TcpSocket → CallResult → ℤ
set_no_delay s result = error_of result

-- What `nonBlockingReceive` and `nonBlockingSend` return: the result and the output parameters.
pub record Io : Type 0 where
  pub finished : Bool
  pub transferred : ℕ
  pub error : ℤ

-- What `::accept4` does: a new descriptor and the length of the peer's address, or an errno.
pub data Accepting : Type 0 where
  accepted : ℕ → ℕ → Accepting
  refused : ℕ → Accepting

-- The results of `nonBlockingAccept`. The last field says whether the remote address is kept.
pub record Accept : Type 0 where
  pub finished : Bool
  pub accepted_socket : Option ℕ
  pub error : ℤ
  pub has_address : Bool

-- `size` is the size of the remote address that is passed, if one is.
abbrev pub keeps : Option ℕ → ℕ → Bool
keeps none address_length = false
keeps (some size) address_length = leb address_length size

abbrev pub given : Option ℕ → Bool
given none = false
given (some size) = true

module _ (os : Platform) where
  open os use {eagain, eintr, einprogress}

  -- `so_error` is the value of SO_ERROR, or `none` where `::getsockopt` fails with `e`.
  unfoldable pub non_blocking_connect : TcpSocket → Option ℕ → ℕ → Bool × ℤ
  non_blocking_connect s none e = (true, pos e)
  non_blocking_connect s (some so_error) e = (not (so_error == einprogress), pos so_error)

  -- An error that ends the loops below.
  abbrev pub stop : ℕ → Io
  stop e = record { finished = not (e == eagain); transferred = 0; error = pos e }

  -- The last argument is `*error` before the call, which is left alone at the end of the stream.
  unfoldable pub non_blocking_receive :
      TcpSocket → List CallResult → ℤ → Option (Io × List CallResult)
  non_blocking_receive s [] before = none
  non_blocking_receive s (returned n ∷ rest) before =
      some (
        record { finished = true; transferred = n; error = if ltb 0 n then pos 0 else before },
        rest,
      )
  non_blocking_receive s (failed e ∷ rest) before =
      let again = non_blocking_receive s rest before in
      if e == eagain then some (stop e, rest) else if e == eintr then again else some (stop e, rest)

  -- A call that sends nothing leaves `errno` at 0.
  unfoldable pub non_blocking_send : TcpSocket → List CallResult → Option (Io × List CallResult)
  non_blocking_send s [] = none
  non_blocking_send s (returned n ∷ rest) =
      some (record { finished = true; transferred = n; error = pos 0 }, rest)
  non_blocking_send s (failed e ∷ rest) =
      let again = non_blocking_send s rest in
      if e == eagain then some (stop e, rest) else if e == eintr then again else some (stop e, rest)

  abbrev pub no_socket : ℕ → Option ℕ → Accept
  no_socket e size = record {
    finished = not (e == eagain);
    accepted_socket = none;
    error = pos e;
    has_address = given size;
  }

  unfoldable pub non_blocking_accept :
      TcpSocket → List Accepting → Option ℕ → Option (Accept × List Accepting)
  non_blocking_accept s [] size = none
  non_blocking_accept s (accepted fd address_length ∷ rest) size = some (
    record {
      finished = true;
      accepted_socket = some fd;
      error = pos 0;
      has_address = keeps size address_length;
    },
    rest,
  )
  non_blocking_accept s (refused e ∷ rest) size =
      let again = non_blocking_accept s rest size in
      if e == eagain
      then some (no_socket e size, rest)
      else if e == eintr
      then again
      else some (no_socket e size, rest)

-- What `::getsockname` or `::getpeername` does: an errno, or the length and the family of an address
-- and the bytes of the storage.
pub data Naming : Type 0 where
  unnamed : ℕ → Naming
  named : ℕ → ℕ → List ℕ → Naming

-- An address of one of the two classes, by its bytes.
pub data TcpName : Type 0 where
  v4 : List ℕ → TcpName
  v6 : List ℕ → TcpName

-- `sizeof(sockaddr_storage)` and the sizes of the two classes.
abbrev pub size_of_tcpip_address_storage : ℕ
size_of_tcpip_address_storage = 128

abbrev pub size_of_tcpipv4_address : ℕ
size_of_tcpipv4_address = 16

abbrev pub size_of_tcpipv6_address : ℕ
size_of_tcpipv6_address = 28

module _ (os : Platform) where
  open os use {af_inet, af_inet6}

  unfoldable pub get_local_address : TcpSocket → Naming → Option TcpName × ℤ
  get_local_address s (unnamed e) = (none, pos e)
  get_local_address s (named address_length family bytes) =
      if ltb size_of_tcpip_address_storage address_length
      then (none, Error.invalid_network_protocal)
      else if family == af_inet
      then (some (v4 (take size_of_tcpipv4_address bytes)), pos 0)
      else if family == af_inet6
      then (some (v6 (take size_of_tcpipv6_address bytes)), pos 0)
      else (none, Error.invalid_network_protocal)

  pub get_remote_address : TcpSocket → Naming → Option TcpName × ℤ
  get_remote_address s (unnamed e) = (none, pos e)
  get_remote_address s (named address_length family bytes) =
      if ltb size_of_tcpip_address_storage address_length
      then (none, Error.invalid_network_protocal)
      else if family == af_inet
      then (some (v4 (take size_of_tcpipv4_address bytes)), pos 0)
      else if family == af_inet6
      then (some (v6 (take size_of_tcpipv6_address bytes)), pos 0)
      else (none, Error.invalid_network_protocal)
