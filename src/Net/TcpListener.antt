-- ===== src/Net/TcpListener.antt =====
-- ustevent/net/tcp/detail/linux/TcpListener.h and .cpp: a socket that listens at an address and
-- accepts connections. The two `open` of an IPv4 and an IPv6 address are `open_at`.
pub mod Opens
pub mod Answers
pub mod Accepted
pub mod Returned
pub mod Waiting
use ustevent.Prelude.{
  ℕ, Bool, true, false, ◌&&◌, ◌||◌, Option, none, some, List, [], ◌∷◌, ◌++◌, map, ℤ, pos, negsuc,
  is_error, ◌==◌, Outcome, done, spin, fault, ◌>>=◌, if◌then◌else◌, not,
}
use ustevent.Net.Error
use ustevent.Net.Protocal
use ustevent.Net.Platform.{Platform, CallResult}
use ustevent.Net.TcpSocket
use ustevent.Net.TcpSocket.{
  TcpSocket, TcpName, Accept, Accepting, open_socket, unsupported, set_reuse_port, bind, listen,
  non_blocking_accept, size_of_tcpipv4_address, size_of_tcpipv6_address,
}
use ustevent.Net.EventOperation.{Operation, perform}
use ustevent.Net.EventObject
use ustevent.Net.EventObject.{EventObject, Effect, closes, Registration, event_object, init}
use ustevent.Net.TcpConnection.{TcpConnection, connection_of}

-- The local address with its protocol.
pub record TcpListener : Type 0 where
  pub event_listen_socket : Option EventObject
  pub local_address : Option (ℕ × TcpName)
  pub accept_timeout_milliseconds : ℤ
  pub is_listening : Bool

-- The constructor, with the initializers of the header.
abbrev pub new_listener : EventObject → ℕ → TcpName → TcpListener
new_listener object protocal address = record {
  event_listen_socket = some object;
  local_address = some (protocal, address);
  accept_timeout_milliseconds = negsuc 0;
  is_listening = true;
}

-- What the system answers during a call of `open`: `reuse` and `bound` are those of `bind`.
pub record Opening : Type 0 where
  pub opened : CallResult
  pub reuse_port : CallResult
  pub registration : Registration
  pub reuse : CallResult
  pub bound : CallResult
  pub listened : CallResult
  pub closed : CallResult

pub record Opened : Type 0 where
  pub listener : Option TcpListener
  pub error : ℤ
  pub effects : List Effect

-- The assignments of `error` in a condition: the first one that is not 0.
abbrev pub first_error : List ℤ → ℤ
first_error [] = pos 0
first_error (e ∷ es) = let rest = first_error es in if is_error e then e else rest

module _ (protocal : ℕ) (address : TcpName) (sys : Opening) where
  -- From the event object on.
  unfoldable pub listen_on : TcpSocket → Opened
  listen_on socket =
      let (registered, object, registering) = init (event_object socket) sys.registration in
      let error = first_error (
        registered
        ∷ bind object.resource sys.reuse sys.bound
        ∷ listen object.resource sys.listened
        ∷ []) in
      if is_error error
      then record {
        listener = none;
        error = error;
        effects = registering ++ EventObject.destroy object sys.closed;
      }
      else record {
        listener = some (new_listener object protocal address);
        error = pos 0;
        effects = registering;
      }

  unfoldable pub open_at : Opened
  open_at =
      let (opened, socket) = open_socket (record { socket_fd = none }) protocal sys.opened in
      let error = first_error (opened ∷ set_reuse_port socket sys.reuse_port ∷ []) in
      let (ignored, closed, fds) = TcpSocket.close socket sys.closed in
      if is_error error
      then record {
        listener = none;
        error = error;
        effects = map closes fds ++ map closes (TcpSocket.destroy closed);
      }
      else listen_on socket

-- `open` with an address of any kind; `none` is a null pointer.
unfoldable pub open_listener : Option (ℕ × TcpName) → Opening → Opened
open_listener none sys = record { listener = none; error = Error.invalid_argument; effects = [] }
open_listener (some (protocal, address)) sys =
    if (protocal == Protocal.tcp_ipv4) || (protocal == Protocal.tcp_ipv6)
    then open_at protocal address sys
    else record { listener = none; error = unsupported protocal; effects = [] }

unfoldable pub set_accept_timeout : TcpListener → ℤ → TcpListener
set_accept_timeout l milliseconds = record l { accept_timeout_milliseconds = milliseconds }

unfoldable pub address : TcpListener → Option (ℕ × TcpName)
address l = l.local_address

-- `close`, which the destructor is too. Its `interrupt` sets the flag of an operation of its own. The object is
-- destroyed here, or by a call of `accept` that still has it, when that one ends.
abbrev pub reset_object : Option EventObject → CallResult → List Effect
reset_object none closed = []
reset_object (some object) closed = EventObject.destroy object closed

unfoldable pub close : TcpListener → CallResult → TcpListener × List Effect
close l closed = (
  record l { is_listening = false; event_listen_socket = none; local_address = none },
  reset_object l.event_listen_socket closed,
)

-- How a wait of `accept` ends: in time or not, and whether the listener is closed by then.
pub record Wake : Type 0 where
  pub in_time : Bool
  pub closed : Bool

-- What the system answers during a call of `accept`. `peer` is the address that the last call of `::accept4`
-- stores.
pub record Arrival : Type 0 where
  pub calls : List Accepting
  pub wakes : List Wake
  pub peer : TcpName
  pub registration : Registration
  pub closed : CallResult

-- The state of the operation.
pub record Pending : Type 0 where
  pub is_listening : Bool
  pub socket : TcpSocket
  pub calls : List Accepting
  pub wakes : List Wake
  pub accepted_socket_fd : Option ℕ
  pub has_address : Bool
  pub interrupted : Bool

abbrev pub take_wake : Pending → List Wake → Outcome (Bool × Pending)
take_wake s [] = spin
take_wake s (w ∷ ws) =
    done (w.in_time, record s { wakes = ws; is_listening = s.is_listening && not w.closed })

abbrev pub taken : Pending → Option (Accept × List Accepting) → Outcome (Bool × ℤ × Pending)
taken s none = spin
taken s (some (a, rest)) = done (
  a.finished,
  a.error,
  record s { calls = rest; accepted_socket_fd = a.accepted_socket; has_address = a.has_address },
)

-- `size` is the size of the class of the remote address.
abbrev pub accept_operation : Platform → ℕ → Operation Pending
accept_operation os size = record {
  is_open = λ s. s.is_listening;
  non_blocking_operation = λ s error.
      taken s (non_blocking_accept os s.socket s.calls (if s.has_address then some size else none));
  on_operated = λ s error. done (true, error, s);
  on_notified = λ s error. done (false, error, s);
  wait_for = λ s. take_wake s s.wakes;
  wait = λ s. take_wake s s.wakes >>= λ r. done r.1;
  interrupted = λ s. s.interrupted;
  clear_interrupted = λ s. record s { interrupted = false };
}

-- The error, the connection and what is done to the system.
pub record Served : Type 0 where
  pub error : ℤ
  pub connection : Option TcpConnection
  pub effects : List Effect

abbrev pub refuse : ℤ → List Effect → Served
refuse error effects = record { error = error; connection = none; effects = effects }

-- From the accepted socket on.
unfoldable pub serve : TcpName → Arrival → TcpSocket → Served
serve local sys socket =
    let (error, event_socket, registering) = init (event_object socket) sys.registration in
    if is_error error
    then refuse error (registering ++ EventObject.destroy event_socket sys.closed)
    else record {
      error = error;
      connection = some (connection_of event_socket (some local) (some sys.peer));
      effects = registering;
    }

-- What follows the operation, whose result the pair is.
abbrev pub served : TcpName → Arrival → ℤ × Pending → Outcome Served
served local sys (error, s) =
    if is_error error
    then done (refuse error [])
    else if s.has_address
    then done (serve local sys (record { socket_fd = s.accepted_socket_fd }))
    else fault

abbrev pub begun : TcpSocket → Arrival → Pending
begun socket sys = record {
  is_listening = true;
  socket = socket;
  calls = sys.calls;
  wakes = sys.wakes;
  accepted_socket_fd = none;
  has_address = true;
  interrupted = false;
}

-- `accept` of a listener that listens with its object, for a remote address of a class of the given size.
unfoldable pub accept_on : Platform → ℕ → ℤ → ℕ → TcpName → Arrival → EventObject → Outcome Served
unfolding perform
accept_on os fuel timeout size local sys object =
    perform (accept_operation os size) timeout fuel true (begun object.resource sys) >>= λ r.
    served local sys r

-- The branches on the protocol of the local address; without an object the operation is not performed.
abbrev pub accept_at :
    Platform → ℕ → ℤ → Arrival → Option EventObject → Option (ℕ × TcpName) → Outcome Served
accept_at os fuel timeout sys object none = fault
accept_at os fuel timeout sys none (some (protocal, local)) =
    if (protocal == Protocal.tcp_ipv4) || (protocal == Protocal.tcp_ipv6)
    then done (refuse Error.closed [])
    else done (refuse Error.invalid_transport_protocal [])
accept_at os fuel timeout sys (some object) (some (protocal, local)) =
    if protocal == Protocal.tcp_ipv4
    then accept_on os fuel timeout size_of_tcpipv4_address local sys object
    else if protocal == Protocal.tcp_ipv6
    then accept_on os fuel timeout size_of_tcpipv6_address local sys object
    else done (refuse Error.invalid_transport_protocal [])

unfoldable pub accept : Platform → ℕ → TcpListener → Arrival → Outcome Served
accept os fuel l sys =
    if l.is_listening
    then accept_at os fuel l.accept_timeout_milliseconds sys l.event_listen_socket l.local_address
    else done (refuse Error.closed [])
