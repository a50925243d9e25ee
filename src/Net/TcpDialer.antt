-- ===== src/Net/TcpDialer.antt =====
-- ustevent/net/tcp/detail/linux/TcpDialer.h and .cpp: connecting to an address. The two `connect` of
-- an IPv4 and an IPv6 address are `connect_to`, which the assertion of the second one tells apart.
pub mod Settled
pub mod Result
pub mod Returned
pub mod Waiting
use ustevent.Prelude.{
  ℕ, Bool, true, false, not, ◌&&◌, ◌||◌, Option, none, some, List, [], ◌∷◌, ◌++◌, map, ℤ, pos,
  negsuc, is_error, ◌==ℤ◌, ◌==◌, Outcome, done, spin, fault, ◌>>=◌, if◌then◌else◌,
}
use ustevent.Net.Error
use ustevent.Net.Protocal
use ustevent.Net.Platform.{Platform, CallResult}
use ustevent.Net.TcpSocket
use ustevent.Net.TcpSocket.{
  TcpSocket, TcpName, Naming, open_socket, unsupported, non_blocking_connect, get_local_address, v4,
  v6,
}
use ustevent.Net.EventOperation.{Operation, perform}
use ustevent.Net.EventObject
use ustevent.Net.EventObject.{EventObject, Effect, closes, Registration, event_object, init}
use ustevent.Net.TcpConnection.{TcpConnection, connection_of}

pub record TcpDialer : Type 0 where
  pub event_dial_socket : Option EventObject
  pub connect_timeout_milliseconds : ℤ
  pub is_connecting : Bool

unfoldable pub open_dialer : TcpDialer
open_dialer = record {
  event_dial_socket = none;
  connect_timeout_milliseconds = negsuc 0;
  is_connecting = false;
}

unfoldable pub set_connect_timeout : TcpDialer → ℤ → TcpDialer
set_connect_timeout d milliseconds = record d { connect_timeout_milliseconds = milliseconds }

-- What the system answers during a call of `connect`. `polls` are the values of SO_ERROR, or `none`
-- and the errno of `::getsockopt`; `wakes` say which waits end in time.
pub record Network : Type 0 where
  pub opened : CallResult
  pub registration : Registration
  pub connected : CallResult
  pub polls : List (Option ℕ × ℕ)
  pub wakes : List Bool
  pub naming : Naming
  pub final_registration : Registration
  pub closed : CallResult

-- The state of the operation that waits for the connection.
pub record Dialing : Type 0 where
  pub socket : TcpSocket
  pub polls : List (Option ℕ × ℕ)
  pub wakes : List Bool
  pub interrupted : Bool

abbrev pub poll : Platform → Dialing → List (Option ℕ × ℕ) → Outcome (Bool × ℤ × Dialing)
poll os s [] = spin
poll os s ((so_error, e) ∷ rest) =
    let (finished, error) = non_blocking_connect os s.socket so_error e in
    done (finished, error, record s { polls = rest })

abbrev pub take_wake : Dialing → List Bool → Outcome (Bool × Dialing)
take_wake s [] = spin
take_wake s (in_time ∷ rest) = done (in_time, record s { wakes = rest })

-- The flag of the operation is its own: nothing else can set it.
abbrev pub connect_operation : Platform → Operation Dialing
connect_operation os = record {
  is_open = λ s. true;
  non_blocking_operation = λ s error. poll os s s.polls;
  on_operated = λ s error. done (true, error, s);
  on_notified = λ s error. done (false, error, s);
  wait_for = λ s. take_wake s s.wakes;
  wait = λ s. take_wake s s.wakes >>= λ r. done r.1;
  interrupted = λ s. s.interrupted;
  clear_interrupted = λ s. record s { interrupted = false };
}

pub record Dialed : Type 0 where
  pub error : ℤ
  pub connection : Option TcpConnection
  pub dialer : TcpDialer
  pub effects : List Effect

-- The label `finally`.
abbrev pub finally : TcpDialer → ℤ → Option TcpConnection → List Effect → Dialed
finally d error connection effects = record {
  error = error;
  connection = if is_error error then none else connection;
  dialer = record d { event_dial_socket = none; is_connecting = false };
  effects = effects;
}

-- `assert(local_address->protocal() == TCP_IPV6)`.
abbrev pub is_v6 : Option TcpName → Bool
is_v6 (some (v6 bytes)) = true
is_v6 _ = false

module _ (os : Platform) (fuel protocal : ℕ) (d : TcpDialer) (remote : TcpName)
    (net : Network) where
  -- From `release` on, with the effects so far.
  unfoldable pub established : EventObject → List Effect → Outcome Dialed
  established object before =
      let (socket, empty, released) = EventObject.release object in
      let (local, error) = get_local_address os socket net.naming in
      if is_error error
      then done (
          finally d error none (
            ((before ++ released) ++ map closes (TcpSocket.destroy socket))
            ++ EventObject.destroy empty net.closed))
      else if (protocal == Protocal.tcp_ipv6) && not (is_v6 local)
      then fault
      else let (error, event_socket, registering) =
          init (event_object socket) net.final_registration in
        if is_error error
        then done (
            finally d error none (
              ((before ++ released) ++ registering) ++ EventObject.destroy event_socket net.closed))
        else done (
            finally d error (some (connection_of event_socket local (some remote)))
              (((before ++ released) ++ registering) ++ EventObject.destroy empty net.closed))

  -- From `connect` of the socket on.
  unfoldable pub started : EventObject → List Effect → Outcome Dialed
  started object before =
      let error = TcpSocket.connect object.resource net.connected in
      let failing =
        λ (e : ℤ). done (finally d e none (before ++ EventObject.destroy object net.closed)) in
      if error ==ℤ pos os.einprogress
      then (do
        (e, s) ← perform (connect_operation os) d.connect_timeout_milliseconds fuel true (record {
          socket = object.resource;
          polls = net.polls;
          wakes = net.wakes;
          interrupted = false;
        })
        if is_error e then failing e else established object before)
      else if is_error error
      then failing error
      else established object before

  unfoldable pub dial : Outcome Dialed
  dial =
      let (error, socket) = open_socket (record { socket_fd = none }) protocal net.opened in
      if is_error error
      then done (finally d error none (map closes (TcpSocket.destroy socket)))
      else let (error, object, registering) = init (event_object socket) net.registration in
        if is_error error
        then done (finally d error none (registering ++ EventObject.destroy object net.closed))
        else started object registering

  -- When the exchange of `_is_connecting` fails, what follows the block is done all the same. The object of the
  -- other call is destroyed when that call gives it up.
  unfoldable pub connect_to : Outcome Dialed
  connect_to = if d.is_connecting then done (finally d (pos 0) none []) else dial

-- `connect` of an address of any kind; `none` is a null pointer.
unfoldable pub connect : Platform → ℕ → TcpDialer → Option (ℕ × TcpName) → Network → Outcome Dialed
connect os fuel d none net =
    done (record { error = Error.invalid_argument; connection = none; dialer = d; effects = [] })
connect os fuel d (some (protocal, remote)) net =
    if (protocal == Protocal.tcp_ipv4) || (protocal == Protocal.tcp_ipv6)
    then connect_to os fuel protocal d remote net
    else done (record { error = unsupported protocal; connection = none; dialer = d; effects = [] })
