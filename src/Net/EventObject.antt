-- ===== src/Net/EventObject.antt =====
-- ustevent/net/detail/EventObject.h and .hpp for a TcpSocket: a socket with its registration in a
-- selector. The results of `registerObject` and of `::close` are arguments; what is done to the
-- system is returned as a list of effects, in order.
pub mod Effects
use ustevent.Prelude.{ℕ, Option, none, some, List, [], ◌∷◌, ◌++◌, map, ℤ, pos}
use ustevent.Net.Platform.{CallResult}
use ustevent.Net.TcpSocket
use ustevent.Net.TcpSocket.{TcpSocket, destroy_fd}

pub data Effect : Type 0 where
  closes : ℕ → Effect
  registers : ℕ → Effect
  deregisters : ℕ → Effect

-- The result of `registerObject`: a notifier, or a null pointer and an errno.
pub data Registration : Type 0 where
  registered : ℕ → Registration
  unregistered : ℕ → Registration

pub record EventObject : Type 0 where
  pub event_notifier : Option ℕ
  pub resource : TcpSocket

-- The constructor, which moves the device.
abbrev pub event_object : TcpSocket → EventObject
event_object opened_device = record { event_notifier = none; resource = opened_device }

unfoldable pub init : EventObject → Registration → ℤ × EventObject × List Effect
init o (registered n) =
    (pos 0, record { event_notifier = some n; resource = o.resource }, registers n ∷ [])
init o (unregistered e) = (pos e, record { event_notifier = none; resource = o.resource }, [])

-- The destructor with that of its socket, whose `::close` closes whatever is left open.
abbrev pub destroy_notified : TcpSocket → CallResult → Option ℕ → List Effect
destroy_notified s closed none = map closes (TcpSocket.destroy s)
destroy_notified s closed (some n) =
    let (error, t, fds) = TcpSocket.close s closed in
    map closes fds ++ deregisters n ∷ map closes (TcpSocket.destroy t)

unfoldable pub destroy : EventObject → CallResult → List Effect
destroy o closed = destroy_notified o.resource closed o.event_notifier

-- `release`, and the move of its result into a new socket.
abbrev pub release_notified : Option ℕ → List Effect
release_notified none = []
release_notified (some n) = deregisters n ∷ []

unfoldable pub release : EventObject → TcpSocket × EventObject × List Effect
release o = (
  o.resource,
  record { event_notifier = none; resource = record { socket_fd = none } },
  release_notified o.event_notifier,
)
