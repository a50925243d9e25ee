-- ===== src/Net/TcpConnection/Ends.antt =====
-- What a connection does when it is shut down or closed.
use ustevent.Prelude.{ℕ, suc, ◌≡◌, refl, arith, Option, some, ◌++◌, done}
use ustevent.Net.Error
use ustevent.Net.Platform.{Platform, CallResult, returned}
use ustevent.Net.TcpSocket
use ustevent.Net.TcpSocket.{TcpName}
use ustevent.Net.EventOperation.{perform, perform_loop}
use ustevent.Net.EventObject
use ustevent.Net.EventObject.{EventObject}
use ustevent.Net.EventObject.Effects.{closings}
use ustevent.Net.ReadStream
use ustevent.Net.ReadStream.{Reading}
use ustevent.Net.WriteStream
use ustevent.Net.WriteStream.{Writing}
use ustevent.Net.TcpConnection.{
  TcpConnection, shutdown, close, read_some, read, write_some, write, connection_of,
}

-- After `shutdown` every call of the connection returns CLOSED: `readSome` and `read` count nothing, make no call of
-- the system and leave the buffer, and `writeSome` and `write` count nothing and send nothing, whatever the two
-- `::shutdown` have returned.
pub shutdown-closed :
    (os : Platform) (fuel size : ℕ) (c : TcpConnection) (reading writing : CallResult) (s : Reading)
    (w : Writing)
    → let d = shutdown c reading writing in
      ((t : Reading) × (read_some os (suc fuel) size d s ≡ done (Error.closed, t))
        × (t.bytes_read ≡ 0)
        × (t.results ≡ s.results)
        × (t.memory ≡ s.memory))
      × ((t : Reading) × (read os (suc fuel) size d s ≡ done (Error.closed, t))
          × (t.next_buffer ≡ 0)
          × (t.results ≡ s.results)
          × (t.memory ≡ s.memory))
      × ((t : Writing) × (write_some os (suc fuel) size d w ≡ done (Error.closed, t))
          × (t.bytes_written ≡ 0)
          × (t.results ≡ w.results)
          × (t.wire ≡ w.wire))
      × ((t : Writing) × (write os (suc fuel) size d w ≡ done (Error.closed, t))
          × (t.next_data ≡ 0)
          × (t.results ≡ w.results)
          × (t.wire ≡ w.wire))
unfolding shutdown read_some read write_some write ReadStream.read_some ReadStream.read
    WriteStream.write_some WriteStream.write perform perform_loop
shutdown-closed os fuel size c reading writing s w = (
  (_, refl, refl, refl, refl),
  (_, refl, refl, refl, refl),
  (_, refl, refl, refl, refl),
  (_, refl, refl, refl, refl),
)

-- A registered connection that is closed and then destroyed, each `::close` of which succeeds, closes its descriptor
-- three times.
pub close-destroy_connection :
    (fd n a b : ℕ) (local remote : Option TcpName)
    → let connection =
        connection_of
          (record { event_notifier = some n; resource = record { socket_fd = some fd } })
          local
          remote in
      let (closed, effects) = close connection (returned a) in
      closings fd (effects ++ EventObject.destroy closed.event_socket (returned b)) ≡ 3
unfolding close EventObject.destroy TcpSocket.close TcpSocket.destroy
close-destroy_connection fd n a b local remote = ground arith
