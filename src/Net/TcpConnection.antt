-- ===== src/Net/TcpConnection.antt =====
-- ustevent/net/tcp/TcpConnection.h and .cpp: a connected socket with its two streams and addresses.
-- The streams are their flags and time-outs; a call on one is a call of ReadStream or WriteStream.
pub mod Ends
use ustevent.Prelude.{
  ℕ, Bool, true, false, Option, none, some, List, [], ◌∷◌, ◌++◌, map, ℤ, pos, negsuc, Outcome, done,
  ◌>>=◌,
}
use ustevent.Net.Platform.{Platform, CallResult, error_of}
use ustevent.Net.TcpSocket
use ustevent.Net.TcpSocket.{TcpSocket, TcpName}
use ustevent.Net.EventObject.{EventObject, Effect, closes}
use ustevent.Net.ReadStream
use ustevent.Net.ReadStream.{Reading}
use ustevent.Net.WriteStream
use ustevent.Net.WriteStream.{Writing}

pub record Stream : Type 0 where
  pub shutdown : Bool
  pub timeout_milliseconds : ℤ

pub record TcpConnection : Type 0 where
  pub event_socket : EventObject
  pub read_stream : Stream
  pub write_stream : Stream
  pub local_address : Option TcpName
  pub remote_address : Option TcpName

-- A new stream is open and has the time-out -1.
abbrev pub new_stream : Stream
new_stream = record { shutdown = false; timeout_milliseconds = negsuc 0 }

abbrev pub connection_of : EventObject → Option TcpName → Option TcpName → TcpConnection
connection_of event_socket local_address remote_address = record {
  event_socket = event_socket;
  read_stream = new_stream;
  write_stream = new_stream;
  local_address = local_address;
  remote_address = remote_address;
}

-- `shutdown` of a stream: the flag is set whatever `::shutdown` returns, and the error is dropped here.
unfoldable pub shutdown : TcpConnection → CallResult → CallResult → TcpConnection
shutdown c reading writing = record c {
  read_stream = record c.read_stream { shutdown = true };
  write_stream = record c.write_stream { shutdown = true };
}

unfoldable pub close : TcpConnection → CallResult → TcpConnection × List Effect
close c closed =
    let (error, t, fds) = TcpSocket.close c.event_socket.resource closed in
    (
      record c {
        event_socket = record c.event_socket { resource = t };
        local_address = none;
        remote_address = none;
      },
      map closes fds,
    )

unfoldable pub set_read_timeout : TcpConnection → ℤ → TcpConnection
set_read_timeout c milliseconds = record c {
  read_stream = record c.read_stream { timeout_milliseconds = milliseconds };
}

unfoldable pub set_write_timeout : TcpConnection → ℤ → TcpConnection
set_write_timeout c milliseconds = record c {
  write_stream = record c.write_stream { timeout_milliseconds = milliseconds };
}

-- A call on a stream, in an environment that supplies the results, the bytes and the waits of `s`: the error and
-- the state of the call.
module _ (os : Platform) (fuel size : ℕ) where
  unfoldable pub read_some : TcpConnection → Reading → Outcome (ℤ × Reading)
  read_some c s =
      ReadStream.read_some os fuel true size c.read_stream.timeout_milliseconds
        (record s { shutdown = c.read_stream.shutdown; socket = c.event_socket.resource })

  unfoldable pub read : TcpConnection → Reading → Outcome (ℤ × Reading)
  read c s =
      ReadStream.read os fuel true size c.read_stream.timeout_milliseconds
        (record s { shutdown = c.read_stream.shutdown; socket = c.event_socket.resource })

  unfoldable pub write_some : TcpConnection → Writing → Outcome (ℤ × Writing)
  write_some c s =
      WriteStream.write_some os fuel true size c.write_stream.timeout_milliseconds
        (record s { shutdown = c.write_stream.shutdown; socket = c.event_socket.resource })

  unfoldable pub write : TcpConnection → Writing → Outcome (ℤ × Writing)
  write c s =
      WriteStream.write os fuel true size c.write_stream.timeout_milliseconds
        (record s { shutdown = c.write_stream.shutdown; socket = c.event_socket.resource })
