-- ===== src/Net/TcpTests.antt =====
-- The theorems on dialers, listeners, connections and the selector at concrete states.
use ustevent.Prelude.{
  ℕ, inr, ◌+◌, ◌≡◌, refl, true, false, none, some, List, [], ◌∷◌, done, pos, arith,
}
use ustevent.Net.Error
use ustevent.Net.Platform.{returned, failed}
use ustevent.Net.TcpSocket.{
  TcpName, v4, named, accepted, refused, non_blocking_connect, get_local_address,
}
use ustevent.Net.EventObject
use ustevent.Net.EventObject.{EventObject, registered, init}
use ustevent.Net.TcpConnection
use ustevent.Net.TcpConnection.{TcpConnection, connection_of}
use ustevent.Net.TcpConnection.Ends.{shutdown-closed}
use ustevent.Net.TcpDialer.{TcpDialer, Network, Dialed, connect}
use ustevent.Net.TcpDialer.Settled.{Settled}
use ustevent.Net.TcpDialer.Result.{connect-Settled}
use ustevent.Net.TcpDialer.Waiting.{object}
use ustevent.Net.TcpListener.{
  TcpListener, Opening, Arrival, Served, new_listener, open_listener, accept,
}
use ustevent.Net.TcpListener.Opens.{Ends, open_listener-Ends}
use ustevent.Net.TcpListener.Accepted
use ustevent.Net.TcpListener.Accepted.{accept-Settled}
use ustevent.Net.TcpListener.Waiting.{accept-accepted}
use ustevent.Net.EpollSelector.{
  EpollSelector, EpollEvent, of_notifier, blank_notifier, create_selector, select, register_object,
}
use ustevent.Net.EpollSelector.Dispatch.{notified_times, select-notifies}
use ustevent.Net.EpollSelector.Notifiers.{Clean}
use ustevent.Net.EpollSelector.Reach.{Reached, created, register_object-Reached}
use ustevent.Net.Tests.{linux, stream, sink}
use ustevent.Net.ReadStream.{Reading}
use ustevent.Net.WriteStream.{Writing}
use ustevent.Core.ListNodeAllocator
use ustevent.Core.ListNodeAllocator.Chains.{has}

abbrev here : TcpName
here = v4 (2 ∷ 0 ∷ 31 ∷ 144 ∷ [])

abbrev there : TcpName
there = v4 (2 ∷ 0 ∷ 0 ∷ 80 ∷ [])

-- A connection to `there` that takes two waits, and then has a result.
abbrev network : ℕ → Network
network result = record {
  opened = returned 5;
  registration = registered 7;
  connected = failed 115;
  polls = (some 115, 0) ∷ (some 115, 0) ∷ (some result, 0) ∷ [];
  wakes = true ∷ true ∷ [];
  naming = named 16 2 (2 ∷ 0 ∷ 31 ∷ 144 ∷ []);
  final_registration = registered 8;
  closed = returned 0;
}

abbrev dialer : TcpDialer
dialer = record {
  event_dial_socket = none;
  connect_timeout_milliseconds = pos 50;
  is_connecting = false;
}

connect-Settled_example :
    (r : Dialed) × (connect linux 3 dialer (some (257, there)) (network 0) ≡ done r)
    × Settled 5 8 (registered 8) r
unfolding non_blocking_connect get_local_address
connect-Settled_example =
    connect-Settled linux 3 5 8 257 dialer there (network 0) refl refl refl tt (inr refl) refl
      (omega arith)

-- An address that is in use.
abbrev opening : Opening
opening = record {
  opened = returned 5;
  reuse_port = returned 0;
  registration = registered 7;
  reuse = returned 0;
  bound = failed 98;
  listened = returned 0;
  closed = returned 0;
}

open_listener-Ends_example :
    Ends 5 7 257 here (registered 7) (open_listener (some (257, here)) opening)
open_listener-Ends_example = open_listener-Ends 5 7 257 here opening refl tt refl

abbrev listening : TcpListener
listening = new_listener (object 5 7) 257 here

-- One wait, and then a peer.
abbrev arrival : Arrival
arrival = record {
  calls = refused 11 ∷ accepted 6 16 ∷ [];
  wakes = record { in_time = true; closed = false } ∷ [];
  peer = there;
  registration = registered 9;
  closed = returned 0;
}

abbrev service : Served
service = record {
  error = pos 0;
  connection = some (connection_of (object 6 9) (some here) (some there));
  effects = EventObject.registers 9 ∷ [];
}

accept-accepted_example : accept linux 2 listening arrival ≡ done service
accept-accepted_example =
    accept-accepted linux 257 here (object 5 7) listening arrival refl refl refl refl 1 1 6 16 9 []
      [] refl refl refl refl (omega arith)

accept-Settled_example :
    (r : Served) × (accept linux 2 listening arrival ≡ done r)
    × Accepted.Settled 6 9 (registered 9) r
accept-Settled_example =
    accept-Settled linux 2 6 9 listening arrival 257 here refl tt (tt, (refl, tt)) refl
      (omega arith)

abbrev connection : TcpConnection
connection = connection_of (object 6 9) (some here) (some there)

shutdown-closed_example :
    let d = TcpConnection.shutdown connection (returned 0) (failed 107) in
    ((t : Reading) × (TcpConnection.read_some linux 1 4 d (stream (returned 3 ∷ []))
        ≡ done (Error.closed, t))
      × (t.bytes_read ≡ 0)
      × (t.results ≡ returned 3 ∷ [])
      × (t.memory ≡ 0 ∷ 0 ∷ 0 ∷ 0 ∷ []))
    × ((t : Reading) × (TcpConnection.read linux 1 4 d (stream (returned 3 ∷ []))
          ≡ done (Error.closed, t))
        × (t.next_buffer ≡ 0)
        × (t.results ≡ returned 3 ∷ [])
        × (t.memory ≡ 0 ∷ 0 ∷ 0 ∷ 0 ∷ []))
    × ((t : Writing) × (TcpConnection.write_some linux 1 4 d (sink (returned 3 ∷ []))
          ≡ done (Error.closed, t))
        × (t.bytes_written ≡ 0)
        × (t.results ≡ returned 3 ∷ [])
        × (t.wire ≡ []))
    × ((t : Writing) × (TcpConnection.write linux 1 4 d (sink (returned 3 ∷ []))
          ≡ done (Error.closed, t))
        × (t.next_data ≡ 0)
        × (t.results ≡ returned 3 ∷ [])
        × (t.wire ≡ []))
shutdown-closed_example =
    shutdown-closed linux 0 4 connection (returned 0) (failed 107) (stream (returned 3 ∷ []))
      (sink (returned 3 ∷ []))

abbrev selector : EpollSelector
unfolding ListNodeAllocator.create
selector = record {
  epoll_fd = some 3;
  signal = 10;
  signal_fd = some 4;
  notifier_pool = ListNodeAllocator.create 32 blank_notifier;
}

-- An event of notifier 1 that says both, and two that it can be written, with one of notifier 0 between them.
abbrev both : EpollEvent
both = record {
  stored = of_notifier (some 1);
  epollin = true;
  epollout = true;
  epollerr = false;
  epollhup = false;
}

abbrev writable : ℕ → EpollEvent
writable n = record {
  stored = of_notifier (some n);
  epollin = false;
  epollout = true;
  epollerr = false;
  epollhup = false;
}

abbrev events : List EpollEvent
events = both ∷ writable 1 ∷ writable 0 ∷ writable 1 ∷ []

select-notifies_example :
    let before = selector.notifier_pool.value 1 in
    let after = (select (λ n. 4096 + n) selector events).notifier_pool.value 1 in
    (after.event_in ≡ notified_times 1 before.event_in)
    × (after.event_out ≡ notified_times 2 before.event_out)
    × (after.descriptor ≡ before.descriptor)
unfolding selector
select-notifies_example = select-notifies (λ n. 4096 + n) 1 selector events refl

selector-Reached : Reached selector []
unfolding create_selector
selector-Reached = created 10 (returned 3) (returned 4) (returned 0) (returned 0) selector refl

register_object-Reached_example :
    (n : ℕ) × (t : EpollSelector) × (register_object selector (some 5) (returned 0)
      ≡ done (some n, pos 0, t))
    × (has n [] ≡ false)
    × Clean (t.notifier_pool.value n)
    × ((t.notifier_pool.value n).descriptor ≡ some 5)
register_object-Reached_example = register_object-Reached selector [] (some 5) 0 selector-Reached
