-- ===== src/Net/TcpDialer/Waiting.antt =====
-- A connection that takes its time: the call goes on until the socket has a result.
use ustevent.Prelude.{
  ℕ, zero, suc, ◌≤◌, ◌<◌, ◌≡◌, ◌∙◌, refl, sym, subst, arith, List, [], ◌∷◌, Option, none, some, inl,
  inr, Bool, true, false, not, ◌&&◌, ◌||◌, ◌==◌, Bool-cases, ℤ, pos, if◌then◌else◌, is_error,
  is_positive, done,
}
use ustevent.Net.Protocal
use ustevent.Net.Platform.{Platform, returned, failed}
use ustevent.Net.TcpSocket
use ustevent.Net.TcpSocket.{
  TcpSocket, TcpName, get_local_address, open_socket, non_blocking_connect,
}
use ustevent.Net.EventOperation.{perform, perform_loop}
use ustevent.Net.EventObject
use ustevent.Net.EventObject.{EventObject, Effect, closes, event_object, init, registered}
use ustevent.Net.TcpConnection.{connection_of}
use ustevent.Net.TcpDialer.{
  TcpDialer, Network, Dialing, Dialed, finally, is_v6, established, started, dial, connect_to,
  connect, connect_operation,
}

-- The socket is being connected for `k` tests, and then has the result `so_error`.
abbrev pub connecting : Platform → ℕ → ℕ → List (Option ℕ × ℕ)
connecting os zero so_error = (some so_error, 0) ∷ []
connecting os (suc k) so_error = (some os.einprogress, 0) ∷ connecting os k so_error

-- `k` waits that end in time.
abbrev pub in_time : ℕ → List Bool
in_time zero = []
in_time (suc k) = true ∷ in_time k

module _ (os : Platform) (socket : TcpSocket) (so_error : ℕ)
    (final : (so_error == os.einprogress) ≡ false) (timeout : ℤ) where
  perform_loop-connecting :
      (k fuel : ℕ) (error : ℤ)
      → k ≤ fuel
      → perform_loop (connect_operation os) timeout (suc fuel) error (record {
        socket = socket;
        polls = connecting os k so_error;
        wakes = in_time k;
        interrupted = false;
      })
        ≡ done
            (pos so_error, record { socket = socket; polls = []; wakes = []; interrupted = false })
  unfolding perform_loop non_blocking_connect
  perform_loop-connecting zero fuel error h = rw final refl
  perform_loop-connecting (suc k) zero error h = absurd (omega arith)
  perform_loop-connecting (suc k) (suc fuel) error h =
      let again : (os.einprogress == os.einprogress) ≡ true = ground arith in
      let rest = perform_loop-connecting k fuel (pos os.einprogress) (omega arith) in
      rw (again, rest)
        (elim (Bool-cases (is_positive timeout)) [ inl e ↦ rw e refl | inr e ↦ rw e refl ])

  perform-connecting :
      (k fuel : ℕ) (polls : List (Option ℕ × ℕ)) (wakes : List Bool)
      → k ≤ fuel
      → connecting os k so_error ≡ polls
      → in_time k ≡ wakes
      → perform
          (connect_operation os)
          timeout
          (suc fuel)
          true
          (record { socket = socket; polls = polls; wakes = wakes; interrupted = false })
        ≡ done
            (pos so_error, record { socket = socket; polls = []; wakes = []; interrupted = false })
  unfolding perform
  perform-connecting k fuel polls wakes h e f =
      let ends : Dialing → Type 0 = λ s.
        perform_loop (connect_operation os) timeout (suc fuel) (pos 0) s
        ≡ done (
          pos so_error,
          record { socket = socket; polls = []; wakes = []; interrupted = false },
        ) in
      subst (λ x. ends (record { socket = socket; polls = x; wakes = wakes; interrupted = false }))
        e
        (subst
          (λ y. ends (record {
            socket = socket;
            polls = connecting os k so_error;
            wakes = y;
            interrupted = false;
          }))
          f (perform_loop-connecting k fuel (pos 0) h))

abbrev pub object : ℕ → ℕ → EventObject
object fd n = record { event_notifier = some n; resource = record { socket_fd = some fd } }

-- The socket is opened and registered, and `::connect` says that the connection is in progress: the call
-- is that operation and what follows it.
module _ (os : Platform) (k fuel fd m so_error protocal : ℕ) (d : TcpDialer) (remote : TcpName)
    (net : Network) (idle : d.is_connecting ≡ false)
    (supported : (protocal == Protocal.tcp_ipv4 || protocal == Protocal.tcp_ipv6) ≡ true)
    (opened : net.opened ≡ returned fd) (registering : net.registration ≡ registered m)
    (connected : net.connected ≡ failed os.einprogress)
    (polled : net.polls ≡ connecting os k so_error) (woken : net.wakes ≡ in_time k)
    (final : (so_error == os.einprogress) ≡ false) (enough : k ≤ fuel) where
  connect-waited : connect os (suc fuel) d (some (protocal, remote)) net ≡ (
      if is_error (pos so_error)
      then done (
          finally d
            (pos so_error)
            none
            (EventObject.registers m ∷ EventObject.destroy (object fd m) net.closed))
      else established os
          (suc fuel)
          protocal
          d
          remote
          net
          (object fd m)
          (EventObject.registers m ∷ []))
  unfolding connect connect_to dial started open_socket init TcpSocket.connect
  connect-waited =
      let again : (os.einprogress == os.einprogress) ≡ true = ground arith in
      let loop =
        perform-connecting os (record { socket_fd = some fd }) so_error final
          d.connect_timeout_milliseconds k fuel net.polls net.wakes enough (sym polled)
          (sym woken) in
      simp (supported, idle, opened, registering, connected, again, loop) refl

-- A dialer that is not connecting, with an address of TCP over IP: the socket `fd` is opened and
-- registered, `::connect` says that the connection is in progress, and SO_ERROR says so `k` times more,
-- each after a wait that ends in time, and then the errno `so_error`. `connect` returns that errno, and no
-- connection.
pub connect-refused :
    (os : Platform) (k fuel fd m so_error protocal : ℕ) (d : TcpDialer) (remote : TcpName)
    (net : Network)
    → d.is_connecting ≡ false
    → (protocal == Protocal.tcp_ipv4 || protocal == Protocal.tcp_ipv6) ≡ true
    → net.opened ≡ returned fd
    → net.registration ≡ registered m
    → net.connected ≡ failed os.einprogress
    → net.polls ≡ connecting os k so_error
    → net.wakes ≡ in_time k
    → (so_error == os.einprogress) ≡ false
    → k ≤ fuel
    → 0 < so_error
    → (r : Dialed) × (connect os (suc fuel) d (some (protocal, remote)) net ≡ done r)
      × (r.error ≡ pos so_error)
      × (r.connection ≡ none)
connect-refused os k fuel fd m so_error protocal d remote net a b c e f g h i j positive =
    let waited = connect-waited os k fuel fd m so_error protocal d remote net a b c e f g h i j in
    let is : is_error (pos so_error) ≡ true = ground arith in
    (
      finally d (pos so_error) none
          (EventObject.registers m ∷ EventObject.destroy (object fd m) net.closed),
      waited ∙ simp is refl,
      refl,
      simp is refl,
    )

-- As above, but SO_ERROR is 0 in the end, the local address of the socket is `local`, of version 6 where the
-- call is for version 6, and the socket is registered again, with the notifier `n`. `connect` returns no
-- error and a connection with the socket, that notifier, both addresses and two open streams.
pub connect-accepted :
    (os : Platform) (k fuel fd m n protocal : ℕ) (local : TcpName) (d : TcpDialer)
    (remote : TcpName) (net : Network)
    → d.is_connecting ≡ false
    → (protocal == Protocal.tcp_ipv4 || protocal == Protocal.tcp_ipv6) ≡ true
    → net.opened ≡ returned fd
    → net.registration ≡ registered m
    → net.connected ≡ failed os.einprogress
    → net.polls ≡ connecting os k 0
    → net.wakes ≡ in_time k
    → (0 == os.einprogress) ≡ false
    → k ≤ fuel
    → get_local_address os (record { socket_fd = some fd }) net.naming ≡ (some local, pos 0)
    → (protocal == Protocal.tcp_ipv6 && not (is_v6 (some local))) ≡ false
    → net.final_registration ≡ registered n
    → (r : Dialed) × (connect os (suc fuel) d (some (protocal, remote)) net ≡ done r)
      × (r.error ≡ pos 0)
      × (r.connection ≡ some (connection_of (object fd n) (some local) (some remote)))
unfolding established EventObject.release EventObject.destroy TcpSocket.destroy init
connect-accepted os k fuel fd m n protocal local d remote net a b c e f g h i j named version
      final =
    let waited = connect-waited os k fuel fd m 0 protocal d remote net a b c e f g h i j in
    (
      finally d (pos 0) (some (connection_of (object fd n) (some local) (some remote)))
          (EventObject.registers m ∷ EventObject.deregisters m ∷ EventObject.registers n ∷ []),
      waited ∙ simp (named, version, final) refl,
      refl,
      refl,
    )
