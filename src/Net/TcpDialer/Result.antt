-- ===== src/Net/TcpDialer/Result.antt =====
-- How a call of `connect` ends: nothing of a call that fails is left, and a connection owns its socket.
use ustevent.Prelude.{
  ℕ, ◌≡◌, ◌∙◌, sym, ap, subst, arith, List, ◌++◌, none, some, inl, inr, true, false, ◌||◌, ◌==◌,
  Bool-cases, ℤ, pos, ◌==ℤ◌, if◌then◌else◌, is_error, Outcome, done, spin, fault, ◌>>=◌,
  is_positive, length, ◌<◌,
}
use ustevent.Net.Protocal
use ustevent.Net.Platform.{Platform, returned}
use ustevent.Net.TcpSocket
use ustevent.Net.EventOperation.Rounds.{Returns}
use ustevent.Net.TcpDialer.Returned.{ends_in, perform-ends_in}
use ustevent.Net.TcpSocket.{TcpSocket, TcpName, Naming, get_local_address, open_socket}
use ustevent.Net.EventOperation.{perform}
use ustevent.Net.EventObject
use ustevent.Net.EventObject.{EventObject, Effect, Registration, closes, event_object, init}
use ustevent.Net.EventObject.Effects.{
  held, destroyed-positive, closes-Sums, Sums, Sums-append, destroy-Sums, destroy-empty,
  release_notified-Sums, init-Sums, init-resource, Answered, init-Registers,
}
use ustevent.Net.TcpDialer.{
  TcpDialer, Network, Dialing, Dialed, finally, established, started, dial, connect_to, connect,
  connect_operation,
}
use ustevent.Net.TcpDialer.Settled.{
  Settled, Settles, Settles-done, Agrees, same, false≢true, fail-Settled, success-Settled,
}

module _ (fd n : ℕ) where
  module _ (os : Platform) (fuel protocal : ℕ) (d : TcpDialer) (remote : TcpName) (net : Network)
      (answered : Answered net.final_registration)
      (agrees : Agrees os protocal (record { socket_fd = some fd }) net.naming)
      (ends : ends_in os (is_positive d.connect_timeout_milliseconds) net.polls net.wakes ≡ true)
      (enough : length net.wakes < fuel) where
    established-Settles :
        (o : EventObject) (before : List Effect)
        → o.resource.socket_fd ≡ some fd
        → Sums fd n before 0 (held n o.event_notifier) 0
        → Settles fd n net.final_registration (established os fuel protocal d remote net o before)
    unfolding established EventObject.release
    established-Settles o before h s =
        let final = init (event_object o.resource) net.final_registration in
        let owned : final.1.resource.socket_fd ≡ some fd =
          ap (λ t. t.socket_fd) (init-resource fd n o.resource net.final_registration) ∙ h in
        let so_far =
          Sums-append fd n before (EventObject.release_notified o.event_notifier) s
            (release_notified-Sums fd n o.event_notifier) in
        let again =
          Sums-append fd n (before ++ EventObject.release_notified o.event_notifier) final.2 so_far
            (init-Sums fd n o.resource net.final_registration) in
        let positive = destroyed-positive fd n final.1.event_notifier net.closed in
        elim (Bool-cases (is_error (get_local_address os o.resource net.naming).1)) [
          | inl e ↦ rw e (
              fail-Settled fd n d (get_local_address os o.resource net.naming).1 _ e
                (Sums-append fd n _ _ (Sums-append fd n _ _ so_far (closes-Sums fd n o.resource h))
                  (destroy-empty fd n net.closed))
                (omega arith) (omega arith))
          | inr e ↦ elim (subst (λ s. Agrees os protocal s net.naming) (sym (same o h)) agrees) [
            | inl f ↦ absurd (false≢true (sym e ∙ f))
            | inr f ↦ elim (Bool-cases (is_error final.0)) [
              | inl g ↦
                  rw (e, f, g)
                    (fail-Settled fd n d final.0 _ g
                      (Sums-append fd n _ _ again (destroy-Sums fd n final.1 net.closed owned))
                      (omega arith) (omega arith))
              | inr g ↦
                  rw (e, f, g)
                    (success-Settled fd n d final.0 _ _ g owned
                      (init-Registers o.resource net.final_registration answered g)
                      (Sums-append fd n _ _ again (destroy-empty fd n net.closed)) (omega arith))
            ]
          ]
        ]

    -- What follows `connect` of the socket, or the operation that waits for it.
    module _ (o : EventObject) (before : List Effect) (h : o.resource.socket_fd ≡ some fd)
        (s : Sums fd n before 0 (held n o.event_notifier) 0) where
      failing-Settled :
          (e : ℤ)
          → is_error e ≡ true
          → Settled fd n net.final_registration (record {
            error = e;
            connection = none;
            dialer = record d { event_dial_socket = none; is_connecting = false };
            effects = before ++ EventObject.destroy o net.closed;
          })
      failing-Settled e g =
          let positive = destroyed-positive fd n o.event_notifier net.closed in
          (fail-Settled fd n d e _ g (Sums-append fd n _ _ s (destroy-Sums fd n o net.closed h))
            (omega arith) (omega arith))

      tested-Settles :
          (e : ℤ)
          → Settles fd n net.final_registration (
              if is_error e
              then done (finally d e none (before ++ EventObject.destroy o net.closed))
              else established os fuel protocal d remote net o before)
      tested-Settles e = elim (Bool-cases (is_error e)) [
        | inl g ↦ simp g (failing-Settled e g)
        | inr g ↦ simp g (established-Settles o before h s)
      ]

      performed-Settles :
          (out : Outcome (ℤ × Dialing))
          → Returns ⊥ out
          → Settles fd n net.final_registration (
              out >>= λ r.
              if is_error r.0
              then done (finally d r.0 none (before ++ EventObject.destroy o net.closed))
              else established os fuel protocal d remote net o before)
      performed-Settles spin h = elim h [ ]
      performed-Settles fault h = elim h [ ]
      performed-Settles (done (e, t)) h = tested-Settles e

      started-Settles :
          Settles fd n net.final_registration (started os fuel protocal d remote net o before)
      unfolding started
      started-Settles =
          elim (Bool-cases (TcpSocket.connect o.resource net.connected ==ℤ pos os.einprogress)) [
            | inl g ↦
                let s : Dialing = record {
                  socket = o.resource;
                  polls = net.polls;
                  wakes = net.wakes;
                  interrupted = false;
                } in
                simp g (
                  performed-Settles
                    (perform (connect_operation os) d.connect_timeout_milliseconds fuel true s)
                    (perform-ends_in os d.connect_timeout_milliseconds fuel s ends enough))
            | inr g ↦ simp g (tested-Settles (TcpSocket.connect o.resource net.connected))
          ]

    pub dial-Settles :
        net.opened ≡ returned fd
        → (protocal == Protocal.tcp_ipv4 || protocal == Protocal.tcp_ipv6) ≡ true
        → Settles fd n net.final_registration (dial os fuel protocal d remote net)
    unfolding dial open_socket started established
    dial-Settles h g =
        let object = init (event_object (record { socket_fd = some fd })) net.registration in
        let owned : object.1.resource.socket_fd ≡ some fd =
          ap (λ t. t.socket_fd)
            (init-resource fd n (record { socket_fd = some fd }) net.registration) in
        let so_far = init-Sums fd n (record { socket_fd = some fd }) net.registration in
        let positive = destroyed-positive fd n object.1.event_notifier net.closed in
        elim (Bool-cases (is_error object.0)) [
          | inl e ↦
              rw (h, g, e)
                (fail-Settled fd n d object.0 _ e
                  (Sums-append fd n _ _ so_far (destroy-Sums fd n object.1 net.closed owned))
                  (omega arith) (omega arith))
          | inr e ↦ rw (h, g, e) (started-Settles object.1 object.2 owned so_far)
        ]

    connect_to-Settles :
        d.is_connecting ≡ false
        → net.opened ≡ returned fd
        → (protocal == Protocal.tcp_ipv4 || protocal == Protocal.tcp_ipv6) ≡ true
        → Settles fd n net.final_registration (connect_to os fuel protocal d remote net)
    unfolding connect_to
    connect_to-Settles e h g = simp e (dial-Settles h g)

-- A call of `connect` of a dialer that is not connecting, with an address of TCP over IP, in which `::socket`
-- gives the descriptor `fd`, a last registration that fails gives an errno other than 0, `::getsockname` does
-- not give an IPv6 socket an IPv4 address, and the tests and waits for the connection come to a test that does not
-- say EINPROGRESS or, with a timeout, to a wait that ends at its time. With more fuel than waits it returns, with
-- the dialer free for the next call and in one of two ways. Either it returns an error and no connection, `fd` is
-- closed, and every notifier is taken back as often as it is given. Or it returns no error and a connection that
-- has `fd`, which is not closed; the last registration has succeeded, its notifier is the connection's and is the
-- only one that stays registered.
pub connect-Settled :
    (os : Platform) (fuel fd n protocal : ℕ) (d : TcpDialer) (remote : TcpName) (net : Network)
    → d.is_connecting ≡ false
    → net.opened ≡ returned fd
    → (protocal == Protocal.tcp_ipv4 || protocal == Protocal.tcp_ipv6) ≡ true
    → Answered net.final_registration
    → Agrees os protocal (record { socket_fd = some fd }) net.naming
    → ends_in os (is_positive d.connect_timeout_milliseconds) net.polls net.wakes ≡ true
    → length net.wakes < fuel
    → (r : Dialed) × (connect os fuel d (some (protocal, remote)) net ≡ done r)
      × Settled fd n net.final_registration r
unfolding connect
connect-Settled os fuel fd n protocal d remote net idle opened supported answered agrees ends
      enough =
    simp supported (
      Settles-done (connect_to os fuel protocal d remote net) (
        connect_to-Settles fd n os fuel protocal d remote net answered agrees ends enough idle
          opened supported))
