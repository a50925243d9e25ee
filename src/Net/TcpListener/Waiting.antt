-- ===== src/Net/TcpListener/Waiting.antt =====
-- An `accept` that has to wait: for a connection, or until the listener is closed.
use ustevent.Prelude.{
  ℕ, zero, suc, ◌+◌, ◌≤◌, ◌<◌, ◌≡◌, ◌∙◌, refl, sym, ap, subst, arith, List, [], ◌∷◌, none, some,
  inl, inr, true, false, ◌||◌, ◌==◌, leb, Bool-cases, ℤ, pos, if◌then◌else◌, is_error, is_positive,
  Outcome, done, ◌>>=◌,
}
use ustevent.Net.Error
use ustevent.Net.Protocal
use ustevent.Net.Platform.{Platform, CallResult}
use ustevent.Net.TcpSocket
use ustevent.Net.TcpSocket.{
  TcpSocket, TcpName, Accept, Accepting, accepted, refused, non_blocking_accept,
  size_of_tcpipv4_address, size_of_tcpipv6_address,
}
use ustevent.Net.EventOperation.{perform, perform_loop}
use ustevent.Net.EventObject
use ustevent.Net.EventObject.{EventObject, registered, unregistered, init}
use ustevent.Net.TcpConnection.{connection_of}
use ustevent.Net.TcpListener.{
  TcpListener, Pending, Wake, Arrival, accept_operation, accept_on, accept, serve, close, address,
  refuse, served,
}

-- Nothing to accept, `k` times, and then what is left.
abbrev pub nothing : Platform → ℕ → List Accepting → List Accepting
nothing os zero calls = calls
nothing os (suc k) calls = refused os.eagain ∷ nothing os k calls

-- `k` waits that end in time with the listener open, and then what is left.
abbrev pub in_time : ℕ → List Wake → List Wake
in_time zero wakes = wakes
in_time (suc k) wakes = record { in_time = true; closed = false } ∷ in_time k wakes

-- The state of an operation that goes on.
abbrev waiting : TcpSocket → List Accepting → List Wake → Pending
waiting socket calls wakes = record {
  is_listening = true;
  socket = socket;
  calls = calls;
  wakes = wakes;
  accepted_socket_fd = none;
  has_address = true;
  interrupted = false;
}

module _ (os : Platform) (size : ℕ) (timeout : ℤ) (socket : TcpSocket) (calls : List Accepting)
    (wakes : List Wake) where
  abbrev loop : ℕ → ℤ → Pending → Outcome (ℤ × Pending)
  loop = perform_loop (accept_operation os size) timeout

  -- The waits for nothing, before a loop that needs `b` rounds more.
  loop-nothing :
      (b k fuel : ℕ) (error : ℤ) (out : Outcome (ℤ × Pending))
      → ((fuel : ℕ) (error : ℤ)
          → b ≤ fuel
          → loop (suc fuel) error (waiting socket calls wakes) ≡ out)
      → k + b ≤ fuel
      → loop (suc fuel) error (waiting socket (nothing os k calls) (in_time k wakes)) ≡ out
  unfolding perform_loop non_blocking_accept
  loop-nothing b zero fuel error out h enough = h fuel error (omega arith)
  loop-nothing b (suc k) zero error out h enough = absurd (omega arith)
  loop-nothing b (suc k) (suc fuel) error out h enough =
      let again : (os.eagain == os.eagain) ≡ true = ground arith in
      let rest = loop-nothing b k fuel (pos os.eagain) out h (omega arith) in
      rw again (elim (Bool-cases (is_positive timeout)) [ inl e ↦ rw e rest | inr e ↦ rw e rest ])

module _ (os : Platform) (size : ℕ) (timeout : ℤ) (socket : TcpSocket) where
  -- The call that accepts.
  loop-accepted :
      (fd len fuel : ℕ) (error : ℤ) (calls : List Accepting) (wakes : List Wake)
      → leb len size ≡ true
      → loop os size timeout socket calls wakes
          (suc fuel)
          error
          (waiting socket (accepted fd len ∷ calls) wakes)
        ≡ done (pos 0, record (waiting socket calls wakes) { accepted_socket_fd = some fd })
  unfolding perform_loop non_blocking_accept
  loop-accepted fd len fuel error calls wakes fits = rw fits refl

  -- The wait that ends with the listener closed.
  loop-closed :
      (fuel : ℕ) (error : ℤ) (calls : List Accepting) (wakes : List Wake)
      → 1 ≤ fuel
      → loop os size timeout socket calls wakes (suc fuel) error (
          waiting socket
            (refused os.eagain ∷ calls)
            (record { in_time = true; closed = true } ∷ wakes))
        ≡ done (Error.closed, record (waiting socket calls wakes) { is_listening = false })
  unfolding perform_loop non_blocking_accept
  loop-closed zero error calls wakes h = absurd (omega arith)
  loop-closed (suc fuel) error calls wakes h =
      let again : (os.eagain == os.eagain) ≡ true = ground arith in
      rw again (elim (Bool-cases (is_positive timeout)) [ inl e ↦ rw e refl | inr e ↦ rw e refl ])

-- The size of an address of the protocol.
abbrev pub class_size : ℕ → ℕ
class_size protocal =
    if protocal == Protocal.tcp_ipv4 then size_of_tcpipv4_address else size_of_tcpipv6_address

-- A listener with its object and its address.
module _ (os : Platform) (protocal : ℕ) (local : TcpName) (object : EventObject) (l : TcpListener)
    (sys : Arrival) (listening : l.is_listening ≡ true)
    (owned : l.event_listen_socket ≡ some object) (at : l.local_address ≡ some (protocal, local))
    (supported : (protocal == Protocal.tcp_ipv4 || protocal == Protocal.tcp_ipv6) ≡ true) where
  accept-accept_on :
      (fuel : ℕ)
      → accept os fuel l sys
        ≡ accept_on os fuel l.accept_timeout_milliseconds (class_size protocal) local sys object
  unfolding accept
  accept-accept_on fuel = elim (Bool-cases (protocal == Protocal.tcp_ipv4)) [
    | inl e ↦ simp (listening, owned, at, e) refl
    | inr e ↦
        let six : (protocal == Protocal.tcp_ipv6) ≡ true = simp e at supported in
        simp (listening, owned, at, e, six) refl
  ]

  -- The operation of a call in which there is nothing to accept, `k` times, and then the loop has the result `out`.
  performed :
      (b k fuel : ℕ) (calls : List Accepting) (wakes : List Wake) (out : ℤ × Pending)
      → sys.calls ≡ nothing os k calls
      → sys.wakes ≡ in_time k wakes
      → k + b ≤ fuel
      → ((fuel : ℕ) (error : ℤ)
          → b ≤ fuel
          → loop os
              (class_size protocal)
              l.accept_timeout_milliseconds
              object.resource
              calls
              wakes
              (suc fuel)
              error
              (waiting object.resource calls wakes)
            ≡ done out)
      → accept os (suc fuel) l sys ≡ served local sys out
  unfolding accept_on perform
  performed b k fuel calls wakes out e f enough h =
      let ends : Pending → Type 0 = λ s.
        perform_loop (accept_operation os (class_size protocal)) l.accept_timeout_milliseconds
          (suc fuel) (pos 0) s
        ≡ done out in
      let result : ends (waiting object.resource sys.calls sys.wakes) =
        subst (λ x. ends (waiting object.resource x sys.wakes)) (sym e)
          (subst (λ y. ends (waiting object.resource (nothing os k calls) y)) (sym f)
            (loop-nothing os (class_size protocal) l.accept_timeout_milliseconds object.resource
              calls wakes b k fuel (pos 0) (done out) h enough)) in
      accept-accept_on (suc fuel) ∙ ap (λ o. o >>= λ r. served local sys r) result

  -- A listener at an address of TCP over IP that listens, with its object. There is nothing to accept, `k` times,
  -- each time with a wait that ends in time, and then `::accept4` gives the descriptor `fd` and an address that
  -- fits its class, and `fd` is registered with the notifier `n`. `accept` returns no error and a connection with
  -- `fd`, that notifier, the listener's address and the peer's, and two open streams.
  pub accept-accepted :
      (k fuel fd len n : ℕ) (calls : List Accepting) (wakes : List Wake)
      → sys.calls ≡ nothing os k (accepted fd len ∷ calls)
      → sys.wakes ≡ in_time k wakes
      → leb len (class_size protocal) ≡ true
      → sys.registration ≡ registered n
      → k ≤ fuel
      → accept os (suc fuel) l sys
        ≡ done (record {
          error = pos 0;
          connection = some (
              connection_of
                (record { event_notifier = some n; resource = record { socket_fd = some fd } })
                (some local)
                (some sys.peer));
          effects = EventObject.registers n ∷ [];
        })
  unfolding serve init
  accept-accepted k fuel fd len n calls wakes e f fits given enough =
      performed 0 k fuel (accepted fd len ∷ calls) wakes
        (pos 0, record (waiting object.resource calls wakes) { accepted_socket_fd = some fd }) e f
        (omega arith)
        (λ fuel error more.
          loop-accepted os (class_size protocal) l.accept_timeout_milliseconds object.resource fd
            len fuel error calls wakes fits)
      ∙ simp given refl

  -- As above, but `fd` cannot be registered, which has the errno `errno`: `accept` returns that errno and no
  -- connection, and closes `fd` once.
  pub accept-unregistered :
      (k fuel fd len errno : ℕ) (calls : List Accepting) (wakes : List Wake)
      → sys.calls ≡ nothing os k (accepted fd len ∷ calls)
      → sys.wakes ≡ in_time k wakes
      → leb len (class_size protocal) ≡ true
      → sys.registration ≡ unregistered errno
      → 0 < errno
      → k ≤ fuel
      → accept os (suc fuel) l sys
        ≡ done
            (record { error = pos errno; connection = none; effects = EventObject.closes fd ∷ [] })
  unfolding serve init EventObject.destroy TcpSocket.destroy
  accept-unregistered k fuel fd len errno calls wakes e f fits given positive enough =
      let is : is_error (pos errno) ≡ true = ground arith in
      performed 0 k fuel (accepted fd len ∷ calls) wakes
        (pos 0, record (waiting object.resource calls wakes) { accepted_socket_fd = some fd }) e f
        (omega arith)
        (λ fuel error more.
          loop-accepted os (class_size protocal) l.accept_timeout_milliseconds object.resource fd
            len fuel error calls wakes fits)
      ∙ simp (given, is) refl

  -- There is nothing to accept, `k + 1` times; the last wait ends because the listener is closed. `accept` returns
  -- CLOSED and no connection, and does nothing to the system.
  pub accept-closed :
      (k fuel : ℕ) (calls : List Accepting) (wakes : List Wake)
      → sys.calls ≡ nothing os k (refused os.eagain ∷ calls)
      → sys.wakes ≡ in_time k (record { in_time = true; closed = true } ∷ wakes)
      → k + 1 ≤ fuel
      → accept os (suc fuel) l sys ≡ done (refuse Error.closed [])
  accept-closed k fuel calls wakes e f enough =
      performed 1 k fuel (refused os.eagain ∷ calls)
        (record { in_time = true; closed = true } ∷ wakes)
        (Error.closed, record (waiting object.resource calls wakes) { is_listening = false }) e f
        enough
        (λ fuel error more.
          loop-closed os (class_size protocal) l.accept_timeout_milliseconds object.resource fuel
            error calls wakes more)

-- A listener that has been closed: `accept` returns CLOSED and no connection whatever the system would answer, and
-- has no address.
pub close-accept :
    (os : Platform) (fuel : ℕ) (l : TcpListener) (closed : CallResult) (sys : Arrival)
    → (accept os fuel (close l closed).0 sys ≡ done (refuse Error.closed []))
      × (address (close l closed).0 ≡ none)
unfolding accept close address
close-accept os fuel l closed sys = (refl, refl)
