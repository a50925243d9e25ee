-- ===== src/Net/TcpListener/Opens.antt =====
-- How a call of `open` ends: a listener owns its socket, and of a failure nothing is left; and what
-- becomes of the socket when the listener is closed.
use mathlib.Core.List.{append-nil}
use ustevent.Prelude.{
  ℕ, ◌+◌, ◌≤◌, ◌≡◌, ◌⊎◌, refl, ap, arith, List, false, [], ◌∷◌, ◌++◌, map, none, some, inl, inr,
  true, ◌||◌, ◌==◌, Bool-cases, ℤ, pos, is_error,
}
use ustevent.Net.Protocal
use ustevent.Net.Platform.{CallResult, returned, failed}
use ustevent.Net.TcpSocket
use ustevent.Net.TcpSocket.{TcpSocket, TcpName, open_socket, set_reuse_port, bind, listen}
use ustevent.Net.EventObject
use ustevent.Net.EventObject.{EventObject, Effect, Registration, closes, event_object, init}
use ustevent.Net.EventObject.Effects.{
  closings, registrations, deregistrations, held, destroyed, destroyed-positive, Sums, Sums-append,
  destroy-Sums, init-Sums, init-resource, Answered, Registers, init-Registers,
}
use ustevent.Net.TcpListener.{
  Opening, Opened, new_listener, first_error, listen_on, open_at, open_listener, close,
}

-- No listener: the descriptor is closed, and the notifier given back as often as it is given.
pub record Failed (fd n : ℕ) (r : Opened) : Type 0 where
  pub listener : r.listener ≡ none
  pub error : is_error r.error ≡ true
  pub closed : 1 ≤ closings fd r.effects
  pub balanced : registrations n r.effects ≡ deregistrations n r.effects

-- A listener at the address with the open descriptor and the notifier of the registration, which stays registered.
pub record Listening (fd n protocal : ℕ) (address : TcpName) (answer : Registration)
    (o : EventObject) (r : Opened) : Type 0 where
  pub listener : r.listener ≡ some (new_listener o protocal address)
  pub error : r.error ≡ pos 0
  pub socket : o.resource.socket_fd ≡ some fd
  pub notifier : Registers answer o
  pub kept : closings fd r.effects ≡ 0
  pub balanced : registrations n r.effects ≡ deregistrations n r.effects + held n o.event_notifier

abbrev pub Ends : ℕ → ℕ → ℕ → TcpName → Registration → Opened → Type 0
Ends fd n protocal address answer r =
    Failed fd n r ⊎ ((o : EventObject) × Listening fd n protocal address answer o r)

first_error-is_error :
    (e : ℤ) (es : List ℤ) → is_error (first_error (e ∷ es)) ≡ false → is_error e ≡ false
first_error-is_error e es h = elim (Bool-cases (is_error e)) [
  | inl f ↦ let g : is_error e ≡ false = rw f at h in g
  | inr f ↦ f
]

module _ (fd n protocal : ℕ) (address : TcpName) (sys : Opening)
    (answered : Answered sys.registration) where
  listen_on-Ends :
      Ends fd n protocal address sys.registration
        (listen_on protocal address sys (record { socket_fd = some fd }))
  unfolding listen_on
  listen_on-Ends =
      let socket : TcpSocket = record { socket_fd = some fd } in
      let object = init (event_object socket) sys.registration in
      let owned : object.1.resource.socket_fd ≡ some fd =
        ap (λ t. t.socket_fd) (init-resource fd n socket sys.registration) in
      let so_far = init-Sums fd n socket sys.registration in
      let all = Sums-append fd n _ _ so_far (destroy-Sums fd n object.1 sys.closed owned) in
      let positive = destroyed-positive fd n object.1.event_notifier sys.closed in
      elim (Bool-cases (
        is_error (
          first_error (
            object.0
            ∷ bind object.1.resource sys.reuse sys.bound
            ∷ listen object.1.resource sys.listened
            ∷ [])))) [
              | inl e ↦ rw e (
                  inl (record {
                    listener = refl;
                    error = e;
                    closed = omega arith;
                    balanced = omega arith;
                  }))
              | inr e ↦ rw e (
                  inr (
                    object.1,
                    record {
                      listener = refl;
                      error = refl;
                      socket = owned;
                      notifier = init-Registers socket sys.registration answered (
                          first_error-is_error object.0
                            (bind object.1.resource sys.reuse sys.bound
                              ∷ listen object.1.resource sys.listened
                              ∷ [])
                            e);
                      kept = so_far.closed;
                      balanced = omega arith;
                    },
                  ))
            ]

  closed_socket-Ends :
      (error : ℤ) (closed : CallResult)
      → is_error error ≡ true
      → let (ignored, t, fds) = TcpSocket.close (record { socket_fd = some fd }) closed in
        Failed fd n (record {
          listener = none;
          error = error;
          effects = map closes fds ++ map closes (TcpSocket.destroy t);
        })
  unfolding TcpSocket.close TcpSocket.destroy
  closed_socket-Ends error (returned k) e = record {
    listener = refl;
    error = e;
    closed = ground arith;
    balanced = refl;
  }
  closed_socket-Ends error (failed k) e = record {
    listener = refl;
    error = e;
    closed = ground arith;
    balanced = refl;
  }

  open_at-Ends :
      sys.opened ≡ returned fd
      → (protocal == Protocal.tcp_ipv4 || protocal == Protocal.tcp_ipv6) ≡ true
      → Ends fd n protocal address sys.registration (open_at protocal address sys)
  unfolding open_at open_socket
  open_at-Ends h g =
      let reused = set_reuse_port (record { socket_fd = some fd }) sys.reuse_port in
      let test = first_error (pos 0 ∷ reused ∷ []) in
      elim (Bool-cases (is_error test)) [
        | inl e ↦ simp (g, h, e) (inl (closed_socket-Ends test sys.closed e))
        | inr e ↦ simp (g, h, e) listen_on-Ends
      ]

-- A call of `open` with an address of TCP over IP, in which `::socket` gives the descriptor `fd` and a registration
-- that fails gives an errno other than 0. Either it returns an error and no listener, `fd` is closed, and every
-- notifier is given back as often as it is given; or it returns no error and a listener at the address, which
-- listens, has no time-out and has the socket, whose descriptor is open; the registration has succeeded, and its
-- notifier is the socket's and stays registered.
pub open_listener-Ends :
    (fd n protocal : ℕ) (address : TcpName) (sys : Opening)
    → sys.opened ≡ returned fd
    → Answered sys.registration
    → (protocal == Protocal.tcp_ipv4 || protocal == Protocal.tcp_ipv6) ≡ true
    → Ends fd n protocal address sys.registration (open_listener (some (protocal, address)) sys)
unfolding open_listener
open_listener-Ends fd n protocal address sys h answered g =
    simp g (open_at-Ends fd n protocal address sys answered h g)

-- A listener that `open` returned and that is closed and then destroyed: its descriptor is closed once where
-- `::close` fails and twice where it succeeds, both by the first call, and its notifier is given back once.
pub close-Sums :
    (fd n m protocal : ℕ) (address : TcpName) (once again : CallResult)
    → let object : EventObject = record {
      event_notifier = some m;
      resource = record { socket_fd = some fd };
    } in
      let (l, effects) = close (new_listener object protocal address) once in
      Sums fd n (effects ++ (close l again).1) (destroyed fd n (some m) once) 0 (held n (some m))
unfolding close
close-Sums fd n m protocal address once again =
    rw
      (append-nil (
        EventObject.destroy
          (record { event_notifier = some m; resource = record { socket_fd = some fd } }) once))
      (destroy-Sums fd n
        (record { event_notifier = some m; resource = record { socket_fd = some fd } }) once refl)
