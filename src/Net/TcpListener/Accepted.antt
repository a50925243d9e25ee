-- ===== src/Net/TcpListener/Accepted.antt =====
-- How a call of `accept` ends.
use ustevent.Prelude.{
  ℕ, ◌+◌, ◌≡◌, ◌≢◌, ◌⊎◌, ◌∙◌, refl, sym, subst, arith, [], Option, none, some, inl, inr, true,
  false, ◌||◌, ◌==◌, Bool-cases, ℤ, pos, if◌then◌else◌, is_error, is_positive, length, All, ◌<◌,
  Outcome, done, spin, fault, ◌>>=◌,
}
use ustevent.Net.Error
use ustevent.Net.Protocal
use ustevent.Net.Platform.{Platform}
use ustevent.Net.TcpSocket.{TcpSocket, TcpName, size_of_tcpipv4_address, size_of_tcpipv6_address}
use ustevent.Net.EventOperation.Rounds.{Returns}
use ustevent.Net.TcpListener.Returned.{ends_in, perform-ends_in}
use ustevent.Net.EventOperation.Laws
use ustevent.Net.EventOperation.Laws.{perform-Ends}
use ustevent.Net.EventObject.{EventObject, Registration, init}
use ustevent.Net.EventObject.Effects.{
  closings, registrations, deregistrations, held, Registration-cases, unregistered-balanced,
  Answered, Registers, errno-positive,
}
use ustevent.Net.TcpConnection.{TcpConnection}
use ustevent.Net.TcpListener.{
  TcpListener, Pending, Arrival, Served, accept_operation, accept_on, accept_at, accept, served,
  serve, begun, refuse,
}
use ustevent.Net.TcpListener.Answers.{Plain, Errno-Plain, Fits, Calm, Kept, rule}

-- An error and no connection, and every notifier is given back as often as it is given; or no error and a
-- connection, whose descriptor is not closed, and whose notifier is that of the registration and stays registered.
pub record Failed (n : ℕ) (r : Served) : Type 0 where
  pub connection : r.connection ≡ none
  pub error : is_error r.error ≡ true
  pub balanced : registrations n r.effects ≡ deregistrations n r.effects

pub record Connected (fd n : ℕ) (answer : Registration) (c : TcpConnection) (r : Served)
    : Type 0 where
  pub connection : r.connection ≡ some c
  pub error : is_error r.error ≡ false
  pub notifier : Registers answer c.event_socket
  pub kept : closings fd r.effects ≡ 0
  pub balanced :
      registrations n r.effects ≡ deregistrations n r.effects + held n c.event_socket.event_notifier

pub record Settled (fd n : ℕ) (answer : Registration) (r : Served) : Type 0 where
  pub plain : r.error ≢ Error.interrupted
  pub result : Failed n r ⊎ ((c : TcpConnection) × Connected fd n answer c r)

-- It returns, and is settled.
abbrev Settles : ℕ → ℕ → Registration → Outcome Served → Type 0
Settles fd n answer spin = ⊥
Settles fd n answer fault = ⊥
Settles fd n answer (done r) = Settled fd n answer r

Settles-done :
    {fd n : ℕ} {answer : Registration} (o : Outcome Served)
    → Settles fd n answer o
    → (r : Served) × (o ≡ done r) × Settled fd n answer r
Settles-done spin h = elim h [ ]
Settles-done fault h = elim h [ ]
Settles-done (done r) h = (r, refl, h)

-- The size of the class of the remote address, which is that of the local one.
abbrev pub size_of : ℕ → ℕ
size_of protocal =
    if protocal == Protocal.tcp_ipv4 then size_of_tcpipv4_address else size_of_tcpipv6_address

module _ (fd n : ℕ) (sys : Arrival) (answered : Answered sys.registration) where
  fail-Settled :
      (error : ℤ)
      → Plain error
      → is_error error ≡ true
      → Settled fd n sys.registration (refuse error [])
  fail-Settled error p e = record {
    plain = p;
    result = inl (record { connection = refl; error = e; balanced = refl });
  }

  serve-Settled :
      (local : TcpName) (socket : TcpSocket)
      → Settled fd n sys.registration (serve local sys socket)
  unfolding serve init
  serve-Settled local socket = elim (Registration-cases sys.registration) [
    | inl (m, e) ↦ rw e (record {
      plain = λ p. absurd (grind (arith, p));
      result = inr (
        _,
        record {
          connection = refl;
          error = refl;
          notifier = (m, refl, refl);
          kept = refl;
          balanced = ground arith;
        },
      );
    })
    | inr (k, e) ↦ rw e (elim (Bool-cases (is_error (pos k))) [
      | inl f ↦ rw f (record {
        plain = Errno-Plain (pos k) (k, refl);
        result = inl (record {
          connection = refl;
          error = f;
          balanced =
              (unregistered-balanced fd n socket sys.closed).0
              ∙ sym (unregistered-balanced fd n socket sys.closed).1;
        });
      })
      | inr f ↦ absurd (errno-positive k (subst Answered e answered) f)
    ])
  ]

  served-Settles :
      (local : TcpName) (out : Outcome (ℤ × Pending)) (os : Platform) (size : ℕ)
      → Laws.Ends (accept_operation os size) (Calm size) (Kept os size) out
      → Returns ⊥ out
      → Settles fd n sys.registration (out >>= λ r. served local sys r)
  served-Settles local spin os size h returns = elim returns [ ]
  served-Settles local fault os size h returns = elim returns [ ]
  served-Settles local (done (error, s)) os size h returns = elim (Bool-cases (is_error error)) [
    | inl e ↦ simp e (fail-Settled error h.0 e)
    | inr e ↦ simp (e, h.1) (serve-Settled local (record { socket_fd = s.accepted_socket_fd }))
  ]

  module _ (os : Platform) (fuel : ℕ) (timeout : ℤ)
      (ends : ends_in os (is_positive timeout) sys.calls sys.wakes ≡ true)
      (enough : length sys.wakes < fuel) where
    accept_on-Settles :
        (size : ℕ) (local : TcpName) (object : EventObject)
        → All (Fits size) sys.calls
        → Settles fd n sys.registration (accept_on os fuel timeout size local sys object)
    unfolding accept_on
    accept_on-Settles size local object fit =
        served-Settles local _ os size
          (perform-Ends (accept_operation os size) (Calm size) (Kept os size) timeout (rule os size)
            fuel true (begun object.resource sys) (refl, refl, fit))
          (perform-ends_in os size timeout fuel (begun object.resource sys) ends enough)

    accept_at-Settles :
        (object : Option EventObject) (protocal : ℕ) (local : TcpName)
        → All (Fits (size_of protocal)) sys.calls
        → Settles fd n sys.registration
            (accept_at os fuel timeout sys object (some (protocal, local)))
    accept_at-Settles none protocal local fit =
        elim (Bool-cases (protocal == Protocal.tcp_ipv4 || protocal == Protocal.tcp_ipv6)) [
          | inl e ↦ simp e (fail-Settled Error.closed (λ p. absurd (grind (arith, p))) refl)
          | inr e ↦
              simp e (
                fail-Settled Error.invalid_transport_protocal (λ p. absurd (grind (arith, p))) refl)
        ]
    accept_at-Settles (some object) protocal local fit =
        elim (Bool-cases (protocal == Protocal.tcp_ipv4)) [
          | inl e ↦
              let fits : All (Fits size_of_tcpipv4_address) sys.calls = rw e at fit in
              simp e (accept_on-Settles size_of_tcpipv4_address local object fits)
          | inr e ↦ elim (Bool-cases (protocal == Protocal.tcp_ipv6)) [
            | inl f ↦
                let fits : All (Fits size_of_tcpipv6_address) sys.calls = rw e at fit in
                simp (e, f) (accept_on-Settles size_of_tcpipv6_address local object fits)
            | inr f ↦
                simp (e, f)
                  (fail-Settled Error.invalid_transport_protocal (λ p. absurd (grind (arith, p)))
                    refl)
          ]
        ]

  accept-Settles :
      (os : Platform) (fuel : ℕ) (l : TcpListener) (protocal : ℕ) (local : TcpName)
      → l.local_address ≡ some (protocal, local)
      → ends_in os (is_positive l.accept_timeout_milliseconds) sys.calls sys.wakes ≡ true
      → length sys.wakes < fuel
      → All (Fits (size_of protocal)) sys.calls
      → Settles fd n sys.registration (accept os fuel l sys)
  unfolding accept
  accept-Settles os fuel l protocal local at ends enough fit = elim (Bool-cases l.is_listening) [
    | inl e ↦
        simp (e, at)
          (accept_at-Settles os fuel l.accept_timeout_milliseconds ends enough l.event_listen_socket
            protocal local fit)
    | inr e ↦ simp e (fail-Settled Error.closed (λ p. absurd (grind (arith, p))) refl)
  ]

-- A call of `accept` of a listener with a local address, in which a registration that fails gives an errno other
-- than 0, no peer has an address longer than its class, and the calls of `::accept4` and the waits between them
-- come to a call that is not interrupted and does not say EAGAIN, or to a wait that ends with the listener closed or,
-- with a timeout, at its time. With more fuel than waits it returns, and not INTERRUPTED: either an error and no
-- connection, with every notifier given back as often as it is given, or no error and a connection, with no
-- descriptor closed; the registration has succeeded, its notifier is the connection's and is the only one that
-- stays registered.
pub accept-Settled :
    (os : Platform) (fuel fd n : ℕ) (l : TcpListener) (sys : Arrival) (protocal : ℕ)
    (local : TcpName)
    → l.local_address ≡ some (protocal, local)
    → Answered sys.registration
    → All (Fits (size_of protocal)) sys.calls
    → ends_in os (is_positive l.accept_timeout_milliseconds) sys.calls sys.wakes ≡ true
    → length sys.wakes < fuel
    → (r : Served) × (accept os fuel l sys ≡ done r) × Settled fd n sys.registration r
accept-Settled os fuel fd n l sys protocal local at answered fit ends enough =
    Settles-done (accept os fuel l sys)
      (accept-Settles fd n sys answered os fuel l protocal local at ends enough fit)
