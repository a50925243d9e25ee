-- ===== src/Net/TcpDialer/Settled.antt =====
-- The two ways in which a call of `connect` ends, and what makes a result one of them.
use ustevent.Prelude.{
  ℕ, ◌+◌, ◌≤◌, ◌≡◌, ◌⊎◌, ◌∙◌, refl, sym, ap, List, none, some, inl, inr, true, false, not, ◌&&◌,
  ◌==◌, ℤ, is_error, Outcome, done, spin, fault,
}
use ustevent.Net.Protocal
use ustevent.Net.Platform.{Platform}
use ustevent.Net.TcpSocket.{TcpSocket, Naming, get_local_address}
use ustevent.Net.EventObject.{EventObject, Effect, Registration}
use ustevent.Net.EventObject.Effects.{
  closings, registrations, deregistrations, held, Sums, Registers,
}
use ustevent.Net.TcpConnection.{TcpConnection}
use ustevent.Net.TcpDialer.{TcpDialer, Dialed, is_v6}

-- The dialer can be called again.
pub record Idle (d : TcpDialer) : Type 0 where
  pub flag : d.is_connecting ≡ false
  pub socket : d.event_dial_socket ≡ none

-- The descriptor `fd` is closed, and the notifier `n` is given back as often as it is given.
pub record Failed (fd n : ℕ) (r : Dialed) : Type 0 where
  pub connection : r.connection ≡ none
  pub error : is_error r.error ≡ true
  pub closed : 1 ≤ closings fd r.effects
  pub balanced : registrations n r.effects ≡ deregistrations n r.effects

-- The descriptor is open and the connection has it, with the notifier of the last registration, the only one that
-- stays.
pub record Connected (fd n : ℕ) (answer : Registration) (c : TcpConnection) (r : Dialed)
    : Type 0 where
  pub connection : r.connection ≡ some c
  pub error : is_error r.error ≡ false
  pub socket : c.event_socket.resource.socket_fd ≡ some fd
  pub notifier : Registers answer c.event_socket
  pub kept : closings fd r.effects ≡ 0
  pub balanced :
      registrations n r.effects ≡ deregistrations n r.effects + held n c.event_socket.event_notifier

pub record Settled (fd n : ℕ) (answer : Registration) (r : Dialed) : Type 0 where
  pub idle : Idle r.dialer
  pub result : Failed fd n r ⊎ ((c : TcpConnection) × Connected fd n answer c r)

-- It returns, and is settled.
abbrev pub Settles : ℕ → ℕ → Registration → Outcome Dialed → Type 0
Settles fd n answer spin = ⊥
Settles fd n answer fault = ⊥
Settles fd n answer (done r) = Settled fd n answer r

pub false≢true : ¬ (false ≡ true)
false≢true h = cc

-- A socket is its descriptor.
pub same :
    {fd : ℕ} (o : EventObject)
    → o.resource.socket_fd ≡ some fd
    → o.resource ≡ record { socket_fd = some fd }
same o h = ap (λ x. record { socket_fd = x }) h

pub Settles-done :
    {fd n : ℕ} {answer : Registration} (o : Outcome Dialed)
    → Settles fd n answer o
    → (r : Dialed) × (o ≡ done r) × Settled fd n answer r
Settles-done spin h = elim h [ ]
Settles-done fault h = elim h [ ]
Settles-done (done r) h = (r, refl, h)

-- `::getsockname` fails, or gives an address of the class that the assertion asks for.
abbrev pub Agrees : Platform → ℕ → TcpSocket → Naming → Type 0
Agrees os protocal s naming =
    (is_error (get_local_address os s naming).1 ≡ true)
    ⊎ (((protocal == Protocal.tcp_ipv6) && not (is_v6 (get_local_address os s naming).0)) ≡ false)

module _ (fd n : ℕ) where
  -- The failures.
  pub fail-Settled :
      {answer : Registration} (d : TcpDialer) (error : ℤ) (es : List Effect) {c r t : ℕ}
      → is_error error ≡ true
      → Sums fd n es c r t
      → 1 ≤ c
      → r ≡ t
      → Settled fd n answer (record {
        error = error;
        connection = none;
        dialer = record d { event_dial_socket = none; is_connecting = false };
        effects = es;
      })
  fail-Settled d error es e s k h = record {
    idle = record { flag = refl; socket = refl };
    result = inl (record {
      connection = refl;
      error = e;
      closed = rw s.closed k;
      balanced = s.given ∙ h ∙ sym s.taken;
    });
  }

  pub success-Settled :
      {answer : Registration} (d : TcpDialer) (error : ℤ) (c : TcpConnection) (es : List Effect)
      {r t : ℕ}
      → is_error error ≡ false
      → c.event_socket.resource.socket_fd ≡ some fd
      → Registers answer c.event_socket
      → Sums fd n es 0 r t
      → r ≡ t + held n c.event_socket.event_notifier
      → Settled fd n answer (record {
        error = error;
        connection = some c;
        dialer = record d { event_dial_socket = none; is_connecting = false };
        effects = es;
      })
  success-Settled d error c es e f named s h = record {
    idle = record { flag = refl; socket = refl };
    result = inr (
      c,
      record {
        connection = refl;
        error = e;
        socket = f;
        notifier = named;
        kept = s.closed;
        balanced = s.given ∙ h ∙ ap (λ x. x + held n c.event_socket.event_notifier) (sym s.taken);
      },
    );
  }
