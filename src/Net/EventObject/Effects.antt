-- ===== src/Net/EventObject/Effects.antt =====
-- What the effects of a call leave behind: which descriptors are closed, and which notifiers stay
-- registered.
use ustevent.Prelude.{
  ℕ, zero, suc, pos, ◌<◌, false, is_error, ◌+◌, ◌≤◌, ◌≡◌, ◌∙◌, refl, sym, arith, subst, List, [],
  ◌∷◌, ◌++◌, map, ◌==◌, if◌then◌else◌, Option, none, some, inl, inr, ◌⊎◌,
}
use ustevent.Net.Platform.{CallResult, returned, failed}
use ustevent.Net.TcpSocket
use ustevent.Net.TcpSocket.{TcpSocket}
use ustevent.Net.EventObject.{
  Effect, closes, registers, deregisters, EventObject, Registration, registered, unregistered, init,
  destroy, destroy_notified, event_object, release_notified,
}

abbrev pub count : ℕ → ℕ → ℕ
count n m = if n == m then 1 else 0

-- How often a descriptor is closed.
abbrev pub closings : ℕ → List Effect → ℕ
closings fd [] = 0
closings fd (closes d ∷ es) = count d fd + closings fd es
closings fd (registers n ∷ es) = closings fd es
closings fd (deregisters n ∷ es) = closings fd es

-- How often a notifier is given, and how often it is taken back.
abbrev pub registrations : ℕ → List Effect → ℕ
registrations n [] = 0
registrations n (closes d ∷ es) = registrations n es
registrations n (registers m ∷ es) = count m n + registrations n es
registrations n (deregisters m ∷ es) = registrations n es

abbrev pub deregistrations : ℕ → List Effect → ℕ
deregistrations n [] = 0
deregistrations n (closes d ∷ es) = deregistrations n es
deregistrations n (registers m ∷ es) = deregistrations n es
deregistrations n (deregisters m ∷ es) = count m n + deregistrations n es

-- Whether an object is registered with a notifier.
abbrev pub held : ℕ → Option ℕ → ℕ
held n none = 0
held n (some m) = count m n

pub Registration-cases :
    (r : Registration) → ((m : ℕ) × (r ≡ registered m)) ⊎ ((e : ℕ) × (r ≡ unregistered e))
Registration-cases (registered m) = inl (m, refl)
Registration-cases (unregistered e) = inr (e, refl)

-- A registration that fails says why, by an errno, which is not 0.
abbrev pub Answered : Registration → Type 0
Answered (registered m) = Unit
Answered (unregistered e) = 0 < e

pub errno-positive : (k : ℕ) → 0 < k → ¬ (is_error (pos k) ≡ false)
errno-positive zero h e = omega arith
errno-positive (suc k) h e = absurd (ground (arith, e))

-- The object has the notifier that the registration gave.
abbrev pub Registers : Registration → EventObject → Type 0
Registers r o = (m : ℕ) × (r ≡ registered m) × (o.event_notifier ≡ some m)

pub init-Registers :
    (s : TcpSocket) (r : Registration)
    → Answered r
    → is_error (init (event_object s) r).0 ≡ false
    → Registers r (init (event_object s) r).1
unfolding init
init-Registers s (registered m) h e = (m, refl, refl)
init-Registers s (unregistered k) h e = absurd (errno-positive k h e)

-- What effects do to a descriptor and a notifier, in numbers.
pub record Sums (fd n : ℕ) (es : List Effect) (c r d : ℕ) : Type 0 where
  pub closed : closings fd es ≡ c
  pub given : registrations n es ≡ r
  pub taken : deregistrations n es ≡ d

module _ (fd n : ℕ) where
  closings-append : (es fs : List Effect) → closings fd (es ++ fs) ≡ closings fd es + closings fd fs
  closings-append [] fs = omega arith
  closings-append (closes d ∷ es) fs = grind (arith, closings-append es fs)
  closings-append (registers m ∷ es) fs = closings-append es fs
  closings-append (deregisters m ∷ es) fs = closings-append es fs

  registrations-append :
      (es fs : List Effect) → registrations n (es ++ fs) ≡ registrations n es + registrations n fs
  registrations-append [] fs = omega arith
  registrations-append (closes d ∷ es) fs = registrations-append es fs
  registrations-append (registers m ∷ es) fs = grind (arith, registrations-append es fs)
  registrations-append (deregisters m ∷ es) fs = registrations-append es fs

  deregistrations-append :
      (es fs : List Effect)
      → deregistrations n (es ++ fs) ≡ deregistrations n es + deregistrations n fs
  deregistrations-append [] fs = omega arith
  deregistrations-append (closes d ∷ es) fs = deregistrations-append es fs
  deregistrations-append (registers m ∷ es) fs = deregistrations-append es fs
  deregistrations-append (deregisters m ∷ es) fs = grind (arith, deregistrations-append es fs)

  pub Sums-append :
      (es fs : List Effect) {a b c x y z : ℕ}
      → Sums fd n es a b c
      → Sums fd n fs x y z
      → Sums fd n (es ++ fs) (a + x) (b + y) (c + z)
  Sums-append es fs s t = record {
    closed = closings-append es fs ∙ (rw (s.closed, t.closed) refl);
    given = registrations-append es fs ∙ (rw (s.given, t.given) refl);
    taken = deregistrations-append es fs ∙ (rw (s.taken, t.taken) refl);
  }

  -- How often the destructor of an object closes its descriptor: twice where it is registered and `::close`
  -- succeeds.
  abbrev pub destroyed : Option ℕ → CallResult → ℕ
  destroyed none closed = 1
  destroyed (some m) (returned k) = 2
  destroyed (some m) (failed e) = 1

  pub destroyed-positive :
      (notifier : Option ℕ) (closed : CallResult) → 1 ≤ destroyed notifier closed
  destroyed-positive none closed = omega arith
  destroyed-positive (some m) (returned k) = omega arith
  destroyed-positive (some m) (failed e) = omega arith

  destroy_notified-Sums :
      (notifier : Option ℕ) (closed : CallResult)
      → Sums fd n
          (destroy_notified (record { socket_fd = some fd }) closed notifier)
          (destroyed notifier closed)
          0
          (held n notifier)
  unfolding TcpSocket.close TcpSocket.destroy
  destroy_notified-Sums none closed = record { closed = ground arith; given = refl; taken = refl }
  destroy_notified-Sums (some m) (returned k) = record {
    closed = ground arith;
    given = refl;
    taken = ground arith;
  }
  destroy_notified-Sums (some m) (failed e) = record {
    closed = ground arith;
    given = refl;
    taken = ground arith;
  }

  -- The descriptor of an object that is destroyed is closed, and its notifier is taken back.
  pub destroy-Sums :
      (o : EventObject) (closed : CallResult)
      → o.resource.socket_fd ≡ some fd
      → Sums fd n (destroy o closed) (destroyed o.event_notifier closed) 0 (held n o.event_notifier)
  unfolding destroy
  destroy-Sums o closed h =
      subst
        (λ x.
          Sums fd n (destroy_notified (record { socket_fd = x }) closed o.event_notifier)
            (destroyed o.event_notifier closed) 0 (held n o.event_notifier))
        (sym h) (destroy_notified-Sums o.event_notifier closed)

  -- An object without a descriptor closes nothing.
  pub destroy-empty :
      (closed : CallResult)
      → Sums fd n
          (destroy
            (record { event_notifier = none; resource = record { socket_fd = none } })
            closed)
          0
          0
          0
  unfolding destroy TcpSocket.destroy
  destroy-empty closed = record { closed = refl; given = refl; taken = refl }

  pub release_notified-Sums :
      (notifier : Option ℕ) → Sums fd n (release_notified notifier) 0 0 (held n notifier)
  release_notified-Sums none = record { closed = refl; given = refl; taken = refl }
  release_notified-Sums (some m) = record { closed = refl; given = refl; taken = ground arith }

  -- A new object with the socket: what it is registered with is what is given.
  pub init-Sums :
      (s : TcpSocket) (r : Registration)
      → Sums fd n
          (init (event_object s) r).2
          0
          (held n (init (event_object s) r).1.event_notifier)
          0
  unfolding init
  init-Sums s (registered m) = record { closed = refl; given = ground arith; taken = refl }
  init-Sums s (unregistered e) = record { closed = refl; given = refl; taken = refl }

  pub init-resource : (s : TcpSocket) (r : Registration) → (init (event_object s) r).1.resource ≡ s
  unfolding init
  init-resource s (registered m) = refl
  init-resource s (unregistered e) = refl

  pub closes-Sums :
      (s : TcpSocket) → s.socket_fd ≡ some fd → Sums fd n (map closes (TcpSocket.destroy s)) 1 0 0
  unfolding TcpSocket.destroy
  closes-Sums s h =
      subst (λ x. Sums fd n (map closes (TcpSocket.destroy_fd x)) 1 0 0) (sym h)
        (record { closed = ground arith; given = refl; taken = refl })

  -- Closing descriptors registers nothing.
  closes-registrations : (fds : List ℕ) → registrations n (map closes fds) ≡ 0
  closes-registrations [] = refl
  closes-registrations (d ∷ fds) = closes-registrations fds

  closes-deregistrations : (fds : List ℕ) → deregistrations n (map closes fds) ≡ 0
  closes-deregistrations [] = refl
  closes-deregistrations (d ∷ fds) = closes-deregistrations fds

  -- An object that could not be registered and is destroyed: no notifier is concerned.
  pub unregistered-balanced :
      (s : TcpSocket) (closed : CallResult)
      → let es = destroy (record { event_notifier = none; resource = s }) closed in
        (registrations n es ≡ 0) × (deregistrations n es ≡ 0)
  unfolding destroy
  unregistered-balanced s closed =
      (closes-registrations (TcpSocket.destroy s), closes-deregistrations (TcpSocket.destroy s))
