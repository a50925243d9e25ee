-- ===== src/Net/TcpListener/Answers.antt =====
-- What the operation of `accept` keeps while it waits, and with what it ends.
use ustevent.Prelude.{
  ℕ, ◌≡◌, ◌≢◌, ◌∙◌, refl, sym, subst, arith, List, [], ◌∷◌, Option, none, some, inl, inr, true,
  false, ◌==◌, Bool-cases, ℤ, pos, negsuc, if◌then◌else◌, All, leb, done, ◌>>=◌,
}
use ustevent.Net.Error
use ustevent.Net.Platform.{Platform}
use ustevent.Net.TcpSocket.{TcpSocket, Accept, Accepting, accepted, refused, non_blocking_accept}
use ustevent.Net.EventOperation.Laws.{Rule, Tried, WaitedFor, Waited}
use ustevent.Net.TcpListener.{Pending, Wake, accept_operation, taken, take_wake}

-- Not INTERRUPTED.
abbrev pub Plain : ℤ → Type 0
Plain error = error ≢ Error.interrupted

-- The address of a peer is no longer than the class of the remote address.
abbrev pub Fits : ℕ → Accepting → Type 0
Fits size (accepted fd address_length) = leb address_length size ≡ true
Fits size (refused e) = Unit

abbrev pub Calm : ℕ → Pending → Type 0
Calm size s = (s.interrupted ≡ false) × (s.has_address ≡ true) × All (Fits size) s.calls

-- The errors of the socket: an errno or 0.
abbrev pub Errno : ℤ → Type 0
Errno error = (e : ℕ) × (error ≡ pos e)

pub Errno-Plain : (error : ℤ) → Errno error → Plain error
Errno-Plain error (e, h) p = let z : pos e ≡ negsuc 3 = sym h ∙ p in absurd (grind (arith, z))

abbrev Answer : ℕ → Option (Accept × List Accepting) → Type 0
Answer size none = Unit {0}
Answer size (some (a, rest)) = Errno a.error × (a.has_address ≡ true) × All (Fits size) rest

non_blocking_accept-Answer :
    (os : Platform) (s : TcpSocket) (calls : List Accepting) (size : ℕ)
    → All (Fits size) calls
    → Answer size (non_blocking_accept os s calls (some size))
unfolding non_blocking_accept
non_blocking_accept-Answer os s [] size fit = tt
non_blocking_accept-Answer os s (accepted fd len ∷ rest) size fit = ((0, refl), fit.0, fit.1)
non_blocking_accept-Answer os s (refused e ∷ rest) size fit = elim (Bool-cases (e == os.eagain)) [
  | inl h ↦ rw h ((e, refl), refl, fit.1)
  | inr h ↦ elim (Bool-cases (e == os.eintr)) [
    | inl g ↦ rw (h, g) (non_blocking_accept-Answer os s rest size fit.1)
    | inr g ↦ rw (h, g) ((e, refl), refl, fit.1)
  ]
]

module _ (os : Platform) (size : ℕ) where
  abbrev pub Kept : ℤ → Pending → Type 0
  Kept error s = Plain error × (s.has_address ≡ true)

  taken-Tried :
      (s : Pending) (out : Option (Accept × List Accepting))
      → Calm size s
      → Answer size out
      → Tried (accept_operation os size) (Calm size) Kept (taken s out)
  taken-Tried s none calm h = tt
  taken-Tried s (some (a, rest)) calm h = elim (Bool-cases a.finished) [
    | inl e ↦ rw e (Errno-Plain a.error h.0, h.1)
    | inr e ↦ rw e (calm.0, h.1, h.2)
  ]

  take_wake-Calm :
      (s : Pending) (ws : List Wake)
      → Calm size s
      → WaitedFor (accept_operation os size) (Calm size) Kept (take_wake s ws)
        × Waited (accept_operation os size) (Calm size) Kept (take_wake s ws >>= λ r. done r.1)
  take_wake-Calm s [] calm = (tt, tt)
  take_wake-Calm s (w ∷ ws) calm = (calm, calm)

  pub rule : Rule (accept_operation os size) (Calm size) Kept
  rule = record {
    closes = λ s calm. (λ p. absurd (grind (arith, p)), calm.1);
    times_out = λ s calm. (λ p. absurd (grind (arith, p)), calm.1);
    interrupts = λ s calm set. let z : true ≡ false = sym set ∙ calm.0 in absurd cc;
    clears = λ s calm. (refl, calm.1, calm.2);
    operates = λ s error calm. taken-Tried s _ calm (
        let some_size : (if s.has_address then some size else none) ≡ some size = rw calm.1 refl in
        subst (λ o. Answer size (non_blocking_accept os s.socket s.calls o)) (sym some_size)
          (non_blocking_accept-Answer os s.socket s.calls size calm.2));
    notifies = λ s error calm. calm;
    waits_for = λ s calm. (take_wake-Calm s s.wakes calm).0;
    waits = λ s calm. (take_wake-Calm s s.wakes calm).1;
  }
