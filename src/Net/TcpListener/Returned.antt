-- ===== src/Net/TcpListener/Returned.antt =====
-- The wait for a peer ends where the answers of the system end it.
use ustevent.Prelude.{
  ℕ, ◌<◌, ◌≡◌, ◌⊎◌, refl, arith, List, [], ◌∷◌, length, Option, none, some, inl, inr, Bool, true,
  false, not, ◌&&◌, ◌||◌, ◌==◌, Bool-cases, ℤ, is_positive, ◌>>=◌, done, if◌then◌else◌,
}
use ustevent.Net.Platform.{Platform}
use ustevent.Net.TcpSocket.{TcpSocket, Accept, Accepting, accepted, refused, non_blocking_accept}
use ustevent.Net.EventOperation.{perform}
use ustevent.Net.EventOperation.Rounds.{Woken, Awoken, Rounds, Returns, perform-Returns}
use ustevent.Net.TcpListener.{Pending, Wake, taken, take_wake, accept_operation}

-- A wait ends the operation, at its time or because the listener is closed, or what follows it does.
abbrev goes_to : Bool → (List Wake → Bool) → List Wake → Bool
goes_to timed after [] = false
goes_to timed after (w ∷ ws) = (timed && not w.in_time) || w.closed || after ws

-- The calls of `::accept4` and the waits between them come to a call that is not interrupted and does not say EAGAIN,
-- or to a wait that ends the operation.
abbrev pub ends_in : Platform → Bool → List Accepting → List Wake → Bool
ends_in os timed [] wakes = false
ends_in os timed (accepted fd address_length ∷ rest) wakes = true
ends_in os timed (refused e ∷ rest) wakes =
    let more = ends_in os timed rest in
    if e == os.eagain then goes_to timed more wakes else if e == os.eintr then more wakes else true

module _ (os : Platform) (size : ℕ) (timeout : ℤ) where
  abbrev Ending : ℕ → Pending → Type 0
  Ending n s =
      (length s.wakes ≡ n)
      × (s.is_listening ≡ true → ends_in os (is_positive timeout) s.calls s.wakes ≡ true)

  -- What a test gives: it ends the operation, or leaves calls and waits that do.
  abbrev Tested : List Wake → Option (Accept × List Accepting) → Type 0
  Tested wakes none = ⊥
  Tested wakes (some (a, rest)) =
      (a.finished ≡ true)
      ⊎ ((a.finished ≡ false)
          × (goes_to (is_positive timeout) (ends_in os (is_positive timeout) rest) wakes ≡ true))

  non_blocking_accept-Tested :
      (s : TcpSocket) (calls : List Accepting) (wakes : List Wake) (o : Option ℕ)
      → ends_in os (is_positive timeout) calls wakes ≡ true
      → Tested wakes (non_blocking_accept os s calls o)
  unfolding non_blocking_accept
  non_blocking_accept-Tested s [] wakes o ends = absurd cc
  non_blocking_accept-Tested s (accepted fd k ∷ rest) wakes o ends = inl refl
  non_blocking_accept-Tested s (refused e ∷ rest) wakes o ends =
      elim (Bool-cases (e == os.eagain)) [
        | inl h ↦
            let more : goes_to (is_positive timeout) (ends_in os (is_positive timeout) rest) wakes
                ≡ true =
              rw h at ends in
            rw h (inr (refl, more))
        | inr h ↦ elim (Bool-cases (e == os.eintr)) [
          | inl g ↦
              let more : ends_in os (is_positive timeout) rest wakes ≡ true = rw (h, g) at ends in
              rw (h, g) (non_blocking_accept-Tested s rest wakes o more)
          | inr g ↦ rw (h, g) (inl refl)
        ]
      ]

  take_wake-Rounds :
      (n : ℕ) (s : Pending) (error : ℤ) (ws : List Wake)
      → length ws ≡ n
      → goes_to (is_positive timeout) (ends_in os (is_positive timeout) s.calls) ws ≡ true
      → (is_positive timeout ≡ true
          → Woken ⊥ (accept_operation os size) Ending timeout n error (take_wake s ws))
        × (is_positive timeout ≡ false
            → Awoken ⊥
                (accept_operation os size)
                Ending
                timeout
                n
                error
                (take_wake s ws >>= λ r. done r.1))
  take_wake-Rounds n s error [] many ends = absurd cc
  take_wake-Rounds n s error (w ∷ ws) many ends = (
    λ t. elim (Bool-cases w.in_time) [
      | inl e ↦ rw e (length ws, omega arith, (refl, λ listening. ground arith))
      | inr e ↦ rw e tt
    ],
    λ f. (length ws, omega arith, (refl, λ listening. ground arith)),
  )

  taken-Rounds :
      (n : ℕ) (s : Pending) (out : Option (Accept × List Accepting))
      → length s.wakes ≡ n
      → Tested s.wakes out
      → Rounds ⊥ (accept_operation os size) Ending timeout n (taken s out)
  taken-Rounds n s none many h = h
  taken-Rounds n s (some (a, rest)) many (inl e) = rw e tt
  taken-Rounds n s (some (a, rest)) many (inr (e, ends)) = rw e (
      take_wake-Rounds n
        (record s {
          calls = rest;
          accepted_socket_fd = a.accepted_socket;
          has_address = a.has_address;
        })
        a.error s.wakes many ends)

  pub perform-ends_in :
      (fuel : ℕ) (s : Pending)
      → ends_in os (is_positive timeout) s.calls s.wakes ≡ true
      → length s.wakes < fuel
      → Returns ⊥ (perform (accept_operation os size) timeout fuel true s)
  perform-ends_in fuel s ends enough =
      perform-Returns ⊥ (accept_operation os size) Ending timeout
        (λ n t error (many, more) listening.
          taken-Rounds n t
            (non_blocking_accept os t.socket t.calls (if t.has_address then some size else none))
            many
            (non_blocking_accept-Tested t.socket t.calls t.wakes
              (if t.has_address then some size else none) (more listening)))
        fuel (length s.wakes) true s enough (refl, λ listening. ends)
