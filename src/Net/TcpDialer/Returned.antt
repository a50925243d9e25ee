-- ===== src/Net/TcpDialer/Returned.antt =====
-- The wait for a connection ends where the answers of the system end it.
use ustevent.Prelude.{
  ℕ, ◌<◌, ◌≡◌, refl, subst, arith, List, [], ◌∷◌, length, Option, none, some, inl, inr, Bool, true,
  false, not, ◌&&◌, ◌||◌, ◌==◌, Bool-cases, ℤ, pos, is_positive, ◌>>=◌, done,
}
use ustevent.Net.Platform.{Platform}
use ustevent.Net.TcpSocket.{non_blocking_connect}
use ustevent.Net.EventOperation.{perform}
use ustevent.Net.EventOperation.Rounds.{Woken, Awoken, Rounds, Returns, perform-Returns}
use ustevent.Net.TcpDialer.{Dialing, poll, take_wake, connect_operation}

-- The test of the socket fails, or gives an error other than EINPROGRESS.
abbrev ends_test : Platform → Option ℕ → Bool
ends_test os none = true
ends_test os (some so_error) = not (so_error == os.einprogress)

-- The tests and the waits between them come to a test that ends the operation or, with a timeout, to a wait
-- that ends at its time.
abbrev pub ends_in : Platform → Bool → List (Option ℕ × ℕ) → List Bool → Bool
ends_in os timed [] wakes = false
ends_in os timed (p ∷ ps) [] = ends_test os p.0
ends_in os timed (p ∷ ps) (w ∷ ws) = ends_test os p.0 || (timed && not w) || ends_in os timed ps ws

module _ (os : Platform) (timeout : ℤ) where
  abbrev Ending : ℕ → Dialing → Type 0
  Ending n s = (length s.wakes ≡ n) × (ends_in os (is_positive timeout) s.polls s.wakes ≡ true)

  -- What stands before a wait.
  abbrev waits_on : List (Option ℕ × ℕ) → List Bool → Bool
  waits_on ps [] = false
  waits_on ps (w ∷ ws) = (is_positive timeout && not w) || ends_in os (is_positive timeout) ps ws

  take_wake-Rounds :
      (n : ℕ) (s : Dialing) (error : ℤ) (ws : List Bool)
      → length ws ≡ n
      → waits_on s.polls ws ≡ true
      → (is_positive timeout ≡ true
          → Woken ⊥ (connect_operation os) Ending timeout n error (take_wake s ws))
        × (is_positive timeout ≡ false
            → Awoken ⊥
                (connect_operation os)
                Ending
                timeout
                n
                error
                (take_wake s ws >>= λ r. done r.1))
  take_wake-Rounds n s error [] many ends = absurd cc
  take_wake-Rounds n s error (w ∷ ws) many ends = (
    λ t. elim (Bool-cases w) [
      | inl e ↦ rw e (length ws, omega arith, (refl, ground arith))
      | inr e ↦ rw e tt
    ],
    λ f. (length ws, omega arith, (refl, ground arith)),
  )

  poll-Rounds :
      (n : ℕ) (s : Dialing) (ps : List (Option ℕ × ℕ)) (ws : List Bool)
      → ws ≡ s.wakes
      → length s.wakes ≡ n
      → ends_in os (is_positive timeout) ps ws ≡ true
      → Rounds ⊥ (connect_operation os) Ending timeout n (poll os s ps)
  unfolding non_blocking_connect
  poll-Rounds n s [] ws same many ends = absurd cc
  poll-Rounds n s ((none, e) ∷ ps) ws same many ends = tt
  poll-Rounds n s ((some so_error, e) ∷ ps) [] same many ends =
      elim (Bool-cases (so_error == os.einprogress)) [
        | inl f ↦ let no : false ≡ true = rw f at ends in absurd cc
        | inr f ↦ rw f tt
      ]
  poll-Rounds n s ((some so_error, e) ∷ ps) (w ∷ ws) same many ends =
      elim (Bool-cases (so_error == os.einprogress)) [
        | inl f ↦
            let more : waits_on ps (w ∷ ws) ≡ true = rw f at ends in
            rw f (
              take_wake-Rounds n (record s { polls = ps }) (pos so_error) s.wakes many
                (subst (λ x. waits_on ps x ≡ true) same more))
        | inr f ↦ rw f tt
      ]

  pub perform-ends_in :
      (fuel : ℕ) (s : Dialing)
      → ends_in os (is_positive timeout) s.polls s.wakes ≡ true
      → length s.wakes < fuel
      → Returns ⊥ (perform (connect_operation os) timeout fuel true s)
  perform-ends_in fuel s ends enough =
      perform-Returns ⊥ (connect_operation os) Ending timeout
        (λ n t error (many, more) is_open. poll-Rounds n t t.polls t.wakes refl many more) fuel
        (length s.wakes) true s enough (refl, ends)
