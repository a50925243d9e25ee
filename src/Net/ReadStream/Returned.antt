-- ===== src/Net/ReadStream/Returned.antt =====
-- `read` with a timeout returns.
use ustevent.Prelude.{
  ℕ, suc, ◌+◌, ◌-◌, ◌<◌, ◌≤◌, ◌≡◌, inl, inr, ◌⊎◌, ◌≢◌, refl, arith, Bool, true, false, not, ◌||◌,
  copy, take, drop, Bool-cases, some, List, [], ◌∷◌, done, fault, ℤ, pos, is_error, is_positive,
  ltb, ◌==◌, if◌then◌else◌, length,
}
use ustevent.Net.Platform.{Platform, CallResult, returned, failed}
use ustevent.Net.TcpSocket.{TcpSocket, Io, stop, non_blocking_receive}
use ustevent.Net.EventOperation.Rounds.{
  Fewer, Woken, Rounds, Returns, Returns-cases, perform-Returns,
}
use ustevent.Net.ReadStream.{
  Reading, Wake, non_blocking_read_some, received_into, operation, all_operated, read, take_wake,
}
use ustevent.Net.ReadStream.Results.{read_counts}

module _ (os : Platform) where
  open os use {eagain, eintr}

  -- The results that end the loop over `::recvmsg`: all but the interruptions.
  abbrev pub final_results : List CallResult → ℕ
  final_results [] = 0
  final_results (returned n ∷ rest) = suc (final_results rest)
  final_results (failed e ∷ rest) = (if e == eintr then 0 else 1) + final_results rest

  receive-final :
      (socket : TcpSocket) (results : List CallResult) (before : ℤ)
      → 0 < final_results results
      → (io : Io) × (rest : List CallResult) × (non_blocking_receive os socket results before
          ≡ some (io, rest))
        × (final_results results ≤ suc (final_results rest))
  unfolding non_blocking_receive
  receive-final socket [] before h = elim h [ ]
  receive-final socket (returned n ∷ rest) before h = (_, rest, refl, omega arith)
  receive-final socket (failed e ∷ rest) before h = elim (Bool-cases (e == eagain)) [
    | inl a ↦ (stop os e, rest, rw a refl, ground arith)
    | inr a ↦ elim (Bool-cases (e == eintr)) [
      | inl i ↦
          let (io, rest', q, many) = receive-final socket rest before (ground arith) in
          (io, rest', rw (a, i) q, ground arith)
      | inr i ↦ (stop os e, rest, rw (a, i) refl, ground arith)
    ]
  ]

-- A wait to come that ends at its time.
abbrev pub times_out : List Wake → Bool
times_out [] = false
times_out (w ∷ ws) = not w.in_time || times_out ws

module _ (os : Platform) (size : ℕ) where
  abbrev Left : ℕ → Reading → Type 0
  Left n s =
      (s.next_size + length s.wakes ≡ n)
      × (n < final_results os s.results)
      × (times_out s.wakes ≡ true)

  -- The same when a result has been taken.
  abbrev Used : ℕ → Reading → Type 0
  Used n s =
      (s.next_size + length s.wakes ≡ n)
      × (n ≤ final_results os s.results)
      × (times_out s.wakes ≡ true)

  all_operated-Fewer :
      (timeout : ℤ) (n : ℕ) (s : Reading) (error : ℤ)
      → Used n s
      → Fewer Unit (operation os 0 size all_operated) Left timeout n (all_operated s error)
  all_operated-Fewer timeout n s error (left, many, ends) = elim (Bool-cases (is_error error)) [
    | inl e ↦ rw e tt
    | inr e ↦ rw e (elim (Bool-cases (s.bytes_read == 0)) [
      | inl h ↦ rw h tt
      | inr h ↦ rw h (elim (Bool-cases (ltb s.bytes_read s.next_size)) [
        | inl k ↦
            rw k (
              s.next_size - s.bytes_read + length s.wakes,
              ground arith,
              (refl, ground arith, ends),
            )
        | inr k ↦
            rw k (elim (Bool-cases (s.bytes_read == s.next_size)) [
              | inl t ↦ rw t tt
              | inr t ↦ rw t tt
            ])
      ])
    ])
  ]

  take_wake-Woken :
      (timeout : ℤ) (n : ℕ) (s : Reading) (error : ℤ) (ws : List Wake)
      → s.next_size + length ws ≡ n
      → n ≤ final_results os s.results
      → times_out ws ≡ true
      → Woken Unit (operation os 0 size all_operated) Left timeout n error (take_wake s ws)
  take_wake-Woken timeout n s error [] left many ends = absurd (ground arith)
  take_wake-Woken timeout n s error (w ∷ ws) left many ends = elim (Bool-cases w.in_time) [
    | inl e ↦ rw e (s.next_size + length ws, omega arith, (refl, omega arith, ground arith))
    | inr e ↦ rw e tt
  ]

  -- The stream when a result has been taken.
  abbrev taken : Reading → Io → List CallResult → Reading
  taken s io rest = record s {
    results = rest;
    bytes_read = io.transferred;
    memory = copy 0 (take io.transferred s.arriving) s.memory;
    arriving = drop io.transferred s.arriving;
  }

  received_into-Rounds :
      (timeout : ℤ)
      → is_positive timeout ≡ true
      → (n : ℕ) (s : Reading) (io : Io) (rest : List CallResult) → Left n s
      → final_results os s.results ≤ suc (final_results os rest)
      → Rounds Unit
          (operation os 0 size all_operated)
          Left
          timeout
          n
          (received_into s 0 (some (io, rest)))
  received_into-Rounds timeout timed n s io rest (left, many, ends) most =
      elim (Bool-cases io.finished) [
        | inl e ↦
            rw e (all_operated-Fewer timeout n (taken s io rest) io.error (left, omega arith, ends))
        | inr e ↦ rw e (
          λ t. take_wake-Woken timeout n (taken s io rest) io.error s.wakes left (omega arith) ends,
          λ f. absurd cc,
        )
      ]

  non_blocking_read_some-Rounds :
      (timeout : ℤ)
      → is_positive timeout ≡ true
      → (n : ℕ) (s : Reading) (error : ℤ) → Left n s
      → (operation os 0 size all_operated).is_open s ≡ true
      → Rounds Unit
          (operation os 0 size all_operated)
          Left
          timeout
          n
          (non_blocking_read_some os 0 size s error)
  unfolding non_blocking_read_some
  non_blocking_read_some-Rounds timeout timed n s error p is_open =
      let (io, rest, e, most) = receive-final os s.socket s.results error (omega (arith, p.1)) in
      rw e (received_into-Rounds timeout timed n s io rest p most)

  read-within :
      (fuel : ℕ) (has_object : Bool) (timeout : ℤ) (s : Reading)
      → is_positive timeout ≡ true
      → times_out s.wakes ≡ true
      → size + length s.wakes < final_results os s.results
      → size + length s.wakes < fuel
      → Returns Unit (read os fuel has_object size timeout s)
  unfolding read
  read-within fuel has_object timeout s timed ends many enough =
      perform-Returns Unit (operation os 0 size all_operated) Left timeout
        (non_blocking_read_some-Rounds timeout timed) fuel (size + length s.wakes) has_object
        (record s { bytes_read = 0; next_buffer = 0; next_size = size }) enough (refl, many, ends)

  -- When the timeout is positive, one of the waits to come ends at its time, and recvmsg has
  -- more answers to come than bytes are asked for and waits are to come, interruptions not
  -- counted: read returns within as many rounds of its loop and one, unless an assertion fails,
  -- with a count of at most the size, which is the size unless the error is not 0.
  pub read-Returns :
      (fuel : ℕ) (has_object : Bool) (timeout : ℤ) (s : Reading)
      → is_positive timeout ≡ true
      → times_out s.wakes ≡ true
      → size + length s.wakes < final_results os s.results
      → size + length s.wakes < fuel
      → (read os fuel has_object size timeout s ≡ fault)
        ⊎ ((error : ℤ) × (t : Reading) × (read os fuel has_object size timeout s ≡ done (error, t))
            × (t.next_buffer ≤ size)
            × ((t.next_buffer ≡ size) ⊎ (error ≢ pos 0)))
  read-Returns fuel has_object timeout s timed ends many enough =
      elim (Returns-cases (read os fuel has_object size timeout s)
        (read-within fuel has_object timeout s timed ends many enough)) [
          | inl (_, e) ↦ inl e
          | inr ((error, t), e) ↦
              let (low, full) = read_counts os size fuel has_object timeout error s t e in
              inr (error, t, e, low, full)
        ]
