-- ===== src/Core/RingBuffer/Held.antt =====
-- Who has the workers of a ring buffer.
use ustevent.Prelude.{
  ℕ, zero, suc, ◌+◌, ◌%◌, ◌^◌, ◌<◌, ◌≤◌, ◌≡◌, ◌∙◌, refl, ap, subst, arith, Bool, true, false,
  Bool-cases, inl, inr, Option, none, some, Option-cases, Outcome, done, spin, fault, ◌>>=◌, ◌==◌,
  if◌then◌else◌, update, length, get_elem?, set, length-set, get_elem?-set, get_elem?-in_range,
}
use ustevent.Core.RingBuffer.{
  MpscRingBuffer, Worker, create, fresh_workers, register_worker, unregister_worker, store_worker,
  max_offset,
}
use ustevent.Core.RingBuffer.Writers.{
  MpscRingBufferWriter, writer_of, destroy_writer, Writers, no_writers, new_writer, move_writer,
  assign_writer, return_writer, Reach, begin, step_make, step_move, step_assign, step_return,
}

abbrev pub is_registered : Option Worker → Bool
is_registered none = false
is_registered (some w) = w.registered

-- Writers have different workers, which are registered and have been given.
record Held (threads n : ℕ) (s : Writers) : Type 0 where
  sequence : s.writer_sequence ≡ n
  fits : n ≤ threads
  size : length s.ring.workers ≡ threads
  apart : (a b w : ℕ) → s.writers a ≡ some w → s.writers b ≡ some w → a ≡ b
  given : (a w : ℕ) → s.writers a ≡ some w → w < n
  registered : (a w : ℕ) → s.writers a ≡ some w → is_registered (get_elem? s.ring.workers w) ≡ true

register_worker-beyond :
    (r : MpscRingBuffer) (i : ℕ) → get_elem? r.workers i ≡ none → register_worker r i ≡ fault
unfolding register_worker
register_worker-beyond r i e =
    ap
      (λ (o : Option Worker).
        elim o as (λ _. Outcome Worker) [ none ↦ fault | some w ↦ done w ] >>= λ _.
        done (store_worker r i (record { seen = max_offset; registered = true })))
      e

module _ {threads : ℕ} (small : threads < 2 ^ 32) where
  abbrev Makes : ℕ → Outcome Writers → Type 0
  Makes n spin = Unit
  Makes n fault = Unit
  Makes n (done t) = Held threads n t

  -- Where a writer had its worker before a move from `b` to `a`.
  origin :
      (f : ℕ → MpscRingBufferWriter) (a b c w : ℕ)
      → update (update f a (f b)) b none c ≡ some w
      → (f (if a == c then b else c) ≡ some w) × ((b == c) ≡ false)
  origin f a b c w e = elim (Bool-cases (b == c)) [
    | inl h ↦ absurd (ground arith)
    | inr h ↦ elim (Bool-cases (a == c)) [
      | inl k ↦ (rw k (ground arith), h)
      | inr k ↦ (rw k (ground arith), h)
    ]
  ]

  move-Held :
      {n : ℕ} {s : Writers} → Held threads n s → (a b : ℕ) → Held threads n (move_writer s a b)
  unfolding move_writer
  move-Held {s = s} v a b = record {
    sequence = v.sequence;
    fits = v.fits;
    size = v.size;
    apart = λ c d w h k.
        let (c_had, c_b) = origin s.writers a b c w h in
        let (d_had, d_b) = origin s.writers a b d w k in
        let same = v.apart (if a == c then b else c) (if a == d then b else d) w c_had d_had in
        ground arith;
    given = λ c w h. v.given (if a == c then b else c) w (origin s.writers a b c w h).0;
    registered = λ c w h. v.registered (if a == c then b else c) w (origin s.writers a b c w h).0;
  }

  assign-Held :
      {n : ℕ} {s : Writers} → Held threads n s → (a b : ℕ) → Held threads n (assign_writer s a b)
  unfolding assign_writer
  assign-Held v a b = elim (Bool-cases (a == b)) [ inl e ↦ rw e v | inr e ↦ rw e (move-Held v a b) ]

  -- The writer at `a` takes the next worker.
  new-Held : {n : ℕ} {s : Writers} → Held threads n s → (a : ℕ) → Makes (suc n) (new_writer s a)
  unfolding new_writer writer_of register_worker
  new-Held {n} {s} v a = elim (Option-cases (get_elem? s.ring.workers s.writer_sequence)) [
    | inl e ↦ rw (e, Makes) tt
    | inr (old, e) ↦
        let low : s.writer_sequence < length s.ring.workers =
          get_elem?-in_range s.ring.workers s.writer_sequence old e in
        rw (e, Makes)
          (record {
            sequence = omega (arith, v.sequence, v.size, v.fits);
            fits = omega (arith, v.sequence, v.size);
            size = length-set s.ring.workers s.writer_sequence fresh ∙ v.size;
            apart = λ c d w h k. elim (Bool-cases (a == c)) [
              | inl p ↦ elim (Bool-cases (a == d)) [
                | inl q ↦ ground arith
                | inr q ↦ absurd (taken c d w p q h k)
              ]
              | inr p ↦ elim (Bool-cases (a == d)) [
                | inl q ↦ absurd (taken d c w q p k h)
                | inr q ↦ v.apart c d w (ground arith) (ground arith)
              ]
            ];
            given = λ c w h. elim (Bool-cases (a == c)) [
              | inl p ↦ omega (arith, v.sequence, mine c w p h)
              | inr p ↦ omega (arith, v.given c w (ground arith))
            ];
            registered = λ c w h. elim (Bool-cases (s.writer_sequence == w)) [
              | inl p ↦ rw (lookup old e w, p) refl
              | inr p ↦ elim (Bool-cases (a == c)) [
                | inl q ↦ let same = mine c w q h in absurd (ground arith)
                | inr q ↦ rw (lookup old e w, p) (v.registered c w (ground arith))
              ]
            ];
          })
  ]
    where
      fresh : Worker
      fresh = record { seen = max_offset; registered = true }

      mine :
          (c w : ℕ)
          → (a == c) ≡ true
          → update s.writers a (some s.writer_sequence) c ≡ some w
          → s.writer_sequence ≡ w
      mine c w p h = ground arith

      taken :
          (c d w : ℕ)
          → (a == c) ≡ true
          → (a == d) ≡ false
          → update s.writers a (some s.writer_sequence) c ≡ some w
          → update s.writers a (some s.writer_sequence) d ≡ some w
          → ⊥
      taken c d w p q h k =
          let old : s.writers d ≡ some w = ground arith in
          omega (arith, v.sequence, mine c w p h, v.given d w old)

      lookup :
          (old : Worker)
          → get_elem? s.ring.workers s.writer_sequence ≡ some old
          → (j : ℕ)
          → get_elem? (set s.ring.workers s.writer_sequence fresh) j
            ≡ (if s.writer_sequence == j then some fresh else get_elem? s.ring.workers j)
      lookup old e j = get_elem?-set s.ring.workers s.writer_sequence j fresh old e

  -- The writer at `a` is null then, and its worker not registered.
  return-Held : {n : ℕ} {s : Writers} → Held threads n s → (a : ℕ) → Makes n (return_writer s a)
  unfolding return_writer destroy_writer unregister_worker
  return-Held {n} {s} v a = elim (Option-cases (s.writers a)) [
    | inl e ↦
        rw (e, Makes)
          (record {
            sequence = v.sequence;
            fits = v.fits;
            size = v.size;
            apart = λ c d w h k. v.apart c d w (kept c w h).0 (kept d w k).0;
            given = λ c w h. v.given c w (kept c w h).0;
            registered = λ c w h. v.registered c w (kept c w h).0;
          })
    | inr (i, e) ↦ elim (Option-cases (get_elem? s.ring.workers i)) [
      | inl at ↦ rw (e, Makes) (rw (at, Makes) tt)
      | inr (old, at) ↦
          rw (e, Makes)
            (rw (at, Makes)
              (record {
                sequence = v.sequence;
                fits = v.fits;
                size = length-set s.ring.workers i (record old { registered = false }) ∙ v.size;
                apart = λ c d w h k. v.apart c d w (kept c w h).0 (kept d w k).0;
                given = λ c w h. v.given c w (kept c w h).0;
                registered = λ c w h.
                    let (had, other) = kept c w h in
                    elim (Bool-cases (i == w)) [
                      | inl same ↦
                          let here : s.writers a ≡ some w = e ∙ ap some (ground arith) in
                          let z = v.apart a c w here had in absurd (ground arith)
                      | inr p ↦
                          let look =
                            get_elem?-set s.ring.workers i w (record old { registered = false }) old
                              at in
                          rw (look, p) (v.registered c w had)
                    ];
              }))
    ]
  ]
    where
      kept :
          (c w : ℕ)
          → update s.writers a none c ≡ some w
          → (s.writers c ≡ some w) × ((a == c) ≡ false)
      kept c w h = elim (Bool-cases (a == c)) [
        | inl p ↦ absurd (ground arith)
        | inr p ↦ (ground arith, p)
      ]

  length-fresh_workers : (n : ℕ) → length (fresh_workers n) ≡ n
  length-fresh_workers zero = refl
  length-fresh_workers (suc n) = ap suc (length-fresh_workers n)

  Reach-Held :
      {buffer_length n : ℕ} {s : Writers} → Reach buffer_length threads n s → Held threads n s
  unfolding no_writers create
  Reach-Held begin = record {
    sequence = refl;
    fits = omega arith;
    size = length-fresh_workers threads;
    apart = λ a b w h k. cc;
    given = λ a w h. cc;
    registered = λ a w h. cc;
  }
  Reach-Held (step_make a r free e) = subst (Makes _) e (new-Held (Reach-Held r) a)
  Reach-Held (step_move a b r free other) = move-Held (Reach-Held r) a b
  Reach-Held (step_assign a b r) = assign-Held (Reach-Held r) a b
  Reach-Held (step_return a r e) = subst (Makes _) e (return-Held (Reach-Held r) a)

  -- However the writers of a queue of fewer than 2^32 workers are made, moved, assigned and
  -- destroyed: two writers that have one worker are the same writer, and the worker is one of
  -- the buffer's and registered.
  pub Reach-apart :
      {buffer_length n : ℕ} {s : Writers} (a b w : ℕ)
      → Reach buffer_length threads n s
      → s.writers a ≡ some w
      → s.writers b ≡ some w
      → (a ≡ b) × (w < threads) × (is_registered (get_elem? s.ring.workers w) ≡ true)
  Reach-apart a b w r h k =
      let v = Reach-Held r in
      (v.apart a b w h k, omega (arith, v.given a w h, v.fits), v.registered a w h)

  -- When a queue of fewer than 2^32 workers has made as many writers as its buffer has workers,
  -- even if they have all been destroyed since, the next one is beyond the workers.
  pub Reach-exhausted :
      {buffer_length : ℕ} {s : Writers} (a : ℕ)
      → Reach buffer_length threads threads s
      → new_writer s a ≡ fault
  unfolding new_writer writer_of
  Reach-exhausted {s = s} a r =
      let v = Reach-Held r in
      elim (Option-cases (get_elem? s.ring.workers s.writer_sequence)) [
        | inl e ↦
            ap
              (λ o. (o >>= λ t. done (some s.writer_sequence, t)) >>= λ (w, t). done (record s {
                ring = t;
                writer_sequence = (s.writer_sequence + 1) % 2 ^ 32;
                writers = update s.writers a w;
              }))
              (register_worker-beyond s.ring s.writer_sequence e)
        | inr (old, e) ↦ absurd (
            omega (
              arith,
              get_elem?-in_range s.ring.workers s.writer_sequence old e,
              v.sequence,
              v.size,
            ))
      ]
