-- ===== src/Core/RingBuffer/Granted.antt =====
-- The steps of a worker that acquires a range.
use ustevent.Prelude.{
  ℕ, ◌≡◌, refl, sym, ◌∙◌, true, Option, none, some, arith, Outcome, done, get_elem?, set, update,
  subst,
}
use ustevent.Core.RingBuffer.{MpscRingBuffer, Worker, acquire}
use ustevent.Core.RingBuffer.Acquire.{
  acquire-Acquired, Acquired, too_large, refused, plain, exact, turns,
}
use ustevent.Core.RingBuffer.Grant.{Grant, Grant-plain, Grant-exact, Grant-turns}
use ustevent.Core.RingBuffer.System.{System, Inv, Seats-some}

abbrev granting : ℕ → MpscRingBuffer → Outcome (Option ℕ × MpscRingBuffer)
granting a t = done (some a, t)

-- What a granted `acquire` returns and leaves.
pub record Granted (s : System) (i n a : ℕ) (w : Worker) (t : MpscRingBuffer) : Type 0 where
  pub seen : ℕ
  pub grants : Grant s.ring t s.granted seen a n
  pub workers : t.workers ≡ set s.ring.workers i (record w { seen = seen })

module _ (s : System) (v : Inv s) (i n a : ℕ) (w : Worker) (t : MpscRingBuffer)
    (at : get_elem? s.ring.workers i ≡ some w) (on : w.registered ≡ true)
    (idle : s.owner i ≡ none) where
  granted_from :
      (x : MpscRingBuffer) (p b : ℕ)
      → granting b x ≡ granting a t
      → Grant s.ring x s.granted p b n
      → x.workers ≡ set s.ring.workers i (record w { seen = p })
      → Granted s i n a w t
  granted_from x p b e g k =
      let first : b ≡ a = ground arith in
      let second : x ≡ t = ground arith in
      record {
        seen = p;
        grants =
            subst (λ y. Grant s.ring y s.granted p a n) second
              (subst (λ y. Grant s.ring x s.granted p y n) first g);
        workers = subst (λ y. y.workers ≡ set s.ring.workers i (record w { seen = p })) second k;
      }

  cases :
      Acquired s.ring i w n (acquire s.ring i n)
      → acquire s.ring i n ≡ done (some a, t)
      → Granted s i n a w t
  cases (too_large h e) q = absurd (ground arith)
  cases (refused e) q = absurd (ground arith)
  cases (plain c e) q =
      granted_from _ s.ring.producer_barrier _ (sym e ∙ q)
        (Grant-plain s.ring i w n s.granted v.bounds c) refl
  cases (exact c d h e) q =
      granted_from _ s.ring.producer_barrier _ (sym e ∙ q)
        (Grant-exact s.ring i w n s.granted v.bounds c d h) refl
  cases (turns c d h e) q =
      granted_from _ s.ring.producer_barrier _ (sym e ∙ q)
        (Grant-turns s.ring i w n s.granted v.bounds c d) refl

  pub acquire-Granted : acquire s.ring i n ≡ done (some a, t) → Granted s i n a w t
  acquire-Granted =
      cases (acquire-Acquired s.ring i w n s.granted v.bounds at (v.seats.idle i w at idle on))

  pub grant-Inv :
      Granted s i n a w t → Inv (record s { ring = t; owner = update s.owner i (some (a, n)) })
  grant-Inv g = record {
    bounds = g.grants.bounds;
    seats =
        Seats-some s.ring t s.granted s.granted i s.owner w (record w { seen = g.seen }) v.seats at
          g.workers g.grants.keep a n idle on g.grants.own g.grants.apart;
  }

  refuse_cases :
      Acquired s.ring i w n (acquire s.ring i n) → acquire s.ring i n ≡ done (none, t) → s.ring ≡ t
  refuse_cases (too_large h e) q = ground arith
  refuse_cases (refused e) q = ground arith
  refuse_cases (plain c e) q = absurd (ground arith)
  refuse_cases (exact c d h e) q = absurd (ground arith)
  refuse_cases (turns c d h e) q = absurd (ground arith)

  -- A call of `acquire` that returns false changes nothing.
  pub acquire-refused : acquire s.ring i n ≡ done (none, t) → s.ring ≡ t
  acquire-refused =
      refuse_cases
        (acquire-Acquired s.ring i w n s.granted v.bounds at (v.seats.idle i w at idle on))
