-- ===== src/Core/RingBuffer/Tests.antt =====
-- Runs of MpscRingBuffer at concrete states, and the theorems of Safety at one of them.
use ustevent.Prelude.{
  ℕ, ◌+◌, ◌≤◌, ◌<◌, ◌≡◌, refl, ◌⊎◌, true, none, some, Option, [], ◌∷◌, arith, done, ◌>>=◌, update,
}
use ustevent.Core.RingBuffer.{
  MpscRingBuffer, max_offset, create, register_worker, acquire, produce, consume, release,
}
use ustevent.Core.RingBuffer.Invariant.{Apart}
use ustevent.Core.RingBuffer.Grant.{Unread}
use ustevent.Core.RingBuffer.System.{System, here, next, register, grant}
use ustevent.Core.RingBuffer.Safety.{
  Reachable, Reads, owners-Apart, acquire_total, consume_total, produce_total, release_total,
}

-- Two workers of a buffer of 16 bytes hold 6 and 4 bytes.
abbrev two_ranges : System
two_ranges = record {
  ring = record {
    capacity = 16;
    producer_barrier = 10;
    end_offset = max_offset;
    consumer_barrier = 0;
    workers = record { seen = 0; registered = true } ∷ record { seen = 6; registered = true } ∷ [];
  };
  granted = 0;
  owner =
      update (update (update (update (λ _. none) 0 none) 1 none) 0 (some (0, 6))) 1 (some (6, 4));
}

two_ranges-Reachable : Reachable two_ranges
unfolding create register_worker acquire
two_ranges-Reachable = (
  16,
  2,
  omega arith,
  omega arith,
  next
      (next (next (next here (register 0 _ refl refl)) (register 1 _ refl refl))
        (grant 0 6 0 _ _ refl refl refl refl))
      (grant 1 4 6 _ _ refl refl refl refl),
)

-- Nothing is ready while the first range is unfinished; then the first range alone is.
read_first :
    (produce two_ranges.ring 0 >>= consume)
    ≡ done (
      6,
      some 0,
      record two_ranges.ring {
        workers =
            record { seen = max_offset; registered = true }
            ∷ record { seen = 6; registered = true }
            ∷ [];
      },
    )
unfolding produce consume
read_first = refl

-- The consumer goes round to the bytes at the beginning.
read_after_wrap :
    consume (record two_ranges.ring {
      producer_barrier = 4;
      end_offset = 12;
      consumer_barrier = 12;
      workers = record { seen = max_offset; registered = true } ∷ [];
    })
    ≡ done (
      4,
      some 0,
      record two_ranges.ring {
        producer_barrier = 4;
        workers = record { seen = max_offset; registered = true } ∷ [];
      },
    )
unfolding consume
read_after_wrap = refl

owners-Apart_example : (0 + 6 ≤ 16) × Apart 0 6 6 4
owners-Apart_example = owners-Apart 0 1 0 6 6 4 two_ranges-Reachable (omega arith) refl refl

consume_total_example :
    (n : ℕ) × (x : Option ℕ) × (t : MpscRingBuffer) × (consume two_ranges.ring ≡ done (n, x, t))
    × Reads two_ranges n x t
consume_total_example = consume_total two_ranges-Reachable

-- Both workers are registered and hold nothing.
abbrev both_free : System
both_free = record {
  ring = record {
    capacity = 16;
    producer_barrier = 0;
    end_offset = max_offset;
    consumer_barrier = 0;
    workers =
        record { seen = max_offset; registered = true }
        ∷ record { seen = max_offset; registered = true }
        ∷ [];
  };
  granted = 0;
  owner = update (update (λ _. none) 0 none) 1 none;
}

both_free-Reachable : Reachable both_free
unfolding create register_worker
both_free-Reachable = (
  16,
  2,
  omega arith,
  omega arith,
  next (next here (register 0 _ refl refl)) (register 1 _ refl refl),
)

acquire_total_example :
    (acquire both_free.ring 1 9 ≡ done (none, both_free.ring))
    ⊎ ((a : ℕ) × (t : MpscRingBuffer) × (acquire both_free.ring 1 9 ≡ done (some a, t))
        × (a + 9 ≤ 16)
        × ((y : ℕ) → Unread both_free.ring y → (y < a) ⊎ (a + 9 ≤ y)))
acquire_total_example =
    acquire_total 1 9 (record { seen = max_offset; registered = true }) both_free-Reachable refl
      refl refl

produce_total_example : (t : MpscRingBuffer) × (produce two_ranges.ring 1 ≡ done t)
produce_total_example = produce_total 1 6 4 two_ranges-Reachable refl

release_total_example : (t : MpscRingBuffer) × (release two_ranges.ring 0 ≡ done t)
release_total_example = release_total 0 two_ranges-Reachable (omega arith)
