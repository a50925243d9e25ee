-- ===== src/Core/RingBuffer.antt =====
-- ustevent/core/detail/MpscRingBuffer.h and .cpp: the ring buffer that remote threads post tasks
-- to. Offsets are 64-bit numbers: bit 63 is the lock, bits 32 to 62 are the wrap counter and the
-- rest is an index into the buffer. An address handed out is that index.
pub mod Invariant
pub mod Acquire
pub mod Grant
pub mod Observe
pub mod Consume
pub mod Rounds
pub mod System
pub mod Granted
pub mod Steps
pub mod Safety
pub mod Writers
pub mod Held
mod WriterTests
mod Tests
use ustevent.Prelude.{
  ℕ, zero, suc, ◌+◌, ◌-◌, ◌*◌, ◌/◌, ◌%◌, ◌^◌, min, Bool, true, false, not, ◌&&◌, Option, none, some,
  List, [], ◌∷◌, Outcome, done, spin, fault, ◌>>=◌, ◌>>◌, assert, ltb, leb, ◌==◌, if◌then◌else◌,
  get_elem?, set,
}

pub record Worker : Type 0 where
  pub seen : ℕ
  pub registered : Bool

pub record MpscRingBuffer : Type 0 where
  pub capacity : ℕ
  pub producer_barrier : ℕ
  pub end_offset : ℕ
  pub consumer_barrier : ℕ
  pub workers : List Worker

-- `numeric_limits<RingBufferOffset>::max() & ~WRAP_LOCK_BIT`
abbrev pub max_offset : ℕ
max_offset = 2 ^ 63 - 1

abbrev pub unlock_wrap_bit : ℕ → ℕ
unlock_wrap_bit offset = offset % 2 ^ 63

abbrev pub lock_wrap_bit : ℕ → ℕ
lock_wrap_bit offset = offset % 2 ^ 63 + 2 ^ 63

abbrev pub is_locked : ℕ → Bool
is_locked offset = not (offset / 2 ^ 63 % 2 == 0)

abbrev pub get_wrap_counter : ℕ → ℕ
get_wrap_counter offset = offset % 2 ^ 63 / 2 ^ 32 * 2 ^ 32

-- The parameter is passed by value, so the result is what the caller's variable holds afterwards.
abbrev pub set_wrap_counter : ℕ → ℕ → ℕ
set_wrap_counter offset wrap_counter = offset

abbrev pub increase_wrap_counter : ℕ → ℕ
increase_wrap_counter wrap_counter = get_wrap_counter ((wrap_counter + 2 ^ 32) % 2 ^ 64)

abbrev pub get_buffer_index : ℕ → ℕ
get_buffer_index offset = offset % 2 ^ 32

abbrev pub fresh_workers : ℕ → List Worker
fresh_workers zero = []
fresh_workers (suc n) = record { seen = 0; registered = false } ∷ fresh_workers n

-- The constructor.
pub create : ℕ → ℕ → MpscRingBuffer
create capacity producer_num = record {
  capacity = capacity;
  producer_barrier = 0;
  end_offset = max_offset;
  consumer_barrier = 0;
  workers = fresh_workers producer_num;
}

abbrev pub current : MpscRingBuffer → ℕ
current r = r.consumer_barrier

-- `_workers[i]`; out of range is undefined behaviour.
abbrev pub worker_at : MpscRingBuffer → ℕ → Outcome Worker
worker_at r i = elim (get_elem? r.workers i) [ none ↦ fault | some w ↦ done w ]

abbrev pub store_worker : MpscRingBuffer → ℕ → Worker → MpscRingBuffer
store_worker r i w = record r { workers = set r.workers i w }

unfoldable pub register_worker : MpscRingBuffer → ℕ → Outcome MpscRingBuffer
register_worker r i = do
  _ ← worker_at r i
  done (store_worker r i (record { seen = max_offset; registered = true }))

unfoldable pub unregister_worker : MpscRingBuffer → ℕ → Outcome MpscRingBuffer
unregister_worker r i = do
  w ← worker_at r i
  done (store_worker r i (record w { registered = false }))

-- The loop reads the same value again until another thread clears the lock bit.
abbrev pub get_stable_seen : Worker → Outcome ℕ
get_stable_seen w = if is_locked w.seen then spin else done w.seen

abbrev pub get_stable_next : MpscRingBuffer → Outcome ℕ
get_stable_next r =
    if is_locked r.producer_barrier
    then spin
    else (assert (ltb (get_buffer_index r.producer_barrier) r.capacity) >> done r.producer_barrier)

-- What follows the compare-and-exchange loop of `acquire`: the address, and the new state.
pub claim : MpscRingBuffer → ℕ → Worker → ℕ → ℕ → Outcome (Option ℕ × MpscRingBuffer)
claim r i w next target =
    let stable = store_worker r i (record w { seen = unlock_wrap_bit (lock_wrap_bit next) }) in
    if is_locked target
    then (do
      assert (leb (current stable) next)
      assert (stable.end_offset == max_offset)
      assert (leb (get_buffer_index target) stable.capacity)
      done (some 0, record stable { end_offset = next; producer_barrier = unlock_wrap_bit target }))
    else do assert (leb (get_buffer_index target) stable.capacity); done (some next, stable)

-- `_producer_barrier.compare_exchange_weak(seen, target)`; when it fails the loop goes round again.
pub exchange : MpscRingBuffer → ℕ → Worker → ℕ → ℕ → ℕ → Outcome (Option ℕ × MpscRingBuffer)
unfolding claim
exchange r i w seen next target =
    if r.producer_barrier == seen
    then claim (record r { producer_barrier = target }) i w next target
    else spin

-- `worker._seen.store(offset)`.
abbrev pub store_seen : MpscRingBuffer → ℕ → Worker → ℕ → MpscRingBuffer
store_seen r i w offset = store_worker r i (record w { seen = offset })

-- The target is beyond the end: it is at the beginning of the buffer now. `none` is `false`.
pub place_wrapped : MpscRingBuffer → ℕ → Worker → ℕ → ℕ → ℕ → Outcome (Option ℕ × MpscRingBuffer)
unfolding exchange
place_wrapped r i w seen next target =
    if leb (current r) (get_buffer_index target)
    then done (none, store_seen r i w max_offset)
    else exchange (store_seen r i w (lock_wrap_bit next)) i w seen next
        (set_wrap_counter target (increase_wrap_counter (get_wrap_counter seen)))

-- The tests of a round on the offset `next` and the target.
pub place : MpscRingBuffer → ℕ → Worker → ℕ → ℕ → ℕ → ℕ → Outcome (Option ℕ × MpscRingBuffer)
unfolding place_wrapped exchange
place r i w size seen next target =
    if ltb next (current r) && leb (current r) target
    then done (none, store_seen r i w max_offset)
    else if leb r.capacity target
    then place_wrapped r i w seen next (if ltb r.capacity target then lock_wrap_bit size else 0)
    else exchange (store_seen r i w (lock_wrap_bit next)) i w seen next
        (set_wrap_counter target (get_wrap_counter seen))

-- One round of the loop of `acquire`, from the stable `seen` on.
pub attempt : MpscRingBuffer → ℕ → Worker → ℕ → ℕ → Outcome (Option ℕ × MpscRingBuffer)
unfolding place
attempt r i w size seen =
    place r i w size seen (get_buffer_index seen) ((get_buffer_index seen + size) % 2 ^ 64)

unfoldable pub acquire : MpscRingBuffer → ℕ → ℕ → Outcome (Option ℕ × MpscRingBuffer)
unfolding attempt
acquire r i size = if ltb r.capacity size then done (none, r) else do
  w ← worker_at r i
  assert (w.seen == max_offset)
  seen ← get_stable_next r
  assert (ltb (get_buffer_index seen) r.capacity)
  attempt r i w size seen

unfoldable pub produce : MpscRingBuffer → ℕ → Outcome MpscRingBuffer
produce r i = do
  w ← worker_at r i
  assert w.registered
  assert (not (w.seen == max_offset))
  done (store_worker r i (record w { seen = max_offset }))

-- One round of the loop over the workers in `consume`.
pub observe_one : ℕ → Worker → ℕ → Outcome ℕ
observe_one written w ready = if not w.registered then done ready else do
  seen ← get_stable_seen w
  let ready' = if leb written seen then min seen ready else ready
  assert (leb written ready')
  done ready'

pub observe : ℕ → List Worker → ℕ → Outcome ℕ
unfolding observe_one
observe written [] ready = done ready
observe written (w ∷ ws) ready = observe_one written w ready >>= observe written ws

-- The size, the address if it is set, and the state.
abbrev pub Consumed : Type 0
Consumed = ℕ × Option ℕ × MpscRingBuffer

pub deliver : MpscRingBuffer → ℕ → ℕ → Outcome Consumed
deliver r written ready = do
  assert (leb written ready)
  assert (leb (ready - written) r.capacity)
  done (ready - written, some written, r)

-- The consumer starts again from zero.
abbrev pub wrap_around : MpscRingBuffer → MpscRingBuffer
wrap_around r = record r { end_offset = max_offset; consumer_barrier = 0 }

-- The case of `consume` in which the producers have wrapped around and the consumer has not.
-- `again` is the next round of the loop.
pub cut_off : MpscRingBuffer → Outcome Consumed → ℕ → ℕ → Outcome Consumed
unfolding deliver
cut_off r again ready next =
    let written = current r in
    let last = min r.capacity r.end_offset in
    if ready == max_offset && written == last then again else do
      assert (ltb next ready)
      assert (leb written (min ready last))
      deliver r written (min ready last)

-- What one round of the loop does once it has a stable `next`.
pub consume_round : MpscRingBuffer → Outcome Consumed → ℕ → Outcome Consumed
unfolding observe deliver cut_off
consume_round r again next =
    let written = current r in
    if written == next then done (0, none, r) else do
      ready ← observe written r.workers max_offset
      if ltb next written then cut_off r again ready next else deliver r written (min ready next)

pub consume_loop : ℕ → MpscRingBuffer → Outcome Consumed
unfolding consume_round
consume_loop zero r = spin
consume_loop (suc fuel) r =
    let again = consume_loop fuel (wrap_around r) in
    get_stable_next r >>= λ seen. consume_round r again (get_buffer_index seen)

-- The consumer goes round at most once.
unfoldable pub consume : MpscRingBuffer → Outcome Consumed
unfolding consume_loop
consume r = consume_loop 2 r

pub release : MpscRingBuffer → ℕ → Outcome MpscRingBuffer
release r bytes =
    let written = current r in
    let released = (written + bytes) % 2 ^ 64 in
    do
      assert (leb written r.capacity)
      assert (leb written r.end_offset)
      assert (leb released r.capacity)
      done (record r { consumer_barrier = if released == r.capacity then 0 else released })
