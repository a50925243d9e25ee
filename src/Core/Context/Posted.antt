-- ===== src/Core/Context/Posted.antt =====
-- A task that is posted to a Context from outside is the one that a strategy launches.
use ustevent.Prelude.{
  ℕ, zero, suc, ◌+◌, ◌%◌, ◌^◌, ◌<◌, ◌≡◌, ◌∙◌, refl, ap, arith, true, false, none, some, List, [],
  ◌∷◌, ◌++◌, length, get_or, All, done, ltb, ◌==◌, if◌then◌else◌, lt→ltb,
}
use ustevent.Core.Fiber
use ustevent.Core.Fiber.{make_worker_context, set_properties, attach, schedule, stack_of}
use ustevent.Core.FiberDebugInfo
use ustevent.Core.CallStack.Defs.{contain}
use ustevent.Core.RingBuffer.{MpscRingBuffer, acquire, produce, consume}
use ustevent.Core.ContextTaskQueue.{
  Memory, write_task, read_task, acquired_size, description_offset, push, pop, pop_at,
}
use ustevent.Core.ContextTaskQueue.Layout.{read_task-write_task, write_task-end, write_task-text}
use ustevent.Core.Context.{
  Context, Caller, Work, c_string, launch_task, launch_posted_task, dispatch, post, call,
  is_running_in_this, post_task_from_remote, notify_strategy, waits_for_result,
}

-- The memory holds the text from an address on, and a zero behind it.
Holds : Memory → ℕ → List ℕ → Type 0
Holds m a text =
    ((d : ℕ) → d < length text → m (a + d) ≡ get_or text d 0) × (m (a + length text) ≡ 0)

Holds-tail : (m : Memory) (a b : ℕ) (text : List ℕ) → Holds m a (b ∷ text) → Holds m (a + 1) text
unfolding Holds
Holds-tail m a b text (bytes, end) =
    (λ d h. ap m (omega arith) ∙ bytes (suc d) (omega arith), ap m (omega arith) ∙ end)

c_string-Holds :
    (fuel : ℕ) (m : Memory) (a : ℕ) (text : List ℕ)
    → Holds m a text
    → All (λ b. 0 < b) text
    → length text < fuel
    → c_string fuel m a ≡ done text
unfolding c_string Holds
c_string-Holds zero m a text h pos_bytes enough = absurd (omega arith)
c_string-Holds (suc fuel) m a [] h pos_bytes enough =
    let end : m a ≡ 0 = ap m (omega arith) ∙ h.1 in
    let is_end : (m a == 0) ≡ true = ground arith in rw is_end refl
c_string-Holds (suc fuel) m a (b ∷ text) h pos_bytes enough =
    let first : m a ≡ b = ap m (omega arith) ∙ h.0 0 (omega arith) in
    let more : (m a == 0) ≡ false = ground arith in
    rw more (
      rw (c_string-Holds fuel m (a + 1) text (Holds-tail m a b text h) pos_bytes.1 (omega arith))
        (ap (λ x. done (x ∷ text)) first))

-- What a strategy asks of Boost for a task at an address.
abbrev pub launched : ℕ → ℕ → List ℕ → ℕ → List Fiber.Effect
launched stack_size task text c =
    make_worker_context c Fiber.post (stack_of stack_size) task
    ∷ set_properties c (record FiberDebugInfo.create { description = text })
    ∷ attach c
    ∷ schedule c
    ∷ []

start-launched :
    (stack_size task : ℕ) (text : List ℕ) (c : ℕ)
    → (Fiber.start
        (Fiber.set_description_view text (Fiber.set_stack_size stack_size Fiber.create))
        task
        c).1
      ≡ launched stack_size task text c
unfolding Fiber.start Fiber.set_description_view Fiber.set_stack_size Fiber.create
    FiberDebugInfo.set_description
start-launched stack_size task [] c = refl
start-launched stack_size task (b ∷ text) c = refl

-- The context when the task at `base` has been taken with all that the ring, which is then `t`, held from there on, `n`
-- bytes.
abbrev pub taken : Context → MpscRingBuffer → ℕ → ℕ → List ℕ → List ℕ → Context
taken x t base n operation text = record x {
  context_task_queue = record (x.context_task_queue) {
    ring = t;
    poped = base + acquired_size operation text;
    consumed = base + n;
  };
}

module _ (fuel : ℕ) (m : Memory) (base stack_size c : ℕ) (operation text : List ℕ)
    (some_byte : 0 < length operation) (ho : length operation < 2 ^ 30) (hd : length text < 2 ^ 30)
    (no_zero : All (λ b. 0 < b) text) (enough : length text < fuel) where
  abbrev memory : Memory
  memory = write_task m base operation stack_size text

  launch_task-write_task :
      launch_task fuel memory (read_task memory base) c
      ≡ done (launched (stack_size % 2 ^ 32) (base + 8) text c)
  unfolding launch_task Holds
  launch_task-write_task =
      let (read, _, _) = read_task-write_task m base stack_size operation text ho hd in
      let place = base + description_offset (length operation) in
      let held : Holds memory place text = (
        write_task-text m base stack_size operation text ho hd,
        write_task-end m base stack_size operation text ho hd,
      ) in
      rw read (
        rw (lt→ltb 0 (length operation) some_byte) (
          rw (c_string-Holds fuel memory place text held no_zero enough)
            (ap done (start-launched (stack_size % 2 ^ 32) (base + 8) text c))))

  launch_posted_task-write_task :
      (x : Context) (t : MpscRingBuffer) (n : ℕ)
      → x.context_task_queue.memory ≡ memory
      → ltb x.context_task_queue.poped x.context_task_queue.consumed ≡ false
      → consume x.context_task_queue.ring ≡ done (suc n, some base, t)
      → launch_posted_task fuel x c
        ≡ done (
          1,
          taken x t base (suc n) operation text,
          launched (stack_size % 2 ^ 32) (base + 8) text c,
        )
  unfolding launch_posted_task pop pop_at
  launch_posted_task-write_task x t n same all_taken some_left =
      let (_, size, _) = read_task-write_task m base stack_size operation text ho hd in
      let some_size : (suc n == 0) ≡ false = ground arith in
      rw all_taken
        (rw some_left (rw some_size (rw same (rw launch_task-write_task (rw size refl)))))

-- The description that goes with a task: none without the debug flag.
abbrev pub sent : Context → List ℕ → List ℕ
sent x description = if x.debug_on then description else []

-- The context after the writer has written the task at `base`, with the ring `r` that it left.
abbrev pub posted : Context → MpscRingBuffer → ℕ → Work → ℕ → List ℕ → Context
posted x r base task stack_size text = record x {
  context_task_queue = record (x.context_task_queue) {
    ring = r;
    memory = write_task x.context_task_queue.memory base task.operation stack_size text;
  };
}

module _ (fuel : ℕ) (x : Context) (who : Caller) (task : Work) (stack_size : ℕ)
    (description : List ℕ) (base c n : ℕ) (granted r t : MpscRingBuffer)
    (outside : contain who.depth who.stack x.key ≡ done none)
    (room : acquire x.context_task_queue.ring who.writer
        (acquired_size task.operation (sent x description))
      ≡ done (some base, granted))
    (produced : produce granted who.writer ≡ done r) where
  abbrev text : List ℕ
  text = sent x description

  post_task_from_remote-posted :
      post_task_from_remote x who task stack_size description
      ≡ done (posted x r base task stack_size text, notify_strategy x 0)
  unfolding post_task_from_remote push
  post_task_from_remote-posted = rw room (rw produced refl)

  -- A task that a thread outside the context gives to dispatch or call, when the queue has room for
  -- it, is written to the queue, the first strategy is notified, and call waits for its result; post
  -- does the same where its undeclared test says yes, and drops the task where it says no. When the
  -- strategy has taken what it consumed before, and the ring hands it the bytes from the task on, it
  -- takes the task and launches one fiber, which is scheduled and not resumed at once: it calls the
  -- operation where it was written, has the stack size that was asked for, modulo 2^32, or the default
  -- stack at 0, and the description if the debug flag is set. The operation has at least one byte, it
  -- and the description fewer than 2^30, and the description has no zero byte.
  pub dispatch-launched :
      0 < length task.operation
      → length task.operation < 2 ^ 30
      → length text < 2 ^ 30
      → All (λ b. 0 < b) text
      → length text < fuel
      → ltb x.context_task_queue.poped x.context_task_queue.consumed ≡ false
      → consume r ≡ done (suc n, some base, t)
      → (dispatch x who task stack_size description
          ≡ done (posted x r base task stack_size text, notify_strategy x 0))
        × (post true x who task stack_size description
            ≡ done (posted x r base task stack_size text, notify_strategy x 0))
        × (post false x who task stack_size description ≡ done (x, []))
        × (call x who task stack_size description
            ≡ done (
              posted x r base task stack_size text,
              notify_strategy x 0 ++ waits_for_result task.id ∷ [],
            ))
        × (launch_posted_task fuel (posted x r base task stack_size text) c
            ≡ done (
              1,
              taken (posted x r base task stack_size text) t base (suc n) task.operation text,
              launched (stack_size % 2 ^ 32) (base + 8) text c,
            ))
  unfolding dispatch post call is_running_in_this
  dispatch-launched some_byte ho hd no_zero enough all_taken some_left = (
    rw outside post_task_from_remote-posted,
    rw outside post_task_from_remote-posted,
    refl,
    rw outside (rw post_task_from_remote-posted refl),
    launch_posted_task-write_task fuel x.context_task_queue.memory base stack_size c task.operation
        text some_byte ho hd no_zero enough (posted x r base task stack_size text) t n refl
        all_taken some_left,
  )
