-- ===== src/Core/Context.antt =====
-- ustevent/core/Context.h, .hpp and .cpp, with the tasks that ContextStrategy launches. A context is
-- a key of the call stacks. A task is a number that names it and, for the queue, the bytes of its
-- ContextOperation. What Boost and the threads are asked for is a list of effects.
pub mod Posted
use ustevent.Prelude.{
  ℕ, zero, suc, ◌+◌, Bool, true, false, Option, none, some, List, [], ◌∷◌, map, Outcome, done, spin,
  fault, ◌>>=◌, ltb, ◌==◌, if◌then◌else◌, length, replicate, get_elem?, ◌*◌, ◌++◌,
}
use ustevent.Core.Fiber
use ustevent.Core.Fiber.{Fiber, Policy}
use ustevent.Core.CallStack.Defs.{CallStack, contain}
use ustevent.Core.ContextTaskQueue
use ustevent.Core.ContextTaskQueue.{ContextTaskQueue, Memory, Task}

abbrev pub default_buffer_length : ℕ
default_buffer_length = 16 * 1024

pub record Context : Type 0 where
  pub key : ℕ
  pub is_done : Bool
  pub stack_size_in_context : ℕ
  -- The entries of the table of strategies that are not null.
  pub strategies : List Bool
  pub debug_on : Bool
  pub context_task_queue : ContextTaskQueue

-- The buffer length that the constructor gives the queue.
abbrev pub buffer_length_of : ℕ → ℕ
buffer_length_of n = if n == 0 then default_buffer_length else n

-- The constructor; `queue` makes the queue of a buffer length.
unfoldable pub create : ℕ → ℕ → Bool → ℕ → (ℕ → ContextTaskQueue) → Context
create key thread_num debug_on buffer_length queue = record {
  key = key;
  is_done = false;
  stack_size_in_context = 1024 * 1024;
  strategies = replicate thread_num false;
  debug_on = debug_on;
  context_task_queue = queue (buffer_length_of buffer_length);
}

pub data Effect : Type 0 where
  fiber : Fiber.Effect → Effect
  notifies : ℕ → Effect
  runs : ℕ → Effect
  waits_for_result : ℕ → Effect
  notifies_done : Effect

pub record Work : Type 0 where
  pub id : ℕ
  pub operation : List ℕ

-- The calling thread: its call stack, the fuel to search it, its writer of the queue, and the fiber
-- context that Boost makes next.
pub record Caller : Type 0 where
  pub stack : CallStack
  pub depth : ℕ
  pub writer : ℕ
  pub next_context : ℕ

abbrev pub is_some : Option ℕ → Bool
is_some none = false
is_some (some v) = true

unfoldable pub is_running_in_this : Context → Caller → Outcome Bool
is_running_in_this x who = contain who.depth who.stack x.key >>= λ v. done (is_some v)

pub set_stack_size : ℕ → Context → Context
set_stack_size n x = record x { stack_size_in_context = n }

pub terminate : Context → Context × List Effect
terminate x = (record x { is_done = true }, notifies_done ∷ [])

-- `_notify`.
unfoldable pub notify_strategy : Context → ℕ → List Effect
notify_strategy x index = elim (get_elem? x.strategies index) [
  | some true ↦ notifies index ∷ []
  | _ ↦ []
]

-- `_postTaskFromRemote`. A round of push that finds no room waits for the consumer.
unfoldable pub post_task_from_remote :
    Context → Caller → Work → ℕ → List ℕ → Outcome (Context × List Effect)
unfolding notify_strategy ContextTaskQueue.push
post_task_from_remote x who task stack_size description = do
  (pushed, q) ←
      ContextTaskQueue.push x.context_task_queue who.writer task.operation stack_size
        (if x.debug_on then description else [])
  if pushed then done (record x { context_task_queue = q }, notify_strategy x 0) else spin

-- The fiber that is started in the context.
unfoldable pub start_in_context :
    Policy → Context → Caller → Work → ℕ → List ℕ → Fiber × List Fiber.Effect
unfolding Fiber.create Fiber.set_policy Fiber.set_stack_size Fiber.set_description_view Fiber.start
start_in_context policy x who task stack_size description =
    let sized = if stack_size == 0 then x.stack_size_in_context else stack_size in
    let f = Fiber.set_stack_size sized (Fiber.set_policy policy Fiber.create) in
    Fiber.start (if x.debug_on then Fiber.set_description_view description f else f) task.id
      who.next_context

unfoldable pub dispatch : Context → Caller → Work → ℕ → List ℕ → Outcome (Context × List Effect)
unfolding start_in_context post_task_from_remote is_running_in_this
dispatch x who task stack_size description = is_running_in_this x who >>= λ running.
    if running
    then done (x, map fiber (start_in_context Policy.dispatch x who task stack_size description).1)
    else post_task_from_remote x who task stack_size description

-- `outer` is the answer of `_isRunningInThis`, which no file declares; `else` belongs to the inner
-- test.
unfoldable pub post : Bool → Context → Caller → Work → ℕ → List ℕ → Outcome (Context × List Effect)
unfolding start_in_context post_task_from_remote is_running_in_this
post outer x who task stack_size description =
    if outer
    then (is_running_in_this x who >>= λ running.
        if running
        then done (x, map fiber (start_in_context Policy.post x who task stack_size description).1)
        else post_task_from_remote x who task stack_size description)
    else done (x, [])

-- `call`: outside the context a packaged task is posted, whose future is waited for.
unfoldable pub call : Context → Caller → Work → ℕ → List ℕ → Outcome (Context × List Effect)
unfolding post_task_from_remote is_running_in_this
call x who task stack_size description = is_running_in_this x who >>= λ running.
    if running
    then done (x, runs task.id ∷ [])
    else (post_task_from_remote x who task stack_size description >>= λ (y, effects).
        done (y, effects ++ waits_for_result task.id ∷ []))

-- `ContextOperation::doPerform` of the operation at an address: its bytes are released before its
-- handler is called.
unfoldable pub do_perform : ContextTaskQueue → ℕ → ℕ → Outcome (ContextTaskQueue × List Effect)
unfolding ContextTaskQueue.deallocate
do_perform q address handler =
    ContextTaskQueue.deallocate q address >>= λ q'. done (q', runs handler ∷ [])

-- The `string_view` of the characters at an address, up to the first zero, on fuel.
unfoldable pub c_string : ℕ → Memory → ℕ → Outcome (List ℕ)
c_string zero m a = spin
c_string (suc fuel) m a =
    let rest = c_string fuel m (a + 1) in
    if m a == 0 then done [] else (rest >>= λ text. done (m a ∷ text))

abbrev pub view_at : ℕ → Memory → Option ℕ → Outcome (List ℕ)
view_at fuel m none = done []
view_at fuel m (some a) = c_string fuel m a

-- The fiber of a task that was taken out of the queue. It calls the operation at its address.
unfoldable pub launch_task : ℕ → Memory → Task → ℕ → Outcome (List Fiber.Effect)
unfolding Fiber.create Fiber.set_stack_size Fiber.set_description_view Fiber.start
launch_task fuel m task c = do
  text ← view_at fuel m task.description
  done
      (Fiber.start
        (Fiber.set_description_view text (Fiber.set_stack_size task.stack_size Fiber.create))
        task.operation c).1

-- `_launchPostedTask` of a strategy: the number of tasks that it launched. `c` is the fiber context
-- that Boost makes, and the fuel bounds the length of the description.
unfoldable pub launch_posted_task : ℕ → Context → ℕ → Outcome (ℕ × Context × List Fiber.Effect)
unfolding launch_task
launch_posted_task fuel x c = do
  (task, q) ← ContextTaskQueue.pop x.context_task_queue
  elim task [
    | none ↦ done (0, record x { context_task_queue = q }, [])
    | some t ↦ launch_task fuel q.memory t c >>= λ effects.
        done (1, record x { context_task_queue = q }, effects)
  ]

-- `suspend_until` of a strategy: whether it goes on to `onSuspended`.
unfoldable pub suspend_until : ℕ → Context → ℕ → Outcome (Bool × Context × List Fiber.Effect)
unfolding launch_posted_task
suspend_until fuel x c = do
  (launched, y, effects) ← launch_posted_task fuel x c
  done (launched == 0, y, effects)
