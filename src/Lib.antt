-- ===== src/Lib.antt =====
-- ustevent: posting work to event loops and waiting for sockets.
--
-- The program has two parts. ustevent/core runs fibers: threads post tasks through a ring buffer
-- with many producers and one consumer (ustevent/core/detail/MpscRingBuffer), in which
-- ContextTaskQueue lays out each task, and fibers wait on semaphores. ustevent/net waits for
-- sockets: a TcpSocket wraps the system calls, an EventOperation tries a non-blocking call and waits
-- for the device's event until it is finished, and the synchronous streams read and write in terms
-- of it. A TcpDialer and a TcpListener make TcpConnections, each a pair of streams over a socket that is
-- registered with the EpollSelector. Addresses are arrays of bytes.
--
-- Files and the sources that they model (paths from ustevent/ of the repository's src):
--   Prelude: shared helpers. Tests has the Boolean tests on the native numbers, Lists the lists
--     indexed by them, Int the C integers, Calls how a call ends: `done` with a result, `spin` where it
--     waits for another thread, `fault` at a failed assertion or undefined behaviour.
--   Core/RingBuffer: core/detail/MpscRingBuffer.h and .cpp. `acquire`, `produce`, `consume`,
--     `release`, `register_worker` are the methods of the same names; `place` and `claim` are the two
--     halves of `acquire`. System has the threads that use a buffer as a step relation, Writers the
--     handles on workers and how a ContextTaskQueue makes them for threads.
--   Core/ContextTaskQueue: core/detail/ContextTaskQueue.h, .hpp and .cpp; `write_task` has the
--     writes of `push`, `read_task` the reads of `pop`.
--   Core/BasicSemaphore: core/detail/BasicSemaphore.h and .hpp; `add_permit` and `give_permit` are the
--     halves of `notify`, `exchange` and `clear_count` those of `reset`; `enter` is the subtraction of
--     `wait`, `wake` and `time_out` are the two ends of the wait on the condition variable. Threads has
--     the threads that notify and wait as a step relation.
--   Core/AppendOnlyArray: core/detail/AppendOnlyArray.h and .hpp; `element` is the read of a bucket.
--   Core/BasicBarrier: core/detail/BasicBarrier.h and .hpp; `arrive` and `goes_on` are the halves of `wait`.
--   Core/ListNodeAllocator: core/concurrency/detail/ListNodeAllocator.h and .hpp, with
--     core/concurrency/ObjectPool.hpp, which forwards to it; a node is its address.
--   Core/ListQueue: core/concurrency/detail/ListQueue.h and .hpp. `take_next` is what the three kinds of
--     dequeue share; Fifo has the list that the queue is compared with.
--   Core/ThreadLocalStorage: core/concurrency/detail/ObjectScopedThreadLocalStorage.h and .hpp; `construct`
--     and `destruct` are the constructor and the destructor, `exit_thread` that of ObjectStorage.
--   Core/FiberDebugInfo: core/FiberDebugInfo.h and .cpp; `walk` is the loop over the frames.
--   Core/Fiber: core/Fiber.h, .hpp and .cpp; what is asked of Boost is a list of effects.
--   Core/CallStack: core/thread/detail/CallStack.h and core/fiber/detail/CallStack.h, whose tops differ.
--   Core/ContextStrategy: core/ContextStrategy.h and .cpp. The strategies of a context and the debug
--     infos of the fibers are one store. `pick` is `pick_next` up to the backtrace, `unlink` the writes
--     of `_eraseBacktrace`; Waiting has the lists of waiting fibers, Ready the ready queues.
--   Core/SpinMutex: core/detail/SpinMutex.h and .cpp; a thread and its node are one number, and each
--     access to shared memory is one step. `lock` is the exchange, `advance` what follows it and `unlock`.
--   Core/BlockingContextStrategy: core/BlockingContextStrategy.h and .cpp; `set_notified` and `notify_all`
--     are the halves of `onNotified`.
--   Core/Context: core/Context.h, .hpp and .cpp with `_launchPostedTask` and `suspend_until` of
--     core/ContextStrategy.cpp, and core/detail/ContextOperation.h.
--   Core/ContextRun: `run` of core/Context.hpp by all threads of a context, with its barrier; Table and Steals
--     have what the calls of the strategies do to the table of strategies.
--   Net/Buffer: net/detail/Buffer.h and .cpp, net/detail/linux/ContinuousBuffer.h and .cpp.
--   Net/Error, Net/Protocal: net/Error.h, net/Protocal.h. Net/Platform: what the system supplies.
--   Net/TcpSocket: net/tcp/detail/linux/TcpSocket.h and .cpp.
--   Net/EventOperation: net/detail/EventOperation.hpp. Net/ReadStream and Net/WriteStream:
--     net/detail/ReactorSyncReadStream.hpp and ReactorSyncWriteStream.hpp with
--     net/tcp/detail/linux/TcpSyncReadStream.cpp and TcpSyncWriteStream.cpp.
--   Net/EventObject: net/detail/EventObject.h and .hpp for a socket; what is done to the system is
--     a list of effects, which EventObject/Effects counts.
--   Net/EpollSelector: net/detail/linux/EpollSelector.h and .cpp with net/detail/EventNotifier.h; `handle` is the
--     body of the loop of `select`.
--   Net/TcpConnection: net/tcp/TcpConnection.h and .cpp. Net/TcpDialer and Net/TcpListener:
--     net/tcp/detail/linux/TcpDialer and TcpListener, .h and .cpp; the functions for the two kinds
--     of address are one, `connect_to` and `open_at`.
--   Net/NetContext: net/NetContext.h and .cpp. Net/MultiplexingContextStrategy: its .h and .cpp of net, with
--     `suspend_until`; `timeout_of` is the timeout that `onSuspended` computes.
--   Net/IpAddress: net/ip/IpAddress.h and .cpp. Net/TcpAddress: net/tcp/TcpAddress.h and .cpp.
--
-- Concurrency: each call of the ring buffer is one atomic step, with any order of the calls of the
-- threads; memory orders are not modelled. In the semaphore, the spin mutex and the blocking
-- strategy each atomic operation and each critical section is one step. The calls of the lists, of the
-- storage, of the strategies and of the selector are steps as a whole. Where a loop waits for another
-- thread the model returns `spin`.
--
-- Bounds and fuel: offsets are 64-bit words with their wrap-around written out, the capacity is below
-- 2 ^ 32 as the index mask demands. `consume` has fuel for two rounds, since the second round starts at
-- offset 0. `perform` takes its fuel as an argument, one for each round of its loop;
-- EventOperation/Rounds says how much of it is enough, and the Returned modules of the streams, the
-- dialer and the listener apply it. Results of
-- system calls, arriving bytes and the ends of waits are lists that the calls take from in order, and
-- a call that finds its list empty returns `spin`.
--
-- Not modelled: the scheduling of fibers, which is Boost's, with its queue of ready contexts and its
-- kinds of contexts, which are parameters; ContextStrategyWrapper,
-- which does not compile; threads inside a call of the lists, the array and the thread-local storage; the
-- signal by which a selector is woken. `__builtin_clzll`, `inet_pton`, `inet_ntop`, `htons` and the
-- numbers of the system's headers are parameters.
pub mod Prelude
pub mod Core
pub mod Net
