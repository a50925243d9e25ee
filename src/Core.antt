-- ===== src/Core.antt =====
-- src/ustevent/core: the ring buffer of posted tasks and the synchronisation primitives.
pub mod RingBuffer
pub mod ContextTaskQueue
pub mod BasicSemaphore
pub mod BasicBarrier
pub mod SpinMutex
pub mod ListNodeAllocator
pub mod ListQueue
pub mod ThreadLocalStorage
mod Tests
pub mod AppendOnlyArray
pub mod FiberDebugInfo
pub mod Fiber
pub mod CallStack
pub mod Context
pub mod BlockingContextStrategy
pub mod ContextStrategy
pub mod ContextRun
mod SchedulerTests
mod ContextTests
