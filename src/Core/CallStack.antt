-- ===== src/Core/CallStack.antt =====
-- ustevent/core/thread/detail/CallStack.h and ustevent/core/fiber/detail/CallStack.h: the objects on
-- the stack of a thread, or of a fiber, that say what runs there. An object is its address, a key
-- too; `none` at an address says that no object lives there. FiberLocal holds a pointer to the top.
pub mod Defs
pub mod Entered
