-- ===== src/Sched.antt =====
-- src/core/sched.c: the thread table and the ready queues.
-- The thread table is a store indexed by thread id; the id of a thread is its index, so `tid` is no
-- field. A `tcb_t *` is the thread's id, `none` for NULL. All of this runs under the kernel lock.
pub mod Types
pub mod Ready
pub mod Wake
pub mod Table
pub mod Switch
pub mod Chosen
mod Tests
