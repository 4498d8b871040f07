-- ===== src/Lib.antt =====
-- Robu microkernel: a model of the kernel's core (src/core) and what makes it correct.
--
-- The kernel runs under one lock, so a component is a state and functions on it, and a history is a
-- list of calls. A function that the source gives an out pointer returns that value; one that changes
-- shared variables takes and returns them. A pointer into a table is an index, `none` for NULL.
-- Integers are natural numbers, with the wrap-around of the C type written out where a value can
-- reach it (Base/Words).
--
-- Parts and files:
--   Base      lists, bits, words of a width, byte rings (Base/Ring) and intrusive lists (Base/Chain)
--   Status    the IPC_ERR_* codes of include/robu/ipc.h
--   Pipe      src/core/pipe.c: the pool of byte pipes, their holders and handles
--   Sched     src/core/sched.c: Types has tcb_t and the variables; Ready the ready queues; Wake the
--             inbox of woken threads, sleeping and the timer's deadline; Table the thread table;
--             Switch and Chosen `schedule`
--   Tick      src/core/sched.c: `sched_tick`, which wakes sleepers and fires timers
--   Untyped   src/core/untyped.c: the allocator of pages that are never given back
--   Captable  src/core/captable.c: capabilities, notifications and timers
--   Socket    src/core/socket.c: local stream sockets
--   Vm        src/core/vm.c: the queue of page faults, the capabilities for frames, the mapping of pages
--             for a message (Map) and the copies to and from a user's memory (UserCopy, CopyBytes)
--   Ipc       src/core/ipc.c: messages between threads. Queue and SendQueue have the queues of parked
--             senders, Message the registers, the pages that move and receiving, Send sending; Delivery,
--             Park and Rendezvous prove what arrives. Fault is `vm_handle_page_fault` of src/core/vm.c,
--             and FaultTaken the receive that takes the fault
--   Execreq   src/core/execreq.c: the requests to load a program; Reply has their replies and ends
--   Signal    src/core/signal.c, and the calls on signals of src/core/ipc.c
--   Pmm       src/core/pmm.c: the allocator of physical pages by cache colour
--   Shm       src/core/shm.c: shared memory; Segments makes and removes segments, Attachments attaches
--             and detaches them
--
-- How they interact: the capability table takes its memory from Untyped; a notification wakes its
-- waiter through `sched_wake`; a woken thread stands in the inbox until `schedule` drains it into the
-- ready queues and takes the first ready thread of the highest priority; the tick wakes sleepers and
-- lets the capability table fire timers, which signal notifications. A message either finds its
-- receiver waiting and may switch to it at once, or its sender parks in the receiver's queue; a
-- receiver also takes page faults and, if it is the file system's server, requests to load a program.
-- The page tables (Vm/Map.ArchVm), the program loader (Execreq.Loader) and what Shm calls
-- (Shm.ShmMemory) are records of operations that the definitions take as arguments.
--
-- Bounds: the tables have the sizes of the source. Loops over a table recurse on the number of
-- entries left. These loops run on fuel: taking a thread off the ready queues (65 rounds, one more
-- than there are threads), draining the inbox (65), walking a send queue (65), a periodic timer's
-- catching up (2^64 rounds, one for each value of the deadline: where they run out, the loop of the
-- source never ends), copying (a round for each byte), and the search for the lowest signal (63
-- rounds); looking through a listener's backlog has a round for each entry.
--
-- Not modelled: the memory that kernel stacks stand for, page tables and other hardware, the printing and
-- tracing, the dispatch of the calls without a destination in `sys_ipc`, the kernel heap, the making of
-- capabilities by `cap_retype`, the loading of programs, the info page and the user-space servers.
pub mod Base
pub mod Status
pub mod Untyped
pub mod Pipe
pub mod Sched
pub mod Captable
pub mod Tick
pub mod Socket
pub mod Vm
pub mod Ipc
pub mod Execreq
pub mod Signal
pub mod Pmm
pub mod Shm
