-- ===== src/Ipc.antt =====
-- src/core/ipc.c: messages between threads, and the page faults that reach a pager as messages.
-- The state is that of the scheduler, of the page tables and of the requests to load a program. A call runs
-- for the thread `cur` that runs on `cpu`.
pub mod Queue
pub mod SendQueue
pub mod Message
pub mod Send
pub mod Delivery
pub mod Park
pub mod Rendezvous
pub mod Fault
pub mod FaultTaken
mod Tests
use robu_microkernel.Base.{ℕ, Bool, ◌!=◌}
use Prim.Native.Nat.{bit_and}
use robu_microkernel.Sched.Types.{Sched}
use robu_microkernel.Execreq.{Exec}
use robu_microkernel.Vm.{FaultRing, FrameTable}

-- The variables of the files that a message can touch. `M` is the state of the page tables and of the
-- memory, `P` what a request to load a program carries.
pub record Machine (M P : Type 0) : Type 0 where
  pub exec : Exec P
  pub memory : M
  pub frames : FrameTable
  pub faults : FaultRing

abbrev pub threads_of : {M : Type 0} {P : Type 0} → Machine M P → Sched
threads_of k = k.exec.sched

abbrev pub with_threads : {M : Type 0} {P : Type 0} → Machine M P → Sched → Machine M P
with_threads k s = record k { exec = record (k.exec) { sched = s } }

abbrev pub flag_map : ℕ
flag_map = 1

abbrev pub flag_recv : ℕ
flag_recv = 2

abbrev pub flag_xfer : ℕ
flag_xfer = 4

abbrev pub flag_share : ℕ
flag_share = 8

abbrev pub flag_noblock : ℕ
flag_noblock = 16

-- `(tid_t)~0u`: the sender does not want to receive afterwards.
abbrev pub no_receive : ℕ
no_receive = 0xffff_ffff

-- `flags & flag`
abbrev pub has_flag : ℕ → ℕ → Bool
has_flag flags flag = bit_and flags flag != 0
