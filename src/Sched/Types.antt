-- ===== src/Sched/Types.antt =====
-- The thread control block and the scheduler's variables.
use robu_microkernel.Base.{ℕ, ◌+◌, ◌-◌, Bool, true, false, Option, leb, if◌then◌else◌}
use robu_microkernel.Status.{Status}

-- `thread_state_t`
pub data ThreadState : Type 0 where
  running ready wait_recv wait_send wait_pagefault sleeping wait_notification dead zombie wait_child
        wait_console wait_execreq :
      ThreadState

abbrev pub is_running : ThreadState → Bool
is_running ThreadState.running = true
is_running _ = false

abbrev pub is_ready : ThreadState → Bool
is_ready ThreadState.ready = true
is_ready _ = false

abbrev pub is_dead : ThreadState → Bool
is_dead ThreadState.dead = true
is_dead _ = false

abbrev pub is_zombie : ThreadState → Bool
is_zombie ThreadState.zombie = true
is_zombie _ = false

abbrev pub is_sleeping : ThreadState → Bool
is_sleeping ThreadState.sleeping = true
is_sleeping _ = false

abbrev pub is_wait_recv : ThreadState → Bool
is_wait_recv ThreadState.wait_recv = true
is_wait_recv _ = false

abbrev pub is_wait_console : ThreadState → Bool
is_wait_console ThreadState.wait_console = true
is_wait_console _ = false

abbrev pub is_wait_execreq : ThreadState → Bool
is_wait_execreq ThreadState.wait_execreq = true
is_wait_execreq _ = false

abbrev pub is_wait_pagefault : ThreadState → Bool
is_wait_pagefault ThreadState.wait_pagefault = true
is_wait_pagefault _ = false

-- The payload of a message: six words.
pub record Msg : Type 0 where
  pub word0 : ℕ
  pub word1 : ℕ
  pub word2 : ℕ
  pub word3 : ℕ
  pub word4 : ℕ
  pub word5 : ℕ

-- The registers through which a call takes its arguments and returns; `rax` holds a status code.
pub record Regs : Type 0 where
  pub rax : Status
  pub rdi : ℕ
  pub rsi : ℕ
  pub rdx : ℕ
  pub r8 : ℕ
  pub r9 : ℕ
  pub r10 : ℕ
  pub r12 : ℕ
  pub r13 : ℕ
  pub r14 : ℕ
  pub rip : ℕ
  pub rsp : ℕ

-- `sig_action_t`
pub record SigAction : Type 0 where
  pub handler : ℕ
  pub flags : ℕ
  pub mask : ℕ

-- `int32_t timeslice_left`: the ticks left, or by how many the slice is overdrawn.
pub data Ticks : Type 0 where
  left : ℕ → Ticks
  overdrawn : ℕ → Ticks

-- `timeslice_left <= 0`
abbrev pub expired : Ticks → Bool
expired (Ticks.left n) = leb n 0
expired (Ticks.overdrawn n) = true

-- `timeslice_left -= n`
abbrev pub spend : Ticks → ℕ → Ticks
spend (Ticks.left k) n = if leb n k then Ticks.left (k - n) else Ticks.overdrawn (n - k)
spend (Ticks.overdrawn k) n = Ticks.overdrawn (k + n)

-- `tcb_t`, without its name, its saved floating-point state and its kernel stack.
pub record Tcb : Type 0 where
  pub state : ThreadState
  pub prio : ℕ
  pub in_ready_q : Bool
  pub timeslice_left : Ticks
  pub wake_at_tick : ℕ
  pub exit_status : ℕ
  pub uctx : Regs
  pub fs_base : ℕ
  pub address_space : ℕ
  pub ipc_partner : ℕ
  pub ipc_recv_after : ℕ
  pub ipc_flags : ℕ
  pub ipc_buffer : Msg
  pub pager_tid : ℕ
  pub parent_tid : ℕ
  pub wait_filter : ℕ
  pub execreq_slot : ℕ
  pub last_cpu : ℕ
  pub pgid : ℕ
  pub sid : ℕ
  pub sig_pending : ℕ
  pub sig_mask : ℕ
  pub sig_actions : ℕ → SigAction
  pub in_sig_handler : Bool
  pub saved_uctx_before_sig : Regs
  pub saved_sig_mask : ℕ
  pub rq_next : Option ℕ
  pub sq_next : Option ℕ
  pub inbox_next : Option ℕ
  pub send_q_head : Option ℕ
  pub send_q_tail : Option ℕ

abbrev pub max_threads : ℕ
max_threads = 64

abbrev pub prio_levels : ℕ
prio_levels = 32

abbrev pub max_cpus : ℕ
max_cpus = 16

abbrev pub timeslice_ticks : ℕ
timeslice_ticks = 5

abbrev pub max_arm_ticks : ℕ
max_arm_ticks = 500

-- `(uint64_t)-1` and `(uint32_t)-1`
abbrev pub no_deadline : ℕ
no_deadline = 0xffff_ffff_ffff_ffff

abbrev pub no_cpu : ℕ
no_cpu = 0xffff_ffff

-- `sched_stats_t`, those of its counters that the queues touch.
pub record Stats : Type 0 where
  pub direct_switches : ℕ
  pub full_scheds : ℕ
  pub preempts : ℕ
  pub ipc_msgs : ℕ
  pub ticks : ℕ
  pub affinity_hits : ℕ
  pub affinity_misses : ℕ
  pub timer_traps : ℕ
  pub kicks_sent : ℕ

-- The file's variables. `current c` is the thread that runs on CPU `c`, `none` for its idle thread,
-- whose own record is not modelled.
pub record Sched : Type 0 where
  pub threads : ℕ → Tcb
  pub ready_head : ℕ → Option ℕ
  pub ready_tail : ℕ → Option ℕ
  pub ready_bitmap : ℕ
  pub wake_inbox : Option ℕ
  pub need_resched : ℕ → Bool
  pub current : ℕ → Option ℕ
  pub cpu_online : ℕ → Bool
  pub armed_ticks : ℕ → ℕ
  pub now_ticks : ℕ
  pub next_deadline : ℕ
  pub stats : Stats
