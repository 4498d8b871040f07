-- ===== src/Sched/Tests.antt =====
-- The theorems about the scheduler at concrete inputs: thread 2 runs on CPU 0, thread 3 is queued
-- and thread 7, which is more urgent, waits in the inbox.
use robu_microkernel.Base.{
  ℕ, ◌+◌, ◌≤◌, ◌<◌, ◌≡◌, refl, ◌≢◌, false, ◌||◌, Option, none, some, [], ◌∷◌, arith, ◌==◌,
  if◌then◌else◌,
}
use robu_microkernel.Base.Bits.{bit-zero}
use robu_microkernel.Base.Chain.{Chain}
use robu_microkernel.Status.{Status}
use robu_microkernel.Sched.Types.{
  ThreadState, Ticks, Msg, Regs, Tcb, Stats, Sched, max_threads, max_arm_ticks, no_deadline, no_cpu,
}
use robu_microkernel.Sched.Ready.{rq_push, rq_pop_highest}
use robu_microkernel.Sched.Ready.Rep.{Queues, Rep}
use robu_microkernel.Sched.Ready.Push.{enqueued, rq_push-Rep}
use robu_microkernel.Sched.Ready.Outcome.{Outcome}
use robu_microkernel.Sched.Ready.Pop.{rq_pop_highest-Outcome}
use robu_microkernel.Sched.Wake.{
  sched_wake, drain_inbox, sched_arm_next_deadline, sched_sleep, sched_note_deadline,
}
use robu_microkernel.Sched.Wake.Deadline.{arm_ticks_bounds, DeadlineIsEarliest}
use robu_microkernel.Sched.Wake.Deliver.{LinksInTable, inbox_links}
use robu_microkernel.Sched.Wake.Inbox.{received, drain_inbox_lem, drain_total}
use robu_microkernel.Sched.Switch.{schedule, NoneWaitsAbove, RunsInSlice}
use robu_microkernel.Sched.Chosen.{schedule_lem}

abbrev no_msg : Msg
no_msg = record { word0 = 0; word1 = 0; word2 = 0; word3 = 0; word4 = 0; word5 = 0 }

abbrev no_regs : Regs
no_regs = record {
  rax = Status.ok;
  rdi = 0;
  rsi = 0;
  rdx = 0;
  r8 = 0;
  r9 = 0;
  r10 = 0;
  r12 = 0;
  r13 = 0;
  r14 = 0;
  rip = 0;
  rsp = 0;
}

abbrev state_of : ℕ → ThreadState
state_of t =
    if t == 2
    then ThreadState.running
    else if t == 3 || t == 7
    then ThreadState.ready
    else if t == 9
    then ThreadState.sleeping
    else ThreadState.dead

abbrev prio_of : ℕ → ℕ
prio_of t = if t == 7 then 9 else 5

abbrev thread : ℕ → Tcb
thread t = record {
  state = state_of t;
  prio = prio_of t;
  in_ready_q = false;
  timeslice_left = Ticks.left 0;
  wake_at_tick = 400;
  exit_status = 0;
  uctx = no_regs;
  fs_base = 0;
  address_space = 0;
  ipc_partner = 0;
  ipc_recv_after = 0;
  ipc_flags = 0;
  ipc_buffer = no_msg;
  pager_tid = 0;
  parent_tid = 0;
  wait_filter = 0;
  execreq_slot = 0;
  last_cpu = no_cpu;
  pgid = t;
  sid = t;
  sig_pending = 0;
  sig_mask = 0;
  sig_actions = λ n. record { handler = 0; flags = 0; mask = 0 };
  in_sig_handler = false;
  saved_uctx_before_sig = no_regs;
  saved_sig_mask = 0;
  rq_next = none;
  sq_next = none;
  inbox_next = none;
  send_q_head = none;
  send_q_tail = none;
}

abbrev no_stats : Stats
no_stats = record {
  direct_switches = 0;
  full_scheds = 0;
  preempts = 0;
  ipc_msgs = 0;
  ticks = 0;
  affinity_hits = 0;
  affinity_misses = 0;
  timer_traps = 0;
  kicks_sent = 0;
}

abbrev unqueued : Sched
unqueued = record {
  threads = thread;
  ready_head = λ p. none;
  ready_tail = λ p. none;
  ready_bitmap = 0;
  wake_inbox = some 7;
  need_resched = λ c. c == 0;
  current = λ c. if c == 0 then some 2 else none;
  cpu_online = λ c. c == 0;
  armed_ticks = λ c. 5;
  now_ticks = 100;
  next_deadline = 350;
  stats = no_stats;
}

abbrev no_queues : Queues
no_queues p = []

unqueued-Rep : Rep unqueued no_queues
unqueued-Rep = record {
  levels = λ t. ground arith;
  in_table = λ t e. absurd (ground arith);
  chains = λ p. refl;
  tails = λ p. refl;
  no_dup = λ p. tt;
  marked = λ p. tt;
  complete = λ t e. absurd (ground arith);
  bits = λ p k. bit-zero p;
  word = omega arith;
}

abbrev queued : Sched
queued = rq_push unqueued 3

abbrev one_queue : Queues
one_queue = enqueued unqueued no_queues 3

rq_push-Rep_example : Rep queued one_queue
rq_push-Rep_example = rq_push-Rep unqueued no_queues 3 (omega arith) unqueued-Rep

pop_test : (rq_pop_highest queued 0).0 ≡ some 3
unfolding rq_pop_highest robu_microkernel.Sched.Ready.pop_loop rq_push
    robu_microkernel.Sched.Ready.top_bit robu_microkernel.Sched.Ready.rq_unlink
pop_test = refl

rq_pop_highest-Outcome_example :
    Outcome queued one_queue (rq_pop_highest queued 0).0 (rq_pop_highest queued 0).1
rq_pop_highest-Outcome_example = rq_pop_highest-Outcome queued one_queue 0 rq_push-Rep_example

links_in_table : LinksInTable queued
unfolding rq_push
links_in_table t u e = absurd (ground arith)

inbox_head : (t : ℕ) → queued.wake_inbox ≡ some t → t < max_threads
unfolding rq_push
inbox_head t e = ground arith

inbox-Chain : Chain (inbox_links queued) queued.wake_inbox (7 ∷ [])
unfolding rq_push
inbox-Chain = (refl, refl)

runner_in_table : (t : ℕ) → queued.current 0 ≡ some t → t < max_threads
unfolding rq_push
runner_in_table t e = ground arith

drain_total_example : (s' : Sched) × (drain_inbox queued ≡ some s')
drain_total_example = drain_total queued links_in_table inbox_head

drain_inbox_lem_example :
    (s' : Sched) × (drain_inbox queued ≡ some s') × Rep s' (received queued one_queue (7 ∷ []))
drain_inbox_lem_example =
    drain_inbox_lem queued one_queue (7 ∷ []) rq_push-Rep_example links_in_table inbox-Chain
      (tt, tt) (omega arith, tt)

abbrev runner : Option Sched → Option ℕ
runner none = none
runner (some s) = s.current 0

schedule_test : runner (schedule queued 0) ≡ some 7
unfolding schedule drain_inbox robu_microkernel.Sched.Wake.drain_loop
    robu_microkernel.Sched.Switch.requeue robu_microkernel.Sched.Switch.dispatch rq_pop_highest
    robu_microkernel.Sched.Ready.pop_loop rq_push robu_microkernel.Sched.Ready.top_bit
    robu_microkernel.Sched.Ready.rq_unlink
schedule_test = refl

schedule_lem_example :
    (s' : Sched) × (schedule queued 0 ≡ some s')
    × ((qs' : Queues) × Rep s' qs')
    × NoneWaitsAbove s' 0
    × RunsInSlice s' 0
    × (s'.need_resched 0 ≡ false)
schedule_lem_example =
    schedule_lem queued one_queue (7 ∷ []) 0 rq_push-Rep_example links_in_table inbox-Chain (tt, tt)
      (omega arith, tt) runner_in_table

arm_ticks_bounds_example :
    (1 ≤ (sched_arm_next_deadline unqueued 0).armed_ticks 0)
    × ((sched_arm_next_deadline unqueued 0).armed_ticks 0 ≤ max_arm_ticks)
    × ((λ (n : ℕ). n ≡ 0) 0
        → unqueued.next_deadline ≢ no_deadline
        → (100 < 350 → 100 + (sched_arm_next_deadline unqueued 0).armed_ticks 0 ≤ 350)
          × (350 ≤ 100 → (sched_arm_next_deadline unqueued 0).armed_ticks 0 ≡ 1))
arm_ticks_bounds_example = arm_ticks_bounds unqueued 0

unqueued-DeadlineIsEarliest : DeadlineIsEarliest unqueued
unqueued-DeadlineIsEarliest t e = omega arith
