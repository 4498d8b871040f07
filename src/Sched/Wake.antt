-- ===== src/Sched/Wake.antt =====
-- Waking, blocking and sleeping. `cpu` is `this_cpu()->cpu_id`.
pub mod Deadline
pub mod Deliver
pub mod Inbox
pub mod Kept
use robu_microkernel.Base.{
  ℕ, zero, suc, ◌+◌, ◌-◌, Bool, true, false, not, ◌&&◌, ◌||◌, Option, none, some, ltb, leb, ◌==◌,
  ◌!=◌, if◌then◌else◌,
}
use robu_microkernel.Base.Chain.{upd}
use robu_microkernel.Base.Words.{add64}
use robu_microkernel.Sched.Types.{
  ThreadState, Tcb, Sched, Stats, is_running, is_ready, is_dead, is_zombie, max_threads, max_cpus,
  timeslice_ticks, no_deadline, max_arm_ticks, expired, Ticks,
}
use robu_microkernel.Sched.Ready.{put, rq_push}

-- The priority of a CPU's current thread; its idle thread has priority 0.
abbrev pub prio_of : Sched → Option ℕ → ℕ
prio_of s none = 0
prio_of s (some t) = (s.threads t).prio

-- The loop that kicks the CPUs that run something less urgent, over the CPUs `c` and above. The kick
-- itself is an interrupt of the hardware; here it is counted.
unfoldable pub kick_cpus : ℕ → ℕ → Sched → ℕ → ℕ → Sched
kick_cpus zero c s cpu t = s
kick_cpus (suc n) c s cpu t =
    let urgent = ltb (prio_of s (s.current c)) (s.threads t).prio in
    let s' =
      if c == cpu || not (s.cpu_online c) || leb (s.armed_ticks c) timeslice_ticks || not urgent
      then s
      else record s { stats = record (s.stats) { kicks_sent = add64 s.stats.kicks_sent 1 } } in
    kick_cpus n (c + 1) s' cpu t

-- A thread becomes ready: it goes into the inbox, unless it is still in its ready queue.
abbrev pub enter_inbox : Sched → ℕ → Sched
enter_inbox s t =
    if (s.threads t).in_ready_q
    then s
    else record (put s t (record (s.threads t) { inbox_next = s.wake_inbox })) {
      wake_inbox = some t;
    }

abbrev pub ask_resched : Sched → ℕ → Sched
ask_resched s cpu = record s { need_resched = upd s.need_resched cpu true }

-- The part of `sched_wake` from `t->state = THREAD_STATE_READY` to the request to reschedule.
unfoldable pub wake_ready : Sched → ℕ → ℕ → Sched
wake_ready s cpu t =
    let s1 = put s t (record (s.threads t) { state = ThreadState.ready }) in
    let s2 = enter_inbox s1 t in
    if ltb (prio_of s2 (s2.current cpu)) (s2.threads t).prio then ask_resched s2 cpu else s2

unfoldable pub sched_wake : Sched → ℕ → ℕ → Sched
sched_wake s cpu t =
    let st = (s.threads t).state in
    if is_dead st || is_running st || is_zombie st
    then s
    else if is_ready st && (s.threads t).in_ready_q
    then s
    else kick_cpus max_cpus 0 (wake_ready s cpu t) cpu t

-- The loop of `drain_inbox` over the list that was in the inbox, on fuel: `none` if it runs out.
-- `Inbox.drain_total` shows that it does not.
unfoldable pub drain_loop : ℕ → Sched → Option ℕ → Option Sched
drain_loop fuel s none = some s
drain_loop zero s (some t) = none
drain_loop (suc fuel) s (some t) =
    let next = (s.threads t).inbox_next in
    let s1 = put s t (record (s.threads t) { inbox_next = none }) in
    let s2 = if is_ready (s1.threads t).state then rq_push s1 t else s1 in drain_loop fuel s2 next

unfoldable pub drain_inbox : Sched → Option Sched
drain_inbox s = drain_loop 65 (record s { wake_inbox = none }) s.wake_inbox

unfoldable pub sched_ready_now : Sched → ℕ → Sched
sched_ready_now s t = rq_push (put s t (record (s.threads t) { state = ThreadState.ready })) t

-- `dest` runs on this CPU at once; its predecessor's state is the caller's business.
unfoldable pub sched_direct_switch : Sched → ℕ → ℕ → Sched
sched_direct_switch s cpu dest =
    let s1 = put s dest (record (s.threads dest) { state = ThreadState.running; last_cpu = cpu }) in
    record s1 {
      current = upd s1.current cpu (some dest);
      stats = record (s1.stats) { direct_switches = add64 s1.stats.direct_switches 1 };
    }

-- `current_thread->state = why`. An idle thread does not block.
unfoldable pub sched_block : Sched → ℕ → ThreadState → Sched
sched_block s cpu why = elim (s.current cpu) [
  | none ↦ s
  | some t ↦ put s t (record (s.threads t) { state = why })
]

unfoldable pub sched_note_deadline : Sched → ℕ → Sched
sched_note_deadline s tick =
    if ltb tick s.next_deadline then record s { next_deadline = tick } else s

-- Called by the thread `t` that runs on `cpu`.
unfoldable pub sched_sleep : Sched → ℕ → ℕ → ℕ → Sched
sched_sleep s cpu t ticks =
    if ticks == 0
    then ask_resched s cpu
    else let wake_at = add64 s.now_ticks ticks in
      let s1 =
        put s t (record (s.threads t) { wake_at_tick = wake_at; state = ThreadState.sleeping }) in
      if ltb wake_at s1.next_deadline then record s1 { next_deadline = wake_at } else s1

-- What is left of the current thread's slice, at least 1; the idle thread has no slice.
abbrev pub slice_of : Ticks → ℕ
slice_of (Ticks.left k) = if ltb 0 k then k else 1
slice_of (Ticks.overdrawn k) = 1

abbrev pub slice_ticks : Sched → Option ℕ → ℕ
slice_ticks s none = max_arm_ticks
slice_ticks s (some t) = slice_of (s.threads t).timeslice_left

-- The ticks for which the timer is armed.
unfoldable pub arm_ticks : Sched → ℕ → ℕ
arm_ticks s cpu =
    let n = slice_ticks s (s.current cpu) in
    let sleeper = if ltb s.now_ticks s.next_deadline then s.next_deadline - s.now_ticks else 1 in
    let n1 = if cpu == 0 && s.next_deadline != no_deadline && ltb sleeper n then sleeper else n in
    let n2 = if ltb max_arm_ticks n1 then max_arm_ticks else n1 in if ltb n2 1 then 1 else n2

unfoldable pub sched_arm_next_deadline : Sched → ℕ → Sched
unfolding arm_ticks
sched_arm_next_deadline s cpu = record s { armed_ticks = upd s.armed_ticks cpu (arm_ticks s cpu) }
