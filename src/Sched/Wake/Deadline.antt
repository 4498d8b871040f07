-- ===== src/Sched/Wake/Deadline.antt =====
-- The timer is never armed beyond the next deadline, and the deadline is never past a sleeper.
use robu_microkernel.Base.{
  ℕ, zero, suc, ◌+◌, ◌≤◌, ◌<◌, ◌≡◌, refl, ap, ◌&&◌, ◌≢◌, true, arith, ltb, leb, ◌==◌, if◌then◌else◌,
  Bool-cases, inl, inr, ==_refl, not, ◌||◌,
}
use robu_microkernel.Base.Words.{add64}
use robu_microkernel.Sched.Types.{
  ThreadState, Tcb, Sched, is_sleeping, is_dead, is_running, is_zombie, max_arm_ticks, no_deadline,
  max_cpus, timeslice_ticks,
}
use robu_microkernel.Sched.Wake.{
  kick_cpus, wake_ready, sched_wake, sched_sleep, sched_note_deadline, sched_arm_next_deadline,
  prio_of,
}

-- The timer is armed for at least one tick and at most 500. On CPU 0, if a deadline is set, it is
-- armed for no longer than until the deadline, or for one tick if that has passed.
pub arm_ticks_bounds :
    (s : Sched) (cpu : ℕ)
    → (1 ≤ (sched_arm_next_deadline s cpu).armed_ticks cpu)
      × ((sched_arm_next_deadline s cpu).armed_ticks cpu ≤ max_arm_ticks)
      × (cpu ≡ 0
          → s.next_deadline ≢ no_deadline
          → (s.now_ticks < s.next_deadline
              → s.now_ticks + (sched_arm_next_deadline s cpu).armed_ticks cpu ≤ s.next_deadline)
            × (s.next_deadline ≤ s.now_ticks → (sched_arm_next_deadline s cpu).armed_ticks cpu ≡ 1))
unfolding sched_arm_next_deadline
arm_ticks_bounds s cpu =
    rw (==_refl cpu) (ground arith, ground arith, λ z d. (λ h. ground arith, λ h. ground arith))

-- No sleeper wakes before the next deadline.
abbrev pub DeadlineIsEarliest : Sched → Type 0
DeadlineIsEarliest s =
    (t : ℕ) → is_sleeping (s.threads t).state ≡ true → s.next_deadline ≤ (s.threads t).wake_at_tick

-- What the kicks leave alone.
record Kicked (s s' : Sched) : Type 0 where
  threads_kept : s'.threads ≡ s.threads
  deadline_kept : s'.next_deadline ≡ s.next_deadline
  now_kept : s'.now_ticks ≡ s.now_ticks

kick_cpus-Kicked : (n c : ℕ) (s : Sched) (cpu t : ℕ) → Kicked s (kick_cpus n c s cpu t)
unfolding kick_cpus
kick_cpus-Kicked zero c s cpu t = record {
  threads_kept = refl;
  deadline_kept = refl;
  now_kept = refl;
}
kick_cpus-Kicked (suc n) c s cpu t =
    elim (Bool-cases (
      c == cpu
      || not (s.cpu_online c)
      || leb (s.armed_ticks c) timeslice_ticks
      || not (ltb (prio_of s (s.current c)) (s.threads t).prio))) [
        | inl e ↦ rw e (kick_cpus-Kicked n (c + 1) s cpu t)
        | inr e ↦
            let k =
              kick_cpus-Kicked n (c + 1)
                (record s { stats = record (s.stats) { kicks_sent = add64 s.stats.kicks_sent 1 } })
                cpu t in
            rw e (record {
              threads_kept = k.threads_kept;
              deadline_kept = k.deadline_kept;
              now_kept = k.now_kept;
            })
      ]

pub kick_cpus-threads :
    (n c : ℕ) (s : Sched) (cpu t : ℕ) → (kick_cpus n c s cpu t).threads ≡ s.threads
kick_cpus-threads n c s cpu t = (kick_cpus-Kicked n c s cpu t).threads_kept

wake_ready-state :
    (s : Sched) (cpu t u : ℕ)
    → (((wake_ready s cpu t).threads u).state
        ≡ (if u == t then ThreadState.ready else (s.threads u).state))
      × (((wake_ready s cpu t).threads u).wake_at_tick ≡ (s.threads u).wake_at_tick)
      × ((wake_ready s cpu t).next_deadline ≡ s.next_deadline)
unfolding wake_ready
wake_ready-state s cpu t u = ground arith

-- A thread that is neither dead, running nor a zombie is ready after it is woken, and no other
-- thread's state has changed; nor has any deadline.
pub sched_wake-state :
    (s : Sched) (cpu t u : ℕ)
    → let s' = sched_wake s cpu t in
      let st = (s.threads t).state in
      ((s'.threads u).state ≡ (
        if u == t && not (is_dead st || is_running st || is_zombie st)
        then ThreadState.ready
        else (s.threads u).state))
      × ((s'.threads u).wake_at_tick ≡ (s.threads u).wake_at_tick)
      × (s'.next_deadline ≡ s.next_deadline)
unfolding sched_wake
sched_wake-state s cpu t u =
    let k = kick_cpus-Kicked max_cpus 0 (wake_ready s cpu t) cpu t in
    ground
      (arith, wake_ready-state s cpu t u, ap (λ (f : ℕ → Tcb). f u) k.threads_kept, k.deadline_kept)

pub sched_wake-DeadlineIsEarliest :
    (s : Sched) (cpu t : ℕ) → DeadlineIsEarliest s → DeadlineIsEarliest (sched_wake s cpu t)
sched_wake-DeadlineIsEarliest s cpu t h u q = ground (arith, sched_wake-state s cpu t u, h u)

pub sched_sleep-DeadlineIsEarliest :
    (s : Sched) (cpu t ticks : ℕ)
    → DeadlineIsEarliest s
    → DeadlineIsEarliest (sched_sleep s cpu t ticks)
unfolding sched_sleep
sched_sleep-DeadlineIsEarliest s cpu t ticks h u q = ground (arith, h u)

pub sched_note_deadline-DeadlineIsEarliest :
    (s : Sched) (tick : ℕ) → DeadlineIsEarliest s → DeadlineIsEarliest (sched_note_deadline s tick)
unfolding sched_note_deadline
sched_note_deadline-DeadlineIsEarliest s tick h u q = ground (arith, h u)

wake_ready-now : (s : Sched) (cpu t : ℕ) → (wake_ready s cpu t).now_ticks ≡ s.now_ticks
unfolding wake_ready
wake_ready-now s cpu t = ground arith

-- Waking does not touch the time.
pub sched_wake-now : (s : Sched) (cpu t : ℕ) → (sched_wake s cpu t).now_ticks ≡ s.now_ticks
unfolding sched_wake
sched_wake-now s cpu t =
    let k = kick_cpus-Kicked max_cpus 0 (wake_ready s cpu t) cpu t in
    ground (arith, k.now_kept, wake_ready-now s cpu t)
