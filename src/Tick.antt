-- ===== src/Tick.antt =====
-- src/core/sched.c: `sched_tick`, the handler of the timer's interrupt, which wakes the sleepers and lets
-- src/core/captable.c fire the timers. The tick's count in the page that user programs see
-- (`kinfo_tick`) and the programming of the timer's hardware are not modelled.
pub mod OnTime
mod Tests
use robu_microkernel.Base.{
  ℕ, zero, suc, ◌+◌, ◌-◌, Bool, true, false, not, Option, none, some, ltb, leb, ◌==◌, if◌then◌else◌,
}
use robu_microkernel.Base.Words.{add64}
use robu_microkernel.Sched.Types.{Tcb, Sched, Stats, is_sleeping, max_threads, no_deadline}
use robu_microkernel.Sched.Wake.{sched_wake, sched_arm_next_deadline}
use robu_microkernel.Sched.Switch.{sched_tick_local}
use robu_microkernel.Captable.{Caps}
use robu_microkernel.Captable.Timers.{cap_timer_rescan}

-- One thread's turn in the loop over the sleepers.
unfoldable pub wake_if_due : Sched → ℕ → ℕ → Sched
wake_if_due s cpu i =
    let t = s.threads i in
    if not (is_sleeping t.state)
    then s
    else if leb t.wake_at_tick s.now_ticks
    then sched_wake s cpu i
    else if ltb t.wake_at_tick s.next_deadline
    then record s { next_deadline = t.wake_at_tick }
    else s

-- The loop from thread `i` on with `n` threads left.
unfoldable pub wake_sleepers : ℕ → ℕ → Sched → ℕ → Sched
wake_sleepers zero i s cpu = s
wake_sleepers (suc n) i s cpu = wake_sleepers n (i + 1) (wake_if_due s cpu i) cpu

-- The part of `sched_tick` that runs when the next deadline has come.
unfoldable pub meet_deadline : Caps → ℕ → Caps
meet_deadline c cpu =
    let s1 =
      wake_sleepers (max_threads - 1) 1 (record (c.sched) { next_deadline = no_deadline }) cpu in
    let (next_timer, c2) = cap_timer_rescan (record c { sched = s1 }) cpu s1.now_ticks in
    if ltb next_timer c2.sched.next_deadline
    then record c2 { sched = record (c2.sched) { next_deadline = next_timer } }
    else c2

-- `n` ticks have passed on the CPU that keeps the time.
unfoldable pub pass_time : Caps → ℕ → ℕ → Caps
pass_time c cpu n =
    let s = c.sched in
    let s1 = record s {
      now_ticks = add64 s.now_ticks n;
      stats = record (s.stats) { ticks = add64 s.stats.ticks n };
    } in
    let c1 = record c { sched = s1 } in
    if leb s1.next_deadline s1.now_ticks then meet_deadline c1 cpu else c1

-- The ticks that an interrupt stands for.
abbrev pub ticks_passed : Sched → ℕ → ℕ
ticks_passed s cpu = if ltb (s.armed_ticks cpu) 1 then 1 else s.armed_ticks cpu

unfoldable pub sched_tick : Caps → ℕ → Caps
unfolding pass_time
sched_tick c cpu =
    let n = ticks_passed c.sched cpu in
    let c1 = record c {
      sched = record (c.sched) {
        stats = record (c.sched.stats) { timer_traps = add64 c.sched.stats.timer_traps 1 };
      };
    } in
    let c2 = if cpu == 0 then pass_time c1 cpu n else c1 in
    record c2 { sched = sched_arm_next_deadline (sched_tick_local c2.sched cpu n) cpu }
