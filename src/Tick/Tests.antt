-- ===== src/Tick/Tests.antt =====
-- The theorem about `sched_tick` at a concrete input: thread 9 is due at this tick, thread 10 later.
use robu_microkernel.Base.{some, arith, ◌==◌, if◌then◌else◌}
use robu_microkernel.Sched.Types.{ThreadState, Sched}
use robu_microkernel.Sched.Table.{fresh_tcb}
use robu_microkernel.Captable.Sample.{one_thread, caps}
use robu_microkernel.Tick.{sched_tick}
use robu_microkernel.Tick.OnTime.{SleepsOnTime, sched_tick-SleepsOnTime}

abbrev sleepers : Sched
sleepers = record one_thread {
  threads = λ t.
      if t == 9
      then record (fresh_tcb 9 5) { state = ThreadState.sleeping; wake_at_tick = 104 }
      else if t == 10
      then record (fresh_tcb 10 5) { state = ThreadState.sleeping; wake_at_tick = 300 }
      else fresh_tcb t 5;
  current = λ c. some 2;
  next_deadline = 104;
}

sched_tick-SleepsOnTime_example :
    SleepsOnTime (sched_tick (record caps { sched = sleepers }) 0).sched 10
sched_tick-SleepsOnTime_example =
    sched_tick-SleepsOnTime (record caps { sched = sleepers }) 10 (omega arith) (omega arith)
      (λ e. omega arith)
