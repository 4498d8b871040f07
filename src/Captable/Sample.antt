-- ===== src/Captable/Sample.antt =====
-- Concrete capabilities for the tests: thread 2 owns a notification in slot 0 and a timer in slot 1.
use robu_microkernel.Base.{true, false, none, some, ◌==◌, if◌then◌else◌}
use robu_microkernel.Sched.Types.{Sched}
use robu_microkernel.Sched.Table.{fresh_tcb}
use robu_microkernel.Captable.{CapKind, Kcap, Caps, zero_kcap}

abbrev pub one_thread : Sched
one_thread = record {
  threads = λ t. fresh_tcb t 5;
  ready_head = λ p. none;
  ready_tail = λ p. none;
  ready_bitmap = 0;
  wake_inbox = none;
  need_resched = λ c. false;
  current = λ c. none;
  cpu_online = λ c. false;
  armed_ticks = λ c. 5;
  now_ticks = 100;
  next_deadline = 350;
  stats = record {
    direct_switches = 0;
    full_scheds = 0;
    preempts = 0;
    ipc_msgs = 0;
    ticks = 0;
    affinity_hits = 0;
    affinity_misses = 0;
    timer_traps = 0;
    kicks_sent = 0;
  };
}

abbrev pub notif_cap : Kcap
notif_cap = record zero_kcap { kind = CapKind.notification; owner = 2; addr = 3 }

abbrev pub timer_cap : Kcap
timer_cap = record zero_kcap { kind = CapKind.timer; owner = 2; addr = 0 }

abbrev pub caps : Caps
caps = record {
  sched = one_thread;
  memory = record { region_base = 0x10000; region_size = 0x40000; watermark = 0x1000 };
  kcap_count = 2;
  kcap_capacity = 2;
  kcap_table = some (λ i. if i == 0 then notif_cap else if i == 1 then timer_cap else zero_kcap);
  notif_table = λ i. record { word = 5; waiter = 0; in_use = true };
  notif_count = 4;
  timer_table = λ i. record {
    in_use = true;
    armed = true;
    deadline_tick = 90;
    notif_idx = 3;
    signal_bits = 2;
    period_ticks = 7;
  };
  timer_count = 1;
}
