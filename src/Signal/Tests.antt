-- ===== src/Signal/Tests.antt =====
-- The theorems about signals at concrete inputs: signals 2 and 3 are pending and 2 is masked.
use robu_microkernel.Base.{ℕ, ◌-◌, ◌<◌, ◌≡◌, ◌≢◌, refl, true, some, arith}
use robu_microkernel.Base.Bits.{bit}
use robu_microkernel.Sched.Types.{Sched, Tcb, ThreadState}
use robu_microkernel.Sched.Table.{fresh_tcb, sched_get_tcb}
use robu_microkernel.Captable.Sample.{one_thread}
use robu_microkernel.Signal.{sig_send, sig_try_deliver, lowest_from}
use robu_microkernel.Signal.Deliver.{sig_try_deliver_lem}
use robu_microkernel.Signal.Send.{sig_send_lem}
use robu_microkernel.Ipc.Delivery.{SameQueues}

abbrev signalled : Tcb
signalled = record (fresh_tcb 2 5) {
  sig_pending = 6;
  sig_mask = 2;
  sig_actions = λ n. record { handler = 0x400000; flags = 0; mask = 0 };
}

chosen_test : lowest_from 63 1 4 ≡ 3
unfolding lowest_from
chosen_test = refl

sig_try_deliver_lem_example :
    let r' = (sig_try_deliver signalled).1 in
    let i = lowest_from 63 1 4 - 1 in
    (bit i 6 ≡ 1)
    × (bit i 2 ≡ 0)
    × ((j : ℕ) → j < i → bit j 6 ≡ 1 → bit j 2 ≡ 1)
    × (bit i r'.sig_pending ≡ 0)
    × ((j : ℕ) → j < 64 → j ≢ i → bit j r'.sig_pending ≡ bit j 6)
sig_try_deliver_lem_example =
    sig_try_deliver_lem signalled refl (λ e. omega (arith, e)) (omega arith) (omega arith)

-- Thread 2 waits in a send queue.
abbrev parked : Sched
parked = record one_thread {
  threads = λ t. record (fresh_tcb t 5) { state = ThreadState.wait_send };
}

found : sched_get_tcb parked 2 ≡ some 2
unfolding sched_get_tcb
found = refl

sig_send_lem_example :
    let (sent, s') = sig_send parked 0 2 9 in
    (sent ≡ true)
    × ((s'.threads 2).state ≡ ThreadState.ready)
    × (bit 8 (s'.threads 2).sig_pending ≡ 1)
    × SameQueues parked s'
sig_send_lem_example = sig_send_lem parked 0 2 9 (omega arith) (omega arith) found refl
