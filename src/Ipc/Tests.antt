-- ===== src/Ipc/Tests.antt =====
-- The theorems about messages at concrete inputs: thread 2 runs on CPU 0 and thread 3 waits for a message.
use robu_microkernel.Base.{
  ℕ, ◌+◌, ◌≡◌, refl, false, none, some, [], ◌∷◌, arith, ◌==◌, if◌then◌else◌,
}
use robu_microkernel.Status.{Status}
use robu_microkernel.Sched.Types.{Sched, Tcb, Regs, Msg, ThreadState}
use robu_microkernel.Sched.Table.{sched_get_tcb, fresh_tcb, zero_regs}
use robu_microkernel.Captable.Sample.{one_thread}
use robu_microkernel.Vm.{FaultRing}
use robu_microkernel.Vm.Map.{ArchVm}
use robu_microkernel.Ipc.Fault.{FaultEnd, vm_handle_page_fault}
use robu_microkernel.Ipc.FaultTaken.{vm_handle_page_fault-receive}
use robu_microkernel.Execreq.{SlotState}
use robu_microkernel.Ipc.{Machine, threads_of, with_threads}
use robu_microkernel.Ipc.Queue.{sendq_take}
use robu_microkernel.Ipc.SendQueue.{SendQ, sendq_take_lem}
use robu_microkernel.Ipc.Message.{receive}
use robu_microkernel.Ipc.Send.{park}
use robu_microkernel.Ipc.Delivery.{Received, receive_lem}
use robu_microkernel.Ipc.Park.{park-receive}

abbrev pages : ArchVm ℕ
pages = record {
  map_page = λ m space va frame flags. m + 1;
  map_large_page = λ m space va frame flags. m + 1;
  unmap_page = λ m space va. (0, m);
  translate = λ m space va. 0;
  boot_space = 1;
}

abbrev sent_regs : Regs
sent_regs = record zero_regs { r8 = 11; r9 = 12; r10 = 13; r12 = 14; r13 = 15; r14 = 16 }

abbrev sent : Msg
sent = record { word0 = 11; word1 = 12; word2 = 13; word3 = 14; word4 = 15; word5 = 16 }

abbrev sender : Tcb
sender = record (fresh_tcb 2 5) { uctx = sent_regs }

abbrev receiver : Tcb
receiver = record (fresh_tcb 3 5) { state = ThreadState.wait_recv }

abbrev scene : Sched
scene = record one_thread {
  threads = λ t. if t == 2 then sender else if t == 3 then receiver else fresh_tcb t 5;
  current = λ c. if c == 0 then some 2 else none;
}

abbrev machine_of : Sched → Machine ℕ ℕ
machine_of s = record {
  exec = record {
    sched = s;
    slots = λ i. record {
      state = SlotState.empty;
      generation = 0;
      params = record { requester_tid = 0; is_spawn_create = false; name = []; image = 0 };
      poll_child = none;
    };
    ext2fs_tid = 0;
  };
  memory = 0;
  frames = record {
    cap_table = λ i. record { base_frame = 0; frame_count = 0; permissions = 0; owner = 0 };
    cap_count = 0;
  };
  faults = record {
    entries = λ i. record { fault_address = 0; error_code = 0; faulting_thread = 0; reserved = 0 };
    head = 0;
    tail = 0;
  };
}

no_sender : SendQ scene 3 []
no_sender = record { chain = refl; tail = refl; no_dup = tt }

-- Threads 4 and 5 wait for thread 3.
abbrev two_wait : Sched
two_wait = record scene {
  threads = λ t.
      if t == 3
      then record receiver { send_q_head = some 4; send_q_tail = some 5 }
      else if t == 4
      then record (fresh_tcb 4 5) { sq_next = some 5 }
      else record (fresh_tcb t 5) { ipc_buffer = sent };
}

two_senders : SendQ two_wait 3 (4 ∷ 5 ∷ [])
two_senders = record {
  chain = (refl, (refl, refl));
  tail = refl;
  no_dup = (((λ e. omega (arith, e)), tt), (tt, tt));
}

sendq_take_lem_example :
    (s' : Sched) × (sendq_take two_wait 3 5 ≡ some (some 5, s')) × SendQ s' 3 (4 ∷ [])
sendq_take_lem_example = sendq_take_lem two_wait 3 5 (4 ∷ 5 ∷ []) two_senders (omega arith)

receive_lem_example :
    (k' : Machine ℕ ℕ) × (receive pages (machine_of two_wait) 0 3 5 2 ≡ some k')
    × SendQ (threads_of k') 3 (4 ∷ [])
    × Received ((threads_of k').threads 3).uctx zero_regs 5 11 12 13 14 15 16
    × ((st : Status) × (((threads_of k').threads 5).uctx ≡ record zero_regs { rax = st }))
receive_lem_example =
    receive_lem pages (machine_of two_wait) 0 3 5 2 5 (4 ∷ 5 ∷ []) two_senders (omega arith) refl
      (λ e. omega (arith, e))

park-receive_example :
    (k' : Machine ℕ ℕ) × (receive pages
        (with_threads (machine_of scene) (park scene 0 2 3 0 2))
        1
        3
        0
        2
      ≡ some k')
    × SendQ (threads_of k') 3 []
    × Received ((threads_of k').threads 3).uctx zero_regs 2 11 12 13 14 15 16
park-receive_example =
    park-receive pages (machine_of scene) 0 1 2 3 0 2 0 2 [] refl no_sender tt (omega arith) refl
      (λ e. omega (arith, e))

-- Thread 2 runs and thread 3, which runs elsewhere, is its pager.
abbrev paged : Sched
paged = record scene {
  threads = λ t. if t == 2 then record sender { pager_tid = 3 } else fresh_tcb t 5;
}

abbrev no_faults : FaultRing
no_faults = record {
  entries = λ i. record { fault_address = 0; error_code = 0; faulting_thread = 0; reserved = 0 };
  head = 15;
  tail = 15;
}

pager_found : sched_get_tcb paged 3 ≡ some 3
unfolding sched_get_tcb
pager_found = refl

-- The machine before the fault.
abbrev paged_machine : Machine ℕ ℕ
paged_machine = record (machine_of paged) { faults = no_faults }

paged_no_sender : SendQ paged 3 []
paged_no_sender = record { chain = refl; tail = refl; no_dup = tt }

vm_handle_page_fault-receive_example :
    (s' : Sched) × (q' : FaultRing) × (k' : Machine ℕ ℕ) × (vm_handle_page_fault paged no_faults 0 2
        0x5000 6
      ≡ FaultEnd.passed_on s' q')
    × ((s'.threads 2).state ≡ ThreadState.wait_pagefault)
    × (receive pages (with_threads (record paged_machine { faults = q' }) s') 1 3 0 2 ≡ some k')
    × (let f' = ((threads_of k').threads 3).uctx in
        ((f'.r8 ≡ 0x5000) × (f'.r9 ≡ 6) × (f'.r10 ≡ 2) × (f'.rsi ≡ 2) × (f'.rax ≡ Status.ok))
        × ((f'.r12 ≡ 0)
            × (f'.r13 ≡ 0)
            × (f'.r14 ≡ 0)
            × (f'.rdi ≡ 0)
            × (f'.rdx ≡ 0)
            × (f'.rip ≡ 0)
            × (f'.rsp ≡ 0)))
vm_handle_page_fault-receive_example =
    vm_handle_page_fault-receive pages paged_machine 0 1 2 0x5000 6 0 2 [] refl
      (λ e. omega (arith, e)) (omega arith) (λ e. omega (arith, e)) pager_found refl refl
      (omega arith) paged_no_sender (omega arith) refl
