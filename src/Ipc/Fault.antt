-- ===== src/Ipc/Fault.antt =====
-- src/core/vm.c: `vm_handle_page_fault`, for the thread `cur` that runs on `cpu`.
use robu_microkernel.Base.{
  ℕ, ◌≡◌, ◌≢◌, ◌<◌, refl, sym, true, false, none, some, leb, ◌==◌, ◌!=◌, if◌then◌else◌, arith,
  ==_refl, ne→==,
}
use robu_microkernel.Base.Chain.{upd}
use robu_microkernel.Sched.Types.{Sched, Tcb, ThreadState, max_threads}
use robu_microkernel.Sched.Ready.{put}
use robu_microkernel.Sched.Wake.{sched_block}
use robu_microkernel.Sched.Table.{sched_get_tcb}
use robu_microkernel.Vm.{FaultMsg, FaultRing, fault_queue_push, fault_queue_pop, next_index}
use robu_microkernel.Ipc.Message.{fault_frame, put_frame, vm_take_queued_fault}
use robu_microkernel.Ipc.Send.{takes_from, donate}

-- What becomes of a fault: the scheduler's state and the queue of faults, the end of the thread, or the end
-- of the kernel.
pub data FaultEnd : Type 0 where
  passed_on : Sched → FaultRing → FaultEnd
  terminated halted : FaultEnd

-- A service is terminated; without an address space of its own the fault is the kernel's.
abbrev pub give_up : Tcb → FaultEnd
give_up r = if r.address_space != 0 then FaultEnd.terminated else FaultEnd.halted

abbrev pub fault_of : ℕ → ℕ → ℕ → FaultMsg
fault_of addr code cur = record {
  fault_address = addr;
  error_code = code;
  faulting_thread = cur;
  reserved = 0;
}

unfoldable pub vm_handle_page_fault : Sched → FaultRing → ℕ → ℕ → ℕ → ℕ → FaultEnd
vm_handle_page_fault s q cpu cur addr code =
    let r = s.threads cur in
    let fault = fault_of addr code cur in
    let s1 = sched_block s cpu ThreadState.wait_pagefault in
    let (queued, q1) = fault_queue_push q fault in
    if r.pager_tid == 0 then give_up r else elim (sched_get_tcb s r.pager_tid) [
      | none ↦ give_up r
      | some pager ↦
          let told = put_frame s1 pager (fault_frame (s1.threads pager).uctx fault) in
          if takes_from (s1.threads pager) cur
          then FaultEnd.passed_on (donate told cpu cur pager) q
          else if queued
          then FaultEnd.passed_on s1 q1
          else FaultEnd.halted
    ]

block-put :
    (s : Sched) (cpu cur : ℕ)
    → s.current cpu ≡ some cur
    → sched_block s cpu ThreadState.wait_pagefault
      ≡ put s cur (record (s.threads cur) { state = ThreadState.wait_pagefault })
unfolding sched_block
block-put s cpu cur c = rw (c, sched_block) refl

abbrev pub after_block : Sched → ℕ → Sched
after_block s cur = put s cur (record (s.threads cur) { state = ThreadState.wait_pagefault })

module _ (s : Sched) (q : FaultRing) (cpu cur addr code : ℕ) where
  abbrev pub pager : ℕ
  pager = (s.threads cur).pager_tid

  pub fault-queued :
      s.current cpu ≡ some cur
      → pager ≢ 0
      → sched_get_tcb s pager ≡ some pager
      → takes_from ((after_block s cur).threads pager) cur ≡ false
      → (fault_queue_push q (fault_of addr code cur)).0 ≡ true
      → vm_handle_page_fault s q cpu cur addr code
        ≡ FaultEnd.passed_on (after_block s cur) (fault_queue_push q (fault_of addr code cur)).1
  unfolding vm_handle_page_fault
  fault-queued c n g t w =
      rw (ne→== pager 0 n, g, block-put s cpu cur c, t, w, vm_handle_page_fault) refl

  get_tcb-blocked : cur ≢ 0 → cur < max_threads → sched_get_tcb (after_block s cur) cur ≡ some cur
  unfolding sched_get_tcb
  get_tcb-blocked z l =
      let a : (cur == 0) ≡ false = ne→== cur 0 z in
      let b : leb max_threads cur ≡ false = ground (arith, l) in rw (a, b, ==_refl cur) refl

  pager-blocked : ((after_block s cur).threads cur).pager_tid ≡ pager
  pager-blocked = rw (==_refl cur) refl

  popped :
      (next_index q.head == q.tail) ≡ false
      → q.head ≡ q.tail
      → let q1 : FaultRing = record {
        entries = upd q.entries q.head (fault_of addr code cur);
        head = next_index q.head;
        tail = q.tail;
      } in
        (fault_queue_pop q1).0 ≡ some (fault_of addr code cur)
  unfolding fault_queue_pop
  popped room e =
      let here : (q.tail == q.head) ≡ true = ground (arith, e) in
      rw (room, here, fault_queue_pop) refl

  pub queued-take :
      cur ≢ 0
      → cur < max_threads
      → (next_index q.head == q.tail) ≡ false
      → q.head ≡ q.tail
      → let q1 : FaultRing = record {
        entries = upd q.entries q.head (fault_of addr code cur);
        head = next_index q.head;
        tail = q.tail;
      } in
        (vm_take_queued_fault q1 (after_block s cur) pager).0 ≡ some (fault_of addr code cur)
  unfolding vm_take_queued_fault
  queued-take z l room e =
      let first : upd q.entries q.head (fault_of addr code cur) q.tail ≡ fault_of addr code cur =
        rw (sym e, ==_refl q.head) refl in
      let mine : (((after_block s cur).threads cur).pager_tid != pager) ≡ false =
        rw pager-blocked (ground arith) in
      rw (room, first, get_tcb-blocked z l, mine, vm_take_queued_fault) (popped room e)
