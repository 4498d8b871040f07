-- ===== src/Ipc/FaultTaken.antt =====
-- A page fault of src/core/vm.c that waits for its pager, and the receive of src/core/ipc.c that takes it.
use robu_microkernel.Base.{
  ℕ, ◌≤◌, ◌≡◌, ◌≢◌, ◌<◌, refl, ap, ◌∙◌, true, false, none, some, List, ◌==◌, arith, length, ==_refl,
}
use robu_microkernel.Base.Chain.{upd}
use robu_microkernel.Status.{Status}
use robu_microkernel.Sched.Types.{Sched, ThreadState, max_threads}
use robu_microkernel.Sched.Table.{sched_get_tcb}
use robu_microkernel.Vm.{FaultMsg, FaultRing, fault_queue_push, next_index}
use robu_microkernel.Vm.Map.{ArchVm}
use robu_microkernel.Ipc.{Machine, threads_of, with_threads}
use robu_microkernel.Ipc.Queue.{sendq_take}
use robu_microkernel.Ipc.SendQueue.{SendQ, first_match, sendq_take_lem}
use robu_microkernel.Ipc.Message.{
  fault_frame, put_frame, vm_take_queued_fault, receive_other, receive,
}
use robu_microkernel.Ipc.Delivery.{SendQ-kept}
use robu_microkernel.Ipc.Send.{takes_from}
use robu_microkernel.Ipc.Fault.{
  FaultEnd, after_block, fault_of, fault-queued, queued-take, vm_handle_page_fault,
}

module _ {M P : Type 0} (arch : ArchVm M) (k : Machine M P) (cpu rcv filter flags : ℕ) where
  receive-other :
      (ts : List ℕ)
      → SendQ (threads_of k) rcv ts
      → length ts ≤ 64
      → first_match filter ts ≡ none
      → receive arch k cpu rcv filter flags ≡ some (receive_other arch k cpu rcv filter flags)
  unfolding receive
  receive-other ts q h f =
      let (s1, e, _) = sendq_take_lem (threads_of k) rcv filter ts q h in
      let nobody : sendq_take (threads_of k) rcv filter ≡ some (none, s1) = rw f at e in
      rw (nobody, receive) refl

  receive_other-fault :
      (fault : FaultMsg)
      → (vm_take_queued_fault k.faults (threads_of k) rcv).0 ≡ some fault
      → threads_of (receive_other arch k cpu rcv filter flags)
        ≡ put_frame (threads_of k) rcv (fault_frame ((threads_of k).threads rcv).uctx fault)
  unfolding receive_other
  receive_other-fault fault e = rw (e, receive_other) refl

-- A thread of the table that runs has a page fault, its pager is a thread of the table that does not wait
-- for a message from it, and no other fault waits. Then the thread waits, and if the pager receives in the state right after, with at most 64
-- senders in its queue, none of which its filter lets through, it has the address of the fault in r8,
-- its code in r9, the thread in r10 and rsi, and IPC_ERR_NONE in rax; its other registers stay.
pub vm_handle_page_fault-receive :
    {M P : Type 0} (arch : ArchVm M) (k : Machine M P) (cpu cpu' cur addr code filter flags : ℕ)
    (ts : List ℕ)
    → (threads_of k).current cpu ≡ some cur
    → cur ≢ 0
    → cur < max_threads
    → let s = threads_of k in
      let p = (s.threads cur).pager_tid in
      p ≢ 0
      → sched_get_tcb s p ≡ some p
      → takes_from ((after_block s cur).threads p) cur ≡ false
      → k.faults.head ≡ k.faults.tail
      → k.faults.head < 16
      → SendQ s p ts
      → length ts ≤ 64
      → first_match filter ts ≡ none
      → (s' : Sched) × (q' : FaultRing) × (k' : Machine M P) × (vm_handle_page_fault s k.faults cpu
            cur addr code
          ≡ FaultEnd.passed_on s' q')
        × ((s'.threads cur).state ≡ ThreadState.wait_pagefault)
        × (receive arch (with_threads (record k { faults = q' }) s') cpu' p filter flags ≡ some k')
        × (let f = (s.threads p).uctx in
            let f' = ((threads_of k').threads p).uctx in
            ((f'.r8 ≡ addr)
              × (f'.r9 ≡ code)
              × (f'.r10 ≡ cur)
              × (f'.rsi ≡ cur)
              × (f'.rax ≡ Status.ok))
            × ((f'.r12 ≡ f.r12)
                × (f'.r13 ≡ f.r13)
                × (f'.r14 ≡ f.r14)
                × (f'.rdi ≡ f.rdi)
                × (f'.rdx ≡ f.rdx)
                × (f'.rip ≡ f.rip)
                × (f'.rsp ≡ f.rsp)))
unfolding fault_queue_push
vm_handle_page_fault-receive arch k cpu cpu' cur addr code filter flags ts c z l n g t e h q len
      none_fits =
    let s = threads_of k in
    let p = (s.threads cur).pager_tid in
    let s1 = after_block s cur in
    let fault = fault_of addr code cur in
    let room : (next_index k.faults.head == k.faults.tail) ≡ false = ground (arith, e) in
    let accepted : (fault_queue_push k.faults fault).0 ≡ true = rw room refl in
    let q1 : FaultRing = record {
      entries = upd k.faults.entries k.faults.head fault;
      head = next_index k.faults.head;
      tail = k.faults.tail;
    } in
    let queued : (fault_queue_push k.faults fault).1 ≡ q1 = rw room refl in
    let k1 = with_threads (record k { faults = q1 }) s1 in
    let senders : SendQ s1 p ts =
      SendQ-kept s s1 p ts (λ u. (ground arith, ground arith, ground arith)) q in
    let got =
      receive_other-fault arch k1 cpu' p filter flags fault
        (queued-take s k.faults cpu cur addr code z l room e) in
    let same : (s1.threads p).uctx ≡ (s.threads p).uctx = ground arith in
    (
      s1,
      q1,
      receive_other arch k1 cpu' p filter flags,
      fault-queued s k.faults cpu cur addr code c n g t accepted
          ∙ ap (λ x. FaultEnd.passed_on s1 x) queued,
      rw (==_refl cur) refl,
      receive-other arch k1 cpu' p filter flags ts senders len none_fits,
      rw (got, ==_refl p, same)
          ((refl, refl, refl, refl, refl), (refl, refl, refl, refl, refl, refl, refl)),
    )
