-- ===== src/Ipc/Message.antt =====
-- src/core/ipc.c: sending and receiving, the part of `sys_ipc` for a call with a destination or a wish to
-- receive. `none` stands for a walk along a send queue that does not end.
use robu_microkernel.Base.{
  ℕ, ◌/◌, ◌%◌, Bool, true, false, List, Option, none, some, ◌==◌, ◌!=◌, if◌then◌else◌,
}
use robu_microkernel.Base.Words.{u32, add64}
use robu_microkernel.Base.Bytes.{word_of}
use robu_microkernel.Status.{Status}
use robu_microkernel.Sched.Types.{ThreadState, Sched, Regs, Msg}
use robu_microkernel.Sched.Ready.{put}
use robu_microkernel.Sched.Wake.{sched_wake, sched_block}
use robu_microkernel.Sched.Table.{sched_get_tcb}
use robu_microkernel.Vm.{FaultMsg, FaultRing, fault_queue_pop, fault_queue_empty}
use robu_microkernel.Vm.Map.{ArchVm, MapMsg, XferMsg, vm_batch_map, vm_xfer_pages, vm_share_pages}
use robu_microkernel.Execreq.{execreq_try_deliver_queued, vfs_op_read_bulk}
use robu_microkernel.Ipc.{
  Machine, threads_of, with_threads, flag_map, flag_xfer, flag_share, flag_noblock, no_receive,
  has_flag,
}
use robu_microkernel.Ipc.Queue.{sendq_take}

abbrev pub payload_from_frame : Regs → Msg
payload_from_frame f = record {
  word0 = f.r8;
  word1 = f.r9;
  word2 = f.r10;
  word3 = f.r12;
  word4 = f.r13;
  word5 = f.r14;
}

abbrev pub payload_to_frame : Regs → Msg → Regs
payload_to_frame f m = record f {
  r8 = m.word0;
  r9 = m.word1;
  r10 = m.word2;
  r12 = m.word3;
  r13 = m.word4;
  r14 = m.word5;
}

-- The frame after a message from `from` came.
abbrev pub received_frame : Regs → ℕ → Msg → Regs
received_frame f from m = record (payload_to_frame f m) { rsi = from; rax = Status.ok }

abbrev pub put_frame : Sched → ℕ → Regs → Sched
put_frame s t f = put s t (record (s.threads t) { uctx = f })

unfoldable pub deliver_to_frame : Sched → ℕ → ℕ → Msg → Sched
deliver_to_frame s rcv from m = put_frame s rcv (received_frame (s.threads rcv).uctx from m)

-- A message read as a `vm_map_msg_t` or a `vm_xfer_msg_t`: the third word holds two of 32 bits.
abbrev pub map_msg_of : Msg → MapMsg
map_msg_of m = record {
  vaddr = m.word0;
  paddr = m.word1;
  flags = m.word2 % u32;
  count = m.word2 / u32;
}

abbrev pub xfer_msg_of : Msg → XferMsg
xfer_msg_of m = record {
  src_vaddr = m.word0;
  dst_vaddr = m.word1;
  flags = m.word2 % u32;
  count = m.word2 / u32;
}

abbrev pub count_message : Sched → Sched
count_message s = record s { stats = record (s.stats) { ipc_msgs = add64 s.stats.ipc_msgs 1 } }

abbrev pub set_status : Sched → ℕ → Status → Sched
set_status s t status = put_frame s t (record ((s.threads t).uctx) { rax = status })

abbrev pub transfer_status : Bool → Status
transfer_status true = Status.ok
transfer_status false = Status.no_cap

-- What the caller gets for a page fault: its address, its code and the thread.
abbrev pub fault_frame : Regs → FaultMsg → Regs
fault_frame f fault = record f {
  r8 = fault.fault_address;
  r9 = fault.error_code;
  r10 = fault.faulting_thread;
  rsi = fault.faulting_thread;
  rax = Status.ok;
}

-- What the file system's server gets for a request to load a program.
abbrev pub request_frame : Regs → ℕ → ℕ → List ℕ → Regs
request_frame f slot generation name = record f {
  r8 = vfs_op_read_bulk;
  r9 = slot;
  r10 = generation;
  r12 = word_of 0 name;
  r13 = word_of 1 name;
  r14 = word_of 2 name;
  rsi = 0;
  rax = Status.ok;
}

-- The name that the server gets holds 24 bytes and the 0.
abbrev pub name_max : ℕ
name_max = 25

-- `vm_take_queued_fault`
unfoldable pub vm_take_queued_fault : FaultRing → Sched → ℕ → Option FaultMsg × FaultRing
vm_take_queued_fault q s rcv =
    let head = q.entries q.tail in
    let (fault, q1) = fault_queue_pop q in
    if fault_queue_empty q then (none, q) else elim (sched_get_tcb s head.faulting_thread) [
      | none ↦ (none, q)
      | some faulter ↦ if (s.threads faulter).pager_tid != rcv then (none, q) else (fault, q1)
    ]

-- The sender `t` was parked: it goes on, or it waits for an answer if it wanted one.
unfoldable pub release_sender : Sched → ℕ → ℕ → Sched
release_sender s cpu t =
    let r = s.threads t in
    let waits = record r {
      ipc_partner = r.ipc_recv_after;
      ipc_recv_after = no_receive;
      state = ThreadState.wait_recv;
    } in
    if r.ipc_recv_after != no_receive then put s t waits else sched_wake s cpu t

-- The caller blocks until a message from `filter` comes.
unfoldable pub wait_for_message : Sched → ℕ → ℕ → ℕ → Sched
wait_for_message s cpu cur filter =
    sched_block (put s cur (record (s.threads cur) { ipc_partner = filter })) cpu
      ThreadState.wait_recv

module _ {M P : Type 0} (arch : ArchVm M) where
  -- The pages that go with a message from `sender` to `receiver`.
  unfoldable pub transfer : Machine M P → ℕ → ℕ → ℕ → Msg → Bool × M
  transfer k sender receiver flags m =
      let from = ((threads_of k).threads sender).address_space in
      let to = ((threads_of k).threads receiver).address_space in
      if has_flag flags flag_map
      then vm_batch_map arch k.memory k.frames to sender (map_msg_of m)
      else if has_flag flags flag_xfer
      then vm_xfer_pages arch k.memory from to (xfer_msg_of m)
      else if has_flag flags flag_share
      then vm_share_pages arch k.memory from to (xfer_msg_of m)
      else (true, k.memory)

  unfoldable pub complete_parked_sender : Machine M P → ℕ → ℕ → ℕ → Machine M P
  unfolding transfer deliver_to_frame release_sender
  complete_parked_sender k cpu cur t =
      let s = threads_of k in
      let r = s.threads t in
      let (moved, memory) = transfer k t cur r.ipc_flags r.ipc_buffer in
      let s1 = deliver_to_frame s cur t r.ipc_buffer in
      let s2 = count_message (set_status s1 t (transfer_status moved)) in
      with_threads (record k { memory = memory }) (release_sender s2 cpu t)

  -- The receiving part of `sys_ipc` when no sender waits: a page fault, a request for the file system's
  -- server, or the caller blocks.
  unfoldable pub receive_other : Machine M P → ℕ → ℕ → ℕ → ℕ → Machine M P
  unfolding vm_take_queued_fault wait_for_message
  receive_other k cpu cur filter flags =
      let s = threads_of k in
      let f = (s.threads cur).uctx in
      let (fault, faults) = vm_take_queued_fault k.faults s cur in
      let (request, exec) = execreq_try_deliver_queued k.exec name_max in
      let idle =
        if has_flag flags flag_noblock
        then with_threads k (set_status s cur Status.would_block)
        else with_threads k (wait_for_message s cpu cur filter) in
      elim fault [
        | some m ↦ with_threads (record k { faults = faults }) (put_frame s cur (fault_frame f m))
        | none ↦
            if cur == k.exec.ext2fs_tid
            then elim request [
              | none ↦ idle
              | some r ↦
                  let (slot, generation, name) = r in
                  with_threads (record k { exec = exec })
                    (put_frame exec.sched cur (request_frame f slot generation name))
            ]
            else idle
      ]

  unfoldable pub receive : Machine M P → ℕ → ℕ → ℕ → ℕ → Option (Machine M P)
  unfolding complete_parked_sender receive_other
  receive k cpu cur filter flags = elim (sendq_take (threads_of k) cur filter) [
    | none ↦ none
    | some taken ↦
        let (found, s1) = taken in
        some (elim found [
          | none ↦ receive_other k cpu cur filter flags
          | some t ↦ complete_parked_sender (with_threads k s1) cpu cur t
        ])
  ]
