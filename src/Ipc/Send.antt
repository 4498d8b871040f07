-- ===== src/Ipc/Send.antt =====
-- src/core/ipc.c: `sys_ipc` for a call with a destination or a wish to receive.
use robu_microkernel.Base.{ℕ, Bool, ◌&&◌, ◌||◌, Option, none, some, leb, ◌==◌, if◌then◌else◌}
use robu_microkernel.Status.{Status}
use robu_microkernel.Sched.Types.{ThreadState, Tcb, Sched, is_wait_recv, is_wait_pagefault}
use robu_microkernel.Sched.Ready.{put}
use robu_microkernel.Sched.Wake.{sched_wake, sched_block, sched_ready_now, sched_direct_switch}
use robu_microkernel.Sched.Table.{sched_get_tcb}
use robu_microkernel.Vm.Map.{ArchVm}
use robu_microkernel.Ipc.{Machine, threads_of, with_threads, flag_recv, no_receive, has_flag}
use robu_microkernel.Ipc.Queue.{sendq_append, sendq_take}
use robu_microkernel.Ipc.Message.{
  payload_from_frame, deliver_to_frame, count_message, set_status, transfer_status, transfer,
  complete_parked_sender, wait_for_message, receive,
}

-- The receiver takes over what is left of the sender's slice and runs at once.
unfoldable pub donate : Sched → ℕ → ℕ → ℕ → Sched
donate s cpu cur dest =
    let s1 =
      put s dest (record (s.threads dest) { timeslice_left = (s.threads cur).timeslice_left }) in
    sched_direct_switch s1 cpu dest

-- Who runs after a message: the receiver, unless it is less urgent than the sender.
unfoldable pub settle : Sched → ℕ → ℕ → ℕ → Sched
unfolding donate
settle s cpu cur dest =
    if leb (s.threads cur).prio (s.threads dest).prio
    then donate (sched_ready_now s cur) cpu cur dest
    else sched_wake s cpu dest

-- The sender waits in the receiver's queue, with its message.
unfoldable pub park : Sched → ℕ → ℕ → ℕ → ℕ → ℕ → Sched
park s cpu cur dest filter flags =
    let r = s.threads cur in
    let parked = record r {
      ipc_buffer = payload_from_frame r.uctx;
      ipc_flags = flags;
      ipc_partner = dest;
      ipc_recv_after = if has_flag flags flag_recv then filter else no_receive;
    } in
    sched_block (sendq_append (put s cur parked) dest cur) cpu ThreadState.wait_send

-- The receiver waits for this sender or for anyone, IPC_TID_ANY being 0.
abbrev pub takes_from : Tcb → ℕ → Bool
takes_from r sender = is_wait_recv r.state && (r.ipc_partner == 0 || r.ipc_partner == sender)

module _ {M P : Type 0} (arch : ArchVm M) where
  -- What the rendezvous does before it is settled who runs: the message and its pages move.
  unfoldable pub hand_over_message : Machine M P → ℕ → ℕ → ℕ → Machine M P
  unfolding deliver_to_frame
  hand_over_message k cur dest flags =
      let s = threads_of k in
      let m = payload_from_frame (s.threads cur).uctx in
      let (moved, memory) = transfer arch k cur dest flags m in
      let s1 = count_message (deliver_to_frame s dest cur m) in
      with_threads (record k { memory = memory }) (set_status s1 cur (transfer_status moved))

  -- The caller also wants to receive, from `filter`.
  unfoldable pub receive_after : Machine M P → ℕ → ℕ → ℕ → ℕ → Option (Machine M P)
  unfolding donate
  receive_after k cpu cur dest filter = elim (sendq_take (threads_of k) cur filter) [
    | none ↦ none
    | some taken ↦
        let (found, s1) = taken in
        some (elim found [
          | none ↦ with_threads k (donate (wait_for_message s1 cpu cur filter) cpu cur dest)
          | some t ↦ complete_parked_sender arch (with_threads k (sched_wake s1 cpu dest)) cpu cur t
        ])
  ]

  unfoldable pub rendezvous : Machine M P → ℕ → ℕ → ℕ → ℕ → ℕ → Option (Machine M P)
  unfolding hand_over_message receive_after settle
  rendezvous k cpu cur dest filter flags =
      let k1 = hand_over_message k cur dest flags in
      let s = threads_of k1 in
      if has_flag flags flag_recv
      then receive_after k1 cpu cur dest filter
      else some (with_threads k1 (settle s cpu cur dest))

  unfoldable pub send : Machine M P → ℕ → ℕ → ℕ → ℕ → ℕ → Option (Machine M P)
  unfolding rendezvous park
  send k cpu cur dest filter flags =
      let s = threads_of k in
      let r = s.threads dest in
      let resumed = with_threads k (set_status (sched_wake s cpu dest) cur Status.ok) in
      if is_wait_pagefault r.state && cur == r.pager_tid
      then if has_flag flags flag_recv
        then receive arch resumed cpu cur filter flags
        else some resumed
      else if takes_from r cur
      then rendezvous k cpu cur dest filter flags
      else some (with_threads k (park s cpu cur dest filter flags))

  unfoldable pub sys_ipc_message : Machine M P → ℕ → ℕ → ℕ → ℕ → ℕ → Option (Machine M P)
  unfolding send
  sys_ipc_message k cpu cur dest_tid filter flags =
      let s = threads_of k in
      let refuse = some (with_threads k (set_status s cur Status.not_found)) in
      if dest_tid == 0
      then receive arch k cpu cur filter flags
      else elim (sched_get_tcb s dest_tid) [
        | none ↦ refuse
        | some dest ↦ if dest == cur then refuse else send k cpu cur dest filter flags
      ]
