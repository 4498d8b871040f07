-- ===== src/Ipc/Queue.antt =====
-- src/core/ipc.c: the queue of the senders that wait for a thread, linked through their `sq_next`.
use robu_microkernel.Base.{ℕ, zero, suc, Bool, ◌&&◌, Option, none, some, ◌!=◌, if◌then◌else◌}
use robu_microkernel.Base.Removal.{is_node}
use robu_microkernel.Sched.Types.{Sched}
use robu_microkernel.Sched.Ready.{put}

unfoldable pub sendq_append : Sched → ℕ → ℕ → Sched
sendq_append s rcv t =
    let s1 = put s t (record (s.threads t) { sq_next = none }) in
    let s2 : Sched = elim ((s1.threads rcv).send_q_tail) [
      | none ↦ put s1 rcv (record (s1.threads rcv) { send_q_head = some t })
      | some l ↦ put s1 l (record (s1.threads l) { sq_next = some t })
    ] in
    put s2 rcv (record (s2.threads rcv) { send_q_tail = some t })

-- The body of the loop of `sendq_take` for the sender that is taken.
unfoldable pub unlink_sender : Sched → ℕ → Option ℕ → ℕ → Sched
unlink_sender s rcv prev t =
    let next = (s.threads t).sq_next in
    let s1 : Sched = elim prev [
      | none ↦ put s rcv (record (s.threads rcv) { send_q_head = next })
      | some p ↦ put s p (record (s.threads p) { sq_next = next })
    ] in
    let s2 =
      if is_node (s1.threads rcv).send_q_tail t
      then put s1 rcv (record (s1.threads rcv) { send_q_tail = prev })
      else s1 in
    put s2 t (record (s2.threads t) { sq_next = none })

-- `filter != IPC_TID_ANY && s->tid != filter`
abbrev pub filtered_out : ℕ → ℕ → Bool
filtered_out filter t = filter != 0 && t != filter

-- The loop of `sendq_take` from a sender on, on fuel: `none` if it runs out, which
-- `SendQueue.sendq_take_lem` excludes.
unfoldable pub take_loop : ℕ → Sched → ℕ → ℕ → Option ℕ → Option ℕ → Option (Option ℕ × Sched)
take_loop fuel s rcv filter prev none = some (none, s)
take_loop zero s rcv filter prev (some t) = none
take_loop (suc fuel) s rcv filter prev (some t) =
    let rest = take_loop fuel s rcv filter (some t) (s.threads t).sq_next in
    if filtered_out filter t then rest else some (some t, unlink_sender s rcv prev t)

unfoldable pub sendq_take : Sched → ℕ → ℕ → Option (Option ℕ × Sched)
unfolding take_loop
sendq_take s rcv filter = take_loop 65 s rcv filter none (s.threads rcv).send_q_head
