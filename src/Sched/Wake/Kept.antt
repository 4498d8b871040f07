-- ===== src/Sched/Wake/Kept.antt =====
-- What waking a thread leaves alone: the registers, the messages and the send queues of every thread.
use robu_microkernel.Base.{ℕ, ◌≡◌, refl, ap, ◌||◌, ◌&&◌, arith, Bool-cases, inl, inr}
use robu_microkernel.Sched.Types.{Sched, Tcb, max_cpus, is_dead, is_running, is_zombie, is_ready}
use robu_microkernel.Sched.Wake.{kick_cpus, wake_ready, sched_wake}
use robu_microkernel.Sched.Wake.Deadline.{kick_cpus-threads}

abbrev pub Kept : Sched → Sched → ℕ → Type 0
Kept s s' u =
    let r = s.threads u in
    let r' = s'.threads u in
    (r'.uctx ≡ r.uctx)
    × (r'.sq_next ≡ r.sq_next)
    × (r'.send_q_head ≡ r.send_q_head)
    × (r'.send_q_tail ≡ r.send_q_tail)
    × (r'.execreq_slot ≡ r.execreq_slot)
    × (r'.ipc_buffer ≡ r.ipc_buffer)
    × (r'.ipc_flags ≡ r.ipc_flags)
    × (r'.ipc_recv_after ≡ r.ipc_recv_after)
    × (r'.ipc_partner ≡ r.ipc_partner)
    × (r'.sig_pending ≡ r.sig_pending)

wake_ready-Kept : (s : Sched) (cpu t u : ℕ) → Kept s (wake_ready s cpu t) u
unfolding wake_ready
wake_ready-Kept s cpu t u = (
  ground arith,
  ground arith,
  ground arith,
  ground arith,
  ground arith,
  ground arith,
  ground arith,
  ground arith,
  ground arith,
  ground arith,
)

pub sched_wake-Kept : (s : Sched) (cpu t u : ℕ) → Kept s (sched_wake s cpu t) u
unfolding sched_wake
sched_wake-Kept s cpu t u =
    let e : (kick_cpus max_cpus 0 (wake_ready s cpu t) cpu t).threads u
        ≡ (wake_ready s cpu t).threads u =
      ap (λ (f : ℕ → Tcb). f u) (kick_cpus-threads max_cpus 0 (wake_ready s cpu t) cpu t) in
    let kicked : Kept s (kick_cpus max_cpus 0 (wake_ready s cpu t) cpu t) u =
      rw e (wake_ready-Kept s cpu t u) in
    elim (Bool-cases (
      is_dead (s.threads t).state
      || is_running (s.threads t).state
      || is_zombie (s.threads t).state)) [
        | inl d ↦ rw d (refl, refl, refl, refl, refl, refl, refl, refl, refl, refl)
        | inr d ↦ elim (Bool-cases (is_ready (s.threads t).state && (s.threads t).in_ready_q)) [
          | inl q ↦ rw (d, q) (refl, refl, refl, refl, refl, refl, refl, refl, refl, refl)
          | inr q ↦ rw (d, q) kicked
        ]
      ]
