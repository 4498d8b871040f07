-- ===== src/Signal/Send.antt =====
-- Sending a signal.
use Prim.Native.Nat.{bit_or}
use robu_microkernel.Base.{
  ℕ, ◌-◌, ◌≡◌, ◌≤◌, ◌<◌, refl, ap, ◌∙◌, true, false, ◌||◌, some, ◌==◌, leb, arith, inl, inr,
  Bool-cases, ==_refl,
}
use robu_microkernel.Base.Bits.{bit, bit-added_self}
use robu_microkernel.Sched.Types.{Sched, ThreadState, is_running, is_dead, is_zombie}
use robu_microkernel.Sched.Ready.{put}
use robu_microkernel.Sched.Wake.{sched_wake}
use robu_microkernel.Sched.Wake.Deadline.{sched_wake-state}
use robu_microkernel.Sched.Wake.Kept.{sched_wake-Kept}
use robu_microkernel.Sched.Table.{sched_get_tcb}
use robu_microkernel.Signal.{nsig, sig_bit, sig_send}
use robu_microkernel.Ipc.Delivery.{SameQueues}

get_tcb-alive :
    (s : Sched) (t : ℕ)
    → sched_get_tcb s t ≡ some t
    → (is_dead (s.threads t).state || is_zombie (s.threads t).state) ≡ false
unfolding sched_get_tcb
get_tcb-alive s t e =
    elim (Bool-cases (is_dead (s.threads t).state || is_zombie (s.threads t).state)) [
      | inl h ↦ absurd (ground (arith, e, h))
      | inr h ↦ h
    ]

sig_send-woken :
    (s : Sched) (cpu t signum : ℕ)
    → 1 ≤ signum
    → signum < nsig
    → sched_get_tcb s t ≡ some t
    → let r = s.threads t in
      sig_send s cpu t signum ≡ (
        true,
        sched_wake
            (put s t (record r { sig_pending = bit_or r.sig_pending (sig_bit signum) }))
            cpu
            t,
      )
unfolding sig_send
sig_send-woken s cpu t signum a b e =
    let inside : (signum == 0 || leb nsig signum) ≡ false = ground arith in
    rw (e, inside, get_tcb-alive s t e, sig_send) refl

-- A signal from 1 to 63 for a thread that lives and does not run becomes pending, and the thread becomes
-- ready, whatever it waited for. The send queues stay as they are, so a thread that waits in one for its
-- message to be taken becomes ready and is still in it.
pub sig_send_lem :
    (s : Sched) (cpu t signum : ℕ)
    → 1 ≤ signum
    → signum < nsig
    → sched_get_tcb s t ≡ some t
    → is_running (s.threads t).state ≡ false
    → let (sent, s') = sig_send s cpu t signum in
      (sent ≡ true)
      × ((s'.threads t).state ≡ ThreadState.ready)
      × (bit (signum - 1) (s'.threads t).sig_pending ≡ 1)
      × SameQueues s s'
sig_send_lem s cpu t signum a b e n =
    let r = s.threads t in
    let s1 = put s t (record r { sig_pending = bit_or r.sig_pending (sig_bit signum) }) in
    let st : (s1.threads t).state ≡ r.state = rw (==_refl t) refl in
    let pending : (s1.threads t).sig_pending ≡ bit_or r.sig_pending (sig_bit signum) =
      rw (==_refl t) refl in
    let alive : (is_dead r.state || is_running r.state || is_zombie r.state) ≡ false =
      ground (arith, get_tcb-alive s t e, n) in
    let woken = (sched_wake-state s1 cpu t t).0 in
    let kept = sched_wake-Kept s1 cpu t t in
    rw (sig_send-woken s cpu t signum a b e) (
      refl,
      rw (st, ==_refl t, alive) at woken,
      ap (bit (signum - 1)) (kept.9 ∙ pending) ∙ bit-added_self (signum - 1) r.sig_pending,
      λ u.
          let k = sched_wake-Kept s1 cpu t u in
          (k.1 ∙ ground arith, k.2 ∙ ground arith, k.3 ∙ ground arith),
    )
