-- ===== src/Ipc/Delivery.antt =====
-- Receiving a message whose sender was parked: what arrives, and what becomes of the two threads.
use robu_microkernel.Base.{
  ℕ, ◌≤◌, ◌≡◌, refl, sym, ap, subst, ◌∙◌, ◌≢◌, Bool, false, Option, none, some, List, [], ◌∷◌, ◌==◌,
  ◌!=◌, if◌then◌else◌, arith, length, All, inl, inr, ==_refl, ne→==, Bool-cases, zero, suc,
  some-inj,
}
use robu_microkernel.Base.Chain.{Chain, Chain-frame}
use robu_microkernel.Base.Removal.{is_node}
use robu_microkernel.Status.{Status}
use robu_microkernel.Sched.Types.{Sched, Tcb, Regs, Msg}
use robu_microkernel.Sched.Ready.{put}
use robu_microkernel.Sched.Wake.{sched_wake}
use robu_microkernel.Sched.Wake.Kept.{sched_wake-Kept}
use robu_microkernel.Vm.Map.{ArchVm}
use robu_microkernel.Ipc.{Machine, threads_of, with_threads, no_receive}
use robu_microkernel.Ipc.Queue.{unlink_sender, filtered_out, take_loop, sendq_take}
use robu_microkernel.Ipc.SendQueue.{SendQ, sq_links, first_match, others, sendq_take_lem}
use robu_microkernel.Ipc.Message.{
  received_frame, deliver_to_frame, count_message, set_status, transfer_status, transfer,
  release_sender, complete_parked_sender, receive,
}

-- What a receiver has in its registers after a message came: the six words in r8, r9, r10, r12, r13 and
-- r14, the sender's number in rsi and IPC_ERR_NONE in rax. The other registers are those of `f`.
abbrev pub Received : Regs → Regs → ℕ → (w0 w1 w2 w3 w4 w5 : ℕ) → Type 0
Received f' f from w0 w1 w2 w3 w4 w5 =
    ((f'.r8 ≡ w0) × (f'.r9 ≡ w1) × (f'.r10 ≡ w2) × (f'.r12 ≡ w3) × (f'.r13 ≡ w4) × (f'.r14 ≡ w5))
    × ((f'.rsi ≡ from) × (f'.rax ≡ Status.ok))
    × ((f'.rdi ≡ f.rdi) × (f'.rdx ≡ f.rdx) × (f'.rip ≡ f.rip) × (f'.rsp ≡ f.rsp))

pub received_frame-Received :
    (f' f : Regs) (from : ℕ) (m : Msg)
    → f' ≡ received_frame f from m
    → Received f' f from m.word0 m.word1 m.word2 m.word3 m.word4 m.word5
received_frame-Received f' f from m e =
    rw e ((refl, refl, refl, refl, refl, refl), (refl, refl), (refl, refl, refl, refl))

-- The send queues are the same.
abbrev pub SameQueues : Sched → Sched → Type 0
SameQueues s s' =
    (u : ℕ)
    → ((s'.threads u).sq_next ≡ (s.threads u).sq_next)
      × ((s'.threads u).send_q_head ≡ (s.threads u).send_q_head)
      × ((s'.threads u).send_q_tail ≡ (s.threads u).send_q_tail)

pub SendQ-kept :
    (s s' : Sched) (rcv : ℕ) (ts : List ℕ) → SameQueues s s' → SendQ s rcv ts → SendQ s' rcv ts
SendQ-kept s s' rcv ts same q = record {
  chain =
      subst (λ h. Chain (sq_links s') h ts) (sym (same rcv).1)
        (Chain-frame (sq_links s) (sq_links s') ts (s.threads rcv).send_q_head (all_same ts)
          q.chain);
  tail = (same rcv).2 ∙ q.tail;
  no_dup = q.no_dup;
}
  where
    all_same : (xs : List ℕ) → All (λ y. sq_links s' y ≡ sq_links s y) xs
    all_same [] = tt
    all_same (x ∷ xs) = ((same x).0, all_same xs)

sched_wake-SameQueues : (s : Sched) (cpu t : ℕ) → SameQueues s (sched_wake s cpu t)
sched_wake-SameQueues s cpu t u = let k = sched_wake-Kept s cpu t u in (k.1, k.2, k.3)

release-SameQueues : (s : Sched) (cpu t : ℕ) → SameQueues s (release_sender s cpu t)
unfolding release_sender
release-SameQueues s cpu t u = elim (Bool-cases ((s.threads t).ipc_recv_after != no_receive)) [
  | inl e ↦ rw e (ground arith, ground arith, ground arith)
  | inr e ↦ rw e (sched_wake-SameQueues s cpu t u)
]

release-uctx :
    (s : Sched) (cpu t u : ℕ) → ((release_sender s cpu t).threads u).uctx ≡ (s.threads u).uctx
unfolding release_sender
release-uctx s cpu t u = elim (Bool-cases ((s.threads t).ipc_recv_after != no_receive)) [
  | inl e ↦ rw e (ground arith)
  | inr e ↦ rw e (sched_wake-Kept s cpu t u).0
]

-- The registers and the messages are the same.
abbrev pub SameMessages : Sched → Sched → Type 0
SameMessages s s' =
    (u : ℕ)
    → ((s'.threads u).uctx ≡ (s.threads u).uctx)
      × ((s'.threads u).ipc_buffer ≡ (s.threads u).ipc_buffer)

pub put-SameMessages :
    (s : Sched) (t : ℕ) (r : Tcb)
    → r.uctx ≡ (s.threads t).uctx
    → r.ipc_buffer ≡ (s.threads t).ipc_buffer
    → SameMessages s (put s t r)
put-SameMessages s t r e e' u = elim (Bool-cases (u == t)) [
  | inl q ↦ let same : u ≡ t = ground arith in rw (q, same) (e, e')
  | inr q ↦ rw q (refl, refl)
]

pub SameMessages-then :
    (s s1 s2 : Sched) → SameMessages s s1 → SameMessages s1 s2 → SameMessages s s2
SameMessages-then s s1 s2 a b u = ((b u).0 ∙ (a u).0, (b u).1 ∙ (a u).1)

unlink_rest :
    (s s1 : Sched) (rcv t : ℕ) (prev : Option ℕ)
    → SameMessages s s1
    → let s2 =
        if is_node (s1.threads rcv).send_q_tail t
        then put s1 rcv (record (s1.threads rcv) { send_q_tail = prev })
        else s1 in
      SameMessages s (put s2 t (record (s2.threads t) { sq_next = none }))
unlink_rest s s1 rcv t prev first = elim (Bool-cases (is_node (s1.threads rcv).send_q_tail t)) [
  | inl e ↦
      let s2 = put s1 rcv (record (s1.threads rcv) { send_q_tail = prev }) in
      let second : SameMessages s1 s2 = put-SameMessages s1 rcv _ refl refl in
      let third : SameMessages s2 (put s2 t (record (s2.threads t) { sq_next = none })) =
        put-SameMessages s2 t _ refl refl in
      rw e (
        SameMessages-then s s2 (put s2 t (record (s2.threads t) { sq_next = none }))
          (SameMessages-then s s1 s2 first second) third)
  | inr e ↦
      let third : SameMessages s1 (put s1 t (record (s1.threads t) { sq_next = none })) =
        put-SameMessages s1 t _ refl refl in
      rw e
        (SameMessages-then s s1 (put s1 t (record (s1.threads t) { sq_next = none })) first third)
]

unlink-SameMessages :
    (s : Sched) (rcv t : ℕ) (prev : Option ℕ) → SameMessages s (unlink_sender s rcv prev t)
unfolding unlink_sender
unlink-SameMessages s rcv t none =
    let s1 = put s rcv (record (s.threads rcv) { send_q_head = (s.threads t).sq_next }) in
    let first : SameMessages s s1 = put-SameMessages s rcv _ refl refl in
    unlink_rest s s1 rcv t none first
unlink-SameMessages s rcv t (some p) =
    let s1 = put s p (record (s.threads p) { sq_next = (s.threads t).sq_next }) in
    let first : SameMessages s s1 = put-SameMessages s p _ refl refl in
    unlink_rest s s1 rcv t (some p) first

take_loop-SameMessages :
    (fuel : ℕ) (s : Sched) (rcv filter : ℕ) (prev o found : Option ℕ) (s' : Sched)
    → take_loop fuel s rcv filter prev o ≡ some (found, s')
    → SameMessages s s'
unfolding take_loop
take_loop-SameMessages fuel s rcv filter prev none found s' e u =
    let same : s ≡ s' = ap (λ p. p.1) (some-inj e) in rw same (refl, refl)
take_loop-SameMessages zero s rcv filter prev (some t) found s' e u = absurd (ground arith)
take_loop-SameMessages (suc fuel) s rcv filter prev (some t) found s' e u =
    elim (Bool-cases (filtered_out filter t)) [
      | inl q ↦
          take_loop-SameMessages fuel s rcv filter (some t) (s.threads t).sq_next found s'
            (rw q at e) u
      | inr q ↦
          let same : unlink_sender s rcv prev t ≡ s' = ap (λ p. p.1) (some-inj (rw q at e)) in
          subst (λ x. SameMessages s x) same (unlink-SameMessages s rcv t prev) u
    ]

sendq_take-SameMessages :
    (s : Sched) (rcv filter : ℕ) (found : Option ℕ) (s' : Sched)
    → sendq_take s rcv filter ≡ some (found, s')
    → SameMessages s s'
unfolding sendq_take
sendq_take-SameMessages s rcv filter found s' e =
    take_loop-SameMessages 65 s rcv filter none (s.threads rcv).send_q_head found s' e

-- The two frames are written and the message is counted.
abbrev written : Sched → ℕ → ℕ → Bool → Sched
written s cur t moved =
    count_message
      (set_status (deliver_to_frame s cur t (s.threads t).ipc_buffer) t (transfer_status moved))

written-SameQueues : (s : Sched) (cur t : ℕ) (moved : Bool) → SameQueues s (written s cur t moved)
unfolding deliver_to_frame
written-SameQueues s cur t moved u = (ground arith, ground arith, ground arith)

written-uctx :
    (s : Sched) (cur t : ℕ) (moved : Bool)
    → cur ≢ t
    → (((written s cur t moved).threads cur).uctx
        ≡ received_frame (s.threads cur).uctx t (s.threads t).ipc_buffer)
      × (((written s cur t moved).threads t).uctx
          ≡ record ((s.threads t).uctx) { rax = transfer_status moved })
unfolding deliver_to_frame
written-uctx s cur t moved n =
    let a : (cur == t) ≡ false = ne→== cur t n in
    let b : (t == cur) ≡ false = ne→== t cur (λ e. n (sym e)) in
    rw (==_refl cur, ==_refl t, a, b) (refl, refl)

module _ {M P : Type 0} (arch : ArchVm M) where
  complete-SendQ :
      (k : Machine M P) (cpu cur t : ℕ) (rcv : ℕ) (ts : List ℕ)
      → SendQ (threads_of k) rcv ts
      → SendQ (threads_of (complete_parked_sender arch k cpu cur t)) rcv ts
  unfolding complete_parked_sender
  complete-SendQ k cpu cur t rcv ts q =
      let s = threads_of k in
      let moved = (transfer arch k t cur (s.threads t).ipc_flags (s.threads t).ipc_buffer).0 in
      let s2 = written s cur t moved in
      SendQ-kept s2 (release_sender s2 cpu t) rcv ts (release-SameQueues s2 cpu t)
        (SendQ-kept s s2 rcv ts (written-SameQueues s cur t moved) q)

  complete-uctx :
      (k : Machine M P) (cpu cur t : ℕ)
      → cur ≢ t
      → let s = threads_of k in
        let s' = threads_of (complete_parked_sender arch k cpu cur t) in
        let moved = (transfer arch k t cur (s.threads t).ipc_flags (s.threads t).ipc_buffer).0 in
        ((s'.threads cur).uctx ≡ received_frame (s.threads cur).uctx t (s.threads t).ipc_buffer)
        × ((s'.threads t).uctx ≡ record ((s.threads t).uctx) { rax = transfer_status moved })
  unfolding complete_parked_sender
  complete-uctx k cpu cur t n =
      let s = threads_of k in
      let moved = (transfer arch k t cur (s.threads t).ipc_flags (s.threads t).ipc_buffer).0 in
      let s2 = written s cur t moved in
      let (a, b) = written-uctx s cur t moved n in
      (release-uctx s2 cpu t cur ∙ a, release-uctx s2 cpu t t ∙ b)

  receive-taken :
      (k : Machine M P) (cpu cur filter flags t : ℕ) (s1 : Sched)
      → sendq_take (threads_of k) cur filter ≡ some (some t, s1)
      → receive arch k cpu cur filter flags
        ≡ some (complete_parked_sender arch (with_threads k s1) cpu cur t)
  unfolding receive
  receive-taken k cpu cur filter flags t s1 e = rw (e, receive) refl

  -- If at most 64 senders wait in the receiver's queue, the filter lets some of them through, and the first of
  -- these is another thread than the receiver, then receiving takes it out of the queue and gives the
  -- receiver the six words of its buffer in r8, r9, r10, r12, r13 and r14, its number in rsi and
  -- IPC_ERR_NONE in rax. The other registers of the receiver stay, and so do the sender's but for rax.
  pub receive_lem :
      (k : Machine M P) (cpu cur filter flags t : ℕ) (ts : List ℕ)
      → SendQ (threads_of k) cur ts
      → length ts ≤ 64
      → first_match filter ts ≡ some t
      → cur ≢ t
      → (k' : Machine M P) × (receive arch k cpu cur filter flags ≡ some k')
        × SendQ (threads_of k') cur (others filter ts)
        × (let m = ((threads_of k).threads t).ipc_buffer in
            Received
              ((threads_of k').threads cur).uctx
              ((threads_of k).threads cur).uctx
              t
              m.word0
              m.word1
              m.word2
              m.word3
              m.word4
              m.word5)
        × ((st : Status) × (((threads_of k').threads t).uctx
              ≡ record (((threads_of k).threads t).uctx) { rax = st }))
  receive_lem k cpu cur filter flags t ts q h f n =
      let s = threads_of k in
      let (s1, e, q1) = sendq_take_lem s cur filter ts q h in
      let same = sendq_take-SameMessages s cur filter (first_match filter ts) s1 e in
      let k1 = with_threads k s1 in
      let (a, b) = complete-uctx k1 cpu cur t n in
      let taken : sendq_take s cur filter ≡ some (some t, s1) = rw f at e in
      (
        complete_parked_sender arch k1 cpu cur t,
        receive-taken k cpu cur filter flags t s1 taken,
        complete-SendQ k1 cpu cur t cur (others filter ts) q1,
        received_frame-Received _ (s.threads cur).uctx t (s.threads t).ipc_buffer
            (rw ((same cur).0, (same t).1) at a),
        (
          transfer_status
              (transfer arch k1 t cur (s1.threads t).ipc_flags (s1.threads t).ipc_buffer).0,
          rw (same t).0 at b,
        ),
      )
