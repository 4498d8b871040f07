-- ===== src/Ipc/Park.antt =====
-- A message that is sent to a busy thread, which then receives.
use robu_microkernel.Base.{
  ℕ, ◌≤◌, ◌<◌, ◌≡◌, refl, sym, ap, subst, ◌∙◌, ◌≢◌, Option, none, some, List, [], ◌∷◌, ◌++◌,
  if◌then◌else◌, arith, length, length-append, inl, inr, ==_refl, Option-cases,
}
use robu_microkernel.Base.Chain.{NotIn}
use robu_microkernel.Sched.Types.{Sched, ThreadState}
use robu_microkernel.Sched.Ready.{put}
use robu_microkernel.Sched.Wake.{sched_block}
use robu_microkernel.Vm.Map.{ArchVm}
use robu_microkernel.Ipc.{Machine, threads_of, with_threads, has_flag, flag_recv, no_receive}
use robu_microkernel.Ipc.Queue.{sendq_append}
use robu_microkernel.Ipc.SendQueue.{SendQ, first_match, others, sendq_append-SendQ}
use robu_microkernel.Ipc.Message.{payload_from_frame, receive}
use robu_microkernel.Ipc.Send.{park}
use robu_microkernel.Ipc.Delivery.{
  SameQueues, SendQ-kept, SameMessages, put-SameMessages, SameMessages-then, Received, receive_lem,
}

append-SameMessages : (s : Sched) (rcv t : ℕ) → SameMessages s (sendq_append s rcv t)
unfolding sendq_append
append-SameMessages s rcv t =
    let s1 = put s t (record (s.threads t) { sq_next = none }) in
    let first : SameMessages s s1 =
      put-SameMessages s t (record (s.threads t) { sq_next = none }) refl refl in
    elim (Option-cases (s1.threads rcv).send_q_tail) [
      | inl e ↦
          let s2 = put s1 rcv (record (s1.threads rcv) { send_q_head = some t }) in
          let s3 = put s2 rcv (record (s2.threads rcv) { send_q_tail = some t }) in
          let second : SameMessages s1 s2 =
            put-SameMessages s1 rcv (record (s1.threads rcv) { send_q_head = some t }) refl refl in
          let third : SameMessages s2 s3 =
            put-SameMessages s2 rcv (record (s2.threads rcv) { send_q_tail = some t }) refl refl in
          rw e (SameMessages-then s s2 s3 (SameMessages-then s s1 s2 first second) third)
      | inr (l, e) ↦
          let s2 = put s1 l (record (s1.threads l) { sq_next = some t }) in
          let s3 = put s2 rcv (record (s2.threads rcv) { send_q_tail = some t }) in
          let second : SameMessages s1 s2 =
            put-SameMessages s1 l (record (s1.threads l) { sq_next = some t }) refl refl in
          let third : SameMessages s2 s3 =
            put-SameMessages s2 rcv (record (s2.threads rcv) { send_q_tail = some t }) refl refl in
          rw e (SameMessages-then s s2 s3 (SameMessages-then s s1 s2 first second) third)
    ]

module _ (s : Sched) (cpu cur dest filter flags : ℕ) where
  abbrev loaded : Sched
  loaded =
      let r = s.threads cur in
      put s cur (record r {
        ipc_buffer = payload_from_frame r.uctx;
        ipc_flags = flags;
        ipc_partner = dest;
        ipc_recv_after = if has_flag flags flag_recv then filter else no_receive;
      })

  loaded-fields :
      SameQueues s loaded
      × ((u : ℕ) → (loaded.threads u).uctx ≡ (s.threads u).uctx)
      × ((loaded.threads cur).ipc_buffer ≡ payload_from_frame (s.threads cur).uctx)
      × (loaded.current ≡ s.current)
  loaded-fields = (
    λ u. (ground arith, ground arith, ground arith),
    λ u. ground arith,
    rw (==_refl cur) refl,
    refl,
  )

  append-current : (sendq_append loaded dest cur).current ≡ s.current
  unfolding sendq_append
  append-current =
      elim (Option-cases
        ((put loaded cur (record (loaded.threads cur) { sq_next = none })).threads
          dest).send_q_tail) [ inl e ↦ rw e refl | inr (l, e) ↦ rw e refl ]

  block-put :
      (x : Sched)
      → x.current cpu ≡ some cur
      → sched_block x cpu ThreadState.wait_send
        ≡ put x cur (record (x.threads cur) { state = ThreadState.wait_send })
  unfolding sched_block
  block-put x c = rw (c, sched_block) refl

  block-fields :
      (x : Sched)
      → x.current cpu ≡ some cur
      → SameQueues x (sched_block x cpu ThreadState.wait_send)
        × SameMessages x (sched_block x cpu ThreadState.wait_send)
        × (((sched_block x cpu ThreadState.wait_send).threads cur).state ≡ ThreadState.wait_send)
  block-fields x c =
      let blocked = put x cur (record (x.threads cur) { state = ThreadState.wait_send }) in
      subst
        (λ y. SameQueues x y × SameMessages x y × ((y.threads cur).state ≡ ThreadState.wait_send))
        (sym (block-put x c))
        (
          λ u. (ground arith, ground arith, ground arith),
          put-SameMessages x cur (record (x.threads cur) { state = ThreadState.wait_send }) refl
              refl,
          rw (==_refl cur) refl,
        )

  -- A thread that sends to a busy thread comes to the end of its queue, with its six words kept, and
  -- blocks; no register of any thread changes.
  pub park_lem :
      (ts : List ℕ)
      → s.current cpu ≡ some cur
      → SendQ s dest ts
      → NotIn cur ts
      → let s' = park s cpu cur dest filter flags in
        SendQ s' dest (ts ++ cur ∷ [])
        × ((s'.threads cur).ipc_buffer ≡ payload_from_frame (s.threads cur).uctx)
        × ((s'.threads cur).state ≡ ThreadState.wait_send)
        × ((u : ℕ) → (s'.threads u).uctx ≡ (s.threads u).uctx)
  unfolding park
  park_lem ts c q n =
      let (lq, lu, lb, lc) = loaded-fields in
      let x = sendq_append loaded dest cur in
      let on : x.current cpu ≡ some cur = ap (λ (f : ℕ → Option ℕ). f cpu) append-current ∙ c in
      let (bq, bm, bs) = block-fields x on in
      let am = append-SameMessages loaded dest cur in
      let queued = sendq_append-SendQ loaded dest cur ts (SendQ-kept s loaded dest ts lq q) n in
      (
        SendQ-kept x (sched_block x cpu ThreadState.wait_send) dest (ts ++ cur ∷ []) bq queued,
        (bm cur).1 ∙ (am cur).1 ∙ lb,
        bs,
        λ u. (bm u).0 ∙ (am u).0 ∙ lu u,
      )

-- If `cur`, which runs on its CPU, parks in the queue of another thread `dest`, in which it does not stand yet
-- and fewer than 64 senders wait, and `dest` receives in the state right after, with a filter that lets `cur`
-- through as the first of those that wait, then `dest` has in r8, r9, r10, r12, r13 and r14 what `cur` had
-- there when it parked, the number of `cur` in rsi and IPC_ERR_NONE in rax, its other registers stay,
-- and `cur` is in the queue no more.
pub park-receive :
    {M P : Type 0} (arch : ArchVm M) (k : Machine M P) (cpu cpu' cur dest : ℕ)
    (filter flags filter' flags' : ℕ) (ts : List ℕ)
    → (threads_of k).current cpu ≡ some cur
    → SendQ (threads_of k) dest ts
    → NotIn cur ts
    → length ts < 64
    → first_match filter' (ts ++ cur ∷ []) ≡ some cur
    → dest ≢ cur
    → let parked = with_threads k (park (threads_of k) cpu cur dest filter flags) in
      (k' : Machine M P) × (receive arch parked cpu' dest filter' flags' ≡ some k')
      × SendQ (threads_of k') dest (others filter' (ts ++ cur ∷ []))
      × (let sent = ((threads_of k).threads cur).uctx in
          Received
            ((threads_of k').threads dest).uctx
            ((threads_of k).threads dest).uctx
            cur
            sent.r8
            sent.r9
            sent.r10
            sent.r12
            sent.r13
            sent.r14)
park-receive arch k cpu cpu' cur dest filter flags filter' flags' ts c q n h f d =
    let s = threads_of k in
    let parked = with_threads k (park s cpu cur dest filter flags) in
    let (q1, buffer, _, frames) = park_lem s cpu cur dest filter flags ts c q n in
    let short : length (ts ++ cur ∷ []) ≤ 64 = omega (arith, length-append ts (cur ∷ [])) in
    let (k', e, q2, got, _) =
      receive_lem arch parked cpu' dest filter' flags' cur (ts ++ cur ∷ []) q1 short f d in
    (k', e, q2, rw (frames dest, buffer) at got)
