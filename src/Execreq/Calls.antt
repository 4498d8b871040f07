-- ===== src/Execreq/Calls.antt =====
-- src/core/execreq.c: a run of calls, and what it does to the generations.
use native.Mathlib.Decide.{ℕ_discrete}
use robu_microkernel.Base.{
  ℕ, zero, suc, ◌+◌, ◌≡◌, refl, sym, ◌∙◌, ◌≢◌, ◌<◌, List, [], ◌∷◌, none, arith, inl, inr,
  Bool-cases, Option-cases, ==_refl, ne→==,
}
use robu_microkernel.Base.Chain.{upd}
use robu_microkernel.Status.{Status}
use robu_microkernel.Sched.Types.{ThreadState}
use robu_microkernel.Sched.Ready.{put}
use robu_microkernel.Sched.Wake.{sched_block}
use robu_microkernel.Execreq.{
  Exec, ExecParams, Loader, Slot, SlotState, alloc_slot, execreq_finish_poll_spawn, execreq_submit,
  execreq_submit_poll, execreq_try_deliver_queued, find_server, free_slot, inject_request, is_empty,
  max_slots, put_slot, takes_requests,
}
use robu_microkernel.Execreq.Reply.{
  execreq_cancel_requester, execreq_complete, execreq_fail_all, fail_from, fail_slot,
  waiting_requester,
}
use robu_microkernel.Execreq.Moves.{
  Moves, Moves-same, alloc_slot-not_done, cancel-Moves, complete-Moves, deliver_from-Moves,
  finish-Moves, not_done-Moves, upd-Moves, upd_twice-Moves,
}

submit-Moves :
    {P : Type 0} (e : Exec P) (cpu cur : ℕ) (params : ExecParams P) (j : ℕ)
    → Moves (e.slots j) ((execreq_submit e cpu cur params).1.slots j)
unfolding execreq_submit inject_request
submit-Moves {P} e cpu cur params j = elim (Option-cases (find_server e)) [
  | inl n ↦ rw (n, execreq_submit) (Moves-same (e.slots j))
  | inr (server, n) ↦ elim (Option-cases (alloc_slot e)) [
    | inl a ↦ rw (n, a, execreq_submit) (Moves-same (e.slots j))
    | inr (i, a) ↦
        let e1 = put_slot e i (record (e.slots i) { params = params; state = SlotState.queued }) in
        let s1 = put e1.sched cur (record (e1.sched.threads cur) { execreq_slot = i }) in
        let e2 : Exec P = record e1 { sched = sched_block s1 cpu ThreadState.wait_execreq } in
        let queued : Slot P = record (e.slots i) { params = params; state = SlotState.queued } in
        let free = alloc_slot-not_done e i a in
        elim (Bool-cases (takes_requests e2 server)) [
          | inl t ↦
              rw (n, a, t, execreq_submit)
                (upd_twice-Moves e.slots i j queued
                  (record (upd e.slots i queued i) { state = SlotState.delivered })
                  (not_done-Moves (e.slots i)
                    (record (upd e.slots i queued i) { state = SlotState.delivered })
                    (rw (==_refl i) refl) free))
          | inr t ↦
              rw (n, a, t, execreq_submit)
                (upd-Moves e.slots i j queued (not_done-Moves (e.slots i) queued refl free))
        ]
  ]
]

submit_poll-Moves :
    {P : Type 0} (e : Exec P) (cpu : ℕ) (params : ExecParams P) (j : ℕ)
    → Moves (e.slots j) ((execreq_submit_poll e cpu params).1.slots j)
unfolding execreq_submit_poll inject_request
submit_poll-Moves {P} e cpu params j = elim (Option-cases (find_server e)) [
  | inl n ↦ rw (n, execreq_submit_poll) (Moves-same (e.slots j))
  | inr (server, n) ↦ elim (Option-cases (alloc_slot e)) [
    | inl a ↦ rw (n, a, execreq_submit_poll) (Moves-same (e.slots j))
    | inr (i, a) ↦
        let queued : Slot P = record (e.slots i) {
          params = record params { requester_tid = 0 };
          poll_child = none;
          state = SlotState.queued;
        } in
        let free = alloc_slot-not_done e i a in
        elim (Bool-cases (takes_requests e server)) [
          | inl t ↦
              rw (n, a, t, execreq_submit_poll)
                (upd_twice-Moves e.slots i j queued
                  (record (upd e.slots i queued i) { state = SlotState.delivered })
                  (not_done-Moves (e.slots i)
                    (record (upd e.slots i queued i) { state = SlotState.delivered })
                    (rw (==_refl i) refl) free))
          | inr t ↦
              rw (n, a, t, execreq_submit_poll)
                (upd-Moves e.slots i j queued (not_done-Moves (e.slots i) queued refl free))
        ]
  ]
]

fail_slot-Moves :
    {P : Type 0} (e : Exec P) (cpu i j : ℕ)
    → (j ≢ i → (fail_slot e cpu i).slots j ≡ e.slots j)
      × Moves (e.slots j) ((fail_slot e cpu i).slots j)
unfolding fail_slot free_slot
fail_slot-Moves e cpu i j = elim (Bool-cases (is_empty (e.slots i).state)) [
  | inl z ↦ rw z (λ n. refl, Moves-same (e.slots j))
  | inr z ↦ elim (Option-cases (waiting_requester e i)) [
    | inl w ↦ rw (z, w) (λ n. rw (ne→== j i n) refl, upd-Moves e.slots i j _ (inr refl))
    | inr (t, w) ↦ rw (z, w) (λ n. rw (ne→== j i n) refl, upd-Moves e.slots i j _ (inr refl))
  ]
]

fail_from-before :
    {P : Type 0} (n i : ℕ) (e : Exec P) (cpu j : ℕ)
    → j < i
    → (fail_from n i e cpu).slots j ≡ e.slots j
unfolding fail_from
fail_from-before zero i e cpu j h = refl
fail_from-before (suc n) i e cpu j h =
    fail_from-before n (i + 1) (fail_slot e cpu i) cpu j (omega arith)
    ∙ (fail_slot-Moves e cpu i j).0 (λ q. omega arith)

-- Each slot is looked at once.
fail_from-Moves :
    {P : Type 0} (n i : ℕ) (e : Exec P) (cpu j : ℕ)
    → Moves (e.slots j) ((fail_from n i e cpu).slots j)
unfolding fail_from
fail_from-Moves zero i e cpu j = Moves-same (e.slots j)
fail_from-Moves (suc n) i e cpu j = elim (ℕ_discrete j i) [
  | yes q ↦
      rw (q, fail_from-before n (i + 1) (fail_slot e cpu i) cpu i (omega arith))
        (fail_slot-Moves e cpu i i).1
  | no q ↦
      rw (sym ((fail_slot-Moves e cpu i j).0 q))
        (fail_from-Moves n (i + 1) (fail_slot e cpu i) cpu j)
]

-- The calls of the file that change the slots.
pub data ExecCall (P : Type 0) : Type 0 where
  submit : ℕ → ℕ → ExecParams P → ExecCall P
  submit_poll : ℕ → ExecParams P → ExecCall P
  deliver : ℕ → ExecCall P
  complete : ℕ → ℕ → ℕ → Status → ℕ → ℕ → ExecCall P
  finish_poll_spawn : ℕ → ℕ → ExecCall P
  cancel_requester : ℕ → ExecCall P
  fail_all : ℕ → ExecCall P

module _ {P : Type 0} (loader : Loader P) where
  unfoldable pub call : Exec P → ExecCall P → Exec P
  call e (submit cpu cur params) = (execreq_submit e cpu cur params).1
  call e (submit_poll cpu params) = (execreq_submit_poll e cpu params).1
  call e (deliver name_max) = (execreq_try_deliver_queued e name_max).1
  call e (complete cpu i g status shmid size) = execreq_complete loader e cpu i g status shmid size
  call e (finish_poll_spawn i g) = (execreq_finish_poll_spawn e i g).1
  call e (cancel_requester tid) = execreq_cancel_requester e tid
  call e (fail_all cpu) = execreq_fail_all e cpu

  unfoldable pub run : Exec P → List (ExecCall P) → Exec P
  unfolding call
  run e [] = e
  run e (c ∷ cs) = run (call e c) cs

  pub call-Moves : (e : Exec P) (c : ExecCall P) (j : ℕ) → Moves (e.slots j) ((call e c).slots j)
  unfolding call execreq_try_deliver_queued execreq_fail_all
  call-Moves e (submit cpu cur params) j = submit-Moves e cpu cur params j
  call-Moves e (submit_poll cpu params) j = submit_poll-Moves e cpu params j
  call-Moves e (deliver name_max) j = deliver_from-Moves max_slots 0 e name_max j
  call-Moves e (complete cpu i g status shmid size) j =
      complete-Moves loader e cpu i g status shmid size j
  call-Moves e (finish_poll_spawn i g) j = finish-Moves e i g j
  call-Moves e (cancel_requester tid) j = cancel-Moves e tid j
  call-Moves e (fail_all cpu) j = fail_from-Moves max_slots 0 e cpu j
