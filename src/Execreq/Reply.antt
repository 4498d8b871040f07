-- ===== src/Execreq/Reply.antt =====
-- src/core/execreq.c: the replies to requests, cancellation and failure.
use robu_microkernel.Base.{
  ℕ, zero, suc, ◌+◌, Bool, not, ◌&&◌, ◌||◌, List, Option, none, some, leb, ◌==◌, ◌!=◌,
  if◌then◌else◌, length,
}
use robu_microkernel.Status.{Status, is_ok}
use robu_microkernel.Sched.Types.{Sched, is_wait_execreq}
use robu_microkernel.Sched.Ready.{put}
use robu_microkernel.Sched.Wake.{sched_wake}
use robu_microkernel.Sched.Table.{sched_get_tcb}
use robu_microkernel.Execreq.{
  Exec, ExecParams, Loader, SlotState, free_slot, is_delivered, is_empty, max_slots, put_slot,
  staging_size,
}

abbrev pub set_result : Sched → ℕ → Status → ℕ → Sched
set_result s t status value =
    let r = s.threads t in
    put s t (record r { uctx = record (r.uctx) { rax = status; r8 = value } })

unfoldable pub fail_requester : Sched → ℕ → ℕ → Sched
fail_requester s cpu t = sched_wake (set_result s t Status.not_found 0) cpu t

-- The requester, if it still waits for this slot.
unfoldable pub still_waiting : {P : Type 0} → Exec P → ℕ → Option ℕ → Option ℕ
still_waiting e i none = none
still_waiting e i (some t) =
    let r = e.sched.threads t in
    if not (is_wait_execreq r.state) || r.execreq_slot != i then none else some t

unfoldable pub waiting_requester : {P : Type 0} → Exec P → ℕ → Option ℕ
unfolding still_waiting
waiting_requester e i = still_waiting e i (sched_get_tcb e.sched (e.slots i).params.requester_tid)

-- The slot does not wait for a reply of this generation.
abbrev pub not_awaited : {P : Type 0} → Exec P → ℕ → ℕ → Bool
not_awaited e i generation =
    leb max_slots i || not (is_delivered (e.slots i).state) || (e.slots i).generation != generation

module _ {P : Type 0} (loader : Loader P) where
  -- The program that came with a reply; `none` if it is not there in full or is empty.
  abbrev pub reply_image : Status → ℕ → ℕ → Option (List ℕ)
  reply_image status shmid size =
      let (rc, bytes) = loader.copy_out shmid staging_size in
      if not (is_ok status)
      then none
      else if not (is_ok rc) || length bytes != size || length bytes == 0
      then none
      else some bytes

  -- A request that nobody waits for but that is polled.
  unfoldable pub complete_poll : Exec P → ℕ → Option (List ℕ) → Exec P
  complete_poll e i none =
      put_slot e i (record (e.slots i) { poll_child = none; state = SlotState.poll_done })
  complete_poll e i (some bytes) =
      let (child, s1) = loader.elf_load_and_spawn_req e.sched bytes (e.slots i).params in
      put_slot (record e { sched = s1 }) i
        (record (e.slots i) { poll_child = child; state = SlotState.poll_done })

  -- A program came for the requester `t`: a child runs it, or the requester itself.
  unfoldable pub spawn_for : Sched → ℕ → List ℕ → ExecParams P → Sched
  spawn_for s t bytes params =
      let (child, s1) = loader.elf_load_and_spawn_req s bytes params in
      elim child [
        | none ↦ set_result s1 t Status.no_mem 0
        | some c ↦ set_result (put s1 c (record (s1.threads c) { parent_tid = t })) t Status.ok c
      ]

  unfoldable pub exec_for : Sched → ℕ → List ℕ → ExecParams P → Sched
  exec_for s t bytes params =
      let (done, s1) = loader.elf_exec_current s t bytes params in
      let r = s1.threads t in
      if done then s1 else put s1 t (record r { uctx = record (r.uctx) { rax = Status.no_mem } })

  unfoldable pub load_for : Sched → ℕ → List ℕ → ExecParams P → Sched
  unfolding spawn_for exec_for
  load_for s t bytes params =
      if params.is_spawn_create then spawn_for s t bytes params else exec_for s t bytes params

  unfoldable pub execreq_complete : Exec P → ℕ → ℕ → ℕ → Status → ℕ → ℕ → Exec P
  unfolding free_slot fail_requester waiting_requester complete_poll load_for
  execreq_complete e cpu i generation status shmid size =
      let params = (e.slots i).params in
      let image = reply_image status shmid size in
      if not_awaited e i generation
      then e
      else if params.requester_tid == 0
      then complete_poll e i image
      else elim (waiting_requester e i) [
        | none ↦ free_slot e i
        | some t ↦ elim image [
          | none ↦ free_slot (record e { sched = fail_requester e.sched cpu t }) i
          | some bytes ↦
              free_slot (record e { sched = sched_wake (load_for e.sched t bytes params) cpu t }) i
        ]
      ]

-- The loop of `execreq_cancel_requester` from slot `i` on with `n` slots left.
unfoldable pub cancel_from : {P : Type 0} → ℕ → ℕ → Exec P → ℕ → Exec P
unfolding free_slot
cancel_from zero i e tid = e
cancel_from (suc n) i e tid =
    let mine = not (is_empty (e.slots i).state) && (e.slots i).params.requester_tid == tid in
    cancel_from n (i + 1) (if mine then free_slot e i else e) tid

unfoldable pub execreq_cancel_requester : {P : Type 0} → Exec P → ℕ → Exec P
unfolding cancel_from
execreq_cancel_requester e tid = cancel_from max_slots 0 e tid

-- The body of the loop of `execreq_fail_all`.
unfoldable pub fail_slot : {P : Type 0} → Exec P → ℕ → ℕ → Exec P
unfolding free_slot fail_requester waiting_requester
fail_slot {P = P} e cpu i =
    let failed : Exec P = elim (waiting_requester e i) [
      | none ↦ e
      | some t ↦ record e { sched = fail_requester e.sched cpu t }
    ] in
    if is_empty (e.slots i).state then e else free_slot failed i

unfoldable pub fail_from : {P : Type 0} → ℕ → ℕ → Exec P → ℕ → Exec P
unfolding fail_slot
fail_from zero i e cpu = e
fail_from (suc n) i e cpu = fail_from n (i + 1) (fail_slot e cpu i) cpu

unfoldable pub execreq_fail_all : {P : Type 0} → Exec P → ℕ → Exec P
unfolding fail_from
execreq_fail_all e cpu = fail_from max_slots 0 e cpu
