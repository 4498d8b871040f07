-- ===== src/Execreq.antt =====
-- src/core/execreq.c: the requests to load a program, which wait in slots for the file system's server.
-- The functions of src/core/elf.c and src/core/shm.c that it calls are an interface.
pub mod Reply
pub mod Moves
pub mod Calls
pub mod Once
pub mod Cancel
pub mod FailAll
mod Tests
use robu_microkernel.Base.{
  ℕ, zero, suc, ◌+◌, ◌-◌, ◌*◌, Bool, true, false, not, ◌&&◌, ◌||◌, List, [], ◌∷◌, Option, none,
  some, ltb, leb, ◌==◌, ◌!=◌, if◌then◌else◌, take, length,
}
use robu_microkernel.Base.Words.{add16}
use robu_microkernel.Base.Bytes.{word_of}
use robu_microkernel.Base.Chain.{upd}
use robu_microkernel.Status.{Status, is_ok}
use robu_microkernel.Sched.Types.{Sched, Tcb, Regs, ThreadState, is_wait_recv, is_wait_execreq}
use robu_microkernel.Sched.Ready.{put}
use robu_microkernel.Sched.Wake.{sched_wake, sched_block, sched_direct_switch}
use robu_microkernel.Sched.Table.{sched_get_tcb}

abbrev pub max_slots : ℕ
max_slots = 8

abbrev pub staging_size : ℕ
staging_size = 16 * 1024 * 1024

abbrev pub vfs_op_read_bulk : ℕ
vfs_op_read_bulk = 17

-- `execreq_state_t`
pub data SlotState : Type 0 where
  empty queued delivered poll_done : SlotState

abbrev pub is_empty : SlotState → Bool
is_empty SlotState.empty = true
is_empty _ = false

abbrev pub is_queued : SlotState → Bool
is_queued SlotState.queued = true
is_queued _ = false

abbrev pub is_delivered : SlotState → Bool
is_delivered SlotState.delivered = true
is_delivered _ = false

abbrev pub is_poll_done : SlotState → Bool
is_poll_done SlotState.poll_done = true
is_poll_done _ = false

-- `execreq_params_t`: what this file reads of it. `P` is the rest, which the loader gets: the arguments,
-- the environment, the open files, the priority and the pager.
pub record ExecParams (P : Type 0) : Type 0 where
  pub requester_tid : ℕ
  pub is_spawn_create : Bool
  pub name : List ℕ
  pub image : P

-- `execreq_slot_t`
pub record Slot (P : Type 0) : Type 0 where
  pub state : SlotState
  pub generation : ℕ
  pub params : ExecParams P
  pub poll_child : Option ℕ

-- `g_slots`, with the scheduler's variables; `ext2fs_tid` is the field of the kernel's info page.
pub record Exec (P : Type 0) : Type 0 where
  pub sched : Sched
  pub slots : ℕ → Slot P
  pub ext2fs_tid : ℕ

-- What is called: the loader makes a thread or replaces the program of one, and the bytes of a shared memory
-- segment, up to a length, are copied out, unless there is no such segment.
pub record Loader (P : Type 0) : Type 0 where
  pub elf_load_and_spawn_req : Sched → List ℕ → ExecParams P → Option ℕ × Sched
  pub elf_exec_current : Sched → ℕ → List ℕ → ExecParams P → Bool × Sched
  pub copy_out : ℕ → ℕ → Status × List ℕ

-- The loop of `alloc_slot` from slot `i` on with `n` slots left; `none` is -1.
unfoldable pub alloc_slot_from : {P : Type 0} → ℕ → ℕ → Exec P → Option ℕ
alloc_slot_from zero i e = none
alloc_slot_from (suc n) i e =
    let rest = alloc_slot_from n (i + 1) e in if is_empty (e.slots i).state then some i else rest

unfoldable pub alloc_slot : {P : Type 0} → Exec P → Option ℕ
unfolding alloc_slot_from
alloc_slot e = alloc_slot_from max_slots 0 e

abbrev pub put_slot : {P : Type 0} → Exec P → ℕ → Slot P → Exec P
put_slot e i slot = record e { slots = upd e.slots i slot }

unfoldable pub free_slot : {P : Type 0} → Exec P → ℕ → Exec P
free_slot e i =
    put_slot e i
      (record (e.slots i) { state = SlotState.empty; generation = add16 (e.slots i).generation 1 })

unfoldable pub inject_request : {P : Type 0} → Exec P → ℕ → ℕ → ExecParams P → Exec P
inject_request e ext2fs i params =
    let name = take 24 params.name in
    let r = e.sched.threads ext2fs in
    let regs = record (r.uctx) {
      r8 = vfs_op_read_bulk;
      r9 = i;
      r10 = (e.slots i).generation;
      r12 = word_of 0 name;
      r13 = word_of 1 name;
      r14 = word_of 2 name;
      rsi = 0;
      rax = Status.ok;
    } in
    record e { sched = put e.sched ext2fs (record r { uctx = regs }) }

-- `ext2fs_tid ? sched_get_tcb(ext2fs_tid) : NULL`
abbrev pub find_server : {P : Type 0} → Exec P → Option ℕ
find_server e = if e.ext2fs_tid == 0 then none else sched_get_tcb e.sched e.ext2fs_tid

-- The server waits for a message from anyone, IPC_TID_ANY being 0.
abbrev pub takes_requests : {P : Type 0} → Exec P → ℕ → Bool
takes_requests e server =
    let r = e.sched.threads server in is_wait_recv r.state && r.ipc_partner == 0

abbrev pub set_state : {P : Type 0} → Exec P → ℕ → SlotState → Exec P
set_state e i state = put_slot e i (record (e.slots i) { state = state })

-- For the thread `cur` that runs on `cpu`. The slot is `*out_slot`; `none` is -1.
unfoldable pub execreq_submit : {P : Type 0} → Exec P → ℕ → ℕ → ExecParams P → Option ℕ × Exec P
unfolding alloc_slot inject_request
execreq_submit e cpu cur params = elim (find_server e) [
  | none ↦ (none, e)
  | some server ↦ elim (alloc_slot e) [
    | none ↦ (none, e)
    | some i ↦
        let e1 = put_slot e i (record (e.slots i) { params = params; state = SlotState.queued }) in
        let s1 = put e1.sched cur (record (e1.sched.threads cur) { execreq_slot = i }) in
        let e2 = record e1 { sched = sched_block s1 cpu ThreadState.wait_execreq } in
        let e3 = inject_request (set_state e2 i SlotState.delivered) server i params in
        if takes_requests e2 server
        then (some i, record e3 { sched = sched_direct_switch e3.sched cpu server })
        else (some i, e2)
  ]
]

-- The slot and its generation; `none` is -1.
unfoldable pub execreq_submit_poll :
    {P : Type 0} → Exec P → ℕ → ExecParams P → Option (ℕ × ℕ) × Exec P
unfolding alloc_slot inject_request
execreq_submit_poll e cpu params = elim (find_server e) [
  | none ↦ (none, e)
  | some server ↦ elim (alloc_slot e) [
    | none ↦ (none, e)
    | some i ↦
        let kept = record params { requester_tid = 0 } in
        let e1 =
          put_slot e i
            (record (e.slots i) { params = kept; poll_child = none; state = SlotState.queued }) in
        let e2 = inject_request (set_state e1 i SlotState.delivered) server i kept in
        if takes_requests e1 server
        then (
          some (i, (e.slots i).generation),
          record e2 { sched = sched_wake e2.sched cpu server },
        )
        else (some (i, (e.slots i).generation), e1)
  ]
]

-- `none` is -1, otherwise whether the request is done.
unfoldable pub execreq_poll_ready : {P : Type 0} → Exec P → ℕ → ℕ → Option Bool
execreq_poll_ready e i generation =
    if leb max_slots i || is_empty (e.slots i).state || (e.slots i).generation != generation
    then none
    else some (is_poll_done (e.slots i).state)

unfoldable pub execreq_finish_poll_spawn : {P : Type 0} → Exec P → ℕ → ℕ → Option ℕ × Exec P
unfolding free_slot
execreq_finish_poll_spawn e i generation =
    if leb max_slots i
      || (e.slots i).generation != generation
      || not (is_poll_done (e.slots i).state)
    then (none, e)
    else ((e.slots i).poll_child, free_slot e i)

-- The loop from slot `i` on with `n` slots left: the slot, its generation and the name.
unfoldable pub deliver_from : {P : Type 0} → ℕ → ℕ → Exec P → ℕ → Option (ℕ × ℕ × List ℕ) × Exec P
deliver_from zero i e name_max = (none, e)
deliver_from (suc n) i e name_max =
    let rest = deliver_from n (i + 1) e name_max in
    let slot = e.slots i in
    if is_queued slot.state
    then (
      some (i, slot.generation, take (name_max - 1) slot.params.name),
      set_state e i SlotState.delivered,
    )
    else rest

unfoldable pub execreq_try_deliver_queued :
    {P : Type 0} → Exec P → ℕ → Option (ℕ × ℕ × List ℕ) × Exec P
unfolding deliver_from
execreq_try_deliver_queued e name_max = deliver_from max_slots 0 e name_max
