-- ===== src/Execreq/Tests.antt =====
-- The theorems about the requests to load a program at concrete inputs: thread 2 waits for slot 0.
use robu_microkernel.Base.{
  ℕ, ◌≡◌, refl, true, false, ◌&&◌, none, List, [], ◌∷◌, arith, ◌==◌, if◌then◌else◌, ltb,
}
use robu_microkernel.Status.{Status}
use robu_microkernel.Sched.Types.{ThreadState}
use robu_microkernel.Sched.Table.{fresh_tcb, sched_get_tcb}
use robu_microkernel.Sched.Wake.{sched_wake, kick_cpus, wake_ready, sched_block}
use robu_microkernel.Captable.Sample.{one_thread}
use robu_microkernel.Execreq.{
  SlotState, Slot, Exec, Loader, alloc_slot, alloc_slot_from, deliver_from, execreq_submit,
  execreq_try_deliver_queued, free_slot, inject_request, is_delivered, max_slots,
}
use robu_microkernel.Execreq.Reply.{
  exec_for, execreq_cancel_requester, execreq_complete, execreq_fail_all, load_for, still_waiting,
  waiting_requester,
}
use robu_microkernel.Execreq.Calls.{ExecCall, call, run}
use robu_microkernel.Execreq.Once.{execreq_complete-execreq_complete}
use robu_microkernel.Execreq.Cancel.{freed, belongs, execreq_cancel_requester_lem}
use robu_microkernel.Execreq.FailAll.{WaitsFor, execreq_fail_all-WaitsFor}

abbrev loader : Loader ℕ
loader = record {
  elf_load_and_spawn_req = λ s bytes params. (none, s);
  elf_exec_current = λ s t bytes params. (true, s);
  copy_out = λ shmid max. (Status.ok, 7 ∷ 8 ∷ []);
}

abbrev asked : Slot ℕ
asked = record {
  state = SlotState.delivered;
  generation = 65535;
  params = record { requester_tid = 2; is_spawn_create = false; name = 97 ∷ []; image = 0 };
  poll_child = none;
}

abbrev unused : Slot ℕ
unused = record asked { state = SlotState.empty; generation = 3 }

abbrev waiting : Exec ℕ
waiting = record {
  sched = record one_thread {
    threads = λ t.
        if t == 2
        then record (fresh_tcb 2 5) { state = ThreadState.wait_execreq; execreq_slot = 0 }
        else fresh_tcb t 5;
  };
  slots = λ i. if i == 0 then asked else unused;
  ext2fs_tid = 9;
}

-- Thread 9 is the server; thread 2 asks again, and gets the slot again.
abbrev asks_again : List (ExecCall ℕ)
asks_again = ExecCall.submit 0 2 (asked.params) ∷ ExecCall.deliver 25 ∷ []

slot_again :
    is_delivered
      ((run loader (execreq_complete loader waiting 0 0 65535 Status.ok 1 2) asks_again).slots
        0).state
    ≡ true
unfolding run call execreq_complete execreq_submit execreq_try_deliver_queued alloc_slot
    deliver_from free_slot sched_get_tcb waiting_requester still_waiting load_for exec_for
    inject_request alloc_slot_from sched_wake kick_cpus wake_ready sched_block
slot_again = refl

execreq_complete-execreq_complete_example :
    let e' = run loader (execreq_complete loader waiting 0 0 65535 Status.ok 1 2) asks_again in
    execreq_complete loader e' 1 0 65535 Status.no_mem 4 5 ≡ e'
execreq_complete-execreq_complete_example =
    execreq_complete-execreq_complete loader waiting 0 1 0 65535 Status.ok Status.no_mem 1 4 2 5
      asks_again refl (omega arith)

execreq_cancel_requester_lem_example : (execreq_cancel_requester waiting 2).slots 0 ≡ (
    if ltb 0 max_slots && belongs (waiting.slots 0) 2
    then freed (waiting.slots 0)
    else waiting.slots 0)
execreq_cancel_requester_lem_example = execreq_cancel_requester_lem 2 waiting 0

two_waits : WaitsFor waiting 2 0
two_waits = record {
  in_table = omega arith;
  no_null = λ e. omega (arith, e);
  waits = refl;
  on_slot = refl;
  in_use = refl;
  asked = refl;
}

execreq_fail_all-WaitsFor_example :
    ((execreq_fail_all waiting 0).sched.threads 2).state ≡ ThreadState.ready
execreq_fail_all-WaitsFor_example = execreq_fail_all-WaitsFor 0 waiting 2 0 (omega arith) two_waits
