-- ===== src/Vm/Tests.antt =====
-- The theorems about src/core/vm.c at concrete inputs.
use robu_microkernel.Base.{
  ◌%◌, ◌==◌, if◌then◌else◌, ℕ, ◌≡◌, refl, true, false, [], ◌∷◌, none, some, arith, length,
}
use robu_microkernel.Vm.{
  FaultMsg, FaultRing, FrameCap, FrameTable, fault_queue_push, fault_queue_pop, covers,
  vm_cap_check, vm_cap_grant,
}
use robu_microkernel.Vm.UserCopy.{vm_copy_from_user}
use robu_microkernel.Vm.FaultQueue.{QueueIsValid, faults, fault_queue_push_lem, fault_queue_pop_lem}

abbrev fault : ℕ → FaultMsg
fault t = record { fault_address = 0x4000; error_code = 2; faulting_thread = t; reserved = 0 }

-- Two faults wait, across the end of the array.
abbrev two_faults : FaultRing
two_faults = record { entries = λ i. fault i; head = 1; tail = 15 }

two_faults-QueueIsValid : QueueIsValid two_faults
two_faults-QueueIsValid = record { head_inside = omega arith; tail_inside = omega arith }

pop_test : (fault_queue_pop two_faults).0 ≡ some (fault 15)
unfolding fault_queue_pop
pop_test = refl

fault_queue_push_lem_example :
    let (ok, q') = fault_queue_push two_faults (fault 7) in
    QueueIsValid q'
    × (ok ≡ false → (q' ≡ two_faults) × (length (faults two_faults) ≡ 15))
    × (ok ≡ true → faults q' ≡ fault 15 ∷ fault 0 ∷ fault 7 ∷ [])
fault_queue_push_lem_example = fault_queue_push_lem two_faults (fault 7) two_faults-QueueIsValid

fault_queue_pop_lem_example :
    let (taken, q') = fault_queue_pop two_faults in
    QueueIsValid q'
    × (taken ≡ none → (q' ≡ two_faults) × (faults two_faults ≡ []))
    × ((m : FaultMsg) → taken ≡ some m → fault 15 ∷ fault 0 ∷ [] ≡ m ∷ faults q')
fault_queue_pop_lem_example = fault_queue_pop_lem two_faults two_faults-QueueIsValid

abbrev one_cap : FrameTable
one_cap = record {
  cap_table = λ i. record { base_frame = 0x100000; frame_count = 2; permissions = 3; owner = 4 };
  cap_count = 1;
}

check_test : vm_cap_check one_cap 4 0x101fff 1 ≡ true
unfolding vm_cap_check robu_microkernel.Vm.check_from
check_test = refl

beyond_test : vm_cap_check one_cap 4 0x102000 1 ≡ false
unfolding vm_cap_check robu_microkernel.Vm.check_from
beyond_test = refl

-- Two pages are mapped to frames that are apart; the next page has no frame.
abbrev frame_of : ℕ → ℕ
frame_of page = if page == 0x1000 then 0x9000 else if page == 0x2000 then 0x5000 else 0

unmapped_test : vm_copy_from_user (λ a. a % 251) frame_of 0x2ffe 4 ≡ none
unfolding vm_copy_from_user
unmapped_test = refl
