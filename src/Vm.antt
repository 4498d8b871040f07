-- ===== src/Vm.antt =====
-- src/core/vm.c: the queue of page faults that wait for a pager, and the capabilities for frames.
-- The child modules have the mapping of pages and the copies to and from a user's memory.
pub mod FaultQueue
pub mod FrameCaps
pub mod Map
pub mod UserCopy
pub mod CopyBytes
mod Tests
use Prim.Native.Nat.{bit_and}
use robu_microkernel.Base.{
  ℕ, zero, suc, ◌+◌, ◌*◌, ◌%◌, Bool, true, false, ◌&&◌, Option, none, some, ltb, leb, ◌==◌, ◌!=◌,
  if◌then◌else◌,
}
use robu_microkernel.Base.Words.{u64, add32, add64}
use robu_microkernel.Base.Chain.{upd}

abbrev pub fault_queue_size : ℕ
fault_queue_size = 16

-- `vm_fault_msg_t`
pub record FaultMsg : Type 0 where
  pub fault_address : ℕ
  pub error_code : ℕ
  pub faulting_thread : ℕ
  pub reserved : ℕ

-- `vm_fault_queue_t`
pub record FaultRing : Type 0 where
  pub entries : ℕ → FaultMsg
  pub head : ℕ
  pub tail : ℕ

-- `(i + 1) & (FAULT_QUEUE_SIZE - 1)`, a mask of the low four bits.
abbrev pub next_index : ℕ → ℕ
next_index i = add32 i 1 % fault_queue_size

-- `true` is 0, `false` is -1.
unfoldable pub fault_queue_push : FaultRing → FaultMsg → Bool × FaultRing
fault_queue_push q msg =
    if next_index q.head == q.tail
    then (false, q)
    else (true, record q { entries = upd q.entries q.head msg; head = next_index q.head })

-- `none` is -1.
unfoldable pub fault_queue_pop : FaultRing → Option FaultMsg × FaultRing
fault_queue_pop q =
    if q.head == q.tail
    then (none, q)
    else (some (q.entries q.tail), record q { tail = next_index q.tail })

abbrev pub fault_queue_empty : FaultRing → Bool
fault_queue_empty q = q.head == q.tail

abbrev pub max_frame_caps : ℕ
max_frame_caps = 64

abbrev pub page_bytes : ℕ
page_bytes = 0x1000

-- `frame_cap_t`
pub record FrameCap : Type 0 where
  pub base_frame : ℕ
  pub frame_count : ℕ
  pub permissions : ℕ
  pub owner : ℕ

-- `cap_table` and `cap_count`
pub record FrameTable : Type 0 where
  pub cap_table : ℕ → FrameCap
  pub cap_count : ℕ

unfoldable pub vm_cap_grant : FrameTable → ℕ → ℕ → ℕ → ℕ → Bool × FrameTable
vm_cap_grant t owner base count perms =
    if leb max_frame_caps t.cap_count
    then (false, t)
    else let cap : FrameCap = record {
      base_frame = base;
      frame_count = count;
      permissions = perms;
      owner = owner;
    } in
      (true, record { cap_table = upd t.cap_table t.cap_count cap; cap_count = t.cap_count + 1 })

-- Does the capability let its owner use the address with the permissions?
abbrev pub covers : FrameCap → ℕ → ℕ → ℕ → Bool
covers cap owner paddr perms =
    let cap_end = add64 cap.base_frame (cap.frame_count * page_bytes % u64) in
    cap.owner == owner
    && bit_and cap.permissions perms == perms
    && leb cap.base_frame paddr
    && ltb paddr cap_end

-- The loop from entry `i` on with `n` entries left.
unfoldable pub check_from : ℕ → ℕ → FrameTable → ℕ → ℕ → ℕ → Bool
check_from zero i t owner paddr perms = false
check_from (suc n) i t owner paddr perms =
    let rest = check_from n (i + 1) t owner paddr perms in
    if covers (t.cap_table i) owner paddr perms then true else rest

unfoldable pub vm_cap_check : FrameTable → ℕ → ℕ → ℕ → Bool
unfolding check_from
vm_cap_check t owner paddr perms = check_from t.cap_count 0 t owner paddr perms
