-- ===== src/Captable.antt =====
-- src/core/captable.c: the kernel's table of capabilities, the notifications and the timers.
-- The arrays are functions of the index; the capability table grows by moving to new memory from
-- src/core/untyped.c. Making objects (`cap_retype`), `cap_destroy` and `cap_revoke_frame` are not
-- modelled: they rest on the address spaces.
pub mod Grant
pub mod Notify
pub mod Timers
pub mod Sample
mod Tests
use Prim.Native.Nat.{bit_or}
use robu_microkernel.Base.{
  ℕ, zero, suc, ◌+◌, ◌-◌, ◌*◌, ◌%◌, Bool, true, false, not, ◌&&◌, ◌||◌, Option, none, some, ltb,
  leb, ◌==◌, ◌!=◌, if◌then◌else◌,
}
use robu_microkernel.Base.Words.{u32, u64, add32, add64}
use robu_microkernel.Base.Chain.{upd}
use robu_microkernel.Status.{Status}
use robu_microkernel.Untyped.{Untyped, untyped_alloc}
use robu_microkernel.Sched.Types.{Tcb, Sched, Regs, no_deadline}
use robu_microkernel.Sched.Ready.{put}
use robu_microkernel.Sched.Wake.{sched_wake, sched_note_deadline}
use robu_microkernel.Sched.Table.{sched_get_tcb}

-- `cap_kind_t`
pub data CapKind : Type 0 where
  untyped frame addrspace tcb notification timer invalid : CapKind

-- `a == b` on kinds, whose numbers are these.
abbrev pub kind_number : CapKind → ℕ
kind_number CapKind.untyped = 0
kind_number CapKind.frame = 1
kind_number CapKind.addrspace = 2
kind_number CapKind.tcb = 3
kind_number CapKind.notification = 4
kind_number CapKind.timer = 5
kind_number CapKind.invalid = 6

-- `kcap_t`
pub record Kcap : Type 0 where
  pub kind : CapKind
  pub owner : ℕ
  pub addr : ℕ
  pub size : ℕ
  pub mapped_va : ℕ

-- An entry of cleared memory.
abbrev pub zero_kcap : Kcap
zero_kcap = record { kind = CapKind.untyped; owner = 0; addr = 0; size = 0; mapped_va = 0 }

-- `notification_t`
pub record Notification : Type 0 where
  pub word : ℕ
  pub waiter : ℕ
  pub in_use : Bool

-- `timer_obj_t`
pub record Timer : Type 0 where
  pub in_use : Bool
  pub armed : Bool
  pub deadline_tick : ℕ
  pub notif_idx : ℕ
  pub signal_bits : ℕ
  pub period_ticks : ℕ

-- The file's variables, with the scheduler's and the allocator's that its functions change.
pub record Caps : Type 0 where
  pub sched : Sched
  pub memory : Untyped
  pub kcap_count : ℕ
  pub kcap_capacity : ℕ
  pub kcap_table : Option (ℕ → Kcap)
  pub notif_table : ℕ → Notification
  pub notif_count : ℕ
  pub timer_table : ℕ → Timer
  pub timer_count : ℕ

abbrev pub kcap_bytes : ℕ
kcap_bytes = 32

-- The entry in a slot; a table that is not there is not read, as it has no slots.
abbrev pub entry : Caps → ℕ → Kcap
entry c slot = elim c.kcap_table [ none ↦ zero_kcap | some table ↦ table slot ]

-- The table in its new memory: the old entries, then cleared ones.
abbrev pub moved : Option (ℕ → Kcap) → ℕ → ℕ → Kcap
moved none count slot = zero_kcap
moved (some table) count slot = if ltb slot count then table slot else zero_kcap

-- The part of `kcap_grant` that makes room; `false` if there is no memory.
unfoldable pub grow : Caps → Bool × Caps
grow c =
    let new_cap = if c.kcap_capacity == 0 then 128 else c.kcap_capacity * 2 % u32 in
    let (address, memory') = untyped_alloc c.memory (new_cap * kcap_bytes % u64) in
    if ltb c.kcap_count c.kcap_capacity
    then (true, c)
    else if address == 0
    then (false, record c { memory = memory' })
    else (
      true,
      record c {
        memory = memory';
        kcap_table = some (moved c.kcap_table c.kcap_count);
        kcap_capacity = new_cap;
      },
    )

-- `true` is 0, `false` is -1, here and below.
unfoldable pub kcap_grant : Caps → ℕ → CapKind → ℕ → ℕ → Bool × Caps
unfolding grow
kcap_grant c owner kind addr size =
    let (room, c1) = grow c in
    let n = c1.kcap_count in
    let cap = record (entry c1 n) { kind = kind; owner = owner; addr = addr; size = size } in
    if room
    then (true, record c1 { kcap_table = some (upd (entry c1) n cap); kcap_count = add32 n 1 })
    else (false, c1)

abbrev pub kcap_next_slot : Caps → ℕ
kcap_next_slot c = c.kcap_count

-- The capability in the slot, if it is there, the caller's, and of the kind.
unfoldable pub validate : Caps → ℕ → ℕ → CapKind → Option Kcap
validate c caller slot want_kind =
    let cap = entry c slot in
    if leb c.kcap_count slot
    then none
    else if cap.owner != caller || kind_number cap.kind != kind_number want_kind
    then none
    else some cap

abbrev pub put_notification : Caps → ℕ → Notification → Caps
put_notification c idx n = record c { notif_table = upd c.notif_table idx n }

-- The waiter gets the bits in its registers and wakes up, if it is still there.
abbrev pub hand_over : Sched → ℕ → ℕ → ℕ → Sched
hand_over s cpu waiter word = elim (sched_get_tcb s waiter) [
  | none ↦ s
  | some t ↦
      let r = record ((s.threads t).uctx) { r8 = word; rax = Status.ok } in
      sched_wake (put s t (record (s.threads t) { uctx = r })) cpu t
]

-- `cpu` is the CPU that this runs on.
unfoldable pub notif_deliver : Caps → ℕ → ℕ → ℕ → Caps
notif_deliver c cpu idx bits =
    let n = c.notif_table idx in
    let word = bit_or n.word bits in
    if n.waiter != 0
    then put_notification (record c { sched = hand_over c.sched cpu n.waiter word }) idx
        (record n { word = 0; waiter = 0 })
    else put_notification c idx (record n { word = word })

unfoldable pub cap_notif_signal : Caps → ℕ → ℕ → ℕ → ℕ → Bool × Caps
unfolding validate notif_deliver
cap_notif_signal c cpu caller slot bits = elim (validate c caller slot CapKind.notification) [
  | none ↦ (false, c)
  | some cap ↦ (true, notif_deliver c cpu cap.addr bits)
]

-- The results of the two calls that take bits: -1, 0, the bits with 1 or 0, and -2.
pub data Taken : Type 0 where
  refused waits nothing : Taken
  got : ℕ → Taken

unfoldable pub cap_notif_wait_begin : Caps → ℕ → ℕ → Taken × Caps
unfolding validate
cap_notif_wait_begin c caller slot = elim (validate c caller slot CapKind.notification) [
  | none ↦ (Taken.refused, c)
  | some cap ↦
      let n = c.notif_table cap.addr in
      if n.word != 0
      then (Taken.got n.word, put_notification c cap.addr (record n { word = 0 }))
      else (Taken.waits, put_notification c cap.addr (record n { waiter = caller }))
]

unfoldable pub cap_notif_poll : Caps → ℕ → ℕ → Taken × Caps
unfolding validate
cap_notif_poll c caller slot = elim (validate c caller slot CapKind.notification) [
  | none ↦ (Taken.refused, c)
  | some cap ↦
      let n = c.notif_table cap.addr in
      if n.word == 0
      then (Taken.nothing, c)
      else (Taken.got n.word, put_notification c cap.addr (record n { word = 0 }))
]

unfoldable pub cap_timer_arm : Caps → ℕ → ℕ → ℕ → ℕ → ℕ → ℕ → Bool × Caps
unfolding validate
cap_timer_arm c caller timer_slot notif_slot ticks_from_now bits period_ticks =
    elim (validate c caller timer_slot CapKind.timer) [
      | none ↦ (false, c)
      | some timer_cap ↦ elim (validate c caller notif_slot CapKind.notification) [
        | none ↦ (false, c)
        | some notif_cap ↦
            let ticks = if ltb ticks_from_now 1 then 1 else ticks_from_now in
            let deadline = add64 c.sched.now_ticks ticks in
            let t = record (c.timer_table timer_cap.addr) {
              armed = true;
              deadline_tick = deadline;
              notif_idx = notif_cap.addr;
              signal_bits = bits;
              period_ticks = period_ticks;
            } in
            (
              true,
              record c {
                timer_table = upd c.timer_table timer_cap.addr t;
                sched = sched_note_deadline c.sched deadline;
              },
            )
      ]
    ]

unfoldable pub cap_timer_disarm : Caps → ℕ → ℕ → Bool × Caps
unfolding validate
cap_timer_disarm c caller slot = elim (validate c caller slot CapKind.timer) [
  | none ↦ (false, c)
  | some cap ↦
      let t = record (c.timer_table cap.addr) { armed = false } in
      (true, record c { timer_table = upd c.timer_table cap.addr t })
]

-- What `kcap_invalidate_tcb_death` does to the capabilities below the count.
unfoldable pub kcap_invalidate_tcb_death : Caps → ℕ → Caps
kcap_invalidate_tcb_death c tid =
    let killed = λ (slot : ℕ).
      let cap = entry c slot in
      if ltb slot c.kcap_count && kind_number cap.kind == kind_number CapKind.tcb && cap.addr == tid
      then record cap { kind = CapKind.invalid }
      else cap in
    elim c.kcap_table [ none ↦ c | some table ↦ record c { kcap_table = some killed } ]

unfoldable pub notif_invalidate_waiter_death : Caps → ℕ → Caps
notif_invalidate_waiter_death c tid = record c {
  notif_table = λ i.
      let n = c.notif_table i in
      if ltb i c.notif_count && n.waiter == tid then record n { waiter = 0 } else n;
}
