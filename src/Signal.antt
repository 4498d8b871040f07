-- ===== src/Signal.antt =====
-- src/core/signal.c: sending a signal to a thread and delivering it, with the calls of src/core/ipc.c on
-- signals. A signal number is not negative; a negative one is refused like 0.
pub mod Lowest
pub mod Deliver
pub mod Send
mod Tests
use Prim.Native.Nat.{bit_and, bit_or}
use robu_microkernel.Base.{
  ℕ, zero, suc, ◌+◌, ◌-◌, ◌%◌, ◌^◌, Bool, true, false, not, ◌||◌, Option, none, some, ltb, leb,
  ◌==◌, ◌!=◌, if◌then◌else◌,
}
use robu_microkernel.Base.Bits.{bit, bit_not}
use robu_microkernel.Base.Chain.{upd}
use robu_microkernel.Base.Words.{sub64}
use robu_microkernel.Status.{Status}
use robu_microkernel.Sched.Types.{Sched, Tcb, Regs, SigAction, is_dead, is_zombie}
use robu_microkernel.Sched.Ready.{put}
use robu_microkernel.Sched.Wake.{sched_wake}
use robu_microkernel.Sched.Table.{sched_get_tcb}

abbrev pub nsig : ℕ
nsig = 64

abbrev pub sig_dfl : ℕ
sig_dfl = 0

abbrev pub sig_ign : ℕ
sig_ign = 1

abbrev pub sa_nodefer : ℕ
sa_nodefer = 0x40000000

abbrev pub sa_resethand : ℕ
sa_resethand = 0x80000000

abbrev pub trampoline_va : ℕ
trampoline_va = 0x80001000

-- `1ULL << (signum - 1)`
abbrev pub sig_bit : ℕ → ℕ
sig_bit signum = 2 ^ (signum - 1)

-- `true` is 0, `false` is -1.
unfoldable pub sig_send : Sched → ℕ → ℕ → ℕ → Bool × Sched
sig_send s cpu target signum = elim (sched_get_tcb s target) [
  | none ↦ (false, s)
  | some t ↦
      let r = s.threads t in
      let marked = put s t (record r { sig_pending = bit_or r.sig_pending (sig_bit signum) }) in
      if signum == 0 || leb nsig signum
      then (false, s)
      else if is_dead r.state || is_zombie r.state
      then (false, s)
      else (true, sched_wake marked cpu t)
]

-- SIGCHLD, SIGURG, SIGWINCH, SIGCONT, SIGSTOP, SIGTSTP, SIGTTIN and SIGTTOU do nothing by default.
unfoldable pub sig_default_terminates : ℕ → Bool
sig_default_terminates signum = not (
    signum == 17
    || signum == 23
    || signum == 28
    || signum == 18
    || signum == 19
    || signum == 20
    || signum == 21
    || signum == 22)

-- The loop that looks for the lowest signal, from `signum` on, on fuel.
unfoldable pub lowest_from : ℕ → ℕ → ℕ → ℕ
lowest_from zero signum deliverable = signum
lowest_from (suc n) signum deliverable =
    let rest = lowest_from n (signum + 1) deliverable in
    if bit (signum - 1) deliverable == 1 then signum else rest

-- `sig_pending & ~sig_mask`
abbrev pub deliverable : Tcb → ℕ
deliverable r = bit_and r.sig_pending (bit_not 64 r.sig_mask)

abbrev pub take_signal : Tcb → ℕ → Tcb
take_signal r signum = record r {
  sig_pending = bit_and r.sig_pending (bit_not 64 (sig_bit signum));
}

-- The mask while the handler runs.
abbrev pub handler_mask : ℕ → SigAction → ℕ → ℕ
handler_mask mask sa signum =
    let m = bit_or mask sa.mask in
    if bit_and sa.flags sa_nodefer == 0 then bit_or m (sig_bit signum) else m

-- The stack pointer for the handler: 256 bytes are left free, then a multiple of 16, then the return address.
abbrev pub handler_stack : ℕ → ℕ
handler_stack rsp = let below = sub64 rsp 256 in sub64 (below - below % 16) 8

-- The thread runs its handler. What was interrupted is saved.
unfoldable pub enter_handler : Tcb → ℕ → Tcb
enter_handler r signum =
    let sa = r.sig_actions signum in
    let reset =
      if bit_and sa.flags sa_resethand == 0 then sa else record sa { handler = sig_dfl } in
    record r {
      saved_uctx_before_sig = r.uctx;
      saved_sig_mask = r.sig_mask;
      sig_mask = handler_mask r.sig_mask sa signum;
      in_sig_handler = true;
      sig_actions = upd r.sig_actions signum reset;
      uctx = record (r.uctx) { rsp = handler_stack (r.uctx).rsp; rip = sa.handler; rdi = signum };
    }

-- What the delivery comes to: nothing but the taking of the signal, the end of the thread with a status, or a
-- word to be written at the stack pointer.
pub data Delivered : Type 0 where
  quiet : Delivered
  exit : ℕ → Delivered
  write_word : ℕ → ℕ → Delivered

unfoldable pub sig_try_deliver : Tcb → Delivered × Tcb
unfolding lowest_from sig_default_terminates enter_handler
sig_try_deliver r =
    let signum = lowest_from 63 1 (deliverable r) in
    let taken = take_signal r signum in
    let h = (r.sig_actions signum).handler in
    if r.in_sig_handler || deliverable r == 0
    then (Delivered.quiet, r)
    else if h == sig_ign
    then (Delivered.quiet, taken)
    else if h == sig_dfl
    then if sig_default_terminates signum
      then (Delivered.exit (0x80000000 + signum), taken)
      else (Delivered.quiet, taken)
    else (
      Delivered.write_word (handler_stack (r.uctx).rsp) trampoline_va,
      enter_handler taken signum,
    )

-- The call SYS_INFO_CAT_SIGRETURN.
unfoldable pub sigreturn : Tcb → Tcb
sigreturn r = record r {
  uctx = r.saved_uctx_before_sig;
  sig_mask = r.saved_sig_mask;
  in_sig_handler = false;
}

-- The calls SYS_INFO_CAT_SIGACTION, with the new action if one is to be set, and SYS_INFO_CAT_SIGPROCMASK.
unfoldable pub sigaction : Tcb → ℕ → Option SigAction → Tcb
sigaction r signum change =
    let sa = r.sig_actions signum in
    let old = record (r.uctx) { r8 = sa.handler; r9 = sa.flags; r10 = sa.mask; rax = Status.ok } in
    let actions : ℕ → SigAction = elim change [
      | none ↦ r.sig_actions
      | some new ↦ upd r.sig_actions signum new
    ] in
    if signum == 0 || leb nsig signum
    then record r { uctx = record (r.uctx) { rax = Status.not_found } }
    else record r { uctx = old; sig_actions = actions }

abbrev pub sig_block : ℕ
sig_block = 0

abbrev pub sig_unblock : ℕ
sig_unblock = 1

abbrev pub new_mask : ℕ → ℕ → ℕ → ℕ
new_mask mask how change =
    if how == sig_block
    then bit_or mask change
    else if how == sig_unblock
    then bit_and mask (bit_not 64 change)
    else change

unfoldable pub sigprocmask : Tcb → ℕ → Option ℕ → Tcb
sigprocmask r how change =
    let mask : ℕ = elim change [ none ↦ r.sig_mask | some c ↦ new_mask r.sig_mask how c ] in
    record r { uctx = record (r.uctx) { r8 = r.sig_mask; rax = Status.ok }; sig_mask = mask }
