-- ===== src/Sched/Table.antt =====
-- The thread table: looking up a thread, taking a free entry, and waiting for children.
use robu_microkernel.Base.{
  ℕ, zero, suc, ◌+◌, ◌-◌, ◌≤◌, ◌<◌, ◌≡◌, refl, Bool, true, false, not, ◌&&◌, ◌||◌, Option, none,
  some, arith, leb, ◌==◌, ◌!=◌, if◌then◌else◌, Bool-cases, inl, inr, some-inj, subst,
}
use native.Mathlib.Decide.{ℕ_discrete}
use robu_microkernel.Sched.Types.{
  ThreadState, Tcb, Sched, Regs, Msg, Ticks, is_dead, is_zombie, max_threads, no_cpu,
  timeslice_ticks,
}
use robu_microkernel.Sched.Ready.{put}
use robu_microkernel.Sched.Wake.{sched_ready_now}
use robu_microkernel.Status.{Status}

unfoldable pub sched_get_tcb : Sched → ℕ → Option ℕ
sched_get_tcb s tid =
    if tid == 0 || leb max_threads tid
    then none
    else if is_dead (s.threads tid).state || is_zombie (s.threads tid).state
    then none
    else some tid

abbrev pub zero_msg : Msg
zero_msg = record { word0 = 0; word1 = 0; word2 = 0; word3 = 0; word4 = 0; word5 = 0 }

abbrev pub zero_regs : Regs
zero_regs = record {
  rax = Status.ok;
  rdi = 0;
  rsi = 0;
  rdx = 0;
  r8 = 0;
  r9 = 0;
  r10 = 0;
  r12 = 0;
  r13 = 0;
  r14 = 0;
  rip = 0;
  rsp = 0;
}

-- The record that `alloc_tcb` leaves in the entry `tid`.
abbrev pub fresh_tcb : ℕ → ℕ → Tcb
fresh_tcb tid prio = record {
  state = ThreadState.running;
  prio = prio;
  in_ready_q = false;
  timeslice_left = Ticks.left timeslice_ticks;
  wake_at_tick = 0;
  exit_status = 0;
  uctx = zero_regs;
  fs_base = 0;
  address_space = 0;
  ipc_partner = 0;
  ipc_recv_after = 0;
  ipc_flags = 0;
  ipc_buffer = zero_msg;
  pager_tid = 0;
  parent_tid = 0;
  wait_filter = 0;
  execreq_slot = 0;
  last_cpu = no_cpu;
  pgid = tid;
  sid = tid;
  sig_pending = 0;
  sig_mask = 0;
  sig_actions = λ n. record { handler = 0; flags = 0; mask = 0 };
  in_sig_handler = false;
  saved_uctx_before_sig = zero_regs;
  saved_sig_mask = 0;
  rq_next = none;
  sq_next = none;
  inbox_next = none;
  send_q_head = none;
  send_q_tail = none;
}

-- The loop of `alloc_tcb` from entry `i` on, with `n` entries left.
unfoldable pub alloc_from : ℕ → ℕ → Sched → ℕ → Option ℕ × Sched
alloc_from zero i s prio = (none, s)
alloc_from (suc n) i s prio =
    let rest = alloc_from n (i + 1) s prio in
    if not (is_dead (s.threads i).state) then rest else (some i, put s i (fresh_tcb i prio))

unfoldable pub alloc_tcb : Sched → ℕ → Option ℕ × Sched
unfolding alloc_from
alloc_tcb s prio = alloc_from (max_threads - 1) 1 s prio

-- The setting of the registers is the architecture's; `none` stands for NULL.
unfoldable pub thread_create_user_locked : Sched → ℕ → ℕ → ℕ → Option ℕ × Sched
unfolding alloc_tcb
thread_create_user_locked s prio address_space pager_tid =
    let (found, s1) = alloc_tcb s prio in
    elim found [
      | none ↦ (none, s1)
      | some t ↦
          let s2 =
            put s1 t
              (record (s1.threads t) { address_space = address_space; pager_tid = pager_tid }) in
          (some t, sched_ready_now s2 t)
    ]

-- The loop of `sched_find_zombie_child` from entry `i` on: what was found, and `*out_has_live`.
unfoldable pub find_zombie_from : ℕ → ℕ → Sched → ℕ → ℕ → Option ℕ → Bool → Option ℕ × Bool
find_zombie_from zero i s parent filter found live = (found, live)
find_zombie_from (suc n) i s parent filter found live =
    let w = s.threads i in
    let first : Option ℕ = elim found [ none ↦ some i | some f ↦ some f ] in
    let skip = find_zombie_from n (i + 1) s parent filter found live in
    let zombie = find_zombie_from n (i + 1) s parent filter first live in
    let alive = find_zombie_from n (i + 1) s parent filter found true in
    if w.parent_tid != parent
    then skip
    else if filter != 0 && i != filter
    then skip
    else if is_zombie w.state
    then zombie
    else if not (is_dead w.state)
    then alive
    else skip

unfoldable pub sched_find_zombie_child : Sched → ℕ → ℕ → Option ℕ × Bool
unfolding find_zombie_from
sched_find_zombie_child s parent filter =
    find_zombie_from (max_threads - 1) 1 s parent filter none false

unfoldable pub sched_reap_zombie : Sched → ℕ → Sched
sched_reap_zombie s t = put s t (record (s.threads t) { state = ThreadState.dead })

alloc_from_lem :
    (n i : ℕ) (s : Sched) (prio : ℕ)
    → let (found, s') = alloc_from n i s prio in
      (found ≡ none
        → (s' ≡ s) × ((j : ℕ) → i ≤ j → j < i + n → is_dead (s.threads j).state ≡ false))
      × ((t : ℕ)
          → found ≡ some t
          → (i ≤ t)
            × (t < i + n)
            × (is_dead (s.threads t).state ≡ true)
            × ((j : ℕ) → i ≤ j → j < t → is_dead (s.threads j).state ≡ false)
            × (s' ≡ put s t (fresh_tcb t prio)))
unfolding alloc_from
alloc_from_lem zero i s prio =
    (λ e. (refl, λ j a b. absurd (omega arith)), λ t e. absurd (ground arith))
alloc_from_lem (suc n) i s prio = elim (Bool-cases (is_dead (s.threads i).state)) [
  | inl d ↦ rw d (
    λ e. absurd (ground arith),
    λ t e.
        subst
          (λ t.
            (i ≤ t)
            × (t < i + suc n)
            × (is_dead (s.threads t).state ≡ true)
            × ((j : ℕ) → i ≤ j → j < t → is_dead (s.threads j).state ≡ false)
            × (put s i (fresh_tcb i prio) ≡ put s t (fresh_tcb t prio)))
          (some-inj e) (omega arith, omega arith, d, λ j a b. absurd (omega arith), refl),
  )
  | inr d ↦
      let (a, b) = alloc_from_lem n (i + 1) s prio in
      rw d (
        λ e. let (same, all) = a e in (same, λ j lo hi. from_next j lo hi d all),
        λ t e.
            let (lo, hi, dead, before, made) = b t e in
            (
              omega arith,
              omega arith,
              dead,
              λ j lo' hi'. from_next_below t j lo' hi' d before,
              made,
            ),
      )
]
  where
    from_next :
        (j : ℕ)
        → i ≤ j
        → j < i + suc n
        → is_dead (s.threads i).state ≡ false
        → ((j : ℕ) → i + 1 ≤ j → j < i + 1 + n → is_dead (s.threads j).state ≡ false)
        → is_dead (s.threads j).state ≡ false
    from_next j lo hi d all = elim (ℕ_discrete j i) [
      | yes e ↦ rw e d
      | no ne ↦ all j (omega arith) (omega arith)
    ]

    from_next_below :
        (t j : ℕ)
        → i ≤ j
        → j < t
        → is_dead (s.threads i).state ≡ false
        → ((j : ℕ) → i + 1 ≤ j → j < t → is_dead (s.threads j).state ≡ false)
        → is_dead (s.threads j).state ≡ false
    from_next_below t j lo hi d all = elim (ℕ_discrete j i) [
      | yes e ↦ rw e d
      | no ne ↦ all j (omega arith) (omega arith)
    ]

-- `alloc_tcb` takes the first dead entry of the table, never entry 0, and writes a fresh record into
-- it and nothing else; it fails, without a change, exactly when no entry from 1 on is dead.
pub alloc_tcb_lem :
    (s : Sched) (prio : ℕ)
    → let (found, s') = alloc_tcb s prio in
      (found ≡ none
        → (s' ≡ s) × ((j : ℕ) → 1 ≤ j → j < max_threads → is_dead (s.threads j).state ≡ false))
      × ((t : ℕ)
          → found ≡ some t
          → (1 ≤ t)
            × (t < max_threads)
            × (is_dead (s.threads t).state ≡ true)
            × ((j : ℕ) → 1 ≤ j → j < t → is_dead (s.threads j).state ≡ false)
            × (s' ≡ put s t (fresh_tcb t prio)))
unfolding alloc_tcb
alloc_tcb_lem s prio = alloc_from_lem (max_threads - 1) 1 s prio
