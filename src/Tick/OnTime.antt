-- ===== src/Tick/OnTime.antt =====
-- No sleeper oversleeps.
use native.Mathlib.Decide.{ℕ_discrete}
use robu_microkernel.Base.{
  ℕ, zero, suc, ◌+◌, ◌-◌, ◌≤◌, ◌<◌, ◌≡◌, refl, true, false, not, ◌&&◌, ◌||◌, arith, ltb, leb, ◌!=◌,
  if◌then◌else◌, Bool-cases, Option-cases, inl, inr,
}
use robu_microkernel.Base.Words.{add64}
use robu_microkernel.Sched.Types.{
  ThreadState, Sched, expired, spend, is_sleeping, is_dead, is_running, is_zombie, max_threads,
  no_deadline,
}
use robu_microkernel.Status.{Status}
use robu_microkernel.Sched.Ready.{put}
use robu_microkernel.Sched.Table.{sched_get_tcb}
use robu_microkernel.Sched.Wake.{sched_wake, sched_arm_next_deadline}
use robu_microkernel.Sched.Wake.Deadline.{sched_wake-state, sched_wake-now}
use robu_microkernel.Sched.Switch.{sched_tick_local}
use robu_microkernel.Captable.{Caps, notif_deliver, hand_over}
use robu_microkernel.Captable.Timers.{cap_timer_rescan, rescan_from, fire}
use robu_microkernel.Tick.{
  wake_if_due, wake_sleepers, meet_deadline, pass_time, sched_tick, ticks_passed,
}

-- Thread `t` does not sleep, or its time to wake lies ahead and the next deadline is not later.
abbrev pub SleepsOnTime : Sched → ℕ → Type 0
SleepsOnTime s t =
    is_sleeping (s.threads t).state ≡ true
    → (s.now_ticks < (s.threads t).wake_at_tick) × (s.next_deadline ≤ (s.threads t).wake_at_tick)

-- What one turn of the loop does to the threads: its own is on time, no other is worse off.
record Turned (s s' : Sched) (i : ℕ) : Type 0 where
  own : SleepsOnTime s' i
  kept : (j : ℕ) → SleepsOnTime s j → SleepsOnTime s' j

sleeper_is_wakeable :
    (st : ThreadState)
    → is_sleeping st ≡ true
    → (is_dead st || is_running st || is_zombie st) ≡ false
sleeper_is_wakeable st e = ground arith

-- Waking a thread makes no thread late.
waking_keeps : (s : Sched) (cpu i j : ℕ) → SleepsOnTime s j → SleepsOnTime (sched_wake s cpu i) j
waking_keeps s cpu i j h q =
    let (a, b, c) = sched_wake-state s cpu i j in
    let asleep : is_sleeping (s.threads j).state ≡ true = ground arith in
    rw (sched_wake-now s cpu i, b, c) (h asleep)

-- A sleeper that is woken sleeps no longer, and no other thread's sleep has changed.
woken-SleepsOnTime :
    (s : Sched) (cpu i : ℕ)
    → is_sleeping (s.threads i).state ≡ true
    → SleepsOnTime (sched_wake s cpu i) i
woken-SleepsOnTime s cpu i e q =
    let w = sched_wake-state s cpu i i in
    absurd (ground (arith, sleeper_is_wakeable (s.threads i).state e))

wake_if_due-Turned : (s : Sched) (cpu i : ℕ) → Turned s (wake_if_due s cpu i) i
unfolding wake_if_due
wake_if_due-Turned s cpu i = elim (Bool-cases (is_sleeping (s.threads i).state)) [
  | inr e ↦ rw e (record { own = λ q. absurd (ground arith); kept = λ j h. h })
  | inl e ↦ elim (Bool-cases (leb (s.threads i).wake_at_tick s.now_ticks)) [
    | inl f ↦ rw (e, f) (record { own = woken-SleepsOnTime s cpu i e; kept = waking_keeps s cpu i })
    | inr f ↦ elim (Bool-cases (ltb (s.threads i).wake_at_tick s.next_deadline)) [
      | inl g ↦
          rw (e, f, g) (record { own = λ q. ground arith; kept = λ j h q. ground (arith, h q) })
      | inr g ↦ rw (e, f, g) (record { own = λ q. ground arith; kept = λ j h. h })
    ]
  ]
]

-- After the loop every thread that it has passed is on time, and no other has become late.
wake_sleepers_lem :
    (n i : ℕ) (s : Sched) (cpu : ℕ)
    → ((j : ℕ) → i ≤ j → j < i + n → SleepsOnTime (wake_sleepers n i s cpu) j)
      × ((j : ℕ) → SleepsOnTime s j → SleepsOnTime (wake_sleepers n i s cpu) j)
unfolding wake_sleepers
wake_sleepers_lem zero i s cpu = (λ j lo hi. absurd (omega arith), λ j h. h)
wake_sleepers_lem (suc n) i s cpu =
    let t = wake_if_due-Turned s cpu i in
    let (a, b) = wake_sleepers_lem n (i + 1) (wake_if_due s cpu i) cpu in
    (
      λ j lo hi. elim (ℕ_discrete j i) [
        | yes e ↦ b j (rw e t.own)
        | no ne ↦ a j (omega arith) (omega arith)
      ],
      λ j h. b j (t.kept j h),
    )

-- What a signal does to a waiter makes no thread late.
hand_over_keeps :
    (s : Sched) (cpu waiter word j : ℕ)
    → SleepsOnTime s j
    → SleepsOnTime (hand_over s cpu waiter word) j
hand_over_keeps s cpu waiter word j h = elim (Option-cases (sched_get_tcb s waiter)) [
  | inl e ↦ rw (e, hand_over) h
  | inr (t, e) ↦
      let r = record ((s.threads t).uctx) { r8 = word; rax = Status.ok } in
      let s1 = put s t (record (s.threads t) { uctx = r }) in
      let same : (s1.threads j).state ≡ (s.threads j).state = ground arith in
      let same' : (s1.threads j).wake_at_tick ≡ (s.threads j).wake_at_tick = ground arith in
      rw (e, hand_over) (waking_keeps s1 cpu t j (rw (same, same') h))
]

deliver_keeps :
    (c : Caps) (cpu idx bits j : ℕ)
    → SleepsOnTime c.sched j
    → SleepsOnTime (notif_deliver c cpu idx bits).sched j
unfolding notif_deliver
deliver_keeps c cpu idx bits j h = elim (Bool-cases ((c.notif_table idx).waiter != 0)) [
  | inl e ↦ rw e (hand_over_keeps c.sched cpu _ _ j h)
  | inr e ↦ rw e h
]

fire_keeps :
    (c : Caps) (cpu i now j : ℕ) → SleepsOnTime c.sched j → SleepsOnTime (fire c cpu i now).sched j
unfolding fire
fire_keeps c cpu i now j h =
    let t = c.timer_table i in
    let d = deliver_keeps c cpu t.notif_idx t.signal_bits j h in
    elim (Bool-cases (t.period_ticks != 0)) [ inl e ↦ rw e d | inr e ↦ rw e d ]

rescan_keeps :
    (n i : ℕ) (c : Caps) (cpu now next j : ℕ)
    → SleepsOnTime c.sched j
    → SleepsOnTime (rescan_from n i c cpu now next).1.sched j
unfolding rescan_from
rescan_keeps zero i c cpu now next j h = h
rescan_keeps (suc n) i c cpu now next j h =
    let t = c.timer_table i in
    let idle = not t.in_use || not t.armed in
    let c1 = if not idle && leb t.deadline_tick now then fire c cpu i now else c in
    let t1 = c1.timer_table i in
    let counts = not idle && t1.armed && ltb t1.deadline_tick next in
    let fired : SleepsOnTime c1.sched j = elim (Bool-cases (not idle && leb t.deadline_tick now)) [
      | inl e ↦ rw e (fire_keeps c cpu i now j h)
      | inr e ↦ rw e h
    ] in
    rescan_keeps n (i + 1) c1 cpu now (if counts then t1.deadline_tick else next) j fired

meet_deadline-SleepsOnTime :
    (c : Caps) (cpu j : ℕ) → 1 ≤ j → j < max_threads → SleepsOnTime (meet_deadline c cpu).sched j
unfolding meet_deadline cap_timer_rescan
meet_deadline-SleepsOnTime c cpu j lo hi =
    let s0 = record (c.sched) { next_deadline = no_deadline } in
    let s1 = wake_sleepers (max_threads - 1) 1 s0 cpu in
    let c1 = record c { sched = s1 } in
    let woken = (wake_sleepers_lem (max_threads - 1) 1 s0 cpu).0 j lo hi in
    let h = rescan_keeps c.timer_count 0 c1 cpu s1.now_ticks no_deadline j woken in
    let next = (rescan_from c.timer_count 0 c1 cpu s1.now_ticks no_deadline).0 in
    let c2 = (rescan_from c.timer_count 0 c1 cpu s1.now_ticks no_deadline).1 in
    elim (Bool-cases (ltb next c2.sched.next_deadline)) [
      | inl e ↦ rw e (λ q. let (a, b) = h q in (a, ground arith))
      | inr e ↦ rw e h
    ]

pass_time-SleepsOnTime :
    (c : Caps) (cpu n j : ℕ)
    → 1 ≤ j
    → j < max_threads
    → (is_sleeping (c.sched.threads j).state ≡ true
        → c.sched.next_deadline ≤ (c.sched.threads j).wake_at_tick)
    → SleepsOnTime (pass_time c cpu n).sched j
unfolding pass_time
pass_time-SleepsOnTime c cpu n j lo hi h =
    elim (Bool-cases (leb c.sched.next_deadline (add64 c.sched.now_ticks n))) [
      | inl e ↦ rw e (meet_deadline-SleepsOnTime _ cpu j lo hi)
      | inr e ↦ rw e (λ q. let d = h q in (ground arith, d))
    ]

-- The running thread's slice has nothing to do with sleep.
tick_local-fields :
    (s : Sched) (cpu n j : ℕ)
    → let s' = sched_tick_local s cpu n in
      ((s'.threads j).state ≡ (s.threads j).state)
      × ((s'.threads j).wake_at_tick ≡ (s.threads j).wake_at_tick)
      × (s'.now_ticks ≡ s.now_ticks)
      × (s'.next_deadline ≡ s.next_deadline)
unfolding sched_tick_local
tick_local-fields s cpu n j = elim (Option-cases (s.current cpu)) [
  | inl e ↦ rw (e, sched_tick_local) (refl, refl, refl, refl)
  | inr (t, e) ↦ elim (Bool-cases (expired (spend (s.threads t).timeslice_left n))) [
    | inl f ↦ rw (e, f, sched_tick_local) (ground arith, ground arith, refl, refl)
    | inr f ↦ rw (e, f, sched_tick_local) (ground arith, ground arith, refl, refl)
  ]
]

-- If the next deadline is not later than a thread's time to wake whenever it sleeps, then after a tick
-- on CPU 0 the thread does not sleep, or its time to wake still lies ahead and the next deadline is
-- again not later: nobody oversleeps, and the timers that fire in the tick do not break this.
pub sched_tick-SleepsOnTime :
    (c : Caps) (t : ℕ)
    → 1 ≤ t
    → t < max_threads
    → (is_sleeping (c.sched.threads t).state ≡ true
        → c.sched.next_deadline ≤ (c.sched.threads t).wake_at_tick)
    → SleepsOnTime (sched_tick c 0).sched t
unfolding sched_tick sched_arm_next_deadline
sched_tick-SleepsOnTime c t lo hi h =
    let n = ticks_passed c.sched 0 in
    let c1 = record c {
      sched = record (c.sched) {
        stats = record (c.sched.stats) { timer_traps = add64 c.sched.stats.timer_traps 1 };
      };
    } in
    let p = pass_time-SleepsOnTime c1 0 n t lo hi h in
    let (a, b, d, e) = tick_local-fields (pass_time c1 0 n).sched 0 n t in rw (a, b, d, e) p
