-- ===== src/Captable/Timers.antt =====
-- The timers: `cap_timer_rescan`, called when the next deadline has come.
use native.Mathlib.Decide.{ℕ_discrete}
use robu_microkernel.Base.{
  ℕ, zero, suc, ◌+◌, ◌≤◌, ◌<◌, ◌≡◌, ◌^◌, refl, ◌∙◌, ◌≢◌, inl, inr, Bool, true, false, not, ◌&&◌,
  ◌||◌, arith, ltb, leb, ◌!=◌, if◌then◌else◌, Bool-cases, ==_refl, ne→==,
}
use robu_microkernel.Base.Words.{u64, add64}
use robu_microkernel.Base.Chain.{upd}
use robu_microkernel.Sched.Types.{no_deadline}
use robu_microkernel.Captable.{Caps, Timer, notif_deliver}

-- The loop that moves a deadline past `now`, on fuel. With a round for each value that the deadline can
-- have, the fuel runs out only where the loop of the source comes round and never ends.
unfoldable pub catch_up : ℕ → ℕ → ℕ → ℕ → ℕ
catch_up zero deadline period now = deadline
catch_up (suc fuel) deadline period now = elim (leb deadline now) [
  | true ↦ catch_up fuel (add64 deadline period) period now
  | false ↦ deadline
]

abbrev pub put_timer : Caps → ℕ → Timer → Caps
put_timer c i t = record c { timer_table = upd c.timer_table i t }

-- A timer whose time has come fires: it signals, and is moved on or disarmed.
unfoldable pub fire : Caps → ℕ → ℕ → ℕ → Caps
unfolding catch_up
fire c cpu i now =
    let t = c.timer_table i in
    let c1 = notif_deliver c cpu t.notif_idx t.signal_bits in
    let moved = catch_up u64 t.deadline_tick t.period_ticks now in
    if t.period_ticks != 0
    then put_timer c1 i (record (c1.timer_table i) { deadline_tick = moved })
    else put_timer c1 i (record (c1.timer_table i) { armed = false })

-- The loop from timer `i` on with `n` timers left; `next` is the earliest deadline so far.
unfoldable pub rescan_from : ℕ → ℕ → Caps → ℕ → ℕ → ℕ → ℕ × Caps
unfolding fire
rescan_from zero i c cpu now next = (next, c)
rescan_from (suc n) i c cpu now next =
    let t = c.timer_table i in
    let idle = not t.in_use || not t.armed in
    let c1 = if not idle && leb t.deadline_tick now then fire c cpu i now else c in
    let t1 = c1.timer_table i in
    let counts = not idle && t1.armed && ltb t1.deadline_tick next in
    rescan_from n (i + 1) c1 cpu now (if counts then t1.deadline_tick else next)

-- The number is `*out_next`.
unfoldable pub cap_timer_rescan : Caps → ℕ → ℕ → ℕ × Caps
unfolding rescan_from
cap_timer_rescan c cpu now = rescan_from c.timer_count 0 c cpu now no_deadline

-- The loop ends past `now` with fuel for the ticks that are missing.
pub catch_up-lt :
    (fuel deadline period now : ℕ)
    → 0 < period
    → now + period < 2 ^ 64
    → now < deadline + fuel
    → now < catch_up fuel deadline period now
unfolding catch_up
catch_up-lt zero deadline period now p r h = omega arith
catch_up-lt (suc fuel) deadline period now p r h = elim (Bool-cases (leb deadline now)) [
  | inl e ↦
      let sum : add64 deadline period ≡ deadline + period = ground arith in
      rw (e, catch_up) (catch_up-lt fuel (add64 deadline period) period now p r (omega arith))
  | inr e ↦ rw (e, catch_up) (ground arith)
]

-- The signal leaves the timers alone.
deliver-timers :
    (c : Caps) (cpu idx bits : ℕ) → (notif_deliver c cpu idx bits).timer_table ≡ c.timer_table
unfolding notif_deliver
deliver-timers c cpu idx bits = elim (Bool-cases ((c.notif_table idx).waiter != 0)) [
  | inl e ↦ rw e refl
  | inr e ↦ rw e refl
]

-- No timer's period makes the sum with the time leave the C type.
abbrev pub PeriodsFit : Caps → ℕ → Type 0
PeriodsFit c now = (j : ℕ) → now + (c.timer_table j).period_ticks < 2 ^ 64

abbrev pub IsArmed : Timer → Type 0
IsArmed t = (t.in_use ≡ true) × (t.armed ≡ true)

module _ (c : Caps) (cpu i now : ℕ) where
  abbrev fired : Caps
  fired = fire c cpu i now

  fire-other : (j : ℕ) → j ≢ i → fired.timer_table j ≡ c.timer_table j
  unfolding fire
  fire-other j n =
      let t = c.timer_table i in
      let d = deliver-timers c cpu t.notif_idx t.signal_bits in
      elim (Bool-cases (t.period_ticks != 0)) [
        | inl e ↦ rw (e, ne→== j i n, d) refl
        | inr e ↦ rw (e, ne→== j i n, d) refl
      ]

  -- After a timer has fired, its deadline lies ahead or it is disarmed.
  fire-ahead :
      PeriodsFit c now
      → (fired.timer_table i).armed ≡ true
      → now < (fired.timer_table i).deadline_tick
  unfolding fire
  fire-ahead fit =
      let t = c.timer_table i in
      elim (Bool-cases (t.period_ticks != 0)) [
        | inl e ↦
            rw (e, ==_refl i)
              (λ a.
                catch_up-lt u64 t.deadline_tick t.period_ticks now (ground arith) (fit i)
                  (omega (arith, fit i)))
        | inr e ↦ rw (e, ==_refl i) (λ a. absurd (ground arith))
      ]

  fire-period : (fired.timer_table i).period_ticks ≡ (c.timer_table i).period_ticks
  unfolding fire
  fire-period =
      let t = c.timer_table i in
      let d = deliver-timers c cpu t.notif_idx t.signal_bits in
      elim (Bool-cases (t.period_ticks != 0)) [
        | inl e ↦ rw (e, ==_refl i, d) refl
        | inr e ↦ rw (e, ==_refl i, d) refl
      ]

-- What the loop from timer `i` on leaves: the timers before `i` are as they were, those from `i` on
-- lie ahead if they are armed, and the earliest deadline is none later than theirs.
record Rescanned (c : Caps) (i n now next : ℕ) (next' : ℕ) (c' : Caps) : Type 0 where
  before_kept : (j : ℕ) → j < i → c'.timer_table j ≡ c.timer_table j
  ahead :
      (j : ℕ)
      → i ≤ j
      → j < i + n
      → IsArmed (c'.timer_table j)
      → now < (c'.timer_table j).deadline_tick
  earliest :
      (j : ℕ)
      → i ≤ j
      → j < i + n
      → IsArmed (c'.timer_table j)
      → next' ≤ (c'.timer_table j).deadline_tick
  not_later : next' ≤ next

-- One round.
abbrev round : Caps → ℕ → ℕ → ℕ → Caps
round c cpu i now =
    let t = c.timer_table i in
    let idle = not t.in_use || not t.armed in
    if not idle && leb t.deadline_tick now then fire c cpu i now else c

fire-in_use :
    (c : Caps) (cpu i now : ℕ)
    → ((fire c cpu i now).timer_table i).in_use ≡ (c.timer_table i).in_use
unfolding fire
fire-in_use c cpu i now =
    let t = c.timer_table i in
    let d = deliver-timers c cpu t.notif_idx t.signal_bits in
    elim (Bool-cases (t.period_ticks != 0)) [
      | inl e ↦ rw (e, ==_refl i, d) refl
      | inr e ↦ rw (e, ==_refl i, d) refl
    ]

-- What a round does to its own timer, to the others, and to the periods.
round_lem :
    (c : Caps) (cpu i now : ℕ)
    → PeriodsFit c now
    → ((j : ℕ) → j ≢ i → (round c cpu i now).timer_table j ≡ c.timer_table j)
      × (IsArmed ((round c cpu i now).timer_table i)
          → (now < ((round c cpu i now).timer_table i).deadline_tick)
            × ((not (c.timer_table i).in_use || not (c.timer_table i).armed) ≡ false))
      × PeriodsFit (round c cpu i now) now
round_lem c cpu i now fit =
    let t = c.timer_table i in
    let idle = not t.in_use || not t.armed in
    elim (Bool-cases (not idle && leb t.deadline_tick now)) [
      | inl e ↦ rw e (
        fire-other c cpu i now,
        λ a. (fire-ahead c cpu i now fit a.1, ground arith),
        λ j. elim (ℕ_discrete j i) [
          | yes q ↦ rw (q, fire-period c cpu i now) (fit i)
          | no n ↦ rw (fire-other c cpu i now j n) (fit j)
        ],
      )
      | inr e ↦ rw e (λ j n. refl, λ a. unfired t.in_use t.armed t.deadline_tick e a.0 a.1, fit)
    ]
  where
    unfired :
        (u a : Bool) (d : ℕ)
        → (not (not u || not a) && leb d now) ≡ false
        → u ≡ true
        → a ≡ true
        → (now < d) × ((not u || not a) ≡ false)
    unfired u a d e p q = rw (p, q) (ground (arith, rw (p, q) at e), refl)

rescan_from-Rescanned :
    (n i : ℕ) (c : Caps) (cpu now next : ℕ)
    → PeriodsFit c now
    → let (next', c') = rescan_from n i c cpu now next in Rescanned c i n now next next' c'
unfolding rescan_from
rescan_from-Rescanned zero i c cpu now next fit = record {
  before_kept = λ j h. refl;
  ahead = λ j lo hi a. absurd (omega arith);
  earliest = λ j lo hi a. absurd (omega arith);
  not_later = omega arith;
}
rescan_from-Rescanned (suc n) i c cpu now next fit =
    let c1 = round c cpu i now in
    let t = c.timer_table i in
    let idle = not t.in_use || not t.armed in
    let t1 = c1.timer_table i in
    let counts = not idle && t1.armed && ltb t1.deadline_tick next in
    let next1 = if counts then t1.deadline_tick else next in
    let (other, own, fit') = round_lem c cpu i now fit in
    let r = rescan_from-Rescanned n (i + 1) c1 cpu now next1 fit' in
    let (next', c') = rescan_from n (i + 1) c1 cpu now next1 in
    let here : c'.timer_table i ≡ t1 = r.before_kept i (omega arith) in
    record {
      before_kept = λ j h. r.before_kept j (omega arith) ∙ other j (λ e. omega arith);
      ahead = λ j lo hi a. elim (ℕ_discrete j i) [
        | yes e ↦ rw (e, here) (own (rw (e, here) at a)).0
        | no ne ↦ r.ahead j (omega arith) (omega arith) a
      ];
      earliest = λ j lo hi a. elim (ℕ_discrete j i) [
        | yes e ↦
            let b = rw (e, here) at a in
            let q = (own b).1 in
            let arm = b.1 in
            let low : next1 ≤ t1.deadline_tick = ground arith in
            rw (e, here) (omega (arith, low, r.not_later))
        | no ne ↦ r.earliest j (omega arith) (omega arith) a
      ];
      not_later = let low : next1 ≤ next = ground arith in omega (arith, low, r.not_later);
    }

-- If the sum of `now` and each timer's period is below 2^64, then after a rescan every armed timer of the
-- table has its deadline after `now`, a timer that fired and is armed again included, and the deadline
-- that the rescan returns is not later than any of them.
pub cap_timer_rescan_lem :
    (c : Caps) (cpu now j : ℕ)
    → PeriodsFit c now
    → j < c.timer_count
    → IsArmed ((cap_timer_rescan c cpu now).1.timer_table j)
    → let (next, c') = cap_timer_rescan c cpu now in
      (now < (c'.timer_table j).deadline_tick) × (next ≤ (c'.timer_table j).deadline_tick)
unfolding cap_timer_rescan
cap_timer_rescan_lem c cpu now j fit h a =
    let r = rescan_from-Rescanned c.timer_count 0 c cpu now no_deadline fit in
    (r.ahead j (omega arith) (omega arith) a, r.earliest j (omega arith) (omega arith) a)
