-- ===== src/Sched/Chosen.antt =====
-- What `schedule` promises about the thread that runs after it.
use native.Mathlib.Decide.{dec_lt}
use robu_microkernel.Base.{
  ℕ, ◌<◌, ◌≡◌, refl, sym, ◌∙◌, false, Option, none, some, List, [], arith, All,
}
use robu_microkernel.Base.Chain.{Chain, NoDup, Has}
use robu_microkernel.Sched.Types.{Sched, max_threads}
use robu_microkernel.Sched.Ready.{rq_pop_highest}
use robu_microkernel.Sched.Ready.Rep.{Queues, Rep}
use robu_microkernel.Sched.Ready.Outcome.{Outcome, took, none_left}
use robu_microkernel.Sched.Ready.Pop.{rq_pop_highest-Outcome}
use robu_microkernel.Sched.Wake.Deliver.{LinksInTable, inbox_links}
use robu_microkernel.Sched.Wake.Inbox.{received, drain_inbox_lem, drain_inbox-current}
use robu_microkernel.Sched.Switch.{
  requeue, dispatch, schedule, requeue-Rep, dispatch-Rep, dispatch-RunsInSlice, dispatch-fields,
  NoneWaitsAbove, RunsInSlice,
}

not_in_empty : (u : ℕ) (xs : List ℕ) → xs ≡ [] → Has u xs → ⊥
not_in_empty u xs e h = rw e at h

none_above :
    (s s' : Sched) (qs : Queues) (o : Option ℕ) (cpu : ℕ)
    → Outcome s qs o s'
    → (qs' : Queues) × Rep s' qs' × NoneWaitsAbove (dispatch s' cpu o) cpu
none_above s s' qs o cpu (took t s'' qs' r' w) = (
  qs',
  r',
  λ u m.
      let (a, b, c, d) = dispatch-fields s'' cpu (some t) u in
      let (a', b', c', d') = dispatch-fields s'' cpu (some t) t in
      let k = (s''.threads u).prio in
      (
        t,
        c,
        elim (dec_lt (s.threads t).prio k) [
          | yes h ↦
              absurd (
                not_in_empty u (qs' k) (w.above_empty k h (r'.levels u))
                  (r'.complete u (sym b ∙ m)))
          | no h ↦ omega (arith, w.prios t)
        ],
      ),
)
none_above s s' qs o cpu (none_left s'' qs' r' e h) = (
  qs',
  r',
  λ u m.
      let (a, b, c, d) = dispatch-fields s'' cpu none u in
      absurd
        (not_in_empty u (qs' (s''.threads u).prio) (e _ (r'.levels u)) (r'.complete u (sym b ∙ m))),
)

-- On well-formed ready queues, with a proper inbox of different threads of the table, and with a
-- thread of the table or the idle thread running, `schedule` always ends. After it the queues are
-- well-formed again, no thread that is queued has a higher priority than the one that runs, none is
-- queued if the idle thread runs, the running thread is in the state for it with ticks left in its
-- slice, and no request to reschedule is pending on the CPU.
pub schedule_lem :
    (s : Sched) (qs : Queues) (ts : List ℕ) (cpu : ℕ)
    → Rep s qs
    → LinksInTable s
    → Chain (inbox_links s) s.wake_inbox ts
    → NoDup ts
    → All (λ t. t < max_threads) ts
    → ((t : ℕ) → s.current cpu ≡ some t → t < max_threads)
    → (s' : Sched) × (schedule s cpu ≡ some s')
      × ((qs' : Queues) × Rep s' qs')
      × NoneWaitsAbove s' cpu
      × RunsInSlice s' cpu
      × (s'.need_resched cpu ≡ false)
unfolding schedule
schedule_lem s qs ts cpu r l c d k m =
    let (s1, e, r1) = drain_inbox_lem s qs ts r l c d k in
    let same : (t : ℕ) → s1.current cpu ≡ some t → s.current cpu ≡ some t =
      λ t c'. rw (drain_inbox-current s s1 e) at c' in
    let (qs2, r2) =
      requeue-Rep s1 (received s qs ts) (s1.current cpu) (λ t c'. m t (same t c')) r1 in
    let (o, s3) = rq_pop_highest (requeue s1 (s1.current cpu)) cpu in
    let (qs3, r3, n) = none_above _ s3 qs2 o cpu (rq_pop_highest-Outcome _ qs2 cpu r2) in
    (
      dispatch s3 cpu o,
      rw (e, schedule) refl,
      (qs3, dispatch-Rep s3 qs3 cpu o r3),
      n,
      dispatch-RunsInSlice s3 cpu o,
      (dispatch-fields s3 cpu o 0).3,
    )
