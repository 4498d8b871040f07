-- ===== src/Sched/Switch.antt =====
-- `schedule`: the choice of the next thread, and what the timer's tick does to the running one.
use robu_microkernel.Base.{
  ℕ, ◌≤◌, ◌<◌, ◌≡◌, refl, sym, ◌∙◌, true, false, Option, none, some, List, [], ◌∷◌, arith,
  if◌then◌else◌, All, Bool-cases, inl, inr, ==_refl,
}
use robu_microkernel.Base.Words.{add64}
use robu_microkernel.Base.Chain.{upd, Chain-frame, All-imp}
use robu_microkernel.Sched.Types.{
  ThreadState, Sched, Ticks, expired, spend, is_running, is_ready, timeslice_ticks, max_threads,
}
use robu_microkernel.Sched.Ready.{put, rq_push, rq_pop_highest}
use robu_microkernel.Sched.Ready.Rep.{Queues, Queued, rq_links, Rep}
use robu_microkernel.Sched.Ready.Push.{enqueued, rq_push-Rep}
use robu_microkernel.Sched.Wake.{drain_inbox}

-- The thread that ran goes back to its queue if it is still willing to run. The idle thread is in
-- no queue.
unfoldable pub requeue : Sched → Option ℕ → Sched
requeue s none = s
requeue s (some t) =
    let s1 =
      if is_running (s.threads t).state
      then put s t (record (s.threads t) { state = ThreadState.ready })
      else s in
    if is_ready (s1.threads t).state then rq_push s1 t else s1

-- The chosen thread runs, or the idle thread if there is none.
unfoldable pub dispatch : Sched → ℕ → Option ℕ → Sched
dispatch s cpu next =
    let s1 : Sched = elim next [
      | none ↦ s
      | some t ↦
          let r = s.threads t in
          let slice =
            if expired r.timeslice_left then Ticks.left timeslice_ticks else r.timeslice_left in
          put s t (record r { state = ThreadState.running; last_cpu = cpu; timeslice_left = slice })
    ] in
    record s1 {
      current = upd s1.current cpu next;
      need_resched = upd s1.need_resched cpu false;
      stats = record (s1.stats) { full_scheds = add64 s1.stats.full_scheds 1 };
    }

-- `none` if the inbox cannot be drained within the fuel of `drain_inbox`.
unfoldable pub schedule : Sched → ℕ → Option Sched
schedule s cpu = elim (drain_inbox s) [
  | none ↦ none
  | some s1 ↦
      let (next, s2) = rq_pop_highest (requeue s1 (s1.current cpu)) cpu in
      some (dispatch s2 cpu next)
]

-- The running thread's slice shrinks by the ticks that passed; when it is used up, the CPU is asked
-- to reschedule. The idle thread has no slice.
unfoldable pub sched_tick_local : Sched → ℕ → ℕ → Sched
sched_tick_local s cpu n = elim (s.current cpu) [
  | none ↦ s
  | some t ↦
      let r = s.threads t in
      let s1 = put s t (record r { timeslice_left = spend r.timeslice_left n }) in
      if expired (spend r.timeslice_left n)
      then record s1 {
        need_resched = upd s1.need_resched cpu true;
        stats = record (s1.stats) { preempts = add64 s1.stats.preempts 1 };
      }
      else s1
]

restated-Rep :
    (s : Sched) (qs : Queues) (t : ℕ) (state : ThreadState) (cpu : ℕ) (slice : Ticks)
    → Rep s qs
    → Rep
        (put s t (record (s.threads t) { state = state; last_cpu = cpu; timeslice_left = slice }))
        qs
restated-Rep s qs t state cpu slice r =
    let s' =
      put s t (record (s.threads t) { state = state; last_cpu = cpu; timeslice_left = slice }) in
    let prio : (u : ℕ) → (s'.threads u).prio ≡ (s.threads u).prio = λ u. ground arith in
    let mark : (u : ℕ) → (s'.threads u).in_ready_q ≡ (s.threads u).in_ready_q = λ u. ground arith in
    let link : (u : ℕ) → rq_links s' u ≡ rq_links s u = λ u. ground arith in
    record {
      levels = λ u. rw (prio u) (r.levels u);
      in_table = λ u e. r.in_table u (sym (mark u) ∙ e);
      chains = λ p.
          Chain-frame (rq_links s) (rq_links s') (qs p) (s.ready_head p) (links_agree (qs p) link)
            (r.chains p);
      tails = r.tails;
      no_dup = r.no_dup;
      marked = λ p.
          All-imp (Queued s p) (Queued s' p) (qs p) (λ u h. (mark u ∙ h.0, prio u ∙ h.1))
            (r.marked p);
      complete = λ u e. rw (prio u) (r.complete u (sym (mark u) ∙ e));
      bits = r.bits;
      word = r.word;
    }
  where
    links_agree :
        (xs : List ℕ) → {f g : ℕ → Option ℕ} → ((u : ℕ) → f u ≡ g u) → All (λ u. f u ≡ g u) xs
    links_agree [] h = tt
    links_agree (x ∷ xs) h = (h x, links_agree xs h)

pub requeue-Rep :
    (s : Sched) (qs : Queues) (o : Option ℕ)
    → ((t : ℕ) → o ≡ some t → t < max_threads)
    → Rep s qs
    → (qs' : Queues) × Rep (requeue s o) qs'
unfolding requeue
requeue-Rep s qs none k r = (qs, r)
requeue-Rep s qs (some t) k r = elim (Bool-cases (is_running (s.threads t).state)) [
  | inl e ↦
      let s1 = put s t (record (s.threads t) { state = ThreadState.ready }) in
      let r1 =
        restated-Rep s qs t ThreadState.ready (s.threads t).last_cpu (s.threads t).timeslice_left
          r in
      rw (e, ==_refl t) (enqueued s1 qs t, rq_push-Rep s1 qs t (k t refl) r1)
  | inr e ↦ elim (Bool-cases (is_ready (s.threads t).state)) [
    | inl e' ↦ rw (e, e') (enqueued s qs t, rq_push-Rep s qs t (k t refl) r)
    | inr e' ↦ rw (e, e') (qs, r)
  ]
]

-- No queued thread has a higher priority than the thread that runs, and if the idle thread runs
-- then no thread is queued at all.
abbrev pub NoneWaitsAbove : Sched → ℕ → Type 0
NoneWaitsAbove s cpu =
    (u : ℕ)
    → (s.threads u).in_ready_q ≡ true
    → (t : ℕ) × (s.current cpu ≡ some t) × ((s.threads u).prio ≤ (s.threads t).prio)

-- The thread that runs is in the state for it and has ticks left.
abbrev pub RunsInSlice : Sched → ℕ → Type 0
RunsInSlice s cpu =
    (t : ℕ)
    → s.current cpu ≡ some t
    → (is_running (s.threads t).state ≡ true) × (expired (s.threads t).timeslice_left ≡ false)

pub dispatch-Rep :
    (s : Sched) (qs : Queues) (cpu : ℕ) (o : Option ℕ) → Rep s qs → Rep (dispatch s cpu o) qs
unfolding dispatch
dispatch-Rep s qs cpu none r = record {
  levels = r.levels;
  in_table = r.in_table;
  chains = r.chains;
  tails = r.tails;
  no_dup = r.no_dup;
  marked = r.marked;
  complete = r.complete;
  bits = r.bits;
  word = r.word;
}
dispatch-Rep s qs cpu (some t) r =
    let slice =
      if expired (s.threads t).timeslice_left
      then Ticks.left timeslice_ticks
      else (s.threads t).timeslice_left in
    let r1 = restated-Rep s qs t ThreadState.running cpu slice r in
    record {
      levels = r1.levels;
      in_table = r1.in_table;
      chains = r1.chains;
      tails = r1.tails;
      no_dup = r1.no_dup;
      marked = r1.marked;
      complete = r1.complete;
      bits = r1.bits;
      word = r1.word;
    }

pub dispatch-RunsInSlice : (s : Sched) (cpu : ℕ) (o : Option ℕ) → RunsInSlice (dispatch s cpu o) cpu
unfolding dispatch
dispatch-RunsInSlice s cpu none t e = ground arith
dispatch-RunsInSlice s cpu (some u) t e = ground arith

pub dispatch-fields :
    (s : Sched) (cpu : ℕ) (o : Option ℕ) (u : ℕ)
    → (((dispatch s cpu o).threads u).prio ≡ (s.threads u).prio)
      × (((dispatch s cpu o).threads u).in_ready_q ≡ (s.threads u).in_ready_q)
      × ((dispatch s cpu o).current cpu ≡ o)
      × ((dispatch s cpu o).need_resched cpu ≡ false)
unfolding dispatch
dispatch-fields s cpu none u = rw (==_refl cpu) (refl, refl, refl, refl)
dispatch-fields s cpu (some t) u = rw (==_refl cpu) (ground arith, ground arith, refl, refl)
