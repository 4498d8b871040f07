-- ===== src/Sched/Ready/Pop.antt =====
-- `rq_pop_highest` takes the first ready thread of the highest priority.
use native.Mathlib.Decide.{ℕ_discrete, dec_lt}
use robu_microkernel.Base.{
  ℕ, zero, suc, ◌≤◌, ◌<◌, ◌≡◌, refl, sym, ap, subst, ◌∙◌, true, false, Option, none, some, List, [],
  ◌∷◌, ◌==◌, if◌then◌else◌, arith, All, Bool-cases, inl, inr, ==_refl, ne→==,
}
use robu_microkernel.Base.Bits.{bit, eq-zero_of_bits, bit-zero}
use robu_microkernel.Base.Chain.{upd, All-imp}
use robu_microkernel.Sched.Types.{Sched, prio_levels, max_threads, is_ready}
use robu_microkernel.Sched.Ready.{rq_unlink, top_bit, count_affinity, pop_loop, rq_pop_highest}
use robu_microkernel.Sched.Ready.Rep.{Queues, Queued, Rep}
use robu_microkernel.Sched.Ready.Unlink.{
  unlinked-Rep, state-unlinked, prio-unlinked, mark-unlinked, head_of_queue,
}
use robu_microkernel.Sched.Ready.Outcome.{
  top_bit_lem, marked_below, marked_below-le, Unready, Popped, Outcome, nil_of_nonempty,
  cons_of_nonempty, append-ne-nil, marked_below-drop, counted-Rep, state-counted, prio-counted,
  took, none_left,
}

module _ (s : Sched) (qs : Queues) (r : Rep s qs) (p t : ℕ) (rest : List ℕ)
    (level : p < prio_levels) (head : qs p ≡ t ∷ rest)
    (empty_above : (q : ℕ) → p < q → q < prio_levels → qs q ≡ []) where
  abbrev s1 : Sched
  s1 = rq_unlink s p none t

  abbrev qs1 : Queues
  qs1 = upd qs p rest

  r1 : Rep s1 qs1
  r1 = unlinked-Rep s qs r p t rest head

  state1 : (u : ℕ) → (s1.threads u).state ≡ (s.threads u).state
  state1 = state-unlinked s qs r p t rest head

  prio1 : (u : ℕ) → (s1.threads u).prio ≡ (s.threads u).prio
  prio1 = prio-unlinked s qs r p t rest head

  here : Queued s p t
  here = (subst (All (Queued s p)) head (r.marked p)).0

  none_above : (q : ℕ) → p < q → q < prio_levels → All (Unready s) (qs q)
  none_above q h h' = rw (empty_above q h h') tt

  unready1 : (u : ℕ) → Unready s1 u → Unready s u
  unready1 u h = subst (λ x. is_ready x ≡ false) (state1 u) h

  took_head :
      (cpu : ℕ)
      → is_ready (s.threads t).state ≡ true
      → Outcome s qs (some t) (count_affinity s1 t cpu)
  took_head cpu ok = took t (count_affinity s1 t cpu) qs1 (counted-Rep s1 qs1 t cpu r1) (record {
    level = r.levels t;
    is_ready_now = ok;
    skipped = [];
    front = rw (here.1, ==_refl p) head;
    skipped_unready = tt;
    above_unready = λ q h h'. none_above q (subst (λ k. k < q) here.1 h) h';
    above_empty = λ q h h'.
        rw (ne→== q p (λ e. absurd (omega (arith, here.1))))
          (empty_above q (subst (λ k. k < q) here.1 h) h');
    below_kept = λ q h. rw (ne→== q p (λ e. absurd (omega (arith, here.1)))) refl;
    states = λ u. state-counted s1 t cpu u ∙ state1 u;
    prios = λ u. prio-counted s1 t cpu u ∙ prio1 u;
  })

  -- The queue of `p` before the round, if its head was not ready.
  All-of_rest :
      (q : ℕ)
      → is_ready (s.threads t).state ≡ false
      → All (Unready s1) (qs1 q)
      → All (Unready s) (qs q)
  All-of_rest q bad h = elim (ℕ_discrete q p) [
    | yes e ↦
        rw (e, head) (bad, All-imp (Unready s1) (Unready s) rest unready1 (rw (e, ==_refl p) at h))
    | no n ↦ All-imp (Unready s1) (Unready s) (qs q) unready1 (rw (ne→== q p n) at h)
  ]

  module _ (bad : is_ready (s.threads t).state ≡ false) where
    -- A thread that a later round takes has no higher priority than this round's queue.
    not_above :
        (u : ℕ) (s' : Sched) (qs' : Queues) → Popped s1 qs1 u s' qs' → (s1.threads u).prio ≤ p
    not_above u s' qs' w = elim (dec_lt p (s1.threads u).prio) [
      | yes h ↦
          let k = (s1.threads u).prio in
          let e : qs1 k ≡ qs k = rw (ne→== k p (λ e. omega arith)) refl in
          absurd (append-ne-nil w.skipped (qs' k) u (sym w.front ∙ e ∙ empty_above k h w.level))
      | no h ↦ omega arith
    ]

    took_later :
        (u : ℕ) (s' : Sched) (qs' : Queues)
        → Rep s' qs'
        → Popped s1 qs1 u s' qs'
        → Outcome s qs (some u) s'
    took_later u s' qs' r' w = took u s' qs' r' (elim (ℕ_discrete (s1.threads u).prio p) [
      | yes e ↦ record {
        level = rw (← prio1 u) w.level;
        is_ready_now = rw (← state1 u) w.is_ready_now;
        skipped = t ∷ w.skipped;
        front = rw (← prio1 u, e, head) (ap (◌∷◌ t) (rw (e, ==_refl p) at w.front));
        skipped_unready =
            (bad, All-imp (Unready s1) (Unready s) w.skipped unready1 w.skipped_unready);
        above_unready = λ q h h'. All-of_rest q bad (w.above_unready q (rw (prio1 u) h) h');
        above_empty = λ q h. w.above_empty q (rw (prio1 u) h);
        below_kept = λ q h.
            w.below_kept q (rw (prio1 u) h)
            ∙ rw (ne→== q p (λ e'. absurd (omega (arith, prio1 u)))) refl;
        states = λ v. w.states v ∙ state1 v;
        prios = λ v. w.prios v ∙ prio1 v;
      }
      | no n ↦ record {
        level = rw (← prio1 u) w.level;
        is_ready_now = rw (← state1 u) w.is_ready_now;
        skipped = w.skipped;
        front = rw (← prio1 u) (sym (rw (ne→== (s1.threads u).prio p n) refl) ∙ w.front);
        skipped_unready = All-imp (Unready s1) (Unready s) w.skipped unready1 w.skipped_unready;
        above_unready = λ q h h'. All-of_rest q bad (w.above_unready q (rw (prio1 u) h) h');
        above_empty = λ q h. w.above_empty q (rw (prio1 u) h);
        below_kept = λ q h.
            w.below_kept q (rw (prio1 u) h)
            ∙ rw (ne→== q p (λ e'. absurd (omega (arith, prio1 u, not_above u s' qs' w)))) refl;
        states = λ v. w.states v ∙ state1 v;
        prios = λ v. w.prios v ∙ prio1 v;
      }
    ])

    later : (o : Option ℕ) (s' : Sched) → Outcome s1 qs1 o s' → Outcome s qs o s'
    later o s' (took u s'' qs' r' w) = took_later u s'' qs' r' w
    later o s' (none_left s'' qs' r' e h) =
        none_left s'' qs' r' e (λ q k. All-of_rest q bad (h q k))

-- A round either takes the head or goes on without it.
round :
    (s : Sched) (qs : Queues) (fuel cpu : ℕ) (r : Rep s qs) (p t : ℕ) (rest : List ℕ)
    → p < prio_levels
    → qs p ≡ t ∷ rest
    → ((q : ℕ) → p < q → q < prio_levels → qs q ≡ [])
    → marked_below s max_threads < suc fuel
    → (marked_below (rq_unlink s p none t) max_threads < fuel
        → let (o, s') = pop_loop fuel (rq_unlink s p none t) cpu in
          Outcome (rq_unlink s p none t) (upd qs p rest) o s')
    → let s1 = rq_unlink s p none t in
      let (o, s') =
        if is_ready (s1.threads t).state
        then (some t, count_affinity s1 t cpu)
        else pop_loop fuel s1 cpu in
      Outcome s qs o s'
round s qs fuel cpu r p t rest level head empty_above h rec =
    let m = (here s qs r p t rest level head empty_above).0 in
    let fewer =
      (marked_below-drop s (rq_unlink s p none t) t max_threads m
          (mark-unlinked s qs r p t rest head)).0
        (r.in_table t m) in
    elim (Bool-cases (is_ready (s.threads t).state)) [
      | inl e ↦
          rw (state-unlinked s qs r p t rest head t, e)
            (took_head s qs r p t rest level head empty_above cpu e)
      | inr e ↦
          rw (state-unlinked s qs r p t rest head t, e)
            (later s qs r p t rest level head empty_above e _ _ (rec (omega arith)))
    ]

pop_loop-Outcome :
    (fuel : ℕ) (s : Sched) (qs : Queues) (cpu : ℕ)
    → Rep s qs
    → marked_below s max_threads < fuel
    → let (o, s') = pop_loop fuel s cpu in Outcome s qs o s'
unfolding pop_loop
pop_loop-Outcome zero s qs cpu r h = elim h [ ]
pop_loop-Outcome (suc fuel) s qs cpu r h = elim (Bool-cases (s.ready_bitmap == 0)) [
  | inl e ↦
      let z : s.ready_bitmap ≡ 0 = ground arith in
      let empty = λ (p : ℕ) (k : p < prio_levels).
        nil_of_nonempty (qs p) (sym (r.bits p k) ∙ ap (bit p) z ∙ bit-zero p) in
      rw (e, pop_loop) (none_left s qs r empty (λ p k. rw (empty p k) tt))
  | inr e ↦ elim (top_bit_lem prio_levels s.ready_bitmap) [
    | inl all ↦
        let z = eq-zero_of_bits prio_levels s.ready_bitmap r.word all in absurd (ground arith)
    | inr (lt, set, above) ↦
        let p = top_bit prio_levels s.ready_bitmap in
        let (t, rest, head) = cons_of_nonempty (qs p) (sym (r.bits p lt) ∙ set) in
        let empty_above = λ (q : ℕ) (k : p < q) (k' : q < prio_levels).
          nil_of_nonempty (qs q) (sym (r.bits q k') ∙ above q k k') in
        let first = head_of_queue s qs r p t rest head in
        rw (e, first, pop_loop)
          (round s qs fuel cpu r p t rest lt head empty_above h (
            pop_loop-Outcome fuel (rq_unlink s p none t) (upd qs p rest) cpu
              (unlinked-Rep s qs r p t rest head)))
  ]
]

-- On well-formed ready queues `rq_pop_highest` always ends with what it promises, and leaves
-- well-formed queues: it takes the first ready thread of the highest priority that has one, after
-- the threads before it that are no longer ready; or it finds that no queued thread is ready, and
-- all queues are empty after it.
pub rq_pop_highest-Outcome :
    (s : Sched) (qs : Queues) (cpu : ℕ)
    → Rep s qs
    → Outcome s qs (rq_pop_highest s cpu).0 (rq_pop_highest s cpu).1
unfolding rq_pop_highest
rq_pop_highest-Outcome s qs cpu r =
    pop_loop-Outcome 65 s qs cpu r (omega (arith, marked_below-le s max_threads))
