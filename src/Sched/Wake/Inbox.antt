-- ===== src/Sched/Wake/Inbox.antt =====
-- The inbox: `sched_wake` puts woken threads there and `drain_inbox` moves them to their queues.
use robu_microkernel.Base.{
  ℕ, zero, suc, ◌<◌, ◌≡◌, refl, sym, ◌∙◌, subst, ◌≢◌, Option, none, some, List, [], ◌∷◌, arith,
  if◌then◌else◌, All, Bool-cases, Option-cases, inl, inr, ==_refl, ne→==, some-inj,
}
use robu_microkernel.Base.Chain.{Chain, Chain-frame, NoDup, All-imp}
use robu_microkernel.Sched.Types.{Sched, is_ready, max_threads}
use robu_microkernel.Sched.Ready.{put, rq_push}
use robu_microkernel.Sched.Ready.Rep.{Queues, Queued, rq_links, Rep}
use robu_microkernel.Sched.Ready.Push.{enqueued, rq_push-Rep}
use robu_microkernel.Sched.Wake.{drain_loop, drain_inbox}
use robu_microkernel.Sched.Wake.Deliver.{
  inbox_links, LinksInTable, linked, linked-le, delivered, delivered-links, linked-delivered,
  delivered-LinksInTable, SamePlace, delivered-SamePlace, delivered-current,
}

drain_loop-none : (fuel : ℕ) (s : Sched) → drain_loop fuel s none ≡ some s
unfolding drain_loop delivered
drain_loop-none zero s = refl
drain_loop-none (suc fuel) s = refl

drain_loop-returns :
    (fuel : ℕ) (s : Sched) (t : ℕ)
    → t < max_threads
    → LinksInTable s
    → linked max_threads s < fuel
    → (s' : Sched) × (drain_loop fuel s (some t) ≡ some s')
unfolding drain_loop delivered
drain_loop-returns zero s t k l h = absurd (omega arith)
drain_loop-returns (suc fuel) s t k l h = elim (Option-cases (inbox_links s t)) [
  | inl e ↦ rw (e, drain_loop-none fuel (delivered s t)) (delivered s t, refl)
  | inr (u, e) ↦
      let fewer = linked-delivered max_threads s t u k e in
      rw e (
        drain_loop-returns fuel (delivered s t) u (l t u e) (delivered-LinksInTable s t l)
          (omega arith))
]

-- Draining the inbox ends within the fuel, even where the inbox is no proper list but runs in a
-- circle, as long as its pointers stay in the thread table.
pub drain_total :
    (s : Sched)
    → LinksInTable s
    → ((t : ℕ) → s.wake_inbox ≡ some t → t < max_threads)
    → (s' : Sched) × (drain_inbox s ≡ some s')
unfolding drain_inbox
drain_total s l h = elim (Option-cases s.wake_inbox) [
  | inl e ↦ rw (e, drain_loop-none 65) (record s { wake_inbox = none }, refl)
  | inr (t, e) ↦ rw e (
      drain_loop-returns 65 (record s { wake_inbox = none }) t (h t e) l
        (omega (arith, linked-le max_threads (record s { wake_inbox = none }))))
]

-- The queues after the threads of the inbox came in: those that are ready, in the inbox's order.
abbrev pub received : Sched → Queues → List ℕ → Queues
received s qs [] = qs
received s qs (t ∷ ts) =
    let qs' = if is_ready (s.threads t).state then enqueued s qs t else qs in received s qs' ts

received-same :
    (s s' : Sched) (ts : List ℕ) (qs : Queues)
    → All (SamePlace s s') ts
    → received s' qs ts ≡ received s qs ts
received-same s s' [] qs h = refl
received-same s s' (t ∷ ts) qs h =
    let (a, b, c) = h.0 in
    let qs' = if is_ready (s.threads t).state then enqueued s qs t else qs in
    rw (a, b, c) (received-same s s' ts qs' h.1)

All-of {ℓ} : {P : ℕ → Type ℓ} → ((u : ℕ) → P u) → (xs : List ℕ) → All P xs
All-of f [] = tt
All-of f (x ∷ xs) = (f x, All-of f xs)

unlinked_inbox-Rep :
    (s : Sched) (qs : Queues) (t : ℕ)
    → Rep s qs
    → Rep (put s t (record (s.threads t) { inbox_next = none })) qs
unlinked_inbox-Rep s qs t r =
    let s' = put s t (record (s.threads t) { inbox_next = none }) in
    let prio : (u : ℕ) → (s'.threads u).prio ≡ (s.threads u).prio = λ u. ground arith in
    let mark : (u : ℕ) → (s'.threads u).in_ready_q ≡ (s.threads u).in_ready_q = λ u. ground arith in
    let link : (u : ℕ) → rq_links s' u ≡ rq_links s u = λ u. ground arith in
    record {
      levels = λ u. rw (prio u) (r.levels u);
      in_table = λ u e. r.in_table u (sym (mark u) ∙ e);
      chains = λ p.
          Chain-frame (rq_links s) (rq_links s') (qs p) (s.ready_head p) (All-of link (qs p))
            (r.chains p);
      tails = r.tails;
      no_dup = r.no_dup;
      marked = λ p.
          All-imp (Queued s p) (Queued s' p) (qs p) (λ u h. (mark u ∙ h.0, prio u ∙ h.1))
            (r.marked p);
      complete = λ u e. rw (prio u) (r.complete u (sym (mark u) ∙ e));
      bits = r.bits;
      word = r.word;
    }

delivered-Rep :
    (s : Sched) (qs : Queues) (t : ℕ)
    → t < max_threads
    → Rep s qs
    → Rep (delivered s t) (received s qs (t ∷ []))
unfolding delivered
delivered-Rep s qs t k r =
    let s1 = put s t (record (s.threads t) { inbox_next = none }) in
    let r1 = unlinked_inbox-Rep s qs t r in
    let same : enqueued s1 qs t ≡ enqueued s qs t = rw (==_refl t) refl in
    elim (Bool-cases (is_ready (s.threads t).state)) [
      | inl e ↦
          rw (==_refl t, e) (subst (λ q. Rep (rq_push s1 t) q) same (rq_push-Rep s1 qs t k r1))
      | inr e ↦ rw (==_refl t, e) r1
    ]

drain_loop-Rep :
    (fuel : ℕ) (ts : List ℕ) (s : Sched) (qs : Queues) (o : Option ℕ) (s' : Sched)
    → Rep s qs
    → Chain (inbox_links s) o ts
    → NoDup ts
    → All (λ t. t < max_threads) ts
    → drain_loop fuel s o ≡ some s'
    → Rep s' (received s qs ts)
unfolding drain_loop delivered
drain_loop-Rep fuel [] s qs o s' r c d k e =
    let done = drain_loop-none fuel s in subst (λ x. Rep x qs) (some-inj (sym done ∙ rw c at e)) r
drain_loop-Rep zero (t ∷ ts) s qs o s' r c d k e = absurd (ground arith)
drain_loop-Rep (suc fuel) (t ∷ ts) s qs o s' r c d k e =
    let next = delivered s t in
    let links =
      All-imp (λ y. y ≢ t) (λ y. inbox_links next y ≡ inbox_links s y) ts
        (λ y n. delivered-links s t y ∙ (rw (ne→== y t n) refl)) d.0 in
    let places =
      All-imp (λ y. y ≢ t) (SamePlace s next) ts (λ y n. delivered-SamePlace s y t n) d.0 in
    let qs' = received s qs (t ∷ []) in
    subst (Rep s') (received-same s next ts qs' places) (
      drain_loop-Rep fuel ts next qs' (inbox_links s t) s' (delivered-Rep s qs t k.0 r)
        (Chain-frame (inbox_links s) (inbox_links next) ts (inbox_links s t) links c.1) d.1 k.1
        (rw c.0 at e))

drain_loop-current :
    (fuel : ℕ) (s : Sched) (o : Option ℕ) (s' : Sched)
    → drain_loop fuel s o ≡ some s'
    → s'.current ≡ s.current
unfolding drain_loop delivered
drain_loop-current zero s none s' e = rw (some-inj e) refl
drain_loop-current (suc fuel) s none s' e = rw (some-inj e) refl
drain_loop-current zero s (some t) s' e = absurd (ground arith)
drain_loop-current (suc fuel) s (some t) s' e =
    drain_loop-current fuel (delivered s t) (inbox_links s t) s' e ∙ delivered-current s t

-- The threads that run stay the same.
pub drain_inbox-current : (s s' : Sched) → drain_inbox s ≡ some s' → s'.current ≡ s.current
unfolding drain_inbox
drain_inbox-current s s' e =
    drain_loop-current 65 (record s { wake_inbox = none }) s.wake_inbox s' e

-- If the inbox is a list of different threads of the table, and the ready queues are well-formed,
-- draining it ends, and leaves the queues well-formed: the threads of the inbox that are ready
-- and not queued yet have come in behind the others of their priorities, in the order of the inbox.
pub drain_inbox_lem :
    (s : Sched) (qs : Queues) (ts : List ℕ)
    → Rep s qs
    → LinksInTable s
    → Chain (inbox_links s) s.wake_inbox ts
    → NoDup ts
    → All (λ t. t < max_threads) ts
    → (s' : Sched) × (drain_inbox s ≡ some s') × Rep s' (received s qs ts)
unfolding drain_inbox
drain_inbox_lem s qs ts r l c d k =
    let (s', e) = drain_total s l (head_in_table ts c k) in (s', e, go s' e)
  where
    head_in_table :
        (ts : List ℕ)
        → Chain (inbox_links s) s.wake_inbox ts
        → All (λ t. t < max_threads) ts
        → (t : ℕ) → s.wake_inbox ≡ some t
        → t < max_threads
    head_in_table [] c k t e = absurd (ground arith)
    head_in_table (x ∷ xs) c k t e = rw (some-inj (sym c.0 ∙ e)) at k.0

    go : (s' : Sched) → drain_inbox s ≡ some s' → Rep s' (received s qs ts)
    go s' e =
        let s1 = record s { wake_inbox = none } in
        let r1 : Rep s1 qs = record {
          levels = r.levels;
          in_table = r.in_table;
          chains = r.chains;
          tails = r.tails;
          no_dup = r.no_dup;
          marked = r.marked;
          complete = r.complete;
          bits = r.bits;
          word = r.word;
        } in
        subst (Rep s') (received-same s1 s ts qs (All-of (λ u. (refl, refl, refl)) ts))
          (drain_loop-Rep 65 ts s1 qs s.wake_inbox s' r1 c d k e)
