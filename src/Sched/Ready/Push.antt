-- ===== src/Sched/Ready/Push.antt =====
-- `rq_push` puts a thread behind the others of its priority.
use Prim.Native.Nat.{bit_or}
use native.Mathlib.Decide.{ℕ_discrete}
use robu_microkernel.Base.{
  ℕ, ◌<◌, ◌^◌, ◌≡◌, refl, sym, ap, subst, ◌∙◌, ◌≢◌, true, false, none, some, List, [], ◌∷◌, ◌++◌,
  ◌==◌, if◌then◌else◌, arith, All, Bool-cases, Option-cases, inl, inr, ==_refl, ne→==,
}
use robu_microkernel.Base.Bits.{bit, bit-added, bit-added_self, bit_or-lt, pow-lt-pow}
use robu_microkernel.Base.Chain.{
  upd, Chain, Chain-frame, Chain-snoc, last, All-last, last-none, Has-snoc, Has-snoc_self,
  last-snoc, NoDup, NoDup-snoc, NotIn, Has, All-imp, All-append,
}
use robu_microkernel.Sched.Types.{Sched, prio_levels, max_threads}
use robu_microkernel.Sched.Ready.{rq_push}
use robu_microkernel.Sched.Ready.Rep.{Queues, rq_links, nonempty, Queued, Rep, NotIn-of_unmarked}

nonempty-snoc : (xs : List ℕ) (t : ℕ) → nonempty (xs ++ t ∷ []) ≡ 1
nonempty-snoc [] t = refl
nonempty-snoc (x ∷ xs) t = refl

queued_already : (s : Sched) (t : ℕ) → (s.threads t).in_ready_q ≡ true → rq_push s t ≡ s
unfolding rq_push
queued_already s t e = rw e

module _ (s : Sched) (qs : Queues) (r : Rep s qs) (t : ℕ) (fresh : (s.threads t).in_ready_q ≡ false)
    (known : t < max_threads) where
  p : ℕ
  p = (s.threads t).prio

  -- The thread is new to its queue.
  new : NotIn t (qs p)
  new = NotIn-of_unmarked s p t (qs p) (r.marked p) fresh

  abbrev after : Sched
  after = rq_push s t

  abbrev queues' : Queues
  queues' = upd qs p (qs p ++ t ∷ [])

  prio-after : (u : ℕ) → (after.threads u).prio ≡ (s.threads u).prio
  unfolding rq_push p
  prio-after u = ground arith

  mark-after :
      (u : ℕ) → (after.threads u).in_ready_q ≡ (if u == t then true else (s.threads u).in_ready_q)
  unfolding rq_push p
  mark-after u = ground arith

  link_self : rq_links after t ≡ none
  unfolding rq_push p
  link_self = elim (Option-cases (s.ready_tail p)) [
    | inl e ↦ ground arith
    | inr (l, e) ↦
        let n : l ≢ t = All-last (λ y. y ≢ t) (qs p) l new (sym (r.tails p) ∙ e) in ground arith
  ]

  link_of_last : (l : ℕ) → s.ready_tail p ≡ some l → rq_links after l ≡ some t
  unfolding rq_push p
  link_of_last l e = ground arith

  link_other : (l u : ℕ) → s.ready_tail p ≡ some l → u ≢ l → u ≢ t → rq_links after u ≡ rq_links s u
  unfolding rq_push p
  link_other l u e n n' = ground arith

  link_first : (u : ℕ) → s.ready_tail p ≡ none → u ≢ t → rq_links after u ≡ rq_links s u
  unfolding rq_push p
  link_first u e n = ground arith

  head-after :
      (q : ℕ)
      → after.ready_head q ≡ (
          if q == p
          then elim (s.ready_tail p) [ none ↦ some t | some l ↦ s.ready_head p ]
          else s.ready_head q)
  unfolding rq_push p
  head-after q = ground arith

  tail-after : (q : ℕ) → after.ready_tail q ≡ (if q == p then some t else s.ready_tail q)
  unfolding rq_push p
  tail-after q = ground arith

  bitmap-after : after.ready_bitmap ≡ bit_or s.ready_bitmap (2 ^ p)
  unfolding rq_push p
  bitmap-after = ground arith

  -- A queue of another priority is not touched.
  agree : (q u : ℕ) → q ≢ p → Queued s q u → rq_links after u ≡ rq_links s u
  unfolding p
  agree q u n m = elim (Option-cases (s.ready_tail p)) [
    | inl e ↦ link_first u e (λ e'. n (sym m.1 ∙ ap (λ v. (s.threads v).prio) e'))
    | inr (l, e) ↦
        let h = All-last (Queued s p) (qs p) l (r.marked p) (sym (r.tails p) ∙ e) in
        link_other l u e (λ e'. n (sym m.1 ∙ ap (λ v. (s.threads v).prio) e' ∙ h.1))
          (λ e'. n (sym m.1 ∙ ap (λ v. (s.threads v).prio) e'))
  ]

  Chain-here : Chain (rq_links after) (after.ready_head p) (qs p ++ t ∷ [])
  Chain-here = elim (Option-cases (s.ready_tail p)) [
    | inl e ↦
        let empty : qs p ≡ [] = last-none (qs p) (sym (r.tails p) ∙ e) in
        rw (empty, head-after p, ==_refl p, e) (refl, link_self)
    | inr (l, e) ↦
        rw (head-after p, ==_refl p, e)
          (Chain-snoc (rq_links s) (rq_links after) (qs p) (s.ready_head p) l t (r.chains p)
            (r.no_dup p) new (sym (r.tails p) ∙ e) (link_of_last l e) link_self
            (λ y n n'. link_other l y e n n'))
  ]

  Chain-after : (q : ℕ) → Chain (rq_links after) (after.ready_head q) (queues' q)
  Chain-after q = elim (ℕ_discrete q p) [
    | yes e ↦ rw (e, ==_refl p) Chain-here
    | no n ↦
        rw (ne→== q p n, head-after q, ne→== q p n)
          (Chain-frame (rq_links s) (rq_links after) (qs q) (s.ready_head q)
            (All-imp (Queued s q) _ (qs q) (λ u m. agree q u n m) (r.marked q)) (r.chains q))
  ]

  Queued-after : (q u : ℕ) → Queued s q u → Queued after q u
  Queued-after q u m = (ground (arith, mark-after u, m.0), prio-after u ∙ m.1)

  marked-after : (q : ℕ) → All (Queued after q) (queues' q)
  unfolding p
  marked-after q = elim (ℕ_discrete q p) [
    | yes e ↦
        rw (e, ==_refl p)
          (All-append (Queued after p) (qs p) (t ∷ [])
            (All-imp (Queued s p) (Queued after p) (qs p) (Queued-after p) (r.marked p))
            ((rw (mark-after t, ==_refl t) refl, prio-after t), tt))
    | no n ↦
        rw (ne→== q p n)
          (All-imp (Queued s q) (Queued after q) (qs q) (Queued-after q) (r.marked q))
  ]

  tails-after : (q : ℕ) → after.ready_tail q ≡ last (queues' q)
  tails-after q = elim (ℕ_discrete q p) [
    | yes e ↦ rw (e, tail-after p, ==_refl p) (sym (last-snoc (qs p) t))
    | no n ↦ rw (tail-after q, ne→== q p n) (r.tails q)
  ]

  NoDup-after : (q : ℕ) → NoDup (queues' q)
  NoDup-after q = elim (ℕ_discrete q p) [
    | yes e ↦ rw (e, ==_refl p) (NoDup-snoc (qs p) t (r.no_dup p) new)
    | no n ↦ rw (ne→== q p n) (r.no_dup q)
  ]

  Has-queues' : (q u : ℕ) → Has u (qs q) → Has u (queues' q)
  Has-queues' q u h = elim (ℕ_discrete q p) [
    | yes e ↦ rw (e, ==_refl p) (Has-snoc (qs p) u t (subst (λ k. Has u (qs k)) e h))
    | no n ↦ rw (ne→== q p n) h
  ]

  complete-after :
      (u : ℕ) → (after.threads u).in_ready_q ≡ true → Has u (queues' (after.threads u).prio)
  unfolding p
  complete-after u m = elim (ℕ_discrete u t) [
    | yes e ↦ rw (prio-after u, e, ==_refl p) (Has-snoc_self (qs p) t)
    | no n ↦
        rw (prio-after u)
          (Has-queues' (s.threads u).prio u (r.complete u (ground (arith, mark-after u))))
  ]

  bits-after : (q : ℕ) → q < prio_levels → bit q after.ready_bitmap ≡ nonempty (queues' q)
  bits-after q small = elim (ℕ_discrete q p) [
    | yes e ↦
        rw (bitmap-after, e, ==_refl p, bit-added_self p s.ready_bitmap)
          (sym (nonempty-snoc (qs p) t))
    | no n ↦ rw (bitmap-after, ne→== q p n) (bit-added q p s.ready_bitmap n ∙ r.bits q small)
  ]

  in_table-after : (u : ℕ) → (after.threads u).in_ready_q ≡ true → u < max_threads
  in_table-after u m = elim (ℕ_discrete u t) [
    | yes e ↦ rw e known
    | no n ↦ r.in_table u (ground (arith, mark-after u))
  ]

  pushed-Rep : Rep after queues'
  unfolding p
  pushed-Rep = record {
    levels = λ u. rw (prio-after u) (r.levels u);
    in_table = in_table-after;
    chains = Chain-after;
    tails = tails-after;
    no_dup = NoDup-after;
    marked = marked-after;
    complete = complete-after;
    bits = bits-after;
    word =
        rw bitmap-after (bit_or-lt 32 s.ready_bitmap (2 ^ p) r.word (pow-lt-pow p 32 (r.levels t)));
  }

-- The queues after a push: the thread goes behind those of its priority, unless it is queued.
abbrev pub enqueued : Sched → Queues → ℕ → Queues
enqueued s qs t =
    if (s.threads t).in_ready_q then qs else let p = (s.threads t).prio in upd qs p (qs p ++ t ∷ [])

-- `rq_push` on well-formed ready queues leaves them well-formed, and puts the thread behind the
-- others in the queue of its priority if it was not queued.
pub rq_push-Rep :
    (s : Sched) (qs : Queues) (t : ℕ)
    → t < max_threads
    → Rep s qs
    → Rep (rq_push s t) (enqueued s qs t)
unfolding p
rq_push-Rep s qs t k r = elim (Bool-cases (s.threads t).in_ready_q) [
  | inl e ↦ rw (e, queued_already s t e) r
  | inr e ↦ rw e (pushed-Rep s qs r t e k)
]
