-- ===== src/Sched/Ready/Rep.antt =====
-- The ready queues as lists of thread ids, one for each priority, and what ties the pointers, the
-- flags and the bitmap to them.
use robu_microkernel.Base.{ℕ, ◌<◌, ◌^◌, ◌≡◌, subst, ◌≢◌, true, false, Option, List, [], ◌∷◌, All}
use robu_microkernel.Base.Bits.{bit}
use robu_microkernel.Base.Chain.{Chain, last, NoDup, NotIn, Has}
use robu_microkernel.Sched.Types.{Sched, prio_levels, max_threads}

abbrev pub Queues : Type 0
Queues = ℕ → List ℕ

abbrev pub rq_links : Sched → ℕ → Option ℕ
rq_links s t = (s.threads t).rq_next

abbrev pub nonempty : List ℕ → ℕ
nonempty [] = 0
nonempty (x ∷ xs) = 1

-- A thread in queue `p` is marked as queued and has priority `p`.
abbrev pub Queued : Sched → ℕ → ℕ → Type 0
Queued s p t = ((s.threads t).in_ready_q ≡ true) × ((s.threads t).prio ≡ p)

pub record Rep (s : Sched) (qs : Queues) : Type 0 where
  pub levels : (t : ℕ) → (s.threads t).prio < prio_levels
  pub in_table : (t : ℕ) → (s.threads t).in_ready_q ≡ true → t < max_threads
  pub chains : (p : ℕ) → Chain (rq_links s) (s.ready_head p) (qs p)
  pub tails : (p : ℕ) → s.ready_tail p ≡ last (qs p)
  pub no_dup : (p : ℕ) → NoDup (qs p)
  pub marked : (p : ℕ) → All (Queued s p) (qs p)
  pub complete : (t : ℕ) → (s.threads t).in_ready_q ≡ true → Has t (qs (s.threads t).prio)
  pub bits : (p : ℕ) → p < prio_levels → bit p s.ready_bitmap ≡ nonempty (qs p)
  pub word : s.ready_bitmap < 2 ^ 32

-- A thread that is not marked is in no queue.
pub NotIn-of_unmarked :
    (s : Sched) (p t : ℕ) (xs : List ℕ)
    → All (Queued s p) xs
    → (s.threads t).in_ready_q ≡ false
    → NotIn t xs
NotIn-of_unmarked s p t [] h e = tt
NotIn-of_unmarked s p t (x ∷ xs) h e = (differ, NotIn-of_unmarked s p t xs h.1 e)
  where
    differ : x ≢ t
    differ q =
        let hit : (s.threads t).in_ready_q ≡ true =
          subst (λ u. (s.threads u).in_ready_q ≡ true) q h.0.0 in
        cc
