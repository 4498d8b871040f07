-- ===== src/Sched/Ready/Outcome.antt =====
-- What `rq_pop_highest` promises, and the lemmas on bitmaps and counts behind it.
use native.Mathlib.Decide.{ℕ_discrete}
use robu_microkernel.Base.{
  ℕ, zero, suc, ◌+◌, ◌≤◌, ◌<◌, ◌≡◌, refl, ap, ◌∙◌, ◌≢◌, true, false, ◌⊎◌, Option, none, some, List,
  [], ◌∷◌, ◌++◌, ◌==◌, if◌then◌else◌, arith, ◌!=◌, All, Bool-cases, inl, inr,
}
use robu_microkernel.Base.Bits.{bit, bit-le-one}
use robu_microkernel.Sched.Types.{Sched, Stats, prio_levels, no_cpu, is_ready}
use robu_microkernel.Sched.Ready.{top_bit, count_affinity}
use robu_microkernel.Sched.Ready.Rep.{Queues, nonempty, Rep}

-- The highest set bit: it is set, and those above it are not.
pub top_bit_lem :
    (k word : ℕ)
    → ((i : ℕ) → i < k → bit i word ≡ 0)
      ⊎ ((top_bit k word < k)
          × (bit (top_bit k word) word ≡ 1)
          × ((i : ℕ) → top_bit k word < i → i < k → bit i word ≡ 0))
unfolding top_bit
top_bit_lem zero word = inl (λ i h. absurd (omega arith))
top_bit_lem (suc k) word = elim (Bool-cases (bit k word == 1)) [
  | inl e ↦ rw e (inr (omega arith, ground arith, λ i a b. absurd (omega arith)))
  | inr e ↦
      let z : bit k word ≡ 0 = ground (arith, bit-le-one k word) in
      rw e (elim (top_bit_lem k word) [
        | inl all ↦ inl (λ i h. below i h all z)
        | inr (lt, set, above) ↦ inr (omega arith, set, λ i a h. up i a h above z)
      ])
]
  where
    below :
        (i : ℕ) → i < suc k → ((i : ℕ) → i < k → bit i word ≡ 0) → bit k word ≡ 0 → bit i word ≡ 0
    below i h all z = elim (ℕ_discrete i k) [
      | yes e ↦ ap (λ j. bit j word) e ∙ z
      | no n ↦ all i (omega arith)
    ]

    up :
        (i : ℕ)
        → top_bit k word < i
        → i < suc k
        → ((i : ℕ) → top_bit k word < i → i < k → bit i word ≡ 0)
        → bit k word ≡ 0
        → bit i word ≡ 0
    up i a h above z = elim (ℕ_discrete i k) [
      | yes e ↦ ap (λ j. bit j word) e ∙ z
      | no n ↦ above i a (omega arith)
    ]

-- How many of the threads below `n` are marked as queued.
pub marked_below : Sched → ℕ → ℕ
marked_below s zero = 0
marked_below s (suc n) = marked_below s n + (if (s.threads n).in_ready_q then 1 else 0)

pub marked_below-le : (s : Sched) (n : ℕ) → marked_below s n ≤ n
unfolding marked_below
marked_below-le s zero = omega arith
marked_below-le s (suc n) = ground (arith, marked_below-le s n)

abbrev pub Unready : Sched → ℕ → Type 0
Unready s u = is_ready (s.threads u).state ≡ false

-- Thread `t` was taken: it is ready, the threads queued before it at its priority and all threads
-- queued at higher ones are not, what is left of its queue is what stood behind it, and the queues
-- of higher priorities are empty and those of lower ones untouched. No thread's state or priority has
-- changed.
pub record Popped (s : Sched) (qs : Queues) (t : ℕ) (s' : Sched) (qs' : Queues) : Type 0 where
  pub level : (s.threads t).prio < prio_levels
  pub is_ready_now : is_ready (s.threads t).state ≡ true
  pub skipped : List ℕ
  pub front : qs (s.threads t).prio ≡ skipped ++ t ∷ qs' (s.threads t).prio
  pub skipped_unready : All (Unready s) skipped
  pub above_unready : (p : ℕ) → (s.threads t).prio < p → p < prio_levels → All (Unready s) (qs p)
  pub above_empty : (p : ℕ) → (s.threads t).prio < p → p < prio_levels → qs' p ≡ []
  pub below_kept : (p : ℕ) → p < (s.threads t).prio → qs' p ≡ qs p
  pub states : (u : ℕ) → (s'.threads u).state ≡ (s.threads u).state
  pub prios : (u : ℕ) → (s'.threads u).prio ≡ (s.threads u).prio

-- What the loop ends with: a thread, or none if no queued thread is ready; then all queues are empty.
pub data Outcome (s : Sched) (qs : Queues) : Option ℕ → Sched → Type 0 where
  took :
      (t : ℕ) (s' : Sched) (qs' : Queues)
      → Rep s' qs'
      → Popped s qs t s' qs'
      → Outcome s qs (some t) s'
  none_left :
      (s' : Sched) (qs' : Queues)
      → Rep s' qs'
      → ((p : ℕ) → p < prio_levels → qs' p ≡ [])
      → ((p : ℕ) → p < prio_levels → All (Unready s) (qs p))
      → Outcome s qs none s'

pub nil_of_nonempty : (xs : List ℕ) → nonempty xs ≡ 0 → xs ≡ []
nil_of_nonempty [] e = refl
nil_of_nonempty (x ∷ xs) e = absurd (omega arith)

pub cons_of_nonempty : (xs : List ℕ) → nonempty xs ≡ 1 → (t : ℕ) × (rest : List ℕ) × (xs ≡ t ∷ rest)
cons_of_nonempty [] e = absurd (omega arith)
cons_of_nonempty (x ∷ xs) e = (x, xs, refl)

pub append-ne-nil : (xs ys : List ℕ) (t : ℕ) → xs ++ t ∷ ys ≢ []
append-ne-nil [] ys t e = cc
append-ne-nil (x ∷ xs) ys t e = cc

pub marked_below-drop :
    (s s' : Sched) (t n : ℕ)
    → (s.threads t).in_ready_q ≡ true
    → ((u : ℕ) → (s'.threads u).in_ready_q ≡ (if u == t then false else (s.threads u).in_ready_q))
    → (t < n → suc (marked_below s' n) ≡ marked_below s n)
      × (n ≤ t → marked_below s' n ≡ marked_below s n)
unfolding marked_below
marked_below-drop s s' t zero m f = (λ h. elim h [ ], λ h. refl)
marked_below-drop s s' t (suc n) m f =
    let (a, b) = marked_below-drop s s' t n m f in
    (λ h. ground (arith, f n), λ h. ground (arith, f n))

-- Counting does not touch the queues.
pub counted-Rep : (s : Sched) (qs : Queues) (t cpu : ℕ) → Rep s qs → Rep (count_affinity s t cpu) qs
unfolding count_affinity
counted-Rep s qs t cpu r = elim (Bool-cases ((s.threads t).last_cpu == cpu)) [
  | inl e ↦ rw e (same_queues _)
  | inr e ↦ elim (Bool-cases ((s.threads t).last_cpu != no_cpu)) [
    | inl e' ↦ rw (e, e') (same_queues _)
    | inr e' ↦ rw (e, e') r
  ]
]
  where
    same_queues : (c : Stats) → Rep (record s { stats = c }) qs
    same_queues c = record {
      levels = r.levels;
      in_table = r.in_table;
      chains = r.chains;
      tails = r.tails;
      no_dup = r.no_dup;
      marked = r.marked;
      complete = r.complete;
      bits = r.bits;
      word = r.word;
    }

pub state-counted :
    (s : Sched) (t cpu u : ℕ) → ((count_affinity s t cpu).threads u).state ≡ (s.threads u).state
unfolding count_affinity
state-counted s t cpu u = ground arith

pub prio-counted :
    (s : Sched) (t cpu u : ℕ) → ((count_affinity s t cpu).threads u).prio ≡ (s.threads u).prio
unfolding count_affinity
prio-counted s t cpu u = ground arith

-- One round of the loop: the highest queue that is not empty loses its head.
