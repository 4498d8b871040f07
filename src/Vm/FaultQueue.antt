-- ===== src/Vm/FaultQueue.antt =====
-- The queue of page faults is first in, first out, and holds at most 15 faults.
use robu_microkernel.Base.{
  ℕ, zero, suc, ◌+◌, ◌-◌, ◌%◌, ◌<◌, ◌≡◌, refl, ap, ◌∙◌, ◌≢◌, true, false, List, [], ◌∷◌, ◌++◌, none,
  some, arith, ◌==◌, length, Bool-cases, inl, inr, ==_refl, ne→==, some-inj,
}
use robu_microkernel.Base.Chain.{upd}
use robu_microkernel.Vm.{
  FaultMsg, FaultRing, fault_queue_size, fault_queue_push, fault_queue_pop, next_index,
}

pub record QueueIsValid (q : FaultRing) : Type 0 where
  pub head_inside : q.head < fault_queue_size
  pub tail_inside : q.tail < fault_queue_size

-- The `n` faults from index `i` on.
abbrev pub faults_from : (ℕ → FaultMsg) → ℕ → ℕ → List FaultMsg
faults_from entries i zero = []
faults_from entries i (suc n) = entries i ∷ faults_from entries (next_index i) n

abbrev pub waiting : FaultRing → ℕ
waiting q = (q.head + fault_queue_size - q.tail) % fault_queue_size

-- The faults that wait, the oldest first.
abbrev pub faults : FaultRing → List FaultMsg
faults q = faults_from q.entries q.tail (waiting q)

length-faults_from : (e : ℕ → FaultMsg) (i n : ℕ) → length (faults_from e i n) ≡ n
length-faults_from e i zero = refl
length-faults_from e i (suc n) = ap suc (length-faults_from e (next_index i) n)

-- A fault that is written right behind `n` others, fewer than there are cells, comes after them.
faults_from-snoc :
    (n : ℕ) (e : ℕ → FaultMsg) (i h : ℕ) (m : FaultMsg)
    → i < fault_queue_size
    → n < fault_queue_size
    → h ≡ (i + n) % fault_queue_size
    → faults_from (upd e h m) i (suc n) ≡ faults_from e i n ++ m ∷ []
faults_from-snoc zero e i h m k l a = let here : i ≡ h = omega arith in rw (here, ==_refl h) refl
faults_from-snoc (suc n) e i h m k l a =
    let other : i ≢ h = λ q. omega arith in
    rw (ne→== i h other) (
      ap (◌∷◌ (e i))
        (faults_from-snoc n e (next_index i) h m (omega arith) (omega arith) (omega arith)))

-- On a valid queue a push, if 15 faults wait, is refused and changes nothing; else the fault comes
-- behind those that wait. The queue stays valid.
pub fault_queue_push_lem :
    (q : FaultRing) (m : FaultMsg)
    → QueueIsValid q
    → let (ok, q') = fault_queue_push q m in
      QueueIsValid q'
      × (ok ≡ false → (q' ≡ q) × (length (faults q) ≡ 15))
      × (ok ≡ true → faults q' ≡ faults q ++ m ∷ [])
unfolding fault_queue_push
fault_queue_push_lem q m v =
    let h = v.head_inside in
    let t = v.tail_inside in
    elim (Bool-cases (next_index q.head == q.tail)) [
      | inl e ↦
          let full : waiting q ≡ 15 = ground arith in
          rw e (
            v,
            λ x. (refl, length-faults_from q.entries q.tail (waiting q) ∙ full),
            λ x. absurd (ground arith),
          )
      | inr e ↦
          let more : (next_index q.head + fault_queue_size - q.tail) % fault_queue_size
              ≡ suc (waiting q) =
            ground arith in
          rw (e, more)
            (
              record { head_inside = omega arith; tail_inside = t },
              λ x. absurd (ground arith),
              λ x.
                  faults_from-snoc (waiting q) q.entries q.tail q.head m t (omega arith)
                    (omega arith),
            )
    ]

-- On a valid queue a pop takes the oldest fault, and leaves the others in order; it fails, without a
-- change, exactly when no fault waits. The queue stays valid.
pub fault_queue_pop_lem :
    (q : FaultRing)
    → QueueIsValid q
    → let (taken, q') = fault_queue_pop q in
      QueueIsValid q'
      × (taken ≡ none → (q' ≡ q) × (faults q ≡ []))
      × ((m : FaultMsg) → taken ≡ some m → faults q ≡ m ∷ faults q')
unfolding fault_queue_pop
fault_queue_pop_lem q v =
    let h = v.head_inside in
    let t = v.tail_inside in
    elim (Bool-cases (q.head == q.tail)) [
      | inl e ↦
          let none_wait : waiting q ≡ 0 = ground arith in
          rw e (v, λ x. (refl, rw none_wait refl), λ m x. absurd (ground arith))
      | inr e ↦
          let fewer : waiting q
              ≡ suc ((q.head + fault_queue_size - next_index q.tail) % fault_queue_size) =
            ground arith in
          rw e (
            record { head_inside = h; tail_inside = omega arith },
            λ x. absurd (ground arith),
            λ m x. rw fewer (
                ap
                  (λ y.
                    y
                    ∷ faults_from q.entries (next_index q.tail)
                        ((q.head + fault_queue_size - next_index q.tail) % fault_queue_size))
                  (some-inj x)),
          )
    ]
