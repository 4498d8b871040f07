-- ===== src/Shm/Count.antt =====
-- How many attachments a segment has: counting over the table of attachments.
use native.Mathlib.Decide.{ℕ_discrete}
use robu_microkernel.Base.{
  ℕ, zero, suc, ◌+◌, ◌≡◌, ◌≢◌, ◌≤◌, ◌<◌, refl, sym, ap, ◌∙◌, true, false, not, ◌||◌, Option, none,
  some, ◌!=◌, leb, if◌then◌else◌, arith, inl, inr, Bool-cases, Option-cases, some-inj, ==_refl,
  ne→==,
}
use robu_microkernel.Base.Chain.{upd}
use robu_microkernel.Base.Removal.{is_node}
use robu_microkernel.Shm.{Segment, Attach, find_segment, shmid_slot, shmid_gen, max_segments}

-- How many of the first `n` entries point to `i`.
abbrev pub count : ℕ → (ℕ → Option ℕ) → ℕ → ℕ
count zero f i = 0
count (suc n) f i = (if is_node (f n) i then 1 else 0) + count n f i

pub count-same :
    (n : ℕ) (f g : ℕ → Option ℕ) (i : ℕ) → ((j : ℕ) → j < n → f j ≡ g j) → count n f i ≡ count n g i
count-same zero f g i h = refl
count-same (suc n) f g i h =
    rw (h n (omega arith), count-same n f g i (λ j k. h j (omega arith))) refl

-- One entry changes.
pub count-upd :
    (n : ℕ) (f : ℕ → Option ℕ) (j i : ℕ) (o : Option ℕ)
    → j < n
    → count n (upd f j o) i + (if is_node (f j) i then 1 else 0)
      ≡ count n f i + (if is_node o i then 1 else 0)
count-upd zero f j i o h = absurd (omega arith)
count-upd (suc n) f j i o h = elim (ℕ_discrete j n) [
  | yes e ↦
      let rest : count n (upd f n o) i ≡ count n f i =
        count-same n (upd f n o) f i (λ k l. rw (ne→== k n (λ q. omega arith)) refl) in
      rw (e, ==_refl n, rest) (omega arith)
  | no d ↦
      let ih = count-upd n f j i o (omega arith) in
      rw (ne→== n j (λ q. d (sym q))) (omega (arith, ih))
]

pub count-le : (n : ℕ) (f : ℕ → Option ℕ) (i : ℕ) → count n f i ≤ n
count-le zero f i = omega arith
count-le (suc n) f i = elim (Bool-cases (is_node (f n) i)) [
  | inl e ↦ rw e (omega (arith, count-le n f i))
  | inr e ↦ rw e (omega (arith, count-le n f i))
]

pub count-zero : (n : ℕ) (f : ℕ → Option ℕ) (i j : ℕ) → count n f i ≡ 0 → j < n → f j ≢ some i
count-zero zero f i j z h e = absurd (omega arith)
count-zero (suc n) f i j z h e = elim (Bool-cases (is_node (f n) i)) [
  | inl q ↦ let z' = rw q at z in omega (arith, z')
  | inr q ↦
      let z' = rw q at z in
      elim (ℕ_discrete j n) [
        | yes w ↦
            let at_n : f n ≡ some i = ap f (sym w) ∙ e in
            let yes_it : is_node (f n) i ≡ true = rw at_n (==_refl i) in ground (arith, q, yes_it)
        | no w ↦ count-zero n f i j (omega (arith, z')) (omega arith) e
      ]
]

-- Where an attachment points to.
abbrev pub target : (ℕ → Segment) → Attach → Option ℕ
target segments a = if a.in_use then find_segment segments a.shmid else none

-- Two tables of segments with the same ids in use.
pub find_segment-same :
    (s s' : ℕ → Segment) (shmid : ℕ)
    → ((i : ℕ) → ((s' i).in_use ≡ (s i).in_use) × ((s' i).generation ≡ (s i).generation))
    → find_segment s' shmid ≡ find_segment s shmid
unfolding find_segment
find_segment-same s s' shmid h = rw ((h (shmid_slot shmid)).0, (h (shmid_slot shmid)).1) refl

pub find_segment-some :
    (s : ℕ → Segment) (shmid i : ℕ)
    → find_segment s shmid ≡ some i
    → (shmid_slot shmid ≡ i) × (i < max_segments) × ((s i).in_use ≡ true)
unfolding find_segment
find_segment-some s shmid i e = elim (Bool-cases (leb max_segments (shmid_slot shmid))) [
  | inl q ↦ let bad = rw q at e in absurd (ground (arith, bad))
  | inr q ↦
      elim (Bool-cases (
        not (s (shmid_slot shmid)).in_use
        || (s (shmid_slot shmid)).generation != shmid_gen shmid)) [
          | inl w ↦ let bad = rw (q, w) at e in absurd (ground (arith, bad))
          | inr w ↦
              let same : shmid_slot shmid ≡ i = some-inj (rw (q, w) at e) in
              (same, ground (arith, q, same), ap (λ k. (s k).in_use) (sym same) ∙ ground (arith, w))
        ]
]

-- Freeing a segment to which an id does not point does not change what the id finds.
pub find_segment-freed :
    (s : ℕ → Segment) (i : ℕ) (r : Segment) (shmid : ℕ)
    → r.in_use ≡ false
    → find_segment s shmid ≢ some i
    → find_segment (upd s i r) shmid ≡ find_segment s shmid
unfolding find_segment
find_segment-freed s i r shmid u n = elim (ℕ_discrete (shmid_slot shmid) i) [
  | no d ↦ rw (ne→== (shmid_slot shmid) i d) refl
  | yes e ↦ elim (Bool-cases (leb max_segments i)) [
    | inl q ↦ rw (e, q) refl
    | inr q ↦ elim (Bool-cases (not (s i).in_use || (s i).generation != shmid_gen shmid)) [
      | inl w ↦ rw (e, q, ==_refl i, u, w) refl
      | inr w ↦ absurd ((rw (e, q, w) at n) refl)
    ]
  ]
]

pub count-none :
    (n : ℕ) (f : ℕ → Option ℕ) (i : ℕ) → ((j : ℕ) → j < n → f j ≢ some i) → count n f i ≡ 0
count-none zero f i h = refl
count-none (suc n) f i h =
    let rest = count-none n f i (λ j k. h j (omega arith)) in
    elim (Option-cases (f n)) [
      | inl e ↦ rw (e, rest) refl
      | inr (x, e) ↦
          let apart : x ≢ i = (λ q. h n (omega arith) (e ∙ ap some q)) in
          rw (e, ne→== x i apart, rest) refl
    ]
