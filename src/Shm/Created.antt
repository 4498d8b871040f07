-- ===== src/Shm/Created.antt =====
-- A segment that is made in a free slot has no attachments.
use native.Mathlib.Decide.{ℕ_discrete}
use robu_microkernel.Base.{
  ℕ, ◌≡◌, ◌≢◌, ◌<◌, refl, sym, ◌∙◌, true, false, some, arith, inl, inr, Bool-cases, ==_refl, ne→==,
}
use robu_microkernel.Base.Chain.{upd}
use robu_microkernel.Shm.{Segment, Attach, find_segment, max_attaches, shmid_slot}
use robu_microkernel.Shm.Count.{count-same, count-none, find_segment-some}
use robu_microkernel.Shm.Attached.{IsCounted, targets}

find_segment-elsewhere :
    (s : ℕ → Segment) (i : ℕ) (r : Segment) (shmid : ℕ)
    → shmid_slot shmid ≢ i
    → find_segment (upd s i r) shmid ≡ find_segment s shmid
unfolding find_segment
find_segment-elsewhere s i r shmid n = rw (ne→== (shmid_slot shmid) i n) refl

-- A segment in a free slot has no attachments.
pub created-IsCounted :
    (segments : ℕ → Segment) (attaches : ℕ → Attach) (i : ℕ) (s : Segment)
    → IsCounted segments attaches
    → (segments i).in_use ≡ false
    → s.nattch ≡ 0
    → IsCounted (upd segments i s) attaches
created-IsCounted segments attaches i s c free z = record {
  points = λ j k v. let (x, e) = c.points j k v in (x, kept j k v ∙ e);
  counts = λ k b v. elim (ℕ_discrete k i) [
    | yes e ↦
        let nobody = count-none max_attaches (targets (upd segments i s) attaches) i none_points in
        rw (e, ==_refl i) (z ∙ sym nobody)
    | no d ↦
        let v' = rw (ne→== k i d) at v in
        let all_same =
          count-same max_attaches (targets (upd segments i s) attaches) (targets segments attaches)
            k all_kept in
        rw (ne→== k i d) (c.counts k b v' ∙ sym all_same)
  ];
}
  where
    elsewhere :
        (j : ℕ) → j < max_attaches → (attaches j).in_use ≡ true → shmid_slot (attaches j).shmid ≢ i
    elsewhere j k v q =
        let (x, e) = c.points j k v in
        let (slot, _, used) = find_segment-some segments (attaches j).shmid x e in
        let same : x ≡ i = sym slot ∙ q in ground (arith, free, rw same at used)

    kept :
        (j : ℕ)
        → j < max_attaches
        → (attaches j).in_use ≡ true
        → find_segment (upd segments i s) (attaches j).shmid
          ≡ find_segment segments (attaches j).shmid
    kept j k v = find_segment-elsewhere segments i s (attaches j).shmid (elsewhere j k v)

    all_kept :
        (j : ℕ)
        → j < max_attaches
        → targets (upd segments i s) attaches j ≡ targets segments attaches j
    all_kept j k = elim (Bool-cases (attaches j).in_use) [
      | inl v ↦ rw v (kept j k v)
      | inr v ↦ rw v refl
    ]

    none_points : (j : ℕ) → j < max_attaches → targets (upd segments i s) attaches j ≢ some i
    none_points j k e = elim (Bool-cases (attaches j).in_use) [
      | inl v ↦
          let at_i : find_segment segments (attaches j).shmid ≡ some i =
            sym (kept j k v) ∙ rw v at e in
          elsewhere j k v (find_segment-some segments (attaches j).shmid i at_i).0
      | inr v ↦ let bad = rw v at e in ground (arith, bad)
    ]
