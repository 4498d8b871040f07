-- ===== src/Shm/Attached.antt =====
-- A segment's number of attachments is right: what the changes of the two tables do to it.
use native.Mathlib.Decide.{ℕ_discrete}
use robu_microkernel.Base.{
  ℕ, ◌+◌, ◌≡◌, ◌≢◌, ◌≤◌, ◌<◌, refl, sym, ◌∙◌, true, false, Option, none, some, ◌==◌, if◌then◌else◌,
  arith, inl, inr, Bool-cases, ==_refl, ne→==,
}
use robu_microkernel.Base.Words.{add32, sub32}
use robu_microkernel.Base.Chain.{upd}
use robu_microkernel.Shm.{Segment, Attach, find_segment, max_segments, max_attaches}
use robu_microkernel.Shm.Count.{
  count, count-same, count-upd, count-le, count-zero, target, find_segment-same, find_segment-freed,
}

abbrev pub targets : (ℕ → Segment) → (ℕ → Attach) → ℕ → Option ℕ
targets segments attaches j = target segments (attaches j)

-- Every attachment points to a segment, and every segment counts those that point to it.
pub record IsCounted (segments : ℕ → Segment) (attaches : ℕ → Attach) : Type 0 where
  pub points :
      (j : ℕ)
      → j < max_attaches
      → (attaches j).in_use ≡ true
      → (i : ℕ) × (find_segment segments (attaches j).shmid ≡ some i)
  pub counts :
      (i : ℕ)
      → i < max_segments
      → (segments i).in_use ≡ true
      → (segments i).nattch ≡ count max_attaches (targets segments attaches) i

-- A segment that is written with the same id.
abbrev pub SameId : Segment → Segment → Type 0
SameId s s' = (s'.in_use ≡ s.in_use) × (s'.generation ≡ s.generation)

unchanged : {a b c x : ℕ} → a ≡ b → x ≡ c → c + 0 ≡ b + 0 → a ≡ x
unchanged p q r = omega arith

raised : {a b c x y : ℕ} → y ≡ add32 a 1 → b ≤ max_attaches → a ≡ b → x ≡ c → c + 0 ≡ b + 1 → y ≡ x
raised p f q r t = omega arith

lowered : {a b c x y : ℕ} → y ≡ sub32 a 1 → b ≤ max_attaches → a ≡ b → x ≡ c → c + 1 ≡ b + 0 → y ≡ x
lowered p f q r t = omega arith

module _ (segments : ℕ → Segment) (attaches : ℕ → Attach) (c : IsCounted segments attaches) where
  same_ids :
      (i : ℕ) (s : Segment)
      → SameId (segments i) s
      → (k : ℕ)
      → ((upd segments i s k).in_use ≡ (segments k).in_use)
        × ((upd segments i s k).generation ≡ (segments k).generation)
  same_ids i s h k = elim (ℕ_discrete k i) [
    | yes e ↦ rw (e, ==_refl i) h
    | no n ↦ rw (ne→== k i n) (refl, refl)
  ]

  find_kept :
      (i : ℕ) (s : Segment) (shmid : ℕ)
      → SameId (segments i) s
      → find_segment (upd segments i s) shmid ≡ find_segment segments shmid
  find_kept i s shmid h = find_segment-same segments (upd segments i s) shmid (same_ids i s h)

  pub touched-IsCounted :
      (i : ℕ) (s : Segment)
      → SameId (segments i) s
      → s.nattch ≡ (segments i).nattch
      → IsCounted (upd segments i s) attaches
  touched-IsCounted i s h n = record {
    points = λ j k u. let (x, e) = c.points j k u in (x, find_kept i s (attaches j).shmid h ∙ e);
    counts = λ k l u.
        let old = c.counts k l (sym (same_ids i s h k).0 ∙ u) in
        let all_same : count max_attaches (targets (upd segments i s) attaches) k
            ≡ count max_attaches (targets segments attaches) k =
          count-same max_attaches (targets (upd segments i s) attaches) (targets segments attaches)
            k (λ j w. rw (find_kept i s (attaches j).shmid h) refl) in
        nattch_of k ∙ old ∙ sym all_same;
  }
    where
      nattch_of : (k : ℕ) → (upd segments i s k).nattch ≡ (segments k).nattch
      nattch_of k = elim (ℕ_discrete k i) [
        | yes e ↦ rw (e, ==_refl i) n
        | no d ↦ rw (ne→== k i d) refl
      ]

  pub attached-IsCounted :
      (i j : ℕ) (s : Segment) (new : Attach)
      → j < max_attaches
      → (attaches j).in_use ≡ false
      → SameId (segments i) s
      → s.nattch ≡ add32 (segments i).nattch 1
      → new.in_use ≡ true
      → find_segment segments new.shmid ≡ some i
      → IsCounted (upd segments i s) (upd attaches j new)
  attached-IsCounted i j s new l free h n u f = record {
    points = λ k b v. elim (ℕ_discrete k j) [
      | yes e ↦ rw (e, ==_refl j) (i, find_kept i s new.shmid h ∙ f)
      | no d ↦
          let v' = rw (ne→== k j d) at v in
          let (x, e) = c.points k b v' in
          rw (ne→== k j d) (x, find_kept i s (attaches k).shmid h ∙ e)
    ];
    counts = λ k b v.
        let old = c.counts k b (sym (same_ids i s h k).0 ∙ v) in
        let all_same =
          count-same max_attaches (targets (upd segments i s) (upd attaches j new))
            (upd (targets segments attaches) j (some i)) k new_targets in
        let change = count-upd max_attaches (targets segments attaches) j k (some i) l in
        let was_free : targets segments attaches j ≡ none = rw free refl in
        let change' = rw was_free at change in all_counts k old (all_same) change';
  }
    where
      new_targets :
          (k : ℕ)
          → k < max_attaches
          → targets (upd segments i s) (upd attaches j new) k
            ≡ upd (targets segments attaches) j (some i) k
      new_targets k b = elim (ℕ_discrete k j) [
        | yes e ↦ rw (e, ==_refl j, u) (find_kept i s new.shmid h ∙ f)
        | no d ↦ rw (ne→== k j d, find_kept i s (attaches k).shmid h) refl
      ]

      all_counts :
          (k : ℕ) {x : ℕ}
          → (segments k).nattch ≡ count max_attaches (targets segments attaches) k
          → x ≡ count max_attaches (upd (targets segments attaches) j (some i)) k
          → count max_attaches (upd (targets segments attaches) j (some i)) k + 0
            ≡ count max_attaches (targets segments attaches) k + (if i == k then 1 else 0)
          → (upd segments i s k).nattch ≡ x
      all_counts k old same change = elim (ℕ_discrete k i) [
        | yes e ↦
            let few = count-le max_attaches (targets segments attaches) i in
            let change' = rw (e, ==_refl i) at change in
            let old' = rw e at old in
            let same' = rw e at same in rw (e, ==_refl i) (raised n few old' same' change')
        | no d ↦
            let change' = rw (ne→== i k (λ q. d (sym q))) at change in
            rw (ne→== k i d) (unchanged old same change')
      ]

  pub detached-IsCounted :
      (i j : ℕ) (s : Segment) (gone : Attach)
      → j < max_attaches
      → (attaches j).in_use ≡ true
      → find_segment segments (attaches j).shmid ≡ some i
      → SameId (segments i) s
      → s.nattch ≡ sub32 (segments i).nattch 1
      → gone.in_use ≡ false
      → IsCounted (upd segments i s) (upd attaches j gone)
  detached-IsCounted i j s gone l used f h n u = record {
    points = λ k b v. elim (ℕ_discrete k j) [
      | yes e ↦ absurd (ground (arith, rw (e, ==_refl j) at v, u))
      | no d ↦
          let v' = rw (ne→== k j d) at v in
          let (x, e) = c.points k b v' in
          rw (ne→== k j d) (x, find_kept i s (attaches k).shmid h ∙ e)
    ];
    counts = λ k b v.
        let old = c.counts k b (sym (same_ids i s h k).0 ∙ v) in
        let all_same =
          count-same max_attaches (targets (upd segments i s) (upd attaches j gone))
            (upd (targets segments attaches) j none) k new_targets in
        let change = count-upd max_attaches (targets segments attaches) j k none l in
        let was : targets segments attaches j ≡ some i = rw used f in
        let change' = rw was at change in all_counts k old all_same change';
  }
    where
      new_targets :
          (k : ℕ)
          → k < max_attaches
          → targets (upd segments i s) (upd attaches j gone) k
            ≡ upd (targets segments attaches) j none k
      new_targets k b = elim (ℕ_discrete k j) [
        | yes e ↦ rw (e, ==_refl j, u) refl
        | no d ↦ rw (ne→== k j d, find_kept i s (attaches k).shmid h) refl
      ]

      all_counts :
          (k : ℕ) {x : ℕ}
          → (segments k).nattch ≡ count max_attaches (targets segments attaches) k
          → x ≡ count max_attaches (upd (targets segments attaches) j none) k
          → count max_attaches (upd (targets segments attaches) j none) k
              + (if i == k then 1 else 0)
            ≡ count max_attaches (targets segments attaches) k + 0
          → (upd segments i s k).nattch ≡ x
      all_counts k old same change = elim (ℕ_discrete k i) [
        | yes e ↦
            let few = count-le max_attaches (targets segments attaches) i in
            let change' = rw (e, ==_refl i) at change in
            let old' = rw e at old in
            let same' = rw e at same in rw (e, ==_refl i) (lowered n few old' same' change')
        | no d ↦
            let change' = rw (ne→== i k (λ q. d (sym q))) at change in
            rw (ne→== k i d) (unchanged old same change')
      ]

  pub freed-IsCounted :
      (i : ℕ) (r : Segment)
      → i < max_segments
      → (segments i).in_use ≡ true
      → (segments i).nattch ≡ 0
      → r.in_use ≡ false
      → IsCounted (upd segments i r) attaches
  freed-IsCounted i r l used zero_left u = record {
    points = λ j k v.
        let (x, e) = c.points j k v in
        (x, find_segment-freed segments i r (attaches j).shmid u (apart j k v) ∙ e);
    counts = λ k b v. elim (ℕ_discrete k i) [
      | yes e ↦ absurd (ground (arith, rw (e, ==_refl i) at v, u))
      | no d ↦
          let v' = rw (ne→== k i d) at v in
          let all_same =
            count-same max_attaches (targets (upd segments i r) attaches)
              (targets segments attaches) k kept in
          rw (ne→== k i d) (c.counts k b v' ∙ sym all_same)
    ];
  }
    where
      none_points : (j : ℕ) → j < max_attaches → targets segments attaches j ≢ some i
      none_points j k =
          count-zero max_attaches (targets segments attaches) i j
            (sym (c.counts i l used) ∙ zero_left) k

      apart :
          (j : ℕ)
          → j < max_attaches
          → (attaches j).in_use ≡ true
          → find_segment segments (attaches j).shmid ≢ some i
      apart j k v e = none_points j k (rw v e)

      kept :
          (j : ℕ)
          → j < max_attaches
          → targets (upd segments i r) attaches j ≡ targets segments attaches j
      kept j k = elim (Bool-cases (attaches j).in_use) [
        | inl v ↦ rw v (find_segment-freed segments i r (attaches j).shmid u (apart j k v))
        | inr v ↦ rw v refl
      ]
