-- ===== src/Pmm/Free.antt =====
-- `pmm_free` puts a page in front of its list, and `pmm_init` fills the lists.
use native.Mathlib.Decide.{ℕ_discrete}
use robu_microkernel.Base.{
  ℕ, zero, suc, ◌+◌, ◌-◌, ◌*◌, ◌/◌, ◌%◌, ◌≡◌, ◌≢◌, ◌≤◌, ◌<◌, refl, sym, subst, true, false, List,
  [], ◌∷◌, leb, take, arith, All, inl, inr, Bool-cases, ==_refl, ne→==,
}
use robu_microkernel.Base.Chain.{upd, NotIn, Has}
use robu_microkernel.Vm.{page_bytes}
use robu_microkernel.Pmm.{
  Pmm, Region, color_of, pmm_free, is_reserved, fill_from, floor_of, ceiling_of, zero_stats,
  max_reserved, pmm_init,
}
use robu_microkernel.Pmm.Lists.{Linked, FreeLists, Linked-frame, others_same, other_color}

abbrev pub pushed : (ℕ → List ℕ) → ℕ → ℕ → List ℕ
pushed ls f = upd ls (color_of f) (f ∷ ls (color_of f))

free-fields :
    (p : Pmm) (f : ℕ)
    → ((pmm_free p f).free_head ≡ upd p.free_head (color_of f) f)
      × ((pmm_free p f).memory ≡ upd p.memory f (p.free_head (color_of f)))
unfolding pmm_free
free-fields p f = (refl, refl)

-- A page that is given back and was not free is the first of its list.
pub pmm_free_lem :
    (p : Pmm) (ls : ℕ → List ℕ) (f : ℕ)
    → FreeLists p ls
    → f % page_bytes ≡ 0
    → f ≢ 0
    → NotIn f (ls (color_of f))
    → FreeLists (pmm_free p f) (pushed ls f)
pmm_free_lem p ls f r h nz n =
    let (heads, memory) = free-fields p f in
    let c = color_of f in
    let m' = upd p.memory f (p.free_head c) in
    let kept : (a : ℕ) → a % page_bytes ≡ 0 → a ≢ f → m' a ≡ p.memory a =
      λ a k w. rw (ne→== a f w) refl in
    let word : m' f ≡ p.free_head c = rw (==_refl f) refl in
    record {
      linked = λ d k.
          rw (heads, memory)
            (elim (ℕ_discrete d c) [
              | yes q ↦
                  rw (q, ==_refl c)
                    (
                      refl,
                      nz,
                      subst (λ a. Linked m' a (ls c)) (sym word)
                          (Linked-frame p.memory m' (p.free_head c) (ls c)
                            (others_same c f p.memory m' (ls c) kept (r.pages c) n)
                            (r.linked c (omega arith))),
                    )
              | no q ↦ rw (ne→== d c q) (
                  Linked-frame p.memory m' (p.free_head d) (ls d)
                    (others_same d f p.memory m' (ls d) kept (r.pages d)
                      (other_color d f (ls d) (λ w. q (sym w)) (r.pages d)))
                    (r.linked d k))
            ]);
      pages = λ d. elim (ℕ_discrete d c) [
        | yes q ↦ rw (q, ==_refl c) ((refl, h), r.pages c)
        | no q ↦ rw (ne→== d c q) (r.pages d)
      ];
      no_dup = λ d. elim (ℕ_discrete d c) [
        | yes q ↦ rw (q, ==_refl c) (n, r.no_dup c)
        | no q ↦ rw (ne→== d c q) (r.no_dup d)
      ];
    }

-- The free pages are those from `low` up to `high` that are not reserved, and all of them.
pub record IsFilled (rs : List Region) (low high : ℕ) (ls : ℕ → List ℕ) : Type 0 where
  pub sound : (c : ℕ) → All (λ x. (low ≤ x) × (x < high) × (is_reserved x rs ≡ false)) (ls c)
  pub complete :
      (x : ℕ)
      → low ≤ x
      → x < high
      → x % page_bytes ≡ 0
      → is_reserved x rs ≡ false
      → Has x (ls (color_of x))

below :
    (rs : List Region) (low high : ℕ) (xs : List ℕ)
    → All (λ x. (low ≤ x) × (x < high) × (is_reserved x rs ≡ false)) xs
    → NotIn high xs
below rs low high [] a = tt
below rs low high (x ∷ xs) a = ((λ e. omega (arith, e, a.0.1)), below rs low high xs a.1)

module _ (rs : List Region) (low : ℕ) where
  wider :
      (high : ℕ) (xs : List ℕ)
      → All (λ x. (low ≤ x) × (x < high) × (is_reserved x rs ≡ false)) xs
      → All (λ x. (low ≤ x) × (x < high + page_bytes) × (is_reserved x rs ≡ false)) xs
  wider high [] a = tt
  wider high (x ∷ xs) a = ((a.0.0, omega (arith, a.0.1), a.0.2), wider high xs a.1)

  skipped :
      (f : ℕ) (ls : ℕ → List ℕ)
      → f % page_bytes ≡ 0
      → is_reserved f rs ≡ true
      → IsFilled rs low f ls
      → IsFilled rs low (f + page_bytes) ls
  skipped f ls h e i = record {
    sound = λ c. wider f (ls c) (i.sound c);
    complete = λ x a b k n. elim (ℕ_discrete x f) [
      | yes q ↦ absurd (ground (arith, rw q at n, e))
      | no q ↦ i.complete x a (omega arith) k n
    ];
  }

  added :
      (f : ℕ) (ls : ℕ → List ℕ)
      → low ≤ f
      → f % page_bytes ≡ 0
      → is_reserved f rs ≡ false
      → IsFilled rs low f ls
      → IsFilled rs low (f + page_bytes) (pushed ls f)
  added f ls a h e i = record {
    sound = λ c. elim (ℕ_discrete c (color_of f)) [
      | yes q ↦
          rw (q, ==_refl (color_of f))
            ((a, omega arith, e), wider f (ls (color_of f)) (i.sound (color_of f)))
      | no q ↦ rw (ne→== c (color_of f) q) (wider f (ls c) (i.sound c))
    ];
    complete = λ x b k m n. elim (ℕ_discrete x f) [
      | yes q ↦ rw (q, ==_refl (color_of f)) (inl refl)
      | no q ↦ more x (i.complete x b (omega arith) m n)
    ];
  }
    where
      more : (x : ℕ) → Has x (ls (color_of x)) → Has x (pushed ls f (color_of x))
      more x u = elim (ℕ_discrete (color_of x) (color_of f)) [
        | yes q ↦ rw (q, ==_refl (color_of f)) (inr (rw q at u))
        | no q ↦ rw (ne→== (color_of x) (color_of f) q) u
      ]

  -- The loop of `pmm_init`: if the free pages are those below the page `f`, they are those below the end
  -- when the loop is done.
  pub fill_from_lem :
      (n f : ℕ) (p : Pmm) (count : ℕ) (ls : ℕ → List ℕ)
      → FreeLists p ls
      → IsFilled rs low f ls
      → low ≤ f
      → f % page_bytes ≡ 0
      → f ≢ 0
      → (ls' : ℕ → List ℕ) × FreeLists (fill_from n f rs p count).0 ls'
        × IsFilled rs low (f + n * page_bytes) ls'
  unfolding fill_from
  fill_from_lem zero f p count ls r i a h z =
      let e : f ≡ f + zero * page_bytes = omega arith in
      (ls, r, subst (λ x. IsFilled rs low x ls) e i)
  fill_from_lem (suc n) f p count ls r i a h z =
      let e : f + page_bytes + n * page_bytes ≡ f + suc n * page_bytes = omega arith in
      elim (Bool-cases (is_reserved f rs)) [
        | inl q ↦
            let (ls', x, y) =
              fill_from_lem n (f + page_bytes) p count ls r (skipped f ls h q i) (omega arith)
                (omega arith) (omega arith) in
            rw (q, fill_from) (ls', x, subst (λ t. IsFilled rs low t ls') e y)
        | inr q ↦
            let r1 =
              pmm_free_lem p ls f r h z (below rs low f (ls (color_of f)) (i.sound (color_of f))) in
            let (ls', x, y) =
              fill_from_lem n (f + page_bytes) (pmm_free p f) (count + 1) (pushed ls f) r1
                (added f ls a h q i) (omega arith) (omega arith) (omega arith) in
            rw (q, fill_from) (ls', x, subst (λ t. IsFilled rs low t ls') e y)
      ]

no_lists-FreeLists : (p : Pmm) → ((c : ℕ) → p.free_head c ≡ 0) → FreeLists p (λ c. [])
no_lists-FreeLists p h = record { linked = λ c k. h c; pages = λ c. tt; no_dup = λ c. tt }

pub pmm_init-IsFilled :
    (memory : ℕ → ℕ) (image_end base len : ℕ) (reserved : List Region)
    → base % page_bytes ≡ 0
    → 0 < image_end
    → floor_of image_end base < ceiling_of base len
    → let low = floor_of image_end base in
      let high = ceiling_of base len in
      let pages = (high - low + page_bytes - 1) / page_bytes in
      (ls : ℕ → List ℕ) × FreeLists (pmm_init memory image_end base len reserved) ls
      × IsFilled (take max_reserved reserved) low (low + pages * page_bytes) ls
unfolding pmm_init
pmm_init-IsFilled memory image_end base len reserved h e k =
    let low = floor_of image_end base in
    let high = ceiling_of base len in
    let pages = (high - low + page_bytes - 1) / page_bytes in
    let rs = take max_reserved reserved in
    let nothing : Pmm = record {
      free_head = λ c. 0;
      next_color = 0;
      stats = zero_stats;
      memory = memory;
    } in
    let more : leb high low ≡ false = ground (arith, k) in
    let aligned : low % page_bytes ≡ 0 = ground arith in
    let nonzero : low ≢ 0 = ground arith in
    let (ls, x, y) =
      fill_from_lem rs low pages low nothing 0 (λ c. []) (no_lists-FreeLists nothing (λ c. refl))
        (record { sound = λ c. tt; complete = λ x a b m n. absurd (omega arith) }) (omega arith)
        aligned nonzero in
    rw more (ls, record { linked = x.linked; pages = x.pages; no_dup = x.no_dup }, y)
