-- ===== src/Pmm/Tests.antt =====
-- The theorems about the page allocator at concrete inputs.
use native.Mathlib.Decide.{ℕ_discrete}
use robu_microkernel.Base.{
  ℕ, ◌+◌, ◌*◌, ◌<◌, ◌≡◌, ◌⊎◌, refl, none, List, [], ◌∷◌, arith, ◌==◌, if◌then◌else◌, ne→==,
}
use robu_microkernel.Base.Chain.{upd}
use robu_microkernel.Pmm.{Pmm, Region, num_colors, zero_stats, pmm_alloc}
use robu_microkernel.Pmm.Lists.{FreeLists}
use robu_microkernel.Pmm.Alloc.{pmm_alloc_any}

-- One page of colour 1 is free.
abbrev one_free : Pmm
one_free = record {
  free_head = λ c. if c == 1 then 0x1000 else 0;
  next_color = 6;
  stats = zero_stats;
  memory = λ a. 0;
}

abbrev lists : ℕ → List ℕ
lists = λ c. if c == 1 then 0x1000 ∷ [] else []

lists-FreeLists : FreeLists one_free lists
lists-FreeLists = record {
  linked = λ c h. elim (ℕ_discrete c 1) [
    | yes e ↦ rw e (refl, (λ z. omega (arith, z)), refl)
    | no n ↦ rw (ne→== c 1 n) refl
  ];
  pages =
      λ c. elim (ℕ_discrete c 1) [ yes e ↦ rw e ((refl, refl), tt) | no n ↦ rw (ne→== c 1 n) tt ];
  no_dup = λ c. elim (ℕ_discrete c 1) [ yes e ↦ rw e (tt, tt) | no n ↦ rw (ne→== c 1 n) tt ];
}

pmm_alloc_any_example :
    let (f, p') = pmm_alloc one_free none in
    ((f ≡ 0) × ((c : ℕ) → c < num_colors → lists c ≡ []))
    ⊎ ((c : ℕ) × (fs : List ℕ) × (c < num_colors)
        × (lists c ≡ f ∷ fs)
        × FreeLists p' (upd lists c fs)
        × ((i : ℕ) → i < 512 → p'.memory (f + 8 * i) ≡ 0))
pmm_alloc_any_example = pmm_alloc_any one_free lists lists-FreeLists (omega arith)

alloc_test : (pmm_alloc one_free none).0 ≡ 0x1000
unfolding pmm_alloc
alloc_test = refl

abbrev kernel_pages : List Region
kernel_pages = record { base = 0x103000; len = 0x800 } ∷ []
