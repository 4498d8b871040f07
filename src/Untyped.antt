-- ===== src/Untyped.antt =====
-- src/core/untyped.c: the kernel's bump allocator of whole pages. The clearing of the pages is not
-- modelled; memory is given out once and never comes back.
mod Tests
use robu_microkernel.Base.{
  ℕ, ◌+◌, ◌-◌, ◌*◌, ◌/◌, ◌%◌, ◌^◌, ◌≤◌, ◌<◌, ◌≡◌, refl, sym, ◌∙◌, ◌≢◌, ◌⊎◌, inl, inr, Bool, true,
  List, [], ◌∷◌, Bool-cases, arith, ltb, ◌==◌, if◌then◌else◌,
}
use robu_microkernel.Base.Words.{u64, add64}

abbrev pub page_size : ℕ
page_size = 0x1000

-- `region_base`, `region_size` and `watermark`
pub record Untyped : Type 0 where
  pub region_base : ℕ
  pub region_size : ℕ
  pub watermark : ℕ

unfoldable pub untyped_init : ℕ → ℕ → Untyped
untyped_init base size = record { region_base = base; region_size = size; watermark = 0 }

-- `(size + PAGE_SIZE_4K - 1) & ~(PAGE_SIZE_4K - 1)`, and a page for nothing.
unfoldable pub aligned_size : ℕ → ℕ
aligned_size size =
    let aligned = add64 size (page_size - 1) / page_size * page_size in
    if aligned == 0 then page_size else aligned

-- The number is the address of the memory, 0 if there is none.
unfoldable pub untyped_alloc : Untyped → ℕ → ℕ × Untyped
untyped_alloc u size =
    let aligned = aligned_size size in
    if ltb u.region_size (add64 u.watermark aligned)
    then (0, u)
    else (add64 u.region_base u.watermark, record u { watermark = add64 u.watermark aligned })

-- The region lies above address 0 and ends in the first quarter of the address space, and what was
-- given out lies in the region.
pub record IsValid (u : Untyped) : Type 0 where
  pub above_null : 0 < u.region_base
  pub region_fits : u.region_base + u.region_size < 2 ^ 62
  pub used_fits : u.watermark ≤ u.region_size

-- The allocations of a list of sizes that succeed, as pairs of an address and a length.
unfoldable pub alloc_all : Untyped → List ℕ → List (ℕ × ℕ)
alloc_all u [] = []
alloc_all u (size ∷ sizes) =
    let (address, u') = untyped_alloc u size in
    let rest = alloc_all u' sizes in
    if address == 0 then rest else (address, aligned_size size) ∷ rest

aligned_size-lt :
    (size : ℕ)
    → size < 2 ^ 63
    → (size ≤ aligned_size size)
      × (0 < aligned_size size)
      × (aligned_size size < 2 ^ 63 + page_size)
unfolding aligned_size
aligned_size-lt size h = ground arith

-- A request below half the address space on a valid region: either no room is left, then the answer
-- is 0 and nothing changes; or the answer is the first address that was not given out yet, and the
-- region's used part grows by the size in whole pages, which covers the request and still fits.
pub untyped_alloc_lem :
    (u : Untyped) (size : ℕ)
    → IsValid u
    → size < 2 ^ 63
    → ((untyped_alloc u size ≡ (0, u)) × (u.region_size < u.watermark + aligned_size size))
      ⊎ (let (address, u') = untyped_alloc u size in
          (address ≡ u.region_base + u.watermark)
          × (size ≤ aligned_size size)
          × (u' ≡ record u { watermark = u.watermark + aligned_size size })
          × IsValid u')
unfolding untyped_alloc
untyped_alloc_lem u size v h =
    elim (Bool-cases (ltb u.region_size (add64 u.watermark (aligned_size size)))) [
      | inl e ↦ inl (rw (e, untyped_alloc), ground (arith, aligned_size-lt size h))
      | inr e ↦
          let a = aligned_size-lt size h in
          let fits : add64 u.watermark (aligned_size size) ≡ u.watermark + aligned_size size =
            omega arith in
          rw (e, untyped_alloc, fits)
            (inr (
              omega arith,
              a.0,
              refl,
              record {
                above_null = v.above_null;
                region_fits = v.region_fits;
                used_fits = ground (arith, fits);
              },
            ))
    ]

-- The ranges follow one another from `lo` on and end by `hi`, so no two overlap.
abbrev pub Ascending : ℕ → ℕ → List (ℕ × ℕ) → Type 0
Ascending lo hi [] = lo ≤ hi
Ascending lo hi ((address, size) ∷ rest) =
    (lo ≤ address) × (0 < size) × Ascending (address + size) hi rest
