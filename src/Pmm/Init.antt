-- ===== src/Pmm/Init.antt =====
-- `pmm_init` of src/core/pmm.c: which pages are free after the start.
use robu_microkernel.Base.{ℕ, ◌+◌, ◌%◌, ◌^◌, ◌≡◌, ◌≤◌, ◌<◌, List, All}
use robu_microkernel.Base.Chain.{Has}
use robu_microkernel.Vm.{page_bytes}
use robu_microkernel.Pmm.{Region, color_of}

-- A byte lies both in the page at `f` and in the region.
abbrev pub Touches : ℕ → Region → Type 0
Touches f r = (a : ℕ) × (f ≤ a) × (a < f + page_bytes) × (r.base ≤ a) × (a < r.base + r.len)

-- No region has a byte in the page.
abbrev pub IsClear : ℕ → List Region → Type 0
IsClear f rs = All (λ r. ¬ Touches f r) rs

-- The end of a region can be written in 64 bits.
abbrev pub Fits : Region → Type 0
Fits r = r.base + r.len < 2 ^ 64

-- The free pages are those from `low` up to `high` in which no region has a byte, and all of them.
pub record IsPool (rs : List Region) (low high : ℕ) (ls : ℕ → List ℕ) : Type 0 where
  pub sound : (c : ℕ) → All (λ x. (low ≤ x) × (x < high) × IsClear x rs) (ls c)
  pub complete :
      (x : ℕ) → low ≤ x → x < high → x % page_bytes ≡ 0 → IsClear x rs → Has x (ls (color_of x))
