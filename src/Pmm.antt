-- ===== src/Pmm.antt =====
-- src/core/pmm.c: the allocator of physical pages. The free pages of each cache colour are a list that is
-- linked through their first words; the address 0 ends it. The memory is a function from the address of a
-- word to the word.
pub mod Lists
pub mod Alloc
pub mod Free
pub mod Init
mod Tests
use robu_microkernel.Base.{
  ℕ, zero, suc, ◌+◌, ◌-◌, ◌*◌, ◌/◌, ◌%◌, Bool, true, false, not, ◌&&◌, ◌||◌, List, [], ◌∷◌, Option,
  none, some, ltb, leb, ◌==◌, ◌!=◌, if◌then◌else◌, take,
}
use robu_microkernel.Base.Words.{add64, sub64}
use robu_microkernel.Base.Chain.{upd}
use robu_microkernel.Vm.{page_bytes}

abbrev pub num_colors : ℕ
num_colors = 8

-- `pmm_stats_t`
pub record PmmStats : Type 0 where
  pub total_frames : ℕ
  pub free_frames : ℕ
  pub free_by_color : ℕ → ℕ
  pub alloc_calls : ℕ
  pub free_calls : ℕ

-- `free_head`, `next_color`, `pmm_stats` and the memory.
pub record Pmm : Type 0 where
  pub free_head : ℕ → ℕ
  pub next_color : ℕ
  pub stats : PmmStats
  pub memory : ℕ → ℕ

-- `(frame >> 12) & 7`
abbrev pub color_of : ℕ → ℕ
color_of frame = frame / page_bytes % num_colors

-- The loop that clears the words of a page from word `i` on with `n` words left.
unfoldable pub clear_from : ℕ → ℕ → ℕ → (ℕ → ℕ) → ℕ → ℕ
clear_from zero i frame memory = memory
clear_from (suc n) i frame memory = clear_from n (i + 1) frame (upd memory (frame + 8 * i) 0)

-- The loop that looks for a colour with a free page, with `n` rounds left: the colour, and `next_color`.
unfoldable pub pick_color : ℕ → Pmm → ℕ → Option ℕ × ℕ
pick_color zero p next = (none, next)
pick_color (suc n) p next =
    let next' = (next + 1) % num_colors in
    let rest = pick_color n p next' in if p.free_head next != 0 then (some next, next') else rest

-- A page of the colour, or 0.
unfoldable pub alloc_color : Pmm → ℕ → ℕ × Pmm
unfolding clear_from
alloc_color p color =
    let frame = p.free_head color in
    let stats = record (p.stats) {
      free_frames = sub64 p.stats.free_frames 1;
      free_by_color = upd p.stats.free_by_color color (sub64 (p.stats.free_by_color color) 1);
      alloc_calls = add64 p.stats.alloc_calls 1;
    } in
    let taken = record p {
      free_head = upd p.free_head color (p.memory frame);
      stats = stats;
      memory = clear_from 512 0 frame p.memory;
    } in
    if frame == 0 then (0, p) else (frame, taken)

-- `none` is PMM_COLOR_ANY.
unfoldable pub pmm_alloc : Pmm → Option ℕ → ℕ × Pmm
unfolding alloc_color pick_color
pmm_alloc p (some color) = alloc_color p color
pmm_alloc p none =
    let (picked, next) = pick_color num_colors p p.next_color in
    let p1 = record p { next_color = next } in
    elim picked [ none ↦ (0, p1) | some color ↦ alloc_color p1 color ]

unfoldable pub pmm_free : Pmm → ℕ → Pmm
pmm_free p frame =
    let c = color_of frame in
    let stats = record (p.stats) {
      free_frames = add64 p.stats.free_frames 1;
      free_by_color = upd p.stats.free_by_color c (add64 (p.stats.free_by_color c) 1);
      free_calls = add64 p.stats.free_calls 1;
    } in
    record p {
      memory = upd p.memory frame (p.free_head c);
      free_head = upd p.free_head c frame;
      stats = stats;
    }

-- A region that must not be used: its base and its length.
pub record Region : Type 0 where
  pub base : ℕ
  pub len : ℕ

abbrev pub max_reserved : ℕ
max_reserved = 16

abbrev pub identity_map_limit : ℕ
identity_map_limit = 0x40000000

-- Does the page lie in one of the regions, in part?
unfoldable pub is_reserved : ℕ → List Region → Bool
is_reserved f [] = false
is_reserved f (r ∷ rs) =
    let rest = is_reserved f rs in
    if r.len == 0
    then rest
    else if ltb r.base (add64 f page_bytes) && ltb f (add64 r.base r.len)
    then true
    else rest

-- The loop over the pages from `f` on with `n` pages left, and `count`.
unfoldable pub fill_from : ℕ → ℕ → List Region → Pmm → ℕ → Pmm × ℕ
unfolding is_reserved pmm_free
fill_from zero f rs p count = (p, count)
fill_from (suc n) f rs p count =
    let (p1, count1) = if is_reserved f rs then (p, count) else (pmm_free p f, count + 1) in
    fill_from n (f + page_bytes) rs p1 count1

abbrev pub zero_stats : PmmStats
zero_stats = record {
  total_frames = 0;
  free_frames = 0;
  free_by_color = λ c. 0;
  alloc_calls = 0;
  free_calls = 0;
}

-- The first page of the pool; `image_end` is the end of the kernel's image.
abbrev pub floor_of : ℕ → ℕ → ℕ
floor_of image_end base =
    let above = (image_end + page_bytes - 1) / page_bytes * page_bytes in
    if ltb above base then base else above

abbrev pub ceiling_of : ℕ → ℕ → ℕ
ceiling_of base len =
    let top = add64 base len in if ltb identity_map_limit top then identity_map_limit else top

unfoldable pub pmm_init : (ℕ → ℕ) → ℕ → ℕ → ℕ → List Region → Pmm
unfolding fill_from
pmm_init memory image_end base len reserved =
    let empty : Pmm = record {
      free_head = λ c. 0;
      next_color = 0;
      stats = zero_stats;
      memory = memory;
    } in
    let low = floor_of image_end base in
    let high = ceiling_of base len in
    let pages = (high - low + page_bytes - 1) / page_bytes in
    let (p, count) = fill_from pages low (take max_reserved reserved) empty 0 in
    if leb high low
    then empty
    else record p { stats = record (p.stats) { total_frames = count; free_calls = 0 } }
