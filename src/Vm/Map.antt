-- ===== src/Vm/Map.antt =====
-- src/core/vm.c: the calls that map pages for a message. What they ask of the architecture's page tables is
-- an interface; `M` is the state of these tables and of the memory.
use Prim.Native.Nat.{bit_and}
use robu_microkernel.Base.{
  ℕ, zero, suc, ◌+◌, ◌*◌, Bool, true, false, not, ◌||◌, List, [], ◌∷◌, ◌++◌, ltb, ◌==◌, ◌!=◌,
  if◌then◌else◌,
}
use robu_microkernel.Base.Words.{add64}
use robu_microkernel.Vm.{FrameTable, vm_cap_check, page_bytes}

-- The functions of the architecture. A page table call that the code does not ask for its result
-- gives the new state only. A frame 0 stands for none.
pub record ArchVm (M : Type 0) : Type 0 where
  pub map_page : M → ℕ → ℕ → ℕ → ℕ → M
  pub map_large_page : M → ℕ → ℕ → ℕ → ℕ → M
  pub unmap_page : M → ℕ → ℕ → ℕ × M
  pub translate : M → ℕ → ℕ → ℕ
  pub boot_space : ℕ

abbrev pub vm_batch_max : ℕ
vm_batch_max = 32

abbrev pub large_page_bytes : ℕ
large_page_bytes = 0x200000

abbrev pub map_large : ℕ
map_large = 16

abbrev pub cap_perm_map : ℕ
cap_perm_map = 1

-- `vm_map_msg_t`
pub record MapMsg : Type 0 where
  pub vaddr : ℕ
  pub paddr : ℕ
  pub flags : ℕ
  pub count : ℕ

-- `vm_xfer_msg_t`
pub record XferMsg : Type 0 where
  pub src_vaddr : ℕ
  pub dst_vaddr : ℕ
  pub flags : ℕ
  pub count : ℕ

-- `base + i * size`, in 64 bits.
abbrev pub page_at : ℕ → ℕ → ℕ → ℕ
page_at base i size = add64 base (i * size)

-- `req->count == 0 || req->count > VM_BATCH_MAX`
abbrev pub bad_count : ℕ → Bool
bad_count n = n == 0 || ltb vm_batch_max n

module _ {M : Type 0} (arch : ArchVm M) where
  abbrev pub normalize_aspace : ℕ → ℕ
  normalize_aspace aspace = if aspace != 0 then aspace else arch.boot_space

  abbrev pub is_large : ℕ → Bool
  is_large flags = bit_and flags map_large != 0

  -- The loop of `vm_batch_map` from page `i` on with `n` pages left.
  unfoldable pub map_from : ℕ → ℕ → M → ℕ → MapMsg → M
  map_from zero i m aspace req = m
  map_from (suc n) i m aspace req =
      let size = if is_large req.flags then large_page_bytes else page_bytes in
      let va = page_at req.vaddr i size in
      let pa = page_at req.paddr i size in
      let m1 =
        if is_large req.flags
        then arch.map_large_page m aspace va pa req.flags
        else arch.map_page m aspace va pa req.flags in
      map_from n (i + 1) m1 aspace req

  -- `true` is 0, `false` is -1, here and below.
  unfoldable pub vm_batch_map : M → FrameTable → ℕ → ℕ → MapMsg → Bool × M
  unfolding map_from
  vm_batch_map m table aspace requester req =
      if bad_count req.count || not (vm_cap_check table requester req.paddr cap_perm_map)
      then (false, m)
      else (true, map_from req.count 0 m (normalize_aspace aspace) req)

  -- The frames of a list are mapped one after the other, from page `i` on.
  unfoldable pub map_frames : ℕ → List ℕ → M → ℕ → ℕ → ℕ → M
  map_frames i [] m aspace vaddr flags = m
  map_frames i (frame ∷ frames) m aspace vaddr flags =
      map_frames (i + 1) frames (arch.map_page m aspace (page_at vaddr i page_bytes) frame flags)
        aspace vaddr flags

  -- The first loop of `vm_xfer_pages` from page `i` on with `n` pages left; `taken` are the frames of the
  -- pages before. A page that is not mapped ends it, and the frames go back.
  unfoldable pub take_frames : ℕ → ℕ → List ℕ → M → ℕ → XferMsg → Bool × List ℕ × M
  unfolding map_frames
  take_frames zero i taken m src req = (true, taken, m)
  take_frames (suc n) i taken m src req =
      let (frame, m1) = arch.unmap_page m src (page_at req.src_vaddr i page_bytes) in
      let rest = take_frames n (i + 1) (taken ++ frame ∷ []) m1 src req in
      if frame == 0 then (false, [], map_frames 0 taken m1 src req.src_vaddr req.flags) else rest

  unfoldable pub vm_xfer_pages : M → ℕ → ℕ → XferMsg → Bool × M
  unfolding take_frames map_frames
  vm_xfer_pages m src_aspace dst_aspace req =
      let src = normalize_aspace src_aspace in
      let dst = normalize_aspace dst_aspace in
      let (moved, frames, m1) = take_frames req.count 0 [] m src req in
      if bad_count req.count
      then (false, m)
      else if moved
      then (true, map_frames 0 frames m1 dst req.dst_vaddr req.flags)
      else (false, m1)

  -- The loop of `vm_share_pages` from page `i` on with `n` pages left.
  unfoldable pub share_from : ℕ → ℕ → M → ℕ → ℕ → XferMsg → Bool × M
  share_from zero i m src dst req = (true, m)
  share_from (suc n) i m src dst req =
      let frame = arch.translate m src (page_at req.src_vaddr i page_bytes) in
      let m1 = arch.map_page m dst (page_at req.dst_vaddr i page_bytes) frame req.flags in
      let rest = share_from n (i + 1) m1 src dst req in if frame == 0 then (false, m) else rest

  unfoldable pub vm_share_pages : M → ℕ → ℕ → XferMsg → Bool × M
  unfolding share_from
  vm_share_pages m src_aspace dst_aspace req =
      if bad_count req.count
      then (false, m)
      else share_from req.count 0 m (normalize_aspace src_aspace) (normalize_aspace dst_aspace) req
