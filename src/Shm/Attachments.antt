-- ===== src/Shm/Attachments.antt =====
-- src/core/shm.c: attaching a segment to an address space and detaching it.
use robu_microkernel.Base.{
  ℕ, zero, suc, ◌+◌, ◌*◌, Bool, true, false, ◌&&◌, List, [], ◌∷◌, Option, none, some, ◌==◌,
  if◌then◌else◌,
}
use robu_microkernel.Base.Words.{add32, add64, sub32}
use robu_microkernel.Status.{Status}
use robu_microkernel.Vm.{page_bytes}
use robu_microkernel.Shm.{
  Attach, Shm, ShmMemory, find_segment, flag_rdonly, free_attach_from, has_shmflg, max_attaches,
  next_va_from, put_attach, put_segment, shm_user_va_base,
}
use robu_microkernel.Shm.Segments.{free_segment_frames}

module _ {A : Type 0} (mem : ShmMemory A) where
  unfoldable pub detach_pages : ℕ → ℕ → A → ℕ → ℕ → A
  detach_pages zero j a space va = a
  detach_pages (suc n) j a space va =
      detach_pages n (j + 1) (mem.unmap_page a space (add64 va (j * page_bytes))) space va

  -- The loop that maps the pages, from page `i` on. `false` after one could not be mapped and the others are
  -- unmapped again.
  unfoldable pub attach_pages : ℕ → List ℕ → A → ℕ → ℕ → ℕ → Bool × A
  unfolding detach_pages
  attach_pages i [] a space va prot = (true, a)
  attach_pages i (f ∷ fs) a space va prot =
      let (done, a1) = mem.map_page a space (add64 va (i * page_bytes)) f prot in
      let rest = attach_pages (i + 1) fs a1 space va prot in
      if done then rest else (false, detach_pages i 0 a1 space va)

  -- VM_PROT_READ is 1, VM_PROT_WRITE 2 and VM_PROT_USER 8.
  abbrev pub prot_of : ℕ → ℕ
  prot_of shmflg = if has_shmflg shmflg flag_rdonly then 9 else 11

  -- The status, `*out_va` and the state.
  unfoldable pub shm_at : Shm A → ℕ → ℕ → ℕ → ℕ → ℕ → Status × ℕ × Shm A
  unfolding find_segment next_va_from free_attach_from attach_pages
  shm_at m now caller space shmid shmflg = elim (find_segment m.segments shmid) [
    | none ↦ (Status.not_found, 0, m)
    | some i ↦
        let s = m.segments i in
        let va = next_va_from max_attaches 0 m space shm_user_va_base in
        let (mapped, a) = attach_pages 0 s.frames m.outside space va (prot_of shmflg) in
        let attached = record s { nattch = add32 s.nattch 1; lpid = caller; atime = now } in
        elim (free_attach_from max_attaches 0 m) [
          | none ↦ (Status.no_space, 0, m)
          | some j ↦
              let new : Attach = record {
                in_use = true;
                shmid = shmid;
                address_space = space;
                va = va;
                npages = s.npages;
              } in
              if mapped
              then (
                Status.ok,
                va,
                put_segment (put_attach (record m { outside = a }) j new) i attached,
              )
              else (Status.no_mem, 0, record m { outside = a })
        ]
  ]

  -- The segment of an attachment that is gone has one attachment less, and is freed if it was the last
  -- one of a segment that is to be removed. `dtime` is the new time of detachment.
  unfoldable pub drop_attachment : Shm A → Option ℕ → (ℕ → ℕ) → Shm A
  unfolding free_segment_frames
  drop_attachment m none dtime = m
  drop_attachment m (some i) dtime =
      let s = m.segments i in
      let less = record s { nattch = sub32 s.nattch 1; dtime = dtime s.dtime } in
      let m1 = put_segment m i less in
      if less.nattch == 0 && s.marked_rmid then free_segment_frames mem m1 i else m1

  unfoldable pub shoot_down_from : ℕ → ℕ → A → ℕ → ℕ → A
  shoot_down_from zero j a space va = a
  shoot_down_from (suc n) j a space va =
      let page = add64 va (j * page_bytes) in
      shoot_down_from n (j + 1) (mem.tlb_shootdown (mem.unmap_page a space page) space page) space
        va

  -- The loop of `shm_dt` from entry `i` on with `n` entries left.
  unfoldable pub detach_from : ℕ → ℕ → Shm A → ℕ → ℕ → ℕ → Status × Shm A
  unfolding find_segment shoot_down_from drop_attachment
  detach_from zero i m now space addr = (Status.not_found, m)
  detach_from (suc n) i m now space addr =
      let a = m.attaches i in
      let rest = detach_from n (i + 1) m now space addr in
      let m1 =
        put_attach (record m { outside = shoot_down_from a.npages 0 m.outside space addr }) i
          (record a { in_use = false }) in
      if a.in_use && a.address_space == space && a.va == addr
      then (Status.ok, drop_attachment m1 (find_segment m.segments a.shmid) (λ t. now))
      else rest

  unfoldable pub shm_dt : Shm A → ℕ → ℕ → ℕ → Status × Shm A
  unfolding detach_from
  shm_dt m now space addr = detach_from max_attaches 0 m now space addr

  -- The loop of `shm_detach_all_for_process` from entry `i` on with `n` entries left.
  unfoldable pub detach_all_from : ℕ → ℕ → Shm A → ℕ → Shm A
  unfolding find_segment detach_pages drop_attachment
  detach_all_from zero i m space = m
  detach_all_from (suc n) i m space =
      let a = m.attaches i in
      let m1 =
        put_attach (record m { outside = detach_pages a.npages 0 m.outside space a.va }) i
          (record a { in_use = false }) in
      let m2 = drop_attachment m1 (find_segment m.segments a.shmid) (λ t. t) in
      detach_all_from n (i + 1) (if a.in_use && a.address_space == space then m2 else m) space

  unfoldable pub shm_detach_all_for_process : Shm A → ℕ → Shm A
  unfolding detach_all_from
  shm_detach_all_for_process m space = detach_all_from max_attaches 0 m space
