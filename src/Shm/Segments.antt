-- ===== src/Shm/Segments.antt =====
-- src/core/shm.c: making, naming and removing segments, and the copy of one to the kernel.
use Prim.Native.Nat.{bit_and, bit_or}
use robu_microkernel.Base.{
  ℕ, zero, suc, ◌-◌, ◌*◌, ◌/◌, true, false, not, ◌&&◌, ◌||◌, List, [], ◌∷◌, ◌++◌, Option, none,
  some, ltb, ◌==◌, ◌!=◌, if◌then◌else◌,
}
use robu_microkernel.Base.Words.{u32, add16, add64}
use robu_microkernel.Status.{Status}
use robu_microkernel.Vm.{page_bytes}
use robu_microkernel.Shm.{
  Segment, Shm, ShmMemory, find_key_from, find_segment, free_segment_from, has_shmflg, ipc_creat,
  ipc_excl, ipc_rmid, ipc_stat, make_shmid, max_segment_pages, max_segments, put_segment,
}

module _ {A : Type 0} (mem : ShmMemory A) where
  unfoldable pub free_pages : List ℕ → A → A
  free_pages [] a = a
  free_pages (f ∷ fs) a = free_pages fs (mem.page_free a f)

  -- The loop of `free_segment_frames`, which skips pages that are not there.
  unfoldable pub free_some_pages : List ℕ → A → A
  free_some_pages [] a = a
  free_some_pages (f ∷ fs) a = free_some_pages fs (if f == 0 then a else mem.page_free a f)

  unfoldable pub free_segment_frames : Shm A → ℕ → Shm A
  unfolding free_some_pages
  free_segment_frames m i =
      let s = m.segments i in
      let freed = record s {
        frames = [];
        frames_at = 0;
        in_use = false;
        generation = add16 s.generation 1;
      } in
      let a = mem.kfree (free_some_pages s.frames m.outside) s.frames_at in
      put_segment (record m { outside = a }) i freed

  -- The loop that allocates the pages with `n` pages left; `taken` are those before. `none` after a page could
  -- not be had, and the others went back.
  unfoldable pub alloc_pages : ℕ → List ℕ → A → Option (List ℕ) × A
  unfolding free_pages
  alloc_pages zero taken a = (some taken, a)
  alloc_pages (suc n) taken a =
      let (f, a1) = mem.page_alloc a in
      let rest = alloc_pages n (taken ++ f ∷ []) (mem.clear_page a1 f) in
      if f == 0 then (none, free_pages taken a1) else rest

  -- The part of `shm_get` that makes a segment in the slot.
  unfoldable pub create_segment : Shm A → ℕ → ℕ → ℕ → ℕ → ℕ → ℕ → ℕ → Status × ℕ × Shm A
  unfolding alloc_pages
  create_segment m slot now caller key size npages shmflg =
      let s = m.segments slot in
      let (at, a1) = mem.kmalloc m.outside (npages * 8) in
      let (frames, a2) = alloc_pages npages [] a1 in
      let made : List ℕ → Segment = λ fs. record s {
        in_use = true;
        key = key;
        size = size;
        npages = npages;
        frames = fs;
        frames_at = at;
        nattch = 0;
        marked_rmid = false;
        cpid = caller;
        lpid = caller;
        atime = 0;
        dtime = 0;
        ctime = now;
        mode_bits = bit_and shmflg 511;
      } in
      if at == 0 then (Status.no_mem, 0, record m { outside = a1 }) else elim frames [
        | none ↦ (Status.no_mem, 0, record m { outside = mem.kfree a2 at })
        | some fs ↦ (
          Status.ok,
          make_shmid slot s.generation,
          put_segment (record m { outside = a2 }) slot (made fs),
        )
      ]

  -- Without a segment that the key names.
  unfoldable pub get_new : Shm A → ℕ → ℕ → ℕ → ℕ → ℕ → Status × ℕ × Shm A
  unfolding create_segment free_segment_from
  get_new m now caller key size shmflg =
      let npages = add64 size (page_bytes - 1) / page_bytes in
      if size == 0 || ltb max_segment_pages npages
      then (Status.invalid, 0, m)
      else elim (free_segment_from max_segments 0 m) [
        | none ↦ (Status.no_space, 0, m)
        | some slot ↦ create_segment m slot now caller key size npages shmflg
      ]

  -- The status, `*out_id` and the state.
  unfoldable pub shm_get : Shm A → ℕ → ℕ → ℕ → ℕ → ℕ → Status × ℕ × Shm A
  unfolding get_new find_key_from
  shm_get m now caller key size shmflg =
      let new = get_new m now caller key size shmflg in
      let found = find_key_from max_segments 0 m key in
      if key == 0 then new else elim found [
        | none ↦ if not (has_shmflg shmflg ipc_creat) then (Status.not_found, 0, m) else new
        | some i ↦
            if has_shmflg shmflg ipc_creat && has_shmflg shmflg ipc_excl
            then (Status.exists, 0, m)
            else if size != 0 && ltb (m.segments i).size size
            then (Status.invalid, 0, m)
            else (Status.ok, make_shmid i (m.segments i).generation, m)
      ]

  -- The status, the six words and the state.
  unfoldable pub shm_ctl : Shm A → ℕ → ℕ → Status × List ℕ × Shm A
  unfolding find_segment free_segment_frames
  shm_ctl m shmid cmd = elim (find_segment m.segments shmid) [
    | none ↦ (Status.not_found, [], m)
    | some i ↦
        let s = m.segments i in
        let marked = put_segment m i (record s { marked_rmid = true }) in
        let rmid = if s.marked_rmid then 0x10000 else 0 in
        let words =
          s.size
          ∷ s.nattch
          ∷ bit_or s.cpid (s.lpid * u32)
          ∷ bit_or s.mode_bits rmid
          ∷ s.atime
          ∷ s.dtime
          ∷ [] in
        if cmd == ipc_stat
        then (Status.ok, words, m)
        else if cmd == ipc_rmid
        then if s.nattch == 0
          then (Status.ok, [], free_segment_frames marked i)
          else (Status.ok, [], marked)
        else (Status.invalid, [], m)
  ]

  -- The bytes of the pages, up to `left` bytes.
  unfoldable pub copy_pages : A → List ℕ → ℕ → List ℕ
  copy_pages a [] left = []
  copy_pages a (f ∷ fs) left =
      let chunk = if ltb page_bytes left then page_bytes else left in
      let rest = copy_pages a fs (left - chunk) in
      if left == 0 then [] else mem.page_contents a f chunk ++ rest

  -- The status and the bytes, whose number is `*out_len`.
  unfoldable pub shm_copy_out : Shm A → ℕ → ℕ → Status × List ℕ
  unfolding find_segment copy_pages
  shm_copy_out m shmid max_len = elim (find_segment m.segments shmid) [
    | none ↦ (Status.not_found, [])
    | some i ↦
        let s = m.segments i in
        let total = if ltb s.size max_len then s.size else max_len in
        (Status.ok, copy_pages m.outside s.frames total)
  ]
