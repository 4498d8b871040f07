-- ===== src/Shm/Run.antt =====
-- Whatever calls are made, every segment counts its attachments.
use robu_microkernel.Vm.{page_bytes}
use robu_microkernel.Base.{
  ℕ, zero, suc, ◌+◌, ◌-◌, ◌/◌, ltb, ◌*◌, ◌≡◌, ◌≤◌, ◌<◌, refl, true, false, ◌&&◌, ◌||◌, List, [],
  ◌∷◌, some, ◌==◌, ◌!=◌, if◌then◌else◌, arith, inl, inr, Bool-cases, Option-cases, some-inj,
  ==_refl,
}
use robu_microkernel.Base.Words.{add64, sub32}
use robu_microkernel.Base.Chain.{upd}
use robu_microkernel.Shm.{
  Shm, ShmMemory, find_segment, max_segments, max_attaches, put_attach, free_segment_from,
  free_attach_from, find_key_from, next_va_from, shm_user_va_base, has_shmflg, ipc_creat, ipc_excl,
  ipc_rmid, ipc_stat, max_segment_pages,
}
use robu_microkernel.Shm.Segments.{
  free_segment_frames, create_segment, get_new, alloc_pages, shm_get, shm_ctl,
}
use robu_microkernel.Shm.Attachments.{
  drop_attachment, shm_at, detach_from, shm_dt, detach_all_from, shm_detach_all_for_process,
  attach_pages, prot_of, shoot_down_from, detach_pages,
}
use robu_microkernel.Shm.Count.{find_segment-some}
use robu_microkernel.Shm.Attached.{
  IsCounted, touched-IsCounted, attached-IsCounted, detached-IsCounted, freed-IsCounted,
}
use robu_microkernel.Shm.Created.{created-IsCounted}

abbrev IsCountedIn : {A : Type 0} → Shm A → Type 0
IsCountedIn m = IsCounted m.segments m.attaches

module _ {A : Type 0} (mem : ShmMemory A) where
  free_segment_from_lem :
      (n k : ℕ) (m : Shm A) (i : ℕ)
      → free_segment_from n k m ≡ some i
      → (m.segments i).in_use ≡ false
  unfolding free_segment_from
  free_segment_from_lem zero k m i e = absurd (ground (arith, e))
  free_segment_from_lem (suc n) k m i e = elim (Bool-cases (m.segments k).in_use) [
    | inl u ↦ free_segment_from_lem n (k + 1) m i (rw u at e)
    | inr u ↦ let same : k ≡ i = some-inj (rw u at e) in rw same at u
  ]

  free_attach_from_lem :
      (n k : ℕ) (m : Shm A) (i : ℕ)
      → free_attach_from n k m ≡ some i
      → (i < k + n) × ((m.attaches i).in_use ≡ false)
  unfolding free_attach_from
  free_attach_from_lem zero k m i e = absurd (ground (arith, e))
  free_attach_from_lem (suc n) k m i e = elim (Bool-cases (m.attaches k).in_use) [
    | inl u ↦ let (a, b) = free_attach_from_lem n (k + 1) m i (rw u at e) in (omega arith, b)
    | inr u ↦ let same : k ≡ i = some-inj (rw u at e) in (omega arith, rw same at u)
  ]

  create-IsCounted :
      (m : Shm A) (slot now caller key size npages flg : ℕ)
      → IsCountedIn m
      → (m.segments slot).in_use ≡ false
      → IsCountedIn (create_segment mem m slot now caller key size npages flg).2
  unfolding create_segment
  create-IsCounted m slot now caller key size npages flg c u =
      let a1 = (mem.kmalloc m.outside (npages * 8)) in
      elim (Bool-cases (a1.0 == 0)) [
        | inl z ↦ rw z c
        | inr z ↦ elim (Option-cases (alloc_pages mem npages [] a1.1).0) [
          | inl o ↦ rw (z, o) c
          | inr (fs, o) ↦ rw (z, o) (created-IsCounted m.segments m.attaches slot _ c u refl)
        ]
      ]

  get_new-IsCounted :
      (m : Shm A) (now caller key size flg : ℕ)
      → IsCountedIn m
      → IsCountedIn (get_new mem m now caller key size flg).2
  unfolding get_new
  get_new-IsCounted m now caller key size flg c =
      let npages = add64 size (page_bytes - 1) / page_bytes in
      elim (Bool-cases (size == 0 || ltb max_segment_pages npages)) [
        | inl z ↦ rw z c
        | inr z ↦ elim (Option-cases (free_segment_from max_segments 0 m)) [
          | inl o ↦ rw (z, o) c
          | inr (slot, o) ↦
              rw (z, o)
                (create-IsCounted m slot now caller key size npages flg c
                  (free_segment_from_lem max_segments 0 m slot o))
        ]
      ]

  get-IsCounted :
      (m : Shm A) (now caller key size flg : ℕ)
      → IsCountedIn m
      → IsCountedIn (shm_get mem m now caller key size flg).2
  unfolding shm_get
  get-IsCounted m now caller key size flg c =
      let new = get_new-IsCounted m now caller key size flg c in
      elim (Bool-cases (key == 0)) [
        | inl z ↦ rw z new
        | inr z ↦ elim (Option-cases (find_key_from max_segments 0 m key)) [
          | inl o ↦ elim (Bool-cases (has_shmflg flg ipc_creat)) [
            | inl x ↦ rw (z, o, x) new
            | inr x ↦ rw (z, o, x) c
          ]
          | inr (i, o) ↦ elim (Bool-cases (has_shmflg flg ipc_creat && has_shmflg flg ipc_excl)) [
            | inl x ↦ rw (z, o, x) c
            | inr x ↦ elim (Bool-cases (size != 0 && ltb (m.segments i).size size)) [
              | inl y ↦ rw (z, o, x, y) c
              | inr y ↦ rw (z, o, x, y) c
            ]
          ]
        ]
      ]

  at-IsCounted :
      (m : Shm A) (now caller space shmid flg : ℕ)
      → IsCountedIn m
      → IsCountedIn (shm_at mem m now caller space shmid flg).2
  unfolding shm_at
  at-IsCounted m now caller space shmid flg c =
      elim (Option-cases (find_segment m.segments shmid)) [
        | inl e ↦ rw (e, shm_at) c
        | inr (i, e) ↦
            let va = next_va_from max_attaches 0 m space shm_user_va_base in
            let mapped =
              attach_pages mem 0 (m.segments i).frames m.outside space va (prot_of mem flg) in
            elim (Option-cases (free_attach_from max_attaches 0 m)) [
              | inl o ↦ rw (e, o, shm_at) c
              | inr (j, o) ↦
                  let (low, free) = free_attach_from_lem max_attaches 0 m j o in
                  elim (Bool-cases mapped.0) [
                    | inl d ↦
                        rw (e, o, d, shm_at)
                          (attached-IsCounted m.segments m.attaches c i j _ _ (omega arith) free
                            (refl, refl) refl refl e)
                    | inr d ↦ rw (e, o, d, shm_at) c
                  ]
            ]
      ]

  -- The attachment in entry `j` is gone and its segment drops it.
  dropped-IsCounted :
      (m : Shm A) (a : A) (j : ℕ) (dtime : ℕ → ℕ)
      → IsCountedIn m
      → j < max_attaches
      → (m.attaches j).in_use ≡ true
      → let m1 =
          put_attach (record m { outside = a }) j (record (m.attaches j) { in_use = false }) in
        IsCountedIn (drop_attachment mem m1 (find_segment m.segments (m.attaches j).shmid) dtime)
  unfolding drop_attachment free_segment_frames
  dropped-IsCounted m a j dtime c l u =
      let (i, e) = c.points j l u in
      let (slot, inside, used) = find_segment-some m.segments (m.attaches j).shmid i e in
      let s = m.segments i in
      let less = record s { nattch = sub32 s.nattch 1; dtime = dtime s.dtime } in
      let gone = record (m.attaches j) { in_use = false } in
      let one_less =
        detached-IsCounted m.segments m.attaches c i j less gone l u e (refl, refl) refl refl in
      elim (Bool-cases (sub32 s.nattch 1 == 0 && s.marked_rmid)) [
        | inl z ↦
            let at_i : upd m.segments i less i ≡ less = rw (==_refl i) refl in
            let zero_left : (upd m.segments i less i).nattch ≡ 0 = rw at_i (ground (arith, z)) in
            let still : (upd m.segments i less i).in_use ≡ true = rw at_i used in
            rw (e, z)
              (freed-IsCounted (upd m.segments i less) (upd m.attaches j gone) one_less i _ inside
                still zero_left refl)
        | inr z ↦ rw (e, z) one_less
      ]

  detach_from-IsCounted :
      (n i : ℕ) (m : Shm A) (now space addr : ℕ)
      → i + n ≤ max_attaches
      → IsCountedIn m
      → IsCountedIn (detach_from mem n i m now space addr).1
  unfolding detach_from
  detach_from-IsCounted zero i m now space addr l c = c
  detach_from-IsCounted (suc n) i m now space addr l c =
      let a = m.attaches i in
      elim (Bool-cases (a.in_use && a.address_space == space && a.va == addr)) [
        | inl e ↦ rw e (
            dropped-IsCounted m (shoot_down_from mem a.npages 0 m.outside space addr) i (λ t. now) c
              (omega arith) (ground (arith, e)))
        | inr e ↦ rw e (detach_from-IsCounted n (i + 1) m now space addr (omega arith) c)
      ]

  detach_all_from-IsCounted :
      (n i : ℕ) (m : Shm A) (space : ℕ)
      → i + n ≤ max_attaches
      → IsCountedIn m
      → IsCountedIn (detach_all_from mem n i m space)
  unfolding detach_all_from
  detach_all_from-IsCounted zero i m space l c = c
  detach_all_from-IsCounted (suc n) i m space l c =
      let a = m.attaches i in
      let m1 =
        put_attach (record m { outside = detach_pages mem a.npages 0 m.outside space a.va }) i
          (record a { in_use = false }) in
      let m2 = drop_attachment mem m1 (find_segment m.segments a.shmid) (λ t. t) in
      let c1 : IsCountedIn (if a.in_use && a.address_space == space then m2 else m) =
        elim (Bool-cases (a.in_use && a.address_space == space)) [
          | inl e ↦ rw e (
              dropped-IsCounted m (detach_pages mem a.npages 0 m.outside space a.va) i (λ t. t) c
                (omega arith) (ground (arith, e)))
          | inr e ↦ rw e c
        ] in
      detach_all_from-IsCounted n (i + 1) (if a.in_use && a.address_space == space then m2 else m)
        space (omega arith) c1

  ctl-IsCounted :
      (m : Shm A) (shmid cmd : ℕ) → IsCountedIn m → IsCountedIn (shm_ctl mem m shmid cmd).2
  unfolding shm_ctl free_segment_frames
  ctl-IsCounted m shmid cmd c = elim (Option-cases (find_segment m.segments shmid)) [
    | inl e ↦ rw (e, shm_ctl) c
    | inr (i, e) ↦
        let s = m.segments i in
        let marked = record s { marked_rmid = true } in
        let (slot, inside, used) = find_segment-some m.segments shmid i e in
        let kept = touched-IsCounted m.segments m.attaches c i marked (refl, refl) refl in
        elim (Bool-cases (cmd == ipc_stat)) [
          | inl x ↦ rw (e, x, shm_ctl) c
          | inr x ↦ elim (Bool-cases (cmd == ipc_rmid)) [
            | inr y ↦ rw (e, x, y, shm_ctl) c
            | inl y ↦ elim (Bool-cases (s.nattch == 0)) [
              | inr z ↦ rw (e, x, y, z, shm_ctl) kept
              | inl z ↦
                  let at_i : upd m.segments i marked i ≡ marked = rw (==_refl i) refl in
                  let zero_left : (upd m.segments i marked i).nattch ≡ 0 =
                    rw at_i (ground (arith, z)) in
                  let still : (upd m.segments i marked i).in_use ≡ true = rw at_i used in
                  rw (e, x, y, z, shm_ctl)
                    (freed-IsCounted (upd m.segments i marked) m.attaches kept i _ inside still
                      zero_left refl)
            ]
          ]
        ]
  ]

-- The calls, with their arguments in the order of the functions; `now` comes first.
pub data ShmCall : Type 0 where
  get : ℕ → ℕ → ℕ → ℕ → ℕ → ShmCall
  attach : ℕ → ℕ → ℕ → ℕ → ℕ → ShmCall
  detach : ℕ → ℕ → ℕ → ShmCall
  control : ℕ → ℕ → ShmCall
  detach_all : ℕ → ShmCall

abbrev pub call : {A : Type 0} → ShmMemory A → Shm A → ShmCall → Shm A
call mem m (ShmCall.get now caller key size flg) = (shm_get mem m now caller key size flg).2
call mem m (ShmCall.attach now caller space shmid flg) = (shm_at mem m now caller space shmid flg).2
call mem m (ShmCall.detach now space addr) = (shm_dt mem m now space addr).1
call mem m (ShmCall.control shmid cmd) = (shm_ctl mem m shmid cmd).2
call mem m (ShmCall.detach_all space) = shm_detach_all_for_process mem m space

unfoldable pub run : {A : Type 0} → ShmMemory A → Shm A → List ShmCall → Shm A
run mem m [] = m
run mem m (c ∷ cs) = run mem (call mem m c) cs

call-IsCounted :
    {A : Type 0} (mem : ShmMemory A) (m : Shm A) (x : ShmCall)
    → IsCountedIn m
    → IsCountedIn (call mem m x)
unfolding shm_dt shm_detach_all_for_process
call-IsCounted mem m (ShmCall.get now caller key size flg) c =
    get-IsCounted mem m now caller key size flg c
call-IsCounted mem m (ShmCall.attach now caller space shmid flg) c =
    at-IsCounted mem m now caller space shmid flg c
call-IsCounted mem m (ShmCall.detach now space addr) c =
    detach_from-IsCounted mem max_attaches 0 m now space addr (omega arith) c
call-IsCounted mem m (ShmCall.control shmid cmd) c = ctl-IsCounted mem m shmid cmd c
call-IsCounted mem m (ShmCall.detach_all space) c =
    detach_all_from-IsCounted mem max_attaches 0 m space (omega arith) c

-- From tables in which nothing is in use, after any calls: every attachment points to a segment that is in use
-- with the generation of its id, and every segment's number of attachments is the number of those
-- that point to it.
pub run-IsCounted :
    {A : Type 0} (mem : ShmMemory A) (m : Shm A) (cs : List ShmCall)
    → ((i : ℕ) → (m.segments i).in_use ≡ false)
    → ((j : ℕ) → (m.attaches j).in_use ≡ false)
    → IsCounted (run mem m cs).segments (run mem m cs).attaches
unfolding run
run-IsCounted mem m cs s a = go m cs (record {
  points = λ j k u. absurd (ground (arith, a j, u));
  counts = λ i k u. absurd (ground (arith, s i, u));
})
  where
    go : (m : Shm _) (cs : List ShmCall) → IsCountedIn m → IsCountedIn (run mem m cs)
    go m [] c = c
    go m (x ∷ cs) c = go (call mem m x) cs (call-IsCounted mem m x c)
