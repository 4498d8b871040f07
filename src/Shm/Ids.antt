-- ===== src/Shm/Ids.antt =====
-- The ids of segments: an id names a segment as long as it is in use, and no later one in the same slot.
use native.Mathlib.Decide.{ℕ_discrete}
use robu_microkernel.Base.{
  ℕ, ◌+◌, ◌-◌, ◌*◌, ◌/◌, ◌≡◌, ◌≢◌, ◌<◌, refl, ◌∙◌, true, false, not, ◌&&◌, ◌||◌, List, [], ◌∷◌,
  none, some, ◌==◌, ◌!=◌, leb, ltb, if◌then◌else◌, arith, inl, inr, Bool-cases, Option-cases,
  ==_refl, ne→==,
}
use robu_microkernel.Base.Words.{add16, add64}
use robu_microkernel.Vm.{page_bytes}
use robu_microkernel.Base.Bits.{bit_or_fields_low}
use robu_microkernel.Shm.{
  Segment, Shm, ShmMemory, find_key_from, find_segment, free_segment_from, has_shmflg, ipc_creat,
  ipc_excl, make_shmid, max_segment_pages, max_segments, put_segment, shmid_gen, shmid_slot,
}
use robu_microkernel.Shm.Segments.{
  alloc_pages, create_segment, free_segment_frames, get_new, shm_get,
}

make_shmid_sum :
    (slot generation : ℕ) → slot < 256 → make_shmid slot generation ≡ generation * 256 + slot
make_shmid_sum slot generation h = bit_or_fields_low 8 generation slot h

-- The id of a segment finds it exactly if it is in use and its generation is that of the id.
pub find_segment-make_shmid :
    (segments : ℕ → Segment) (slot generation : ℕ)
    → slot < max_segments
    → generation < 65536
    → find_segment segments (make_shmid slot generation) ≡ (
        if not (segments slot).in_use || (segments slot).generation != generation
        then none
        else some slot)
unfolding find_segment
find_segment-make_shmid segments slot generation h g =
    let sum = make_shmid_sum slot generation (omega arith) in
    let low : shmid_slot (make_shmid slot generation) ≡ slot = omega (arith, sum) in
    let high : shmid_gen (make_shmid slot generation) ≡ generation = omega (arith, sum) in
    let inside : leb max_segments slot ≡ false = ground arith in rw (low, high, inside) refl

find_segment-stale :
    (segments : ℕ → Segment) (slot generation : ℕ)
    → slot < max_segments
    → generation < 65536
    → (segments slot).generation ≢ generation
    → find_segment segments (make_shmid slot generation) ≡ none
find_segment-stale segments slot generation h g n =
    find_segment-make_shmid segments slot generation h g
    ∙ (let other : ((segments slot).generation != generation) ≡ true = ground arith in
        rw other
          (elim (Bool-cases (segments slot).in_use) [ inl u ↦ rw u refl | inr u ↦ rw u refl ]))

abbrev SameGenerations : {A : Type 0} → Shm A → Shm A → Type 0
SameGenerations m m' = (j : ℕ) → (m'.segments j).generation ≡ (m.segments j).generation

-- The arguments of one call of `shm_get`.
pub record GetCall : Type 0 where
  pub now : ℕ
  pub caller : ℕ
  pub key : ℕ
  pub size : ℕ
  pub shmflg : ℕ

module _ {A : Type 0} (mem : ShmMemory A) where
  unfoldable pub get_all : Shm A → List GetCall → Shm A
  get_all m [] = m
  get_all m (c ∷ cs) = get_all (shm_get mem m c.now c.caller c.key c.size c.shmflg).2 cs

  put-SameGenerations :
      (m : Shm A) (i : ℕ) (s : Segment)
      → s.generation ≡ (m.segments i).generation
      → SameGenerations m (put_segment m i s)
  put-SameGenerations m i s e j = elim (ℕ_discrete j i) [
    | yes q ↦ rw (q, ==_refl i) e
    | no q ↦ rw (ne→== j i q) refl
  ]

  create-SameGenerations :
      (m : Shm A) (slot now caller key size npages shmflg : ℕ)
      → SameGenerations m (create_segment mem m slot now caller key size npages shmflg).2
  unfolding create_segment
  create-SameGenerations m slot now caller key size npages shmflg j =
      let (at, a1) = mem.kmalloc m.outside (npages * 8) in
      elim (Bool-cases (at == 0)) [
        | inl z ↦ rw z refl
        | inr z ↦ elim (Option-cases (alloc_pages mem npages [] a1).0) [
          | inl n ↦ rw (z, n) refl
          | inr (fs, n) ↦
              rw (z, n, create_segment)
                (elim (ℕ_discrete j slot) [
                  | yes q ↦ rw (q, ==_refl slot) refl
                  | no q ↦ rw (ne→== j slot q) refl
                ])
        ]
      ]

  new-SameGenerations :
      (m : Shm A) (now caller key size shmflg : ℕ)
      → SameGenerations m (get_new mem m now caller key size shmflg).2
  unfolding get_new
  new-SameGenerations m now caller key size shmflg j =
      let npages = add64 size (page_bytes - 1) / page_bytes in
      elim (Bool-cases (size == 0 || ltb max_segment_pages npages)) [
        | inl z ↦ rw z refl
        | inr z ↦ elim (Option-cases (free_segment_from max_segments 0 m)) [
          | inl n ↦ rw (z, n) refl
          | inr (slot, n) ↦
              rw (z, n) (create-SameGenerations m slot now caller key size npages shmflg j)
        ]
      ]

  get-SameGenerations :
      (m : Shm A) (now caller key size shmflg : ℕ)
      → SameGenerations m (shm_get mem m now caller key size shmflg).2
  unfolding shm_get
  get-SameGenerations m now caller key size shmflg j =
      let new = new-SameGenerations m now caller key size shmflg j in
      elim (Bool-cases (key == 0)) [
        | inl z ↦ rw z new
        | inr z ↦ elim (Option-cases (find_key_from max_segments 0 m key)) [
          | inl n ↦ elim (Bool-cases (not (has_shmflg shmflg ipc_creat))) [
            | inl c ↦ rw (z, n, c) refl
            | inr c ↦ rw (z, n, c) new
          ]
          | inr (i, n) ↦
              elim (Bool-cases (has_shmflg shmflg ipc_creat && has_shmflg shmflg ipc_excl)) [
                | inl c ↦ rw (z, n, c) refl
                | inr c ↦ elim (Bool-cases (size != 0 && ltb (m.segments i).size size)) [
                  | inl d ↦ rw (z, n, c, d) refl
                  | inr d ↦ rw (z, n, c, d) refl
                ]
              ]
        ]
      ]

  get_all-SameGenerations : (cs : List GetCall) (m : Shm A) → SameGenerations m (get_all m cs)
  unfolding get_all
  get_all-SameGenerations [] m j = refl
  get_all-SameGenerations (c ∷ cs) m j =
      get_all-SameGenerations cs (shm_get mem m c.now c.caller c.key c.size c.shmflg).2 j
      ∙ get-SameGenerations m c.now c.caller c.key c.size c.shmflg j

  -- The id of a segment of the table, with a generation of 16 bits, that is freed finds nothing, right after and after any number of calls of `shm_get`
  -- that follow, with any arguments, although they may make other segments in its slot.
  pub free_segment-find_segment :
      (m : Shm A) (slot : ℕ) (cs : List GetCall)
      → slot < max_segments
      → (m.segments slot).generation < 65536
      → find_segment
          (get_all (free_segment_frames mem m slot) cs).segments
          (make_shmid slot (m.segments slot).generation)
        ≡ none
  unfolding free_segment_frames
  free_segment-find_segment m slot cs h g =
      let freed = free_segment_frames mem m slot in
      let generation = (m.segments slot).generation in
      let moved : (freed.segments slot).generation ≡ add16 generation 1 = rw (==_refl slot) refl in
      find_segment-stale (get_all freed cs).segments slot generation h g
        (rw (get_all-SameGenerations cs freed slot, moved) (λ e. omega (arith, e)))
