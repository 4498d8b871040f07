-- ===== src/Shm.antt =====
-- src/core/shm.c: shared memory segments and their attachments.
-- The allocators of pages and of kernel memory and the page tables are an interface; `A` is their state.
-- Numbers of type int are taken as words of 32 bits.
pub mod Segments
pub mod Attachments
pub mod Ids
pub mod Count
pub mod Attached
pub mod Created
pub mod Run
mod Tests
use Prim.Native.Nat.{bit_and, bit_or}
use robu_microkernel.Base.{
  ℕ, zero, suc, ◌+◌, ◌-◌, ◌*◌, ◌/◌, ◌%◌, Bool, true, false, not, ◌&&◌, ◌||◌, List, [], ◌∷◌, ◌++◌,
  Option, none, some, ltb, leb, ◌==◌, ◌!=◌, if◌then◌else◌,
}
use robu_microkernel.Base.Words.{u32, add16, add32, add64, sub32}
use robu_microkernel.Base.Chain.{upd}
use robu_microkernel.Status.{Status}
use robu_microkernel.Vm.{page_bytes}

-- What the file calls: kernel memory and pages, of which 0 is none, the clearing of a page, and the page
-- tables; `false` is a failure.
pub record ShmMemory (A : Type 0) : Type 0 where
  pub kmalloc : A → ℕ → ℕ × A
  pub kfree : A → ℕ → A
  pub page_alloc : A → ℕ × A
  pub page_free : A → ℕ → A
  pub clear_page : A → ℕ → A
  pub map_page : A → ℕ → ℕ → ℕ → ℕ → Bool × A
  pub unmap_page : A → ℕ → ℕ → A
  pub tlb_shootdown : A → ℕ → ℕ → A
  pub page_contents : A → ℕ → ℕ → List ℕ

abbrev pub max_segments : ℕ
max_segments = 32

abbrev pub max_attaches : ℕ
max_attaches = 64

abbrev pub max_segment_pages : ℕ
max_segment_pages = 4096

abbrev pub ipc_creat : ℕ
ipc_creat = 512

abbrev pub ipc_excl : ℕ
ipc_excl = 1024

abbrev pub ipc_rmid : ℕ
ipc_rmid = 0

abbrev pub ipc_stat : ℕ
ipc_stat = 2

abbrev pub flag_rdonly : ℕ
flag_rdonly = 4096

abbrev pub shm_user_va_base : ℕ
shm_user_va_base = 0x140000000

-- `shm_segment_t`; `frames_at` is the memory of the array `frames`.
pub record Segment : Type 0 where
  pub in_use : Bool
  pub key : ℕ
  pub generation : ℕ
  pub size : ℕ
  pub npages : ℕ
  pub frames : List ℕ
  pub frames_at : ℕ
  pub nattch : ℕ
  pub marked_rmid : Bool
  pub cpid : ℕ
  pub lpid : ℕ
  pub atime : ℕ
  pub dtime : ℕ
  pub ctime : ℕ
  pub mode_bits : ℕ

-- `shm_attach_t`
pub record Attach : Type 0 where
  pub in_use : Bool
  pub shmid : ℕ
  pub address_space : ℕ
  pub va : ℕ
  pub npages : ℕ

-- `segments` and `attaches`, with the state of what is called.
pub record Shm (A : Type 0) : Type 0 where
  pub segments : ℕ → Segment
  pub attaches : ℕ → Attach
  pub outside : A

abbrev pub make_shmid : ℕ → ℕ → ℕ
make_shmid slot generation = bit_or slot (generation * 256)

abbrev pub shmid_slot : ℕ → ℕ
shmid_slot shmid = shmid % 256

abbrev pub shmid_gen : ℕ → ℕ
shmid_gen shmid = shmid / 256 % 65536

unfoldable pub find_segment : (ℕ → Segment) → ℕ → Option ℕ
find_segment segments shmid =
    let slot = shmid_slot shmid in
    if leb max_segments slot
    then none
    else if not (segments slot).in_use || (segments slot).generation != shmid_gen shmid
    then none
    else some slot

abbrev pub put_segment : {A : Type 0} → Shm A → ℕ → Segment → Shm A
put_segment m i s = record m { segments = upd m.segments i s }

abbrev pub put_attach : {A : Type 0} → Shm A → ℕ → Attach → Shm A
put_attach m i a = record m { attaches = upd m.attaches i a }

-- The loops over the tables, from entry `i` on with `n` entries left.
unfoldable pub free_segment_from : {A : Type 0} → ℕ → ℕ → Shm A → Option ℕ
free_segment_from zero i m = none
free_segment_from (suc n) i m =
    let rest = free_segment_from n (i + 1) m in if not (m.segments i).in_use then some i else rest

unfoldable pub find_key_from : {A : Type 0} → ℕ → ℕ → Shm A → ℕ → Option ℕ
find_key_from zero i m key = none
find_key_from (suc n) i m key =
    let s = m.segments i in
    let rest = find_key_from n (i + 1) m key in
    if s.in_use && not s.marked_rmid && s.key == key then some i else rest

unfoldable pub free_attach_from : {A : Type 0} → ℕ → ℕ → Shm A → Option ℕ
free_attach_from zero i m = none
free_attach_from (suc n) i m =
    let rest = free_attach_from n (i + 1) m in if not (m.attaches i).in_use then some i else rest

-- The first address behind the attachments of an address space.
unfoldable pub next_va_from : {A : Type 0} → ℕ → ℕ → Shm A → ℕ → ℕ → ℕ
next_va_from zero i m space va = va
next_va_from (suc n) i m space va =
    let a = m.attaches i in
    let end = add64 a.va (a.npages * page_bytes) in
    let va' = if (a.in_use && a.address_space == space) && ltb va end then end else va in
    next_va_from n (i + 1) m space va'

-- `(shmflg & flag) != 0`
abbrev pub has_shmflg : ℕ → ℕ → Bool
has_shmflg shmflg flag = bit_and shmflg flag != 0
