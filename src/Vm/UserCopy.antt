-- ===== src/Vm/UserCopy.antt =====
-- src/core/vm.c: the copies between the kernel and a user's memory, page by page.
use robu_microkernel.Base.{
  ℕ, zero, suc, ◌+◌, ◌-◌, ◌*◌, ◌/◌, ◌%◌, Bool, true, false, ◌&&◌, List, [], ◌∷◌, ◌++◌, Option, none,
  some, ltb, ◌==◌, ◌!=◌, if◌then◌else◌, take, drop, length,
}
use robu_microkernel.Base.Words.{add64}
use robu_microkernel.Vm.{page_bytes}

-- The bytes of the memory, from an address on.
unfoldable pub memory_read : (ℕ → ℕ) → ℕ → ℕ → List ℕ
memory_read mem addr zero = []
memory_read mem addr (suc n) = mem addr ∷ memory_read mem (addr + 1) n

unfoldable pub memory_write : (ℕ → ℕ) → ℕ → List ℕ → ℕ → ℕ
memory_write mem addr [] = mem
memory_write mem addr (b ∷ bs) = memory_write (λ a. if a == addr then b else mem a) (addr + 1) bs

-- `va & ~(PAGE_SIZE_4K - 1)`
abbrev pub page_of : ℕ → ℕ
page_of va = va / page_bytes * page_bytes

-- How much of a page is left at an address, or of the copy.
abbrev pub chunk_at : ℕ → ℕ → ℕ
chunk_at va left = let room = page_bytes - va % page_bytes in if ltb left room then left else room

-- `len != 0 && base + len < base`
abbrev pub wraps : ℕ → ℕ → Bool
wraps base len = len != 0 && ltb (add64 base len) base

-- The loop with `len - copied` bytes left at the user's address `va`, on fuel: a round for each byte
-- is enough. `translate` is the translation of the address space; a frame 0 stands for none.
unfoldable pub from_user_loop : ℕ → (ℕ → ℕ) → (ℕ → ℕ) → ℕ → ℕ → Option (List ℕ)
unfolding memory_read
from_user_loop fuel mem translate va zero = some []
from_user_loop zero mem translate va (suc left) = none
from_user_loop (suc fuel) mem translate va (suc left) =
    let frame = translate (page_of va) in
    let chunk = chunk_at va (suc left) in
    let rest = from_user_loop fuel mem translate (va + chunk) (suc left - chunk) in
    if frame == 0 then none else elim rest [
      | none ↦ none
      | some bytes ↦ some (memory_read mem (frame + va % page_bytes) chunk ++ bytes)
    ]

-- The bytes, or `none` for -1.
unfoldable pub vm_copy_from_user : (ℕ → ℕ) → (ℕ → ℕ) → ℕ → ℕ → Option (List ℕ)
unfolding from_user_loop
vm_copy_from_user mem translate src len =
    if wraps src len then none else from_user_loop len mem translate src len

-- The loop with the bytes that are left, on fuel. What was written before a failure stays written.
unfoldable pub to_user_loop : ℕ → (ℕ → ℕ) → (ℕ → ℕ) → ℕ → List ℕ → Bool × (ℕ → ℕ)
unfolding memory_write
to_user_loop fuel mem translate va [] = (true, mem)
to_user_loop zero mem translate va (b ∷ bs) = (false, mem)
to_user_loop (suc fuel) mem translate va (b ∷ bs) =
    let frame = translate (page_of va) in
    let chunk = chunk_at va (length (b ∷ bs)) in
    let mem1 = memory_write mem (frame + va % page_bytes) (take chunk (b ∷ bs)) in
    let rest = to_user_loop fuel mem1 translate (va + chunk) (drop chunk (b ∷ bs)) in
    if frame == 0 then (false, mem) else rest

unfoldable pub vm_copy_to_user : (ℕ → ℕ) → (ℕ → ℕ) → ℕ → List ℕ → Bool × (ℕ → ℕ)
unfolding to_user_loop
vm_copy_to_user mem translate dst bytes =
    if wraps dst (length bytes)
    then (false, mem)
    else to_user_loop (length bytes) mem translate dst bytes
