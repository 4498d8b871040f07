-- ===== src/Vm/CopyBytes.antt =====
-- The copy from a user's memory, page by page, is the copy byte by byte.
use robu_microkernel.Base.{
  ℕ, zero, suc, ◌+◌, ◌%◌, List, [], ◌∷◌, ◌++◌, Option, none, some, ◌==◌, if◌then◌else◌,
}
use robu_microkernel.Vm.{page_bytes}
use robu_microkernel.Vm.UserCopy.{page_of}

abbrev pub prepend : List ℕ → Option (List ℕ) → Option (List ℕ)
prepend xs none = none
prepend xs (some ys) = some (xs ++ ys)

-- One byte at a time: each through the translation of its own page, `none` if one has no frame.
unfoldable pub user_bytes : (ℕ → ℕ) → (ℕ → ℕ) → ℕ → ℕ → Option (List ℕ)
user_bytes mem translate va zero = some []
user_bytes mem translate va (suc n) =
    let frame = translate (page_of va) in
    let rest = user_bytes mem translate (va + 1) n in
    if frame == 0 then none else prepend (mem (frame + va % page_bytes) ∷ []) rest
