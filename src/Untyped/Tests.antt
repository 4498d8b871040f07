-- ===== src/Untyped/Tests.antt =====
-- The theorems about src/core/untyped.c at concrete inputs.
use robu_microkernel.Base.{◌≡◌, refl, [], ◌∷◌}
use robu_microkernel.Untyped.{Untyped, untyped_init, untyped_alloc, alloc_all, aligned_size}

abbrev region : Untyped
region = record { region_base = 0x10000; region_size = 0x4000; watermark = 0x1000 }

init_test : untyped_init 0x10000 0x4000 ≡ record region { watermark = 0 }
unfolding untyped_init
init_test = refl

alloc_test : alloc_all region (5000 ∷ 0 ∷ 1 ∷ []) ≡ (0x11000, 0x2000) ∷ (0x13000, 0x1000) ∷ []
unfolding alloc_all untyped_alloc aligned_size
alloc_test = refl
