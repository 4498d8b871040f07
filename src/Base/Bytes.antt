-- ===== src/Base/Bytes.antt =====
-- Bytes in words, the least significant first.
use Prim.Native.Nat.{ℕ, zero, suc, ◌+◌, ◌*◌, ◌/◌, ◌%◌}
use mathlib.Core.List.{List, [], ◌∷◌}
use robu_microkernel.Base.Lists.{take, drop}

abbrev pub pack : List ℕ → ℕ
pack [] = 0
pack (b ∷ bs) = b + 256 * pack bs

-- The bytes of a word, `n` of them.
abbrev pub unpack : ℕ → ℕ → List ℕ
unpack zero w = []
unpack (suc n) w = w % 256 ∷ unpack n (w / 256)

-- Word `i` of an array of bytes that is read as words of 8 bytes; what lies past the bytes is 0.
abbrev pub word_of : ℕ → List ℕ → ℕ
word_of i bs = pack (take 8 (drop (8 * i) bs))
