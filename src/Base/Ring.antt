-- ===== src/Base/Ring.antt =====
-- Byte rings: an array of `cap` cells whose index goes round. Shared by the pipes and the sockets.
use Prim.Native.Nat.{ℕ, zero, suc, ◌+◌, ◌-◌, ◌%◌, ◌≤◌, ◌<◌}
use mathlib.Core.Path.{◌≡◌, refl, ap, ap₂, sym, ◌∙◌}
use mathlib.Core.Logic.{◌≢◌}
use mathlib.Core.List.{List, [], ◌∷◌, ◌++◌, append-nil, append_assoc}
use native.Mathlib.Nat.{div-add-mod, mod-add-mod, mod-lt, zero-add}
use native.Mathlib.Omega.{arith}
use robu_microkernel.Base.Lists.{length, get_or, set, length-set, get_or-set_self, get_or-set_ne}

-- `for (i = 0; i < n; i++) out[i] = ring[(head + i) % cap]`, from `i` on.
abbrev pub copy_out : ℕ → List ℕ → ℕ → ℕ → ℕ → List ℕ
copy_out cap ring head i zero = []
copy_out cap ring head i (suc n) =
    get_or ring ((head + i) % cap) 0 ∷ copy_out cap ring head (i + 1) n

-- `for (i = 0; i < n; i++) ring[(tail + i) % cap] = in[i]`, from `i` on.
abbrev pub copy_in : ℕ → List ℕ → ℕ → ℕ → List ℕ → List ℕ
copy_in cap ring tail i [] = ring
copy_in cap ring tail i (b ∷ bs) = copy_in cap (set ring ((tail + i) % cap) b) tail (i + 1) bs

module _ (cap : ℕ) where
  pub length-copy_out : (ring : List ℕ) (head i n : ℕ) → length (copy_out cap ring head i n) ≡ n
  length-copy_out ring head i zero = refl
  length-copy_out ring head i (suc n) = ap suc (length-copy_out ring head (i + 1) n)

  pub length-copy_in :
      (ring : List ℕ) (tail i : ℕ) (bs : List ℕ) → length (copy_in cap ring tail i bs) ≡ length ring
  length-copy_in ring tail i [] = refl
  length-copy_in ring tail i (b ∷ bs) =
      length-copy_in (set ring ((tail + i) % cap) b) tail (i + 1) bs ∙ length-set ring _ b

  -- A copy of `a + b` bytes is one of `a` bytes and then one of `b`.
  pub copy_out_split :
      (ring : List ℕ) (head i a b : ℕ)
      → copy_out cap ring head i (a + b)
        ≡ copy_out cap ring head i a ++ copy_out cap ring head (i + a) b
  copy_out_split ring head i zero b =
      let e : zero + b ≡ b = omega arith in let e' : i + 0 ≡ i = omega arith in rw (e, e')
  copy_out_split ring head i (suc a) b =
      let e : suc a + b ≡ suc (a + b) = omega arith in
      rw e (
        ap (◌∷◌ (get_or ring ((head + i) % cap) 0)) (
          copy_out_split ring head (i + 1) a b
          ∙ ap (λ k. copy_out cap ring head (i + 1) a ++ copy_out cap ring head k b) (omega arith)))

  -- Moving the head on by `m` is starting the copy at `m`.
  pub copy_out_shift :
      (ring : List ℕ) (head m i n : ℕ)
      → copy_out cap ring ((head + m) % cap) i n ≡ copy_out cap ring head (m + i) n
  copy_out_shift ring head m i zero = refl
  copy_out_shift ring head m i (suc n) =
      ap₂ ◌∷◌
        (ap (λ k. get_or ring k 0) (mod-add-mod (head + m) cap i ∙ ap (λ k. k % cap) (omega arith)))
        (copy_out_shift ring head m (i + 1) n ∙ ap (λ k. copy_out cap ring head k n) (omega arith))

  -- Two indices less than a round apart are different cells.
  mod_ne : (h x c : ℕ) → x < c → c < x + cap → (h + x) % cap ≢ (h + c) % cap
  mod_ne h x c p q e = grind (arith, div-add-mod (h + x) cap, div-add-mod (h + c) cap)

  copy_out-set :
      (ring : List ℕ) (h c v i n : ℕ)
      → i + n ≤ c
      → c < i + cap
      → copy_out cap (set ring ((h + c) % cap) v) h i n ≡ copy_out cap ring h i n
  copy_out-set ring h c v i zero p q = refl
  copy_out-set ring h c v i (suc n) p q =
      ap₂ ◌∷◌
        (get_or-set_ne ring ((h + c) % cap) ((h + i) % cap) v 0
          (λ e. mod_ne h i c (omega arith) q (sym e)))
        (copy_out-set ring h c v (i + 1) n (omega arith) (omega arith))

  copy_out-set_last :
      (ring : List ℕ) (h c b : ℕ)
      → cap ≤ length ring
      → 0 < cap
      → c < cap
      → copy_out cap (set ring ((h + c) % cap) b) h 0 (c + 1) ≡ copy_out cap ring h 0 c ++ b ∷ []
  copy_out-set_last ring h c b len pos room =
      copy_out_split (set ring ((h + c) % cap) b) h 0 c 1
      ∙ ap₂ ◌++◌ (copy_out-set ring h c b 0 c (omega arith) (omega arith)) (
          ap (λ v. v ∷ [])
            (ap (λ k. get_or (set ring ((h + c) % cap) b) ((h + k) % cap) 0) (zero-add c)
              ∙ get_or-set_self ring ((h + c) % cap) b 0
                  (omega (arith, mod-lt (h + c) {m = cap} pos))))

  -- Writing bytes behind the `c` stored ones appends them, while there is room.
  pub copy_out-copy_in :
      (bs ring : List ℕ) (h c : ℕ)
      → cap ≤ length ring
      → 0 < cap
      → c + length bs ≤ cap
      → copy_out cap (copy_in cap ring h c bs) h 0 (c + length bs) ≡ copy_out cap ring h 0 c ++ bs
  copy_out-copy_in [] ring h c len pos room =
      let e : c + 0 ≡ c = omega arith in rw e (sym (append-nil _))
  copy_out-copy_in (b ∷ bs) ring h c len pos room =
      let e : c + suc (length bs) ≡ c + 1 + length bs = omega arith in
      rw e (
        copy_out-copy_in bs (set ring ((h + c) % cap) b) h (c + 1)
          (rw (length-set ring ((h + c) % cap) b) len) pos (omega arith)
        ∙ ap (λ l. l ++ bs) (copy_out-set_last ring h c b len pos (omega arith))
        ∙ append_assoc (copy_out cap ring h 0 c) (b ∷ []) bs)

  -- Taking `n` bytes from the front leaves the rest, with the head moved on.
  pub copy_out_take :
      (ring : List ℕ) (head count n : ℕ)
      → n ≤ count
      → copy_out cap ring head 0 count
        ≡ copy_out cap ring head 0 n ++ copy_out cap ring ((head + n) % cap) 0 (count - n)
  copy_out_take ring head count n h =
      let e : n + (count - n) ≡ count = omega arith in
      let e' : n + 0 ≡ zero + n = omega arith in
      sym (ap (copy_out cap ring head 0) e)
      ∙ copy_out_split ring head 0 n (count - n)
      ∙ ap (λ l. copy_out cap ring head 0 n ++ l)
          (sym (
            copy_out_shift ring head n 0 (count - n)
            ∙ ap (λ k. copy_out cap ring head k (count - n)) e'))

  copy_in_shift :
      (ring : List ℕ) (head c i : ℕ) (bs : List ℕ)
      → copy_in cap ring ((head + c) % cap) i bs ≡ copy_in cap ring head (c + i) bs
  copy_in_shift ring head c i [] = refl
  copy_in_shift ring head c i (b ∷ bs) =
      let e : ((head + c) % cap + i) % cap ≡ (head + (c + i)) % cap =
        mod-add-mod (head + c) cap i ∙ ap (λ k. k % cap) (omega arith) in
      let e' : c + (i + 1) ≡ c + i + 1 = omega arith in
      rw (e, ← e') (copy_in_shift (set ring ((head + (c + i)) % cap) b) head c (i + 1) bs)

  -- Writing `bs` at the tail appends them to the `c` stored bytes.
  pub copy_out_put :
      (bs ring : List ℕ) (h c : ℕ)
      → cap ≤ length ring
      → 0 < cap
      → c + length bs ≤ cap
      → copy_out cap (copy_in cap ring ((h + c) % cap) 0 bs) h 0 (c + length bs)
        ≡ copy_out cap ring h 0 c ++ bs
  copy_out_put bs ring h c len pos room =
      let e : c + 0 ≡ c = omega arith in
      rw (copy_in_shift ring h c 0 bs, e) (copy_out-copy_in bs ring h c len pos room)
