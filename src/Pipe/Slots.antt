-- ===== src/Pipe/Slots.antt =====
-- `pipe_create` takes the first free slot of the pool.
use Prim.Native.Nat.{bit_or}
use robu_microkernel.Base.{
  ℕ, zero, suc, ◌+◌, ◌*◌, ◌<◌, ◌≡◌, refl, true, false, ◌⊎◌, inl, inr, [], ◌∷◌, none, some, arith,
  Bool-cases, length, get_or, set, All,
}
use robu_microkernel.Base.Words.{u32}
use robu_microkernel.Pipe.{Pipe, Pool, blank, is_free, opened, create_from}

abbrev pub Busy : Pipe → Type 0
Busy p = is_free p ≡ false

-- Slot `j` of the list is free, and the slots before it are not.
pub record FirstFree (ps : Pool) (j : ℕ) : Type 0 where
  pub inside : j < length ps
  pub free : is_free (get_or ps j blank) ≡ true
  pub busy_before : (k : ℕ) → k < j → is_free (get_or ps k blank) ≡ false

abbrev pub Created : ℕ → ℕ → Pool → Type 0
Created i tid ps =
    (All Busy ps × (create_from i tid ps ≡ none))
    ⊎ ((j : ℕ) × FirstFree ps j
        × (create_from i tid ps
            ≡ some (
              bit_or ((get_or ps j blank).generation * u32) (i + j),
              set ps j (opened tid (get_or ps j blank)),
            )))

busy_before-cons :
    (p : Pipe) (ps : Pool) (j : ℕ)
    → is_free p ≡ false
    → ((k : ℕ) → k < j → is_free (get_or ps k blank) ≡ false)
    → (k : ℕ) → k < suc j
    → is_free (get_or (p ∷ ps) k blank) ≡ false
busy_before-cons p ps j b h zero q = b
busy_before-cons p ps j b h (suc k) q = h k (omega arith)

pub create_from-Created : (i tid : ℕ) (ps : Pool) → Created i tid ps
unfolding create_from
create_from-Created i tid [] = inl (tt, refl)
create_from-Created i tid (p ∷ ps) = elim (Bool-cases (is_free p)) [
  | inl e ↦
      let z : i + 0 ≡ i = omega arith in
      inr (
        0,
        record { inside = omega arith; free = e; busy_before = λ k q. absurd (omega arith) },
        rw (e, create_from, z),
      )
  | inr e ↦ elim (create_from-Created (i + 1) tid ps) [
    | inl (b, n) ↦ inl ((e, b), rw (e, n, create_from))
    | inr (j, f, n) ↦
        let z : i + suc j ≡ i + 1 + j = omega arith in
        inr (
          suc j,
          record {
            inside = omega (arith, f.inside);
            free = f.free;
            busy_before = busy_before-cons p ps j e f.busy_before;
          },
          rw (e, n, z, create_from),
        )
  ]
]
