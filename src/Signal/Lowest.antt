-- ===== src/Signal/Lowest.antt =====
-- The signal that is delivered is the lowest that is pending and not masked.
use native.Mathlib.Decide.{ℕ_discrete}
use robu_microkernel.Base.{
  ℕ, zero, suc, ◌+◌, ◌-◌, ◌^◌, ◌≡◌, ◌≢◌, ◌≤◌, ◌<◌, ap, ◌∙◌, ◌==◌, arith, inl, inr, Bool-cases,
}
use robu_microkernel.Base.Bits.{bit, bit-le-one, eq-zero_of_bits}
use robu_microkernel.Signal.{lowest_from}

lowest_from_lem :
    (n signum d : ℕ)
    → 1 ≤ signum
    → ((i : ℕ) → i < signum - 1 → bit i d ≡ 0)
    → ((i : ℕ) → signum - 1 + n < i → i < 64 → bit i d ≡ 0)
    → signum - 1 + n ≡ 63
    → d < 2 ^ 64
    → d ≢ 0
    → let l = lowest_from n signum d in
      (1 ≤ l) × (l ≤ 64) × (bit (l - 1) d ≡ 1) × ((i : ℕ) → i < l - 1 → bit i d ≡ 0)
unfolding lowest_from
lowest_from_lem zero signum d one low high top fits nz = (
  one,
  omega arith,
  elim (Bool-cases (bit (signum - 1) d == 1)) [
    | inl e ↦ ground arith
    | inr e ↦
        let z : bit (signum - 1) d ≡ 0 = ground (arith, bit-le-one (signum - 1) d) in
        absurd (
          nz (
            eq-zero_of_bits 64 d fits (λ i h. elim (ℕ_discrete i (signum - 1)) [
              | yes q ↦ ap (λ j. bit j d) q ∙ z
              | no q ↦ low i (omega arith)
            ])))
  ],
  low,
)
lowest_from_lem (suc n) signum d one low high top fits nz =
    elim (Bool-cases (bit (signum - 1) d == 1)) [
      | inl e ↦ rw e (one, omega arith, ground arith, low)
      | inr e ↦
          let z : bit (signum - 1) d ≡ 0 = ground (arith, bit-le-one (signum - 1) d) in
          rw e (
            lowest_from_lem n (signum + 1) d (omega arith)
              (λ i h. elim (ℕ_discrete i (signum - 1)) [
                | yes q ↦ ap (λ j. bit j d) q ∙ z
                | no q ↦ low i (omega arith)
              ])
              (λ i h k. high i (omega arith) k) (omega arith) fits nz)
    ]

-- In a word that is not 0 the loop finds the lowest bit that is set, after at most 63 rounds.
pub lowest_lem :
    (d : ℕ)
    → d < 2 ^ 64
    → d ≢ 0
    → let l = lowest_from 63 1 d in
      (1 ≤ l) × (l ≤ 64) × (bit (l - 1) d ≡ 1) × ((i : ℕ) → i < l - 1 → bit i d ≡ 0)
lowest_lem d h n =
    lowest_from_lem 63 1 d (omega arith) (λ i k. absurd (omega arith))
      (λ i k j. absurd (omega arith)) (omega arith) h n
