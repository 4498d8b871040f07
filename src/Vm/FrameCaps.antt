-- ===== src/Vm/FrameCaps.antt =====
-- The capabilities for frames: what is checked was granted.
use robu_microkernel.Base.{
  ℕ, zero, suc, ◌+◌, ◌≤◌, ◌<◌, ◌≡◌, refl, true, arith, Bool-cases, inl, inr,
}
use native.Mathlib.Decide.{ℕ_discrete}
use robu_microkernel.Vm.{FrameTable, covers, check_from, vm_cap_check}

-- Some capability from entry `i` to the entry before `i + n` covers the use.
abbrev CoveredFrom : ℕ → ℕ → FrameTable → ℕ → ℕ → ℕ → Type 0
CoveredFrom n i t owner paddr perms =
    (j : ℕ) × (i ≤ j) × (j < i + n) × (covers (t.cap_table j) owner paddr perms ≡ true)

check_from_sound :
    (n i : ℕ) (t : FrameTable) (owner paddr perms : ℕ)
    → check_from n i t owner paddr perms ≡ true
    → CoveredFrom n i t owner paddr perms
unfolding check_from
check_from_sound zero i t owner paddr perms e = absurd (ground arith)
check_from_sound (suc n) i t owner paddr perms e =
    elim (Bool-cases (covers (t.cap_table i) owner paddr perms)) [
      | inl c ↦ (i, omega arith, omega arith, c)
      | inr c ↦
          let (j, lo, hi, d) = check_from_sound n (i + 1) t owner paddr perms (rw c at e) in
          (j, omega arith, omega arith, d)
    ]

check_from_complete :
    (n i : ℕ) (t : FrameTable) (owner paddr perms j : ℕ)
    → i ≤ j
    → j < i + n
    → covers (t.cap_table j) owner paddr perms ≡ true
    → check_from n i t owner paddr perms ≡ true
unfolding check_from
check_from_complete zero i t owner paddr perms j lo hi c = absurd (omega arith)
check_from_complete (suc n) i t owner paddr perms j lo hi c = elim (ℕ_discrete i j) [
  | yes e ↦ rw (e, c) refl
  | no ne ↦
      let rest =
        check_from_complete n (i + 1) t owner paddr perms j (omega arith) (omega arith) c in
      elim (Bool-cases (covers (t.cap_table i) owner paddr perms)) [
        | inl d ↦ rw d refl
        | inr d ↦ rw d rest
      ]
]

-- A use of an address passes the check exactly when one of the capabilities that were granted is the
-- thread's, has all the permissions asked for, and covers the address.
pub vm_cap_check_lem :
    (t : FrameTable) (owner paddr perms : ℕ)
    → (vm_cap_check t owner paddr perms ≡ true
        → (j : ℕ) × (j < t.cap_count) × (covers (t.cap_table j) owner paddr perms ≡ true))
      × ((j : ℕ)
          → j < t.cap_count
          → covers (t.cap_table j) owner paddr perms ≡ true
          → vm_cap_check t owner paddr perms ≡ true)
unfolding vm_cap_check
vm_cap_check_lem t owner paddr perms = (
  λ e.
      let (j, lo, hi, c) = check_from_sound t.cap_count 0 t owner paddr perms e in
      (j, omega arith, c),
  λ j h c. check_from_complete t.cap_count 0 t owner paddr perms j (omega arith) (omega arith) c,
)
