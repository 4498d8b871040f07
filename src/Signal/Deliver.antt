-- ===== src/Signal/Deliver.antt =====
-- Delivering a signal: which one, what is left pending, and the return from its handler.
use robu_microkernel.Base.{
  ℕ, ◌-◌, ◌^◌, ◌≡◌, ◌≢◌, ◌<◌, refl, ap, ◌∙◌, false, ◌==◌, arith, inl, inr, Bool-cases, ne→==, min,
}
use robu_microkernel.Base.Bits.{
  bit, bit-le-one, bit_not, bit-bit_and, bit-bit_not, bit_and-lt, bit-cleared, bit-cleared_self,
}
use robu_microkernel.Sched.Types.{Tcb}
use robu_microkernel.Signal.{
  sig_dfl, sig_ign, deliverable, take_signal, sig_try_deliver, lowest_from, sig_default_terminates,
  enter_handler,
}
use robu_microkernel.Signal.Lowest.{lowest_lem}

-- The signal that the delivery takes.
abbrev pub chosen : Tcb → ℕ
chosen r = lowest_from 63 1 (deliverable r)

bit-deliverable :
    (r : Tcb) (i : ℕ)
    → i < 64
    → r.sig_mask < 2 ^ 64
    → bit i (deliverable r) ≡ min (bit i r.sig_pending) (1 - bit i r.sig_mask)
bit-deliverable r i h m =
    bit-bit_and i r.sig_pending (bit_not 64 r.sig_mask)
    ∙ ap (λ x. min (bit i r.sig_pending) x) (bit-bit_not i 64 r.sig_mask h m)

pending-deliver :
    (r : Tcb)
    → r.in_sig_handler ≡ false
    → deliverable r ≢ 0
    → (sig_try_deliver r).1.sig_pending ≡ (take_signal r (chosen r)).sig_pending
unfolding sig_try_deliver enter_handler
pending-deliver r h d =
    let some_left = ne→== (deliverable r) 0 d in
    let handler = (r.sig_actions (chosen r)).handler in
    elim (Bool-cases (handler == sig_ign)) [
      | inl e ↦ rw (h, some_left, e) refl
      | inr e ↦ elim (Bool-cases (handler == sig_dfl)) [
        | inl f ↦ elim (Bool-cases (sig_default_terminates (chosen r))) [
          | inl g ↦ rw (h, some_left, e, f, g) refl
          | inr g ↦ rw (h, some_left, e, f, g) refl
        ]
        | inr f ↦ rw (h, some_left, e, f) refl
      ]
    ]

-- If a signal is pending that is not masked, and no handler runs, the delivery takes the lowest such
-- signal: it was pending and not masked, the lower ones that are pending are masked, and afterwards
-- it is not pending, while every other signal is pending that was.
pub sig_try_deliver_lem :
    (r : Tcb)
    → r.in_sig_handler ≡ false
    → deliverable r ≢ 0
    → r.sig_pending < 2 ^ 64
    → r.sig_mask < 2 ^ 64
    → let i = chosen r - 1 in
      let r' = (sig_try_deliver r).1 in
      (bit i r.sig_pending ≡ 1)
      × (bit i r.sig_mask ≡ 0)
      × ((j : ℕ) → j < i → bit j r.sig_pending ≡ 1 → bit j r.sig_mask ≡ 1)
      × (bit i r'.sig_pending ≡ 0)
      × ((j : ℕ) → j < 64 → j ≢ i → bit j r'.sig_pending ≡ bit j r.sig_pending)
sig_try_deliver_lem r h d p m =
    let fits = bit_and-lt 64 r.sig_pending (bit_not 64 r.sig_mask) p in
    let (one, top, set, low) = lowest_lem (deliverable r) fits d in
    let i = chosen r - 1 in
    let inside : i < 64 = omega arith in
    let here = bit-deliverable r i inside m in
    let after = pending-deliver r h d in
    (
      omega (arith, set, here, bit-le-one i r.sig_pending, bit-le-one i r.sig_mask),
      omega (arith, set, here, bit-le-one i r.sig_pending, bit-le-one i r.sig_mask),
      λ j k q. omega (arith, low j k, bit-deliverable r j (omega arith) m, bit-le-one j r.sig_mask),
      ap (bit i) after ∙ bit-cleared_self 64 i r.sig_pending inside,
      λ j k n. ap (bit j) after ∙ bit-cleared 64 j i r.sig_pending k inside n,
    )
