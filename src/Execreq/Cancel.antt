-- ===== src/Execreq/Cancel.antt =====
-- `execreq_cancel_requester` takes back the requests of one thread and no others.
use native.Mathlib.Decide.{ℕ_discrete}
use robu_microkernel.Base.{
  ℕ, zero, suc, ◌+◌, ◌≡◌, refl, ◌∙◌, Bool, true, false, not, ◌&&◌, if◌then◌else◌, arith, ltb, leb,
  ◌==◌, inl, inr, Bool-cases, ==_refl, ne→==,
}
use robu_microkernel.Base.Words.{add16}
use robu_microkernel.Execreq.{SlotState, Slot, Exec, is_empty, max_slots, free_slot}
use robu_microkernel.Execreq.Reply.{cancel_from, execreq_cancel_requester}

abbrev pub freed : {P : Type 0} → Slot P → Slot P
freed slot = record slot { state = SlotState.empty; generation = add16 slot.generation 1 }

abbrev pub belongs : {P : Type 0} → Slot P → ℕ → Bool
belongs slot tid = not (is_empty slot.state) && slot.params.requester_tid == tid

module _ {P : Type 0} (tid : ℕ) where
  step-slots :
      (e : Exec P) (i j : ℕ)
      → (if belongs (e.slots i) tid then free_slot e i else e).slots j
        ≡ (if j == i && belongs (e.slots j) tid then freed (e.slots j) else e.slots j)
  unfolding free_slot
  step-slots e i j = elim (ℕ_discrete j i) [
    | yes q ↦ elim (Bool-cases (belongs (e.slots i) tid)) [
      | inl b ↦ rw (q, ==_refl i, b, ==_refl i) refl
      | inr b ↦ rw (q, ==_refl i, b) refl
    ]
    | no n ↦ elim (Bool-cases (belongs (e.slots i) tid)) [
      | inl b ↦ rw (ne→== j i n, b, ne→== j i n) refl
      | inr b ↦ rw (ne→== j i n, b) refl
    ]
  ]

  cancel_from-slots :
      (n i : ℕ) (e : Exec P) (j : ℕ)
      → (cancel_from n i e tid).slots j ≡ (
          if (leb i j && ltb j (i + n)) && belongs (e.slots j) tid
          then freed (e.slots j)
          else e.slots j)
  unfolding cancel_from
  cancel_from-slots zero i e j =
      let outside : (leb i j && ltb j (i + zero)) ≡ false = ground arith in rw outside refl
  cancel_from-slots (suc n) i e j = elim (ℕ_discrete j i) [
    | yes q ↦
        let below : (leb (i + 1) i && ltb i (i + 1 + n)) ≡ false = ground arith in
        let inside : (leb i i && ltb i (i + suc n)) ≡ true = ground arith in
        let one = step-slots e i i in
        let ih =
          cancel_from-slots n (i + 1) (if belongs (e.slots i) tid then free_slot e i else e) i in
        rw (q, inside) ((rw below at ih) ∙ (rw (==_refl i) at one))
    | no d ↦
        let same : (leb (i + 1) j && ltb j (i + 1 + n)) ≡ (leb i j && ltb j (i + suc n)) =
          ground arith in
        let one = step-slots e i j in
        let kept = rw (ne→== j i d) at one in
        let ih =
          cancel_from-slots n (i + 1) (if belongs (e.slots i) tid then free_slot e i else e) j in
        rw (same, kept) at ih
  ]

  -- After a thread's requests are cancelled, every slot of the table that held one of them is empty and its
  -- generation has moved on, and every other slot is as it was.
  pub execreq_cancel_requester_lem :
      (e : Exec P) (j : ℕ)
      → (execreq_cancel_requester e tid).slots j
        ≡ (if ltb j max_slots && belongs (e.slots j) tid then freed (e.slots j) else e.slots j)
  unfolding execreq_cancel_requester
  execreq_cancel_requester_lem e j =
      let inside : (leb 0 j && ltb j (0 + max_slots)) ≡ ltb j max_slots = ground arith in
      let at_all = cancel_from-slots max_slots 0 e j in rw inside at at_all
