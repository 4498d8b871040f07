-- ===== src/Execreq/Moves.antt =====
-- src/core/execreq.c: what each call does to the generation of a slot.
use native.Mathlib.Decide.{ℕ_discrete}
use robu_microkernel.Base.{
  ℕ, zero, suc, ◌+◌, ◌≡◌, refl, ◌⊎◌, true, false, not, ◌&&◌, ◌||◌, List, Option, none, some, ◌==◌,
  ◌!=◌, leb, ltb, arith, inl, inr, Bool-cases, Option-cases, ==_refl, ne→==, some-inj,
}
use robu_microkernel.Base.Words.{add16}
use robu_microkernel.Base.Chain.{upd}
use robu_microkernel.Status.{Status}
use robu_microkernel.Execreq.{
  Exec, Loader, Slot, SlotState, alloc_slot, alloc_slot_from, deliver_from,
  execreq_finish_poll_spawn, free_slot, is_empty, is_poll_done, is_queued, max_slots,
}
use robu_microkernel.Execreq.Reply.{
  complete_poll, execreq_cancel_requester, execreq_complete, not_awaited, reply_image,
  waiting_requester,
}
use robu_microkernel.Execreq.Cancel.{belongs, execreq_cancel_requester_lem}

-- The generation stays, and a request that is done stays so.
abbrev pub Stays : {P : Type 0} → Slot P → Slot P → Type 0
Stays s s' =
    (s'.generation ≡ s.generation) × (is_poll_done s.state ≡ true → is_poll_done s'.state ≡ true)

-- What a call may do to a slot: it stays, or it is freed and its generation moves on by one.
abbrev pub Moves : {P : Type 0} → Slot P → Slot P → Type 0
Moves s s' = Stays s s' ⊎ (s'.generation ≡ add16 s.generation 1)

pub Moves-same : {P : Type 0} (s : Slot P) → Moves s s
Moves-same s = inl (refl, λ d. d)

pub upd-Moves :
    {P : Type 0} (slots : ℕ → Slot P) (j i : ℕ) (s : Slot P)
    → Moves (slots j) s
    → Moves (slots i) (upd slots j s i)
upd-Moves slots j i s m = elim (ℕ_discrete i j) [
  | yes q ↦ rw (q, ==_refl j) m
  | no q ↦ rw (ne→== i j q) (Moves-same (slots i))
]

pub upd_twice-Moves :
    {P : Type 0} (slots : ℕ → Slot P) (j i : ℕ) (s s' : Slot P)
    → Moves (slots j) s'
    → Moves (slots i) (upd (upd slots j s) j s' i)
upd_twice-Moves slots j i s s' m = elim (ℕ_discrete i j) [
  | yes q ↦ rw (q, ==_refl j) m
  | no q ↦ rw (ne→== i j q) (Moves-same (slots i))
]

pub free_slot-Moves :
    {P : Type 0} (e : Exec P) (j i : ℕ) → Moves (e.slots i) ((free_slot e j).slots i)
unfolding free_slot
free_slot-Moves e j i = upd-Moves e.slots j i _ (inr refl)

empty-not_done : (s : SlotState) → is_empty s ≡ true → is_poll_done s ≡ false
empty-not_done SlotState.empty e = refl
empty-not_done SlotState.queued e = refl
empty-not_done SlotState.delivered e = refl
empty-not_done SlotState.poll_done e = absurd (ground arith)

queued-not_done : (s : SlotState) → is_queued s ≡ true → is_poll_done s ≡ false
queued-not_done SlotState.empty e = refl
queued-not_done SlotState.queued e = refl
queued-not_done SlotState.delivered e = refl
queued-not_done SlotState.poll_done e = absurd (ground arith)

-- A slot that is not done may get any state.
pub not_done-Moves :
    {P : Type 0} (s s' : Slot P)
    → s'.generation ≡ s.generation
    → is_poll_done s.state ≡ false
    → Moves s s'
not_done-Moves s s' g d = inl (g, λ e. absurd (ground arith))

alloc_slot_from-is_empty :
    {P : Type 0} (n i : ℕ) (e : Exec P) (j : ℕ)
    → alloc_slot_from n i e ≡ some j
    → is_empty (e.slots j).state ≡ true
unfolding alloc_slot_from
alloc_slot_from-is_empty zero i e j q = absurd (ground arith)
alloc_slot_from-is_empty (suc n) i e j q = elim (Bool-cases (is_empty (e.slots i).state)) [
  | inl u ↦ let same : i ≡ j = some-inj (rw u at q) in rw same at u
  | inr u ↦ alloc_slot_from-is_empty n (i + 1) e j (rw u at q)
]

pub alloc_slot-not_done :
    {P : Type 0} (e : Exec P) (j : ℕ)
    → alloc_slot e ≡ some j
    → is_poll_done (e.slots j).state ≡ false
unfolding alloc_slot
alloc_slot-not_done e j q =
    empty-not_done (e.slots j).state (alloc_slot_from-is_empty max_slots 0 e j q)

pub deliver_from-Moves :
    {P : Type 0} (n i : ℕ) (e : Exec P) (name_max j : ℕ)
    → Moves (e.slots j) ((deliver_from n i e name_max).1.slots j)
unfolding deliver_from
deliver_from-Moves zero i e name_max j = Moves-same (e.slots j)
deliver_from-Moves (suc n) i e name_max j = elim (Bool-cases (is_queued (e.slots i).state)) [
  | inl q ↦ rw q (
      upd-Moves e.slots i j (record (e.slots i) { state = SlotState.delivered })
        (not_done-Moves (e.slots i) (record (e.slots i) { state = SlotState.delivered }) refl
          (queued-not_done (e.slots i).state q)))
  | inr q ↦ rw q (deliver_from-Moves n (i + 1) e name_max j)
]

pub finish-Moves :
    {P : Type 0} (e : Exec P) (i generation j : ℕ)
    → Moves (e.slots j) ((execreq_finish_poll_spawn e i generation).1.slots j)
unfolding execreq_finish_poll_spawn
finish-Moves e i generation j =
    elim (Bool-cases (
      leb max_slots i
      || (e.slots i).generation != generation
      || not (is_poll_done (e.slots i).state))) [
        | inl q ↦ rw q (Moves-same (e.slots j))
        | inr q ↦ rw q (free_slot-Moves e i j)
      ]

pub cancel-Moves :
    {P : Type 0} (e : Exec P) (tid j : ℕ)
    → Moves (e.slots j) ((execreq_cancel_requester e tid).slots j)
cancel-Moves e tid j =
    rw (execreq_cancel_requester_lem tid e j)
      (elim (Bool-cases (ltb j max_slots && belongs (e.slots j) tid)) [
        | inl q ↦ rw q (inr refl)
        | inr q ↦ rw q (Moves-same (e.slots j))
      ])

module _ {P : Type 0} (loader : Loader P) where
  complete_poll-Moves :
      (e : Exec P) (i : ℕ) (image : Option (List ℕ)) (j : ℕ)
      → Moves (e.slots j) ((complete_poll loader e i image).slots j)
  unfolding complete_poll
  complete_poll-Moves e i none j = upd-Moves e.slots i j _ (inl (refl, λ d. refl))
  complete_poll-Moves e i (some bytes) j = upd-Moves e.slots i j _ (inl (refl, λ d. refl))

  pub complete-Moves :
      (e : Exec P) (cpu i g : ℕ) (status : Status) (shmid size j : ℕ)
      → Moves (e.slots j) ((execreq_complete loader e cpu i g status shmid size).slots j)
  unfolding execreq_complete free_slot
  complete-Moves e cpu i g status shmid size j = elim (Bool-cases (not_awaited e i g)) [
    | inl h ↦ rw h (Moves-same (e.slots j))
    | inr h ↦ elim (Bool-cases ((e.slots i).params.requester_tid == 0)) [
      | inl z ↦ rw (h, z) (complete_poll-Moves e i (reply_image loader status shmid size) j)
      | inr z ↦ elim (Option-cases (waiting_requester e i)) [
        | inl w ↦ rw (h, z, w) (upd-Moves e.slots i j _ (inr refl))
        | inr (t, w) ↦ elim (Option-cases (reply_image loader status shmid size)) [
          | inl o ↦ rw (h, z, w, o) (upd-Moves e.slots i j _ (inr refl))
          | inr (bytes, o) ↦ rw (h, z, w, o) (upd-Moves e.slots i j _ (inr refl))
        ]
      ]
    ]
  ]
