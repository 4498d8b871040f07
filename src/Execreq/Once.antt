-- ===== src/Execreq/Once.antt =====
-- A request is answered once: after the reply that it waited for, another one for the same slot and
-- generation changes nothing, whatever calls come in between.
use robu_microkernel.Base.{
  ℕ, suc, ◌+◌, ◌%◌, ◌≤◌, ◌<◌, ◌≡◌, ◌⊎◌, refl, ◌∙◌, true, false, List, [], ◌∷◌, Option, none, some,
  ◌==◌, ◌!=◌, arith, inl, inr, Bool-cases, Option-cases, ==_refl, length,
}
use robu_microkernel.Base.Words.{u16}
use robu_microkernel.Status.{Status}
use robu_microkernel.Execreq.{Exec, Loader, Slot, SlotState, free_slot, is_delivered, is_poll_done}
use robu_microkernel.Execreq.Reply.{
  waiting_requester, complete_poll, execreq_complete, not_awaited, reply_image,
}
use robu_microkernel.Execreq.Moves.{Moves}
use robu_microkernel.Execreq.Calls.{ExecCall, call, call-Moves, run}

-- A request of the generation `g` was answered in the slot, at most `n` calls ago: it is done and not yet
-- collected, or the slot was freed and is `d` generations on.
Spent : {P : Type 0} → ℕ → ℕ → Slot P → Type 0
Spent n g s =
    ((s.generation ≡ g) × (is_poll_done s.state ≡ true))
    ⊎ ((d : ℕ) × (0 < d) × (d ≤ n) × (s.generation ≡ (g + d) % u16))

Spent-Moves : {P : Type 0} (n g : ℕ) (s s' : Slot P) → Spent n g s → Moves s s' → Spent (suc n) g s'
unfolding Spent
Spent-Moves n g s s' (inl (e, p)) (inl (k, q)) = inl (k ∙ e, q p)
Spent-Moves n g s s' (inl (e, p)) (inr k) = inr (1, omega arith, omega arith, omega (arith, e, k))
Spent-Moves n g s s' (inr (d, a, b, e)) (inl (k, q)) = inr (d, a, omega (arith, b), k ∙ e)
Spent-Moves n g s s' (inr (d, a, b, e)) (inr k) =
    inr (d + 1, omega arith, omega (arith, b), omega (arith, e, k))

done-not_delivered : (s : SlotState) → is_poll_done s ≡ true → is_delivered s ≡ false
done-not_delivered SlotState.empty e = refl
done-not_delivered SlotState.queued e = refl
done-not_delivered SlotState.delivered e = absurd (ground arith)
done-not_delivered SlotState.poll_done e = refl

Spent-not_awaited :
    {P : Type 0} (n i g : ℕ) (e : Exec P)
    → n < u16
    → Spent n g (e.slots i)
    → not_awaited e i g ≡ true
unfolding Spent
Spent-not_awaited n i g e h (inl (q, p)) =
    let closed = done-not_delivered (e.slots i).state p in rw closed (ground arith)
Spent-not_awaited n i g e h (inr (d, a, b, q)) =
    let other : ((e.slots i).generation != g) ≡ true = ground (arith, q, a, b) in
    rw other (ground arith)

awaited-generation :
    {P : Type 0} (e : Exec P) (i g : ℕ) → not_awaited e i g ≡ false → (e.slots i).generation ≡ g
awaited-generation e i g h = ground arith

freed-Spent :
    {P : Type 0} (e : Exec P) (i g : ℕ)
    → (e.slots i).generation ≡ g
    → Spent 1 g ((free_slot e i).slots i)
unfolding Spent free_slot
freed-Spent e i g q = rw (==_refl i, q) (inr (1, omega arith, omega arith, refl))

module _ {P : Type 0} (loader : Loader P) where
  poll-Spent :
      (e : Exec P) (i g : ℕ) (image : Option (List ℕ))
      → (e.slots i).generation ≡ g
      → Spent 1 g ((complete_poll loader e i image).slots i)
  unfolding Spent complete_poll
  poll-Spent e i g none q = rw (==_refl i) (inl (q, refl))
  poll-Spent e i g (some bytes) q = rw (==_refl i) (inl (q, refl))

  complete-Spent :
      (e : Exec P) (cpu i g : ℕ) (status : Status) (shmid size : ℕ)
      → not_awaited e i g ≡ false
      → Spent 1 g ((execreq_complete loader e cpu i g status shmid size).slots i)
  unfolding execreq_complete free_slot
  complete-Spent e cpu i g status shmid size h =
      let q = awaited-generation e i g h in
      elim (Bool-cases ((e.slots i).params.requester_tid == 0)) [
        | inl z ↦ rw (h, z) (poll-Spent e i g (reply_image loader status shmid size) q)
        | inr z ↦ elim (Option-cases (waiting_requester e i)) [
          | inl w ↦ rw (h, z, w) (freed-Spent e i g q)
          | inr (t, w) ↦ elim (Option-cases (reply_image loader status shmid size)) [
            | inl o ↦ rw (h, z, w, o) (freed-Spent e i g q)
            | inr (bytes, o) ↦ rw (h, z, w, o) (freed-Spent e i g q)
          ]
        ]
      ]

  run-Spent :
      (cs : List (ExecCall P)) (n g i : ℕ) (e : Exec P)
      → Spent n g (e.slots i)
      → Spent (n + length cs) g ((run loader e cs).slots i)
  unfolding run
  run-Spent [] n g i e s = let same : n + 0 ≡ n = omega arith in rw same s
  run-Spent (c ∷ cs) n g i e s =
      let same : n + suc (length cs) ≡ suc n + length cs = omega arith in
      rw same (
        run-Spent cs (suc n) g i (call loader e c)
          (Spent-Moves n g (e.slots i) ((call loader e c).slots i) s (call-Moves loader e c i)))

  not_awaited_complete :
      (e : Exec P) (cpu i g : ℕ) (status : Status) (shmid size : ℕ)
      → not_awaited e i g ≡ true
      → execreq_complete loader e cpu i g status shmid size ≡ e
  unfolding execreq_complete
  not_awaited_complete e cpu i g status shmid size h = rw h refl

  -- A reply takes effect at most once: after a reply that slot `i` awaited in the generation `g`, and then
  -- fewer than 65535 calls of this file, of any kind and by anyone, a second reply for the same slot and
  -- generation changes nothing, whatever it says. The calls may free the slot and give it to other requests.
  pub execreq_complete-execreq_complete :
      (e : Exec P) (cpu cpu' i g : ℕ) (status status' : Status) (shmid shmid' size size' : ℕ)
      (cs : List (ExecCall P))
      → not_awaited e i g ≡ false
      → length cs < 65535
      → let e' = run loader (execreq_complete loader e cpu i g status shmid size) cs in
        execreq_complete loader e' cpu' i g status' shmid' size' ≡ e'
  execreq_complete-execreq_complete e cpu cpu' i g status status' shmid shmid' size size' cs a h =
      let e1 = execreq_complete loader e cpu i g status shmid size in
      let spent = run-Spent cs 1 g i e1 (complete-Spent e cpu i g status shmid size a) in
      not_awaited_complete (run loader e1 cs) cpu' i g status' shmid' size'
        (Spent-not_awaited (1 + length cs) i g (run loader e1 cs) (omega arith) spent)
