-- ===== src/Socket/Backlog.antt =====
-- The backlog of a listener: a round buffer of the clients that wait.
use robu_microkernel.Base.{
  ℕ, zero, suc, ◌+◌, ◌-◌, ◌%◌, ◌≤◌, ◌<◌, ◌≡◌, refl, ◌≢◌, Bool, true, false, ◌&&◌, none, some, arith,
  ◌==◌, Bool-cases, inl, inr, ==_refl, some-inj, subst,
}
use robu_microkernel.Base.Chain.{upd}
use robu_microkernel.Socket.{Socket, Sockets, is_connecting, backlog_max}
use robu_microkernel.Socket.Transfer.{accept_loop}

-- How many clients wait at the listener in slot `l`.
abbrev pub pending : Sockets → ℕ → ℕ
pending t l = ((t l).backlog_tail + backlog_max - (t l).backlog_head) % backlog_max

abbrev pub BacklogIsValid : Socket → Type 0
BacklogIsValid s = (s.backlog_head < backlog_max) × (s.backlog_tail < backlog_max)

-- One entry less in the backlog.
abbrev popped : Sockets → ℕ → Sockets
popped t l = upd t l (record (t l) { backlog_head = ((t l).backlog_head + 1) % backlog_max })

pending-popped :
    (t : Sockets) (l : ℕ)
    → BacklogIsValid (t l)
    → (t l).backlog_head ≢ (t l).backlog_tail
    → (suc (pending (popped t l) l) ≡ pending t l) × BacklogIsValid (popped t l l)
pending-popped t l v n = let (h, k) = v in rw (==_refl l) (omega arith, (omega arith, k))

all_true : (a b c : Bool) → a && b && c ≡ true → (a ≡ true) × (b ≡ true) × (c ≡ true)
all_true true true c e = (refl, refl, e)
all_true true false c e = absurd (ground arith)
all_true false b c e = absurd (ground arith)

-- The client is the one of the entry that was taken last: its slot, in the generation that the entry names.
abbrev pub TakenFrom : Sockets → ℕ → ℕ → Type 0
TakenFrom t' l slot =
    (j : ℕ) × (j < backlog_max)
    × ((t' l).backlog_head ≡ (j + 1) % backlog_max)
    × (slot ≡ (t' l).backlog_slot j)
    × ((t' slot).generation ≡ (t' l).backlog_gen j)

-- On a valid backlog, with a round of fuel for each client that waits, the loop that looks for the next
-- client of a listener gives up only on an empty backlog. A client that it finds is in use, connecting,
-- and still the socket that joined the backlog: the slot and the generation are those of the last entry
-- taken. The entries themselves are as before, and what is left of the backlog is valid and not longer.
pub accept_loop_lem :
    (fuel : ℕ) (t : Sockets) (l : ℕ)
    → BacklogIsValid (t l)
    → pending t l < fuel
    → let (found, t') = accept_loop fuel t l in
      (found ≡ none → (t' l).backlog_head ≡ (t' l).backlog_tail)
      × ((slot : ℕ)
          → found ≡ some slot
          → ((t' slot).in_use ≡ true)
            × (is_connecting (t' slot).state ≡ true)
            × TakenFrom t' l slot)
      × (((t' l).backlog_slot ≡ (t l).backlog_slot) × ((t' l).backlog_gen ≡ (t l).backlog_gen))
      × BacklogIsValid (t' l)
      × (pending t' l ≤ pending t l)
unfolding accept_loop
accept_loop_lem zero t l v h = absurd (omega arith)
accept_loop_lem (suc fuel) t l v h =
    let s = t l in
    let slot = s.backlog_slot s.backlog_head in
    let c = popped t l slot in
    elim (Bool-cases (s.backlog_head == s.backlog_tail)) [
      | inl e ↦
          rw e (λ q. ground arith, λ slot q. absurd (ground arith), (refl, refl), v, omega arith)
      | inr e ↦
          let n : s.backlog_head ≢ s.backlog_tail = ground arith in
          let (fewer, v') = pending-popped t l v n in
          elim (Bool-cases
            (c.in_use && c.generation == s.backlog_gen s.backlog_head && is_connecting c.state)) [
              | inl g ↦
                  rw (e, g)
                    (
                      λ q. absurd (ground arith),
                      λ u q.
                          subst
                            (λ x.
                              ((popped t l x).in_use ≡ true)
                              × (is_connecting (popped t l x).state ≡ true)
                              × TakenFrom (popped t l) l x)
                            (some-inj q)
                            (let (x, y, z) = all_true _ _ _ g in
                              (
                                x,
                                z,
                                (
                                  s.backlog_head,
                                  v.0,
                                  rw (==_refl l) refl,
                                  rw (==_refl l) refl,
                                  rw (==_refl l) (ground (arith, y)),
                                ),
                              )),
                      rw (==_refl l) (refl, refl),
                      v',
                      omega arith,
                    )
              | inr g ↦
                  let (a, b, same, w, k) = accept_loop_lem fuel (popped t l) l v' (omega arith) in
                  rw (e, g) (a, b, rw (==_refl l) at same, w, omega arith)
            ]
    ]
