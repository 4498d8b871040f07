-- ===== src/Socket/Accept.antt =====
-- `sock_accept` of src/core/socket.c, when it succeeds.
use robu_microkernel.Base.{
  ℕ, zero, suc, ◌+◌, ◌%◌, ◌<◌, ◌⊎◌, ◌≡◌, refl, ◌∙◌, ◌≢◌, Bool, true, false, ◌&&◌, Option, none,
  some, arith, ◌==◌, inl, inr, Bool-cases, Option-cases, ==_refl, ne→==, some-inj, subst,
}
use robu_microkernel.Base.Chain.{upd}
use robu_microkernel.Status.{Status}
use robu_microkernel.Socket.{
  Sockets, backlog_max, is_connecting, is_listening, free_slot, make_sockid, max_sockets,
  own_socket,
}
use robu_microkernel.Socket.Transfer.{accept_loop, join, sock_accept}
use robu_microkernel.Socket.Peers.{Joined}

-- Only the head of the backlog of the socket in slot `l` is another.
abbrev pub OnlyHeadMoved : Sockets → ℕ → Sockets → Type 0
OnlyHeadMoved t l t' =
    (t' l ≡ record (t l) { backlog_head = (t' l).backlog_head }) × ((j : ℕ) → j ≢ l → t' j ≡ t j)

abbrev Waits : Sockets → ℕ → Type 0
Waits t slot = ((t slot).in_use ≡ true) × (is_connecting (t slot).state ≡ true)

ends_true : (a b c : Bool) → a && b && c ≡ true → (a ≡ true) × (c ≡ true)
ends_true true true c e = (refl, e)
ends_true true false c e = absurd (ground arith)
ends_true false b c e = absurd (ground arith)

pub accept_loop-OnlyHeadMoved :
    (fuel : ℕ) (t : Sockets) (l : ℕ)
    → let (found, t') = accept_loop fuel t l in
      OnlyHeadMoved t l t' × ((slot : ℕ) → found ≡ some slot → Waits t' slot)
unfolding accept_loop
accept_loop-OnlyHeadMoved zero t l = ((refl, λ j n. refl), λ slot q. absurd (ground arith))
accept_loop-OnlyHeadMoved (suc fuel) t l =
    let s = t l in
    let t1 = upd t l (record s { backlog_head = (s.backlog_head + 1) % backlog_max }) in
    let c = t1 (s.backlog_slot s.backlog_head) in
    let other : (j : ℕ) → j ≢ l → t1 j ≡ t j = λ j n. rw (ne→== j l n) refl in
    elim (Bool-cases (s.backlog_head == s.backlog_tail)) [
      | inl e ↦ rw e ((refl, λ j n. refl), λ slot q. absurd (ground arith))
      | inr e ↦
          elim (Bool-cases
            (c.in_use && c.generation == s.backlog_gen s.backlog_head && is_connecting c.state)) [
              | inl g ↦
                  rw (e, g)
                    (
                      (rw (==_refl l) refl, other),
                      λ u q. subst (Waits t1) (some-inj q) (ends_true _ _ _ g),
                    )
              | inr g ↦
                  let ((h, o), w) = accept_loop-OnlyHeadMoved fuel t1 l in
                  rw (e, g) ((rw (==_refl l) at h, λ j n. o j n ∙ other j n), w)
            ]
    ]

-- What a successful accept at the listener in slot `l` leaves: the server's end in a slot that was free,
-- named by the new id and owned by the caller, is connected with a client that was connecting.
pub record Accepted (t : Sockets) (caller l id : ℕ) (t' : Sockets) : Type 0 where
  pub slot : ℕ
  pub client : ℕ
  pub was_free : (t slot).in_use ≡ false
  pub was_connecting : ((t client).in_use ≡ true) × (is_connecting (t client).state ≡ true)
  pub new_id : id ≡ make_sockid slot (t slot).generation
  pub owned : (t' slot).owner_tid ≡ caller
  pub joined : Joined t' slot client
  pub listener : t' l ≡ record (t l) { backlog_head = (t' l).backlog_head }
  pub others : (j : ℕ) → j ≢ l → j ≢ slot → j ≢ client → t' j ≡ t j

-- What `sock_accept` does with the slot that it finds for the server's end.
abbrev pub placed : ℕ → ℕ → Sockets → Option ℕ → Status × ℕ × Sockets
placed caller client t1 none = (Status.no_space, 0, t1)
placed caller client t1 (some slot) =
    (Status.ok, make_sockid slot (t1 slot).generation, join t1 caller slot client)

-- What it does with the result of the loop over the backlog.
abbrev pub accepted : ℕ → Option ℕ → Sockets → Status × ℕ × Sockets
accepted caller none t1 = (Status.would_block, 0, t1)
accepted caller (some client) t1 = placed caller client t1 (free_slot max_sockets 0 t1)

pub sock_accept-accepted :
    (t : Sockets) (caller sockid l : ℕ)
    → own_socket t caller sockid ≡ some l
    → is_listening (t l).state ≡ true
    → sock_accept t caller sockid
      ≡ accepted caller (accept_loop backlog_max t l).0 (accept_loop backlog_max t l).1
unfolding sock_accept
sock_accept-accepted t caller sockid l o h = elim (Option-cases (accept_loop backlog_max t l).0) [
  | inl n ↦ rw (o, h, n, sock_accept) refl
  | inr (client, n) ↦
      elim (Option-cases (free_slot max_sockets 0 (accept_loop backlog_max t l).1)) [
        | inl f ↦ rw (o, h, n, f, sock_accept) refl
        | inr (slot, f) ↦ rw (o, h, n, f, sock_accept) refl
      ]
]

-- The three ends of an accept.
abbrev pub AcceptEnd : Sockets → ℕ → ℕ → Status × ℕ × Sockets → Type 0
AcceptEnd t caller l r =
    let (rc, id, t') = r in
    ((rc ≡ Status.would_block) × OnlyHeadMoved t l t' × ((t' l).backlog_head ≡ (t' l).backlog_tail))
    ⊎ ((rc ≡ Status.no_space)
        × OnlyHeadMoved t l t'
        × ((j : ℕ) → j < max_sockets → (t j).in_use ≡ true))
    ⊎ ((rc ≡ Status.ok) × Accepted t caller l id t')
