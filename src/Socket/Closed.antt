-- ===== src/Socket/Closed.antt =====
-- `sock_close` of src/core/socket.c, and the calls after it that take a free slot.
use robu_microkernel.Base.{
  ℕ, ◌+◌, ◌/◌, ◌%◌, ◌≡◌, refl, ap, ◌∙◌, ◌≢◌, true, List, [], ◌∷◌, Option, none, some, arith, inl,
  inr, Bool-cases, Option-cases, ==_refl, ne→==, subst,
}
use robu_microkernel.Base.Words.{u16}
use robu_microkernel.Base.Chain.{upd}
use robu_microkernel.Status.{Status}
use native.Mathlib.Decide.{ℕ_discrete}
use robu_microkernel.Socket.{
  Socket, Sockets, backlog_max, find_socket, free_slot, is_connected, is_listening, max_sockets,
  own_socket, sock_create,
}
use robu_microkernel.Socket.Transfer.{
  accept_loop, join, live_peer, server_end, shut, sock_accept, sock_close,
}
use robu_microkernel.Socket.Accept.{
  OnlyHeadMoved, accept_loop-OnlyHeadMoved, accepted, placed, sock_accept-accepted,
}

-- The calls that put a socket into a free slot.
pub data Opening : Type 0 where
  create : ℕ → Opening
  accept : ℕ → ℕ → Opening

unfoldable pub open_with : Sockets → Opening → Sockets
open_with t (create caller) = (sock_create t caller).2
open_with t (accept caller sockid) = (sock_accept t caller sockid).2

unfoldable pub open_all : Sockets → List Opening → Sockets
unfolding open_with
open_all t [] = t
open_all t (o ∷ os) = open_all (open_with t o) os

abbrev SameGenerations : Sockets → Sockets → Type 0
SameGenerations t t' = (j : ℕ) → (t' j).generation ≡ (t j).generation

upd-SameGenerations :
    (t : Sockets) (i : ℕ) (s : Socket)
    → s.generation ≡ (t i).generation
    → SameGenerations t (upd t i s)
upd-SameGenerations t i s e j = elim (ℕ_discrete j i) [
  | yes q ↦ rw (q, ==_refl i) e
  | no q ↦ rw (ne→== j i q) refl
]

sock_create-SameGenerations :
    (t : Sockets) (caller : ℕ) → SameGenerations t (sock_create t caller).2
unfolding sock_create
sock_create-SameGenerations t caller j = elim (Option-cases (free_slot max_sockets 0 t)) [
  | inl e ↦ rw (e, sock_create) refl
  | inr (slot, e) ↦ rw (e, sock_create) (upd-SameGenerations t slot _ refl j)
]

moved-SameGenerations :
    (t : Sockets) (l : ℕ) (t' : Sockets) → OnlyHeadMoved t l t' → SameGenerations t t'
moved-SameGenerations t l t' m j = elim (ℕ_discrete j l) [
  | yes q ↦ rw q (ap (λ s. s.generation) m.0)
  | no q ↦ ap (λ s. s.generation) (m.1 j q)
]

join-SameGenerations :
    (t : Sockets) (caller slot client : ℕ) → SameGenerations t (join t caller slot client)
join-SameGenerations t caller slot client j =
    let server = server_end t caller slot client in
    let t1 = upd t slot server in
    upd-SameGenerations t1 client _ refl j ∙ upd-SameGenerations t slot server refl j

placed-SameGenerations :
    (t : Sockets) (caller client : ℕ) (o : Option ℕ)
    → SameGenerations t (placed caller client t o).2
placed-SameGenerations t caller client none j = refl
placed-SameGenerations t caller client (some slot) j = join-SameGenerations t caller slot client j

accepted-SameGenerations :
    (t : Sockets) (caller : ℕ) (found : Option ℕ) → SameGenerations t (accepted caller found t).2
accepted-SameGenerations t caller none j = refl
accepted-SameGenerations t caller (some client) j =
    placed-SameGenerations t caller client (free_slot max_sockets 0 t) j

sock_accept-SameGenerations :
    (t : Sockets) (caller sockid : ℕ) → SameGenerations t (sock_accept t caller sockid).2
unfolding sock_accept
sock_accept-SameGenerations t caller sockid j = elim (Option-cases (own_socket t caller sockid)) [
  | inl o ↦ rw (o, sock_accept) refl
  | inr (l, o) ↦ elim (Bool-cases (is_listening (t l).state)) [
    | inl h ↦
        let t1 = (accept_loop backlog_max t l).1 in
        rw (sock_accept-accepted t caller sockid l o h) (
          accepted-SameGenerations t1 caller (accept_loop backlog_max t l).0 j
          ∙ moved-SameGenerations t l t1 (accept_loop-OnlyHeadMoved backlog_max t l).0 j)
    | inr h ↦ rw (o, h, sock_accept) refl
  ]
]

open_all-SameGenerations : (os : List Opening) (t : Sockets) → SameGenerations t (open_all t os)
unfolding open_all
open_all-SameGenerations [] t j = refl
open_all-SameGenerations (create caller ∷ os) t j =
    open_all-SameGenerations os (sock_create t caller).2 j ∙ sock_create-SameGenerations t caller j
open_all-SameGenerations (accept caller sockid ∷ os) t j =
    open_all-SameGenerations os (sock_accept t caller sockid).2 j
    ∙ sock_accept-SameGenerations t caller sockid j

own_socket-slot :
    (t : Sockets) (caller sockid slot : ℕ)
    → own_socket t caller sockid ≡ some slot
    → (slot ≡ sockid % 256) × ((t slot).generation ≡ sockid / 256 % u16)
unfolding own_socket find_socket
own_socket-slot t caller sockid slot o = (ground arith, ground arith)

find_socket-stale :
    (t : Sockets) (sockid : ℕ)
    → (t (sockid % 256)).generation ≢ sockid / 256 % u16
    → find_socket t sockid ≡ none
unfolding find_socket
find_socket-stale t sockid e = ground arith

shut-generation :
    (t : Sockets) (slot : ℕ) → (shut t slot slot).generation ≡ ((t slot).generation + 1) % u16
unfolding shut
shut-generation t slot = elim (Bool-cases (is_connected (t slot).state)) [
  | inl c ↦ elim (Option-cases (live_peer t (t slot))) [
    | inl e ↦ rw (c, e, ==_refl slot) refl
    | inr (i, e) ↦
        let closed = record (t i) { peer_closed = true } in
        rw (c, e, ==_refl slot) (ap (λ g. (g + 1) % u16) (upd-SameGenerations t i closed refl slot))
  ]
  | inr c ↦ rw (c, ==_refl slot) refl
]

-- Right after its owner closes a socket, its id names no socket, and neither does it after any number of
-- creations and accepts that follow, by anyone, although they may take the slot again.
pub sock_close-find_socket :
    (t : Sockets) (caller sockid slot : ℕ) (os : List Opening)
    → own_socket t caller sockid ≡ some slot
    → let (rc, t') = sock_close t caller sockid in
      (rc ≡ Status.ok) × (find_socket (open_all t' os) sockid ≡ none)
unfolding sock_close
sock_close-find_socket t caller sockid slot os o =
    let (at, named) = own_socket-slot t caller sockid slot o in
    let kept = open_all-SameGenerations os (shut t slot) slot ∙ shut-generation t slot in
    let differs : (open_all (shut t slot) os slot).generation ≢ sockid / 256 % u16 =
      rw (kept, named) (λ e. omega (arith, e)) in
    let stale : (open_all (shut t slot) os (sockid % 256)).generation ≢ sockid / 256 % u16 =
      subst (λ i. (open_all (shut t slot) os i).generation ≢ sockid / 256 % u16) at differs in
    rw (o, sock_close) (refl, find_socket-stale (open_all (shut t slot) os) sockid stale)
