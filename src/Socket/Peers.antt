-- ===== src/Socket/Peers.antt =====
-- Accepting: what it does to the two ends.
use robu_microkernel.Base.{
  ℕ, ◌≡◌, refl, sym, ap, ◌∙◌, ◌≢◌, true, false, some, arith, ==_refl, ne→==,
}
use robu_microkernel.Socket.{Socket, Sockets, SockState, is_connected}
use robu_microkernel.Socket.Transfer.{join, server_end, live_peer}

-- The two ends know each other, by slot and generation, and both are connected.
abbrev pub Joined : Sockets → ℕ → ℕ → Type 0
Joined t a b =
    (live_peer t (t a) ≡ some b)
    × (live_peer t (t b) ≡ some a)
    × (is_connected (t a).state ≡ true)
    × (is_connected (t b).state ≡ true)

live_peer-found :
    (t : Sockets) (s : Socket) (i : ℕ)
    → s.peer_idx ≡ some i
    → (t i).in_use ≡ true
    → (t i).generation ≡ s.peer_gen
    → live_peer t s ≡ some i
unfolding live_peer
live_peer-found t s i p u g = rw (p, u, g) (ground arith)

-- After an accept in a free slot the new socket and the client are each other's live peers, and
-- all other sockets are as before.
pub join-Joined :
    (t : Sockets) (caller slot client : ℕ)
    → (t slot).in_use ≡ false
    → (t client).in_use ≡ true
    → Joined (join t caller slot client) slot client
      × ((j : ℕ) → j ≢ slot → j ≢ client → join t caller slot client j ≡ t j)
join-Joined t caller slot client f u =
    let differ : client ≢ slot = λ e. ground (arith, ap (λ i. (t i).in_use) e) in
    let t' = join t caller slot client in
    let c : t' client ≡ record (t client) {
      peer_idx = some slot;
      peer_gen = (t slot).generation;
      state = SockState.connected;
    } =
      rw (==_refl client, ==_refl slot, ne→== client slot differ) refl in
    let s : t' slot ≡ server_end t caller slot client =
      rw (ne→== slot client (λ e. differ (sym e)), ==_refl slot) refl in
    (
      (
        live_peer-found t' (t' slot) client (ap Socket.peer_idx s) (ap Socket.in_use c ∙ u)
            (ap Socket.generation c ∙ sym (ap Socket.peer_gen s)),
        live_peer-found t' (t' client) slot (ap Socket.peer_idx c) (ap Socket.in_use s)
            (ap Socket.generation s ∙ sym (ap Socket.peer_gen c)),
        ap (λ r. is_connected (Socket.state r)) s,
        ap (λ r. is_connected (Socket.state r)) c,
      ),
      λ j n n'. rw (ne→== j client n', ne→== j slot n) refl,
    )
