-- ===== src/Socket/Transfer.antt =====
-- Accepting, reading, writing and closing.
use robu_microkernel.Base.{
  ℕ, zero, suc, ◌+◌, ◌-◌, ◌%◌, true, false, not, ◌&&◌, ◌||◌, List, [], ◌∷◌, Option, none, some, ltb,
  ◌==◌, ◌!=◌, if◌then◌else◌, get_or, set, take,
}
use robu_microkernel.Base.Words.{u16, add32, sub32, i32_min, slt32}
use robu_microkernel.Base.Chain.{upd}
use robu_microkernel.Status.{Status}
use robu_microkernel.Socket.{
  Socket, Sockets, SockState, is_listening, is_connecting, is_connected, max_sockets, backlog_max,
  sock_ring_size, find_socket, own_socket, free_slot, make_sockid,
}

-- The loop over the backlog of the listener in slot `l`, on fuel: the first client that still waits.
-- A round for each entry is enough.
unfoldable pub accept_loop : ℕ → Sockets → ℕ → Option ℕ × Sockets
accept_loop zero t l = (none, t)
accept_loop (suc fuel) t l =
    let s = t l in
    let slot = s.backlog_slot s.backlog_head in
    let gen = s.backlog_gen s.backlog_head in
    let t1 = upd t l (record s { backlog_head = (s.backlog_head + 1) % backlog_max }) in
    let rest = accept_loop fuel t1 l in
    if s.backlog_head == s.backlog_tail
    then (none, t)
    else if (t1 slot).in_use && (t1 slot).generation == gen && is_connecting (t1 slot).state
    then (some slot, t1)
    else rest

-- The server's end of a connection, in a free slot.
abbrev pub server_end : Sockets → ℕ → ℕ → ℕ → Socket
server_end t caller slot client = record (t slot) {
  in_use = true;
  state = SockState.connected;
  owner_tid = caller;
  has_path = false;
  peer_closed = false;
  ring_head = 0;
  ring_count = 0;
  peer_idx = some client;
  peer_gen = (t client).generation;
}

abbrev pub join : Sockets → ℕ → ℕ → ℕ → Sockets
join t caller slot client =
    let t1 = upd t slot (server_end t caller slot client) in
    upd t1 client (record (t1 client) {
      peer_idx = some slot;
      peer_gen = (t1 slot).generation;
      state = SockState.connected;
    })

-- The number is `*out_new_id`.
unfoldable pub sock_accept : Sockets → ℕ → ℕ → Status × ℕ × Sockets
unfolding own_socket accept_loop free_slot
sock_accept t caller sockid = elim (own_socket t caller sockid) [
  | none ↦ (Status.not_found, 0, t)
  | some l ↦
      let (found, t1) = accept_loop backlog_max t l in
      let accepted : Status × ℕ × Sockets = elim found [
        | none ↦ (Status.would_block, 0, t1)
        | some client ↦ elim (free_slot max_sockets 0 t1) [
          | none ↦ (Status.no_space, 0, t1)
          | some slot ↦
              (Status.ok, make_sockid slot (t1 slot).generation, join t1 caller slot client)
        ]
      ] in
      if not (is_listening (t l).state) then (Status.invalid, 0, t) else accepted
]

-- The loop of `sock_read`, with `n` bytes wanted.
unfoldable pub read_loop : ℕ → Socket → List ℕ × Socket
read_loop zero s = ([], s)
read_loop (suc n) s =
    let (out, s') = read_loop n (record s {
      ring_head = (s.ring_head + 1) % sock_ring_size;
      ring_count = s.ring_count - 1;
    }) in
    if s.ring_count == 0 then ([], s) else (get_or s.ring s.ring_head 0 ∷ out, s')

-- The list is `out[0..*out_n)`.
unfoldable pub sock_read : Sockets → ℕ → ℕ → Status × List ℕ × Sockets
unfolding find_socket read_loop
sock_read t sockid max = elim (find_socket t sockid) [
  | none ↦ (Status.not_found, [], t)
  | some slot ↦
      let s = t slot in
      if not (is_connected s.state)
      then (Status.invalid, [], t)
      else if s.ring_count == 0
      then (if s.peer_closed then Status.ok else Status.would_block, [], t)
      else let (out, s') = read_loop max s in (Status.ok, out, upd t slot s')
]

-- The loop of `sock_write` over the bytes that fit, with the index of the next cell.
unfoldable pub write_loop : List ℕ → List ℕ → ℕ → List ℕ
write_loop [] ring tail = ring
write_loop (b ∷ bs) ring tail = write_loop bs (set ring tail b) ((tail + 1) % sock_ring_size)

-- The part of `sock_write` that fills the peer's ring: how many bytes it took, and the peer. The length,
-- the room and the number are of type int, as words of 32 bits; no byte is written for a negative one.
unfoldable pub fill : Socket → List ℕ → ℕ → ℕ × Socket
unfolding write_loop
fill peer buf len =
    let space = sub32 sock_ring_size peer.ring_count in
    let n = if slt32 len space then len else space in
    let rounds = if ltb n i32_min then n else 0 in
    let tail = add32 peer.ring_head peer.ring_count % sock_ring_size in
    (
      n,
      record peer {
        ring = write_loop (take rounds buf) peer.ring tail;
        ring_count = add32 peer.ring_count n;
      },
    )

-- The peer of a socket, if it is still the socket that was connected.
unfoldable pub live_peer : Sockets → Socket → Option ℕ
live_peer t s = elim s.peer_idx [
  | none ↦ none
  | some i ↦ if not (t i).in_use || (t i).generation != s.peer_gen then none else some i
]

-- `len` and the number, which is `*out_n`, are words of 32 bits; `buf` has the bytes of the buffer.
unfoldable pub sock_write : Sockets → ℕ → List ℕ → ℕ → Status × ℕ × Sockets
unfolding find_socket live_peer fill
sock_write t sockid buf len = elim (find_socket t sockid) [
  | none ↦ (Status.not_found, 0, t)
  | some slot ↦
      let s = t slot in
      let written : Status × ℕ × Sockets = elim (live_peer t s) [
        | none ↦ (Status.not_found, 0, t)
        | some i ↦ let (n, peer) = fill (t i) buf len in (Status.ok, n, upd t i peer)
      ] in
      if not (is_connected s.state) then (Status.invalid, 0, t) else written
]

-- The part of `sock_close` and of `sock_cleanup_for_process` that tells the peer and frees the slot.
unfoldable pub shut : Sockets → ℕ → Sockets
unfolding live_peer
shut t slot =
    let s = t slot in
    let told : Sockets = elim (live_peer t s) [
      | none ↦ t
      | some i ↦ upd t i (record (t i) { peer_closed = true })
    ] in
    let t1 = if is_connected s.state then told else t in
    upd t1 slot (record (t1 slot) { in_use = false; generation = ((t1 slot).generation + 1) % u16 })

unfoldable pub sock_close : Sockets → ℕ → ℕ → Status × Sockets
unfolding own_socket shut
sock_close t caller sockid = elim (own_socket t caller sockid) [
  | none ↦ (Status.not_found, t)
  | some slot ↦ (Status.ok, shut t slot)
]

-- The loop from slot `i` on with `n` slots left.
unfoldable pub cleanup_from : ℕ → ℕ → Sockets → ℕ → Sockets
cleanup_from zero i t tid = t
cleanup_from (suc n) i t tid =
    let t1 = if not (t i).in_use || (t i).owner_tid != tid then t else shut t i in
    cleanup_from n (i + 1) t1 tid

unfoldable pub sock_cleanup_for_process : Sockets → ℕ → Sockets
unfolding cleanup_from
sock_cleanup_for_process t tid = cleanup_from max_sockets 0 t tid
