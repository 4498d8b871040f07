-- ===== src/Socket/Tests.antt =====
-- The theorems about src/core/socket.c at concrete inputs: socket 0 of thread 4 listens, socket 1 of
-- thread 5 waits in its backlog; then they are connected.
use robu_microkernel.Base.{
  ℕ, ◌-◌, ◌^◌, ◌≤◌, List, ◌<◌, ◌≡◌, refl, ◌≢◌, true, false, [], ◌∷◌, ◌++◌, none, some, arith, ◌==◌,
  if◌then◌else◌, length, take, replicate,
}
use robu_microkernel.Status.{Status}
use robu_microkernel.Socket.{
  Socket, Sockets, SockState, find_socket, own_socket, is_connecting, backlog_max, sock_ring_size,
  free_slot, sock_create,
}
use robu_microkernel.Socket.Transfer.{
  accept_loop, sock_accept, sock_read, sock_write, live_peer, shut, sock_close,
}
use robu_microkernel.Socket.Stream.{contents, RingIsValid, lesser, sock_read_lem, sock_write_lem}
use robu_microkernel.Socket.Negative.{sock_write_negative}
use robu_microkernel.Socket.Backlog.{TakenFrom, pending, accept_loop_lem}
use robu_microkernel.Socket.Closed.{Opening, open_with, open_all, sock_close-find_socket}

abbrev unused : Socket
unused = record {
  in_use = false;
  generation = 0;
  state = SockState.unbound;
  owner_tid = 0;
  path = λ i. 0;
  has_path = false;
  backlog_slot = λ i. 0;
  backlog_gen = λ i. 0;
  backlog_head = 0;
  backlog_tail = 0;
  peer_idx = none;
  peer_gen = 0;
  peer_closed = false;
  ring = replicate sock_ring_size 0;
  ring_head = 0;
  ring_count = 0;
}

abbrev listener : Socket
listener = record unused {
  in_use = true;
  state = SockState.listening;
  owner_tid = 4;
  has_path = true;
  backlog_slot = λ i. 1;
  backlog_tail = 1;
}

abbrev client : Socket
client = record unused { in_use = true; state = SockState.connecting; owner_tid = 5 }

abbrev waiting : Sockets
waiting i = if i == 0 then listener else if i == 1 then client else unused

accept_loop_lem_example :
    let (found, t') = accept_loop 8 waiting 0 in
    (found ≡ none → (t' 0).backlog_head ≡ (t' 0).backlog_tail)
    × ((slot : ℕ)
        → found ≡ some slot
        → ((t' slot).in_use ≡ true) × (is_connecting (t' slot).state ≡ true) × TakenFrom t' 0 slot)
    × (((t' 0).backlog_slot ≡ (waiting 0).backlog_slot)
        × ((t' 0).backlog_gen ≡ (waiting 0).backlog_gen))
    × (((t' 0).backlog_head < backlog_max) × ((t' 0).backlog_tail < backlog_max))
    × (pending t' 0 ≤ 1)
accept_loop_lem_example = accept_loop_lem 8 waiting 0 (omega arith, omega arith) (omega arith)

accept_test : (sock_accept waiting 4 0).0 ≡ Status.ok
unfolding sock_accept accept_loop own_socket find_socket free_slot
accept_test = refl

-- Socket 1 holds three bytes and room for the rest; socket 2 is its peer.
abbrev talking : Sockets
talking i =
    if i == 1
    then record client {
      state = SockState.connected;
      peer_idx = some 2;
      ring = 7 ∷ 8 ∷ 9 ∷ replicate 4093 0;
      ring_count = 3;
    }
    else if i == 2
    then record unused {
      in_use = true;
      state = SockState.connected;
      owner_tid = 4;
      peer_idx = some 1;
    }
    else unused

find_1 : find_socket talking 1 ≡ some 1
unfolding find_socket
find_1 = refl

find_2 : find_socket talking 2 ≡ some 2
unfolding find_socket
find_2 = refl

peer_of_2 : live_peer talking (talking 2) ≡ some 1
unfolding live_peer
peer_of_2 = refl

talking-RingIsValid : RingIsValid (talking 1)
talking-RingIsValid = record {
  ring_length = refl;
  head_inside = omega arith;
  count_fits = omega arith;
}

sock_read_lem_example :
    let (rc, out, t') = sock_read talking 1 2 in
    (rc ≡ Status.ok)
    × (contents (talking 1) ≡ out ++ contents (t' 1))
    × (length out ≡ lesser 2 3)
    × RingIsValid (t' 1)
    × ((j : ℕ) → j ≢ 1 → t' j ≡ talking j)
sock_read_lem_example =
    sock_read_lem talking 1 2 1 find_1 refl (λ e. omega arith) talking-RingIsValid

sock_write_lem_example :
    let (rc, n, t') = sock_write talking 2 (4 ∷ 5 ∷ []) 2 in
    (rc ≡ Status.ok)
    × (n ≡ lesser 2 (4096 - 3))
    × (contents (t' 1) ≡ contents (talking 1) ++ take n (4 ∷ 5 ∷ []))
    × RingIsValid (t' 1)
    × ((j : ℕ) → j ≢ 1 → t' j ≡ talking j)
sock_write_lem_example =
    sock_write_lem talking 2 2 1 (4 ∷ 5 ∷ []) 2 (omega arith) (omega arith) find_2 refl peer_of_2
      talking-RingIsValid

own_2 : own_socket talking 4 2 ≡ some 2
unfolding own_socket find_socket
own_2 = refl

-- Slots 0, 2 and 3 are free: the second one takes the slot again.
abbrev opened_again : List Opening
opened_again = Opening.create 6 ∷ Opening.create 7 ∷ Opening.create 8 ∷ []

taken_again : (open_all (sock_close talking 4 2).1 opened_again 2).owner_tid ≡ 7
unfolding open_all open_with sock_close own_socket find_socket shut live_peer sock_create free_slot
taken_again = refl

sock_close-find_socket_example :
    let (rc, t') = sock_close talking 4 2 in
    (rc ≡ Status.ok) × (find_socket (open_all t' opened_again) 2 ≡ none)
sock_close-find_socket_example = sock_close-find_socket talking 4 2 2 opened_again own_2

-- The length -1: the peer has two bytes left of three.
sock_write_negative_example :
    let (rc, n, t') = sock_write talking 2 [] (2 ^ 32 - 1) in
    (rc ≡ Status.ok)
    × (n ≡ 2 ^ 32 - 1)
    × ((lost : List ℕ) × (length lost ≡ 1) × (contents (talking 1) ≡ contents (t' 1) ++ lost))
    × ((j : ℕ) → j ≢ 1 → t' j ≡ talking j)
sock_write_negative_example =
    sock_write_negative talking 2 2 1 [] 1 (omega arith) (omega arith) find_2 refl peer_of_2
      talking-RingIsValid
