-- ===== src/Socket.antt =====
-- src/core/socket.c: a fixed table of local stream sockets. A socket id is a slot with the slot's
-- generation; a connected socket reads from its own ring and writes into its peer's.
-- The table and the arrays of a socket are functions of the index. Thread ids and the length of a
-- read are not negative here, the length of a write is a word of 32 bits; `peer_idx` is `none` for -1.
pub mod Transfer
pub mod Stream
pub mod Negative
pub mod Accept
pub mod Closed
pub mod Backlog
pub mod Peers
mod Tests
use Prim.Native.Nat.{bit_or}
use robu_microkernel.Base.{
  ℕ, zero, suc, ◌+◌, ◌-◌, ◌*◌, ◌/◌, ◌%◌, ◌^◌, Bool, true, false, not, ◌&&◌, ◌||◌, List, [], ◌∷◌,
  Option, none, some, ltb, ◌==◌, ◌!=◌, if◌then◌else◌, get_or, set, take, length, replicate,
}
use robu_microkernel.Base.Words.{u16, add32, sub32}
use robu_microkernel.Base.Chain.{upd}
use robu_microkernel.Status.{Status}

abbrev pub max_sockets : ℕ
max_sockets = 32

abbrev pub backlog_max : ℕ
backlog_max = 8

abbrev pub sock_ring_size : ℕ
sock_ring_size = 4096

abbrev pub path_max : ℕ
path_max = 32

-- `sock_state_t`
pub data SockState : Type 0 where
  unbound listening connecting connected : SockState

abbrev pub is_unbound : SockState → Bool
is_unbound SockState.unbound = true
is_unbound _ = false

abbrev pub is_listening : SockState → Bool
is_listening SockState.listening = true
is_listening _ = false

abbrev pub is_connecting : SockState → Bool
is_connecting SockState.connecting = true
is_connecting _ = false

abbrev pub is_connected : SockState → Bool
is_connected SockState.connected = true
is_connected _ = false

-- `socket_t`
pub record Socket : Type 0 where
  pub in_use : Bool
  pub generation : ℕ
  pub state : SockState
  pub owner_tid : ℕ
  pub path : ℕ → ℕ
  pub has_path : Bool
  pub backlog_slot : ℕ → ℕ
  pub backlog_gen : ℕ → ℕ
  pub backlog_head : ℕ
  pub backlog_tail : ℕ
  pub peer_idx : Option ℕ
  pub peer_gen : ℕ
  pub peer_closed : Bool
  pub ring : List ℕ
  pub ring_head : ℕ
  pub ring_count : ℕ

-- `sockets`
abbrev pub Sockets : Type 0
Sockets = ℕ → Socket

-- The loop of `path_eq` from index `i` on, with `n` bytes left.
unfoldable pub path_eq_from : ℕ → ℕ → (ℕ → ℕ) → (ℕ → ℕ) → Bool
path_eq_from zero i a b = true
path_eq_from (suc n) i a b =
    let rest = path_eq_from n (i + 1) a b in
    if a i != b i then false else if a i == 0 then true else rest

abbrev pub path_eq : (ℕ → ℕ) → (ℕ → ℕ) → Bool
path_eq a b = path_eq_from path_max 0 a b

abbrev pub make_sockid : ℕ → ℕ → ℕ
make_sockid slot generation = bit_or slot (generation * 256)

-- The slot of the socket that an id names.
unfoldable pub find_socket : Sockets → ℕ → Option ℕ
find_socket t sockid =
    let slot = sockid % 256 in
    if not (ltb slot max_sockets)
    then none
    else if not (t slot).in_use || (t slot).generation != sockid / 256 % u16
    then none
    else some slot

-- The loop that looks for a free slot, from slot `i` on with `n` slots left.
unfoldable pub free_slot : ℕ → ℕ → Sockets → Option ℕ
free_slot zero i t = none
free_slot (suc n) i t =
    let rest = free_slot n (i + 1) t in if not (t i).in_use then some i else rest

-- The number is `*out_id`.
unfoldable pub sock_create : Sockets → ℕ → Status × ℕ × Sockets
unfolding free_slot
sock_create t caller = elim (free_slot max_sockets 0 t) [
  | none ↦ (Status.no_space, 0, t)
  | some slot ↦
      let s = record (t slot) {
        in_use = true;
        state = SockState.unbound;
        owner_tid = caller;
        has_path = false;
        backlog_head = 0;
        backlog_tail = 0;
        peer_idx = none;
        peer_closed = false;
        ring_head = 0;
        ring_count = 0;
      } in
      (Status.ok, make_sockid slot s.generation, upd t slot s)
]

-- The socket of an id, if it belongs to the caller.
unfoldable pub own_socket : Sockets → ℕ → ℕ → Option ℕ
unfolding find_socket
own_socket t caller sockid = elim (find_socket t sockid) [
  | none ↦ none
  | some slot ↦ if (t slot).owner_tid != caller then none else some slot
]

-- Does a socket from slot `i` on have the path?
unfoldable pub path_taken : ℕ → ℕ → Sockets → (ℕ → ℕ) → Bool
path_taken zero i t p = false
path_taken (suc n) i t p =
    let rest = path_taken n (i + 1) t p in
    if (t i).in_use && (t i).has_path && path_eq (t i).path p then true else rest

-- The copy of the path up to its end, from index `i` on.
unfoldable pub copy_path : ℕ → ℕ → (ℕ → ℕ) → (ℕ → ℕ) → ℕ → ℕ
copy_path zero i dst src = dst
copy_path (suc n) i dst src =
    let rest = copy_path n (i + 1) (upd dst i (src i)) src in
    if src i == 0 then upd dst i (src i) else rest

unfoldable pub sock_bind : Sockets → ℕ → ℕ → (ℕ → ℕ) → Status × Sockets
unfolding own_socket path_taken copy_path
sock_bind t caller sockid p = elim (own_socket t caller sockid) [
  | none ↦ (Status.not_found, t)
  | some slot ↦
      let s = t slot in
      if not (is_unbound s.state)
      then (Status.invalid, t)
      else if path_taken max_sockets 0 t p
      then (Status.exists, t)
      else let stored = upd (copy_path path_max 0 s.path p) (path_max - 1) 0 in
        (Status.ok, upd t slot (record s { path = stored; has_path = true }))
]

unfoldable pub sock_listen : Sockets → ℕ → ℕ → Status × Sockets
unfolding own_socket
sock_listen t caller sockid = elim (own_socket t caller sockid) [
  | none ↦ (Status.not_found, t)
  | some slot ↦
      let s = t slot in
      if not s.has_path || not (is_unbound s.state) then (Status.invalid, t) else (
        Status.ok,
        upd t slot (record s { state = SockState.listening; backlog_head = 0; backlog_tail = 0 }),
      )
]

-- The first socket from slot `i` on that listens at the path.
unfoldable pub find_listener : ℕ → ℕ → Sockets → (ℕ → ℕ) → Option ℕ
find_listener zero i t p = none
find_listener (suc n) i t p =
    let rest = find_listener n (i + 1) t p in
    if (t i).in_use && is_listening (t i).state && (t i).has_path && path_eq (t i).path p
    then some i
    else rest

-- The part of `sock_connect` that puts the caller's socket into the listener's backlog.
unfoldable pub enqueue_client : Sockets → ℕ → ℕ → Status × Sockets
enqueue_client t slot l =
    let listener = t l in
    let next = (listener.backlog_tail + 1) % backlog_max in
    if next == listener.backlog_head
    then (Status.no_space, t)
    else let t1 = upd t l (record listener {
      backlog_slot = upd listener.backlog_slot listener.backlog_tail slot;
      backlog_gen = upd listener.backlog_gen listener.backlog_tail (t slot).generation;
      backlog_tail = next;
    }) in
      (
        Status.would_block,
        upd t1 slot (record (t1 slot) { state = SockState.connecting; peer_idx = none }),
      )

unfoldable pub sock_connect : Sockets → ℕ → ℕ → (ℕ → ℕ) → Status × Sockets
unfolding own_socket find_listener enqueue_client
sock_connect t caller sockid p = elim (own_socket t caller sockid) [
  | none ↦ (Status.not_found, t)
  | some slot ↦
      let s = t slot in
      let queued : Status × Sockets = elim (find_listener max_sockets 0 t p) [
        | none ↦ (Status.not_found, t)
        | some l ↦ enqueue_client t slot l
      ] in
      let waiting : Status = elim s.peer_idx [ none ↦ Status.would_block | some i ↦ Status.ok ] in
      if is_connected s.state
      then (Status.ok, t)
      else if is_connecting s.state
      then (waiting, t)
      else if not (is_unbound s.state)
      then (Status.invalid, t)
      else queued
]
