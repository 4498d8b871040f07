-- ===== src/Socket/Stream.antt =====
-- The bytes that travel through a connection.

use robu_microkernel.Base.{
  ℕ, zero, suc, ◌+◌, ◌-◌, ◌%◌, ◌≤◌, ◌<◌, ◌≡◌, refl, ap, ◌∙◌, ◌≢◌, true, List, [], ◌∷◌, ◌++◌, some,
  arith, ltb, ◌==◌, if◌then◌else◌, get_or, set, take, length, Bool-cases, inl, inr, ==_refl, ne→==,
  length-take,
}
use robu_microkernel.Base.Words.{add32, sub32, i32_min, slt32}
use robu_microkernel.Base.Ring.{copy_out, copy_in, copy_out_take, copy_out_put, length-copy_in}
use robu_microkernel.Status.{Status}
use robu_microkernel.Socket.{Socket, Sockets, is_connected, sock_ring_size, find_socket}
use robu_microkernel.Socket.Transfer.{read_loop, sock_read, write_loop, fill, live_peer, sock_write}

-- The bytes in a socket's ring, the oldest first.
abbrev pub contents : Socket → List ℕ
contents s = copy_out sock_ring_size s.ring s.ring_head 0 s.ring_count

pub record RingIsValid (s : Socket) : Type 0 where
  pub ring_length : length s.ring ≡ sock_ring_size
  pub head_inside : s.ring_head < sock_ring_size
  pub count_fits : s.ring_count ≤ sock_ring_size

abbrev pub lesser : ℕ → ℕ → ℕ
lesser a b = if ltb a b then a else b

-- One round of the loop of `sock_read`.
abbrev advanced : Socket → Socket
advanced s = record s {
  ring_head = (s.ring_head + 1) % sock_ring_size;
  ring_count = s.ring_count - 1;
}

advanced-RingIsValid : (s : Socket) → RingIsValid s → RingIsValid (advanced s)
advanced-RingIsValid s v = record {
  ring_length = v.ring_length;
  head_inside = omega arith;
  count_fits = omega (arith, v.count_fits);
}

contents-advanced :
    (s : Socket)
    → RingIsValid s
    → s.ring_count ≢ 0
    → contents s ≡ get_or s.ring s.ring_head 0 ∷ contents (advanced s)
contents-advanced s v n =
    let first : (s.ring_head + 0) % sock_ring_size ≡ s.ring_head = omega (arith, v.head_inside) in
    copy_out_take sock_ring_size s.ring s.ring_head s.ring_count 1 (omega arith)
    ∙ ap (λ k. get_or s.ring k 0 ∷ contents (advanced s)) first

pub read_loop_lem :
    (n : ℕ) (s : Socket)
    → RingIsValid s
    → let (out, s') = read_loop n s in
      (contents s ≡ out ++ contents s') × (length out ≡ lesser n s.ring_count) × RingIsValid s'
unfolding read_loop
read_loop_lem zero s v = (refl, ground arith, v)
read_loop_lem (suc n) s v = elim (Bool-cases (s.ring_count == 0)) [
  | inl e ↦ rw e (refl, ground arith, v)
  | inr e ↦
      let nonzero : s.ring_count ≢ 0 = ground arith in
      let (a, b, c) = read_loop_lem n (advanced s) (advanced-RingIsValid s v) in
      rw e (
        contents-advanced s v nonzero ∙ ap (◌∷◌ (get_or s.ring s.ring_head 0)) a,
        ground (arith, b),
        c,
      )
]

-- A read of a connected socket whose ring holds bytes takes as many of the oldest ones as are
-- wanted and there, leaves the rest in order, and touches no other socket.
pub sock_read_lem :
    (t : Sockets) (sockid max slot : ℕ)
    → find_socket t sockid ≡ some slot
    → is_connected (t slot).state ≡ true
    → (t slot).ring_count ≢ 0
    → RingIsValid (t slot)
    → let (rc, out, t') = sock_read t sockid max in
      (rc ≡ Status.ok)
      × (contents (t slot) ≡ out ++ contents (t' slot))
      × (length out ≡ lesser max (t slot).ring_count)
      × RingIsValid (t' slot)
      × ((j : ℕ) → j ≢ slot → t' j ≡ t j)
unfolding sock_read
sock_read_lem t sockid max slot f c n v =
    let (a, b, w) = read_loop_lem max (t slot) v in
    rw (f, c, ne→== (t slot).ring_count 0 n, ==_refl slot, sock_read)
      (refl, a, b, w, λ j ne. rw (ne→== j slot ne) refl)

-- The loop of `sock_write` fills the ring from the tail on.
write_loop-copy_in :
    (bs ring : List ℕ) (h i : ℕ)
    → write_loop bs ring ((h + i) % sock_ring_size) ≡ copy_in sock_ring_size ring h i bs
unfolding write_loop
write_loop-copy_in [] ring h i = refl
write_loop-copy_in (b ∷ bs) ring h i =
    let e : ((h + i) % sock_ring_size + 1) % sock_ring_size ≡ (h + (i + 1)) % sock_ring_size =
      omega arith in
    rw e (write_loop-copy_in bs (set ring ((h + i) % sock_ring_size) b) h (i + 1))

pub fill_lem :
    (peer : Socket) (buf : List ℕ) (len : ℕ)
    → len ≤ length buf
    → len < i32_min
    → RingIsValid peer
    → let (n, peer') = fill peer buf len in
      (n ≡ lesser len (sock_ring_size - peer.ring_count))
      × (contents peer' ≡ contents peer ++ take n buf)
      × RingIsValid peer'
unfolding fill
fill_lem peer buf len b p v =
    let c = peer.ring_count in
    let room : sub32 sock_ring_size c ≡ sock_ring_size - c = omega (arith, v.count_fits) in
    let n = lesser len (sock_ring_size - c) in
    let a_sum : add32 len i32_min ≡ len + i32_min = omega (arith, p) in
    let b_sum : add32 (sock_ring_size - c) i32_min ≡ sock_ring_size - c + i32_min = omega arith in
    let signed : slt32 len (sock_ring_size - c) ≡ ltb len (sock_ring_size - c) =
      rw (a_sum, b_sum) (ground arith) in
    let positive : ltb n i32_min ≡ true = ground (arith, p) in
    let count : add32 c n ≡ c + n = ground (arith, v.count_fits) in
    let sum : add32 peer.ring_head c % sock_ring_size
        ≡ ((peer.ring_head + c) % sock_ring_size + 0) % sock_ring_size =
      omega (arith, v.count_fits, v.head_inside) in
    let taken : length (take n buf) ≡ n = ground (arith, length-take n buf) in
    let fits : c + length (take n buf) ≤ sock_ring_size = ground (arith, v.count_fits) in
    let h = peer.ring_head in
    let put =
      copy_out_put sock_ring_size (take n buf) peer.ring h c (omega (arith, v.ring_length))
        (omega arith) fits in
    rw
      (
        room,
        signed,
        positive,
        count,
        sum,
        write_loop-copy_in (take n buf) peer.ring ((h + c) % sock_ring_size) 0,
      )
      (
        refl,
        rw taken at put,
        record {
          ring_length = length-copy_in sock_ring_size peer.ring _ 0 (take n buf) ∙ v.ring_length;
          head_inside = v.head_inside;
          count_fits = ground arith;
        },
      )

-- A write of `len` bytes of a buffer, `len` not being negative, to a connected socket whose live peer has
-- a valid ring appends as many of the bytes as the peer's ring has room for to the peer's ring, says
-- how many, and touches no other socket.
pub sock_write_lem :
    (t : Sockets) (sockid slot i : ℕ) (buf : List ℕ) (len : ℕ)
    → len ≤ length buf
    → len < i32_min
    → find_socket t sockid ≡ some slot
    → is_connected (t slot).state ≡ true
    → live_peer t (t slot) ≡ some i
    → RingIsValid (t i)
    → let (rc, n, t') = sock_write t sockid buf len in
      (rc ≡ Status.ok)
      × (n ≡ lesser len (sock_ring_size - (t i).ring_count))
      × (contents (t' i) ≡ contents (t i) ++ take n buf)
      × RingIsValid (t' i)
      × ((j : ℕ) → j ≢ i → t' j ≡ t j)
unfolding sock_write
sock_write_lem t sockid slot i buf len h k f c p v =
    let (a, b, w) = fill_lem (t i) buf len h k v in
    rw (f, c, p, ==_refl i, sock_write) (refl, a, b, w, λ j ne. rw (ne→== j i ne) refl)
