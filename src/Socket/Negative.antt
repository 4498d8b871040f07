-- ===== src/Socket/Negative.antt =====
-- `sock_write` of src/core/socket.c with a negative length, which `sys_ipc` of src/core/ipc.c lets pass.
use robu_microkernel.Base.{
  ℕ, ◌+◌, ◌-◌, ◌%◌, ◌≤◌, ◌<◌, ◌≡◌, refl, ap, ◌∙◌, ◌≢◌, true, false, List, ◌++◌, some, arith, ltb,
  length, ==_refl, ne→==,
}
use robu_microkernel.Base.Words.{u32, add32, sub32, i32_min, slt32}
use robu_microkernel.Base.Chain.{upd}
use robu_microkernel.Base.Ring.{copy_out, copy_out_take, length-copy_out}
use robu_microkernel.Status.{Status}
use robu_microkernel.Socket.{Socket, Sockets, is_connected, sock_ring_size, find_socket}
use robu_microkernel.Socket.Transfer.{fill, live_peer, sock_write, write_loop}
use robu_microkernel.Socket.Stream.{contents, RingIsValid}

-- The peer's ring after it, and the number of bytes.
fill_negative :
    (peer : Socket) (buf : List ℕ) (k : ℕ)
    → 0 < k
    → k ≤ peer.ring_count
    → RingIsValid peer
    → fill peer buf (u32 - k) ≡ (u32 - k, record peer { ring_count = peer.ring_count - k })
unfolding fill write_loop
fill_negative peer buf k p h v =
    let c = peer.ring_count in
    let room : sub32 sock_ring_size c ≡ sock_ring_size - c = omega (arith, v.count_fits) in
    let signed : slt32 (u32 - k) (sock_ring_size - c) ≡ true = ground (arith, v.count_fits) in
    let negative : ltb (u32 - k) i32_min ≡ false = ground (arith, v.count_fits) in
    let count : add32 c (u32 - k) ≡ c - k = omega (arith, v.count_fits) in
    rw (room, signed, negative, count) refl

sock_write-fill :
    (t : Sockets) (sockid slot i : ℕ) (buf : List ℕ) (len : ℕ)
    → find_socket t sockid ≡ some slot
    → is_connected (t slot).state ≡ true
    → live_peer t (t slot) ≡ some i
    → sock_write t sockid buf len
      ≡ (Status.ok, (fill (t i) buf len).0, upd t i (fill (t i) buf len).1)
unfolding sock_write
sock_write-fill t sockid slot i buf len f c l = rw (f, c, l, sock_write) refl

-- A write of the length -k, for a k that is not 0, to a connected socket whose live peer has a valid ring
-- with at least k bytes succeeds and says that it wrote -k bytes. The peer loses its last k bytes, which it
-- has not read yet; no other socket changes.
pub sock_write_negative :
    (t : Sockets) (sockid slot i : ℕ) (buf : List ℕ) (k : ℕ)
    → 0 < k
    → k ≤ (t i).ring_count
    → find_socket t sockid ≡ some slot
    → is_connected (t slot).state ≡ true
    → live_peer t (t slot) ≡ some i
    → RingIsValid (t i)
    → let (rc, n, t') = sock_write t sockid buf (u32 - k) in
      (rc ≡ Status.ok)
      × (n ≡ u32 - k)
      × ((lost : List ℕ) × (length lost ≡ k) × (contents (t i) ≡ contents (t' i) ++ lost))
      × ((j : ℕ) → j ≢ i → t' j ≡ t j)
sock_write_negative t sockid slot i buf k p h f c l v =
    let m = (t i).ring_count in
    let left : m - (m - k) ≡ k = omega arith in
    let split = copy_out_take sock_ring_size (t i).ring (t i).ring_head m (m - k) (omega arith) in
    let after : sock_write t sockid buf (u32 - k)
        ≡ (Status.ok, u32 - k, upd t i (record (t i) { ring_count = m - k })) =
      sock_write-fill t sockid slot i buf (u32 - k) f c l
      ∙ ap (λ (x : ℕ × Socket). (Status.ok, x.0, upd t i x.1)) (fill_negative (t i) buf k p h v) in
    rw (after, ==_refl i)
      (
        refl,
        refl,
        (
          copy_out sock_ring_size (t i).ring (((t i).ring_head + (m - k)) % sock_ring_size) 0
              (m - (m - k)),
          length-copy_out sock_ring_size (t i).ring _ 0 (m - (m - k)) ∙ left,
          split,
        ),
        λ j ne. rw (ne→== j i ne) refl,
      )
