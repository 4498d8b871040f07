-- ===== src/Pipe.antt =====
-- src/core/pipe.c: a fixed pool of byte pipes. Each has a ring of bytes, a mask of the threads that
-- hold its read end, one for its write end, and a generation that makes old handles stale.
-- A function that writes through an `out` pointer returns that value; each returns the new pool.
pub mod Slots
pub mod Inv
pub mod Stream
pub mod Transfer
pub mod Holders
pub mod Handles
mod Tests
use Prim.Native.Nat.{bit_and, bit_or}
use robu_microkernel.Base.{
  ℕ, ◌+◌, ◌*◌, ◌/◌, ◌%◌, ◌^◌, Bool, true, false, ◌&&◌, ◌||◌, List, [], ◌∷◌, map, Option, none, some,
  ltb, ◌==◌, ◌!=◌, if◌then◌else◌, get_or, set, take, length, replicate,
}
use robu_microkernel.Base.Bits.{bit_not}
use robu_microkernel.Base.Words.{u32, add32, sub32}
use robu_microkernel.Base.Ring.{copy_out, copy_in}
use robu_microkernel.Status.{Status}

abbrev pub pool_size : ℕ
pool_size = 16

abbrev pub ring_size : ℕ
ring_size = 1024

abbrev pub chunk_max : ℕ
chunk_max = 32

-- `pipe_obj_t`
pub record Pipe : Type 0 where
  pub generation : ℕ
  pub readers_mask : ℕ
  pub writers_mask : ℕ
  pub head : ℕ
  pub count : ℕ
  pub ring : List ℕ

-- `pipe_pool`
abbrev pub Pool : Type 0
Pool = List Pipe

-- A zeroed entry; it stands for a read outside the pool, which `decode` excludes.
abbrev pub blank : Pipe
blank = record {
  generation = 0;
  readers_mask = 0;
  writers_mask = 0;
  head = 0;
  count = 0;
  ring = replicate ring_size 0;
}

-- `1ULL << tid`; the callers' thread ids are below 64.
abbrev pub bit_of : ℕ → ℕ
bit_of tid = 2 ^ tid

-- The slot and the generation of a handle.
unfoldable pub decode : ℕ → Option (ℕ × ℕ)
decode handle =
    let idx = handle % u32 in if ltb idx pool_size then some (idx, handle / u32 % u32) else none

unfoldable pub is_free : Pipe → Bool
is_free p = p.readers_mask == 0 && p.writers_mask == 0

-- A fresh pipe over the slot's old generation and ring.
abbrev pub opened : ℕ → Pipe → Pipe
opened creator p = record p {
  readers_mask = bit_of creator;
  writers_mask = bit_of creator;
  head = 0;
  count = 0;
}

-- The loop of `pipe_create` from slot `i` on: the handle of the first free slot.
unfoldable pub create_from : ℕ → ℕ → Pool → Option (ℕ × Pool)
create_from i creator [] = none
create_from i creator (p ∷ ps) = elim (is_free p) [
  | true ↦ some (bit_or (p.generation * u32) i, opened creator p ∷ ps)
  | false ↦ elim (create_from (i + 1) creator ps) [
    | none ↦ none
    | some (handle, ps') ↦ some (handle, p ∷ ps')
  ]
]

-- The result's number is `*out_handle`.
unfoldable pub create : Pool → ℕ → Status × ℕ × Pool
unfolding create_from
create pool creator = elim (create_from 0 creator pool) [
  | none ↦ (Status.no_mem, 0, pool)
  | some (handle, pool') ↦ (Status.ok, handle, pool')
]

-- `min(max, available)`, cut to a chunk.
abbrev pub chunk : ℕ → ℕ → ℕ
chunk len room =
    let n = if ltb len room then len else room in if ltb chunk_max n then chunk_max else n

-- The copying part of `pipe_read`.
unfoldable pub read_bytes : Pipe → ℕ → List ℕ × Pipe
read_bytes p max =
    let n = chunk max p.count in
    (
      copy_out ring_size p.ring p.head 0 n,
      record p { head = add32 p.head n % ring_size; count = sub32 p.count n },
    )

-- The list is `out[0..*out_len)`.
unfoldable pub read : Pool → ℕ → ℕ → Status × List ℕ × Pool
unfolding decode read_bytes
read pool handle max = elim (decode handle) [
  | none ↦ (Status.not_found, [], pool)
  | some (idx, gen) ↦
      let p = get_or pool idx blank in
      if p.generation != gen || is_free p
      then (Status.not_found, [], pool)
      else if p.count == 0
      then if p.writers_mask == 0 then (Status.not_found, [], pool) else (Status.ok, [], pool)
      else let (out, p') = read_bytes p max in (Status.ok, out, set pool idx p')
]

-- The copying part of `pipe_write`: how many bytes it takes, and the pipe with them.
unfoldable pub write_bytes : Pipe → List ℕ → ℕ × Pipe
write_bytes p input =
    let n = chunk (length input) (sub32 ring_size p.count) in
    (
      n,
      record p {
        ring = copy_in ring_size p.ring (add32 p.head p.count % ring_size) 0 (take n input);
        count = add32 p.count n;
      },
    )

-- `input` is `in[0..len)`; the number is `*out_len`.
unfoldable pub write : Pool → ℕ → List ℕ → Status × ℕ × Pool
unfolding decode write_bytes
write pool handle input = elim (decode handle) [
  | none ↦ (Status.not_found, 0, pool)
  | some (idx, gen) ↦
      let p = get_or pool idx blank in
      if p.generation != gen || is_free p
      then (Status.not_found, 0, pool)
      else if p.readers_mask == 0
      then (Status.not_found, 0, pool)
      else if sub32 ring_size p.count == 0
      then (Status.ok, 0, pool)
      else let (n, p') = write_bytes p input in (Status.ok, n, set pool idx p')
]

-- `mask & ~bit`
abbrev pub cleared : ℕ → ℕ → ℕ
cleared mask tid = bit_and mask (bit_not 64 (bit_of tid))

-- `mask | bit`
abbrev pub added : ℕ → ℕ → ℕ
added mask tid = bit_or mask (bit_of tid)

-- `if (pipe_is_free(p)) p->generation++`
abbrev pub retire : Pipe → Pipe
retire p = if is_free p then record p { generation = add32 p.generation 1 } else p

-- The caller's bit goes from one of the masks.
unfoldable pub drop_end : Pipe → ℕ → Bool → Pipe
drop_end p caller true = record p { writers_mask = cleared p.writers_mask caller }
drop_end p caller false = record p { readers_mask = cleared p.readers_mask caller }

unfoldable pub close : Pool → ℕ → ℕ → Bool → Status × Pool
unfolding decode
close pool caller handle is_write_end = elim (decode handle) [
  | none ↦ (Status.not_found, pool)
  | some (idx, gen) ↦
      let p = get_or pool idx blank in
      if p.generation != gen
      then (Status.not_found, pool)
      else (Status.ok, set pool idx (retire (drop_end p caller is_write_end)))
]

-- The thread's bit is set in one of the masks.
unfoldable pub hold_end : Pipe → ℕ → Bool → Pipe
hold_end p tid true = record p { writers_mask = added p.writers_mask tid }
hold_end p tid false = record p { readers_mask = added p.readers_mask tid }

-- The result `true` stands for 0, `false` for -1.
unfoldable pub add_holder : Pool → ℕ → ℕ → Bool → Bool × Pool
unfolding decode
add_holder pool tid handle is_write_end = elim (decode handle) [
  | none ↦ (false, pool)
  | some (idx, gen) ↦
      let p = get_or pool idx blank in
      if p.generation != gen
      then (false, pool)
      else (true, set pool idx (hold_end p tid is_write_end))
]

-- What `pipe_inherit_fork` does to one pipe.
unfoldable pub inherit : ℕ → ℕ → Pipe → Pipe
inherit parent child p = record p {
  readers_mask =
      if bit_and p.readers_mask (bit_of parent) != 0
      then added p.readers_mask child
      else p.readers_mask;
  writers_mask =
      if bit_and p.writers_mask (bit_of parent) != 0
      then added p.writers_mask child
      else p.writers_mask;
}

unfoldable pub inherit_fork : Pool → ℕ → ℕ → Pool
unfolding inherit
inherit_fork pool parent child = map (inherit parent child) pool

-- What `pipe_invalidate_tcb_death` does to one pipe.
unfoldable pub bury : ℕ → Pipe → Pipe
bury tid p =
    if bit_and (bit_or p.readers_mask p.writers_mask) (bit_of tid) != 0
    then retire (record p {
      readers_mask = cleared p.readers_mask tid;
      writers_mask = cleared p.writers_mask tid;
    })
    else p

unfoldable pub invalidate_tcb_death : Pool → ℕ → Pool
unfolding bury
invalidate_tcb_death pool tid = map (bury tid) pool

-- One call of the component.
pub data Call : Type 0 where
  creates : ℕ → Call
  reads : ℕ → ℕ → Call
  writes : ℕ → List ℕ → Call
  closes : ℕ → ℕ → Bool → Call
  adds_holder : ℕ → ℕ → Bool → Call
  forks : ℕ → ℕ → Call
  dies : ℕ → Call

-- The pool after a call.
unfoldable pub step : Pool → Call → Pool
step pool (creates tid) = (create pool tid).2
step pool (reads handle max) = (read pool handle max).2
step pool (writes handle input) = (write pool handle input).2
step pool (closes tid handle end) = (close pool tid handle end).1
step pool (adds_holder tid handle end) = (add_holder pool tid handle end).1
step pool (forks parent child) = inherit_fork pool parent child
step pool (dies tid) = invalidate_tcb_death pool tid

unfoldable pub run : Pool → List Call → Pool
unfolding step
run pool [] = pool
run pool (c ∷ cs) = run (step pool c) cs

-- The pool at boot.
abbrev pub boot : Pool
boot = replicate pool_size blank
