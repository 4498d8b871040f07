-- ===== src/Pipe/Inv.antt =====
-- The representation invariant of src/core/pipe.c, and that every function keeps it.
use robu_microkernel.Base.{
  ℕ, ◌%◌, ◌≤◌, ◌<◌, ◌^◌, ◌≡◌, Bool, true, false, List, [], ◌∷◌, map, arith, inl, inr, length,
  get_or, set, take, All, All-get_or, All-set, All-map, All-replicate, length-replicate, length-set,
  length-map,
}
use robu_microkernel.Base.Bits.{bit_and-lt, bit_or-lt, bit_not, pow-lt-pow}
use robu_microkernel.Base.Words.{u32, add32}
use robu_microkernel.Base.Ring.{length-copy_in}
use robu_microkernel.Pipe.Slots.{create_from-Created}
use robu_microkernel.Pipe.{
  Pipe, Pool, Call, creates, reads, writes, closes, adds_holder, forks, dies, pool_size, ring_size,
  blank, bit_of, opened, create, read_bytes, read, write_bytes, write, cleared, added, retire,
  drop_end, hold_end, close, add_holder, inherit, inherit_fork, bury, invalidate_tcb_death, step,
  run, boot, is_free,
}

pub record IsValid (p : Pipe) : Type 0 where
  pub generation_fits : p.generation < u32
  pub readers_fit : p.readers_mask < 2 ^ 64
  pub writers_fit : p.writers_mask < 2 ^ 64
  pub head_in : p.head < ring_size
  pub count_in : p.count ≤ ring_size
  pub storage : length p.ring ≡ ring_size

-- The pool has its sixteen pipes, all valid.
abbrev pub PoolIsValid : Pool → Type 0
PoolIsValid pool = (length pool ≡ pool_size) × All IsValid pool

blank-IsValid : IsValid blank
blank-IsValid = omega arith

pub at-IsValid : (pool : Pool) (idx : ℕ) → PoolIsValid pool → IsValid (get_or pool idx blank)
at-IsValid pool idx v = All-get_or IsValid pool idx blank v.1 blank-IsValid

set-PoolIsValid :
    (pool : Pool) (idx : ℕ) (p : Pipe) → PoolIsValid pool → IsValid p → PoolIsValid (set pool idx p)
set-PoolIsValid pool idx p v q = (rw (length-set pool idx p) v.0, All-set IsValid pool idx p v.1 q)

map-PoolIsValid :
    (f : Pipe → Pipe) (pool : Pool)
    → ((p : Pipe) → IsValid p → IsValid (f p))
    → PoolIsValid pool
    → PoolIsValid (map f pool)
map-PoolIsValid f pool k v = (rw (length-map f pool) v.0, All-map IsValid f pool k v.1)

pub bit_of-lt : (tid : ℕ) → tid < 64 → bit_of tid < 2 ^ 64
bit_of-lt tid h = pow-lt-pow tid 64 h

cleared-lt : (m tid : ℕ) → m < 2 ^ 64 → cleared m tid < 2 ^ 64
cleared-lt m tid h = bit_and-lt 64 m (bit_not 64 (bit_of tid)) h

added-lt : (m tid : ℕ) → m < 2 ^ 64 → tid < 64 → added m tid < 2 ^ 64
added-lt m tid h t = bit_or-lt 64 m (bit_of tid) h (bit_of-lt tid t)

opened-IsValid : (tid : ℕ) (p : Pipe) → tid < 64 → IsValid p → IsValid (opened tid p)
opened-IsValid tid p t v = omega (arith, bit_of-lt tid t)

pub read_bytes-IsValid : (p : Pipe) (max : ℕ) → IsValid p → IsValid (read_bytes p max).1
unfolding read_bytes
read_bytes-IsValid p max v = ground arith

pub write_bytes-IsValid : (p : Pipe) (input : List ℕ) → IsValid p → IsValid (write_bytes p input).1
unfolding write_bytes
write_bytes-IsValid p input v = ground (
  arith,
  length-copy_in ring_size p.ring (add32 p.head p.count % ring_size) 0
      (take (write_bytes p input).0 input),
)

retire-IsValid : (p : Pipe) → IsValid p → IsValid (retire p)
unfolding is_free
retire-IsValid p v = ground arith

pub inherit-IsValid :
    (parent child : ℕ) → child < 64 → (p : Pipe) → IsValid p → IsValid (inherit parent child p)
unfolding inherit
inherit-IsValid parent child h p v = ground (
  arith,
  added-lt p.readers_mask child v.readers_fit h,
  added-lt p.writers_mask child v.writers_fit h,
)

pub bury-IsValid : (tid : ℕ) (p : Pipe) → IsValid p → IsValid (bury tid p)
unfolding bury is_free
bury-IsValid tid p v = ground (
  arith,
  cleared-lt p.readers_mask tid v.readers_fit,
  cleared-lt p.writers_mask tid v.writers_fit,
)

create-PoolIsValid :
    (pool : Pool) (tid : ℕ) → tid < 64 → PoolIsValid pool → PoolIsValid (create pool tid).2
unfolding create
create-PoolIsValid pool tid t v = elim (create_from-Created 0 tid pool) [
  | inl (b, n) ↦ rw (n, create) v
  | inr (j, f, n) ↦
      rw (n, create)
        (set-PoolIsValid pool j _ v
          (opened-IsValid tid (get_or pool j blank) t (at-IsValid pool j v)))
]

read-PoolIsValid :
    (pool : Pool) (handle max : ℕ) → PoolIsValid pool → PoolIsValid (read pool handle max).2
unfolding read
read-PoolIsValid pool handle max v =
    let idx = handle % u32 in
    let p = get_or pool idx blank in
    ground (
      arith,
      set-PoolIsValid pool idx (read_bytes p max).1 v
          (read_bytes-IsValid p max (at-IsValid pool idx v)),
    )

write-PoolIsValid :
    (pool : Pool) (handle : ℕ) (input : List ℕ)
    → PoolIsValid pool
    → PoolIsValid (write pool handle input).2
unfolding write
write-PoolIsValid pool handle input v =
    let idx = handle % u32 in
    let p = get_or pool idx blank in
    ground (
      arith,
      set-PoolIsValid pool idx (write_bytes p input).1 v
          (write_bytes-IsValid p input (at-IsValid pool idx v)),
    )

drop_end-IsValid : (p : Pipe) (tid : ℕ) (end : Bool) → IsValid p → IsValid (drop_end p tid end)
unfolding drop_end
drop_end-IsValid p tid true v = omega (arith, cleared-lt p.writers_mask tid v.writers_fit)
drop_end-IsValid p tid false v = omega (arith, cleared-lt p.readers_mask tid v.readers_fit)

hold_end-IsValid :
    (p : Pipe) (tid : ℕ) (end : Bool) → tid < 64 → IsValid p → IsValid (hold_end p tid end)
unfolding hold_end
hold_end-IsValid p tid true t v = omega (arith, added-lt p.writers_mask tid v.writers_fit t)
hold_end-IsValid p tid false t v = omega (arith, added-lt p.readers_mask tid v.readers_fit t)

close-PoolIsValid :
    (pool : Pool) (tid handle : ℕ) (end : Bool)
    → PoolIsValid pool
    → PoolIsValid (close pool tid handle end).1
unfolding close
close-PoolIsValid pool tid handle end v =
    let idx = handle % u32 in
    let p = get_or pool idx blank in
    ground (
      arith,
      set-PoolIsValid pool idx (retire (drop_end p tid end)) v
          (retire-IsValid _ (drop_end-IsValid p tid end (at-IsValid pool idx v))),
    )

add_holder-PoolIsValid :
    (pool : Pool) (tid handle : ℕ) (end : Bool)
    → tid < 64
    → PoolIsValid pool
    → PoolIsValid (add_holder pool tid handle end).1
unfolding add_holder
add_holder-PoolIsValid pool tid handle end t v =
    let idx = handle % u32 in
    let p = get_or pool idx blank in
    ground (
      arith,
      set-PoolIsValid pool idx (hold_end p tid end) v
          (hold_end-IsValid p tid end t (at-IsValid pool idx v)),
    )

-- The thread ids of a call are those of the thread table.
abbrev pub HasTids : Call → Type 0
HasTids (creates tid) = tid < 64
HasTids (adds_holder tid handle end) = tid < 64
HasTids (forks parent child) = child < 64
HasTids _ = Unit

-- Every call keeps the pool valid: each pipe's head and count stay inside its ring of 1024 bytes,
-- its masks inside 64 bits and its generation inside 32.
pub step-PoolIsValid :
    (pool : Pool) (c : Call) → HasTids c → PoolIsValid pool → PoolIsValid (step pool c)
unfolding step inherit_fork invalidate_tcb_death
step-PoolIsValid pool (creates tid) t v = create-PoolIsValid pool tid t v
step-PoolIsValid pool (reads handle max) t v = read-PoolIsValid pool handle max v
step-PoolIsValid pool (writes handle input) t v = write-PoolIsValid pool handle input v
step-PoolIsValid pool (closes tid handle end) t v = close-PoolIsValid pool tid handle end v
step-PoolIsValid pool (adds_holder tid handle end) t v =
    add_holder-PoolIsValid pool tid handle end t v
step-PoolIsValid pool (forks parent child) t v =
    map-PoolIsValid (inherit parent child) pool (inherit-IsValid parent child t) v
step-PoolIsValid pool (dies tid) t v = map-PoolIsValid (bury tid) pool (bury-IsValid tid) v

run-PoolIsValid :
    (pool : Pool) (cs : List Call) → All HasTids cs → PoolIsValid pool → PoolIsValid (run pool cs)
unfolding run
run-PoolIsValid pool [] t v = v
run-PoolIsValid pool (c ∷ cs) t v =
    run-PoolIsValid (step pool c) cs t.1 (step-PoolIsValid pool c t.0 v)

-- After any sequence of calls from boot, whose thread ids are below 64, the pool has its sixteen
-- pipes, and each keeps its head and its count inside its ring of 1024 bytes, its masks inside 64
-- bits and its generation inside 32.
pub run-boot-PoolIsValid : (cs : List Call) → All HasTids cs → PoolIsValid (run boot cs)
run-boot-PoolIsValid cs t =
    run-PoolIsValid boot cs t
      (length-replicate pool_size blank, All-replicate IsValid pool_size blank blank-IsValid)
