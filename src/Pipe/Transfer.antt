-- ===== src/Pipe/Transfer.antt =====
-- How much one call of `pipe_read` or `pipe_write` moves, on every branch.
use robu_microkernel.Base.{
  ℕ, ◌+◌, ◌-◌, ◌*◌, ◌/◌, ◌%◌, ◌<◌, min, ◌≡◌, false, List, [], ◌++◌, arith, ◌≢◌, length, take,
  get_or-set_self,
}
use mathlib.Core.List.{append-nil}
use robu_microkernel.Base.Words.{u32, sub32}
use robu_microkernel.Base.Ring.{length-copy_out}
use robu_microkernel.Status.{Status}
use robu_microkernel.Pipe.Inv.{PoolIsValid, at-IsValid}
use robu_microkernel.Pipe.Stream.{
  contents, contents-nil, chunk_lem, length-contents, at, read_bytes-contents, write_bytes-contents,
}
use robu_microkernel.Pipe.{
  Pool, pool_size, ring_size, chunk_max, chunk, blank, read_bytes, read, write_bytes, write,
  is_free,
}

-- The handle of generation `gen` of slot `idx`.
abbrev pub handle_of : ℕ → ℕ → ℕ
handle_of idx gen = gen * u32 + idx

-- The handle names the pipe in slot `idx`: in range, of its generation, and in use.
pub record Opens (pool : Pool) (handle idx : ℕ) : Type 0 where
  pub slot : handle % u32 ≡ idx
  pub in_pool : idx < pool_size
  pub current : handle / u32 % u32 ≡ (at pool idx).generation
  pub in_use : is_free (at pool idx) ≡ false

module _ (pool : Pool) (handle idx : ℕ) (v : PoolIsValid pool) (o : Opens pool handle idx) where
  -- A read of a pipe that holds bytes succeeds, returns the `min(max, held, 32)` oldest ones, and
  -- leaves the others in the pipe.
  pub read_takes :
      (max : ℕ)
      → contents (at pool idx) ≢ []
      → let (status, out, pool') = read pool handle max in
        (status ≡ Status.ok)
        × (length out ≡ min (min max (length (contents (at pool idx)))) chunk_max)
        × (out ++ contents (at pool' idx) ≡ contents (at pool idx))
  unfolding read read_bytes
  read_takes max some_bytes =
      let p = at pool idx in
      ground (
        arith,
        o.slot,
        contents-nil p,
        chunk_lem max p.count,
        length-contents p,
        length-copy_out ring_size p.ring p.head 0 (chunk max p.count),
        read_bytes-contents p max (at-IsValid pool idx v),
        get_or-set_self pool idx (read_bytes p max).1 blank,
      )

  pub write_puts :
      (input : List ℕ)
      → (at pool idx).readers_mask ≢ 0
      → let (status, n, pool') = write pool handle input in
        (status ≡ Status.ok)
        × (n ≡ min (min (length input) (ring_size - length (contents (at pool idx)))) chunk_max)
        × (contents (at pool' idx) ≡ contents (at pool idx) ++ take n input)
  unfolding write write_bytes
  write_puts input readers =
      let p = at pool idx in
      ground (
        arith,
        o.slot,
        chunk_lem (length input) (sub32 ring_size p.count),
        length-contents p,
        at-IsValid pool idx v,
        append-nil (contents p),
        write_bytes-contents p input (at-IsValid pool idx v),
        get_or-set_self pool idx (write_bytes p input).1 blank,
      )
