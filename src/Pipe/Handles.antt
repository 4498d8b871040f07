-- ===== src/Pipe/Handles.antt =====
-- The life of a handle: `pipe_create` opens one, and the close that leaves the pipe without holders
-- makes it stale.
use Prim.Native.Nat.{bit_or}
use native.Mathlib.Decide.{ℕ_discrete}
use native.Mathlib.Nat.{one-le-pow}
use robu_microkernel.Base.{
  ℕ, zero, ◌+◌, ◌*◌, ◌/◌, ◌%◌, ◌<◌, ◌≡◌, refl, sym, ap, ◌∙◌, Bool, true, false, ◌≢◌, ◌⊎◌, inl, inr,
  List, [], ◌∷◌, arith, All, set, get_or-set_self, get_or-set_ne,
}
use robu_microkernel.Base.Bits.{bit_or_fields}
use robu_microkernel.Base.Words.{u32, add32}
use robu_microkernel.Status.{Status}
use robu_microkernel.Pipe.Slots.{Busy, FirstFree, create_from-Created}
use robu_microkernel.Pipe.Inv.{PoolIsValid, at-IsValid}
use robu_microkernel.Pipe.Stream.{contents, at}
use robu_microkernel.Pipe.Transfer.{Opens}
use robu_microkernel.Pipe.{
  Pipe, Pool, bit_of, blank, is_free, opened, create, read, write, retire, drop_end, close,
  add_holder, pool_size,
}

opened_busy : (tid : ℕ) (p : Pipe) → is_free (opened tid p) ≡ false
unfolding is_free
opened_busy tid p = ground (arith, one-le-pow tid 2 (omega arith))

-- The new state after a creation in slot `j`.
pub record Fresh (tid j : ℕ) (s : Status) (handle : ℕ) (pool' : Pool) : Type 0 where
  pub succeeds : s ≡ Status.ok
  pub opens : Opens pool' handle j
  pub empty : contents (at pool' j) ≡ []
  pub reader : (at pool' j).readers_mask ≡ bit_of tid
  pub writer : (at pool' j).writers_mask ≡ bit_of tid

opened-Fresh :
    (pool : Pool) (tid j : ℕ)
    → PoolIsValid pool
    → j < pool_size
    → Fresh tid j Status.ok
        (bit_or ((at pool j).generation * u32) j)
        (set pool j (opened tid (at pool j)))
opened-Fresh pool tid j v h =
    let q = opened tid (at pool j) in
    let here : at (set pool j q) j ≡ q = get_or-set_self pool j q blank (omega arith) in
    let e : bit_or ((at pool j).generation * u32) j ≡ (at pool j).generation * u32 + j =
      bit_or_fields 32 (at pool j).generation j (omega arith) in
    let fits = (at-IsValid pool j v).generation_fits in
    rw e (record {
      succeeds = refl;
      opens = record {
        slot = omega arith;
        in_pool = h;
        current = rw here (omega arith);
        in_use = rw here (opened_busy tid (at pool j));
      };
      empty = rw here refl;
      reader = rw here refl;
      writer = rw here refl;
    })

-- `pipe_create` on a valid pool: with no slot free it reports that memory is out and changes
-- nothing; else it succeeds with a handle that opens an empty pipe in the first free slot, both
-- ends of which its caller alone holds.
pub create_lem :
    (pool : Pool) (tid : ℕ)
    → PoolIsValid pool
    → (All Busy pool × (create pool tid ≡ (Status.no_mem, 0, pool)))
      ⊎ ((j : ℕ) × FirstFree pool j
          × Fresh tid j (create pool tid).0 (create pool tid).1 (create pool tid).2)
unfolding create
create_lem pool tid v = elim (create_from-Created 0 tid pool) [
  | inl (b, n) ↦ inl (b, rw (n, create))
  | inr (j, f, n) ↦
      let z : zero + j ≡ j = omega arith in
      inr (j, f, rw (n, z, create) (opened-Fresh pool tid j v (omega (arith, f.inside))))
]

retire-generation : (p : Pipe) → is_free p ≡ true → (retire p).generation ≡ add32 p.generation 1
retire-generation p f = rw f

generation_moves : (g : ℕ) → g < u32 → add32 g 1 ≢ g
generation_moves g h = omega arith

-- What a stale handle is refused.
pub record Refused (pool : Pool) (handle : ℕ) : Type 0 where
  pub reads : (max : ℕ) → read pool handle max ≡ (Status.not_found, [], pool)
  pub writes : (input : List ℕ) → write pool handle input ≡ (Status.not_found, 0, pool)
  pub closes : (tid : ℕ) (end : Bool) → close pool tid handle end ≡ (Status.not_found, pool)
  pub holds : (tid : ℕ) (end : Bool) → add_holder pool tid handle end ≡ (false, pool)

module _ (pool : Pool) (handle : ℕ)
    (stale : (at pool (handle % u32)).generation ≢ handle / u32 % u32) where
  refused_read : (max : ℕ) → read pool handle max ≡ (Status.not_found, [], pool)
  unfolding read
  refused_read max = ground arith

  refused_write : (input : List ℕ) → write pool handle input ≡ (Status.not_found, 0, pool)
  unfolding write
  refused_write input = ground arith

  refused_close : (tid : ℕ) (end : Bool) → close pool tid handle end ≡ (Status.not_found, pool)
  unfolding close
  refused_close tid end = ground arith

  refused_holder : (tid : ℕ) (end : Bool) → add_holder pool tid handle end ≡ (false, pool)
  unfolding add_holder
  refused_holder tid end = ground arith

  -- A handle of another generation than its slot's is refused by every call and changes nothing.
  pub stale-Refused : Refused pool handle
  stale-Refused = record {
    reads = refused_read;
    writes = refused_write;
    closes = refused_close;
    holds = refused_holder;
  }

generation-drop_end :
    (p : Pipe) (tid : ℕ) (end : Bool) → (drop_end p tid end).generation ≡ p.generation
unfolding drop_end
generation-drop_end p tid true = refl
generation-drop_end p tid false = refl

close-eq :
    (pool : Pool) (handle idx tid : ℕ) (end : Bool)
    → Opens pool handle idx
    → close pool tid handle end
      ≡ (Status.ok, set pool idx (retire (drop_end (at pool idx) tid end)))
unfolding close
close-eq pool handle idx tid end o = ground (arith, o.slot)

-- The pool after pipes were created, one after another, by the threads of a list.
unfoldable pub create_all : Pool → List ℕ → Pool
create_all pool [] = pool
create_all pool (tid ∷ tids) = create_all (create pool tid).2 tids

create-generation :
    (pool : Pool) (tid i : ℕ) → (at (create pool tid).2 i).generation ≡ (at pool i).generation
unfolding create
create-generation pool tid i = elim (create_from-Created 0 tid pool) [
  | inl (b, n) ↦ rw (n, create) refl
  | inr (j, f, n) ↦
      let z : zero + j ≡ j = omega arith in
      let q = opened tid (at pool j) in
      rw (n, create)
        (elim (ℕ_discrete j i) [
          | yes e ↦ rw (sym e, get_or-set_self pool j q blank f.inside) refl
          | no e ↦ rw (get_or-set_ne pool j i q blank e) refl
        ])
]

create_all-generation :
    (tids : List ℕ) (pool : Pool) (i : ℕ)
    → (at (create_all pool tids) i).generation ≡ (at pool i).generation
unfolding create_all
create_all-generation [] pool i = refl
create_all-generation (tid ∷ tids) pool i =
    create_all-generation tids (create pool tid).2 i ∙ create-generation pool tid i

-- The close after which nobody holds either end of a pipe of a valid pool succeeds, and makes the handle
-- stale: right after it, and after any number of creations of pipes that follow, which may take the slot
-- again, a read, write or close by the handle is not found, nobody becomes a holder by it, and none of
-- these changes the pool.
pub close_last-Refused :
    (pool : Pool) (handle idx tid : ℕ) (end : Bool) (tids : List ℕ)
    → PoolIsValid pool
    → Opens pool handle idx
    → is_free (drop_end (at pool idx) tid end) ≡ true
    → ((close pool tid handle end).0 ≡ Status.ok)
      × Refused (create_all (close pool tid handle end).1 tids) handle
close_last-Refused pool handle idx tid end tids v o last =
    let q = drop_end (at pool idx) tid end in
    let pool' = set pool idx (retire q) in
    let here : at pool' idx ≡ retire q =
      get_or-set_self pool idx (retire q) blank (omega (arith, v.0, o.in_pool)) in
    let g : (retire q).generation ≡ add32 (at pool idx).generation 1 =
      retire-generation q last ∙ ap (λ n. add32 n 1) (generation-drop_end (at pool idx) tid end) in
    let stale : (at (create_all pool' tids) (handle % u32)).generation ≢ handle / u32 % u32 =
      rw (o.slot, create_all-generation tids pool' idx, here, g, o.current)
        (generation_moves (at pool idx).generation (at-IsValid pool idx v).generation_fits) in
    rw (close-eq pool handle idx tid end o)
      (refl, stale-Refused (create_all pool' tids) handle stale)
