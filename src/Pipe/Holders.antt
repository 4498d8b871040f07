-- ===== src/Pipe/Holders.antt =====
-- Who holds which end of a pipe: what `pipe_close`, `pipe_add_holder`, `pipe_inherit_fork` and
-- `pipe_invalidate_tcb_death` do to the holders.
use Prim.Native.Nat.{bit_and, bit_or, max}
use robu_microkernel.Base.{
  ℕ, ◌<◌, ◌^◌, ◌≡◌, refl, ◌∙◌, Bool, true, false, not, ◌&&◌, ◌⊎◌, inl, ap, [], ◌∷◌, map, zero, suc,
  length, inr, arith, if◌then◌else◌, ◌==◌, ◌!=◌,
}
use native.Mathlib.Decide.{ℕ_discrete}
use robu_microkernel.Base.Bits.{
  bit, bit-le-one, bit-bit_or, bit-added, bit-added_self, bit-cleared, bit-cleared_self,
  bit_and-pow-eq-zero, bit_and-pow-ne-zero, bit_or-lt,
}
use robu_microkernel.Pipe.Inv.{IsValid, PoolIsValid, at-IsValid}
use robu_microkernel.Pipe.Stream.{at}
use robu_microkernel.Pipe.{
  Pipe, bit_of, added, cleared, retire, drop_end, hold_end, inherit, bury, Pool, pool_size,
  inherit_fork, invalidate_tcb_death,
}

-- 1 if the thread holds the write end (`true`) or the read end (`false`), else 0.
abbrev pub holds : Pipe → Bool → ℕ → ℕ
holds p true tid = bit tid p.writers_mask
holds p false tid = bit tid p.readers_mask

holds-retire : (p : Pipe) (end : Bool) (tid : ℕ) → holds (retire p) end tid ≡ holds p end tid
holds-retire p true tid = ground arith
holds-retire p false tid = ground arith

abbrev pub same_end : Bool → Bool → Bool
same_end true end = end
same_end false end = not end

holds-hold_end :
    (p : Pipe) (tid : ℕ) (end end' : Bool) (other : ℕ)
    → holds (hold_end p tid end) end' other
      ≡ (if other == tid && same_end end end' then 1 else holds p end' other)
unfolding hold_end
holds-hold_end p tid true true other =
    ground (arith, bit-added other tid p.writers_mask, bit-added_self tid p.writers_mask)
holds-hold_end p tid true false other = ground arith
holds-hold_end p tid false true other = ground arith
holds-hold_end p tid false false other =
    ground (arith, bit-added other tid p.readers_mask, bit-added_self tid p.readers_mask)

holds-drop_end :
    (p : Pipe) (tid : ℕ) (end end' : Bool) (other : ℕ)
    → tid < 64
    → other < 64
    → holds (drop_end p tid end) end' other
      ≡ (if other == tid && same_end end end' then 0 else holds p end' other)
unfolding drop_end
holds-drop_end p tid true true other t o =
    ground
      (arith, bit-cleared 64 other tid p.writers_mask o t, bit-cleared_self 64 tid p.writers_mask t)
holds-drop_end p tid true false other t o = ground arith
holds-drop_end p tid false true other t o = ground arith
holds-drop_end p tid false false other t o =
    ground
      (arith, bit-cleared 64 other tid p.readers_mask o t, bit-cleared_self 64 tid p.readers_mask t)

inherit_mask : ℕ → ℕ → ℕ → ℕ
inherit_mask mask parent child =
    if bit_and mask (bit_of parent) != 0 then added mask child else mask

bit-inherit_mask :
    (mask parent child tid : ℕ)
    → mask < 2 ^ 64
    → bit tid (inherit_mask mask parent child)
      ≡ (if tid == child then max (bit child mask) (bit parent mask) else bit tid mask)
unfolding inherit_mask
bit-inherit_mask mask parent child tid h = elim (ℕ_discrete (bit parent mask) 0) [
  | yes e ↦ ground (arith, bit_and-pow-eq-zero 64 parent mask h e)
  | no n ↦ ground (
    arith,
    bit_and-pow-ne-zero parent mask (omega (arith, bit-le-one parent mask)),
    bit-le-one parent mask,
    bit-le-one child mask,
    bit-added tid child mask,
    bit-added_self child mask,
  )
]

holds-inherit :
    (p : Pipe) (parent child : ℕ) (end : Bool) (tid : ℕ)
    → IsValid p
    → holds (inherit parent child p) end tid
      ≡ (if tid == child then max (holds p end child) (holds p end parent) else holds p end tid)
unfolding inherit inherit_mask
holds-inherit p parent child true tid v =
    bit-inherit_mask p.writers_mask parent child tid v.writers_fit
holds-inherit p parent child false tid v =
    bit-inherit_mask p.readers_mask parent child tid v.readers_fit

bit-or-zero : (r w t : ℕ) → bit t (bit_or r w) ≡ 0 → (bit t r ≡ 0) × (bit t w ≡ 0)
bit-or-zero r w t h = omega (arith, bit-bit_or t r w)

-- Both masks without a thread's bit.
without : Pipe → ℕ → Pipe
without p dead = record p {
  readers_mask = cleared p.readers_mask dead;
  writers_mask = cleared p.writers_mask dead;
}

holds-without :
    (p : Pipe) (dead : ℕ) (end : Bool) (tid : ℕ)
    → dead < 64
    → tid < 64
    → holds (without p dead) end tid ≡ (if tid == dead then 0 else holds p end tid)
unfolding without
holds-without p dead true tid d t =
    ground
      (arith, bit-cleared 64 tid dead p.writers_mask t d, bit-cleared_self 64 dead p.writers_mask d)
holds-without p dead false tid d t =
    ground
      (arith, bit-cleared 64 tid dead p.readers_mask t d, bit-cleared_self 64 dead p.readers_mask d)

bury-eq :
    (p : Pipe) (dead : ℕ)
    → IsValid p
    → ((bury dead p ≡ p) × (holds p true dead ≡ 0) × (holds p false dead ≡ 0))
      ⊎ (bury dead p ≡ retire (without p dead))
unfolding bury without
bury-eq p dead v =
    let both = bit_or p.readers_mask p.writers_mask in
    elim (ℕ_discrete (bit dead both) 0) [
      | yes e ↦
          let z =
            bit_and-pow-eq-zero 64 dead both
              (bit_or-lt 64 p.readers_mask p.writers_mask v.readers_fit v.writers_fit) e in
          let h = bit-or-zero p.readers_mask p.writers_mask dead e in inl (ground arith, h.1, h.0)
      | no n ↦
          let h = bit_and-pow-ne-zero dead both (omega (arith, bit-le-one dead both)) in
          inr (ground arith)
    ]

holds-bury :
    (p : Pipe) (dead : ℕ) (end : Bool) (tid : ℕ)
    → dead < 64
    → tid < 64
    → IsValid p
    → holds (bury dead p) end tid ≡ (if tid == dead then 0 else holds p end tid)
holds-bury p dead end tid d t v = elim (bury-eq p dead v) [
  | inl (e, w, r) ↦ rw e (unheld end w r)
  | inr e ↦ rw e (holds-retire (without p dead) end tid ∙ holds-without p dead end tid d t)
]
  where
    unheld :
        (end : Bool)
        → holds p true dead ≡ 0
        → holds p false dead ≡ 0
        → holds p end tid ≡ (if tid == dead then 0 else holds p end tid)
    unheld true w r = ground arith
    unheld false w r = ground arith

get_or-map :
    (f : Pipe → Pipe) (pool : Pool) (i : ℕ) → i < length pool → at (map f pool) i ≡ f (at pool i)
get_or-map f [] i h = absurd (omega arith)
get_or-map f (p ∷ ps) zero h = refl
get_or-map f (p ∷ ps) (suc i) h = get_or-map f ps i (omega arith)

-- After `pipe_inherit_fork` the child holds each end of each pipe that it or its parent held
-- before, and no other thread's holdings have changed.
pub holds-inherit_fork :
    (pool : Pool) (i parent child tid : ℕ) (end : Bool)
    → PoolIsValid pool
    → i < pool_size
    → holds (at (inherit_fork pool parent child) i) end tid ≡ (
        if tid == child
        then max (holds (at pool i) end child) (holds (at pool i) end parent)
        else holds (at pool i) end tid)
unfolding inherit_fork
holds-inherit_fork pool i parent child tid end v h =
    ap (λ p. holds p end tid) (get_or-map (inherit parent child) pool i (omega arith))
    ∙ holds-inherit (at pool i) parent child end tid (at-IsValid pool i v)

-- After `pipe_invalidate_tcb_death` the dead thread holds no end of any pipe, and no other thread's
-- holdings have changed.
pub holds-invalidate_tcb_death :
    (pool : Pool) (i dead tid : ℕ) (end : Bool)
    → PoolIsValid pool
    → i < pool_size
    → dead < 64
    → tid < 64
    → holds (at (invalidate_tcb_death pool dead) i) end tid
      ≡ (if tid == dead then 0 else holds (at pool i) end tid)
unfolding invalidate_tcb_death
holds-invalidate_tcb_death pool i dead tid end v h d t =
    ap (λ p. holds p end tid) (get_or-map (bury dead) pool i (omega arith))
    ∙ holds-bury (at pool i) dead end tid d t (at-IsValid pool i v)
