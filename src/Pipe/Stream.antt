-- ===== src/Pipe/Stream.antt =====
-- What a pipe of src/core/pipe.c holds, as a list of bytes: `pipe_write` puts bytes behind it and
-- `pipe_read` takes them from its front, whatever is done to the pool in between.
use robu_microkernel.Base.{
  ℕ, zero, suc, ◌+◌, ◌-◌, ◌%◌, ◌<◌, min, ◌≡◌, refl, sym, ap, subst, ◌∙◌, Bool, true, false, inl,
  inr, List, [], ◌∷◌, ◌++◌, map, arith, Bool-cases, ◌==◌, if◌then◌else◌, length, get_or, set, take,
  All, get_or-set_self, get_or-set_ne, length-take,
}
use mathlib.Core.List.{append-nil, append_assoc}
use native.Mathlib.Decide.{ℕ_discrete}
use robu_microkernel.Base.Words.{u32, add32, sub32}
use robu_microkernel.Base.Ring.{copy_out, length-copy_out, copy_out_take, copy_out_put}
use robu_microkernel.Pipe.Slots.{create_from-Created}
use robu_microkernel.Pipe.Inv.{IsValid, PoolIsValid, HasTids, at-IsValid, step-PoolIsValid}
use robu_microkernel.Pipe.{
  Pipe, Pool, Call, creates, reads, writes, closes, adds_holder, forks, dies, pool_size, ring_size,
  chunk_max, chunk, blank, opened, create, read_bytes, read, write_bytes, write, cleared, retire,
  drop_end, hold_end, close, add_holder, inherit, inherit_fork, bury, invalidate_tcb_death, step,
  run, is_free,
}

-- The bytes that a pipe holds, oldest first.
abbrev pub contents : Pipe → List ℕ
contents p = copy_out ring_size p.ring p.head 0 p.count

pub length-contents : (p : Pipe) → length (contents p) ≡ p.count
length-contents p = length-copy_out ring_size p.ring p.head 0 p.count

pub contents-nil : (p : Pipe) → p.count ≡ 0 → contents p ≡ []
contents-nil p e = ap (copy_out ring_size p.ring p.head 0) e

pub chunk_lem : (len room : ℕ) → chunk len room ≡ min (min len room) chunk_max
chunk_lem len room = ground arith

pub read_bytes-contents :
    (p : Pipe) (max : ℕ)
    → IsValid p
    → let (out, p') = read_bytes p max in contents p ≡ out ++ contents p'
unfolding read_bytes
read_bytes-contents p max v =
    let n = chunk max p.count in
    let e : add32 p.head n ≡ p.head + n = ground arith in
    let e' : sub32 p.count n ≡ p.count - n = ground arith in
    rw (e, e') (copy_out_take ring_size p.ring p.head p.count n (ground arith))

pub write_bytes-contents :
    (p : Pipe) (input : List ℕ)
    → IsValid p
    → let (n, p') = write_bytes p input in contents p' ≡ contents p ++ take n input
unfolding write_bytes
write_bytes-contents p input v =
    let n = chunk (length input) (sub32 ring_size p.count) in
    let e : length (take n input) ≡ n =
      omega (arith, length-take n input, chunk_lem (length input) (sub32 ring_size p.count)) in
    let e' : add32 p.count n ≡ p.count + length (take n input) = ground (arith, e) in
    let e'' : add32 p.head p.count ≡ p.head + p.count = omega arith in
    rw (e', e'')
      (copy_out_put ring_size (take n input) p.ring p.head p.count (omega arith) (omega arith)
        (ground (arith, e)))

abbrev pub at : Pool → ℕ → Pipe
at pool i = get_or pool i blank

-- The bytes that a call puts into the pipe in slot `i`, and those that it takes from it.
abbrev pub accepted : ℕ → Pool → Call → List ℕ
accepted i pool (writes handle input) =
    if handle % u32 == i then take (write pool handle input).1 input else []
accepted i pool _ = []

abbrev pub delivered : ℕ → Pool → Call → List ℕ
delivered i pool (reads handle max) = if handle % u32 == i then (read pool handle max).1 else []
delivered i pool _ = []

-- A call that gives slot `i` a pipe with the same bytes leaves the slot's bytes alone.
contents-at-set :
    (pool : Pool) (i idx : ℕ) (q : Pipe)
    → contents q ≡ contents (at pool idx)
    → idx < length pool
    → contents (at (set pool idx q) i) ≡ contents (at pool i)
contents-at-set pool i idx q e h = elim (ℕ_discrete idx i) [
  | yes p ↦ rw (← p, get_or-set_self pool idx q blank h) e
  | no p ↦ ap contents (get_or-set_ne pool idx i q blank p)
]

contents-at-map :
    (f : Pipe → Pipe) (pool : Pool) (i : ℕ)
    → ((p : Pipe) → contents (f p) ≡ contents p)
    → contents (at (map f pool) i) ≡ contents (at pool i)
contents-at-map f [] i h = refl
contents-at-map f (p ∷ ps) zero h = h p
contents-at-map f (p ∷ ps) (suc i) h = contents-at-map f ps i h

contents-retire : (p : Pipe) → contents (retire p) ≡ contents p
contents-retire p = elim (Bool-cases (is_free p)) [ inl e ↦ rw e | inr e ↦ rw e ]

contents-drop_end : (p : Pipe) (tid : ℕ) (end : Bool) → contents (drop_end p tid end) ≡ contents p
unfolding drop_end
contents-drop_end p tid true = refl
contents-drop_end p tid false = refl

contents-hold_end : (p : Pipe) (tid : ℕ) (end : Bool) → contents (hold_end p tid end) ≡ contents p
unfolding hold_end
contents-hold_end p tid true = refl
contents-hold_end p tid false = refl

contents-inherit : (parent child : ℕ) (p : Pipe) → contents (inherit parent child p) ≡ contents p
unfolding inherit
contents-inherit parent child p = refl

contents-bury : (tid : ℕ) (p : Pipe) → contents (bury tid p) ≡ contents p
unfolding bury
contents-bury tid p = ground (
  arith,
  contents-retire (record p {
    readers_mask = cleared p.readers_mask tid;
    writers_mask = cleared p.writers_mask tid;
  }),
)

create-keeps :
    (pool : Pool) (i tid : ℕ)
    → is_free (at pool i) ≡ false
    → contents (at (create pool tid).2 i) ≡ contents (at pool i)
unfolding create
create-keeps pool i tid busy = elim (create_from-Created 0 tid pool) [
  | inl (b, n) ↦ rw (n, create)
  | inr (j, f, n) ↦
      rw (n, create)
        (ap contents (
          get_or-set_ne pool j i (opened tid (at pool j)) blank (λ e.
            let hit : is_free (at pool i) ≡ true =
              subst (λ k. is_free (at pool k) ≡ true) e f.free in
            cc)))
]

close-keeps :
    (pool : Pool) (i tid handle : ℕ) (end : Bool)
    → length pool ≡ pool_size
    → contents (at (close pool tid handle end).1 i) ≡ contents (at pool i)
unfolding close
close-keeps pool i tid handle end h =
    let idx = handle % u32 in
    ground (
      arith,
      contents-at-set pool i idx (retire (drop_end (at pool idx) tid end)) (
          contents-retire (drop_end (at pool idx) tid end)
          ∙ contents-drop_end (at pool idx) tid end),
    )

add_holder-keeps :
    (pool : Pool) (i tid handle : ℕ) (end : Bool)
    → length pool ≡ pool_size
    → contents (at (add_holder pool tid handle end).1 i) ≡ contents (at pool i)
unfolding add_holder
add_holder-keeps pool i tid handle end h =
    let idx = handle % u32 in
    ground (
      arith,
      contents-at-set pool i idx (hold_end (at pool idx) tid end)
          (contents-hold_end (at pool idx) tid end),
    )

read-moves :
    (pool : Pool) (i handle max : ℕ)
    → PoolIsValid pool
    → contents (at pool i)
      ≡ delivered i pool (reads handle max) ++ contents (at (step pool (reads handle max)) i)
unfolding step read
read-moves pool i handle max v =
    let idx = handle % u32 in
    ground (
      arith,
      read_bytes-contents (at pool idx) max (at-IsValid pool idx v),
      get_or-set_self pool idx (read_bytes (at pool idx) max).1 blank,
      get_or-set_ne pool idx i (read_bytes (at pool idx) max).1 blank,
    )

write-moves :
    (pool : Pool) (i handle : ℕ) (input : List ℕ)
    → PoolIsValid pool
    → contents (at (step pool (writes handle input)) i)
      ≡ contents (at pool i) ++ accepted i pool (writes handle input)
unfolding step write
write-moves pool i handle input v =
    let idx = handle % u32 in
    ground (
      arith,
      write_bytes-contents (at pool idx) input (at-IsValid pool idx v),
      get_or-set_self pool idx (write_bytes (at pool idx) input).1 blank,
      get_or-set_ne pool idx i (write_bytes (at pool idx) input).1 blank,
      append-nil (contents (at pool i)),
    )

-- One call moves bytes through slot `i` in order, while the slot's pipe is in use.
step-moves :
    (pool : Pool) (i : ℕ) (c : Call)
    → PoolIsValid pool
    → is_free (at pool i) ≡ false
    → contents (at pool i) ++ accepted i pool c
      ≡ delivered i pool c ++ contents (at (step pool c) i)
unfolding step inherit_fork invalidate_tcb_death
step-moves pool i (creates tid) v busy = append-nil _ ∙ sym (create-keeps pool i tid busy)
step-moves pool i (reads handle max) v busy = append-nil _ ∙ read-moves pool i handle max v
step-moves pool i (writes handle input) v busy = sym (write-moves pool i handle input v)
step-moves pool i (closes tid handle end) v busy =
    append-nil _ ∙ sym (close-keeps pool i tid handle end v.0)
step-moves pool i (adds_holder tid handle end) v busy =
    append-nil _ ∙ sym (add_holder-keeps pool i tid handle end v.0)
step-moves pool i (forks parent child) v busy =
    append-nil _
    ∙ sym (contents-at-map (inherit parent child) pool i (contents-inherit parent child))
step-moves pool i (dies tid) v busy =
    append-nil _ ∙ sym (contents-at-map (bury tid) pool i (contents-bury tid))

-- All that a sequence of calls puts into slot `i`, and all that it takes from it.
abbrev pub all_accepted : ℕ → Pool → List Call → List ℕ
all_accepted i pool [] = []
all_accepted i pool (c ∷ cs) = accepted i pool c ++ all_accepted i (step pool c) cs

abbrev pub all_delivered : ℕ → Pool → List Call → List ℕ
all_delivered i pool [] = []
all_delivered i pool (c ∷ cs) = delivered i pool c ++ all_delivered i (step pool c) cs

-- The pipe in slot `i` is in use before each of the calls.
abbrev pub InUse : ℕ → Pool → List Call → Type 0
InUse i pool [] = Unit
InUse i pool (c ∷ cs) = (is_free (at pool i) ≡ false) × InUse i (step pool c) cs

-- Whatever calls are made on a valid pool, with thread ids below 64 and while the pipe in slot `i`
-- stays in use: the bytes that it held and then those that its writers put in are, in order, the
-- bytes that its readers got and then those that it still holds. None is lost, doubled or moved.
pub run_conserves :
    (i : ℕ) (cs : List Call) (pool : Pool)
    → PoolIsValid pool
    → All HasTids cs
    → InUse i pool cs
    → contents (at pool i) ++ all_accepted i pool cs
      ≡ all_delivered i pool cs ++ contents (at (run pool cs) i)
unfolding run
run_conserves i [] pool v t u = append-nil _
run_conserves i (c ∷ cs) pool v t u =
    sym (append_assoc (contents (at pool i)) (accepted i pool c) (all_accepted i (step pool c) cs))
    ∙ ap (λ l. l ++ all_accepted i (step pool c) cs) (step-moves pool i c v u.0)
    ∙ append_assoc (delivered i pool c) (contents (at (step pool c) i))
        (all_accepted i (step pool c) cs)
    ∙ ap (λ l. delivered i pool c ++ l)
        (run_conserves i cs (step pool c) (step-PoolIsValid pool c t.0 v) t.1 u.1)
    ∙ sym (append_assoc (delivered i pool c) (all_delivered i (step pool c) cs) _)
