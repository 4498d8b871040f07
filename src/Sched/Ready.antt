-- ===== src/Sched/Ready.antt =====
-- The ready queues: one intrusive list for each priority, and a bitmap of those that are not empty.
pub mod Rep
pub mod Push
pub mod Unlink
pub mod Outcome
pub mod Pop
use Prim.Native.Nat.{bit_and, bit_or}
use robu_microkernel.Base.{
  ℕ, zero, suc, ◌+◌, ◌^◌, Bool, true, false, Option, none, some, ◌==◌, ◌!=◌, if◌then◌else◌,
}
use robu_microkernel.Base.Bits.{bit, bit_not}
use robu_microkernel.Base.Chain.{upd}
use robu_microkernel.Base.Words.{add64}
use robu_microkernel.Sched.Types.{Tcb, Sched, Stats, is_ready, no_cpu, prio_levels}

-- A field of one thread is written.
abbrev pub put : Sched → ℕ → Tcb → Sched
put s t r = record s { threads = upd s.threads t r }

-- `ready_tail[p]` gets the new thread behind it, or the queue gets a head.
abbrev pub link_last : Sched → ℕ → ℕ → Option ℕ → Sched
link_last s p t none = record s { ready_head = upd s.ready_head p (some t) }
link_last s p t (some l) = put s l (record (s.threads l) { rq_next = some t })

unfoldable pub rq_push : Sched → ℕ → Sched
rq_push s t =
    if (s.threads t).in_ready_q
    then s
    else let s1 = put s t (record (s.threads t) { in_ready_q = true; rq_next = none }) in
      let p = (s.threads t).prio in
      let s2 = link_last s1 p t (s1.ready_tail p) in
      record s2 {
        ready_tail = upd s2.ready_tail p (some t);
        ready_bitmap = bit_or s2.ready_bitmap (2 ^ p);
      }

abbrev pub unlink_from : Sched → ℕ → Option ℕ → Option ℕ → Sched
unlink_from s p none next = record s { ready_head = upd s.ready_head p next }
unlink_from s p (some q) next = put s q (record (s.threads q) { rq_next = next })

abbrev pub points_to : Option ℕ → ℕ → Bool
points_to none t = false
points_to (some u) t = u == t

abbrev pub is_null : Option ℕ → Bool
is_null none = true
is_null (some u) = false

unfoldable pub rq_unlink : Sched → ℕ → Option ℕ → ℕ → Sched
rq_unlink s p prev t =
    let s1 = unlink_from s p prev (s.threads t).rq_next in
    let s2 =
      if points_to (s1.ready_tail p) t
      then record s1 { ready_tail = upd s1.ready_tail p prev }
      else s1 in
    let s3 =
      if is_null (s2.ready_head p)
      then record s2 { ready_bitmap = bit_and s2.ready_bitmap (bit_not 32 (2 ^ p)) }
      else s2 in
    put s3 t (record (s3.threads t) { in_ready_q = false; rq_next = none })

-- `31 - __builtin_clz(word)`: the highest set bit of a word of `k` bits that is not 0.
unfoldable pub top_bit : ℕ → ℕ → ℕ
top_bit zero word = 0
top_bit (suc k) word = let lower = top_bit k word in if bit k word == 1 then k else lower

-- The affinity counters for a thread that is taken.
unfoldable pub count_affinity : Sched → ℕ → ℕ → Sched
count_affinity s t cpu =
    let c = (s.threads t).last_cpu in
    if c == cpu
    then record s { stats = record (s.stats) { affinity_hits = add64 s.stats.affinity_hits 1 } }
    else if c != no_cpu
    then record s { stats = record (s.stats) { affinity_misses = add64 s.stats.affinity_misses 1 } }
    else s

-- The loop, on fuel: each round takes a thread off a queue. A set bit with an empty queue, where the
-- code would go through a null pointer, ends it; well-formed queues rule that out.
unfoldable pub pop_loop : ℕ → Sched → ℕ → Option ℕ × Sched
pop_loop zero s cpu = (none, s)
pop_loop (suc fuel) s cpu =
    let p = top_bit prio_levels s.ready_bitmap in
    if s.ready_bitmap == 0 then (none, s) else elim (s.ready_head p) [
      | none ↦ (none, s)
      | some t ↦
          let s1 = rq_unlink s p none t in
          let rest = pop_loop fuel s1 cpu in
          if is_ready ((s1.threads t).state) then (some t, count_affinity s1 t cpu) else rest
    ]

-- No more threads are queued than there are in the table.
unfoldable pub rq_pop_highest : Sched → ℕ → Option ℕ × Sched
rq_pop_highest s cpu = pop_loop 65 s cpu
