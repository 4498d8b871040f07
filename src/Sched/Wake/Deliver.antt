-- ===== src/Sched/Wake/Deliver.antt =====
-- One thread of the inbox goes to its queue: what that changes, and what it leaves alone.
use native.Mathlib.Decide.{ℕ_discrete}
use robu_microkernel.Base.{
  true, ℕ, zero, suc, ◌+◌, ◌≤◌, ◌<◌, ◌≡◌, refl, ◌∙◌, ◌≢◌, Option, none, some, arith, ◌==◌,
  if◌then◌else◌, Bool-cases, inl, inr, ==_refl, ne→==,
}
use robu_microkernel.Sched.Types.{Tcb, Sched, is_ready, max_threads}
use robu_microkernel.Sched.Ready.{put, link_last, rq_push, is_null}

abbrev pub inbox_links : Sched → ℕ → Option ℕ
inbox_links s t = (s.threads t).inbox_next

-- Every link of the inbox stays in the thread table.
abbrev pub LinksInTable : Sched → Type 0
LinksInTable s = (t u : ℕ) → inbox_links s t ≡ some u → u < max_threads

-- How many of the first `n` threads have a successor in the inbox.
abbrev pub linked : ℕ → Sched → ℕ
linked zero s = 0
linked (suc n) s = (if is_null (inbox_links s n) then 0 else 1) + linked n s

pub linked-le : (n : ℕ) (s : Sched) → linked n s ≤ n
linked-le zero s = omega arith
linked-le (suc n) s = ground (arith, linked-le n s)

-- One round of the loop: `t` loses its link and goes to its queue if it is ready.
unfoldable pub delivered : Sched → ℕ → Sched
delivered s t =
    let s1 = put s t (record (s.threads t) { inbox_next = none }) in
    if is_ready (s1.threads t).state then rq_push s1 t else s1

-- The fields that a push of another thread, or a delivery, leaves alone.
record Kept (r r' : Tcb) : Type 0 where
  pub state_kept : r'.state ≡ r.state
  pub prio_kept : r'.prio ≡ r.prio
  pub link_kept : r'.inbox_next ≡ r.inbox_next

link_last-Kept :
    (s : Sched) (p t : ℕ) (o : Option ℕ) (u : ℕ)
    → Kept (s.threads u) ((link_last s p t o).threads u)
link_last-Kept s p t none u = record { state_kept = refl; prio_kept = refl; link_kept = refl }
link_last-Kept s p t (some l) u = elim (ℕ_discrete u l) [
  | yes e ↦ rw (e, ==_refl l) (record { state_kept = refl; prio_kept = refl; link_kept = refl })
  | no n ↦ rw (ne→== u l n) (record { state_kept = refl; prio_kept = refl; link_kept = refl })
]

put_queued-Kept :
    (s : Sched) (t u : ℕ)
    → Kept
        (s.threads u)
        ((put s t (record (s.threads t) { in_ready_q = true; rq_next = none })).threads u)
put_queued-Kept s t u = elim (ℕ_discrete u t) [
  | yes e ↦ rw (e, ==_refl t) (record { state_kept = refl; prio_kept = refl; link_kept = refl })
  | no n ↦ rw (ne→== u t n) (record { state_kept = refl; prio_kept = refl; link_kept = refl })
]

rq_push-Kept : (s : Sched) (t u : ℕ) → Kept (s.threads u) ((rq_push s t).threads u)
unfolding rq_push
rq_push-Kept s t u = elim (Bool-cases (s.threads t).in_ready_q) [
  | inl e ↦ rw e (record { state_kept = refl; prio_kept = refl; link_kept = refl })
  | inr e ↦
      let s1 = put s t (record (s.threads t) { in_ready_q = true; rq_next = none }) in
      let p = (s.threads t).prio in
      let a = put_queued-Kept s t u in
      let b = link_last-Kept s1 p t (s1.ready_tail p) u in
      rw e (record {
        state_kept = b.state_kept ∙ a.state_kept;
        prio_kept = b.prio_kept ∙ a.prio_kept;
        link_kept = b.link_kept ∙ a.link_kept;
      })
]

-- The delivered thread's record before the push.
abbrev cut : Sched → ℕ → Sched
cut s t = put s t (record (s.threads t) { inbox_next = none })

cut-fields :
    (s : Sched) (t u : ℕ)
    → (((cut s t).threads u).state ≡ (s.threads u).state)
      × (((cut s t).threads u).prio ≡ (s.threads u).prio)
      × (inbox_links (cut s t) u ≡ (if u == t then none else inbox_links s u))
cut-fields s t u = (ground arith, ground arith, ground arith)

delivered-fields :
    (s : Sched) (t u : ℕ)
    → (((delivered s t).threads u).state ≡ (s.threads u).state)
      × (((delivered s t).threads u).prio ≡ (s.threads u).prio)
      × (inbox_links (delivered s t) u ≡ (if u == t then none else inbox_links s u))
unfolding delivered
delivered-fields s t u =
    let (a, b, c) = cut-fields s t u in
    elim (Bool-cases (is_ready ((cut s t).threads t).state)) [
      | inl e ↦
          let k = rq_push-Kept (cut s t) t u in
          rw e (k.state_kept ∙ a, k.prio_kept ∙ b, k.link_kept ∙ c)
      | inr e ↦ rw e (a, b, c)
    ]

pub delivered-links :
    (s : Sched) (t u : ℕ)
    → inbox_links (delivered s t) u ≡ (if u == t then none else inbox_links s u)
delivered-links s t u = (delivered-fields s t u).2

linked-same : (n : ℕ) (s : Sched) (t : ℕ) → n ≤ t → linked n (delivered s t) ≡ linked n s
linked-same zero s t h = refl
linked-same (suc n) s t h =
    let differ : n ≢ t = λ e. omega arith in
    rw (delivered-links s t n, ne→== n t differ, linked-same n s t (omega arith)) refl

-- Delivering a linked thread takes one link away.
pub linked-delivered :
    (n : ℕ) (s : Sched) (t u : ℕ)
    → t < n
    → inbox_links s t ≡ some u
    → linked n s ≡ suc (linked n (delivered s t))
linked-delivered zero s t u h e = omega arith
linked-delivered (suc n) s t u h e = elim (ℕ_discrete n t) [
  | yes q ↦
      rw (delivered-links s t n, q, ==_refl t, e, linked-same t s t (omega arith)) (omega arith)
  | no q ↦
      let ih = linked-delivered n s t u (omega arith) e in
      rw (delivered-links s t n, ne→== n t q) (omega arith)
]

pub delivered-LinksInTable : (s : Sched) (t : ℕ) → LinksInTable s → LinksInTable (delivered s t)
delivered-LinksInTable s t h v u e = let c = delivered-links s t v in ground (arith, h v u)

-- The fields that decide where a thread goes.
abbrev pub SamePlace : Sched → Sched → ℕ → Type 0
SamePlace s s' t =
    ((s'.threads t).state ≡ (s.threads t).state)
    × ((s'.threads t).prio ≡ (s.threads t).prio)
    × ((s'.threads t).in_ready_q ≡ (s.threads t).in_ready_q)

link_last-mark :
    (s : Sched) (p t : ℕ) (o : Option ℕ) (u : ℕ)
    → ((link_last s p t o).threads u).in_ready_q ≡ (s.threads u).in_ready_q
link_last-mark s p t none u = refl
link_last-mark s p t (some l) u = elim (ℕ_discrete u l) [
  | yes e ↦ rw (e, ==_refl l) refl
  | no n ↦ rw (ne→== u l n) refl
]

rq_push-mark :
    (s : Sched) (t u : ℕ) → u ≢ t → ((rq_push s t).threads u).in_ready_q ≡ (s.threads u).in_ready_q
unfolding rq_push
rq_push-mark s t u n = elim (Bool-cases (s.threads t).in_ready_q) [
  | inl e ↦ rw e refl
  | inr e ↦
      let s1 = put s t (record (s.threads t) { in_ready_q = true; rq_next = none }) in
      let p = (s.threads t).prio in
      rw e (link_last-mark s1 p t (s1.ready_tail p) u ∙ rw (ne→== u t n) refl)
]

delivered-mark :
    (s : Sched) (t u : ℕ)
    → t ≢ u
    → ((delivered s u).threads t).in_ready_q ≡ (s.threads t).in_ready_q
unfolding delivered
delivered-mark s t u n = elim (Bool-cases (is_ready ((cut s u).threads u).state)) [
  | inl e ↦ rw e (rq_push-mark (cut s u) u t n ∙ rw (ne→== t u n) refl)
  | inr e ↦ rw (e, ne→== t u n) refl
]

pub delivered-SamePlace : (s : Sched) (t u : ℕ) → t ≢ u → SamePlace s (delivered s u) t
delivered-SamePlace s t u n =
    ((delivered-fields s u t).0, (delivered-fields s u t).1, delivered-mark s t u n)

link_last-current : (s : Sched) (p t : ℕ) (o : Option ℕ) → (link_last s p t o).current ≡ s.current
link_last-current s p t none = refl
link_last-current s p t (some l) = refl

rq_push-current : (s : Sched) (t : ℕ) → (rq_push s t).current ≡ s.current
unfolding rq_push
rq_push-current s t = elim (Bool-cases (s.threads t).in_ready_q) [
  | inl e ↦ rw e refl
  | inr e ↦ rw e (link_last-current _ (s.threads t).prio t _)
]

pub delivered-current : (s : Sched) (t : ℕ) → (delivered s t).current ≡ s.current
unfolding delivered
delivered-current s t = elim (Bool-cases (is_ready ((cut s t).threads t).state)) [
  | inl e ↦ rw e (rq_push-current (cut s t) t)
  | inr e ↦ rw e refl
]
