-- ===== src/Sched/Ready/Unlink.antt =====
-- `rq_unlink` of a queue's head takes it off that queue and touches no other.
use Prim.Native.Nat.{bit_and}
use native.Mathlib.Decide.{ℕ_discrete}
use robu_microkernel.Base.{
  ℕ, ◌<◌, ◌^◌, ◌≡◌, refl, sym, ap, subst, ◌∙◌, ◌≢◌, Bool, true, false, Option, none, some, List, [],
  ◌∷◌, ◌==◌, ◌&&◌, if◌then◌else◌, arith, All, inl, inr, ==_refl, ne→==,
}
use robu_microkernel.Base.Bits.{bit, bit_not, bit-cleared, bit-cleared_self, bit_and-lt}
use robu_microkernel.Base.Chain.{upd, Chain, Chain-frame, last, NoDup, NotIn, Has, All-imp}
use robu_microkernel.Sched.Types.{Sched, prio_levels}
use robu_microkernel.Sched.Ready.{points_to, is_null, rq_unlink}
use robu_microkernel.Sched.Ready.Rep.{Queues, rq_links, nonempty, Queued, Rep}

null_of_nil :
    (next : ℕ → Option ℕ) (o : Option ℕ) (rest : List ℕ)
    → Chain next o rest
    → is_null o ≡ (if nonempty rest == 0 then true else false)
null_of_nil next o [] c = rw c
null_of_nil next o (x ∷ rest) c = rw c.0

tail_of_rest :
    (t : ℕ) (rest : List ℕ)
    → NotIn t rest
    → (if points_to (last (t ∷ rest)) t then none else last (t ∷ rest)) ≡ last rest
tail_of_rest t [] n = rw (==_refl t)
tail_of_rest t (x ∷ []) n = rw (ne→== x t n.0)
tail_of_rest t (x ∷ y ∷ rest) n = tail_of_rest-skip (tail_of_rest t (y ∷ rest) n.1)
  where
    tail_of_rest-skip :
        (if points_to (last (t ∷ y ∷ rest)) t then none else last (t ∷ y ∷ rest)) ≡ last (y ∷ rest)
        → (if points_to (last (y ∷ rest)) t then none else last (y ∷ rest)) ≡ last (y ∷ rest)
    tail_of_rest-skip e = e

module _ (s : Sched) (qs : Queues) (r : Rep s qs) (p t : ℕ) (rest : List ℕ)
    (head : qs p ≡ t ∷ rest) where
  abbrev after : Sched
  after = rq_unlink s p none t

  abbrev queues' : Queues
  queues' = upd qs p rest

  here : Queued s p t
  here = (subst (All (Queued s p)) head (r.marked p)).0

  p_level : p < prio_levels
  p_level = subst (λ q. q < prio_levels) here.1 (r.levels t)

  Chain-here : Chain (rq_links s) (rq_links s t) rest
  Chain-here = (subst (Chain (rq_links s) (s.ready_head p)) head (r.chains p)).1

  NoDup-here : NotIn t rest × NoDup rest
  NoDup-here = subst NoDup head (r.no_dup p)

  tail_here : s.ready_tail p ≡ last (t ∷ rest)
  tail_here = r.tails p ∙ ap last head

  field-after :
      (u : ℕ)
      → ((after.threads u).prio ≡ (s.threads u).prio)
        × ((after.threads u).state ≡ (s.threads u).state)
        × ((after.threads u).last_cpu ≡ (s.threads u).last_cpu)
  unfolding rq_unlink
  field-after u = ground arith

  mark-after :
      (u : ℕ) → (after.threads u).in_ready_q ≡ (if u == t then false else (s.threads u).in_ready_q)
  unfolding rq_unlink
  mark-after u = ground arith

  link-after : (u : ℕ) → u ≢ t → rq_links after u ≡ rq_links s u
  unfolding rq_unlink
  link-after u n = ground arith

  head-after : (q : ℕ) → after.ready_head q ≡ (if q == p then rq_links s t else s.ready_head q)
  unfolding rq_unlink
  head-after q = ground arith

  tail-after :
      (q : ℕ)
      → after.ready_tail q
        ≡ (if q == p && points_to (s.ready_tail p) t then none else s.ready_tail q)
  unfolding rq_unlink
  tail-after q = ground arith

  bitmap-after : after.ready_bitmap ≡ (
      if is_null (rq_links s t)
      then bit_and s.ready_bitmap (bit_not 32 (2 ^ p))
      else s.ready_bitmap)
  unfolding rq_unlink
  bitmap-after = ground (arith, ==_refl p)

  Chain-after : (q : ℕ) → Chain (rq_links after) (after.ready_head q) (queues' q)
  Chain-after q = elim (ℕ_discrete q p) [
    | yes e ↦
        rw (e, ==_refl p, head-after p, ==_refl p)
          (Chain-frame (rq_links s) (rq_links after) rest (rq_links s t)
            (All-imp (λ y. y ≢ t) _ rest link-after NoDup-here.0) Chain-here)
    | no n ↦
        rw (ne→== q p n, head-after q, ne→== q p n)
          (Chain-frame (rq_links s) (rq_links after) (qs q) (s.ready_head q)
            (All-imp (Queued s q) _ (qs q)
              (λ u m. link-after u (λ e. n (sym m.1 ∙ ap (λ v. (s.threads v).prio) e ∙ here.1)))
              (r.marked q))
            (r.chains q))
  ]

  tails-after : (q : ℕ) → after.ready_tail q ≡ last (queues' q)
  tails-after q = elim (ℕ_discrete q p) [
    | yes e ↦ rw (e, tail-after p, ==_refl p, tail_here) (tail_of_rest t rest NoDup-here.0)
    | no n ↦ rw (tail-after q, ne→== q p n) (r.tails q)
  ]

  NoDup-after : (q : ℕ) → NoDup (queues' q)
  NoDup-after q = elim (ℕ_discrete q p) [
    | yes e ↦ rw (e, ==_refl p) NoDup-here.1
    | no n ↦ rw (ne→== q p n) (r.no_dup q)
  ]

  Queued-after : (q u : ℕ) → Queued s q u → u ≢ t → Queued after q u
  Queued-after q u m n = (ground (arith, mark-after u, m.0), (field-after u).0 ∙ m.1)

  marked-after : (q : ℕ) → All (Queued after q) (queues' q)
  marked-after q = elim (ℕ_discrete q p) [
    | yes e ↦
        rw (e, ==_refl p)
          (All-imp₂ rest (Queued-after p) (subst (All (Queued s p)) head (r.marked p)).1
            NoDup-here.0)
    | no n ↦ rw (ne→== q p n) (
        All-imp (Queued s q) (Queued after q) (qs q)
          (λ u m. Queued-after q u m (λ e. n (sym m.1 ∙ ap (λ v. (s.threads v).prio) e ∙ here.1)))
          (r.marked q))
  ]
    where
      All-imp₂ :
          (xs : List ℕ)
          → ((u : ℕ) → Queued s p u → u ≢ t → Queued after p u)
          → All (Queued s p) xs
          → All (λ y. y ≢ t) xs
          → All (Queued after p) xs
      All-imp₂ [] f h k = tt
      All-imp₂ (x ∷ xs) f h k = (f x h.0 k.0, All-imp₂ xs f h.1 k.1)

  complete-after :
      (u : ℕ) → (after.threads u).in_ready_q ≡ true → Has u (queues' (after.threads u).prio)
  complete-after u m =
      let n : u ≢ t = (λ e. not_marked u e m) in
      rw (field-after u).0 (kept u n (r.complete u (ground (arith, mark-after u))))
    where
      not_marked : (u : ℕ) → u ≡ t → (after.threads u).in_ready_q ≡ true → ⊥
      not_marked u e m = ground (arith, mark-after u)

      kept : (u : ℕ) → u ≢ t → Has u (qs (s.threads u).prio) → Has u (queues' (s.threads u).prio)
      kept u n h = elim (ℕ_discrete (s.threads u).prio p) [
        | yes e ↦ rw (e, ==_refl p) (behind u n (subst (Has u) (ap qs e ∙ head) h))
        | no k ↦ rw (ne→== (s.threads u).prio p k) h
      ]
        where
          behind : (u : ℕ) → u ≢ t → Has u (t ∷ rest) → Has u rest
          behind u n (inl e) = absurd (n (sym e))
          behind u n (inr h) = h

  bits_here : (b : Bool) → is_null (rq_links s t) ≡ b → bit p after.ready_bitmap ≡ nonempty rest
  bits_here true e =
      let z = null_of_nil (rq_links s) (rq_links s t) rest Chain-here in
      rw (bitmap-after, e) (bit-cleared_self 32 p s.ready_bitmap p_level ∙ ground (arith, z))
  bits_here false e =
      let z = null_of_nil (rq_links s) (rq_links s t) rest Chain-here in
      rw (bitmap-after, e) (r.bits p p_level ∙ ap nonempty head ∙ one_of_more rest (sym z ∙ e))
    where
      one_of_more :
          (xs : List ℕ) → (if nonempty xs == 0 then true else false) ≡ false → 1 ≡ nonempty xs
      one_of_more [] e = cc
      one_of_more (x ∷ xs) e = refl

  bits-after : (q : ℕ) → q < prio_levels → bit q after.ready_bitmap ≡ nonempty (queues' q)
  bits-after q small = elim (ℕ_discrete q p) [
    | yes e ↦ rw (e, ==_refl p) (bits_here (is_null (rq_links s t)) refl)
    | no n ↦
        rw (ne→== q p n, bitmap-after)
          (ground (arith, bit-cleared 32 q p s.ready_bitmap small p_level n, r.bits q small))
  ]

  word-after : after.ready_bitmap < 2 ^ 32
  word-after =
      rw bitmap-after
        (ground (arith, bit_and-lt 32 s.ready_bitmap (bit_not 32 (2 ^ p)) r.word, r.word))

  -- Taking the head off a queue leaves the other threads queued as they were.
  pub unlinked-Rep : Rep after queues'
  unlinked-Rep = record {
    levels = λ u. rw (field-after u).0 (r.levels u);
    in_table = λ u m. r.in_table u (ground (arith, mark-after u));
    chains = Chain-after;
    tails = tails-after;
    no_dup = NoDup-after;
    marked = marked-after;
    complete = complete-after;
    bits = bits-after;
    word = word-after;
  }

  pub state-unlinked : (u : ℕ) → (after.threads u).state ≡ (s.threads u).state
  state-unlinked u = (field-after u).1

  pub prio-unlinked : (u : ℕ) → (after.threads u).prio ≡ (s.threads u).prio
  prio-unlinked u = (field-after u).0

  pub mark-unlinked :
      (u : ℕ) → (after.threads u).in_ready_q ≡ (if u == t then false else (s.threads u).in_ready_q)
  mark-unlinked u = mark-after u

  pub head_of_queue : s.ready_head p ≡ some t
  head_of_queue = (subst (Chain (rq_links s) (s.ready_head p)) head (r.chains p)).0
