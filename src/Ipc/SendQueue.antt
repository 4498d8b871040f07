-- ===== src/Ipc/SendQueue.antt =====
-- The queue of senders is a list: `sendq_append` adds at its end, `sendq_take` takes out the first that
-- the filter lets through.
use robu_microkernel.Base.{
  ℕ, zero, suc, ◌<◌, ◌≤◌, ◌≡◌, refl, sym, subst, ◌∙◌, ◌≢◌, Option, none, some, List, [], ◌∷◌, ◌++◌,
  if◌then◌else◌, arith, length, inl, inr, ==_refl, Option-cases, Bool-cases,
}
use robu_microkernel.Base.Chain.{
  Chain, Chain-frame, Chain-snoc, last, last-snoc, last-none, NoDup, NoDup-snoc, NotIn, All-imp,
  All-last,
}
use robu_microkernel.Base.Removal.{
  append_assoc, NoDup-middle, is_node, tail_of_removed, Chain-removed,
}
use robu_microkernel.Sched.Types.{Sched}
use robu_microkernel.Ipc.Queue.{sendq_append, unlink_sender, filtered_out, take_loop, sendq_take}

abbrev pub sq_links : Sched → ℕ → Option ℕ
sq_links s t = (s.threads t).sq_next

-- The senders that wait for `rcv` are `ts`, in this order.
pub record SendQ (s : Sched) (rcv : ℕ) (ts : List ℕ) : Type 0 where
  pub chain : Chain (sq_links s) (s.threads rcv).send_q_head ts
  pub tail : (s.threads rcv).send_q_tail ≡ last ts
  pub no_dup : NoDup ts

append-ends : (s : Sched) (rcv t : ℕ) → ((sendq_append s rcv t).threads rcv).send_q_tail ≡ some t
unfolding sendq_append
append-ends s rcv t = ground (arith, ==_refl rcv)

append-first :
    (s : Sched) (rcv t : ℕ)
    → (s.threads rcv).send_q_tail ≡ none
    → (((sendq_append s rcv t).threads rcv).send_q_head ≡ some t)
      × (sq_links (sendq_append s rcv t) t ≡ none)
unfolding sendq_append
append-first s rcv t e = (ground (arith, ==_refl rcv), ground (arith, ==_refl t))

append-behind :
    (s : Sched) (rcv t l : ℕ)
    → (s.threads rcv).send_q_tail ≡ some l
    → l ≢ t
    → (((sendq_append s rcv t).threads rcv).send_q_head ≡ (s.threads rcv).send_q_head)
      × (sq_links (sendq_append s rcv t) l ≡ some t)
      × (sq_links (sendq_append s rcv t) t ≡ none)
      × ((y : ℕ) → y ≢ l → y ≢ t → sq_links (sendq_append s rcv t) y ≡ sq_links s y)
unfolding sendq_append
append-behind s rcv t l e n = (ground arith, ground arith, ground arith, λ y a b. ground arith)

-- A sender that does not wait there yet comes behind those that do.
pub sendq_append-SendQ :
    (s : Sched) (rcv t : ℕ) (ts : List ℕ)
    → SendQ s rcv ts
    → NotIn t ts
    → SendQ (sendq_append s rcv t) rcv (ts ++ t ∷ [])
sendq_append-SendQ s rcv t ts q n = elim (Option-cases (last ts)) [
  | inl e ↦
      let empty = last-none ts e in
      let (a, b) = append-first s rcv t (q.tail ∙ e) in
      rw empty (record { chain = (a, b); tail = append-ends s rcv t; no_dup = (tt, tt) })
  | inr (l, e) ↦
      let l_ne = All-last (λ y. y ≢ t) ts l n e in
      let (a, b, c, d) = append-behind s rcv t l (q.tail ∙ e) l_ne in
      record {
        chain =
            subst (λ h. Chain (sq_links (sendq_append s rcv t)) h (ts ++ t ∷ [])) (sym a)
              (Chain-snoc (sq_links s) (sq_links (sendq_append s rcv t)) ts
                (s.threads rcv).send_q_head l t q.chain q.no_dup n e b c d);
        tail = append-ends s rcv t ∙ sym (last-snoc ts t);
        no_dup = NoDup-snoc ts t q.no_dup n;
      }
]

-- The first of the senders that the filter lets through, and the others.
abbrev pub first_match : ℕ → List ℕ → Option ℕ
first_match filter [] = none
first_match filter (t ∷ ts) = if filtered_out filter t then first_match filter ts else some t

abbrev pub others : ℕ → List ℕ → List ℕ
others filter [] = []
others filter (t ∷ ts) = if filtered_out filter t then t ∷ others filter ts else ts

module _ (s : Sched) (rcv t : ℕ) where
  unlink-head : ((unlink_sender s rcv none t).threads rcv).send_q_head ≡ sq_links s t
  unfolding unlink_sender
  unlink-head = ground (arith, ==_refl rcv)

  unlink-head_kept :
      (p : ℕ)
      → ((unlink_sender s rcv (some p) t).threads rcv).send_q_head ≡ (s.threads rcv).send_q_head
  unfolding unlink_sender
  unlink-head_kept p = ground (arith, ==_refl rcv)

  unlink-tail :
      (prev : Option ℕ)
      → ((unlink_sender s rcv prev t).threads rcv).send_q_tail
        ≡ (if is_node (s.threads rcv).send_q_tail t then prev else (s.threads rcv).send_q_tail)
  unfolding unlink_sender
  unlink-tail none = ground (arith, ==_refl rcv)
  unlink-tail (some p) = ground (arith, ==_refl rcv)

  unlink-links : (y : ℕ) → y ≢ t → sq_links (unlink_sender s rcv none t) y ≡ sq_links s y
  unfolding unlink_sender
  unlink-links y n = ground arith

  unlink-links_behind :
      (p y : ℕ) → y ≢ p → y ≢ t → sq_links (unlink_sender s rcv (some p) t) y ≡ sq_links s y
  unfolding unlink_sender
  unlink-links_behind p y n m = ground arith

  unlink-link_over : (p : ℕ) → p ≢ t → sq_links (unlink_sender s rcv (some p) t) p ≡ sq_links s t
  unfolding unlink_sender
  unlink-link_over p n = ground (arith, ==_refl p)

  unlink-SendQ :
      (front behind : List ℕ)
      → SendQ s rcv (front ++ t ∷ behind)
      → SendQ (unlink_sender s rcv (last front) t) rcv (front ++ behind)
  unlink-SendQ front behind q = record {
    chain = elim (Option-cases (last front)) [
      | inl e ↦ first (last-none front e)
      | inr (p, e) ↦ rw e (
          rw (unlink-head_kept p) (
            Chain-removed (sq_links s) (sq_links (unlink_sender s rcv (some p) t)) front
              (s.threads rcv).send_q_head p t behind q.chain q.no_dup e
              (unlink-link_over p (All-last (λ y. y ≢ t) front p apart.0 e))
              (unlink-links_behind p)))
    ];
    tail = unlink-tail (last front) ∙ rw q.tail (tail_of_removed front t behind apart.1);
    no_dup = (NoDup-middle front t behind q.no_dup).0;
  }
    where
      halves : (us vs : List ℕ) → NotIn t (us ++ vs) → NotIn t us × NotIn t vs
      halves [] vs n = (tt, n)
      halves (u ∷ us) vs n = let (a, b) = halves us vs n.1 in ((n.0, a), b)

      apart : NotIn t front × NotIn t behind
      apart = halves front behind (NoDup-middle front t behind q.no_dup).1

      first :
          front ≡ []
          → Chain
              (sq_links (unlink_sender s rcv (last front) t))
              ((unlink_sender s rcv (last front) t).threads rcv).send_q_head
              (front ++ behind)
      first e =
          let c = q.chain in
          rw e (
            rw unlink-head (
              Chain-frame (sq_links s) (sq_links (unlink_sender s rcv none t)) behind (sq_links s t)
                (All-imp (λ y. y ≢ t) _ behind unlink-links apart.1) ((rw e at c).1)))

loop-first_match :
    (fuel : ℕ) (s : Sched) (rcv filter : ℕ) (front behind : List ℕ) (o : Option ℕ)
    → SendQ s rcv (front ++ behind)
    → Chain (sq_links s) o behind
    → length behind < fuel
    → (s' : Sched) × (take_loop fuel s rcv filter (last front) o
        ≡ some (first_match filter behind, s'))
      × SendQ s' rcv (front ++ others filter behind)
unfolding take_loop
loop-first_match zero s rcv filter front behind o q c h = absurd (omega arith)
loop-first_match (suc fuel) s rcv filter front [] o q c h = rw c (s, refl, q)
loop-first_match (suc fuel) s rcv filter front (t ∷ behind) o q c h =
    elim (Bool-cases (filtered_out filter t)) [
      | inl e ↦
          let further = append_assoc front (t ∷ []) behind in
          let (s', r, k) =
            loop-first_match fuel s rcv filter (front ++ t ∷ []) behind (sq_links s t)
              (subst (SendQ s rcv) (sym further) q) c.1 (omega arith) in
          rw (c.0, e)
            (
              s',
              subst
                  (λ p.
                    take_loop fuel s rcv filter p (sq_links s t)
                    ≡ some (first_match filter behind, s'))
                  (last-snoc front t) r,
              subst (SendQ s' rcv) (append_assoc front (t ∷ []) (others filter behind)) k,
            )
      | inr e ↦
          rw (c.0, e)
            (unlink_sender s rcv (last front) t, refl, unlink-SendQ s rcv t front behind q)
    ]

-- `sendq_take` finds the first sender that the filter lets through, in the order in which they came,
-- and takes it out of the queue; the order of the others stays. It ends, for a queue of no more than
-- all the threads.
pub sendq_take_lem :
    (s : Sched) (rcv filter : ℕ) (ts : List ℕ)
    → SendQ s rcv ts
    → length ts ≤ 64
    → (s' : Sched) × (sendq_take s rcv filter ≡ some (first_match filter ts, s'))
      × SendQ s' rcv (others filter ts)
unfolding sendq_take
sendq_take_lem s rcv filter ts q h =
    loop-first_match 65 s rcv filter [] ts (s.threads rcv).send_q_head q q.chain (omega arith)
