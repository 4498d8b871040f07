-- ===== src/Execreq/FailAll.antt =====
-- `execreq_fail_all` leaves no thread waiting for a request.
use native.Mathlib.Decide.{ℕ_discrete}
use robu_microkernel.Base.{
  ℕ, zero, suc, ◌+◌, ◌≡◌, ◌≢◌, ◌≤◌, ◌<◌, ◌⊎◌, refl, ap, subst, ◌∙◌, true, false, not, ◌&&◌, ◌||◌,
  some, arith, leb, ◌==◌, ◌!=◌, inl, inr, Bool-cases, Option-cases, ==_refl, ne→==,
}
use robu_microkernel.Sched.Types.{Sched, ThreadState, is_dead, is_zombie, is_running, max_threads}
use robu_microkernel.Sched.Wake.Deadline.{sched_wake-state}
use robu_microkernel.Sched.Wake.Kept.{sched_wake-Kept}
use robu_microkernel.Sched.Table.{sched_get_tcb}
use robu_microkernel.Status.{Status}
use robu_microkernel.Execreq.{Exec, is_empty, max_slots, free_slot}
use robu_microkernel.Execreq.Reply.{
  set_result, fail_requester, still_waiting, waiting_requester, fail_slot, fail_from,
  execreq_fail_all,
}

fail_requester-state :
    (s : Sched) (cpu t u : ℕ)
    → (((fail_requester s cpu t).threads u).state ≡ ThreadState.ready)
      ⊎ (((fail_requester s cpu t).threads u).state ≡ (s.threads u).state)
unfolding fail_requester
fail_requester-state s cpu t u =
    let s1 = set_result s t Status.not_found 0 in
    let st = (s1.threads t).state in
    let same : (s1.threads u).state ≡ (s.threads u).state = ground arith in
    let woken = (sched_wake-state s1 cpu t u).0 in
    elim (Bool-cases (u == t && not (is_dead st || is_running st || is_zombie st))) [
      | inl e ↦ inl (rw e at woken)
      | inr e ↦ inr ((rw e at woken) ∙ same)
    ]

fail_requester-woken :
    (s : Sched) (cpu t : ℕ)
    → (s.threads t).state ≡ ThreadState.wait_execreq
    → ((fail_requester s cpu t).threads t).state ≡ ThreadState.ready
unfolding fail_requester
fail_requester-woken s cpu t h =
    let s1 = set_result s t Status.not_found 0 in
    let same : (s1.threads t).state ≡ ThreadState.wait_execreq = rw (==_refl t) h in
    let woken = (sched_wake-state s1 cpu t t).0 in rw (same, ==_refl t) at woken

fail_requester-execreq_slot :
    (s : Sched) (cpu t u : ℕ)
    → ((fail_requester s cpu t).threads u).execreq_slot ≡ (s.threads u).execreq_slot
unfolding fail_requester
fail_requester-execreq_slot s cpu t u =
    let s1 = set_result s t Status.not_found 0 in
    let same : (s1.threads u).execreq_slot ≡ (s.threads u).execreq_slot = ground arith in
    (sched_wake-Kept s1 cpu t u).4 ∙ same

-- The thread waits for the request in the slot.
pub record WaitsFor {P : Type 0} (e : Exec P) (t i : ℕ) : Type 0 where
  pub in_table : t < max_threads
  pub no_null : t ≢ 0
  pub waits : (e.sched.threads t).state ≡ ThreadState.wait_execreq
  pub on_slot : (e.sched.threads t).execreq_slot ≡ i
  pub in_use : is_empty (e.slots i).state ≡ false
  pub asked : (e.slots i).params.requester_tid ≡ t

module _ {P : Type 0} (cpu : ℕ) where
  got : (e : Exec P) (t i : ℕ) → WaitsFor e t i → sched_get_tcb e.sched t ≡ some t
  unfolding sched_get_tcb
  got e t i w =
      let a : (t == 0) ≡ false = ne→== t 0 w.no_null in
      let b : leb max_threads t ≡ false = ground (arith, w.in_table) in rw (a, b, w.waits) refl

  found : (e : Exec P) (t i : ℕ) → WaitsFor e t i → waiting_requester e i ≡ some t
  unfolding waiting_requester still_waiting
  found e t i w =
      let named : sched_get_tcb e.sched (e.slots i).params.requester_tid ≡ some t =
        ap (sched_get_tcb e.sched) w.asked ∙ got e t i w in
      let here : (i != i) ≡ false = ground arith in
      ap (still_waiting e i) named ∙ rw (w.waits, w.on_slot, here) refl

  fail_slot-slots :
      (e : Exec P) (i j : ℕ)
      → (j ≢ i → (fail_slot e cpu i).slots j ≡ e.slots j)
        × (is_empty ((fail_slot e cpu i).slots i).state ≡ true)
  unfolding fail_slot free_slot
  fail_slot-slots e i j = elim (Bool-cases (is_empty (e.slots i).state)) [
    | inl z ↦ rw (z, z) (λ n. refl, refl)
    | inr z ↦ elim (Option-cases (waiting_requester e i)) [
      | inl w ↦ rw (z, w, ==_refl i) (λ n. rw (ne→== j i n) refl, refl)
      | inr (t, w) ↦ rw (z, w, ==_refl i) (λ n. rw (ne→== j i n) refl, refl)
    ]
  ]

  fail_slot-threads :
      (e : Exec P) (i u : ℕ)
      → ((((fail_slot e cpu i).sched.threads u).state ≡ ThreadState.ready)
          ⊎ (((fail_slot e cpu i).sched.threads u).state ≡ (e.sched.threads u).state))
        × (((fail_slot e cpu i).sched.threads u).execreq_slot ≡ (e.sched.threads u).execreq_slot)
  unfolding fail_slot free_slot
  fail_slot-threads e i u = elim (Bool-cases (is_empty (e.slots i).state)) [
    | inl z ↦ rw z (inr refl, refl)
    | inr z ↦ elim (Option-cases (waiting_requester e i)) [
      | inl w ↦ rw (z, w) (inr refl, refl)
      | inr (t, w) ↦
          rw (z, w)
            (fail_requester-state e.sched cpu t u, fail_requester-execreq_slot e.sched cpu t u)
    ]
  ]

  fail_slot-woken :
      (e : Exec P) (t i : ℕ)
      → WaitsFor e t i
      → ((fail_slot e cpu i).sched.threads t).state ≡ ThreadState.ready
  unfolding fail_slot free_slot
  fail_slot-woken e t i w =
      rw (w.in_use, found e t i w) (fail_requester-woken e.sched cpu t w.waits)

  stays_ready :
      (n i : ℕ) (e : Exec P) (t : ℕ)
      → (e.sched.threads t).state ≡ ThreadState.ready
      → ((fail_from n i e cpu).sched.threads t).state ≡ ThreadState.ready
  unfolding fail_from
  stays_ready zero i e t h = h
  stays_ready (suc n) i e t h = elim (fail_slot-threads e i t).0 [
    | inl r ↦ stays_ready n (i + 1) (fail_slot e cpu i) t r
    | inr r ↦ stays_ready n (i + 1) (fail_slot e cpu i) t (r ∙ h)
  ]

  stays_empty : (n i : ℕ) (e : Exec P) (j : ℕ) → j < i → (fail_from n i e cpu).slots j ≡ e.slots j
  unfolding fail_from
  stays_empty zero i e j h = refl
  stays_empty (suc n) i e j h =
      stays_empty n (i + 1) (fail_slot e cpu i) j (omega arith)
      ∙ (fail_slot-slots e i j).0 (λ q. omega arith)

  loop-empties :
      (n i : ℕ) (e : Exec P) (j : ℕ)
      → i ≤ j
      → j < i + n
      → is_empty ((fail_from n i e cpu).slots j).state ≡ true
  unfolding fail_from
  loop-empties zero i e j a b = absurd (omega arith)
  loop-empties (suc n) i e j a b = elim (ℕ_discrete j i) [
    | yes q ↦
        rw (q, stays_empty n (i + 1) (fail_slot e cpu i) i (omega arith)) (fail_slot-slots e i i).1
    | no d ↦ loop-empties n (i + 1) (fail_slot e cpu i) j (omega arith) (omega arith)
  ]

  loop-wakes :
      (n i : ℕ) (e : Exec P) (t j : ℕ)
      → i ≤ j
      → j < i + n
      → WaitsFor e t j
      → ((fail_from n i e cpu).sched.threads t).state ≡ ThreadState.ready
  unfolding fail_from
  loop-wakes zero i e t j a b w = absurd (omega arith)
  loop-wakes (suc n) i e t j a b w = elim (ℕ_discrete j i) [
    | yes q ↦
        stays_ready n (i + 1) (fail_slot e cpu i) t
          (fail_slot-woken e t i (subst (WaitsFor e t) q w))
    | no d ↦ elim (fail_slot-threads e i t).0 [
      | inl r ↦ stays_ready n (i + 1) (fail_slot e cpu i) t r
      | inr r ↦
          let same = (fail_slot-slots e i j).0 d in
          loop-wakes n (i + 1) (fail_slot e cpu i) t j (omega arith) (omega arith) (record {
            in_table = w.in_table;
            no_null = w.no_null;
            waits = r ∙ w.waits;
            on_slot = (fail_slot-threads e i t).1 ∙ w.on_slot;
            in_use = ap (λ x. is_empty x.state) same ∙ w.in_use;
            asked = ap (λ x. x.params.requester_tid) same ∙ w.asked;
          })
    ]
  ]

  -- When all requests are failed, every thread that waits for one becomes ready.
  pub execreq_fail_all-WaitsFor :
      (e : Exec P) (t i : ℕ)
      → i < max_slots
      → WaitsFor e t i
      → ((execreq_fail_all e cpu).sched.threads t).state ≡ ThreadState.ready
  unfolding execreq_fail_all
  execreq_fail_all-WaitsFor e t i h w = loop-wakes max_slots 0 e t i (omega arith) (omega arith) w

  -- When all requests are failed, every slot is empty.
  pub execreq_fail_all-is_empty :
      (e : Exec P) (i : ℕ)
      → i < max_slots
      → is_empty ((execreq_fail_all e cpu).slots i).state ≡ true
  unfolding execreq_fail_all
  execreq_fail_all-is_empty e i h = loop-empties max_slots 0 e i (omega arith) (omega arith)
