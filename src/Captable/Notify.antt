-- ===== src/Captable/Notify.antt =====
-- Notifications: no bit is lost, and who has no capability can do nothing.
use Prim.Native.Nat.{bit_or}
use robu_microkernel.Base.{
  ℕ, ◌<◌, ◌≡◌, refl, ap, ◌∙◌, inl, inr, true, false, ◌||◌, none, some, arith, leb, ◌==◌, ◌!=◌,
  if◌then◌else◌, Bool-cases, Option-cases, ==_refl,
}
use robu_microkernel.Captable.{
  Caps, Kcap, CapKind, Notification, Taken, entry, kind_number, validate, notif_deliver,
  cap_notif_signal, cap_notif_wait_begin, cap_notif_poll, cap_timer_arm, put_notification,
}

-- The caller holds a capability for a notification in the slot: the slot is one of the table, and its entry
-- is of the caller and of that kind.
abbrev pub HoldsNotification : Caps → ℕ → ℕ → Type 0
HoldsNotification c caller slot =
    (slot < c.kcap_count)
    × ((entry c slot).owner ≡ caller)
    × ((entry c slot).kind ≡ CapKind.notification)

notification_of : (k : CapKind) → kind_number k ≡ 4 → k ≡ CapKind.notification
notification_of CapKind.untyped e = absurd (omega (arith, e))
notification_of CapKind.frame e = absurd (omega (arith, e))
notification_of CapKind.addrspace e = absurd (omega (arith, e))
notification_of CapKind.tcb e = absurd (omega (arith, e))
notification_of CapKind.notification e = refl
notification_of CapKind.timer e = absurd (omega (arith, e))
notification_of CapKind.invalid e = absurd (omega (arith, e))

validate-none :
    (c : Caps) (caller slot : ℕ)
    → ¬ HoldsNotification c caller slot
    → validate c caller slot CapKind.notification ≡ none
unfolding validate
validate-none c caller slot n = elim (Bool-cases (leb c.kcap_count slot)) [
  | inl e ↦ rw e refl
  | inr e ↦
      let cap = entry c slot in
      elim (Bool-cases (cap.owner != caller || kind_number cap.kind != 4)) [
        | inl q ↦ rw (e, q) refl
        | inr q ↦ absurd (n (ground arith, ground arith, notification_of cap.kind (ground arith)))
      ]
]

-- A caller that holds no capability for a notification in a slot, because the slot is not in the table, or
-- its entry is another thread's or of another kind, can by it neither signal, nor wait, nor poll, nor
-- bind any timer: all four calls are refused, and nothing changes.
pub unauthorized_refused :
    (c : Caps) (cpu caller slot timer_slot bits ticks period : ℕ)
    → ¬ HoldsNotification c caller slot
    → (cap_notif_signal c cpu caller slot bits ≡ (false, c))
      × (cap_notif_wait_begin c caller slot ≡ (Taken.refused, c))
      × (cap_notif_poll c caller slot ≡ (Taken.refused, c))
      × (cap_timer_arm c caller timer_slot slot ticks bits period ≡ (false, c))
unfolding cap_notif_signal cap_notif_wait_begin cap_notif_poll cap_timer_arm
unauthorized_refused c cpu caller slot timer_slot bits ticks period n =
    let e = validate-none c caller slot n in
    let unbound : cap_timer_arm c caller timer_slot slot ticks bits period ≡ (false, c) =
      elim (Option-cases (validate c caller timer_slot CapKind.timer)) [
        | inl m ↦ rw (m, cap_timer_arm) refl
        | inr (t, m) ↦ rw (m, e, cap_timer_arm) refl
      ] in
    (
      rw (e, cap_notif_signal) refl,
      rw (e, cap_notif_wait_begin) refl,
      rw (e, cap_notif_poll) refl,
      unbound,
    )

deliver_kept :
    (c : Caps) (cpu idx bits : ℕ)
    → (c.notif_table idx).waiter ≡ 0
    → notif_deliver c cpu idx bits
      ≡ put_notification c idx
          (record (c.notif_table idx) { word = bit_or (c.notif_table idx).word bits })
unfolding notif_deliver
deliver_kept c cpu idx bits w =
    let nobody : ((c.notif_table idx).waiter != 0) ≡ false = ground arith in rw nobody refl

validate-put_notification :
    (c : Caps) (i : ℕ) (n : Notification) (caller slot : ℕ) (kind : CapKind)
    → validate (put_notification c i n) caller slot kind ≡ validate c caller slot kind
unfolding validate
validate-put_notification c i n caller slot kind = refl

-- A poll by a caller with the capability takes the whole word and leaves 0, unless it is 0.
poll_lem :
    (c : Caps) (caller slot : ℕ) (cap : Kcap)
    → validate c caller slot CapKind.notification ≡ some cap
    → let word = (c.notif_table cap.addr).word in
      let (taken, c') = cap_notif_poll c caller slot in
      (taken ≡ (if word == 0 then Taken.nothing else Taken.got word))
      × ((c'.notif_table cap.addr).word ≡ 0)
unfolding cap_notif_poll
poll_lem c caller slot cap v = elim (Bool-cases ((c.notif_table cap.addr).word == 0)) [
  | inl e ↦ rw (v, cap_notif_poll, e) (refl, ground arith)
  | inr e ↦ rw (v, cap_notif_poll, e, ==_refl cap.addr) (refl, refl)
]

signal_kept :
    (c : Caps) (cpu caller slot bits : ℕ) (cap : Kcap)
    → validate c caller slot CapKind.notification ≡ some cap
    → (c.notif_table cap.addr).waiter ≡ 0
    → cap_notif_signal c cpu caller slot bits ≡ (
      true,
      put_notification c cap.addr
          (record (c.notif_table cap.addr) { word = bit_or (c.notif_table cap.addr).word bits }),
    )
unfolding cap_notif_signal
signal_kept c cpu caller slot bits cap v w =
    rw (v, cap_notif_signal) (ap (λ x. (true, x)) (deliver_kept c cpu cap.addr bits w))

-- A signal by a caller with the capability, to a notification on which nobody waits, adds its bits to
-- the word, and the next poll by a caller with the capability takes all of the word and leaves 0;
-- only of a word that is 0 there is nothing to take.
pub signal_then_poll :
    (c : Caps) (cpu caller slot bits poller poll_slot : ℕ) (cap cap' : Kcap)
    → validate c caller slot CapKind.notification ≡ some cap
    → validate c poller poll_slot CapKind.notification ≡ some cap'
    → cap'.addr ≡ cap.addr
    → (c.notif_table cap.addr).waiter ≡ 0
    → let word = bit_or (c.notif_table cap.addr).word bits in
      let (ok, c1) = cap_notif_signal c cpu caller slot bits in
      let (taken, c2) = cap_notif_poll c1 poller poll_slot in
      (ok ≡ true)
      × (taken ≡ (if word == 0 then Taken.nothing else Taken.got word))
      × ((c2.notif_table cap.addr).word ≡ 0)
signal_then_poll c cpu caller slot bits poller poll_slot cap cap' v v' e w =
    let n = record (c.notif_table cap.addr) { word = bit_or (c.notif_table cap.addr).word bits } in
    let c1 = put_notification c cap.addr n in
    let p =
      poll_lem c1 poller poll_slot cap'
        (validate-put_notification c cap.addr n poller poll_slot CapKind.notification ∙ v') in
    rw (signal_kept c cpu caller slot bits cap v w)
      (let q = rw (e, ==_refl cap.addr) at p in (refl, q.0, q.1))
