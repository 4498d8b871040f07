-- ===== src/Captable/Tests.antt =====
-- The theorems about src/core/captable.c at concrete inputs. The table is full, so that the next grant
-- moves it.
use robu_microkernel.Base.{ℕ, ◌≤◌, ◌<◌, ◌≡◌, refl, true, false, some, arith}
use robu_microkernel.Captable.Sample.{notif_cap, caps}
use robu_microkernel.Untyped.{Untyped}
use robu_microkernel.Captable.{
  CapKind, Kcap, Notification, Timer, Caps, Taken, entry, zero_kcap, validate, kind_number,
  kcap_grant, cap_notif_signal, cap_notif_wait_begin, cap_notif_poll, cap_timer_arm,
  cap_timer_disarm,
}
use robu_microkernel.Captable.Grant.{TableIsValid, GrantedAt, kcap_grant_lem}
use robu_microkernel.Captable.Notify.{HoldsNotification, unauthorized_refused, signal_then_poll}
use robu_microkernel.Captable.Timers.{cap_timer_rescan, cap_timer_rescan_lem, IsArmed}

caps-TableIsValid : TableIsValid caps
caps-TableIsValid = record {
  counted = omega arith;
  small = omega arith;
  present = λ e. absurd (ground arith);
}

grant_test : (kcap_grant caps 4 CapKind.frame 0x3000 0x1000).1.kcap_capacity ≡ 4
unfolding kcap_grant robu_microkernel.Captable.grow robu_microkernel.Untyped.untyped_alloc
    robu_microkernel.Untyped.aligned_size
grant_test = refl

kcap_grant_lem_example :
    let (ok, c') = kcap_grant caps 4 CapKind.frame 0x3000 0x1000 in
    ((i : ℕ) → i < 2 → entry c' i ≡ entry caps i)
    × (ok ≡ false → c'.kcap_count ≡ 2)
    × (ok ≡ true → GrantedAt c' 2 4 CapKind.frame 0x3000 0x1000)
kcap_grant_lem_example = kcap_grant_lem caps 4 CapKind.frame 0x3000 0x1000 caps-TableIsValid

-- The notification in slot 0 is thread 2's.
stranger : ¬ HoldsNotification caps 4 0
stranger h = omega (arith, h.1)

unauthorized_refused_example :
    (cap_notif_signal caps 0 4 0 8 ≡ (false, caps))
    × (cap_notif_wait_begin caps 4 0 ≡ (Taken.refused, caps))
    × (cap_notif_poll caps 4 0 ≡ (Taken.refused, caps))
    × (cap_timer_arm caps 4 1 0 10 8 0 ≡ (false, caps))
unauthorized_refused_example = unauthorized_refused caps 0 4 0 1 8 10 0 stranger

owner_validated : validate caps 2 0 CapKind.notification ≡ some notif_cap
unfolding validate
owner_validated = refl

signal_then_poll_example :
    let (ok, c1) = cap_notif_signal caps 0 2 0 8 in
    let (taken, c2) = cap_notif_poll c1 2 0 in
    (ok ≡ true) × (taken ≡ Taken.got 13) × ((c2.notif_table 3).word ≡ 0)
signal_then_poll_example =
    signal_then_poll caps 0 2 0 8 2 0 notif_cap notif_cap owner_validated owner_validated refl refl

rescan_test : (cap_timer_rescan caps 0 100).0 ≡ 104
unfolding cap_timer_rescan robu_microkernel.Captable.notif_deliver
    robu_microkernel.Captable.Timers.catch_up robu_microkernel.Captable.Timers.fire
    robu_microkernel.Captable.Timers.rescan_from
rescan_test = refl

still-IsArmed : IsArmed ((cap_timer_rescan caps 0 100).1.timer_table 0)
unfolding cap_timer_rescan robu_microkernel.Captable.notif_deliver
    robu_microkernel.Captable.Timers.catch_up robu_microkernel.Captable.Timers.fire
    robu_microkernel.Captable.Timers.rescan_from
still-IsArmed = (refl, refl)

cap_timer_rescan_lem_example :
    let (next, c') = cap_timer_rescan caps 0 100 in
    (100 < (c'.timer_table 0).deadline_tick) × (next ≤ (c'.timer_table 0).deadline_tick)
cap_timer_rescan_lem_example =
    cap_timer_rescan_lem caps 0 100 0 (λ j. omega arith) (omega arith) still-IsArmed
