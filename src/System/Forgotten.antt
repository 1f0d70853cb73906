-- ===== src/System/Forgotten.antt =====
-- system.c and rtc.c: an alarm that has been cleared, and its time that is remembered.
use nyx_modules.Base.{
  ℕ, ℤ, pos, ◌==ℤ◌, ◌==◌, Bool, true, false, some, ◌≡◌, refl, sym, ap, ◌∙◌, inl, inr,
}
use mathlib.Core.Option.{none-ne-some}
use nyx_modules.Nyx.{NyxError, ok}
use nyx_modules.System.Rtc.{
  Wkalrm, Driver, Calendar, Rtc, is_negative, rtc_read_alarm, rtc_clear_alarm, rtc_set_alarm_time,
}
use nyx_modules.System.Alarm.{IsStoring, IsOff, clear-Keeps, clear_lem, set_remembered}
use nyx_modules.System.Device.{System, set_open, system_set_alarm}
use nyx_modules.System.Methods.{set_alarm_open, set_open_new, set_callback-Calls}

module _ {Hw : Type 0} (drv : Driver Hw) (cal : Calendar) where
  set_open_zero :
      (func : ℕ) (s : System Hw)
      → set_open drv cal (pos 0) func s ≡ (record s { rtc = (rtc_clear_alarm drv s.rtc).0 }, ok)
  unfolding set_open
  set_open_zero func s = refl

  was_off :
      IsStoring drv
      → (r : Rtc Hw) (a : Wkalrm) → rtc_read_alarm drv r ≡ some a
      → (rtc_clear_alarm drv r).1 ≡ true
      → (b : Wkalrm) × (rtc_read_alarm drv (rtc_clear_alarm drv r).0 ≡ some b) × (b.enabled ≡ false)
  unfolding IsOff
  was_off law r a read success = elim (clear_lem drv law r success) [
    | inl e ↦ absurd (none-ne-some a (sym e ∙ read))
    | inr off ↦ off
  ]

  -- An open device remembers the time of its last alarm also when the alarm has been cleared: for a
  -- driver that stores alarms, and with an alarm that can be read and be cleared, a call that sets
  -- the alarm to that time again, if it is not 0, with a callback, succeeds while the alarm stays
  -- off.
  pub alarm_lost :
      IsStoring drv
      → (time : ℤ) (func other : ℕ) (s : System Hw) (a : Wkalrm) → is_negative s.rtc.rtc_fd ≡ false
      → time ==ℤ pos 0 ≡ false
      → time ≡ s.rtc.curr_expiry
      → func == 0 ≡ false
      → rtc_read_alarm drv s.rtc ≡ some a
      → (rtc_clear_alarm drv s.rtc).1 ≡ true
      → let cleared = (system_set_alarm drv cal s.nyx_dev (pos 0) other s).0 in
        let set = system_set_alarm drv cal s.nyx_dev time func cleared in
        (set.1 ≡ ok) × IsOff drv set.0.rtc
  unfolding IsOff
  alarm_lost law time func other s a opened nonzero last callback read success =
      let c = (rtc_clear_alarm drv s.rtc).0 in
      let s1 = record s { rtc = c } in
      let kept = clear-Keeps drv s.rtc in
      let zero_set = set_alarm_open drv cal (pos 0) other s opened ∙ set_open_zero other s in
      let again = set_remembered drv cal time c (last ∙ sym kept.1) in
      let set =
        set_alarm_open drv cal time func s1 (ap (λ (n : ℤ). is_negative n) kept.0.fd ∙ opened)
        ∙ set_open_new drv cal time func s1 nonzero (ap (λ (p : Rtc Hw × Bool). p.1) again) in
      let calls =
        set_callback-Calls drv cal func (record s1 { rtc = (rtc_set_alarm_time drv cal time c).0 })
          callback in
      let (b, reads, off) = was_off law s.rtc a read success in
      rw zero_set (
        ap (λ (p : System Hw × NyxError). p.1) set,
        (
          b,
          ap (λ (p : System Hw × NyxError). rtc_read_alarm drv p.0.rtc) set
              ∙ calls.alarm
              ∙ ap (λ (p : Rtc Hw × Bool). rtc_read_alarm drv p.0) again
              ∙ reads,
          off,
        ),
      )
