-- ===== src/System/Methods.antt =====
-- system.c: an alarm that is set, and that could not be set.
use nyx_modules.Base.{
  ltb_ℤ, if◌then◌else◌, ◌+ℤ◌, ℕ, ℤ, pos, ◌==ℤ◌, ◌==◌, eq→==, Bool, true, false, if_elim, Bool-cases,
  Option, none, some, ◌≡◌, refl, sym, ap, ◌∙◌, inl, inr,
}
use mathlib.Core.Bool.{false≢true}
use mathlib.Core.Path.{subst}
use nyx_modules.Nyx.{NyxError, ok, is_ok, invalid_operation}
use nyx_modules.System.Rtc.{
  Driver, Calendar, Rtc, is_negative, watch_from, unwatch_from, rtc_close, rtc_clear_watch,
  rtc_add_watch, rtc_open, rtc_read_alarm, now_of, floored, rtc_time, rtc_set_alarm_time,
  rtc_read_alarm_time,
}
use nyx_modules.System.Alarm.{
  IsInverse, IsStoring, set_time-Keeps, set_remembered, set-remembers, set-reads,
}
use nyx_modules.System.Device.{
  System, set_callback, set_open, system_set_alarm, system_query_next_alarm,
}

floored_lem :
    (now time : ℤ) → floored now time ≡ (if ltb_ℤ time (now +ℤ pos 2) then now +ℤ pos 2 else time)
unfolding floored
floored_lem now time = refl

module _ {Hw : Type 0} (drv : Driver Hw) (cal : Calendar) where
  rtc_open_again : (s : Rtc Hw) → is_negative s.rtc_fd ≡ false → rtc_open drv s ≡ (s, true)
  unfolding rtc_open
  rtc_open_again s h = rw h refl

  -- A method of an open device, called with its handle.
  pub set_alarm_open :
      (time : ℤ) (func : ℕ) (s : System Hw)
      → is_negative s.rtc.rtc_fd ≡ false
      → system_set_alarm drv cal s.nyx_dev time func s ≡ set_open drv cal time func s
  unfolding system_set_alarm
  set_alarm_open time func s h = rw (eq→== s.nyx_dev s.nyx_dev refl, rtc_open_again s.rtc h) refl

  query_open :
      (s : System Hw)
      → is_negative s.rtc.rtc_fd ≡ false
      → system_query_next_alarm drv cal s.nyx_dev s ≡ (s, ok, rtc_read_alarm_time drv cal s.rtc)
  unfolding system_query_next_alarm
  query_open s h = rw (eq→== s.nyx_dev s.nyx_dev refl, rtc_open_again s.rtc h) refl

  -- An alarm is set for a time that is not 0.
  pub set_open_new :
      (time : ℤ) (func : ℕ) (s : System Hw)
      → time ==ℤ pos 0 ≡ false
      → (rtc_set_alarm_time drv cal time s.rtc).1 ≡ true
      → set_open drv cal time func s
        ≡ (set_callback func (record s { rtc = (rtc_set_alarm_time drv cal time s.rtc).0 }), ok)
  unfolding set_open
  set_open_new time func s h good = rw (h, good) refl

  set_open_fails :
      (time : ℤ) (func : ℕ) (s : System Hw)
      → time ==ℤ pos 0 ≡ false
      → (rtc_set_alarm_time drv cal time s.rtc).1 ≡ false
      → set_open drv cal time func s
        ≡ (record s { rtc = (rtc_set_alarm_time drv cal time s.rtc).0 }, invalid_operation)
  unfolding set_open
  set_open_fails time func s h bad = rw (h, bad) refl

  set_callback-hw : (func : ℕ) (s : System Hw) → (set_callback func s).rtc.hw ≡ s.rtc.hw
  unfolding set_callback rtc_add_watch rtc_clear_watch
  set_callback-hw func s =
      if_elim (λ (s' : System Hw). s'.rtc.hw ≡ s.rtc.hw) (func == 0) (unwatch s.rtc.rtc_channel)
        (watch s.rtc.rtc_channel)
    where
      unwatch : (o : Option ℤ) → (unwatch_from o s.rtc).hw ≡ s.rtc.hw
      unwatch none = unfold unwatch_from in refl
      unwatch (some fd) =
          unfold unwatch_from rtc_close in
          if_elim (λ (r : Rtc Hw). r.hw ≡ s.rtc.hw) (is_negative s.rtc.rtc_fd) refl refl

      watch : (o : Option ℤ) → (watch_from o s.rtc).hw ≡ s.rtc.hw
      watch none = unfold watch_from in refl
      watch (some fd) = unfold watch_from in refl

  -- On an open device, when an alarm for a time that is not 0 could not be set, the call fails; the
  -- same call again, on the device that is still open, succeeds without any change of the hardware.
  pub retry_succeeds :
      (time : ℤ) (func : ℕ) (s : System Hw)
      → is_negative s.rtc.rtc_fd ≡ false
      → time ==ℤ pos 0 ≡ false
      → (rtc_set_alarm_time drv cal time s.rtc).1 ≡ false
      → let first = system_set_alarm drv cal s.nyx_dev time func s in
        let second = system_set_alarm drv cal s.nyx_dev time func first.0 in
        (first.1 ≡ invalid_operation) × (second.1 ≡ ok) × (second.0.rtc.hw ≡ first.0.rtc.hw)
  retry_succeeds time func s opened nonzero bad =
      let r = (rtc_set_alarm_time drv cal time s.rtc).0 in
      let s1 = record s { rtc = r } in
      let kept = set_time-Keeps drv cal time s.rtc in
      let again = set_remembered drv cal time r (set-remembers drv cal time s.rtc) in
      let e1 = set_alarm_open time func s opened ∙ set_open_fails time func s nonzero bad in
      let e2 =
        set_alarm_open time func s1 (ap (λ (n : ℤ). is_negative n) kept.fd ∙ opened)
        ∙ set_open_new time func s1 nonzero (ap (λ (p : Rtc Hw × Bool). p.1) again) in
      rw e1 (
        refl,
        ap (λ (p : System Hw × NyxError). p.1) e2,
        ap (λ (p : System Hw × NyxError). p.0.rtc.hw) e2
            ∙ set_callback-hw func _
            ∙ ap (λ (p : Rtc Hw × Bool). p.0.hw) again,
      )

  -- With a callback, a device that is open stays so, and its alarm is the same.
  pub record Calls (func : ℕ) (s s' : System Hw) : Type 0 where
    pub alarm : rtc_read_alarm drv s'.rtc ≡ rtc_read_alarm drv s.rtc
    pub fd : s'.rtc.rtc_fd ≡ s.rtc.rtc_fd
    pub dev : s'.nyx_dev ≡ s.nyx_dev
    pub callback : s'.alarm_fired_callback ≡ func

  pub set_callback-Calls :
      (func : ℕ) (s : System Hw) → func == 0 ≡ false → Calls func s (set_callback func s)
  unfolding set_callback rtc_add_watch rtc_read_alarm
  set_callback-Calls func s h = rw h (watch s.rtc.rtc_channel)
    where
      watch :
          (o : Option ℤ)
          → Calls func s (record s { alarm_fired_callback = func; rtc = watch_from o s.rtc })
      watch none =
          unfold watch_from in (record { alarm = refl; fd = refl; dev = refl; callback = refl })
      watch (some fd) =
          unfold watch_from in (record { alarm = refl; fd = refl; dev = refl; callback = refl })

  read_time-same :
      (r r' : Rtc Hw)
      → rtc_read_alarm drv r ≡ rtc_read_alarm drv r'
      → rtc_read_alarm_time drv cal r ≡ rtc_read_alarm_time drv cal r'
  unfolding rtc_read_alarm_time
  read_time-same r r' e = rw e refl

  -- A call that has succeeded has set the alarm.
  set_open-set :
      (time : ℤ) (func : ℕ) (s : System Hw)
      → time ==ℤ pos 0 ≡ false
      → (set_open drv cal time func s).1 ≡ ok
      → (rtc_set_alarm_time drv cal time s.rtc).1 ≡ true
  set_open-set time func s nonzero good =
      elim (Bool-cases ((rtc_set_alarm_time drv cal time s.rtc).1)) [
        | inl e ↦ e
        | inr e ↦ absurd (
            false≢true (
              ap is_ok (
                sym (ap (λ (p : System Hw × NyxError). p.1) (set_open_fails time func s nonzero e))
                ∙ good)))
      ]

  -- For a driver that stores alarms and a calendar that inverts itself: when a new alarm for a time that is
  -- not 0 has been set with a callback on an open device, the next alarm that is queried is that time, or two
  -- seconds from now if it is earlier than that, and the callback is the one that was given.
  pub query-set_alarm :
      IsStoring drv
      → IsInverse cal
      → (time : ℤ) (func : ℕ) (s : System Hw) → is_negative s.rtc.rtc_fd ≡ false
      → time ==ℤ pos 0 ≡ false
      → time ==ℤ s.rtc.curr_expiry ≡ false
      → func == 0 ≡ false
      → (system_set_alarm drv cal s.nyx_dev time func s).1 ≡ ok
      → let s' = (system_set_alarm drv cal s.nyx_dev time func s).0 in
        let query = system_query_next_alarm drv cal s.nyx_dev s' in
        let soonest = now_of (rtc_time drv cal s.rtc).1 +ℤ pos 2 in
        (query.1 ≡ ok)
        × (query.2 ≡ some (if ltb_ℤ time soonest then soonest else time))
        × (s'.alarm_fired_callback ≡ func)
  query-set_alarm law inverse time func s opened nonzero new callback good =
      let start = set_alarm_open time func s opened in
      let success = set_open-set time func s nonzero (rw start at good) in
      let r = (rtc_set_alarm_time drv cal time s.rtc).0 in
      let s1 = set_callback func (record s { rtc = r }) in
      let c = set_callback-Calls func (record s { rtc = r }) callback in
      let kept = set_time-Keeps drv cal time s.rtc in
      let opened1 = ap (λ (n : ℤ). is_negative n) (c.fd ∙ kept.fd) ∙ opened in
      let q =
        subst
          (λ (n : ℕ).
            system_query_next_alarm drv cal n s1 ≡ (s1, ok, rtc_read_alarm_time drv cal s1.rtc))
          c.dev (query_open s1 opened1) in
      let e1 = start ∙ set_open_new time func s nonzero success in
      let reads =
        read_time-same s1.rtc r c.alarm ∙ set-reads drv cal law inverse time s.rtc new success in
      rw e1 (
        ap (λ (p : System Hw × NyxError × Option ℤ). p.1) q,
        ap (λ (p : System Hw × NyxError × Option ℤ). p.2) q
            ∙ reads
            ∙ ap (λ (n : ℤ). some n) (floored_lem (now_of (rtc_time drv cal s.rtc).1) time),
        c.callback,
      )
