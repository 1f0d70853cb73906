-- ===== src/System/Watching.antt =====
-- rtc.c and system.c: what each call does to the channel on which an alarm is noticed.
use nyx_modules.Base.{
  ℕ, ℤ, pos, ◌==ℤ◌, ◌==◌, Bool, true, false, not, ◌||◌, if_elim, Bool-cases, Option, none, some,
  ◌≡◌, refl, sym, ap, ◌∙◌, inl, inr,
}
use mathlib.Core.Bool.{false≢true}
use mathlib.Core.Option.{none-ne-some, some-injective}
use nyx_modules.Nyx.{NyxError}
use nyx_modules.System.Rtc.{
  Driver, Calendar, Rtc, is_negative, is_alarm, watch_from, unwatch_from, rtc_add_watch,
  rtc_clear_watch, rtc_close, open_second, rtc_open, rtc_set_alarm_time, check_read,
  rtc_check_alarm,
}
use nyx_modules.System.Alarm.{Keeps, clear-Keeps, set_time-Keeps}
use nyx_modules.System.Device.{
  System, set_callback, set_open, system_set_alarm, system_query_next_alarm, system_query_rtc_time,
  rtc_event,
}

-- A channel, if there is one, watches the descriptor that is open.
pub record IsWatching {Hw : Type 0} (r : Rtc Hw) : Type 0 where
  pub watched : (fd : ℤ) → r.rtc_channel ≡ some fd → (r.rtc_fd ≡ fd) × (is_negative fd ≡ false)

module _ {Hw : Type 0} (drv : Driver Hw) (cal : Calendar) where
  Keeps-IsWatching : (r r' : Rtc Hw) → Keeps drv r r' → IsWatching r → IsWatching r'
  Keeps-IsWatching r r' k v = record {
    watched = λ fd e. let w = v.watched fd (sym k.channel ∙ e) in (k.fd ∙ w.0, w.1);
  }

  -- A device that is not open has no channel, and opening it makes none.
  open-channel : (r : Rtc Hw) → (rtc_open drv r).0.rtc_channel ≡ r.rtc_channel
  unfolding rtc_open open_second
  open-channel r =
      if_elim (λ (p : Rtc Hw × Bool). p.0.rtc_channel ≡ r.rtc_channel) (not (is_negative r.rtc_fd))
        refl
        (if_elim (λ (p : Rtc Hw × Bool). p.0.rtc_channel ≡ r.rtc_channel)
          (is_negative (drv.open_rtc r.hw).1) refl refl)

  open-IsWatching : (r : Rtc Hw) → IsWatching r → IsWatching (rtc_open drv r).0
  open-IsWatching r v = elim (Bool-cases (is_negative r.rtc_fd)) [
    | inr opened ↦ unfold rtc_open in rw opened v
    | inl closed ↦ record {
      watched = λ fd e.
          let w = v.watched fd (sym (open-channel r) ∙ e) in
          absurd (false≢true (sym w.1 ∙ ap (λ (n : ℤ). is_negative n) (sym w.0) ∙ closed));
    }
  ]

  -- What `set_callback` does with the channel, for a device that is open.
  watch_from-IsWatching :
      (o : Option ℤ) (r : Rtc Hw)
      → is_negative r.rtc_fd ≡ false
      → IsWatching r
      → IsWatching (watch_from o r)
  unfolding watch_from
  watch_from-IsWatching none r opened v = record {
    watched = λ fd h.
        let same = some-injective r.rtc_fd fd h in
        (same, ap (λ (n : ℤ). is_negative n) (sym same) ∙ opened);
  }
  watch_from-IsWatching (some c) r opened v = v

  add_watch-IsWatching :
      (r : Rtc Hw) → is_negative r.rtc_fd ≡ false → IsWatching r → IsWatching (rtc_add_watch r)
  unfolding rtc_add_watch
  add_watch-IsWatching r opened v = watch_from-IsWatching r.rtc_channel r opened v

  clear_watch-IsWatching : (r : Rtc Hw) → IsWatching (rtc_clear_watch r)
  unfolding rtc_clear_watch
  clear_watch-IsWatching r = record {
    watched = λ fd h. absurd (none-ne-some fd (sym (cleared r r.rtc_channel refl) ∙ h));
  }
    where
      cleared :
          (r : Rtc Hw) (o : Option ℤ) → r.rtc_channel ≡ o → (unwatch_from o r).rtc_channel ≡ none
      cleared r none e = unfold unwatch_from in e
      cleared r (some fd) e =
          unfold unwatch_from rtc_close in
          if_elim (λ (q : Rtc Hw). q.rtc_channel ≡ none) (is_negative r.rtc_fd) refl refl

  not-true : (b : Bool) → not b ≡ true → b ≡ false
  not-true true h = sym h
  not-true false h = refl

  -- Opening that succeeds leaves an open device.
  open_fd : (r : Rtc Hw) → (rtc_open drv r).1 ≡ true → is_negative (rtc_open drv r).0.rtc_fd ≡ false
  unfolding rtc_open open_second
  open_fd r h = elim (Bool-cases (is_negative r.rtc_fd)) [
    | inr opened ↦ rw opened opened
    | inl closed ↦ elim (Bool-cases (is_negative (drv.open_rtc r.hw).1)) [
      | inr opened ↦ rw (closed, opened) opened
      | inl failed ↦ rw (closed, failed) (not-true _ (rw (closed, failed) at h))
    ]
  ]

  set_open-IsWatching :
      (time : ℤ) (func : ℕ) (s : System Hw)
      → is_negative s.rtc.rtc_fd ≡ false
      → IsWatching s.rtc
      → IsWatching (set_open drv cal time func s).0.rtc
  unfolding set_open set_callback
  set_open-IsWatching time func s opened v =
      let kept = set_time-Keeps drv cal time s.rtc in
      let r = (rtc_set_alarm_time drv cal time s.rtc).0 in
      let v' = Keeps-IsWatching s.rtc r kept v in
      if_elim (λ (p : System Hw × NyxError). IsWatching p.0.rtc) (time ==ℤ pos 0)
        (Keeps-IsWatching s.rtc _ (clear-Keeps drv s.rtc).0 v)
        (if_elim (λ (p : System Hw × NyxError). IsWatching p.0.rtc)
          (not (rtc_set_alarm_time drv cal time s.rtc).1) v'
          (if_elim (λ (s' : System Hw). IsWatching s'.rtc) (func == 0) (clear_watch-IsWatching r)
            (add_watch-IsWatching r (ap (λ (n : ℤ). is_negative n) kept.fd ∙ opened) v')))

  pub set_alarm-IsWatching :
      (handle : ℕ) (time : ℤ) (func : ℕ) (s : System Hw)
      → IsWatching s.rtc
      → IsWatching (system_set_alarm drv cal handle time func s).0.rtc
  unfolding system_set_alarm
  set_alarm-IsWatching handle time func s v =
      let w = open-IsWatching s.rtc v in
      if_elim (λ (p : System Hw × NyxError). IsWatching p.0.rtc) (not (handle == s.nyx_dev)) v
        (elim (Bool-cases ((rtc_open drv s.rtc).1)) [
          | inr failed ↦ rw failed w
          | inl opened ↦ rw opened (set_open-IsWatching time func _ (open_fd s.rtc opened) w)
        ])

  pub query-IsWatching :
      (handle : ℕ) (s : System Hw)
      → IsWatching s.rtc
      → IsWatching (system_query_next_alarm drv cal handle s).0.rtc
        × IsWatching (system_query_rtc_time drv cal handle s).0.rtc
  unfolding system_query_next_alarm system_query_rtc_time
  query-IsWatching handle s v =
      let w = open-IsWatching s.rtc v in
      let P = λ (p : System Hw × NyxError × Option ℤ). IsWatching p.0.rtc in
      (
        if_elim P (not (handle == s.nyx_dev)) v (if_elim P (not (rtc_open drv s.rtc).1) w w),
        if_elim P (not (handle == s.nyx_dev)) v (if_elim P (not (rtc_open drv s.rtc).1) w w),
      )

  check_read-IsWatching :
      (o : Option ℕ) (r : Rtc Hw) → IsWatching r → IsWatching (check_read drv o r).0
  unfolding check_read
  check_read-IsWatching none r v = v
  check_read-IsWatching (some bits) r v =
      if_elim (λ (p : Rtc Hw × Bool). IsWatching p.0) (is_alarm bits)
        (Keeps-IsWatching r _ (clear-Keeps drv r).0 v) v

  pub event-IsWatching : (s : System Hw) → IsWatching s.rtc → IsWatching (rtc_event drv cal s).0.rtc
  unfolding rtc_event rtc_check_alarm
  event-IsWatching s v =
      let (hw, bits) = drv.read_event s.rtc.rtc_fd s.rtc.hw in
      let r = record s.rtc { hw = hw } in
      let w = check_read-IsWatching bits r (record { watched = λ fd e. v.watched fd e }) in
      if_elim (λ (p : System Hw × Option ℕ). IsWatching p.0.rtc)
        (not (check_read drv bits r).1 || s.alarm_fired_callback == 0) w w
