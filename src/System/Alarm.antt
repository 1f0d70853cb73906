-- ===== src/System/Alarm.antt =====
-- rtc.c: what setting and clearing do to the alarm of the driver.
use nyx_modules.Base.{
  ℤ, ◌==ℤ◌, ==ℤ_refl, ==ℤ→≡, if_elim, Bool, true, false, Bool-cases, Option, none, some, ◌≡◌, refl,
  sym, ap, ◌∙◌, ◌⊎◌, inl, inr,
}
use nyx_modules.System.Rtc.{
  Tm, Wkalrm, Driver, Calendar, Rtc, tm_to_rtc_time, rtc_time_to_tm, tm_to_rtc_wkalrm,
  rtc_set_alarm, rtc_read_alarm, clear_enabled, clear_read, rtc_clear_alarm, now_of, floored,
  rtc_time, rtc_set_alarm_time, rtc_read_alarm_time,
}

-- What the C library says of its calendar: `timegm` inverts `gmtime_r`, and looks at nothing but the six
-- fields of the date and the time.
pub record IsInverse (cal : Calendar) : Type 0 where
  pub inverse : (t : ℤ) → cal.timegm (cal.gmtime t) ≡ t
  pub six_fields :
      (a b : Tm)
      → a.tm_sec ≡ b.tm_sec
      → a.tm_min ≡ b.tm_min
      → a.tm_hour ≡ b.tm_hour
      → a.tm_mday ≡ b.tm_mday
      → a.tm_mon ≡ b.tm_mon
      → a.tm_year ≡ b.tm_year
      → cal.timegm a ≡ cal.timegm b

-- A time that is copied into the struct of the driver and back is the same time.
copied :
    (cal : Calendar)
    → IsInverse cal
    → (t : ℤ) → cal.timegm (rtc_time_to_tm (tm_to_rtc_time (cal.gmtime t))) ≡ t
unfolding rtc_time_to_tm tm_to_rtc_time
copied cal law t = law.six_fields _ (cal.gmtime t) refl refl refl refl refl refl ∙ law.inverse t

module _ {Hw : Type 0} (drv : Driver Hw) where
  -- What a driver does: an alarm that has been set is the one that is read.
  unfoldable pub IsStoring : Type 0
  IsStoring =
      (fd : ℤ) (a : Wkalrm) (hw : Hw)
      → (drv.wkalm_set fd a hw).1 ≡ true
      → drv.wkalm_rd fd (drv.wkalm_set fd a hw).0 ≡ some a

  -- The alarm that is read is one that will not ring.
  unfoldable pub IsOff : Rtc Hw → Type 0
  IsOff s = (a : Wkalrm) × (rtc_read_alarm drv s ≡ some a) × (a.enabled ≡ false)

  set_alarm-reads :
      IsStoring
      → (a : Wkalrm) (s : Rtc Hw) → (rtc_set_alarm drv a s).1 ≡ true
      → rtc_read_alarm drv (rtc_set_alarm drv a s).0 ≡ some a
  unfolding rtc_set_alarm rtc_read_alarm IsStoring
  set_alarm-reads law a s h = law s.rtc_fd a s.hw h

  -- What the calls on the alarm leave alone: the descriptor, the channel and the time that is remembered.
  pub record Keeps (s s' : Rtc Hw) : Type 0 where
    pub fd : s'.rtc_fd ≡ s.rtc_fd
    pub channel : s'.rtc_channel ≡ s.rtc_channel

  pub set_alarm-Keeps : (a : Wkalrm) (s : Rtc Hw) → Keeps s (rtc_set_alarm drv a s).0
  unfolding rtc_set_alarm
  set_alarm-Keeps a s = record { fd = refl; channel = refl }

  -- The calls that clear the alarm also leave the time alone that is remembered.
  abbrev pub KeepsAll : Rtc Hw → Rtc Hw × Bool → Type 0
  KeepsAll s p = Keeps s p.0 × (p.0.curr_expiry ≡ s.curr_expiry)

  clear_enabled-Keeps : (a : Wkalrm) (s : Rtc Hw) → KeepsAll s (clear_enabled drv a s)
  unfolding clear_enabled rtc_set_alarm
  clear_enabled-Keeps a s =
      if_elim (KeepsAll s) (rtc_set_alarm drv (record a { enabled = false }) s).1
        (record { fd = refl; channel = refl }, refl) (record { fd = refl; channel = refl }, refl)

  clear_read-Keeps : (o : Option Wkalrm) (s : Rtc Hw) → KeepsAll s (clear_read drv o s)
  unfolding clear_read
  clear_read-Keeps none s = (record { fd = refl; channel = refl }, refl)
  clear_read-Keeps (some a) s =
      if_elim (KeepsAll s) a.enabled (clear_enabled-Keeps a s)
        (record { fd = refl; channel = refl }, refl)

  pub clear-Keeps : (s : Rtc Hw) → KeepsAll s (rtc_clear_alarm drv s)
  unfolding rtc_clear_alarm
  clear-Keeps s = clear_read-Keeps (rtc_read_alarm drv s) s

  set_alarm-IsOff :
      IsStoring
      → (a : Wkalrm) (s : Rtc Hw) → a.enabled ≡ false
      → (rtc_set_alarm drv a s).1 ≡ true
      → IsOff (rtc_set_alarm drv a s).0
  unfolding IsOff
  set_alarm-IsOff law a s off h = (a, set_alarm-reads law a s h, off)

  -- What holds of a call that has succeeded.
  abbrev Ends : Rtc Hw × Bool → Type 0
  Ends p = p.1 ≡ true → IsOff p.0

  clear_enabled-IsOff : IsStoring → (a : Wkalrm) (s : Rtc Hw) → Ends (clear_enabled drv a s)
  unfolding clear_enabled
  clear_enabled-IsOff law a s =
      if_elim Ends (rtc_set_alarm drv (record a { enabled = false }) s).1
        (set_alarm-IsOff law _ s refl) (set_alarm-IsOff law _ _ refl)

  clear_read-IsOff :
      IsStoring
      → (o : Option Wkalrm) (s : Rtc Hw) → rtc_read_alarm drv s ≡ o
      → (clear_read drv o s).1 ≡ true
      → (o ≡ none) ⊎ IsOff (clear_read drv o s).0
  unfolding clear_read IsOff clear_enabled
  clear_read-IsOff law none s read h = inl refl
  clear_read-IsOff law (some a) s read h = elim (Bool-cases a.enabled) [
    | inl on ↦ inr (rw on (unfold IsOff in clear_enabled-IsOff law a s (rw on at h)))
    | inr off ↦ inr (rw off (a, read, off))
  ]

  -- For a driver that stores alarms: when the alarm has been cleared successfully, the alarm that is read is
  -- off, unless it could not be read in the first place.
  pub clear_lem :
      IsStoring
      → (s : Rtc Hw) → (rtc_clear_alarm drv s).1 ≡ true
      → (rtc_read_alarm drv s ≡ none) ⊎ IsOff (rtc_clear_alarm drv s).0
  unfolding rtc_clear_alarm
  clear_lem law s h = clear_read-IsOff law (rtc_read_alarm drv s) s refl h

  module _ (cal : Calendar) where
    -- A time that is remembered is not set again.
    pub set_remembered :
        (t : ℤ) (s : Rtc Hw) → t ≡ s.curr_expiry → rtc_set_alarm_time drv cal t s ≡ (s, true)
    unfolding rtc_set_alarm_time
    set_remembered t s e =
        let same : t ==ℤ s.curr_expiry ≡ true = ap (λ (n : ℤ). t ==ℤ n) (sym e) ∙ ==ℤ_refl t in
        rw same refl

    -- Whether it could be set or not, a time is remembered.
    pub set-remembers : (t : ℤ) (s : Rtc Hw) → t ≡ (rtc_set_alarm_time drv cal t s).0.curr_expiry
    unfolding rtc_set_alarm_time rtc_set_alarm
    set-remembers t s = elim (Bool-cases (t ==ℤ s.curr_expiry)) [
      | inl same ↦ rw same (==ℤ→≡ t s.curr_expiry same)
      | inr new ↦ rw new refl
    ]

    -- A new time that could be set is the one that is read, floored at two seconds from now.
    pub set-reads :
        IsStoring
        → IsInverse cal
        → (t : ℤ) (s : Rtc Hw) → t ==ℤ s.curr_expiry ≡ false
        → (rtc_set_alarm_time drv cal t s).1 ≡ true
        → rtc_read_alarm_time drv cal (rtc_set_alarm_time drv cal t s).0
          ≡ some (floored (now_of (rtc_time drv cal s).1) t)
    unfolding rtc_set_alarm_time rtc_read_alarm_time tm_to_rtc_wkalrm
    set-reads law inverse t s new h =
        let when = floored (now_of (rtc_time drv cal s).1) t in
        let r =
          set_alarm-reads law (tm_to_rtc_wkalrm (cal.gmtime when)) (record s { curr_expiry = t })
            (rw new at h) in
        rw (new, r) (ap (λ (n : ℤ). some n) (copied cal inverse when))

    pub set_time-Keeps : (t : ℤ) (s : Rtc Hw) → Keeps s (rtc_set_alarm_time drv cal t s).0
    unfolding rtc_set_alarm_time rtc_set_alarm
    set_time-Keeps t s =
        if_elim (λ (p : Rtc Hw × Bool). Keeps s p.0) (t ==ℤ s.curr_expiry)
          (record { fd = refl; channel = refl }) (record { fd = refl; channel = refl })
