-- ===== src/System/Rtc.antt =====
-- rtc.c, built with DEV_RTC_IMPLEMENTED. The driver behind /dev/rtc and the calendar of the C library are
-- parameters.
use mathlib.Core.Option.{map}
use nyx_modules.Base.{
  ℕ, ◌/◌, ◌%◌, ℤ, pos, negsuc, ◌+ℤ◌, ltb_ℤ, ◌==ℤ◌, ◌==◌, Bool, true, false, not, if◌then◌else◌,
  Option, none, some,
}

-- `struct rtc_time` and `struct tm` have the same fields.
pub record RtcTime : Type 0 where
  pub tm_sec : ℤ
  pub tm_min : ℤ
  pub tm_hour : ℤ
  pub tm_mday : ℤ
  pub tm_mon : ℤ
  pub tm_year : ℤ
  pub tm_wday : ℤ
  pub tm_yday : ℤ
  pub tm_isdst : ℤ

pub record Tm : Type 0 where
  pub tm_sec : ℤ
  pub tm_min : ℤ
  pub tm_hour : ℤ
  pub tm_mday : ℤ
  pub tm_mon : ℤ
  pub tm_year : ℤ
  pub tm_wday : ℤ
  pub tm_yday : ℤ
  pub tm_isdst : ℤ

-- Everything is zeroed, and the six fields of the date and time are copied.
unfoldable pub rtc_time_to_tm : RtcTime → Tm
rtc_time_to_tm t = record {
  tm_sec = t.tm_sec;
  tm_min = t.tm_min;
  tm_hour = t.tm_hour;
  tm_mday = t.tm_mday;
  tm_mon = t.tm_mon;
  tm_year = t.tm_year;
  tm_wday = pos 0;
  tm_yday = pos 0;
  tm_isdst = negsuc 0;
}

unfoldable pub tm_to_rtc_time : Tm → RtcTime
tm_to_rtc_time t = record {
  tm_sec = t.tm_sec;
  tm_min = t.tm_min;
  tm_hour = t.tm_hour;
  tm_mday = t.tm_mday;
  tm_mon = t.tm_mon;
  tm_year = t.tm_year;
  tm_wday = pos 0;
  tm_yday = pos 0;
  tm_isdst = negsuc 0;
}

-- `struct rtc_wkalrm`
pub record Wkalrm : Type 0 where
  pub enabled : Bool
  pub pending : Bool
  pub time : RtcTime

unfoldable pub tm_to_rtc_wkalrm : Tm → Wkalrm
tm_to_rtc_wkalrm t = record { enabled = true; pending = false; time = tm_to_rtc_time t }

-- The calls of the kernel on a state of the hardware, by the descriptor: `none` and `false` are errors.
-- `open_rtc` and `open_rtc0` open /dev/rtc and /dev/rtc0, `rd_time` is RTC_RD_TIME, `wkalm_set` is
-- RTC_WKALM_SET, `wkalm_rd` is RTC_WKALM_RD, and `read_event` is `read`.
pub record Driver (Hw : Type 0) : Type 0 where
  pub open_rtc : Hw → Hw × ℤ
  pub open_rtc0 : Hw → Hw × ℤ
  pub rd_time : ℤ → Hw → Option RtcTime
  pub wkalm_set : ℤ → Wkalrm → Hw → Hw × Bool
  pub wkalm_rd : ℤ → Hw → Option Wkalrm
  pub read_event : ℤ → Hw → Hw × Option ℕ

-- `gmtime_r` and `timegm`
pub record Calendar : Type 0 where
  pub gmtime : ℤ → Tm
  pub timegm : Tm → ℤ

-- The static variables, with the hardware: the descriptor, the descriptor that `rtc_channel` watches, if it
-- is not NULL, and `curr_expiry` of `rtc_set_alarm_time`.
pub record Rtc (Hw : Type 0) : Type 0 where
  pub hw : Hw
  pub rtc_fd : ℤ
  pub rtc_channel : Option ℤ
  pub curr_expiry : ℤ

abbrev pub is_negative : ℤ → Bool
is_negative n = ltb_ℤ n (pos 0)

-- `RTC_AF`, which is bit 5, in what was read.
abbrev pub is_alarm : ℕ → Bool
is_alarm bits = bits / 32 % 2 == 1

-- The valid time that a second attempt to clear the alarm sets.
abbrev pub reset_time : RtcTime
reset_time = record {
  tm_sec = pos 0;
  tm_min = pos 29;
  tm_hour = pos 23;
  tm_mday = pos 14;
  tm_mon = pos 2;
  tm_year = pos 85;
  tm_wday = pos 4;
  tm_yday = pos 72;
  tm_isdst = pos 0;
}

-- `rtc_time`, by what `rtc_read` gives: its result, and what is written to `*time`, if it is.
unfoldable pub time_from : Calendar → Option Tm → ℤ × Option ℤ
time_from cal none = (negsuc 0, none)
time_from cal (some tm) = (cal.timegm tm, some (cal.timegm tm))

-- `now` of `rtc_set_alarm_time`, which is 0 where the time could not be read.
unfoldable pub now_of : Option ℤ → ℤ
now_of none = pos 0
now_of (some t) = t

-- "Alarm expiry will be floored at 2 seconds in the future"
unfoldable pub floored : ℤ → ℤ → ℤ
floored now expiry = if ltb_ℤ expiry (now +ℤ pos 2) then now +ℤ pos 2 else expiry

module _ {Hw : Type 0} where
  unfoldable pub rtc_close : Rtc Hw → Rtc Hw
  rtc_close s = if is_negative s.rtc_fd then s else record s { rtc_fd = negsuc 0 }

  -- `rtc_add_watch`, whose result is true.
  unfoldable pub watch_from : Option ℤ → Rtc Hw → Rtc Hw
  watch_from none s = record s { rtc_channel = some s.rtc_fd }
  watch_from (some fd) s = s

  unfoldable pub rtc_add_watch : Rtc Hw → Rtc Hw
  rtc_add_watch s = watch_from s.rtc_channel s

  -- `rtc_clear_watch`, whose result is true.
  unfoldable pub unwatch_from : Option ℤ → Rtc Hw → Rtc Hw
  unwatch_from none s = s
  unwatch_from (some fd) s = rtc_close (record s { rtc_channel = none })

  unfoldable pub rtc_clear_watch : Rtc Hw → Rtc Hw
  rtc_clear_watch s = unwatch_from s.rtc_channel s

  module _ (drv : Driver Hw) where
    -- The second `open`.
    unfoldable pub open_second : Rtc Hw → Rtc Hw × Bool
    open_second s =
        let (hw, fd) = drv.open_rtc0 s.hw in
        (record s { hw = hw; rtc_fd = fd }, not (is_negative fd))

    unfoldable pub rtc_open : Rtc Hw → Rtc Hw × Bool
    unfolding open_second
    rtc_open s =
        let (hw, fd) = drv.open_rtc s.hw in
        let opened = record s { hw = hw; rtc_fd = fd } in
        if not (is_negative s.rtc_fd)
        then (s, true)
        else if is_negative fd
        then open_second opened
        else (opened, true)

    unfoldable pub rtc_read : Rtc Hw → Option Tm
    rtc_read s = map rtc_time_to_tm (drv.rd_time s.rtc_fd s.hw)

    unfoldable pub rtc_set_alarm : Wkalrm → Rtc Hw → Rtc Hw × Bool
    rtc_set_alarm a s =
        let (hw, success) = drv.wkalm_set s.rtc_fd a s.hw in (record s { hw = hw }, success)

    unfoldable pub rtc_read_alarm : Rtc Hw → Option Wkalrm
    rtc_read_alarm s = drv.wkalm_rd s.rtc_fd s.hw

    -- The attempts of `rtc_clear_alarm`, for an alarm that is enabled.
    unfoldable pub clear_enabled : Wkalrm → Rtc Hw → Rtc Hw × Bool
    clear_enabled a s =
        let first = rtc_set_alarm (record a { enabled = false }) s in
        let second = rtc_set_alarm (record a { enabled = false; time = reset_time }) (first.0) in
        if first.1 then first else second

    -- `rtc_read_alarm` that fails has set `enabled` to false.
    unfoldable pub clear_read : Option Wkalrm → Rtc Hw → Rtc Hw × Bool
    clear_read none s = (s, true)
    clear_read (some a) s = if a.enabled then clear_enabled a s else (s, true)

    unfoldable pub rtc_clear_alarm : Rtc Hw → Rtc Hw × Bool
    rtc_clear_alarm s = clear_read (rtc_read_alarm s) s

    -- `rtc_check_alarm`, by what `read` has returned.
    unfoldable pub check_read : Option ℕ → Rtc Hw → Rtc Hw × Bool
    check_read none s = (s, false)
    check_read (some bits) s = if is_alarm bits then ((rtc_clear_alarm s).0, true) else (s, false)

    unfoldable pub rtc_check_alarm : Rtc Hw → Rtc Hw × Bool
    rtc_check_alarm s =
        let (hw, bits) = drv.read_event s.rtc_fd s.hw in check_read bits (record s { hw = hw })

    module _ (cal : Calendar) where
      unfoldable pub rtc_time : Rtc Hw → ℤ × Option ℤ
      rtc_time s = time_from cal (rtc_read s)

      unfoldable pub rtc_set_alarm_time : ℤ → Rtc Hw → Rtc Hw × Bool
      rtc_set_alarm_time expiry s =
          let now = now_of (rtc_time s).1 in
          if expiry ==ℤ s.curr_expiry
          then (s, true)
          else rtc_set_alarm (tm_to_rtc_wkalrm (cal.gmtime (floored now expiry)))
              (record s { curr_expiry = expiry })

      -- `rtc_read_alarm_time`: what is written to `*time`; `none` is the result false.
      unfoldable pub rtc_read_alarm_time : Rtc Hw → Option ℤ
      rtc_read_alarm_time s =
          map (λ (a : Wkalrm). cal.timegm (rtc_time_to_tm a.time)) (rtc_read_alarm s)
