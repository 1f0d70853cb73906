-- ===== src/System/Examples.antt =====
-- A clock that stores its alarm, and the theorems at it.
use nyx_modules.Base.{ltb_ℤ, if◌then◌else◌, ◌+ℤ◌, pos, true, false, none, some, ◌≡◌, ◌⊎◌, refl}
use nyx_modules.Nyx.{ok}
use mathlib.Core.Option.{none-ne-some}
use nyx_modules.System.Rtc.{
  RtcTime, Wkalrm, Driver, Calendar, Rtc, reset_time, rtc_set_alarm, rtc_read_alarm, clear_enabled,
  clear_read, rtc_clear_alarm, now_of, rtc_time, rtc_set_alarm_time, rtc_open,
}
use nyx_modules.System.Alarm.{IsInverse, IsStoring, IsOff}
use nyx_modules.System.Device.{
  System, set_open, system_set_alarm, system_query_next_alarm, rtc_event,
}
use nyx_modules.System.Forgotten.{alarm_lost}
use nyx_modules.System.Methods.{query-set_alarm}
use nyx_modules.System.Watching.{IsWatching}
use nyx_modules.System.Watch.{ClosedWatching, here, next, set_alarm, alarm_event, Reach-IsWatching}

abbrev clock_time : RtcTime
clock_time = record reset_time { tm_sec = pos 100 }

-- The hardware is the alarm; the clock stands still at 100.
abbrev clock : Driver Wkalrm
clock = record {
  open_rtc = λ hw. (hw, pos 5);
  open_rtc0 = λ hw. (hw, pos 6);
  rd_time = λ fd hw. some clock_time;
  wkalm_set = λ fd a hw. (a, true);
  wkalm_rd = λ fd hw. some hw;
  read_event = λ fd hw. (hw, some 32);
}

-- The same without alarms.
abbrev poor_clock : Driver Wkalrm
poor_clock = record clock { wkalm_set = λ fd a hw. (hw, false) }

-- A calendar that puts a time into the seconds.
abbrev seconds : Calendar
seconds = record {
  gmtime = λ t. record {
    tm_sec = t;
    tm_min = pos 0;
    tm_hour = pos 0;
    tm_mday = pos 1;
    tm_mon = pos 0;
    tm_year = pos 70;
    tm_wday = pos 4;
    tm_yday = pos 0;
    tm_isdst = pos 0;
  };
  timegm = λ tm. tm.tm_sec;
}

clock-IsStoring : IsStoring clock
unfolding IsStoring
clock-IsStoring fd a hw h = refl

seconds-IsInverse : IsInverse seconds
seconds-IsInverse = record { inverse = λ t. refl; six_fields = λ a b s m h d n y. s }

abbrev alarm_on : Wkalrm
alarm_on = record { enabled = true; pending = false; time = clock_time }

abbrev open_rtc_state : Rtc Wkalrm
open_rtc_state = record { hw = alarm_on; rtc_fd = pos 5; rtc_channel = none; curr_expiry = pos 100 }

abbrev system : System Wkalrm
system = record { rtc = open_rtc_state; nyx_dev = 9; alarm_fired_callback = 0 }

unset : (rtc_set_alarm_time poor_clock seconds (pos 300) open_rtc_state).1 ≡ false
unfolding rtc_set_alarm_time rtc_set_alarm
unset = refl

was_set : (system_set_alarm clock seconds 9 (pos 300) 4 system).1 ≡ ok
unfolding system_set_alarm rtc_open set_open rtc_set_alarm_time rtc_set_alarm
was_set = refl

query-set_alarm_example :
    ((system_query_next_alarm clock seconds 9
        (system_set_alarm clock seconds 9 (pos 300) 4 system).0).1
      ≡ ok)
    × ((system_query_next_alarm clock seconds 9
          (system_set_alarm clock seconds 9 (pos 300) 4 system).0).2
        ≡ some (
            if ltb_ℤ (pos 300) (now_of (rtc_time clock seconds open_rtc_state).1 +ℤ pos 2)
            then now_of (rtc_time clock seconds open_rtc_state).1 +ℤ pos 2
            else pos 300))
    × ((system_set_alarm clock seconds 9 (pos 300) 4 system).0.alarm_fired_callback ≡ 4)
query-set_alarm_example =
    query-set_alarm clock seconds clock-IsStoring seconds-IsInverse (pos 300) 4 system refl refl
      refl refl was_set

alarm_lost_example :
    ((system_set_alarm clock seconds 9
        (pos 100)
        4
        (system_set_alarm clock seconds 9 (pos 0) 0 system).0).1
      ≡ ok)
    × IsOff clock
        (system_set_alarm clock seconds 9
          (pos 100)
          4
          (system_set_alarm clock seconds 9 (pos 0) 0 system).0).0.rtc
alarm_lost_example =
    alarm_lost clock seconds clock-IsStoring (pos 100) 4 0 system alarm_on refl refl refl refl reads
      cleared
  where
    reads : rtc_read_alarm clock open_rtc_state ≡ some alarm_on
    reads = unfold rtc_read_alarm in refl

    cleared : (rtc_clear_alarm clock open_rtc_state).1 ≡ true
    cleared = unfold rtc_clear_alarm rtc_read_alarm clear_read clear_enabled rtc_set_alarm in refl

system-IsWatching : IsWatching system.rtc
system-IsWatching = record { watched = λ fd e. absurd (none-ne-some fd e) }

Reach-IsWatching_example :
    IsWatching
      (rtc_event clock seconds (system_set_alarm clock seconds 9 (pos 300) 4 system).0).0.rtc
    ⊎ ClosedWatching clock seconds system
        (rtc_event clock seconds (system_set_alarm clock seconds 9 (pos 300) 4 system).0).0
Reach-IsWatching_example =
    Reach-IsWatching clock seconds (next (next here (set_alarm 9 (pos 300) 4)) alarm_event)
      system-IsWatching
