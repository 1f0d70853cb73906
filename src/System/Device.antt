-- ===== src/System/Device.antt =====
-- system.c: the methods of the module, on the real-time clock.
use Prim.Native.String.{String}
use nyx_modules.Base.{
  ℕ, ℤ, pos, ◌==ℤ◌, ◌==◌, Bool, true, false, not, ◌||◌, if◌then◌else◌, Option, none, some,
}
use nyx_modules.Nyx.{
  NyxError, ok, out_of_memory, invalid_handle, invalid_operation, not_implemented,
}
use nyx_modules.System.Rtc.{
  Driver, Calendar, Rtc, is_negative, rtc_open, rtc_close, rtc_add_watch, rtc_clear_watch,
  rtc_clear_alarm, rtc_set_alarm_time, rtc_read_alarm_time, rtc_time, rtc_check_alarm,
}

-- The static variables: `nyxDev` and `alarm_fired_callback` are addresses, 0 for NULL.
pub record System (Hw : Type 0) : Type 0 where
  pub rtc : Rtc Hw
  pub nyx_dev : ℕ
  pub alarm_fired_callback : ℕ

-- `nyx_system_shutdown_type_t`: the type that the code tells apart, and every other.
pub data ShutdownType : Type 0 where
  emergency other : ShutdownType

unfoldable pub system_erase_partition : ℕ → NyxError
system_erase_partition handle = not_implemented

module _ {Hw : Type 0} where
  -- `nyx_module_open`, with the address that `calloc` returns: the result, and what is written to `*d`.
  unfoldable pub nyx_module_open : ℕ → System Hw → System Hw × NyxError × Option ℕ
  nyx_module_open memory s =
      if not (s.nyx_dev == 0)
      then (s, ok, none)
      else if memory == 0
      then (record s { nyx_dev = 0 }, out_of_memory, none)
      else (record s { nyx_dev = memory }, ok, some memory)

  unfoldable pub nyx_module_close : System Hw → System Hw × NyxError
  nyx_module_close s = (record s { rtc = rtc_close s.rtc }, ok)

  -- `system_suspend`, by whether the script is accessible and `success` is not NULL: the result, whether
  -- the script is run, and what is written to `*success`.
  unfoldable pub system_suspend : ℕ → Bool → Bool → System Hw → NyxError × Bool × Option Bool
  system_suspend handle accessible success s =
      if not (handle == s.nyx_dev)
      then (invalid_handle, false, none)
      else if not accessible || not success
      then (ok, false, if success then some true else none)
      else (ok, true, some true)

  -- `system_shutdown` and `system_reboot`: the command that is run.
  unfoldable pub system_shutdown : ℕ → ShutdownType → System Hw → NyxError × Option String
  system_shutdown handle emergency s =
      if not (handle == s.nyx_dev) then (invalid_handle, none) else (ok, some "halt -f")
  system_shutdown handle other s =
      if not (handle == s.nyx_dev) then (invalid_handle, none) else (ok, some "shutdown -h now")

  unfoldable pub system_reboot : ℕ → ShutdownType → System Hw → NyxError × Option String
  system_reboot handle emergency s =
      if not (handle == s.nyx_dev) then (invalid_handle, none) else (ok, some "reboot -f")
  system_reboot handle other s =
      if not (handle == s.nyx_dev) then (invalid_handle, none) else (ok, some "reboot")

  -- The callback of `system_set_alarm`, once the alarm is set.
  unfoldable pub set_callback : ℕ → System Hw → System Hw
  set_callback func s =
      if func == 0
      then record s { alarm_fired_callback = 0; rtc = rtc_clear_watch s.rtc }
      else record s { alarm_fired_callback = func; rtc = rtc_add_watch s.rtc }

  module _ (drv : Driver Hw) (cal : Calendar) where
    -- `system_set_alarm` once the device is open.
    unfoldable pub set_open : ℤ → ℕ → System Hw → System Hw × NyxError
    set_open time func s =
        let cleared = record s { rtc = (rtc_clear_alarm drv s.rtc).0 } in
        let (rtc, success) = rtc_set_alarm_time drv cal time s.rtc in
        if time ==ℤ pos 0
        then (cleared, ok)
        else if not success
        then (record s { rtc = rtc }, invalid_operation)
        else (set_callback func (record s { rtc = rtc }), ok)

    unfoldable pub system_set_alarm : ℕ → ℤ → ℕ → System Hw → System Hw × NyxError
    system_set_alarm handle time func s =
        let (rtc, opened) = rtc_open drv s.rtc in
        if not (handle == s.nyx_dev)
        then (s, invalid_handle)
        else if not opened
        then (record s { rtc = rtc }, invalid_operation)
        else set_open time func (record s { rtc = rtc })

    -- The result of `rtc_read_alarm_time` is a `bool`, which is never below 0.
    unfoldable pub system_query_next_alarm : ℕ → System Hw → System Hw × NyxError × Option ℤ
    system_query_next_alarm handle s =
        let (rtc, opened) = rtc_open drv s.rtc in
        if not (handle == s.nyx_dev)
        then (s, invalid_handle, none)
        else if not opened
        then (record s { rtc = rtc }, invalid_operation, none)
        else (record s { rtc = rtc }, ok, rtc_read_alarm_time drv cal rtc)

    unfoldable pub system_query_rtc_time : ℕ → System Hw → System Hw × NyxError × Option ℤ
    system_query_rtc_time handle s =
        let (rtc, opened) = rtc_open drv s.rtc in
        let (result, written) = rtc_time drv cal rtc in
        if not (handle == s.nyx_dev)
        then (s, invalid_handle, none)
        else if not opened
        then (record s { rtc = rtc }, invalid_operation, none)
        else (record s { rtc = rtc }, if is_negative result then invalid_operation else ok, written)

    -- `rtc_event` with `AlarmFiredCB`: the callback that is called, if one is.
    unfoldable pub rtc_event : System Hw → System Hw × Option ℕ
    rtc_event s =
        let (rtc, fired) = rtc_check_alarm drv s.rtc in
        if not fired || s.alarm_fired_callback == 0
        then (record s { rtc = rtc }, none)
        else (record s { rtc = rtc }, some s.alarm_fired_callback)
