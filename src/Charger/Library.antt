-- ===== src/Charger/Library.antt =====
-- chargerlib.c, and charger/emulator/chargerlib.c with charger/emulator/charger.c: the methods.
-- A device or a pointer is its address, 0 for NULL.
use nyx_modules.Base.{ℕ, not, ◌==◌, if◌then◌else◌, Option, none, some}
use nyx_modules.Nyx.{NyxError, ok, out_of_memory, invalid_handle, invalid_value}
use nyx_modules.Charger.Events.{EventFlags, no_new_event}
use nyx_modules.Charger.Device.{ChargerStatus}

-- The static variables of chargerlib.c. A callback is a function pointer with its context.
pub record Library : Type 0 where
  pub nyx_dev : ℕ
  pub charger_status_callback : ℕ
  pub charger_status_callback_context : ℕ
  pub state_change_callback : ℕ
  pub state_change_callback_context : ℕ

-- `nyx_module_open`, with the address that `calloc` returns and the result of `_charger_init`: the
-- result, and what is written to `*d`, if it is.
unfoldable pub nyx_module_open : ℕ → NyxError → Library → Library × NyxError × Option ℕ
nyx_module_open memory init l =
    if not (l.nyx_dev == 0)
    then (l, ok, none)
    else if memory == 0
    then (record l { nyx_dev = 0 }, out_of_memory, none)
    else (record l { nyx_dev = memory }, init, some memory)

-- `charger_query_charger_status`, `charger_enable_charging` and `charger_disable_charging`: the guards,
-- and the status that the function behind them writes.
unfoldable pub status_method : ℕ → ℕ → ChargerStatus → Library → NyxError × Option ChargerStatus
status_method handle status s l =
    if not (handle == l.nyx_dev)
    then (invalid_handle, none)
    else if status == 0
    then (invalid_value, none)
    else (ok, some s)

unfoldable pub register_charger_status_callback : ℕ → ℕ → ℕ → Library → Library × NyxError
register_charger_status_callback handle func context l =
    if not (handle == l.nyx_dev)
    then (l, invalid_handle)
    else if func == 0
    then (l, invalid_value)
    else (
      record l { charger_status_callback = func; charger_status_callback_context = context },
      ok,
    )

unfoldable pub register_state_change_callback : ℕ → ℕ → ℕ → Library → Library × NyxError
register_state_change_callback handle func context l =
    if not (handle == l.nyx_dev)
    then (l, invalid_handle)
    else if func == 0
    then (l, invalid_value)
    else (record l { state_change_callback = func; state_change_callback_context = context }, ok)

-- `charger_query_charger_event` of the emulator: the event is handed out and reset.
unfoldable pub emulator_query_charger_event :
    ℕ → EventFlags → Library → EventFlags × NyxError × Option EventFlags
emulator_query_charger_event handle current l =
    if not (handle == l.nyx_dev)
    then (current, invalid_handle, none)
    else (no_new_event, ok, some current)

-- The same of the device: the event stays.
unfoldable pub device_query_charger_event :
    ℕ → EventFlags → Library → EventFlags × NyxError × Option EventFlags
device_query_charger_event handle current l =
    if not (handle == l.nyx_dev)
    then (current, invalid_handle, none)
    else (current, ok, some current)
