-- ===== src/Charger/Emulator.antt =====
-- charger/emulator/chargerlib.c, the library in one file, and charger/emulator/charger.c, the driver that is built
-- with chargerlib.c. A device or a pointer is its address, 0 for NULL.
use nyx_modules.Base.{ℕ, not, ◌==◌, if◌then◌else◌, List, [], ◌∷◌, Option, none, some}
use nyx_modules.Nyx.{NyxError, ok, out_of_memory, invalid_handle, invalid_value}
use nyx_modules.Charger.Events.{EventFlags, no_new_event}
use nyx_modules.Charger.Device.{ChargerStatus, no_charger}
use nyx_modules.Charger.Library.{
  Library, nyx_module_open, status_method, register_charger_status_callback,
  register_state_change_callback,
}

-- The static variables of emulator/chargerlib.c.
pub record Standalone : Type 0 where
  pub nyx_dev : ℕ
  pub charger_status_callback : ℕ
  pub charger_status_callback_context : ℕ
  pub state_change_callback : ℕ
  pub state_change_callback_context : ℕ
  pub status : ChargerStatus
  pub current_event : EventFlags

-- What a call gives to the client: its result, and what is written to `*d`, to the status and to the event.
pub record Answer : Type 0 where
  pub result : NyxError
  pub device : Option ℕ
  pub status : Option ChargerStatus
  pub event : Option EventFlags

abbrev pub plain : NyxError → Answer
plain result = record { result = result; device = none; status = none; event = none }

-- `nyx_module_open` of emulator/chargerlib.c.
unfoldable pub standalone_open : ℕ → Standalone → Standalone × Answer
standalone_open memory s =
    if not (s.nyx_dev == 0)
    then (s, plain ok)
    else if memory == 0
    then (record s { nyx_dev = 0 }, plain out_of_memory)
    else (record s { nyx_dev = memory }, record (plain ok) { device = some memory })

-- `nyx_module_close`
unfoldable pub standalone_close : Standalone → Standalone × Answer
standalone_close s = (s, plain ok)

unfoldable pub standalone_query_status : ℕ → ℕ → Standalone → Standalone × Answer
standalone_query_status handle status s =
    if not (handle == s.nyx_dev)
    then (s, plain invalid_handle)
    else if status == 0
    then (s, plain invalid_value)
    else (s, record (plain ok) { status = some s.status })

unfoldable pub standalone_enable_charging : ℕ → ℕ → Standalone → Standalone × Answer
standalone_enable_charging handle status s =
    if not (handle == s.nyx_dev)
    then (s, plain invalid_handle)
    else if status == 0
    then (s, plain invalid_value)
    else (s, record (plain ok) { status = some s.status })

unfoldable pub standalone_disable_charging : ℕ → ℕ → Standalone → Standalone × Answer
standalone_disable_charging handle status s =
    if not (handle == s.nyx_dev)
    then (s, plain invalid_handle)
    else if status == 0
    then (s, plain invalid_value)
    else (s, record (plain ok) { status = some s.status })

unfoldable pub standalone_register_status : ℕ → ℕ → ℕ → Standalone → Standalone × Answer
standalone_register_status handle func context s =
    if not (handle == s.nyx_dev)
    then (s, plain invalid_handle)
    else if func == 0
    then (s, plain invalid_value)
    else (
      record s { charger_status_callback = func; charger_status_callback_context = context },
      plain ok,
    )

unfoldable pub standalone_register_state_change : ℕ → ℕ → ℕ → Standalone → Standalone × Answer
standalone_register_state_change handle func context s =
    if not (handle == s.nyx_dev)
    then (s, plain invalid_handle)
    else if func == 0
    then (s, plain invalid_value)
    else (
      record s { state_change_callback = func; state_change_callback_context = context },
      plain ok,
    )

unfoldable pub standalone_query_event : ℕ → Standalone → Standalone × Answer
standalone_query_event handle s = if not (handle == s.nyx_dev) then (s, plain invalid_handle) else (
  record s { current_event = no_new_event },
  record (plain ok) { event = some s.current_event },
)

-- The variables of emulator/charger.c.
pub record Driver : Type 0 where
  pub status : ChargerStatus
  pub current_event : EventFlags

unfoldable pub driver_init : NyxError
driver_init = ok

unfoldable pub driver_read_status : Driver → ChargerStatus
driver_read_status d = d.status

unfoldable pub driver_enable_charging : Driver → ChargerStatus
driver_enable_charging d = d.status

unfoldable pub driver_disable_charging : Driver → ChargerStatus
driver_disable_charging d = d.status

unfoldable pub driver_query_event : Driver → Driver × EventFlags
driver_query_event d = (record d { current_event = no_new_event }, d.current_event)

-- The calls of a client.
pub data Call : Type 0 where
  open_device : ℕ → Call
  close_device : Call
  query_status enable_charging disable_charging : ℕ → ℕ → Call
  register_status register_state_change : ℕ → ℕ → ℕ → Call
  query_event : ℕ → Call

unfoldable pub standalone_step : Call → Standalone → Standalone × Answer
standalone_step (open_device memory) s = standalone_open memory s
standalone_step close_device s = standalone_close s
standalone_step (query_status handle status) s = standalone_query_status handle status s
standalone_step (enable_charging handle status) s = standalone_enable_charging handle status s
standalone_step (disable_charging handle status) s = standalone_disable_charging handle status s
standalone_step (register_status handle func context) s =
    standalone_register_status handle func context s
standalone_step (register_state_change handle func context) s =
    standalone_register_state_change handle func context s
standalone_step (query_event handle) s = standalone_query_event handle s

-- chargerlib.c with emulator/charger.c.
pub record Built : Type 0 where
  pub library : Library
  pub driver : Driver

abbrev pub built_open : Driver → Library × NyxError × Option ℕ → Built × Answer
built_open d (l, result, device) =
    (record { library = l; driver = d }, record (plain result) { device = device })

abbrev pub built_status : Built → NyxError × Option ChargerStatus → Built × Answer
built_status b (result, status) = (b, record (plain result) { status = status })

abbrev pub built_register : Driver → Library × NyxError → Built × Answer
built_register d (l, result) = (record { library = l; driver = d }, plain result)

-- `charger_query_charger_event` of chargerlib.c, on what the driver does.
unfoldable pub built_query_event : ℕ → Built → Built × Answer
built_query_event handle b =
    let (d, event) = driver_query_event b.driver in
    if not (handle == b.library.nyx_dev)
    then (b, plain invalid_handle)
    else (record b { driver = d }, record (plain ok) { event = some event })

unfoldable pub built_step : Call → Built → Built × Answer
built_step (open_device memory) b =
    built_open b.driver (nyx_module_open memory driver_init b.library)
built_step close_device b = (b, plain ok)
built_step (query_status handle status) b =
    built_status b (status_method handle status (driver_read_status b.driver) b.library)
built_step (enable_charging handle status) b =
    built_status b (status_method handle status (driver_enable_charging b.driver) b.library)
built_step (disable_charging handle status) b =
    built_status b (status_method handle status (driver_disable_charging b.driver) b.library)
built_step (register_status handle func context) b =
    built_register b.driver (register_charger_status_callback handle func context b.library)
built_step (register_state_change handle func context) b =
    built_register b.driver (register_state_change_callback handle func context b.library)
built_step (query_event handle) b = built_query_event handle b

-- The variables as they are initialised.
abbrev pub standalone_start : Standalone
standalone_start = record {
  nyx_dev = 0;
  charger_status_callback = 0;
  charger_status_callback_context = 0;
  state_change_callback = 0;
  state_change_callback_context = 0;
  status = no_charger;
  current_event = no_new_event;
}

abbrev pub driver_start : Driver
driver_start = record { status = no_charger; current_event = no_new_event }

-- The answers to a sequence of calls.
unfoldable pub answers {ℓ} : {S : Type ℓ} → (Call → S → S × Answer) → List Call → S → List Answer
answers step [] s = []
answers step (c ∷ cs) s = let (s', a) = step c s in a ∷ answers step cs s'
