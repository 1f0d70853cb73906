-- ===== src/Charger/Events.antt =====
-- The event flags of the charger, and how a change of state moves them.
use nyx_modules.Base.{Bool, true, false, not, ◌&&◌, if◌then◌else◌, Option, none, some}
use Prim.Native.String.{String}
use text.Mathlib.Text.{◌==◌ as str_eq}

-- `nyx_charger_event_t`: a set of flags of nyx-lib, each with a bit of its own. Only these are touched.
pub record EventFlags : Type 0 where
  pub charge_complete : Bool
  pub charge_restart : Bool
  pub charger_connected : Bool
  pub charger_disconnected : Bool
  pub battery_present : Bool
  pub battery_absent : Bool

-- `NYX_NO_NEW_EVENT`
abbrev pub no_new_event : EventFlags
no_new_event = record {
  charge_complete = false;
  charge_restart = false;
  charger_connected = false;
  charger_disconnected = false;
  battery_present = false;
  battery_absent = false;
}

abbrev pub set_complete : EventFlags → EventFlags
set_complete e = record e { charge_restart = false; charge_complete = true }

abbrev pub set_restart : EventFlags → EventFlags
set_restart e = record e { charge_complete = false; charge_restart = true }

-- The two strings that stand for states, and a comparison by `strcmp`.
abbrev pub is_full : String → Bool
is_full s = str_eq s "Full"

abbrev pub is_charging_text : String → Bool
is_charging_text s = str_eq s "Charging"

-- `_has_charger_state_changed` where both states are known and differ.
unfoldable pub charge_turned : String → String → EventFlags → EventFlags × Bool
charge_turned old new e =
    if is_charging_text old && is_full new
    then (set_complete e, true)
    else if is_full old && is_charging_text new
    then (set_restart e, true)
    else (e, false)

-- `_has_charger_state_changed`, with NULL as `none`: the flags and the result.
unfoldable pub has_charger_state_changed :
    Option String → Option String → EventFlags → EventFlags × Bool
unfolding charge_turned
has_charger_state_changed none none e = (e, false)
has_charger_state_changed none (some new) e =
    if is_full new then (set_complete e, true) else (e, false)
has_charger_state_changed (some old) none e = (e, false)
has_charger_state_changed (some old) (some new) e =
    if not (str_eq old new) then charge_turned old new e else (e, false)

-- The inequality of two truth values.
abbrev pub differ : Bool → Bool → Bool
differ true b = not b
differ false b = b

-- `_has_battery_state_changed`
unfoldable pub has_battery_state_changed : Bool → Bool → EventFlags → EventFlags × Bool
has_battery_state_changed old new e =
    if differ old new
    then (if new
        then (record e { battery_absent = false; battery_present = true }, true)
        else (record e { battery_present = false; battery_absent = true }, true))
    else (e, false)

-- `_has_charger_connected_state_changed`
unfoldable pub has_charger_connected_state_changed : Bool → Bool → EventFlags → EventFlags × Bool
has_charger_connected_state_changed old new e =
    if differ old new
    then (if new
        then (record e { charger_disconnected = false; charger_connected = true }, true)
        else (record e { charger_connected = false; charger_disconnected = true }, true))
    else (e, false)
