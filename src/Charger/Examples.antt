-- ===== src/Charger/Examples.antt =====
-- A charger that is connected while the battery charges, and the theorems at an event.
use nyx_modules.Base.{List, [], ◌∷◌, pos, negsuc, true, false, ◌||◌, some, ◌≡◌, refl}
use nyx_modules.Nyx.{ok}
use nyx_modules.Charger.Events.{
  has_charger_state_changed, has_battery_state_changed, has_charger_connected_state_changed,
  no_new_event, differ,
}
use nyx_modules.Charger.Device.{
  Charger, no_charger, OnlineValues, BatteryFiles, Registered, present_value, status_value,
  charger_read_status, charger_init, charger_init_events, battery_read_status,
  charger_status_callback, state_change_callback, handle_power_supply_event,
}
use nyx_modules.Charger.Library.{Library}
use nyx_modules.Charger.Emulator.{
  Call, open_device, query_status, query_event, Built, driver_start, standalone_step, built_step,
  answers,
}
use nyx_modules.Charger.Emulation.{joined, same_answers}
use nyx_modules.Charger.Polling.{
  query_charger_status, reach_start, reach_step, status_asked, power_event, Reach-AreConsistent,
}
use nyx_modules.Charger.Flags.{IsValid, AreConsistent}
use nyx_modules.Charger.Notify.{has_turned, callbacks, expected}

abbrev usb_online : OnlineValues
usb_online = record {
  usb = pos 1;
  ac = pos 0;
  usb_again = pos 1;
  ac_again = pos 0;
  touch = negsuc 0;
  wireless = negsuc 0;
}

abbrev full_battery : BatteryFiles
full_battery = record { present = some (pos 1); status = some "Full" }

abbrev both : Registered
both = record { charger_status = true; state_change = true }

-- The battery is not in its place, and its last status was "Charging".
abbrev charger : Charger
charger = record {
  current_event = record no_new_event { charger_connected = true; battery_absent = true };
  status = record no_charger { usb_powered = true; pc_connected = true; is_charging = true };
  battery_present = false;
  battery_status = "Charging";
}

charger-IsValid : IsValid charger
unfolding IsValid AreConsistent
charger-IsValid = ((refl, refl, refl), refl)

callbacks_example :
    (handle_power_supply_event both usb_online full_battery charger).1
    ≡ expected both (differ true (charger_read_status usb_online).is_charging) (
        has_turned "Charging" (status_value (some "Full"))
        || differ false (present_value (some (pos 1))))
callbacks_example = callbacks both usb_online full_battery charger

abbrev library : Library
library = record {
  nyx_dev = 7;
  charger_status_callback = 0;
  charger_status_callback_context = 0;
  state_change_callback = 0;
  state_change_callback_context = 0;
}

-- A client that opens the device, asks for the status, and asks twice for the event.
abbrev session : List Call
session = open_device 7 ∷ query_status 7 9 ∷ query_event 7 ∷ query_event 7 ∷ []

abbrev built : Built
built = record { library = record library { nyx_dev = 0 }; driver = driver_start }

same_answers_example :
    answers standalone_step session (joined built) ≡ answers built_step session built
same_answers_example = same_answers session built

-- No charger is connected, and then one is.
abbrev idle_charger : Charger
idle_charger = record {
  current_event = no_new_event;
  status = no_charger;
  battery_present = false;
  battery_status = "Charging";
}

-- A start without a charger, which is connected then.
abbrev usb_offline : OnlineValues
usb_offline = record usb_online { usb = pos 0; usb_again = pos 0 }

abbrev started_charger : Charger
started_charger = record idle_charger {
  current_event = record no_new_event { battery_present = true; charge_complete = true };
  battery_present = true;
  battery_status = "Full";
}

has_started : charger_init true true true true usb_offline full_battery ≡ (ok, some started_charger)
unfolding charger_init charger_init_events battery_read_status charger_read_status present_value
    status_value has_charger_state_changed has_battery_state_changed
    has_charger_connected_state_changed
has_started = refl

Reach-AreConsistent_example :
    AreConsistent
      (handle_power_supply_event both usb_online full_battery
        (query_charger_status usb_online started_charger).0).0.current_event
Reach-AreConsistent_example =
    Reach-AreConsistent true true true true usb_offline full_battery started_charger
      (handle_power_supply_event both usb_online full_battery
        (query_charger_status usb_online started_charger).0).0
      has_started
      (reach_step (query_charger_status usb_online started_charger).0 _
        (reach_step started_charger _ reach_start (status_asked usb_online started_charger))
        (power_event both usb_online full_battery
          (query_charger_status usb_online started_charger).0))
