-- ===== src/Charger/Flags.antt =====
-- charger/device/charger.c: which flags an event can have, and what they say.
use nyx_modules.Base.{
  Bool, true, false, not, ◌&&◌, Option, none, some, if_elim, ◌≡◌, refl, ◌∙◌, ap, inl, inr, ◌⊎◌, sym,
}
use Prim.Native.String.{String}
use text.Mathlib.Text.{◌==◌ as str_eq}
use mathlib.Core.Path.{subst}
use nyx_modules.Nyx.{ok, generic}
use nyx_modules.Charger.Events.{
  EventFlags, no_new_event, is_full, is_charging_text, charge_turned, has_charger_state_changed,
  has_battery_state_changed, has_charger_connected_state_changed,
}
use nyx_modules.Charger.Device.{
  Charger, OnlineValues, BatteryFiles, Registered, charger_read_status, battery_read_status,
  charger_init_events, charger_init, handle_charger, handle_battery, handle_power_supply_event,
}

-- No flag is set together with its opposite.
unfoldable pub AreConsistent : EventFlags → Type 0
AreConsistent e =
    (e.charge_complete && e.charge_restart ≡ false)
    × (e.charger_connected && e.charger_disconnected ≡ false)
    × (e.battery_present && e.battery_absent ≡ false)

abbrev pub Good : EventFlags × Bool → Type 0
Good p = AreConsistent (p.0)

charge_turned-Good :
    (old new : String) → (e : EventFlags) → AreConsistent e → Good (charge_turned old new e)
unfolding AreConsistent charge_turned
charge_turned-Good old new e (h1, h2, h3) =
    if_elim Good (is_charging_text old && is_full new) (refl, h2, h3)
      (if_elim Good (is_full old && is_charging_text new) (refl, h2, h3) (h1, h2, h3))

pub has_charger_state_changed-Good :
    (old new : Option String)
    → (e : EventFlags) → AreConsistent e
    → Good (has_charger_state_changed old new e)
unfolding AreConsistent has_charger_state_changed
has_charger_state_changed-Good none none e h = h
has_charger_state_changed-Good none (some new) e (h1, h2, h3) =
    if_elim Good (is_full new) (refl, h2, h3) (h1, h2, h3)
has_charger_state_changed-Good (some old) none e h = h
has_charger_state_changed-Good (some old) (some new) e h =
    if_elim Good (not (str_eq old new)) (charge_turned-Good old new e h) h

pub has_battery_state_changed-Good :
    (old new : Bool)
    → (e : EventFlags) → AreConsistent e
    → Good (has_battery_state_changed old new e)
unfolding AreConsistent has_battery_state_changed
has_battery_state_changed-Good true true e h = h
has_battery_state_changed-Good true false e (h1, h2, h3) = (h1, h2, refl)
has_battery_state_changed-Good false true e (h1, h2, h3) = (h1, h2, refl)
has_battery_state_changed-Good false false e h = h

pub has_charger_connected_state_changed-Good :
    (old new : Bool)
    → (e : EventFlags) → AreConsistent e
    → Good (has_charger_connected_state_changed old new e)
unfolding AreConsistent has_charger_connected_state_changed
has_charger_connected_state_changed-Good true true e h = h
has_charger_connected_state_changed-Good true false e (h1, h2, h3) = (h1, refl, h3)
has_charger_connected_state_changed-Good false true e (h1, h2, h3) = (h1, refl, h3)
has_charger_connected_state_changed-Good false false e h = h

-- The states that the module keeps: consistent flags, of which the connected flag says whether the device
-- is charging.
unfoldable pub IsValid : Charger → Type 0
IsValid c =
    AreConsistent (c.current_event) × (c.current_event.charger_connected ≡ c.status.is_charging)

pub connected_flag :
    (old new : Bool) (e : EventFlags)
    → e.charger_connected ≡ old
    → (has_charger_connected_state_changed old new e).0.charger_connected ≡ new
unfolding has_charger_connected_state_changed
connected_flag true true e h = h
connected_flag true false e h = refl
connected_flag false true e h = refl
connected_flag false false e h = h

charge_turned-connected :
    (old new : String) (e : EventFlags)
    → (charge_turned old new e).0.charger_connected ≡ e.charger_connected
unfolding charge_turned
charge_turned-connected old new e =
    if_elim (λ (p : EventFlags × Bool). p.0.charger_connected ≡ e.charger_connected)
      (is_charging_text old && is_full new) refl
      (if_elim (λ (p : EventFlags × Bool). p.0.charger_connected ≡ e.charger_connected)
        (is_full old && is_charging_text new) refl refl)

pub charger_state-connected :
    (old new : Option String) (e : EventFlags)
    → (has_charger_state_changed old new e).0.charger_connected ≡ e.charger_connected
unfolding has_charger_state_changed
charger_state-connected none none e = refl
charger_state-connected none (some new) e =
    if_elim (λ (p : EventFlags × Bool). p.0.charger_connected ≡ e.charger_connected) (is_full new)
      refl refl
charger_state-connected (some old) none e = refl
charger_state-connected (some old) (some new) e =
    if_elim (λ (p : EventFlags × Bool). p.0.charger_connected ≡ e.charger_connected)
      (not (str_eq old new)) (charge_turned-connected old new e) refl

pub battery_state-connected :
    (old new : Bool) (e : EventFlags)
    → (has_battery_state_changed old new e).0.charger_connected ≡ e.charger_connected
unfolding has_battery_state_changed
battery_state-connected true true e = refl
battery_state-connected true false e = refl
battery_state-connected false true e = refl
battery_state-connected false false e = refl

handle_charger-IsValid :
    (v : OnlineValues) (c : Charger) → IsValid c → IsValid ((handle_charger v c).0)
unfolding handle_charger IsValid
handle_charger-IsValid v c (h, e) = (
  has_charger_connected_state_changed-Good (c.status.is_charging)
      ((charger_read_status v).is_charging) (c.current_event) h,
  connected_flag (c.status.is_charging) ((charger_read_status v).is_charging) (c.current_event) e,
)

handle_battery-IsValid :
    (f : BatteryFiles) (c : Charger) → IsValid c → IsValid ((handle_battery f c).0)
unfolding handle_battery IsValid battery_read_status
handle_battery-IsValid f c (h, e) =
    let new = (battery_read_status f c).battery_status in
    let now = (battery_read_status f c).battery_present in
    let r = has_charger_state_changed (some c.battery_status) (some new) c.current_event in
    let h1 =
      has_charger_state_changed-Good (some c.battery_status) (some new) (c.current_event) h in
    let e1 = charger_state-connected (some c.battery_status) (some new) (c.current_event) ∙ e in
    if_elim (λ (p : Charger × Bool). IsValid (p.0)) (r.1) (h1, e1)
      (
        has_battery_state_changed-Good (c.battery_present) now (r.0) h1,
        battery_state-connected (c.battery_present) now (r.0) ∙ e1,
      )

-- A power supply event keeps the state of the charger valid, whatever the files of the device say: no
-- flag is set with its opposite, and the connected flag says whether the device is charging.
pub event-IsValid :
    (r : Registered) (v : OnlineValues) (f : BatteryFiles) (c : Charger)
    → IsValid c
    → IsValid ((handle_power_supply_event r v f c).0)
unfolding handle_power_supply_event
event-IsValid r v f c h =
    handle_battery-IsValid f ((handle_charger v c).0) (handle_charger-IsValid v c h)

init_events-IsValid :
    (c : Charger) → c.current_event ≡ no_new_event → IsValid (charger_init_events c)
unfolding charger_init_events IsValid AreConsistent
init_events-IsValid c h =
    let new = c.battery_status in
    let r = has_charger_state_changed none (some new) c.current_event in
    let h0 = subst (λ (e : EventFlags). AreConsistent e) (sym h) (refl, refl, refl) in
    let h1 = has_charger_state_changed-Good none (some new) (c.current_event) h0 in
    let h2 = has_battery_state_changed-Good false (c.battery_present) (r.0) h1 in
    let e2 =
      battery_state-connected false (c.battery_present) (r.0)
      ∙ charger_state-connected none (some new) (c.current_event)
      ∙ ap (λ (e : EventFlags). e.charger_connected) h in
    let p = has_battery_state_changed false (c.battery_present) (r.0) in
    (
      has_charger_connected_state_changed-Good false (c.status.is_charging) (p.0) h2,
      connected_flag false (c.status.is_charging) (p.0) e2,
    )

-- A start of the module whose udev calls succeed gives a valid state, which holds the status that the
-- files of the chargers say; a start in which one of them fails gives an error and no state.
pub init-IsValid :
    (udev mon filter receiving : Bool) (v : OnlineValues) (f : BatteryFiles)
    → ((c : Charger) × (charger_init udev mon filter receiving v f ≡ (ok, some c))
        × IsValid c
        × (c.status ≡ charger_read_status v)
        × (udev && mon && filter && receiving ≡ true))
      ⊎ ((charger_init udev mon filter receiving v f ≡ (generic, none))
          × (udev && mon && filter && receiving ≡ false))
unfolding charger_init
init-IsValid false mon filter receiving v f = inr (refl, refl)
init-IsValid true false filter receiving v f = inr (refl, refl)
init-IsValid true true false receiving v f = inr (refl, refl)
init-IsValid true true true false v f = inr (refl, refl)
init-IsValid true true true true v f = inl (
  charger_init_events (
      battery_read_status f (record {
        current_event = no_new_event;
        status = charger_read_status v;
        battery_present = false;
        battery_status = "";
      })),
  refl,
  init_events-IsValid
      (battery_read_status f (record {
        current_event = no_new_event;
        status = charger_read_status v;
        battery_present = false;
        battery_status = "";
      }))
      (unfold battery_read_status in refl),
  (unfold charger_init_events battery_read_status in refl),
  refl,
)
