-- ===== src/Charger/Polling.antt =====
-- charger/device/charger.c with chargerlib.c: clients that ask for the status between power supply events.
use nyx_modules.Base.{Option, sym, inl, inr, Bool, if_elim, some, ◌≡◌, ap, ◌∙◌}
use mathlib.Core.Path.{subst}
use mathlib.Core.Option.{some-injective, none-ne-some}
use nyx_modules.Nyx.{NyxError, ok}
use nyx_modules.Charger.Events.{has_charger_state_changed}
use nyx_modules.Charger.Device.{
  Charger, ChargerStatus, OnlineValues, BatteryFiles, Registered, charger_read_status,
  battery_read_status, charger_init, handle_charger, handle_battery, handle_power_supply_event,
  query_charger_event,
}
use nyx_modules.Charger.Flags.{
  AreConsistent, IsValid, init-IsValid, has_charger_state_changed-Good,
  has_battery_state_changed-Good, has_charger_connected_state_changed-Good,
}

-- `_charger_read_status` as a client calls it: the state of the module changes too.
unfoldable pub query_charger_status : OnlineValues → Charger → Charger × ChargerStatus
query_charger_status v c = (record c { status = charger_read_status v }, charger_read_status v)

-- `_charger_enable_charging` and `_charger_disable_charging` of the device copy the status.
unfoldable pub copy_charger_status : Charger → Charger × ChargerStatus
copy_charger_status c = (c, c.status)

-- What changes the state of a module that has started: events, and the calls of clients.
pub data ChargerStep : Charger → Charger → Type 0 where
  power_event :
      (r : Registered) (v : OnlineValues) (f : BatteryFiles) (c : Charger)
      → ChargerStep c (handle_power_supply_event r v f c).0
  status_asked : (v : OnlineValues) (c : Charger) → ChargerStep c (query_charger_status v c).0
  charging_asked : (c : Charger) → ChargerStep c (copy_charger_status c).0
  event_asked : (c : Charger) → ChargerStep c (query_charger_event c).1

pub data ChargerReach (start : Charger) : Charger → Type 0 where
  reach_start : ChargerReach start start
  reach_step : (c c' : Charger) → ChargerReach start c → ChargerStep c c' → ChargerReach start c'

battery-Consistent :
    (f : BatteryFiles) (c : Charger)
    → AreConsistent c.current_event
    → AreConsistent (handle_battery f c).0.current_event
unfolding handle_battery
battery-Consistent f c h =
    let new = (battery_read_status f c).battery_status in
    let r = has_charger_state_changed (some c.battery_status) (some new) c.current_event in
    let h1 = has_charger_state_changed-Good (some c.battery_status) (some new) c.current_event h in
    if_elim (λ (p : Charger × Bool). AreConsistent p.0.current_event) r.1 h1
      (has_battery_state_changed-Good c.battery_present (battery_read_status f c).battery_present
        r.0 h1)

step-AreConsistent :
    (c c' : Charger)
    → ChargerStep c c'
    → AreConsistent c.current_event
    → AreConsistent c'.current_event
step-AreConsistent c₁ c' (power_event r v f c) h =
    unfold handle_power_supply_event in
    battery-Consistent f (handle_charger v c).0 (
      unfold handle_charger in
      has_charger_connected_state_changed-Good c.status.is_charging
        (charger_read_status v).is_charging c.current_event h)
step-AreConsistent c₁ c' (status_asked v c) h = unfold query_charger_status in h
step-AreConsistent c₁ c' (charging_asked c) h = unfold copy_charger_status in h
step-AreConsistent c₁ c' (event_asked c) h = unfold query_charger_event in h

reach_lem :
    (start c : Charger)
    → ChargerReach start c
    → AreConsistent start.current_event
    → AreConsistent c.current_event
reach_lem start c reach_start h = h
reach_lem start c₁ (reach_step c₀ c r s) h = step-AreConsistent c₀ c s (reach_lem start c₀ r h)

-- In every state that the module reaches from its start by events and by calls of clients, whatever the files say,
-- no event flag is set together with its opposite.
pub Reach-AreConsistent :
    (udev mon filter receiving : Bool) (v : OnlineValues) (f : BatteryFiles) (start c : Charger)
    → charger_init udev mon filter receiving v f ≡ (ok, some start)
    → ChargerReach start c
    → AreConsistent c.current_event
Reach-AreConsistent udev mon filter receiving v f start c started r =
    elim (init-IsValid udev mon filter receiving v f) [
      | inl (c₀, e, valid, read, all) ↦
          let same =
            some-injective c₀ start
              (ap (λ (p : NyxError × Option Charger). p.1) (sym e ∙ started)) in
          reach_lem start c r (
            subst (λ (x : Charger). AreConsistent x.current_event) same (unfold IsValid in valid.0))
      | inr (e, failed) ↦
          absurd
            (none-ne-some start (ap (λ (p : NyxError × Option Charger). p.1) (sym e ∙ started)))
    ]
