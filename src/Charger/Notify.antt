-- ===== src/Charger/Notify.antt =====
-- charger/device/charger.c: the callbacks that a power supply event sets off.
use nyx_modules.Base.{
  Bool, true, false, not, ◌&&◌, ◌||◌, some, List, [], ◌∷◌, ◌++◌, Bool-cases, if_elim, ◌≡◌, refl,
  ◌∙◌, ap, ap₂, sym, inl, inr,
}
use Prim.Native.String.{String}
use text.Mathlib.Text.{◌==◌ as str_eq}
use nyx_modules.Charger.Events.{
  EventFlags, is_full, is_charging_text, differ, charge_turned, has_charger_state_changed,
  has_battery_state_changed, has_charger_connected_state_changed,
}
use nyx_modules.Charger.Device.{
  Charger, OnlineValues, BatteryFiles, Registered, Callback, charger_status_callback,
  state_change_callback, present_value, status_value, charger_read_status, battery_read_status,
  handle_charger, handle_battery, fire, handle_power_supply_event,
}

-- Whether the text of the battery's status has gone from charging to full, or back.
unfoldable pub has_turned : String → String → Bool
has_turned old new =
    not (str_eq old new)
    && (is_charging_text old && is_full new || is_full old && is_charging_text new)

connected_result :
    (old new : Bool) (e : EventFlags)
    → (has_charger_connected_state_changed old new e).1 ≡ differ old new
unfolding has_charger_connected_state_changed
connected_result true true e = refl
connected_result true false e = refl
connected_result false true e = refl
connected_result false false e = refl

battery_result :
    (old new : Bool) (e : EventFlags) → (has_battery_state_changed old new e).1 ≡ differ old new
unfolding has_battery_state_changed
battery_result true true e = refl
battery_result true false e = refl
battery_result false true e = refl
battery_result false false e = refl

turned_result :
    (old new : String) (e : EventFlags)
    → (has_charger_state_changed (some old) (some new) e).1 ≡ has_turned old new
unfolding has_charger_state_changed charge_turned has_turned
turned_result old new e = elim (Bool-cases (str_eq old new)) [
  | inl h ↦ rw h refl
  | inr h ↦ elim (Bool-cases (is_charging_text old && is_full new)) [
    | inl k ↦ rw (h, k) refl
    | inr k ↦ elim (Bool-cases (is_full old && is_charging_text new)) [
      | inl l ↦ rw (h, k, l) refl
      | inr l ↦ rw (h, k, l) refl
    ]
  ]
]

battery_result_lem :
    (f : BatteryFiles) (c : Charger)
    → (handle_battery f c).1 ≡ (
        has_turned c.battery_status (status_value f.status)
        || differ c.battery_present (present_value f.present))
unfolding handle_battery battery_read_status
battery_result_lem f c =
    let r =
      has_charger_state_changed (some c.battery_status) (some (status_value f.status))
        c.current_event in
    let e1 = turned_result (c.battery_status) (status_value f.status) (c.current_event) in
    let e2 = battery_result (c.battery_present) (present_value f.present) (r.0) in
    elim (Bool-cases (r.1)) [ inl h ↦ rw (h, sym e1 ∙ h) refl | inr h ↦ rw (h, sym e1 ∙ h) e2 ]

abbrev pub only_if : Bool → Callback → List Callback
only_if true c = c ∷ []
only_if false c = []

-- The callbacks that a client may expect, by whether the charger and whether the battery has changed.
unfoldable pub expected : Registered → Bool → Bool → List Callback
expected r true battery =
    only_if r.charger_status charger_status_callback ++ only_if r.state_change state_change_callback
expected r false true = only_if r.state_change state_change_callback
expected r false false = []

fire_lem :
    (r : Registered) (charger battery : Bool) → fire r charger battery ≡ expected r charger battery
unfolding fire expected
fire_lem r true battery = elim (Bool-cases r.charger_status) [
  | inl e ↦ elim (Bool-cases r.state_change) [ inl e' ↦ rw (e, e') refl | inr e' ↦ rw (e, e') refl ]
  | inr e ↦ elim (Bool-cases r.state_change) [ inl e' ↦ rw (e, e') refl | inr e' ↦ rw (e, e') refl ]
]
fire_lem r false true = elim (Bool-cases r.state_change) [
  | inl e' ↦ rw e' refl
  | inr e' ↦ rw e' refl
]
fire_lem r false false = refl

-- What a power supply event sets off: when the device has started or ended to charge, the status callback
-- and after it the state callback; when it has not, but the battery has come or gone or its status has turned
-- between charging and full, the state callback alone; otherwise nothing. A callback that is not registered
-- is left out.
pub callbacks :
    (r : Registered) (v : OnlineValues) (f : BatteryFiles) (c : Charger)
    → let charger = differ c.status.is_charging (charger_read_status v).is_charging in
      let battery =
        has_turned c.battery_status (status_value f.status)
        || differ c.battery_present (present_value f.present) in
      (handle_power_supply_event r v f c).1 ≡ expected r charger battery
unfolding handle_power_supply_event handle_charger
callbacks r v f c =
    let e1 =
      connected_result c.status.is_charging (charger_read_status v).is_charging c.current_event in
    let e2 = battery_result_lem f ((handle_charger v c).0) in ap₂ (fire r) e1 e2 ∙ fire_lem r _ _

-- The two flags of the presence of a battery.
unfoldable presence : EventFlags → Bool × Bool
presence e = (e.battery_present, e.battery_absent)

turned-presence :
    (old new : String) (e : EventFlags) → presence ((charge_turned old new e).0) ≡ presence e
unfolding charge_turned presence
turned-presence old new e =
    if_elim (λ (p : EventFlags × Bool). presence p.0 ≡ presence e)
      (is_charging_text old && is_full new) refl
      (if_elim (λ (p : EventFlags × Bool). presence p.0 ≡ presence e)
        (is_full old && is_charging_text new) refl refl)

state-presence :
    (old new : String) (e : EventFlags)
    → presence ((has_charger_state_changed (some old) (some new) e).0) ≡ presence e
unfolding has_charger_state_changed
state-presence old new e =
    if_elim (λ (p : EventFlags × Bool). presence p.0 ≡ presence e) (not (str_eq old new))
      (turned-presence old new e) refl

connected-presence :
    (old new : Bool) (e : EventFlags)
    → presence ((has_charger_connected_state_changed old new e).0) ≡ presence e
unfolding has_charger_connected_state_changed presence
connected-presence true true e = refl
connected-presence true false e = refl
connected-presence false true e = refl
connected-presence false false e = refl

handle_battery_turned :
    (f : BatteryFiles) (c : Charger)
    → has_turned c.battery_status (status_value f.status) ≡ true
    → (presence ((handle_battery f c).0.current_event) ≡ presence c.current_event)
      × ((handle_battery f c).0.battery_present ≡ present_value f.present)
unfolding handle_battery battery_read_status
handle_battery_turned f c h =
    let e = turned_result c.battery_status (status_value f.status) c.current_event ∙ h in
    rw e (state-presence c.battery_status (status_value f.status) c.current_event, refl)

-- An event in which the battery's status turns between charging and full leaves the flags that say whether
-- a battery is present as they were, also when a battery has come or gone in it: the state of the battery
-- is updated, and its flags are not.
pub presence_is_missed :
    (r : Registered) (v : OnlineValues) (f : BatteryFiles) (c : Charger)
    → has_turned c.battery_status (status_value f.status) ≡ true
    → ((handle_power_supply_event r v f c).0.current_event.battery_present
        ≡ c.current_event.battery_present)
      × ((handle_power_supply_event r v f c).0.current_event.battery_absent
          ≡ c.current_event.battery_absent)
      × ((handle_power_supply_event r v f c).0.battery_present ≡ present_value f.present)
unfolding handle_power_supply_event handle_charger presence
presence_is_missed r v f c h =
    let kept =
      connected-presence c.status.is_charging (charger_read_status v).is_charging c.current_event in
    let turned = handle_battery_turned f ((handle_charger v c).0) h in
    let both = turned.0 ∙ kept in
    (ap (λ (p : Bool × Bool). p.0) both, ap (λ (p : Bool × Bool). p.1) both, turned.1)
