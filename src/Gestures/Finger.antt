-- ===== src/Gestures/Finger.antt =====
-- `finger_t`, and `gesture_state_machine_finger`: what one finger reports.
pub mod Outcome
pub mod Report
use nyx_modules.Base.{ℕ, ◌<◌, ℤ, pos, negsuc, signed32, Bool, true, false, ltb, if◌then◌else◌}
use nyx_modules.Gestures.Types.{
  TimeStamp, EventBuf, emit, ev_key, ev_abs, ev_fingerid, abs_x, abs_y, btn_touch,
}
use nyx_modules.Gestures.CoordBuf.{CoordBuf, get_last_coords}

-- `gesture_state_t`
pub data GestureState : Type 0 where
  unused start finger_down finger_down_after_quick_launch : GestureState

-- `gesture_state_data_t`, with `start[X_DIM]` and `start[Y_DIM]` as two fields
pub record GestureStateData : Type 0 where
  pub state : GestureState
  pub start_x : ℤ
  pub start_y : ℤ
  pub inside_tap_radius : Bool
  pub start_time : TimeStamp

-- `finger_t`. Its fields `events` and `numEvents` are copies of the arguments that
-- `gesture_state_machine_finger` makes for itself, and are left out. `min_dist` is never negative.
pub record Finger : Type 0 where
  pub coords : CoordBuf
  pub timestamp : TimeStamp
  pub id : ℕ
  pub state : GestureStateData
  pub min_dist : ℕ
  pub min_dist_id : ℕ
  pub last_weight : ℤ

-- `INT_MAX`
abbrev pub int_max : ℕ
int_max = 2147483647

unfoldable pub reset_state_data : GestureStateData → GestureStateData
reset_state_data d = record d { state = start; inside_tap_radius = true }

-- The `switch` on the state: the new state data, the events, and the time stamp.
unfoldable pub switch_state :
    GestureState
    → GestureStateData
    → ℤ
    → ℤ
    → EventBuf
    → TimeStamp
    → GestureStateData × EventBuf × TimeStamp
switch_state start d x y b t =
    let (b', t') = emit b t ev_key btn_touch (pos 1) in
    (record d { start_x = x; start_y = y; start_time = t; state = finger_down }, b', t')
switch_state finger_down d x y b t = (d, b, t)
switch_state finger_down_after_quick_launch d x y b t = (d, b, t)
switch_state unused d x y b t = (d, b, t)

-- `gesture_state_machine_finger`. The Boolean is the result -1: the finger is released.
unfoldable pub gesture_state_machine_finger : Finger → EventBuf → Finger × Bool × EventBuf
unfolding switch_state
gesture_state_machine_finger f b =
    let last = get_last_coords f.coords in
    let (b1, t1) = emit b last.time_stamp ev_fingerid 0 (signed32 f.id) in
    let (d, b2, t2) = switch_state f.state.state f.state last.x last.y b1 t1 in
    let (b3, t3) = emit b2 t2 ev_abs abs_x last.x in
    let (b4, t4) = emit b3 t3 ev_abs abs_y last.y in
    let (b5, t5) = emit b4 t4 ev_key btn_touch (pos 0) in
    if ltb 0 f.min_dist
    then (record f { state = d }, true, b5)
    else (record f { state = d; min_dist = int_max }, false, b4)
