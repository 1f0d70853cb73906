-- ===== src/Touchpanel/Source.antt =====
-- The state of the module, and what raw input events do to it.
use nyx_modules.Base.{
  ℕ, ◌*◌, ℤ, pos, ◌==ℤ◌, Bool, ◌&&◌, ◌||◌, ◌==◌, if◌then◌else◌, List, [], ◌∷◌, Option, set,
}
use nyx_modules.Gestures.Types.{
  TimeStamp, TimeVal, InputEvent, ev_syn, ev_key, ev_abs, ev_rel, abs_x, abs_y, btn_touch,
}
use nyx_modules.Gestures.Machine.{Machine, Touch, gesture_state_machine}
use nyx_modules.Touchpanel.Items.{TouchEvent}

-- `sizeof(input_event_t)` on the 32-bit machines of src/machine, in bytes.
abbrev pub event_size : ℕ
event_size = 16

-- `event_list_t`, with its two counters in bytes
pub record EventList : Type 0 where
  pub input_filled : ℕ
  pub input_read : ℕ
  pub input : List InputEvent

-- The static variables of touchpanel.c, with `current_event_ptr` of the device.
pub record Panel : Type 0 where
  pub machine : Machine
  pub cached_x : ℤ
  pub cached_y : ℤ
  pub touch_button_state : ℤ
  pub events : EventList
  pub read_input : Bool
  pub current_event : Option TouchEvent

-- `get_time_stamp`, of what `gettimeofday` returns
unfoldable pub get_time_stamp : TimeVal → TimeStamp
get_time_stamp tv = record { sec = tv.sec; nsec = tv.usec * 1000 }

-- The one finger of the mouse, by the argument of `generate_mouse_gesture`.
unfoldable pub mouse_touches : Panel → ℤ → List Touch
mouse_touches p button =
    if button ==ℤ pos 0 then [] else record { x = p.cached_x; y = p.cached_y; weight = pos 1 } ∷ []

unfoldable pub generate_mouse_gesture : TimeVal → Panel → ℤ → Panel
unfolding get_time_stamp mouse_touches
generate_mouse_gesture tv p button =
    let (m, b) =
      gesture_state_machine p.machine (mouse_touches p button) (get_time_stamp tv)
        (record { events = p.events.input; count = 0 }) in
    record p {
      machine = m;
      events = record { input_filled = b.count * event_size; input_read = 0; input = b.events };
    }

-- The other buttons and the wheel of linux/input.h.
abbrev pub btn_left : ℕ
btn_left = 0x110

abbrev pub rel_wheel : ℕ
rel_wheel = 0x08

-- BTN_MIDDLE, BTN_SIDE, BTN_EXTRA, BTN_FORWARD, BTN_BACK, BTN_TASK
unfoldable pub is_forwarded : InputEvent → Bool
is_forwarded e =
    e.type == ev_rel && e.code == rel_wheel
    || e.type == ev_key
      && (e.code == 0x112
          || e.code == 0x113
          || e.code == 0x114
          || e.code == 0x115
          || e.code == 0x116
          || e.code == 0x117)

-- `SYN_START`
abbrev pub syn_start : ℕ
syn_start = 8

-- The second `if` of `handle_new_event`. The time of `syn_event` is never set: `garbage`.
unfoldable pub forward_event : TimeVal → InputEvent → Panel → Panel
forward_event garbage e p =
    let syn_event : InputEvent = record {
      time = garbage;
      type = ev_syn;
      code = syn_start;
      value = pos 0;
    } in
    record p {
      events = record {
        input_filled = 2 * event_size;
        input_read = 0;
        input = set (set p.events.input 0 e) 1 syn_event;
      };
    }

-- What the module takes from outside when it handles an event: the scaling by the static floats
-- `scaleX` and `scaleY` with the truncation to `int`, the clock, and an uninitialised local.
pub record World : Type 0 where
  pub scale_x : ℤ → ℤ
  pub scale_y : ℤ → ℤ
  pub clock : TimeVal
  pub garbage : TimeVal

-- The button event: the state is saved, and a release is preceded by one more touch.
unfoldable pub save_button : World → InputEvent → Panel → Panel
unfolding generate_mouse_gesture
save_button w e p =
    let p' = record p { touch_button_state = e.value } in
    if e.value ==ℤ pos 0 then generate_mouse_gesture w.clock p' (pos 1) else p'

-- The first `if` chain of `handle_new_event`.
unfoldable pub pointer_event : World → InputEvent → Panel → Panel
unfolding save_button
pointer_event w e p =
    if e.type == ev_abs && e.code == abs_x
    then record p { cached_x = w.scale_x e.value }
    else if e.type == ev_abs && e.code == abs_y
    then record p { cached_y = w.scale_y e.value }
    else if e.type == ev_key && (e.code == btn_touch || e.code == btn_left)
    then save_button w e p
    else if e.type == ev_syn
    then generate_mouse_gesture w.clock p p.touch_button_state
    else p

unfoldable pub handle_new_event : World → InputEvent → Panel → Panel
unfolding pointer_event forward_event is_forwarded
handle_new_event w e p =
    let p' = pointer_event w e p in if is_forwarded e then forward_event w.garbage e p' else p'

-- What `poll` and `read` find: nothing, no input, an error, an event, or no event, by an interruption
-- or at the end of the file. In the last case `pEvent` holds what was on the stack.
pub data Poll : Type 0 where
  quiet no_input failed : Poll
  event nothing_read : InputEvent → Poll

-- `read_input_event`. Its result is not looked at.
unfoldable pub read_input_event : World → Poll → Panel → Panel
unfolding handle_new_event
read_input_event w quiet p = p
read_input_event w no_input p = p
read_input_event w failed p = p
read_input_event w (event e) p = handle_new_event w e p
read_input_event w (nothing_read stack) p = handle_new_event w stack p
