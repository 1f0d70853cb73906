-- ===== src/Touchpanel/Validity.antt =====
-- What reading a raw event keeps of the panel.
use nyx_modules.Base.{
  ℕ, ◌+◌, ◌*◌, ◌/◌, ◌≤◌, ◌≡◌, refl, ◌∙◌, ℤ, pos, ◌==ℤ◌, ◌&&◌, ◌||◌, ◌==◌, Bool-cases, inl, inr,
  arith, length, length-set,
}
use nyx_modules.Gestures.Types.{
  TimeVal, InputEvent, EventBuf, ev_abs, ev_key, ev_syn, abs_x, abs_y, btn_touch,
}
use nyx_modules.Gestures.Machine.Invariant.{Inv, frame-Inv}
use nyx_modules.Gestures.Machine.Pool.{total, total-frame, total-track}
use nyx_modules.Gestures.Machine.Events.{frame-Emits, count-frame}
use nyx_modules.Touchpanel.Source.{
  Panel, btn_left, event_size, World, Poll, get_time_stamp, mouse_touches, generate_mouse_gesture,
  forward_event, is_forwarded, save_button, pointer_event, handle_new_event, read_input_event,
  quiet, no_input, failed, event, nothing_read,
}
use nyx_modules.Touchpanel.Device.{event_count, event_iter}

-- `MAX_HIDD_EVENTS`, at 16 bytes an event
abbrev pub max_hidd_events : ℕ
max_hidd_events = 4096 / event_size

-- The event list and the finger pool fit together, and what is read lies inside what is filled.
pub record IsValid (p : Panel) : Type 0 where
  pub machine : Inv p.machine
  pub room : 5 * total p.machine + 1 ≤ max_hidd_events
  pub array : length p.events.input ≡ max_hidd_events
  pub filled : event_count p * event_size ≡ p.events.input_filled
  pub read : event_iter p * event_size ≡ p.events.input_read
  pub inside : p.events.input_read ≤ p.events.input_filled
  pub limit : event_count p ≤ max_hidd_events

pub generate-IsValid :
    (tv : TimeVal) (p : Panel) (button : ℤ)
    → IsValid p
    → IsValid (generate_mouse_gesture tv p button)
unfolding generate_mouse_gesture event_count event_iter
generate-IsValid tv p button v =
    let ps = mouse_touches p button in
    let now = get_time_stamp tv in
    let b : EventBuf = record { events = p.events.input; count = 0 } in
    let t = total-track p.machine ps now in
    let e = frame-Emits p.machine ps now b (omega (arith, v.room, v.array, t)) in
    let c = count-frame p.machine ps now b refl (omega (arith, v.room, v.array, t)) in
    record {
      machine = frame-Inv p.machine ps now b v.machine;
      room = omega (arith, v.room, total-frame p.machine ps now b);
      array = e.room ∙ v.array;
      filled = omega arith;
      read = omega arith;
      inside = omega arith;
      limit = omega (arith, c, v.room, t);
    }

pub forward-IsValid :
    (tv : TimeVal) (e : InputEvent) (p : Panel) → IsValid p → IsValid (forward_event tv e p)
unfolding forward_event event_count event_iter
forward-IsValid tv e p v = record {
  machine = v.machine;
  room = v.room;
  array = rw (length-set, length-set) v.array;
  filled = omega arith;
  read = omega arith;
  inside = omega arith;
  limit = omega arith;
}

pub save_button-IsValid :
    (w : World) (e : InputEvent) (p : Panel) → IsValid p → IsValid (save_button w e p)
unfolding save_button
save_button-IsValid w e p v =
    let p' : Panel = record p { touch_button_state = e.value } in
    let v' : IsValid p' =
      unfold event_count event_iter in
      record {
        machine = v.machine;
        room = v.room;
        array = v.array;
        filled = v.filled;
        read = v.read;
        inside = v.inside;
        limit = v.limit;
      } in
    elim (Bool-cases (e.value ==ℤ pos 0)) [
      | inl released ↦ rw released (generate-IsValid w.clock p' (pos 1) v')
      | inr pressed ↦ rw pressed v'
    ]

-- Only the cached position changes.
pub move-IsValid :
    (p : Panel) (x y : ℤ) → IsValid p → IsValid (record p { cached_x = x; cached_y = y })
unfolding event_count event_iter
move-IsValid p x y v = record {
  machine = v.machine;
  room = v.room;
  array = v.array;
  filled = v.filled;
  read = v.read;
  inside = v.inside;
  limit = v.limit;
}

pub pointer_event-IsValid :
    (w : World) (e : InputEvent) (p : Panel) → IsValid p → IsValid (pointer_event w e p)
unfolding pointer_event
pointer_event-IsValid w e p v = elim (Bool-cases (e.type == ev_abs && e.code == abs_x)) [
  | inl is_x ↦ rw is_x (move-IsValid p (w.scale_x e.value) p.cached_y v)
  | inr not_x ↦ rw not_x (elim (Bool-cases (e.type == ev_abs && e.code == abs_y)) [
    | inl is_y ↦ rw is_y (move-IsValid p p.cached_x (w.scale_y e.value) v)
    | inr not_y ↦
        rw not_y
          (elim (Bool-cases (e.type == ev_key && (e.code == btn_touch || e.code == btn_left))) [
            | inl is_button ↦ rw is_button (save_button-IsValid w e p v)
            | inr not_button ↦ rw not_button (elim (Bool-cases (e.type == ev_syn)) [
              | inl is_syn ↦ rw is_syn (generate-IsValid w.clock p p.touch_button_state v)
              | inr other ↦ rw other v
            ])
          ])
  ])
]

pub handle_new_event-IsValid :
    (w : World) (e : InputEvent) (p : Panel) → IsValid p → IsValid (handle_new_event w e p)
unfolding handle_new_event
handle_new_event-IsValid w e p v = elim (Bool-cases (is_forwarded e)) [
  | inl yes_forwarded ↦
      rw yes_forwarded
        (forward-IsValid w.garbage e (pointer_event w e p) (pointer_event-IsValid w e p v))
  | inr not_forwarded ↦ rw not_forwarded (pointer_event-IsValid w e p v)
]

-- Whatever `poll` and `read` find, the event list stays valid.
pub read_input_event-IsValid :
    (w : World) (poll : Poll) (p : Panel) → IsValid p → IsValid (read_input_event w poll p)
unfolding read_input_event
read_input_event-IsValid w quiet p v = v
read_input_event-IsValid w no_input p v = v
read_input_event-IsValid w failed p v = v
read_input_event-IsValid w (event e) p v = handle_new_event-IsValid w e p v
read_input_event-IsValid w (nothing_read e) p v = handle_new_event-IsValid w e p v
