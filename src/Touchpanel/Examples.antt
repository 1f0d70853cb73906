-- ===== src/Touchpanel/Examples.antt =====
-- A panel at the start of the module, and the theorems at its calls.
use nyx_modules.Base.{
  ℕ, ◌+◌, ◌≡◌, refl, ℤ, pos, negsuc, scale_ℤ, signed32, ◌+ℤ◌, true, false, List, [], ◌∷◌, ◌++◌, map,
  none, some, length, replicate, length-replicate, arith,
}
use nyx_modules.Gestures.Types.{
  TimeVal, InputEvent, zero_event, ev_key, ev_syn, ev_abs, ev_fingerid, btn_touch, abs_x, abs_y,
}
use nyx_modules.Gestures.CoordBuf.{get_last_coords}
use nyx_modules.Gestures.Finger.{Finger}
use nyx_modules.Gestures.Finger.Report.{signal, report}
use nyx_modules.Gestures.Machine.{
  track, is_discarded, match_touches, match_touch, apply_match, closest_from, update_fingers,
  add_fingers, add_new_finger, add_from,
}
use nyx_modules.Gestures.Machine.Events.{reports}
use nyx_modules.Gestures.Examples.{
  idle_machine, idle_machine-Inv, pooled_finger, tracked_finger, settings,
}
use nyx_modules.Touchpanel.Items.{TouchEvent, generated, consume, down, touch_event_create}
use nyx_modules.Touchpanel.Source.{
  Panel, World, event, mouse_touches, get_time_stamp, read_input_event, handle_new_event,
  pointer_event, save_button, forward_event, is_forwarded,
}
use nyx_modules.Touchpanel.Device.{
  touchpanel_get_event, event_count, event_iter, begin_event, rewind, hold_event, run_loop,
  after_loop, pending,
}
use nyx_modules.Nyx.{ok}
use nyx_modules.Touchpanel.Start.{
  StartAnswers, Touchpanel, init_vbox_touchpanel, get_display_res, nyx_module_open,
  nyx_module_close,
}
use nyx_modules.Touchpanel.Descriptors.{HasTouchscreen, closed_but_open}
use nyx_modules.Touchpanel.Decode.{readings, finger_reading}
use nyx_modules.Touchpanel.RoundTrip.{decode_frame}
use nyx_modules.Touchpanel.Validity.{IsValid}
use nyx_modules.Touchpanel.Safety.{get_event-IsValid}
use nyx_modules.Touchpanel.Limits.{Returns, get_event-Returns}
use nyx_modules.Touchpanel.Click.{frame_is_read, press_is_read}

abbrev zero_time : TimeVal
zero_time = record { sec = 0; usec = 0 }

abbrev pub world : World
world = record {
  scale_x = λ v. v;
  scale_y = λ v. v;
  clock = record { sec = 9; usec = 500 };
  garbage = zero_time;
}

-- The button is down and the pointer at (13, 21).
abbrev pub pressed_panel : Panel
pressed_panel = record {
  machine = idle_machine;
  cached_x = pos 13;
  cached_y = pos 21;
  touch_button_state = pos 1;
  events = record { input_filled = 0; input_read = 0; input = replicate 256 zero_event };
  read_input = false;
  current_event = none;
}

abbrev syn : InputEvent
syn = record { time = zero_time; type = ev_syn; code = 0; value = pos 0 }

abbrev pub press : InputEvent
press = record { time = zero_time; type = ev_key; code = btn_touch; value = pos 1 }

pressed_panel-IsValid : IsValid pressed_panel
pressed_panel-IsValid = record {
  machine = idle_machine-Inv;
  room = omega arith;
  array = length-replicate 256 zero_event;
  filled = unfold event_count in refl;
  read = unfold event_iter in refl;
  inside = omega arith;
  limit = unfold event_count in omega arith;
}

kept : is_discarded settings (record { x = pos 13; y = pos 21; weight = pos 1 }) ≡ false
unfolding is_discarded
kept = refl

press_is_read_example :
    (p' : Panel) × (g : TouchEvent) × (touchpanel_get_event 4 world
        (event syn)
        true
        true
        pressed_panel
      ≡ some (p', some g))
    × (readings g
        ≡ record {
          finger = scale_ℤ 1000 (signed32 4) +ℤ pos 0;
          state = down;
          x = pos 13;
          y = pos 21;
        }
          ∷ [])
press_is_read_example =
    press_is_read 4 world syn true pressed_panel pooled_finger (pooled_finger ∷ [])
      pressed_panel-IsValid refl refl (omega arith) refl refl refl kept

abbrev tracked_now : List Finger
tracked_now =
    (track idle_machine (mouse_touches pressed_panel (pos 1)) (get_time_stamp world.clock)).fingers

one_finger : length tracked_now ≡ 1
unfolding mouse_touches get_time_stamp track match_touches match_touch closest_from apply_match
    update_fingers add_fingers add_new_finger add_from is_discarded
one_finger = refl

frame_is_read_example :
    (p' : Panel) × (g : TouchEvent) × (touchpanel_get_event 4 world
        (event syn)
        true
        true
        pressed_panel
      ≡ some (p', some g))
    × (readings g ≡ map finger_reading tracked_now)
    × (p'.current_event ≡ none)
frame_is_read_example =
    frame_is_read 4 world syn true pressed_panel pressed_panel-IsValid refl refl
      (omega (arith, one_finger)) (omega (arith, one_finger))

get_event-Returns_example :
    Returns 4 (touchpanel_get_event 4 world (event press) true true pressed_panel)
get_event-Returns_example = get_event-Returns 4 world (event press) pressed_panel (omega arith) tt

-- A call that only takes in the button holds an empty event.
press_call :
    touchpanel_get_event 4 world (event press) true true pressed_panel
    ≡ some (record pressed_panel { current_event = some [] }, none)
unfolding touchpanel_get_event begin_event rewind hold_event run_loop after_loop pending event_count
    event_iter touch_event_create consume read_input_event handle_new_event pointer_event
    save_button forward_event is_forwarded
press_call = refl

get_event-IsValid_example : IsValid (record pressed_panel { current_event = some [] })
get_event-IsValid_example =
    get_event-IsValid 4 world (event press) true true pressed_panel pressed_panel-IsValid press_call

abbrev pub report_event : ℕ → ℕ → ℤ → InputEvent
report_event type code value = record { time = zero_time; type = type; code = code; value = value }

abbrev frame_events : List InputEvent
frame_events =
    report_event ev_fingerid 0 (pos 3)
    ∷ report_event ev_abs abs_x (pos 12)
    ∷ report_event ev_abs abs_y (pos 20)
    ∷ report_event ev_key btn_touch (pos 0)
    ∷ report_event ev_syn 0 (pos 0)
    ∷ []

frame_signals : map signal frame_events ≡ reports (tracked_finger ∷ []) ++ ((ev_syn, 0, pos 0) ∷ [])
unfolding reports report get_last_coords
frame_signals = refl

decode_frame_example :
    (g : TouchEvent) × (consume 4 true [] 0 frame_events
      ≡ (length (reports (tracked_finger ∷ [])) + 1, generated g none))
    × (readings g ≡ map finger_reading (tracked_finger ∷ []))
decode_frame_example =
    decode_frame 4 true (tracked_finger ∷ []) frame_events (omega arith) frame_signals

-- A touchscreen at descriptor 7 with a display at 9, and one without.
abbrev pub answers : StartAnswers
answers = record {
  event_fd = pos 7;
  horizontal = (pos 0, pos 1023);
  vertical = (pos 0, pos 767);
  vbox = record {
    vbox_fd = negsuc 0;
    status_ioctl = pos 0;
    status_rc = pos 0;
    shape_ioctl = pos 0;
    shape_rc = pos 0;
  };
  display = record { display_fd = pos 9; screen_ioctl = pos 0; xres = pos 320; yres = pos 480 };
  first_finger = (pooled_finger, none);
  second_finger = (pooled_finger, none);
}

abbrev without_display : StartAnswers
without_display = record answers {
  display = record { display_fd = negsuc 0; screen_ioctl = pos 0; xres = pos 0; yres = pos 0 };
}

-- The scaling keeps both numbers.
abbrev pub both_numbers : ℤ → ℤ → ℤ × ℤ
both_numbers a b = (a, b)

abbrev pub closed_panel : Touchpanel (ℤ × ℤ)
closed_panel = record {
  panel = pressed_panel;
  event_fd = negsuc 0;
  scale_x = (pos 0, pos 0);
  scale_y = (pos 0, pos 0);
  closed = [];
}

without_display-HasTouchscreen : HasTouchscreen both_numbers without_display
unfolding HasTouchscreen
without_display-HasTouchscreen = (refl, refl, refl)

closed_but_open_example :
    ((nyx_module_open both_numbers true without_display closed_panel).1 ≡ ok)
    × ((nyx_module_open both_numbers true without_display closed_panel).0.event_fd ≡ pos 7)
    × ((nyx_module_open both_numbers true without_display closed_panel).0.closed
        ≡ []
          ++ init_vbox_touchpanel without_display.vbox
          ++ (get_display_res without_display.display).1
          ++ (pos 7 ∷ []))
    × ((nyx_module_close
          (nyx_module_open both_numbers true without_display closed_panel).0).0.closed
        ≡ (nyx_module_open both_numbers true without_display closed_panel).0.closed ++ (pos 7 ∷ []))
closed_but_open_example =
    closed_but_open both_numbers without_display closed_panel without_display-HasTouchscreen
      (unfold get_display_res in refl)
