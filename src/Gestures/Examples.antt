-- ===== src/Gestures/Examples.antt =====
-- A machine with two finger buffers, and the theorems at its frames.
use nyx_modules.Base.{
  ℕ, ◌+◌, ◌<◌, ◌≤◌, ◌≡◌, refl, pos, ltb_ℤ, half, if◌then◌else◌, ◌⊎◌, true, false, List, Option, [],
  ◌∷◌, ◌++◌, dist_sq, ◌-ℤ◌, none, some, length, get_elem?, replicate, All, arith,
}
use nyx_modules.Gestures.Machine.Lifecycle.{
  init_gesture_state_machine, deinit_gesture_state_machine,
}
use nyx_modules.Gestures.Machine.Sessions.{Frame, frames, session_lem}
use nyx_modules.Gestures.Types.{TimeStamp, GeneralSettings, EventBuf, zero_event}
use nyx_modules.Gestures.CoordBuf.{
  Coord, CoordBuf, zero_coord, update_coord_buffer, new_coord, get_last_coords,
}
use nyx_modules.Gestures.CoordBuf.History
use nyx_modules.Gestures.CoordBuf.History.{
  history, remember, history-update, get_last-update, update-IsValid,
}
use nyx_modules.Gestures.Finger.{Finger, unused, finger_down, int_max}
use nyx_modules.Gestures.Finger.Report.{Emits}
use nyx_modules.Gestures.Machine.{
  Machine, Touch, is_discarded, add_fingers, add_new_finger, add_from, update_fingers, match_touch,
  apply_match, distance, closest_from, match_touches, track, gesture_state_machine,
}
use nyx_modules.Gestures.Machine.Events.{reports, frame_end, frame-Emits}
use nyx_modules.Gestures.Machine.Invariant.{IsTracked, IsPooled, Inv, frame-Inv}
use nyx_modules.Gestures.Machine.Matching.{NotCloser, closest_lem}
use nyx_modules.Gestures.Machine.Tracking.{frame_follows, frame_starts}

abbrev pub now_time : TimeStamp
now_time = record { sec = 5; nsec = 7000 }

abbrev pub settings : GeneralSettings
settings = record { coord_buf_size = 2; finger_down_threshold = pos 0; position_filter = pos 0 }

abbrev pub empty_buffer : CoordBuf
empty_buffer = record {
  coords = replicate 2 zero_coord;
  head = 0;
  tail = 0;
  num_items = 0;
  size = 2;
}

abbrev pub pooled_finger : Finger
pooled_finger = record {
  coords = empty_buffer;
  timestamp = now_time;
  id = 0;
  state = record {
    state = unused;
    start_x = pos 0;
    start_y = pos 0;
    inside_tap_radius = true;
    start_time = now_time;
  };
  min_dist = 0;
  min_dist_id = 0;
  last_weight = pos 0;
}

abbrev pub full_buffer : CoordBuf
full_buffer = record {
  coords =
      record { x = pos 10; y = pos 20; time_stamp = now_time }
      ∷ record { x = pos 12; y = pos 20; time_stamp = now_time }
      ∷ [];
  head = 0;
  tail = 0;
  num_items = 2;
  size = 2;
}

abbrev pub tracked_finger : Finger
tracked_finger = record {
  coords = full_buffer;
  timestamp = now_time;
  id = 3;
  state = record {
    state = finger_down;
    start_x = pos 10;
    start_y = pos 20;
    inside_tap_radius = true;
    start_time = now_time;
  };
  min_dist = int_max;
  min_dist_id = 0;
  last_weight = pos 1;
}

abbrev pub idle_machine : Machine
idle_machine = record {
  settings = settings;
  available = pooled_finger ∷ pooled_finger ∷ [];
  fingers = [];
  cur_finger_id = 4;
}

abbrev pub busy_machine : Machine
busy_machine = record {
  settings = settings;
  available = pooled_finger ∷ [];
  fingers = tracked_finger ∷ [];
  cur_finger_id = 4;
}

abbrev pub touch : Touch
touch = record { x = pos 13; y = pos 21; weight = pos 1 }

abbrev pub no_events : EventBuf
no_events = record { events = replicate 16 zero_event; count = 0 }

pub empty_buffer-IsValid : History.IsValid empty_buffer
empty_buffer-IsValid = record {
  nonempty = omega arith;
  memory = refl;
  head_in = omega arith;
  fits = omega arith;
  tail_at = refl;
}

full_buffer-IsValid : History.IsValid full_buffer
full_buffer-IsValid = record {
  nonempty = omega arith;
  memory = refl;
  head_in = omega arith;
  fits = omega arith;
  tail_at = refl;
}

pub pooled_finger-IsPooled : IsPooled pooled_finger
pooled_finger-IsPooled = record { history = empty_buffer-IsValid; idle = refl }

tracked_finger-IsTracked : IsTracked tracked_finger
tracked_finger-IsTracked = record {
  is_down = record { history = full_buffer-IsValid; seen = omega arith; down = refl };
  unmatched = refl;
}

pub idle_machine-Inv : Inv idle_machine
idle_machine-Inv = record {
  tracked = tt;
  pooled = (pooled_finger-IsPooled, (pooled_finger-IsPooled, tt));
  id_in = omega arith;
}

busy_machine-Inv : Inv busy_machine
busy_machine-Inv = record {
  tracked = (tracked_finger-IsTracked, tt);
  pooled = (pooled_finger-IsPooled, tt);
  id_in = omega arith;
}

history-update_example :
    history (update_coord_buffer settings full_buffer (pos 13) (pos 21) now_time)
    ≡ remember 2 (history full_buffer) (new_coord settings full_buffer (pos 13) (pos 21) now_time)
history-update_example = history-update settings (pos 13) (pos 21) now_time full_buffer-IsValid

frame-Inv_example : Inv (gesture_state_machine busy_machine (touch ∷ []) now_time no_events).0
frame-Inv_example = frame-Inv busy_machine (touch ∷ []) now_time no_events busy_machine-Inv

abbrev bare_machine : Machine
bare_machine = record { settings = settings; available = []; fingers = []; cur_finger_id = 0 }

abbrev two_buffers : List (Finger × Option (List Coord))
two_buffers =
    (pooled_finger, some (replicate 2 zero_coord))
    ∷ (pooled_finger, some (replicate 2 zero_coord))
    ∷ []

-- A touch, and then none.
abbrev two_frames : List Frame
two_frames =
    record { touches = touch ∷ []; now = now_time; events = no_events }
    ∷ record { touches = []; now = now_time; events = no_events }
    ∷ []

session_lem_example :
    Inv (frames two_frames (init_gesture_state_machine settings two_buffers bare_machine))
    × (length
          (deinit_gesture_state_machine
            (frames two_frames (init_gesture_state_machine settings two_buffers bare_machine))).0
        ≡ 2)
session_lem_example =
    session_lem settings two_buffers bare_machine two_frames (omega arith) (refl, (refl, tt)) refl
      refl (omega arith)

closest_lem_example :
    All
      (NotCloser touch (closest_from touch (tracked_finger ∷ []) 0 int_max none).0)
      (tracked_finger ∷ [])
    × ((((closest_from touch (tracked_finger ∷ []) 0 int_max none).0 ≡ int_max)
          × ((closest_from touch (tracked_finger ∷ []) 0 int_max none).1 ≡ none))
        ⊎ ((k : ℕ) × (f : Finger) × (get_elem? (tracked_finger ∷ []) k ≡ some f)
            × ((closest_from touch (tracked_finger ∷ []) 0 int_max none).1 ≡ some k)
            × ((closest_from touch (tracked_finger ∷ []) 0 int_max none).0 ≡ distance f touch)
            × (distance f touch < int_max)
            × (distance f touch ≤ f.min_dist)))
closest_lem_example = closest_lem touch (tracked_finger ∷ [])

kept : is_discarded settings touch ≡ false
unfolding is_discarded
kept = refl

frame_starts_example :
    (g : Finger) × ((gesture_state_machine idle_machine (touch ∷ []) now_time no_events).0.fingers
      ≡ g ∷ [])
    × (g.id ≡ 4)
    × ((gesture_state_machine idle_machine (touch ∷ []) now_time no_events).0.available
        ≡ pooled_finger ∷ [])
    × ((gesture_state_machine idle_machine (touch ∷ []) now_time no_events).0.cur_finger_id ≡ 5)
frame_starts_example =
    frame_starts idle_machine pooled_finger (pooled_finger ∷ []) touch now_time no_events refl refl
      kept

near : distance tracked_finger touch < int_max
unfolding distance get_last_coords dist_sq ◌-ℤ◌
near = omega arith

one_finger : length (track idle_machine (touch ∷ []) now_time).fingers ≡ 1
unfolding track match_touches match_touch closest_from apply_match update_fingers add_fingers
    add_new_finger add_from is_discarded
one_finger = refl

frame-Emits_example :
    Emits no_events (gesture_state_machine idle_machine (touch ∷ []) now_time no_events).1 (
      reports (track idle_machine (touch ∷ []) now_time).fingers
      ++ frame_end (0 + length (reports (track idle_machine (touch ∷ []) now_time).fingers)))
frame-Emits_example =
    frame-Emits idle_machine (touch ∷ []) now_time no_events (omega (arith, one_finger))

frame_follows_example :
    (g : Finger) × ((gesture_state_machine busy_machine (touch ∷ []) now_time no_events).0.fingers
      ≡ g ∷ [])
    × (history g.coords ≡ (
        if ltb_ℤ (half tracked_finger.last_weight) (pos 1)
        then remember tracked_finger.coords.size
            (history tracked_finger.coords)
            (new_coord settings tracked_finger.coords (pos 13) (pos 21) now_time)
        else history tracked_finger.coords))
    × (g.id ≡ 3)
    × ((gesture_state_machine busy_machine (touch ∷ []) now_time no_events).0.available
        ≡ pooled_finger ∷ [])
    × ((gesture_state_machine busy_machine (touch ∷ []) now_time no_events).0.cur_finger_id ≡ 4)
frame_follows_example =
    frame_follows busy_machine tracked_finger touch now_time no_events busy_machine-Inv refl near
