-- ===== src/Touchpanel/Memory/Examples.antt =====
-- A client of the touchpanel, and the account of its events.
use nyx_modules.Base.{◌+◌, ◌≡◌, refl, ℤ, pos, true, false, List, [], ◌∷◌, some, set}
use nyx_modules.Runs.{run}
use nyx_modules.Gestures.Types.{ev_key, ev_syn}
use nyx_modules.Touchpanel.Items.{touch_event_create, consume, handle_input}
use nyx_modules.Touchpanel.Source.{
  event, read_input_event, handle_new_event, pointer_event, save_button, forward_event,
  is_forwarded, syn_start,
}
use nyx_modules.Touchpanel.Device.{
  touchpanel_get_event, event_count, event_iter, begin_event, rewind, hold_event, run_loop,
  after_loop, pending,
}
use nyx_modules.Touchpanel.Examples.{
  world, pressed_panel, press, answers, both_numbers, closed_panel, report_event,
}
use nyx_modules.Touchpanel.Memory.{
  TouchMemory, TouchAction, get, release, restart, switch_created, loop_created, all_created,
  call_created, restarted, touch_acts,
}
use nyx_modules.Touchpanel.Memory.Account.{account, all_forgotten, touch_account}

abbrev no_touches : TouchMemory (ℤ × ℤ)
no_touches = record {
  touch = record closed_panel { panel = pressed_panel };
  allocated = 0;
  held = 0;
}

-- A press, the middle button, which is handed out at once, a press again, the release of the event,
-- and a new start.
abbrev touch_session : List TouchAction
touch_session =
    get world (event press) true true
    ∷ get world (event (report_event ev_key 0x112 (pos 1))) true true
    ∷ get world (event press) true true
    ∷ release
    ∷ restart answers
    ∷ []

-- Before the new start: the event that the device holds, and the one that the second call forgot.
abbrev before : TouchMemory (ℤ × ℤ)
before = record {
  touch = record closed_panel {
    panel = record pressed_panel {
      events = record {
        input_filled = 32;
        input_read = 32;
        input =
            set (set pressed_panel.events.input 0 (report_event ev_key 0x112 (pos 1))) 1
              (report_event ev_syn syn_start (pos 0));
      };
      read_input = false;
      current_event = some [];
    };
  };
  allocated = 2;
  held = 0;
}

session_run :
    touch_acts both_numbers 4 touch_session no_touches
    ≡ some (restarted both_numbers 4 answers before)
unfolding touch_acts run touchpanel_get_event begin_event rewind hold_event run_loop after_loop
    pending event_count event_iter touch_event_create consume read_input_event handle_new_event
    pointer_event save_button forward_event is_forwarded switch_created loop_created all_created
    call_created handle_input
session_run = refl

touch_account_example :
    (restarted both_numbers 4 answers before).allocated
    ≡ account
        (restarted both_numbers 4 answers before)
        (0 + all_forgotten both_numbers 4 touch_session no_touches)
touch_account_example =
    touch_account both_numbers 4 touch_session no_touches (restarted both_numbers 4 answers before)
      0 refl session_run
