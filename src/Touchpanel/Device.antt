-- ===== src/Touchpanel/Device.antt =====
-- The module's methods.
use nyx_modules.Base.{
  ℕ, ◌+◌, ◌-◌, ◌*◌, ◌/◌, ℤ, Bool, true, false, not, ◌==◌, if◌then◌else◌, List, Option, none, some,
  take, drop,
}
use nyx_modules.Nyx.{NyxError, ok, invalid_handle, invalid_value, not_implemented}
use nyx_modules.Gestures.Types.{InputEvent}
use nyx_modules.Touchpanel.Items.{
  TouchEvent, touch_event_create, Round, building, generated, aborted, consume,
}
use nyx_modules.Touchpanel.Source.{Panel, event_size, World, Poll, read_input_event}

-- The bookkeeping at the start of `touchpanel_get_event`.
unfoldable pub begin_event : World → Poll → Panel → Panel
begin_event w poll p =
    if p.read_input
    then p
    else record (read_input_event w poll p) { current_event = none; read_input = true }

unfoldable pub event_count : Panel → ℕ
event_count p = p.events.input_filled / event_size

unfoldable pub event_iter : Panel → ℕ
event_iter p = p.events.input_read / event_size

-- "Event bookkeeping": at the end of the list the next call reads again.
unfoldable pub rewind : Panel → Panel
unfolding event_count event_iter
rewind p = if event_iter p == event_count p then record p { read_input = false } else p

-- The events that the loop may still read.
unfoldable pub pending : Panel → List InputEvent
unfolding event_count event_iter
pending p = take (event_count p - event_iter p) (drop (event_iter p) p.events.input)

-- `current_event_ptr` after the allocation that a NULL one asks for.
unfoldable pub hold_event : Bool → Option TouchEvent → Option TouchEvent
unfolding touch_event_create
hold_event alloc (some cur) = some cur
hold_event alloc none = touch_event_create alloc

-- What the loop has done to the panel after `n` events.
unfoldable pub after_loop : Panel → ℕ × Round → Option (Panel × Option TouchEvent)
after_loop p (n, building cur) =
    let l = p.events in
    some (
      record p {
        events = record l { input_read = l.input_read + n * event_size };
        current_event = some cur;
      },
      none,
    )
after_loop p (n, generated g next) =
    let l = p.events in
    some (
      record p {
        events = record l { input_read = l.input_read + n * event_size };
        current_event = next;
      },
      some g,
    )
after_loop p (n, aborted) = none

unfoldable pub run_loop : ℕ → Bool → Panel → Option TouchEvent → Option (Panel × Option TouchEvent)
unfolding after_loop pending
run_loop max_items alloc p none = none
run_loop max_items alloc p (some cur) = after_loop p (consume max_items alloc cur 0 (pending p))

-- `touchpanel_get_event`: the panel and `*e`. The result is always NYX_ERROR_NONE; `none` is a crash,
-- on an event that could not be allocated. `alloc` is for the event held, `alloc'` for one begun when
-- another is full.
unfoldable pub touchpanel_get_event :
    ℕ → World → Poll → Bool → Bool → Panel → Option (Panel × Option TouchEvent)
unfolding begin_event rewind hold_event run_loop
touchpanel_get_event max_items w poll alloc alloc' p =
    let p' = rewind (begin_event w poll p) in
    run_loop max_items alloc' p' (hold_event alloc p'.current_event)

-- `touchpanel_release_event`, by whether the arguments are not NULL; `ok` is the case that frees.
unfoldable pub touchpanel_release_event : Bool → Bool → NyxError
touchpanel_release_event d e =
    if not d then invalid_handle else if not e then invalid_handle else ok

-- `touchpanel_get_event_source`, with the value that `*f` gets.
unfoldable pub touchpanel_get_event_source : ℤ → Bool → Bool → NyxError × Option ℤ
touchpanel_get_event_source fd d f =
    if not d then (invalid_handle, none) else if not f then (invalid_value, none) else (ok, some fd)

-- The methods that are not supported. Those that would write a rate or a mode write nothing.
unfoldable pub touchpanel_set_operating_mode : Bool → ℕ → NyxError
touchpanel_set_operating_mode d m = not_implemented

unfoldable pub touchpanel_set_active_scan_rate : Bool → ℕ → NyxError
touchpanel_set_active_scan_rate d r = not_implemented

unfoldable pub touchpanel_set_idle_scan_rate : Bool → ℕ → NyxError
touchpanel_set_idle_scan_rate d r = not_implemented

unfoldable pub touchpanel_get_active_scan_rate : Bool → NyxError × Option ℕ
touchpanel_get_active_scan_rate d = (not_implemented, none)

unfoldable pub touchpanel_get_idle_scan_rate : Bool → NyxError × Option ℕ
touchpanel_get_idle_scan_rate d = (not_implemented, none)

unfoldable pub touchpanel_set_mode : Bool → ℤ → NyxError
touchpanel_set_mode d m = not_implemented

unfoldable pub touchpanel_get_mode : Bool → NyxError × Option ℤ
touchpanel_get_mode d = (not_implemented, none)
