-- ===== src/Touchpanel/Click.antt =====
-- From a raw event to what the client reads: the path through `handle_new_event`, the gesture state
-- machine and the loop of `touchpanel_get_event`.
use nyx_modules.Base.{
  ℕ, ◌+◌, ◌*◌, ◌≤◌, ◌<◌, ◌≡◌, refl, ap, ◌∙◌, pos, ◌==ℤ◌, ◌+ℤ◌, scale_ℤ, signed32, Bool, true, false,
  List, [], ◌∷◌, map, arith, none, some, All, length,
}
use nyx_modules.Gestures.Types.{TimeStamp, InputEvent, GeneralSettings, ev_syn}
use nyx_modules.Gestures.CoordBuf.{get_last_coords, new_coord, reset_coord_buffer}
use nyx_modules.Gestures.CoordBuf.History
use nyx_modules.Gestures.Finger.{Finger, reset_state_data}
use nyx_modules.Gestures.Machine.{Machine, Touch, track, new_finger, is_discarded}
use nyx_modules.Gestures.Machine.Invariant.{IsPooled, reset-IsValid}
use nyx_modules.Gestures.Machine.Events.{reports}
use nyx_modules.Gestures.Machine.Tracking.{track_new}
use nyx_modules.Touchpanel.Items.{down, TouchEvent}
use nyx_modules.Touchpanel.Source.{Panel, World, event_size, event, get_time_stamp, mouse_touches}
use nyx_modules.Touchpanel.Device.{
  begin_event, rewind, event_count, event_iter, pending, hold_event, run_loop, touchpanel_get_event,
}
use nyx_modules.Touchpanel.Decode.{readings, finger_reading}
use nyx_modules.Touchpanel.RoundTrip.{decode_frame}
use nyx_modules.Touchpanel.Validity.{IsValid}
use nyx_modules.Touchpanel.Syn.{pending_frame, after_syn, begin_syn, rewind_pending, run_syn}

-- In a valid state in which the next call reads, and if memory lasts, a raw EV_SYN that makes a
-- frame with at least one finger, and no more than an event has items, is answered at once: the
-- call hands out an event with one item for each finger of the frame, in order, and holds no event
-- afterwards.
pub frame_is_read :
    (max_items : ℕ) (w : World) (e : InputEvent) (alloc : Bool) (p : Panel)
    → IsValid p
    → p.read_input ≡ false
    → e.type ≡ ev_syn
    → 0
      < length
          (track p.machine (mouse_touches p p.touch_button_state) (get_time_stamp w.clock)).fingers
    → length
        (track p.machine (mouse_touches p p.touch_button_state) (get_time_stamp w.clock)).fingers
      ≤ max_items
    → (p' : Panel) × (g : TouchEvent) × (touchpanel_get_event max_items w (event e) true alloc p
        ≡ some (p', some g))
      × (readings g
          ≡ map finger_reading
              (track p.machine
                (mouse_touches p p.touch_button_state)
                (get_time_stamp w.clock)).fingers)
      × (p'.current_event ≡ none)
unfolding touchpanel_get_event
frame_is_read max_items w e alloc p v fresh t some_finger room =
    let fs =
      (track p.machine (mouse_touches p p.touch_button_state) (get_time_stamp w.clock)).fingers in
    let (at_start, count, out) = pending_frame p w.clock p.touch_button_state v some_finger in
    let q = after_syn w p in
    let (g, eaten, reads) =
      decode_frame max_items alloc fs (pending q) room
        (unfold pending event_iter event_count in out) in
    let same : rewind (begin_event w (event e) p) ≡ q =
      ap rewind (begin_syn w e p fresh t)
      ∙ rewind_pending q (length (reports fs)) (unfold event_iter in at_start)
          (unfold event_count in count) in
    let l = q.events in
    (
      record q {
        events = record l { input_read = l.input_read + (length (reports fs) + 1) * event_size };
        current_event = none;
      },
      g,
      ap (λ (x : Panel). run_loop max_items alloc x (hold_event true x.current_event)) same
          ∙ run_syn max_items alloc q (length (reports fs) + 1) g refl eaten,
      reads,
      refl,
    )

-- A new finger is read as down, where the touch is: an empty history is not filtered.
new_finger_coord :
    (s : GeneralSettings) (id : ℕ) (p : Touch) (now : TimeStamp) (f : Finger)
    → IsPooled f
    → get_last_coords (new_finger s id p now f).coords
      ≡ record { x = p.x; y = p.y; time_stamp = now }
unfolding new_finger
new_finger_coord s id p now f h =
    History.get_last-update s p.x p.y now (reset-IsValid f.coords h.history)
    ∙ unfold new_coord reset_coord_buffer in ground arith

new_finger_reading :
    (s : GeneralSettings) (id : ℕ) (p : Touch) (now : TimeStamp) (f : Finger)
    → IsPooled f
    → finger_reading (new_finger s id p now f)
      ≡ record { finger = scale_ℤ 1000 (signed32 id) +ℤ pos 0; state = down; x = p.x; y = p.y }
new_finger_reading s id p now f h =
    rw (new_finger_coord s id p now f h) (unfold new_finger reset_state_data in refl)

-- The first frame of a press: in a valid state in which the next call reads, with a finger buffer
-- in the pool, no finger tracked, the button down, and a pointer that is not at the origin nor its
-- weight of 1 below the threshold, a raw EV_SYN makes one call hand out, if memory lasts and an
-- event has room for an item, an event with exactly one finger: it has the next id, is down, and
-- lies where the pointer is.
pub press_is_read :
    (max_items : ℕ) (w : World) (e : InputEvent) (alloc : Bool) (p : Panel) (f : Finger)
    (pool : List Finger)
    → IsValid p
    → p.read_input ≡ false
    → e.type ≡ ev_syn
    → 0 < max_items
    → p.machine.fingers ≡ []
    → p.machine.available ≡ f ∷ pool
    → (p.touch_button_state ==ℤ pos 0) ≡ false
    → is_discarded p.machine.settings (record { x = p.cached_x; y = p.cached_y; weight = pos 1 })
      ≡ false
    → (p' : Panel) × (g : TouchEvent) × (touchpanel_get_event max_items w (event e) true alloc p
        ≡ some (p', some g))
      × (readings g
          ≡ record {
            finger = scale_ℤ 1000 (signed32 p.machine.cur_finger_id) +ℤ pos 0;
            state = down;
            x = p.cached_x;
            y = p.cached_y;
          }
            ∷ [])
press_is_read max_items w e alloc p f pool v fresh t h idle room button keep =
    let touch : Touch = record { x = p.cached_x; y = p.cached_y; weight = pos 1 } in
    let now = get_time_stamp w.clock in
    let one : mouse_touches p p.touch_button_state ≡ touch ∷ [] =
      unfold mouse_touches in rw button in
    let g0 =
      new_finger p.machine.settings p.machine.cur_finger_id touch
        (record now { nsec = now.nsec + 0 }) f in
    let fingers : (track p.machine (mouse_touches p p.touch_button_state) now).fingers ≡ g0 ∷ [] =
      ap (λ ps. (track p.machine ps now).fingers) one
      ∙ ap (λ (m : Machine). m.fingers) (track_new p.machine f pool touch now idle room keep) in
    let first : All IsPooled (f ∷ pool) = rw room at v.machine.pooled in
    let (p', g, run, reads, held) =
      frame_is_read max_items w e alloc p v fresh t (omega (arith, ap length fingers))
        (omega (arith, ap length fingers)) in
    (
      p',
      g,
      run,
      reads
          ∙ ap (map finger_reading) fingers
          ∙ ap (λ r. r ∷ [])
              (new_finger_reading p.machine.settings p.machine.cur_finger_id touch
                (record now { nsec = now.nsec + 0 }) f first.0),
    )
