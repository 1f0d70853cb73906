-- ===== src/Touchpanel/Syn.antt =====
-- The panel after a raw EV_SYN, at the start of a call.
use nyx_modules.Base.{
  ℕ, ◌+◌, ◌*◌, ◌<◌, ◌≡◌, refl, ap, ◌∙◌, ℤ, pos, Bool, true, false, ne→==, if◌then◌else◌, List, [],
  ◌∷◌, ◌++◌, map, arith, none, some, length, length-append, take,
}
use nyx_modules.Gestures.Types.{TimeVal, InputEvent, EventBuf, ev_syn}
use nyx_modules.Gestures.Finger.{Finger}
use nyx_modules.Gestures.Finger.Report.{signal, emitted, report}
use nyx_modules.Gestures.Machine.{gesture_state_machine, track}
use nyx_modules.Gestures.Machine.Pool.{total-track}
use nyx_modules.Gestures.Machine.Events.{reports, frame_end, frame-Emits}
use nyx_modules.Touchpanel.Items.{TouchEvent, consume, generated, touch_event_create}
use nyx_modules.Touchpanel.Source.{
  Panel, World, event_size, event, get_time_stamp, mouse_touches, generate_mouse_gesture,
  pointer_event, is_forwarded, handle_new_event, read_input_event,
}
use nyx_modules.Touchpanel.Device.{
  begin_event, rewind, event_count, event_iter, pending, hold_event, after_loop, run_loop,
}
use nyx_modules.Touchpanel.Validity.{IsValid}

-- An EV_SYN event makes a frame, and is not forwarded.
pub on_syn_event :
    (w : World) (e : InputEvent) (p : Panel)
    → e.type ≡ ev_syn
    → handle_new_event w e p ≡ generate_mouse_gesture w.clock p p.touch_button_state
unfolding handle_new_event pointer_event is_forwarded
on_syn_event w e p t = simp t

pub reports_pos : (fs : List Finger) → 0 < length fs → 0 < length (reports fs)
unfolding reports report
reports_pos [] h = h
reports_pos (f ∷ fs) h = omega arith

pub frame_end_pos : (n : ℕ) → 0 < n → frame_end n ≡ (ev_syn, 0, pos 0) ∷ []
unfolding frame_end
frame_end_pos n h = ground arith

-- What a frame leaves for the loop, from an array with nothing read.
pub pending_frame :
    (p : Panel) (tv : TimeVal) (button : ℤ)
    → IsValid p
    → 0 < length (track p.machine (mouse_touches p button) (get_time_stamp tv)).fingers
    → let q = generate_mouse_gesture tv p button in
      let fs = (track p.machine (mouse_touches p button) (get_time_stamp tv)).fingers in
      (event_iter q ≡ 0)
      × (event_count q ≡ length (reports fs) + 1)
      × (map signal (pending q) ≡ reports fs ++ ((ev_syn, 0, pos 0) ∷ []))
unfolding generate_mouse_gesture event_iter event_count pending
pending_frame p tv button v some_finger =
    let ps = mouse_touches p button in
    let now = get_time_stamp tv in
    let fs = (track p.machine ps now).fingers in
    let b : EventBuf = record { events = p.events.input; count = 0 } in
    let e =
      frame-Emits p.machine ps now b
        (omega (arith, v.room, v.array, total-track p.machine ps now)) in
    let end = frame_end_pos (0 + length (reports fs)) (omega (arith, reports_pos fs some_finger)) in
    let out : emitted (gesture_state_machine p.machine ps now b).1
        ≡ reports fs ++ ((ev_syn, 0, pos 0) ∷ []) =
      e.signals ∙ ap (λ l. reports fs ++ l) end in
    let n = (gesture_state_machine p.machine ps now b).1.count in
    let count : n ≡ length (reports fs) + 1 = omega (
      arith,
      e.count,
      ap length end,
      length-append (reports fs) (frame_end (0 + length (reports fs))),
    ) in
    (
      refl,
      omega (arith, count),
      ap (λ k. map signal (take k (gesture_state_machine p.machine ps now b).1.events))
            (omega arith)
          ∙ out,
    )

-- The panel once the event has been read: nothing held, and the event list to be gone through.
abbrev pub after_syn : World → Panel → Panel
after_syn w p = record (generate_mouse_gesture w.clock p p.touch_button_state) {
  current_event = none;
  read_input = true;
}

pub begin_syn :
    (w : World) (e : InputEvent) (p : Panel)
    → p.read_input ≡ false
    → e.type ≡ ev_syn
    → begin_event w (event e) p ≡ after_syn w p
unfolding begin_event read_input_event
begin_syn w e p fresh t =
    ap
      (λ (b : Bool).
        if b
        then p
        else record (handle_new_event w e p) { current_event = none; read_input = true })
      fresh
    ∙ ap (λ (x : Panel). record x { current_event = none; read_input = true })
        (on_syn_event w e p t)

pub rewind_pending : (p : Panel) (n : ℕ) → event_iter p ≡ 0 → event_count p ≡ n + 1 → rewind p ≡ p
unfolding rewind
rewind_pending p n i c = rw (ne→== (event_iter p) (event_count p) (λ e. omega (arith, i, c, e)))

-- The loop over a whole frame, from a new event.
pub run_syn :
    (max_items : ℕ) (alloc : Bool) (q : Panel) (n : ℕ) (g : TouchEvent)
    → q.current_event ≡ none
    → consume max_items alloc [] 0 (pending q) ≡ (n, generated g none)
    → let l = q.events in
      run_loop max_items alloc q (hold_event true q.current_event)
      ≡ some (
        record q {
          events = record l { input_read = l.input_read + n * event_size };
          current_event = none;
        },
        some g,
      )
unfolding run_loop hold_event touch_event_create after_loop
run_syn max_items alloc q n g held c =
    ap (λ o. run_loop max_items alloc q (hold_event true o)) held ∙ ap (after_loop q) c
