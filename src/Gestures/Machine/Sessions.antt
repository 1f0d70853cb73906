-- ===== src/Gestures/Machine/Sessions.antt =====
-- The gesture state machine from its start to its end.
use nyx_modules.Base.{
  ◌^◌, ◌<◌, ◌≡◌, refl, ◌∙◌, List, [], ◌∷◌, arith, Option, length, length-append, All,
}
use nyx_modules.Gestures.Types.{GeneralSettings, TimeStamp, EventBuf}
use nyx_modules.Gestures.CoordBuf.{Coord}
use nyx_modules.Gestures.Finger.{Finger}
use nyx_modules.Gestures.Machine.{Touch, Machine, gesture_state_machine}
use nyx_modules.Gestures.Machine.Invariant.{Inv, frame-Inv}
use nyx_modules.Gestures.Machine.Pool.{total, total-frame}
use nyx_modules.Gestures.Machine.Lifecycle.{
  init_gesture_state_machine, deinit_gesture_state_machine, Allocated, init-Inv, deinit_lem,
}

-- What a call of `gesture_state_machine` is given.
pub record Frame : Type 0 where
  pub touches : List Touch
  pub now : TimeStamp
  pub events : EventBuf

-- The machine after calls of `gesture_state_machine` in sequence.
unfoldable pub frames : List Frame → Machine → Machine
frames [] m = m
frames (f ∷ rest) m = frames rest (gesture_state_machine m f.touches f.now f.events).0

frames-Inv : (fs : List Frame) (m : Machine) → Inv m → Inv (frames fs m)
unfolding frames
frames-Inv [] m v = v
frames-Inv (f ∷ rest) m v = frames-Inv rest _ (frame-Inv m f.touches f.now f.events v)

total-frames : (fs : List Frame) (m : Machine) → total (frames fs m) ≡ total m
unfolding frames
total-frames [] m = refl
total-frames (f ∷ rest) m = total-frames rest _ ∙ total-frame m f.touches f.now f.events

freed_lem : (m : Machine) → length (deinit_gesture_state_machine m).0 ≡ total m
freed_lem m = rw (deinit_lem m).0 (omega (arith, length-append m.available m.fingers))

-- From a start with memory, with a buffer size that is not 0, no finger tracked and an empty pool, the
-- invariant of the fingers holds after any sequence of frames, and a shutdown then frees as many finger
-- buffers as the start has allocated.
pub session_lem :
    (s : GeneralSettings) (al : List (Finger × Option (List Coord))) (m : Machine) (fs : List Frame)
    → 0 < s.coord_buf_size
    → All (Allocated s.coord_buf_size) al
    → m.fingers ≡ []
    → m.available ≡ []
    → m.cur_finger_id < 2 ^ 32
    → Inv (frames fs (init_gesture_state_machine s al m))
      × (length (deinit_gesture_state_machine (frames fs (init_gesture_state_machine s al m))).0
          ≡ length al)
session_lem s al m fs size memory untracked empty id_in =
    let (inv, count) = init-Inv s al m size memory untracked (rw empty tt) id_in in
    let m0 = init_gesture_state_machine s al m in
    let none_yet : total m ≡ 0 = rw (empty, untracked) refl in
    (
      frames-Inv fs m0 inv,
      omega (arith, freed_lem (frames fs m0), total-frames fs m0, count, none_yet),
    )
