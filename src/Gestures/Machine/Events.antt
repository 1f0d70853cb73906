-- ===== src/Gestures/Machine/Events.antt =====
-- What one frame emits: the reports of the fingers, in order, and the event that ends it.
use nyx_modules.Base.{
  ℕ, ◌+◌, ◌*◌, ◌≤◌, ◌≡◌, refl, ◌∙◌, pos, List, [], ◌∷◌, ◌++◌, arith, ltb, if◌then◌else◌, Bool-cases,
  inl, inr, length, length-append,
}
use nyx_modules.Gestures.Types.{TimeStamp, EventBuf, ev_syn}
use nyx_modules.Gestures.Finger.{Finger, gesture_state_machine_finger}
use nyx_modules.Gestures.Finger.Report.{
  Signal, times, Emits, Emits-refl, Emits-trans, emit-Emits, times-emit, report, report_short,
  finger-Emits, times-finger,
}
use nyx_modules.Gestures.Machine.{Machine, Touch, process, track, emit_syn, gesture_state_machine}

-- The reports of the fingers, in the order of the list.
unfoldable pub reports : List Finger → List Signal
reports [] = []
reports (f ∷ fs) = report f ++ reports fs

-- The signal that ends a frame in which something was emitted.
unfoldable pub frame_end : ℕ → List Signal
frame_end n = if ltb 0 n then (ev_syn, 0, pos 0) ∷ [] else []

-- The last loop hands on the events of each finger.
process_events :
    (f : Finger) (fs : List Finger) (b : EventBuf)
    → (process (f ∷ fs) b).2 ≡ (process fs (gesture_state_machine_finger f b).2).2
unfolding process
process_events f fs b = elim (Bool-cases (gesture_state_machine_finger f b).1) [
  | inl e ↦ rw e
  | inr e ↦ rw e
]

pub process-Emits :
    (fs : List Finger) (b : EventBuf)
    → b.count + 5 * length fs ≤ length b.events
    → Emits b (process fs b).2 (reports fs)
unfolding reports
process-Emits [] b h = unfold process in Emits-refl b
process-Emits (f ∷ fs) b h =
    let e = finger-Emits f b (omega arith) in
    rw (process_events f fs b) (
      Emits-trans e (
        process-Emits fs (gesture_state_machine_finger f b).2
          (omega (arith, e.count, e.room, report_short f))))

length-reports : (fs : List Finger) → length (reports fs) ≤ 5 * length fs
unfolding reports
length-reports [] = omega arith
length-reports (f ∷ fs) =
    rw (length-append (report f) (reports fs)) (omega (arith, report_short f, length-reports fs))

length-frame_end : (n : ℕ) → length (frame_end n) ≤ 1
unfolding frame_end
length-frame_end n = ground arith

-- A frame, by `fingers` the tracked fingers once the touches have been matched: with room for five
-- events for each and one more, it appends their reports in order, then the end of the frame unless
-- nothing at all has been emitted, and every write is inside the array.
pub frame-Emits :
    (m : Machine) (ps : List Touch) (now : TimeStamp) (b : EventBuf)
    → b.count + 5 * length (track m ps now).fingers + 1 ≤ length b.events
    → Emits b (gesture_state_machine m ps now b).1 (
        reports (track m ps now).fingers
        ++ frame_end (b.count + length (reports (track m ps now).fingers)))
unfolding gesture_state_machine frame_end emit_syn
frame-Emits m ps now b h =
    let fs = (track m ps now).fingers in
    let e = process-Emits fs b (omega arith) in
    let b' = (process fs b).2 in
    let few = length-reports fs in
    elim (Bool-cases (ltb 0 b'.count)) [
      | inl some_out ↦
          rw (some_out, ← e.count, some_out)
            (Emits-trans e
              (emit-Emits b' now ev_syn 0 (pos 0) (omega (arith, e.count, e.room, few))))
      | inr silent ↦ rw (silent, ← e.count, silent) (Emits-trans e (Emits-refl b'))
    ]

-- From an empty array with room for five events for each finger and one more, a frame emits at most
-- that many.
pub count-frame :
    (m : Machine) (ps : List Touch) (now : TimeStamp) (b : EventBuf)
    → b.count ≡ 0
    → 5 * length (track m ps now).fingers + 1 ≤ length b.events
    → (gesture_state_machine m ps now b).1.count ≤ 5 * length (track m ps now).fingers + 1
count-frame m ps now b empty h =
    let fs = (track m ps now).fingers in
    omega (
      arith,
      (frame-Emits m ps now b (omega arith)).count,
      length-append (reports fs) (frame_end (b.count + length (reports fs))),
      length-frame_end (b.count + length (reports fs)),
      length-reports fs,
    )

times-process : (fs : List Finger) (b : EventBuf) → times (process fs b).2 ≡ times b
times-process [] b = unfold process in refl
times-process (f ∷ fs) b =
    rw (process_events f fs b)
      (times-process fs (gesture_state_machine_finger f b).2 ∙ times-finger f b)

-- No frame changes the time of any event in the array.
pub times-frame :
    (m : Machine) (ps : List Touch) (now : TimeStamp) (b : EventBuf)
    → times (gesture_state_machine m ps now b).1 ≡ times b
unfolding gesture_state_machine emit_syn
times-frame m ps now b =
    let fs = (track m ps now).fingers in
    elim (Bool-cases (ltb 0 (process fs b).2.count)) [
      | inl some_out ↦
          rw some_out (times-emit (process fs b).2 now ev_syn 0 (pos 0) ∙ times-process fs b)
      | inr silent ↦ rw silent (times-process fs b)
    ]
