-- ===== src/Gestures/Finger/Report.antt =====
-- The events that a call emits, without their times, and the report of one finger.
use nyx_modules.Base.{
  ℕ, suc, ◌+◌, ◌≤◌, ◌<◌, ◌≡◌, refl, ap, ◌∙◌, ℤ, pos, signed32, List, [], ◌∷◌, ◌++◌, map, arith, ltb,
  if◌then◌else◌, Bool-cases, inl, inr, take, get_or, set, length, length-set, length-append,
  take-set_next,
}
use mathlib.Core.List.{map-append, append_assoc, append-nil}
use native.Mathlib.Numerals.{add-one}
use nyx_modules.Gestures.Types.{
  TimeStamp, TimeVal, InputEvent, EventBuf, emit, set_event_params, zero_event, ev_key, ev_abs,
  ev_fingerid, abs_x, abs_y, btn_touch,
}
use nyx_modules.Gestures.CoordBuf.{get_last_coords}
use nyx_modules.Gestures.Finger.{
  GestureState, unused, start, finger_down, finger_down_after_quick_launch, Finger, switch_state,
  gesture_state_machine_finger,
}

-- What an event says: type, code, value.
abbrev pub Signal : Type 0
Signal = ℕ × ℕ × ℤ

abbrev pub signal : InputEvent → Signal
signal e = (e.type, e.code, e.value)

-- The signals of the events that have been emitted.
abbrev pub emitted : EventBuf → List Signal
emitted b = map signal (take b.count b.events)

abbrev pub times : EventBuf → List TimeVal
times b = map (λ e. e.time) b.events

-- `b` has become `b'` by emitting `out`, within the array.
pub record Emits (b b' : EventBuf) (out : List Signal) : Type 0 where
  pub signals : emitted b' ≡ emitted b ++ out
  pub count : b'.count ≡ b.count + length out
  pub room : length b'.events ≡ length b.events

pub Emits-refl : (b : EventBuf) → Emits b b []
Emits-refl b = record { signals = rw append-nil; count = omega arith; room = refl }

pub Emits-trans :
    {b c d : EventBuf} {xs ys : List Signal} → Emits b c xs → Emits c d ys → Emits b d (xs ++ ys)
Emits-trans {b} {c} {d} {xs} {ys} h k = record {
  signals = k.signals ∙ ap (λ l. l ++ ys) h.signals ∙ append_assoc (emitted b) xs ys;
  count = omega (arith, h.count, k.count, length-append xs ys);
  room = k.room ∙ h.room;
}

-- An emission into a free slot appends its signal.
pub emit-Emits :
    (b : EventBuf) (t : TimeStamp) (type code : ℕ) (value : ℤ)
    → b.count < length b.events
    → Emits b (emit b t type code value).0 ((type, code, value) ∷ [])
unfolding emit set_event_params
emit-Emits b t type code value h = record {
  signals =
      rw
        (
          add-one,
          take-set_next b.events b.count
              (record (get_or b.events b.count zero_event) {
                type = type;
                code = code;
                value = value;
              })
              h,
        )
        (rw map-append);
  count = omega arith;
  room =
      length-set b.events b.count
        (record (get_or b.events b.count zero_event) { type = type; code = code; value = value });
}

map-set_same :
    (es : List InputEvent) (i type code : ℕ) (value : ℤ)
    → map
        (λ (e : InputEvent). e.time)
        (set es i (record (get_or es i zero_event) { type = type; code = code; value = value }))
      ≡ map (λ (e : InputEvent). e.time) es
map-set_same [] i type code value = refl
map-set_same (e ∷ es) ℕ.zero type code value = refl
map-set_same (e ∷ es) (suc i) type code value =
    ap (λ l. e.time ∷ l) (map-set_same es i type code value)

-- No emission sets the time of an event.
pub times-emit :
    (b : EventBuf) (t : TimeStamp) (type code : ℕ) (value : ℤ)
    → times (emit b t type code value).0 ≡ times b
unfolding emit set_event_params
times-emit b t type code value = map-set_same b.events b.count type code value

-- The press that a finger in its first state reports.
abbrev pub press : GestureState → List Signal
press start = (ev_key, btn_touch, pos 1) ∷ []
press finger_down = []
press finger_down_after_quick_launch = []
press unused = []

-- The report of a finger: its id, a press if it is new, its position, a release if it is lost.
unfoldable pub report : Finger → List Signal
report f =
    let last = get_last_coords f.coords in
    (ev_fingerid, 0, signed32 f.id)
    ∷ (press f.state.state
        ++ ((ev_abs, abs_x, last.x)
            ∷ (ev_abs, abs_y, last.y)
            ∷ (if ltb 0 f.min_dist then (ev_key, btn_touch, pos 0) ∷ [] else [])))

-- Each state reports at most the press.
pub switch_state-Emits :
    (st : GestureState) (f : Finger) (x y : ℤ) (b : EventBuf) (t : TimeStamp)
    → b.count < length b.events
    → Emits b (switch_state st f.state x y b t).1 (press st)
unfolding switch_state
switch_state-Emits start f x y b t h = emit-Emits b t ev_key btn_touch (pos 1) h
switch_state-Emits finger_down f x y b t h = Emits-refl b
switch_state-Emits finger_down_after_quick_launch f x y b t h = Emits-refl b
switch_state-Emits unused f x y b t h = Emits-refl b

press_short : (st : GestureState) → length (press st) ≤ 1
press_short start = omega arith
press_short finger_down = omega arith
press_short finger_down_after_quick_launch = omega arith
press_short unused = omega arith

pub report_short : (f : Finger) → length (report f) ≤ 5
unfolding report
report_short f = elim (Bool-cases (ltb 0 f.min_dist)) [
  | inl up ↦ rw (up, length-append) (omega (arith, press_short f.state.state))
  | inr down ↦ rw (down, length-append) (omega (arith, press_short f.state.state))
]

-- The two events of the position.
position-Emits :
    (b : EventBuf) (t u : TimeStamp) (x y : ℤ)
    → b.count + 2 ≤ length b.events
    → Emits b
        (emit (emit b t ev_abs abs_x x).0 u ev_abs abs_y y).0
        ((ev_abs, abs_x, x) ∷ (ev_abs, abs_y, y) ∷ [])
position-Emits b t u x y h =
    let e1 = emit-Emits b t ev_abs abs_x x (omega arith) in
    Emits-trans e1
      (emit-Emits (emit b t ev_abs abs_x x).0 u ev_abs abs_y y (omega (arith, e1.count, e1.room)))

-- With five free slots, a finger emits exactly its report.
pub finger-Emits :
    (f : Finger) (b : EventBuf)
    → b.count + 5 ≤ length b.events
    → Emits b (gesture_state_machine_finger f b).2 (report f)
unfolding gesture_state_machine_finger report
finger-Emits f b h =
    let last = get_last_coords f.coords in
    let s1 = emit b last.time_stamp ev_fingerid 0 (signed32 f.id) in
    let s2 = switch_state f.state.state f.state last.x last.y s1.0 s1.1 in
    let s3 = emit s2.1 s2.2 ev_abs abs_x last.x in
    let s4 = emit s3.0 s3.1 ev_abs abs_y last.y in
    let e1 = emit-Emits b last.time_stamp ev_fingerid 0 (signed32 f.id) (omega arith) in
    let e2 =
      switch_state-Emits f.state.state f last.x last.y s1.0 s1.1
        (omega (arith, e1.count, e1.room)) in
    let short = press_short f.state.state in
    let e4 =
      position-Emits s2.1 s2.2 s3.1 last.x last.y
        (omega (arith, e1.count, e1.room, e2.count, e2.room, short)) in
    elim (Bool-cases (ltb 0 f.min_dist)) [
      | inl up ↦ rw up (
          Emits-trans e1 (
            Emits-trans e2 (
              Emits-trans e4 (
                emit-Emits s4.0 s4.1 ev_key btn_touch (pos 0) (
                  omega (arith, e1.count, e1.room, e2.count, e2.room, e4.count, e4.room, short))))))
      | inr down ↦ rw down (Emits-trans e1 (Emits-trans e2 e4))
    ]

times-switch_state :
    (st : GestureState) (f : Finger) (x y : ℤ) (b : EventBuf) (t : TimeStamp)
    → times (switch_state st f.state x y b t).1 ≡ times b
unfolding switch_state
times-switch_state start f x y b t = times-emit b t ev_key btn_touch (pos 1)
times-switch_state finger_down f x y b t = refl
times-switch_state finger_down_after_quick_launch f x y b t = refl
times-switch_state unused f x y b t = refl

-- A finger sets no event's time.
pub times-finger :
    (f : Finger) (b : EventBuf) → times (gesture_state_machine_finger f b).2 ≡ times b
unfolding gesture_state_machine_finger
times-finger f b =
    let last = get_last_coords f.coords in
    let s1 = emit b last.time_stamp ev_fingerid 0 (signed32 f.id) in
    let s2 = switch_state f.state.state f.state last.x last.y s1.0 s1.1 in
    let s3 = emit s2.1 s2.2 ev_abs abs_x last.x in
    let s4 = emit s3.0 s3.1 ev_abs abs_y last.y in
    let same : times s4.0 ≡ times b =
      times-emit s3.0 s3.1 ev_abs abs_y last.y
      ∙ times-emit s2.1 s2.2 ev_abs abs_x last.x
      ∙ times-switch_state f.state.state f last.x last.y s1.0 s1.1
      ∙ times-emit b last.time_stamp ev_fingerid 0 (signed32 f.id) in
    elim (Bool-cases (ltb 0 f.min_dist)) [
      | inl up ↦ rw up (times-emit s4.0 s4.1 ev_key btn_touch (pos 0) ∙ same)
      | inr down ↦ rw down same
    ]
