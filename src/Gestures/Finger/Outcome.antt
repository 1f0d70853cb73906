-- ===== src/Gestures/Finger/Outcome.antt =====
-- What a call does to the finger itself.
use nyx_modules.Base.{◌≡◌, refl, sym, ℤ, Bool, ltb, if◌then◌else◌, Bool-cases, inl, inr}
use nyx_modules.Gestures.Types.{EventBuf, TimeStamp}
use nyx_modules.Gestures.Finger.{
  Finger, GestureState, GestureStateData, start, unused, finger_down,
  finger_down_after_quick_launch, int_max, switch_state, gesture_state_machine_finger,
}

-- A finger in its first state is down from then on.
abbrev pub after : GestureState → GestureState
after start = finger_down
after finger_down = finger_down
after finger_down_after_quick_launch = finger_down_after_quick_launch
after unused = unused

state-switch_state :
    (st : GestureState) (d : GestureStateData) (x y : ℤ) (b : EventBuf) (t : TimeStamp)
    → d.state ≡ st
    → (switch_state st d x y b t).0.state ≡ after st
unfolding switch_state
state-switch_state start d x y b t e = refl
state-switch_state finger_down d x y b t e = e
state-switch_state finger_down_after_quick_launch d x y b t e = e
state-switch_state unused d x y b t e = e

-- The result of the call for finger `f` is `r`.
pub record Outcome (f : Finger) (r : Finger × Bool × EventBuf) : Type 0 where
  pub released : r.1 ≡ ltb 0 f.min_dist
  pub coords : r.0.coords ≡ f.coords
  pub id : r.0.id ≡ f.id
  pub state : r.0.state.state ≡ after f.state.state
  pub min_dist : r.0.min_dist ≡ (if ltb 0 f.min_dist then f.min_dist else int_max)

pub finger-Outcome : (f : Finger) (b : EventBuf) → Outcome f (gesture_state_machine_finger f b)
unfolding gesture_state_machine_finger
finger-Outcome f b = elim (Bool-cases (ltb 0 f.min_dist)) [
  | inl up ↦ rw up (record {
    released = sym up;
    coords = refl;
    id = refl;
    state = state-switch_state f.state.state f.state _ _ _ _ refl;
    min_dist = rw up;
  })
  | inr down ↦ rw down (record {
    released = sym down;
    coords = refl;
    id = refl;
    state = state-switch_state f.state.state f.state _ _ _ _ refl;
    min_dist = rw down;
  })
]
