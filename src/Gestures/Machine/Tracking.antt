-- ===== src/Gestures/Machine/Tracking.antt =====
-- How a finger is followed over a frame: one touch keeps or starts one finger, and a touch at the origin
-- is passed over.
use nyx_modules.Base.{
  ◌+◌, ◌%◌, ◌^◌, ◌<◌, ◌≡◌, refl, ◌∙◌, pos, List, [], ◌∷◌, ap, ltb_ℤ, Bool-cases, inl, inr,
  if◌then◌else◌, arith, ne→==, All, false,
}
use mathlib.Core.List.{append-nil}
use nyx_modules.Gestures.Types.{TimeStamp, GeneralSettings, EventBuf}
use nyx_modules.Gestures.CoordBuf.{CoordBuf, new_coord}
use nyx_modules.Gestures.CoordBuf.History.{IsValid, history, remember, history-update}
use nyx_modules.Gestures.Finger.{Finger, int_max, gesture_state_machine_finger}
use nyx_modules.Gestures.Finger.Outcome.{finger-Outcome}
use nyx_modules.Gestures.Machine.{
  Machine, Touch, half, distance, closest_from, claim, apply_match, match_touch, match_touches,
  take_touch, update_fingers, new_finger, add_from, add_new_finger, is_discarded, add_fingers,
  process, track, emit_syn, gesture_state_machine,
}
use nyx_modules.Gestures.Machine.Invariant.{IsTracked, Inv}

-- The finger that a single touch has claimed, before it takes the touch.
abbrev claimed : Finger → Touch → Finger
claimed f p = record f { min_dist_id = 0; min_dist = distance f p }

match_one :
    (f : Finger) (p : Touch)
    → f.min_dist ≡ int_max
    → distance f p < int_max
    → match_touches 0 (p ∷ []) (f ∷ []) ≡ claimed f p ∷ []
unfolding match_touches match_touch closest_from apply_match claim
match_one f p e near = ground arith

update_one :
    (s : GeneralSettings) (now : TimeStamp) (f : Finger) (p : Touch)
    → distance f p < int_max
    → update_fingers s now (claimed f p ∷ []) (p ∷ [])
      ≡ (take_touch s now (claimed f p) p ∷ [], record p { x = pos 0; y = pos 0 } ∷ [])
unfolding update_fingers
update_one s now f p near = rw (ne→== (distance f p) int_max (λ e. omega arith))

-- A touch whose coordinates are 0 is passed over.
skip_zero :
    (m : Machine) (p : Touch) (now : TimeStamp)
    → p.x ≡ pos 0
    → p.y ≡ pos 0
    → add_fingers m (p ∷ []) now 0 ≡ m
unfolding add_fingers is_discarded
skip_zero m p now ex ey = rw (ex, ey)

track_one :
    (m : Machine) (f : Finger) (p : Touch) (now : TimeStamp)
    → Inv m
    → m.fingers ≡ f ∷ []
    → distance f p < int_max
    → track m (p ∷ []) now ≡ record m { fingers = take_touch m.settings now (claimed f p) p ∷ [] }
unfolding track
track_one m f p now v one near =
    let tracked : All IsTracked (f ∷ []) = rw one at v.tracked in
    rw (one, match_one f p tracked.0.unmatched near)
      (rw (update_one m.settings now f p near) (
        skip_zero (record m { fingers = take_touch m.settings now (claimed f p) p ∷ [] })
          (record p { x = pos 0; y = pos 0 }) now refl refl))

process_one :
    (f : Finger) (b : EventBuf)
    → f.min_dist ≡ 0
    → ((process (f ∷ []) b).0 ≡ (gesture_state_machine_finger f b).0 ∷ [])
      × ((process (f ∷ []) b).1 ≡ [])
unfolding process
process_one f b e =
    let stays : (gesture_state_machine_finger f b).1 ≡ false =
      (finger-Outcome f b).released ∙ rw e in
    rw stays (refl, refl)

take_touch-history :
    (s : GeneralSettings) (now : TimeStamp) (f : Finger) (p : Touch)
    → IsValid f.coords
    → history (take_touch s now (claimed f p) p).coords ≡ (
        if ltb_ℤ (half f.last_weight) p.weight
        then remember f.coords.size (history f.coords) (new_coord s f.coords p.x p.y now)
        else history f.coords)
unfolding take_touch
take_touch-history s now f p v = elim (Bool-cases (ltb_ℤ (half f.last_weight) p.weight)) [
  | inl e ↦ rw e (history-update s p.x p.y now v)
  | inr e ↦ rw e refl
]

tracked_history : (f : Finger) → All IsTracked (f ∷ []) → IsValid f.coords
tracked_history f tracked = tracked.0.is_down.history

-- One finger and one touch.
module _ (m : Machine) (f : Finger) (p : Touch) (now : TimeStamp) (b : EventBuf) where
  -- In a machine with the invariant and one tracked finger, a single touch nearer to it than
  -- INT_MAX is taken by that finger: its history of coordinates gets the touch, filtered with the
  -- one before, at its end, if the touch has more than half the weight of the last one, and else
  -- stays as it was. The finger keeps its id, no finger is added or released, and no id is used up.
  pub frame_follows :
      Inv m
      → m.fingers ≡ f ∷ []
      → distance f p < int_max
      → (g : Finger) × ((gesture_state_machine m (p ∷ []) now b).0.fingers ≡ g ∷ [])
        × (history g.coords ≡ (
            if ltb_ℤ (half f.last_weight) p.weight
            then remember f.coords.size
                (history f.coords)
                (new_coord m.settings f.coords p.x p.y now)
            else history f.coords))
        × (g.id ≡ f.id)
        × ((gesture_state_machine m (p ∷ []) now b).0.available ≡ m.available)
        × ((gesture_state_machine m (p ∷ []) now b).0.cur_finger_id ≡ m.cur_finger_id)
  unfolding gesture_state_machine
  frame_follows v one near =
      let f' = take_touch m.settings now (claimed f p) p in
      let (kept, gone) = process_one f' b (unfold take_touch in refl) in
      (
        (gesture_state_machine_finger f' b).0,
        rw (track_one m f p now v one near) kept,
        ap (λ (c : CoordBuf). history c) (finger-Outcome f' b).coords
            ∙ take_touch-history m.settings now f p (tracked_history f (rw one at v.tracked)),
        (finger-Outcome f' b).id ∙ (unfold take_touch in refl),
        rw (track_one m f p now v one near) (rw gone (append-nil _)),
        rw (track_one m f p now v one near),
      )

match_none : (p : Touch) → match_touches 0 (p ∷ []) [] ≡ []
unfolding match_touches match_touch closest_from apply_match
match_none p = refl

pub track_new :
    (m : Machine) (f : Finger) (pool : List Finger) (p : Touch) (now : TimeStamp)
    → m.fingers ≡ []
    → m.available ≡ f ∷ pool
    → is_discarded m.settings p ≡ false
    → track m (p ∷ []) now ≡ record m {
      fingers = new_finger m.settings m.cur_finger_id p (record now { nsec = now.nsec + 0 }) f ∷ [];
      available = pool;
      cur_finger_id = (m.cur_finger_id + 1) % 2 ^ 32;
    }
unfolding track update_fingers add_fingers add_new_finger add_from
track_new m f pool p now idle room keep = rw (idle, match_none p) (rw keep (rw room))

-- With no finger tracked and a buffer in the pool, a single touch that is not at the origin and not
-- below the weight threshold starts one finger: it takes the first pooled buffer and the next id.
pub frame_starts :
    (m : Machine) (f : Finger) (pool : List Finger) (p : Touch) (now : TimeStamp) (b : EventBuf)
    → m.fingers ≡ []
    → m.available ≡ f ∷ pool
    → is_discarded m.settings p ≡ false
    → (g : Finger) × ((gesture_state_machine m (p ∷ []) now b).0.fingers ≡ g ∷ [])
      × (g.id ≡ m.cur_finger_id)
      × ((gesture_state_machine m (p ∷ []) now b).0.available ≡ pool)
      × ((gesture_state_machine m (p ∷ []) now b).0.cur_finger_id ≡ (m.cur_finger_id + 1) % 2 ^ 32)
unfolding gesture_state_machine
frame_starts m f pool p now b idle room keep =
    let g = new_finger m.settings m.cur_finger_id p (record now { nsec = now.nsec + 0 }) f in
    let (kept, gone) = process_one g b (unfold new_finger in refl) in
    (
      (gesture_state_machine_finger g b).0,
      rw (track_new m f pool p now idle room keep) kept,
      (finger-Outcome g b).id ∙ (unfold new_finger in refl),
      rw (track_new m f pool p now idle room keep) (rw gone (append-nil _)),
      rw (track_new m f pool p now idle room keep),
    )

-- A single touch at the origin, with no finger tracked, is lost whatever its weight: no finger is
-- started, no event is emitted, and no state changes.
pub frame_origin :
    (m : Machine) (p : Touch) (now : TimeStamp) (b : EventBuf)
    → m.fingers ≡ []
    → p.x ≡ pos 0
    → p.y ≡ pos 0
    → b.count ≡ 0
    → gesture_state_machine m (p ∷ []) now b ≡ (m, b)
unfolding gesture_state_machine emit_syn process track update_fingers
frame_origin m p now b idle ex ey empty =
    rw (idle, match_none p)
      (rw (skip_zero (record m { fingers = [] }) p now ex ey)
        (ground (arith, append-nil m.available)))
