-- ===== src/Gestures/Machine.antt =====
-- `gesture_state_machine`: finger tracking over one frame of touches, and the pool of finger buffers.
pub mod Events
pub mod Invariant
pub mod Lifecycle
pub mod Sessions
pub mod Matching
pub mod Pool
pub mod Bounds
pub mod Tracking
use nyx_modules.Base.{
  ℕ, zero, suc, ◌+◌, ◌%◌, ◌^◌, ℤ, pos, half, ltb_ℤ, ◌==ℤ◌, dist_sq, Bool, true, ◌&&◌, ltb, ◌==◌,
  if◌then◌else◌, List, [], ◌∷◌, ◌++◌, Option, none, some, set, get_or,
}
use nyx_modules.Gestures.Types.{TimeStamp, GeneralSettings, EventBuf, emit, ev_syn}
use nyx_modules.Gestures.CoordBuf.{reset_coord_buffer, update_coord_buffer, get_last_coords}
use nyx_modules.Gestures.Finger.{
  Finger, unused, int_max, reset_state_data, gesture_state_machine_finger,
}

-- The static variables: `availableFingers` from head to tail, `sFingers` from the first element on,
-- `curFingerId`, and what `spGeneralSettings` points to.
pub record Machine : Type 0 where
  pub settings : GeneralSettings
  pub available : List Finger
  pub fingers : List Finger
  pub cur_finger_id : ℕ

-- One index of `pXCoords`, `pYCoords` and `pFingerWeights`.
pub record Touch : Type 0 where
  pub x : ℤ
  pub y : ℤ
  pub weight : ℤ

-- The squared distance from a finger to a touch.
unfoldable pub distance : Finger → Touch → ℕ
distance f p = let last = get_last_coords f.coords in dist_sq p.x p.y last.x last.y

-- The `while (list)` loop of a touch, at position `i` of the list with `minDist` and `minId`.
unfoldable pub closest_from : Touch → List Finger → ℕ → ℕ → Option ℕ → ℕ × Option ℕ
unfolding distance
closest_from p [] i min_dist min_id = (min_dist, min_id)
closest_from p (f ∷ fs) i min_dist min_id =
    let dist = distance f p in
    let skip = ltb f.min_dist dist in
    let matched = ltb dist min_dist in
    closest_from p fs (i + 1) (if skip then min_dist else if matched then dist else min_dist)
      (if skip then min_id else if matched then some i else min_id)

-- The assignments to the finger at `minId`.
unfoldable pub claim : List Finger → ℕ → ℕ → ℕ → List Finger
claim [] i j min_dist = []
claim (f ∷ fs) zero j min_dist = record f { min_dist_id = j; min_dist = min_dist } ∷ fs
claim (f ∷ fs) (suc i) j min_dist = f ∷ claim fs i j min_dist

-- `if (minId)`
unfoldable pub apply_match : List Finger → ℕ → ℕ × Option ℕ → List Finger
unfolding claim
apply_match fs j (min_dist, none) = fs
apply_match fs j (min_dist, some i) = claim fs i j min_dist

-- One round of the first loop: touch `j` claims the finger that it fits best, if any.
unfoldable pub match_touch : ℕ → Touch → List Finger → List Finger
unfolding closest_from apply_match
match_touch j p fs = apply_match fs j (closest_from p fs 0 int_max none)

-- "For each new finger", from index `j` on.
unfoldable pub match_touches : ℕ → List Touch → List Finger → List Finger
match_touches j [] fs = fs
match_touches j (p ∷ ps) fs = match_touches (j + 1) ps (match_touch j p fs)

abbrev pub zero_touch : Touch
zero_touch = record { x = pos 0; y = pos 0; weight = pos 0 }

-- The update of a finger whose `minDist` is not `INT_MAX`, with the touch at its `minDistId`.
unfoldable pub take_touch : GeneralSettings → TimeStamp → Finger → Touch → Finger
take_touch s now f p = record f {
  coords =
      if ltb_ℤ (half f.last_weight) p.weight
      then update_coord_buffer s f.coords p.x p.y now
      else f.coords;
  last_weight = p.weight;
  min_dist = 0;
  min_dist_id = 0;
}

-- The second loop: every finger with a touch takes it, and the touch's coordinates become 0.
unfoldable pub update_fingers :
    GeneralSettings → TimeStamp → List Finger → List Touch → List Finger × List Touch
unfolding take_touch
update_fingers s now [] ps = ([], ps)
update_fingers s now (f ∷ fs) ps =
    let p = get_or ps f.min_dist_id zero_touch in
    let released = f.min_dist == int_max in
    let (rest, ps') =
      update_fingers s now fs
        (if released then ps else set ps f.min_dist_id (record p { x = pos 0; y = pos 0 })) in
    ((if released then f else take_touch s now f p) ∷ rest, ps')

-- The finger that `add_new_finger` makes from a pooled one.
unfoldable pub new_finger : GeneralSettings → ℕ → Touch → TimeStamp → Finger → Finger
unfolding reset_state_data reset_coord_buffer
new_finger s id p now f = record f {
  state = reset_state_data f.state;
  id = id;
  timestamp = now;
  min_dist = 0;
  min_dist_id = 0;
  last_weight = p.weight;
  coords = update_coord_buffer s (reset_coord_buffer f.coords) p.x p.y now;
}

unfoldable pub add_from : List Finger → Machine → Touch → TimeStamp → Machine
unfolding new_finger
add_from [] m p now = m
add_from (f ∷ pool) m p now = record m {
  available = pool;
  cur_finger_id = (m.cur_finger_id + 1) % 2 ^ 32;
  fingers = new_finger m.settings m.cur_finger_id p now f ∷ m.fingers;
}

unfoldable pub add_new_finger : Machine → Touch → TimeStamp → Machine
unfolding add_from
add_new_finger m p now = add_from m.available m p now

-- The tests by which the third loop passes over a touch.
unfoldable pub is_discarded : GeneralSettings → Touch → Bool
is_discarded s p =
    (if p.x ==ℤ pos 0 && p.y ==ℤ pos 0 then true else ltb_ℤ p.weight s.finger_down_threshold)

-- The third loop, with `timestmpcnt`.
unfoldable pub add_fingers : Machine → List Touch → TimeStamp → ℕ → Machine
unfolding is_discarded
add_fingers m [] now cnt = m
add_fingers m (p ∷ ps) now cnt =
    let skip = is_discarded m.settings p in
    add_fingers (if skip then m else add_new_finger m p (record now { nsec = now.nsec + cnt })) ps
      now (if skip then cnt else cnt + 1000000)

-- A finger that goes back to the pool.
unfoldable pub make_unused : Finger → Finger
make_unused f = let d = f.state in record f { state = record d { state = unused } }

-- The last loop: the fingers that stay, those that are released, and the events.
unfoldable pub process : List Finger → EventBuf → List Finger × List Finger × EventBuf
unfolding make_unused
process [] b = ([], [], b)
process (f ∷ fs) b =
    let (f', released, b') = gesture_state_machine_finger f b in
    let (kept, gone, b'') = process fs b' in
    if released then (kept, make_unused f' ∷ gone, b'') else (f' ∷ kept, gone, b'')

-- Everything before the events: matching, updates, new fingers.
unfoldable pub track : Machine → List Touch → TimeStamp → Machine
track m ps now =
    let (fs, ps') = update_fingers m.settings now (match_touches 0 ps m.fingers) ps in
    add_fingers (record m { fingers = fs }) ps' now 0

-- The event that ends a call which emitted any.
unfoldable pub emit_syn : EventBuf → TimeStamp → EventBuf
emit_syn b now = if ltb 0 b.count then (emit b now ev_syn 0 (pos 0)).0 else b

-- `gesture_state_machine`. The touches are the arrays up to `numFingers`.
unfoldable pub gesture_state_machine :
    Machine → List Touch → TimeStamp → EventBuf → Machine × EventBuf
unfolding track emit_syn
gesture_state_machine m ps now b =
    let m' = track m ps now in
    let (kept, gone, b') = process m'.fingers b in
    (record m' { fingers = kept; available = m'.available ++ gone }, emit_syn b' now)
