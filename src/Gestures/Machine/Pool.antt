-- ===== src/Gestures/Machine/Pool.antt =====
-- The pool of finger buffers: none is lost, and a frame with no touch gives all of them back.
use nyx_modules.Base.{
  ℕ, zero, suc, ◌+◌, ◌≡◌, refl, ap, ◌∙◌, List, [], ◌∷◌, arith, eq→==, Bool-cases, inl, inr, Option,
  none, some, length, length-append, All,
}
use nyx_modules.Gestures.Types.{TimeStamp, GeneralSettings, EventBuf}
use nyx_modules.Gestures.Finger.{Finger, int_max, gesture_state_machine_finger}
use nyx_modules.Gestures.Finger.Outcome.{finger-Outcome}
use nyx_modules.Gestures.Machine.{
  Machine, Touch, closest_from, claim, apply_match, match_touch, match_touches, update_fingers,
  add_from, add_new_finger, is_discarded, add_fingers, process, track, gesture_state_machine,
}
use nyx_modules.Gestures.Machine.Invariant.{IsTracked, Inv}

-- The number of finger buffers, pooled and tracked.
abbrev pub total : Machine → ℕ
total m = length m.available + length m.fingers

length-claim : (fs : List Finger) (i j d : ℕ) → length (claim fs i j d) ≡ length fs
unfolding claim
length-claim [] i j d = refl
length-claim (f ∷ fs) zero j d = refl
length-claim (f ∷ fs) (suc i) j d = ap suc (length-claim fs i j d)

length-apply_match :
    (fs : List Finger) (j : ℕ) (r : ℕ × Option ℕ) → length (apply_match fs j r) ≡ length fs
unfolding apply_match
length-apply_match fs j (d, none) = refl
length-apply_match fs j (d, some i) = length-claim fs i j d

pub length-match_touches :
    (j : ℕ) (ps : List Touch) (fs : List Finger) → length (match_touches j ps fs) ≡ length fs
unfolding match_touches match_touch
length-match_touches j [] fs = refl
length-match_touches j (p ∷ ps) fs =
    length-match_touches (j + 1) ps (match_touch j p fs)
    ∙ length-apply_match fs j (closest_from p fs 0 int_max none)

pub length-update_fingers :
    (s : GeneralSettings) (now : TimeStamp) (fs : List Finger) (ps : List Touch)
    → length (update_fingers s now fs ps).0 ≡ length fs
unfolding update_fingers
length-update_fingers s now [] ps = refl
length-update_fingers s now (f ∷ fs) ps = ap suc (length-update_fingers s now fs _)

total-add_from :
    (pool : List Finger) (m : Machine) (p : Touch) (now : TimeStamp)
    → m.available ≡ pool
    → total (add_from pool m p now) ≡ total m
unfolding add_from
total-add_from [] m p now e = refl
total-add_from (f ∷ pool) m p now e = rw e (omega arith)

total-add_fingers :
    (m : Machine) (ps : List Touch) (now : TimeStamp) (cnt : ℕ)
    → total (add_fingers m ps now cnt) ≡ total m
unfolding add_fingers add_new_finger
total-add_fingers m [] now cnt = refl
total-add_fingers m (p ∷ ps) now cnt = elim (Bool-cases (is_discarded m.settings p)) [
  | inl skip ↦ rw (skip, add_fingers) (total-add_fingers m ps now cnt)
  | inr keep ↦
      rw (keep, add_fingers)
        (total-add_fingers (add_new_finger m p (record now { nsec = now.nsec + cnt })) ps now
            (cnt + 1000000)
          ∙ total-add_from m.available m p (record now { nsec = now.nsec + cnt }) refl)
]

length-process :
    (fs : List Finger) (b : EventBuf)
    → length (process fs b).0 + length (process fs b).1 ≡ length fs
unfolding process
length-process [] b = omega arith
length-process (f ∷ fs) b =
    let r = gesture_state_machine_finger f b in
    let ih = length-process fs r.2 in
    elim (Bool-cases r.1) [
      | inl gone ↦ rw gone (omega (arith, ih))
      | inr kept ↦ rw kept (omega (arith, ih))
    ]

pub total-track :
    (m : Machine) (ps : List Touch) (now : TimeStamp) → total (track m ps now) ≡ total m
unfolding track
total-track m ps now =
    let matched = match_touches 0 ps m.fingers in
    let u = update_fingers m.settings now matched ps in
    omega (
      arith,
      total-add_fingers (record m { fingers = u.0 }) u.1 now 0,
      length-update_fingers m.settings now matched ps,
      length-match_touches 0 ps m.fingers,
    )

-- A frame loses and makes no finger buffer: pooled and tracked ones together stay as many.
pub total-frame :
    (m : Machine) (ps : List Touch) (now : TimeStamp) (b : EventBuf)
    → total (gesture_state_machine m ps now b).0 ≡ total m
unfolding gesture_state_machine
total-frame m ps now b =
    let t = track m ps now in
    omega (
      arith,
      length-append t.available (process t.fingers b).1,
      length-process t.fingers b,
      total-track m ps now,
    )

update_fingers-unmatched :
    (s : GeneralSettings) (now : TimeStamp) (fs : List Finger) (ps : List Touch)
    → All IsTracked fs
    → update_fingers s now fs ps ≡ (fs, ps)
unfolding update_fingers
update_fingers-unmatched s now [] ps h = refl
update_fingers-unmatched s now (f ∷ fs) ps h =
    rw (eq→== f.min_dist int_max h.0.unmatched) (rw (update_fingers-unmatched s now fs ps h.1))

process-released : (fs : List Finger) (b : EventBuf) → All IsTracked fs → (process fs b).0 ≡ []
unfolding process
process-released [] b h = refl
process-released (f ∷ fs) b h =
    rw ((finger-Outcome f b).released, h.0.unmatched) (process-released fs _ h.1)

track_idle : (m : Machine) (now : TimeStamp) → Inv m → track m [] now ≡ m
unfolding track match_touches add_fingers
track_idle m now v = rw (update_fingers-unmatched m.settings now m.fingers [] v.tracked)

-- From a machine with the invariant, a frame with no touch releases every tracked finger to the
-- pool.
pub frame_without_touch :
    (m : Machine) (now : TimeStamp) (b : EventBuf)
    → Inv m
    → let m' = (gesture_state_machine m [] now b).0 in
      (m'.fingers ≡ []) × (length m'.available ≡ total m)
unfolding gesture_state_machine
frame_without_touch m now b v = rw (track_idle m now v) (
  process-released m.fingers b v.tracked,
  omega (
    arith,
    length-append m.available (process m.fingers b).1,
    length-process m.fingers b,
    ap length (process-released m.fingers b v.tracked),
  ),
)
