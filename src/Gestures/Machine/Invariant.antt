-- ===== src/Gestures/Machine/Invariant.antt =====
-- What holds of the tracked and of the pooled fingers between two frames.
use nyx_modules.Base.{
  ℕ, zero, suc, ◌+◌, ◌^◌, ◌<◌, ◌≡◌, refl, ◌∙◌, ◌⊎◌, inl, inr, ℤ, half, ltb_ℤ, List, [], ◌∷◌, arith,
  ◌==◌, Bool-cases, false, Option, none, some, All, All-append, All-imp, get_or,
}
use nyx_modules.Gestures.Types.{TimeStamp, GeneralSettings, EventBuf}
use nyx_modules.Gestures.CoordBuf.{CoordBuf, update_coord_buffer, reset_coord_buffer}
use nyx_modules.Gestures.CoordBuf.History
use nyx_modules.Gestures.Finger.{
  Finger, reset_state_data, unused, start, finger_down, int_max, gesture_state_machine_finger,
}
use nyx_modules.Gestures.Finger.Outcome.{after, finger-Outcome}
use nyx_modules.Gestures.Machine.{
  Machine, Touch, zero_touch, claim, apply_match, match_touch, match_touches, take_touch,
  update_fingers, new_finger, add_from, add_new_finger, is_discarded, add_fingers, make_unused,
  process, track, gesture_state_machine,
}

-- A finger that has been reported as down: its history is valid and not empty.
pub record IsDown (f : Finger) : Type 0 where
  pub history : History.IsValid f.coords
  pub seen : 0 < f.coords.num_items
  pub down : f.state.state ≡ finger_down

-- Between two frames a tracked finger has no touch assigned.
pub record IsTracked (f : Finger) : Type 0 where
  pub is_down : IsDown f
  pub unmatched : f.min_dist ≡ int_max

-- In a frame a finger is down, or new and not to be released.
pub record IsLive (f : Finger) : Type 0 where
  pub history : History.IsValid f.coords
  pub seen : 0 < f.coords.num_items
  pub shape : (f.state.state ≡ finger_down) ⊎ ((f.state.state ≡ start) × (f.min_dist ≡ 0))

-- A finger of the pool.
pub record IsPooled (f : Finger) : Type 0 where
  pub history : History.IsValid f.coords
  pub idle : f.state.state ≡ unused

pub record Inv (m : Machine) : Type 0 where
  pub tracked : All IsTracked m.fingers
  pub pooled : All IsPooled m.available
  pub id_in : m.cur_finger_id < 2 ^ 32

claim-IsDown : (fs : List Finger) (i j d : ℕ) → All IsDown fs → All IsDown (claim fs i j d)
unfolding claim
claim-IsDown [] i j d h = h
claim-IsDown (f ∷ fs) zero j d h =
    (record { history = h.0.history; seen = h.0.seen; down = h.0.down }, h.1)
claim-IsDown (f ∷ fs) (suc i) j d h = (h.0, claim-IsDown fs i j d h.1)

apply_match-IsDown :
    (fs : List Finger) (j : ℕ) (r : ℕ × Option ℕ) → All IsDown fs → All IsDown (apply_match fs j r)
unfolding apply_match
apply_match-IsDown fs j (d, none) h = h
apply_match-IsDown fs j (d, some i) h = claim-IsDown fs i j d h

match_touches-IsDown :
    (j : ℕ) (ps : List Touch) (fs : List Finger)
    → All IsDown fs
    → All IsDown (match_touches j ps fs)
unfolding match_touches match_touch
match_touches-IsDown j [] fs h = h
match_touches-IsDown j (p ∷ ps) fs h =
    match_touches-IsDown (j + 1) ps (match_touch j p fs) (apply_match-IsDown fs j _ h)

num_items-update :
    (s : GeneralSettings) (b : CoordBuf) (x y : ℤ) (t : TimeStamp)
    → 0 < b.size
    → 0 < (update_coord_buffer s b x y t).num_items
unfolding update_coord_buffer
num_items-update s b x y t h = ground arith

take_touch-IsDown :
    (s : GeneralSettings) (now : TimeStamp) (f : Finger) (p : Touch)
    → IsDown f
    → IsDown (take_touch s now f p)
unfolding take_touch
take_touch-IsDown s now f p h = elim (Bool-cases (ltb_ℤ (half f.last_weight) p.weight)) [
  | inl heavy ↦ record {
    history = rw heavy (History.update-IsValid s p.x p.y now h.history).1;
    seen = rw heavy (num_items-update s f.coords p.x p.y now h.history.nonempty);
    down = h.down;
  }
  | inr light ↦ record { history = rw light h.history; seen = rw light h.seen; down = h.down }
]

update_fingers-IsDown :
    (s : GeneralSettings) (now : TimeStamp) (fs : List Finger) (ps : List Touch)
    → All IsDown fs
    → All IsDown (update_fingers s now fs ps).0
unfolding update_fingers
update_fingers-IsDown s now [] ps h = h
update_fingers-IsDown s now (f ∷ fs) ps h = elim (Bool-cases (f.min_dist == int_max)) [
  | inl lost ↦ rw lost (h.0, update_fingers-IsDown s now fs ps h.1)
  | inr found ↦ rw found (
    take_touch-IsDown s now f (get_or ps f.min_dist_id zero_touch) h.0,
    update_fingers-IsDown s now fs _ h.1,
  )
]

IsDown-IsLive : (f : Finger) → IsDown f → IsLive f
IsDown-IsLive f h = record { history = h.history; seen = h.seen; shape = inl h.down }

-- The invariant in the middle of a frame.
pub record Live (m : Machine) : Type 0 where
  pub live : All IsLive m.fingers
  pub pooled : All IsPooled m.available
  pub id_in : m.cur_finger_id < 2 ^ 32

pub reset-IsValid : (b : CoordBuf) → History.IsValid b → History.IsValid (reset_coord_buffer b)
unfolding reset_coord_buffer
reset-IsValid b v = ground arith

new_finger-IsLive :
    (s : GeneralSettings) (id : ℕ) (p : Touch) (now : TimeStamp) (f : Finger)
    → IsPooled f
    → IsLive (new_finger s id p now f)
unfolding new_finger reset_state_data
new_finger-IsLive s id p now f h =
    let v = reset-IsValid f.coords h.history in
    record {
      history = (History.update-IsValid s p.x p.y now v).1;
      seen = num_items-update s (reset_coord_buffer f.coords) p.x p.y now v.nonempty;
      shape = inr (refl, refl);
    }

add_from-Live :
    (pool : List Finger) (m : Machine) (p : Touch) (now : TimeStamp)
    → All IsPooled pool
    → Live m
    → Live (add_from pool m p now)
unfolding add_from
add_from-Live [] m p now h v = v
add_from-Live (f ∷ pool) m p now h v = record {
  live = (new_finger-IsLive m.settings m.cur_finger_id p now f h.0, v.live);
  pooled = h.1;
  id_in = omega arith;
}

add_fingers-Live :
    (m : Machine) (ps : List Touch) (now : TimeStamp) (cnt : ℕ)
    → Live m
    → Live (add_fingers m ps now cnt)
unfolding add_fingers add_new_finger
add_fingers-Live m [] now cnt v = v
add_fingers-Live m (p ∷ ps) now cnt v = elim (Bool-cases (is_discarded m.settings p)) [
  | inl skip ↦ rw skip (add_fingers-Live m ps now cnt v)
  | inr keep ↦ rw keep (
      add_fingers-Live (add_new_finger m p (record now { nsec = now.nsec + cnt })) ps now
        (cnt + 1000000)
        (add_from-Live m.available m p (record now { nsec = now.nsec + cnt }) v.pooled v))
]

IsTracked-IsDown : (f : Finger) → IsTracked f → IsDown f
IsTracked-IsDown f h = h.is_down

pub track-Live : (m : Machine) (ps : List Touch) (now : TimeStamp) → Inv m → Live (track m ps now)
unfolding track
track-Live m ps now v =
    let downs = All-imp IsTracked IsDown m.fingers IsTracked-IsDown v.tracked in
    let matched = match_touches 0 ps m.fingers in
    let u = update_fingers m.settings now matched ps in
    add_fingers-Live (record m { fingers = u.0 }) u.1 now 0
      (record {
        live = All-imp IsDown IsLive u.0 IsDown-IsLive (
            update_fingers-IsDown m.settings now matched ps
              (match_touches-IsDown 0 ps m.fingers downs));
        pooled = v.pooled;
        id_in = v.id_in;
      })

after_live : (f : Finger) → IsLive f → after f.state.state ≡ finger_down
after_live f h = elim h.shape [ inl d ↦ rw d | inr s ↦ rw s.0 ]

-- A live finger that stays is tracked, and one that goes can be pooled.
step_kept :
    (f : Finger) (b : EventBuf)
    → IsLive f
    → (gesture_state_machine_finger f b).1 ≡ false
    → IsTracked (gesture_state_machine_finger f b).0
step_kept f b h e =
    let o = finger-Outcome f b in
    record {
      is_down = record {
        history = rw o.coords h.history;
        seen = rw o.coords h.seen;
        down = o.state ∙ after_live f h;
      };
      unmatched = o.min_dist ∙ rw (← o.released, e);
    }

step_gone :
    (f : Finger) (b : EventBuf)
    → IsLive f
    → IsPooled (make_unused (gesture_state_machine_finger f b).0)
unfolding make_unused
step_gone f b h = record { history = rw (finger-Outcome f b).coords h.history; idle = refl }

-- After the last loop the fingers that stay are tracked and the others can be pooled.
process-IsTracked :
    (fs : List Finger) (b : EventBuf)
    → All IsLive fs
    → All IsTracked (process fs b).0 × All IsPooled (process fs b).1
unfolding process
process-IsTracked [] b h = (tt, tt)
process-IsTracked (f ∷ fs) b h =
    let r = gesture_state_machine_finger f b in
    let ih = process-IsTracked fs r.2 h.1 in
    elim (Bool-cases r.1) [
      | inl gone ↦ rw gone (ih.0, (step_gone f b h.0, ih.1))
      | inr kept ↦ rw kept ((step_kept f b h.0 kept, ih.0), ih.1)
    ]

-- Whatever touches a frame brings, it keeps the invariant: every tracked finger is down, with a
-- valid history that is not empty and no touch assigned; every pooled one is unused, with a valid
-- buffer; the next id is a `uint32_t`.
pub frame-Inv :
    (m : Machine) (ps : List Touch) (now : TimeStamp) (b : EventBuf)
    → Inv m
    → Inv (gesture_state_machine m ps now b).0
unfolding gesture_state_machine
frame-Inv m ps now b v =
    let l = track-Live m ps now v in
    let p = process-IsTracked (track m ps now).fingers b l.live in
    record {
      tracked = p.0;
      pooled = All-append IsPooled (track m ps now).available _ l.pooled p.1;
      id_in = l.id_in;
    }
