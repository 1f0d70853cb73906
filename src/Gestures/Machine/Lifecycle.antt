-- ===== src/Gestures/Machine/Lifecycle.antt =====
-- `init_gesture_state_machine` and `deinit_gesture_state_machine`.
use nyx_modules.Base.{
  ℕ, ◌+◌, ◌^◌, ◌<◌, ◌≡◌, refl, List, [], ◌∷◌, ◌++◌, arith, Option, none, some, length,
  length-append, All, All-append,
}
use mathlib.Core.List.{append_assoc, append-nil}
use nyx_modules.Gestures.Types.{GeneralSettings}
use nyx_modules.Gestures.CoordBuf.{Coord, create_coord_buffer}
use nyx_modules.Gestures.Finger.{Finger, unused}
use nyx_modules.Gestures.Machine.{Machine}
use nyx_modules.Gestures.Machine.Invariant.{IsPooled, Inv}
use nyx_modules.Gestures.Machine.Pool.{total}

-- One round of the loop: `raw` is the finger as `malloc` returns it, and `memory` what the call of
-- `malloc` in `create_coord_buffer` returns. The result of `create_coord_buffer` is not looked at.
unfoldable pub init_finger : GeneralSettings → Finger → Option (List Coord) → Finger
init_finger s raw memory =
    let d = raw.state in
    record raw {
      coords = (create_coord_buffer raw.coords s.coord_buf_size memory).0;
      state = record d { state = unused };
    }

-- The loop, over what `malloc` returns in each of its `maxFingers * 2` rounds.
unfoldable pub init_fingers :
    GeneralSettings → List Finger → List (Finger × Option (List Coord)) → List Finger
unfolding init_finger
init_fingers s available [] = available
init_fingers s available ((raw, memory) ∷ rest) =
    init_fingers s (available ++ (init_finger s raw memory ∷ [])) rest

unfoldable pub init_gesture_state_machine :
    GeneralSettings → List (Finger × Option (List Coord)) → Machine → Machine
unfolding init_fingers
init_gesture_state_machine s allocations m = record m {
  settings = s;
  available = init_fingers s m.available allocations;
}

-- The first loop of `deinit_gesture_state_machine`: what it frees until the queue is empty.
unfoldable pub drain_queue : List Finger → List Finger → List Finger × List Finger
drain_queue freed [] = (freed, [])
drain_queue freed (f ∷ fs) = drain_queue (freed ++ (f ∷ [])) fs

-- The second loop walks the list by the local `l`; no element of `sFingers` has a NULL finger.
unfoldable pub free_list : List Finger → List Finger → List Finger
free_list freed [] = freed
free_list freed (f ∷ fs) = free_list (freed ++ (f ∷ [])) fs

-- `deinit_gesture_state_machine`: the fingers that are freed, and the static variables. The queue is
-- left empty; `sFingers` still points to the list that has been freed.
unfoldable pub deinit_gesture_state_machine : Machine → List Finger × Machine
unfolding drain_queue free_list
deinit_gesture_state_machine m =
    let (freed, empty) = drain_queue [] m.available in
    (free_list freed m.fingers, record m { available = empty })

-- What `malloc` returns in a round that does not fail: memory for `n` coordinates.
abbrev pub Allocated : ℕ → Finger × Option (List Coord) → Type 0
Allocated n (raw, none) = ⊥
Allocated n (raw, some memory) = length memory ≡ n

init_fingers-IsPooled :
    (s : GeneralSettings) (available : List Finger) (al : List (Finger × Option (List Coord)))
    → 0 < s.coord_buf_size
    → All (Allocated s.coord_buf_size) al
    → All IsPooled available
    → All IsPooled (init_fingers s available al)
      × (length (init_fingers s available al) ≡ length available + length al)
unfolding init_fingers create_coord_buffer init_finger
init_fingers-IsPooled s available [] p h v = (v, omega arith)
init_fingers-IsPooled s available ((raw, none) ∷ al) p h v = absurd h.0
init_fingers-IsPooled s available ((raw, some memory) ∷ al) p h v =
    let f = init_finger s raw (some memory) in
    let good : IsPooled f = record { history = ground (arith, h.0); idle = refl } in
    let ih =
      init_fingers-IsPooled s (available ++ (f ∷ [])) al p h.1
        (All-append IsPooled available (f ∷ []) v (good, tt)) in
    (ih.0, omega (arith, ih.1, length-append available (f ∷ [])))

-- With memory, a buffer size that is not 0 and no finger tracked, the start-up establishes the
-- invariant and adds one finger buffer for each round.
pub init-Inv :
    (s : GeneralSettings) (al : List (Finger × Option (List Coord))) (m : Machine)
    → 0 < s.coord_buf_size
    → All (Allocated s.coord_buf_size) al
    → m.fingers ≡ []
    → All IsPooled m.available
    → m.cur_finger_id < 2 ^ 32
    → Inv (init_gesture_state_machine s al m)
      × (total (init_gesture_state_machine s al m) ≡ total m + length al)
unfolding init_gesture_state_machine
init-Inv s al m p h none_tracked pooled id_in =
    let i = init_fingers-IsPooled s m.available al p h pooled in
    (record { tracked = rw none_tracked tt; pooled = i.0; id_in = id_in }, omega (arith, i.1))

drain_queue_lem : (freed fs : List Finger) → drain_queue freed fs ≡ (freed ++ fs, [])
unfolding drain_queue
drain_queue_lem freed [] = rw append-nil
drain_queue_lem freed (f ∷ fs) = rw (drain_queue_lem (freed ++ (f ∷ [])) fs, append_assoc)

free_list_lem : (freed fs : List Finger) → free_list freed fs ≡ freed ++ fs
unfolding free_list
free_list_lem freed [] = rw append-nil
free_list_lem freed (f ∷ fs) = rw (free_list_lem (freed ++ (f ∷ [])) fs, append_assoc)

-- The shutdown frees every pooled finger and every tracked one, once each, and empties the queue;
-- the list of tracked fingers is left as it was, with every finger on it freed.
pub deinit_lem :
    (m : Machine)
    → ((deinit_gesture_state_machine m).0 ≡ m.available ++ m.fingers)
      × ((deinit_gesture_state_machine m).1.available ≡ [])
      × ((deinit_gesture_state_machine m).1.fingers ≡ m.fingers)
unfolding deinit_gesture_state_machine
deinit_lem m = rw (drain_queue_lem [] m.available, free_list_lem) (refl, refl, refl)
