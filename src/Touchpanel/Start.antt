-- ===== src/Touchpanel/Start.antt =====
-- The start and the end of the module, with the descriptors that it opens and closes.
use nyx_modules.Base.{
  ℤ, pos, negsuc, ltb_ℤ, Bool, true, false, not, if◌then◌else◌, List, [], ◌∷◌, ◌++◌, Option, none,
  some,
}
use nyx_modules.Nyx.{NyxError, ok, generic, out_of_memory}
use nyx_modules.Gestures.Types.{GeneralSettings}
use nyx_modules.Gestures.CoordBuf.{Coord}
use nyx_modules.Gestures.Finger.{Finger}
use nyx_modules.Gestures.Machine.Lifecycle.{
  init_gesture_state_machine, deinit_gesture_state_machine,
}
use nyx_modules.Touchpanel.Source.{Panel}

-- What the calls of `init_vbox_touchpanel` return: `open`, and each `ioctl` with the return code of its request.
pub record VboxAnswers : Type 0 where
  pub vbox_fd : ℤ
  pub status_ioctl : ℤ
  pub status_rc : ℤ
  pub shape_ioctl : ℤ
  pub shape_rc : ℤ

-- What the calls of `get_display_res` return, with the resolution.
pub record DisplayAnswers : Type 0 where
  pub display_fd : ℤ
  pub screen_ioctl : ℤ
  pub xres : ℤ
  pub yres : ℤ

-- What the calls of `init_touchpanel` return: the two results of EVIOCGABS come with the maximum.
pub record StartAnswers : Type 0 where
  pub event_fd : ℤ
  pub horizontal : ℤ × ℤ
  pub vertical : ℤ × ℤ
  pub vbox : VboxAnswers
  pub display : DisplayAnswers
  pub first_finger : Finger × Option (List Coord)
  pub second_finger : Finger × Option (List Coord)

-- What the rounds of `init_gesture_state_machine` get for one finger: the loop makes `maxFingers * 2`.
abbrev pub allocations : StartAnswers → List (Finger × Option (List Coord))
allocations a = a.first_finger ∷ a.second_finger ∷ []

abbrev pub is_error : ℤ → Bool
is_error n = ltb_ℤ n (pos 0)

-- The end of `init_vbox_touchpanel` after `goto error`: the descriptors that are closed.
unfoldable pub vbox_error : ℤ → List ℤ
vbox_error fd = if is_error fd then [] else fd ∷ []

-- `init_vbox_touchpanel`: the descriptors that are closed. After a success the descriptor stays open.
unfoldable pub init_vbox_touchpanel : VboxAnswers → List ℤ
init_vbox_touchpanel v =
    if is_error v.vbox_fd
    then vbox_error v.vbox_fd
    else if is_error v.status_ioctl
    then vbox_error v.vbox_fd
    else if is_error v.status_rc
    then vbox_error v.vbox_fd
    else if is_error v.shape_ioctl
    then vbox_error v.vbox_fd
    else if is_error v.shape_rc
    then vbox_error v.vbox_fd
    else []

-- `get_display_res`: the resolution, `none` for -1, and the descriptors that are closed.
unfoldable pub get_display_res : DisplayAnswers → Option (ℤ × ℤ) × List ℤ
get_display_res a =
    if is_error a.display_fd
    then (none, [])
    else if is_error a.screen_ioctl
    then (none, a.display_fd ∷ [])
    else (some (a.xres, a.yres), a.display_fd ∷ [])

-- `sGeneralSettings`
abbrev pub general_settings : GeneralSettings
general_settings = record {
  coord_buf_size = 6;
  finger_down_threshold = pos 0;
  position_filter = pos 0;
}

-- The panel with the static variables of the device file: its descriptor, the scaling over a type of floats, and the
-- descriptors that have been closed, the last one last.
pub record Touchpanel (F : Type 0) : Type 0 where
  pub panel : Panel
  pub event_fd : ℤ
  pub scale_x : F
  pub scale_y : F
  pub closed : List ℤ

module _ {F : Type 0} (divide : ℤ → ℤ → F) where
  -- After `error:` of `init_touchpanel`.
  unfoldable pub start_error : ℤ → Touchpanel F → Touchpanel F × ℤ
  start_error ret t =
      (if is_error t.event_fd then t else record t { closed = t.closed ++ (t.event_fd ∷ []) }, ret)

  -- What follows `get_display_res`, with `ret` of the second `ioctl`.
  unfoldable pub set_scale : StartAnswers → Touchpanel F → Option (ℤ × ℤ) → Touchpanel F × ℤ
  set_scale a t none = start_error (a.vertical.0) t
  set_scale a t (some (sx, sy)) =
      (record t { scale_x = divide sx (a.horizontal.1); scale_y = divide sy (a.vertical.1) }, pos 0)

  -- `init_touchpanel`: the variables, and the result.
  unfoldable pub init_touchpanel : StartAnswers → Touchpanel F → Touchpanel F × ℤ
  init_touchpanel a t =
      let opened = record t { event_fd = a.event_fd } in
      let p = t.panel in
      let (size, closed) = get_display_res a.display in
      let started = record opened {
        panel = record p {
          machine = init_gesture_state_machine general_settings (allocations a) p.machine;
        };
        closed = t.closed ++ init_vbox_touchpanel a.vbox ++ closed;
      } in
      if is_error a.event_fd
      then (opened, negsuc 0)
      else if is_error a.horizontal.0
      then start_error (a.horizontal.0) opened
      else if is_error a.vertical.0
      then start_error (a.vertical.0) opened
      else set_scale a started size

  -- `nyx_module_open`, by the success of `calloc`: the variables with the new device, the result, and whether `*d` is
  -- set.
  unfoldable pub open_result : Touchpanel F × ℤ → Touchpanel F × NyxError × Bool
  open_result (t, ret) = if is_error ret then (t, generic, true) else (t, ok, true)

  unfoldable pub nyx_module_open :
      Bool → StartAnswers → Touchpanel F → Touchpanel F × NyxError × Bool
  nyx_module_open memory a t =
      let p = t.panel in
      if not memory
      then (t, out_of_memory, false)
      else open_result (init_touchpanel a (record t { panel = record p { current_event = none } }))

module _ {F : Type 0} where
  -- `nyx_module_close`: the variables, with the event of the device released, and the fingers that are freed.
  unfoldable pub nyx_module_close : Touchpanel F → Touchpanel F × List Finger × NyxError
  nyx_module_close t =
      let p = t.panel in
      let (freed, machine) = deinit_gesture_state_machine p.machine in
      let ended = record t { panel = record p { machine = machine; current_event = none } } in
      if is_error t.event_fd
      then (ended, freed, ok)
      else (record ended { event_fd = negsuc 0; closed = t.closed ++ (t.event_fd ∷ []) }, freed, ok)
