-- ===== src/Touchpanel/Descriptors.antt =====
-- touchpanel.c: the descriptor of the touchscreen over the start and the end of the module.
use nyx_modules.Base.{ℤ, negsuc, true, false, [], ◌∷◌, ◌++◌, Option, none, ◌≡◌, refl, ap, ◌∙◌}
use nyx_modules.Nyx.{ok}
use nyx_modules.Gestures.Machine.Lifecycle.{
  init_gesture_state_machine, deinit_gesture_state_machine,
}
use nyx_modules.Touchpanel.Start.{
  StartAnswers, allocations, is_error, init_vbox_touchpanel, get_display_res, general_settings,
  Touchpanel, start_error, set_scale, init_touchpanel, open_result, nyx_module_open,
  nyx_module_close,
}

module _ {F : Type 0} (divide : ℤ → ℤ → F) where
  -- The touchscreen is opened and says its limits.
  unfoldable pub HasTouchscreen : StartAnswers → Type 0
  HasTouchscreen a =
      (is_error a.event_fd ≡ false)
      × (is_error a.horizontal.0 ≡ false)
      × (is_error a.vertical.0 ≡ false)

  -- The variables when the resolution of the display is known or is missing.
  begun : StartAnswers → Touchpanel F → Touchpanel F
  begun a t =
      let p = t.panel in
      record t {
        event_fd = a.event_fd;
        panel = record p {
          machine = init_gesture_state_machine general_settings (allocations a) p.machine;
        };
        closed = t.closed ++ init_vbox_touchpanel a.vbox ++ (get_display_res a.display).1;
      }

  start_lem :
      (a : StartAnswers) (t : Touchpanel F)
      → HasTouchscreen a
      → init_touchpanel divide a t ≡ set_scale divide a (begun a t) (get_display_res a.display).0
  unfolding init_touchpanel HasTouchscreen begun
  start_lem a t h = rw (h.0, h.1, h.2) refl

  unscaled :
      (a : StartAnswers) (t : Touchpanel F)
      → HasTouchscreen a
      → set_scale divide a (begun a t) none
        ≡ (record (begun a t) { closed = (begun a t).closed ++ (a.event_fd ∷ []) }, a.vertical.0)
  unfolding set_scale start_error HasTouchscreen begun
  unscaled a t h = rw (h.0) refl

  opens :
      (t : Touchpanel F) (ret : ℤ)
      → is_error ret ≡ false
      → open_result divide (t, ret) ≡ (t, ok, true)
  unfolding open_result
  opens t ret h = rw h refl

  opens_from :
      (a : StartAnswers) (t t' : Touchpanel F) (ret : ℤ)
      → (let p = t.panel in
          init_touchpanel divide a (record t { panel = record p { current_event = none } })
          ≡ (t', ret))
      → is_error ret ≡ false
      → nyx_module_open divide true a t ≡ (t', ok, true)
  unfolding nyx_module_open
  opens_from a t t' ret start h =
      ap (λ (r : Touchpanel F × ℤ). open_result divide r) start ∙ opens t' ret h

  -- Without a device the variables are the same but for the event that it held.
  fresh : Touchpanel F → Touchpanel F
  fresh t = let p = t.panel in record t { panel = record p { current_event = none } }

  closing :
      (t : Touchpanel F)
      → is_error t.event_fd ≡ false
      → ((nyx_module_close t).0.closed ≡ t.closed ++ (t.event_fd ∷ []))
        × ((nyx_module_close t).0.event_fd ≡ negsuc 0)
        × ((nyx_module_close t).1 ≡ (deinit_gesture_state_machine t.panel.machine).0)
        × ((nyx_module_close t).2 ≡ ok)
  unfolding nyx_module_close
  closing t h = rw h (refl, refl, refl, refl)

  -- When the touchscreen is there and says its limits, but the resolution of the display cannot be
  -- read, the opening closes the descriptor of the touchscreen, keeps it as the one to read from,
  -- and succeeds. The end of the module then closes the same descriptor again.
  pub closed_but_open :
      (a : StartAnswers) (t : Touchpanel F)
      → HasTouchscreen a
      → (get_display_res a.display).0 ≡ none
      → let o = nyx_module_open divide true a t in
        (o.1 ≡ ok)
        × (o.0.event_fd ≡ a.event_fd)
        × (o.0.closed
            ≡ t.closed
              ++ init_vbox_touchpanel a.vbox
              ++ (get_display_res a.display).1
              ++ (a.event_fd ∷ []))
        × ((nyx_module_close o.0).0.closed ≡ o.0.closed ++ (a.event_fd ∷ []))
  unfolding HasTouchscreen begun fresh
  closed_but_open a t h failed =
      let b = begun a (fresh t) in
      let t' = record b { closed = b.closed ++ (a.event_fd ∷ []) } in
      let start : init_touchpanel divide a (fresh t) ≡ (t', a.vertical.0) =
        start_lem a (fresh t) h
        ∙ ap (λ (o : Option (ℤ × ℤ)). set_scale divide a b o) failed
        ∙ unscaled a (fresh t) h in
      rw (opens_from a t t' (a.vertical.0) start h.2) (refl, refl, refl, (closing t' h.0).0)
