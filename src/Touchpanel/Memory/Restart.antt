-- ===== src/Touchpanel/Memory/Restart.antt =====
-- touchpanel.c: a new start holds no event.
use nyx_modules.Base.{ℤ, true, Bool-cases, Option, none, some, ◌≡◌, refl, inl, inr, arith}
use nyx_modules.Touchpanel.Start.{
  Touchpanel, StartAnswers, nyx_module_open, nyx_module_close, open_result, init_touchpanel,
  set_scale, start_error, is_error,
}

module _ {F : Type 0} (divide : ℤ → ℤ → F) where
  start_error-panel : (ret : ℤ) (t : Touchpanel F) → (start_error divide ret t).0.panel ≡ t.panel
  unfolding start_error
  start_error-panel ret t = ground arith

  set_scale-panel :
      (a : StartAnswers) (t : Touchpanel F) (size : Option (ℤ × ℤ))
      → (set_scale divide a t size).0.panel ≡ t.panel
  unfolding set_scale
  set_scale-panel a t none = start_error-panel a.vertical.0 t
  set_scale-panel a t (some size) = refl

  init_touchpanel-current :
      (a : StartAnswers) (t : Touchpanel F)
      → (init_touchpanel divide a t).0.panel.current_event ≡ t.panel.current_event
  unfolding init_touchpanel
  init_touchpanel-current a t = elim (Bool-cases (is_error a.event_fd)) [
    | inl e ↦ rw e refl
    | inr opened ↦ elim (Bool-cases (is_error (a.horizontal.0))) [
      | inl e ↦ rw (opened, e, start_error-panel _ _) refl
      | inr horizontal ↦ elim (Bool-cases (is_error (a.vertical.0))) [
        | inl e ↦ rw (opened, horizontal, e, start_error-panel _ _) refl
        | inr vertical ↦ rw (opened, horizontal, vertical, set_scale-panel _ _ _) refl
      ]
    ]
  ]

  open_result-state : (r : Touchpanel F × ℤ) → (open_result divide r).0 ≡ r.0
  unfolding open_result
  open_result-state r = ground arith

  pub restart-current :
      (a : StartAnswers) (t : Touchpanel F)
      → (nyx_module_open divide true a (nyx_module_close t).0).0.panel.current_event ≡ none
  unfolding nyx_module_open
  restart-current a t = rw (open_result-state _) (init_touchpanel-current a _)
