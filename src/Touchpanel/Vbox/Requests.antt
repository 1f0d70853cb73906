-- ===== src/Touchpanel/Vbox/Requests.antt =====
-- touchpanel.c: the requests are as long as they say, and the descriptor is closed when one fails.
use nyx_modules.Base.{
  ℤ, true, false, Bool-cases, if_elim, List, [], ◌∷◌, length, All, ◌≡◌, ◌⊎◌, refl, inl, inr,
}
use nyx_modules.Touchpanel.Start.{VboxAnswers, is_error, init_vbox_touchpanel, vbox_error}
use nyx_modules.Touchpanel.Vbox.{
  Request, mouse_status, mouse_pointer, request_bytes, header_of, status_request, shape_request,
  vbox_requests,
}

-- A request is as long as its header says.
unfoldable pub IsSized : Request → Type 0
IsSized r = length (request_bytes r) ≡ (header_of r).size

status-IsSized : IsSized (mouse_status status_request)
unfolding IsSized request_bytes
status-IsSized = refl

shape-IsSized : IsSized (mouse_pointer shape_request)
unfolding IsSized request_bytes
shape-IsSized = refl

-- Both requests are made exactly when the driver has been opened and has done the first one.
pub data Outcome (v : VboxAnswers) : List Request → List ℤ → Type 0 where
  not_opened : is_error v.vbox_fd ≡ true → Outcome v [] []
  first_failed :
      is_error v.vbox_fd ≡ false
      → (is_error v.status_ioctl ≡ true) ⊎ (is_error v.status_rc ≡ true)
      → Outcome v (mouse_status status_request ∷ []) (v.vbox_fd ∷ [])
  second_failed :
      is_error v.vbox_fd ≡ false
      → is_error v.status_ioctl ≡ false
      → is_error v.status_rc ≡ false
      → (is_error v.shape_ioctl ≡ true) ⊎ (is_error v.shape_rc ≡ true)
      → Outcome v (mouse_status status_request ∷ mouse_pointer shape_request ∷ []) (v.vbox_fd ∷ [])
  enabled :
      is_error v.vbox_fd ≡ false
      → is_error v.status_ioctl ≡ false
      → is_error v.status_rc ≡ false
      → is_error v.shape_ioctl ≡ false
      → is_error v.shape_rc ≡ false
      → Outcome v (mouse_status status_request ∷ mouse_pointer shape_request ∷ []) []

outcome : (v : VboxAnswers) → Outcome v (vbox_requests v) (init_vbox_touchpanel v)
unfolding vbox_requests init_vbox_touchpanel vbox_error
outcome v = elim (Bool-cases (is_error v.vbox_fd)) [
  | inl e0 ↦ rw e0 (not_opened e0)
  | inr e0 ↦ elim (Bool-cases (is_error v.status_ioctl)) [
    | inl e1 ↦ rw (e0, e1) (first_failed e0 (inl e1))
    | inr e1 ↦ elim (Bool-cases (is_error v.status_rc)) [
      | inl e2 ↦ rw (e0, e1, e2) (first_failed e0 (inr e2))
      | inr e2 ↦ elim (Bool-cases (is_error v.shape_ioctl)) [
        | inl e3 ↦ rw (e0, e1, e2, e3) (second_failed e0 e1 e2 (inl e3))
        | inr e3 ↦ elim (Bool-cases (is_error v.shape_rc)) [
          | inl e4 ↦ rw (e0, e1, e2, e3, e4) (second_failed e0 e1 e2 (inr e4))
          | inr e4 ↦ rw (e0, e1, e2, e3, e4) (enabled e0 e1 e2 e3 e4)
        ]
      ]
    ]
  ]
]

sized : (v : VboxAnswers) → All IsSized (vbox_requests v)
unfolding vbox_requests
sized v =
    let one : All IsSized (mouse_status status_request ∷ []) = (status-IsSized, tt) in
    if_elim (λ (l : List Request). All IsSized l) (is_error v.vbox_fd) tt
      (if_elim (λ (l : List Request). All IsSized l) (is_error v.status_ioctl) one
        (if_elim (λ (l : List Request). All IsSized l) (is_error v.status_rc) one
          (status-IsSized, (shape-IsSized, tt))))

-- Every request that the start of the panel makes of the VirtualBox driver is as long, in bytes, as its
-- header says. The request for the shape of the pointer is made exactly when the driver could be
-- opened and the request for the status of the mouse has succeeded, and the descriptor is closed
-- exactly when one of the requests has failed.
pub requests_lem :
    (v : VboxAnswers)
    → All IsSized (vbox_requests v) × Outcome v (vbox_requests v) (init_vbox_touchpanel v)
requests_lem v = (sized v, outcome v)
