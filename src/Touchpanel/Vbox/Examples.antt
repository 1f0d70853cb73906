-- ===== src/Touchpanel/Vbox/Examples.antt =====
-- A driver that fails the second request, and the theorem at it.
use nyx_modules.Base.{pos, negsuc, [], ◌∷◌, length, ◌≡◌, refl}
use nyx_modules.Touchpanel.Start.{VboxAnswers, vbox_error, init_vbox_touchpanel}
use nyx_modules.Touchpanel.Vbox.{mouse_status, status_request, request_bytes}

abbrev answers : VboxAnswers
answers = record {
  vbox_fd = pos 7;
  status_ioctl = pos 0;
  status_rc = pos 0;
  shape_ioctl = pos 0;
  shape_rc = negsuc 0;
}

closed_lem : init_vbox_touchpanel answers ≡ pos 7 ∷ []
unfolding init_vbox_touchpanel vbox_error
closed_lem = refl

length-status : length (request_bytes (mouse_status status_request)) ≡ 36
unfolding request_bytes
length-status = refl
