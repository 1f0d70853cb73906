-- ===== src/Touchpanel/Vbox.antt =====
-- touchpanel.c: the requests that `init_vbox_touchpanel` makes of the VirtualBox driver.
pub mod Requests
mod Examples
use nyx_modules.Base.{
  ℕ, ◌+◌, ◌-◌, ◌/◌, ◌%◌, ◌^◌, ℤ, pos, negsuc, if◌then◌else◌, List, [], ◌∷◌, ◌++◌,
}
use nyx_modules.Touchpanel.Start.{VboxAnswers, is_error}

-- `VMMdev_request_header`
pub record RequestHeader : Type 0 where
  pub size : ℕ
  pub version : ℕ
  pub request_type : ℕ
  pub rc : ℤ
  pub reserved1 : ℕ
  pub reserved2 : ℕ

-- `VMMdev_req_mouse_status`
pub record MouseStatus : Type 0 where
  pub header : RequestHeader
  pub mouse_features : ℕ
  pub pointer_x_pos : ℤ
  pub pointer_y_pos : ℤ

-- `VMMdev_req_mouse_pointer`
pub record MousePointer : Type 0 where
  pub header : RequestHeader
  pub flags : ℕ
  pub x_hot : ℕ
  pub y_hot : ℕ
  pub width : ℕ
  pub height : ℕ
  pub pointer_data : List ℕ

pub data Request : Type 0 where
  mouse_status : MouseStatus → Request
  mouse_pointer : MousePointer → Request

-- The bytes of a structure, which is packed to four bytes, on a machine that stores the low byte first.
unfoldable pub word : ℕ → List ℕ
word n = n % 256 ∷ n / 256 % 256 ∷ n / 65536 % 256 ∷ n / 16777216 % 256 ∷ []

unfoldable pub signed_word : ℤ → List ℕ
unfolding word
signed_word (pos n) = word n
signed_word (negsuc n) = word (2 ^ 32 - (n + 1))

unfoldable pub header_bytes : RequestHeader → List ℕ
unfolding word signed_word
header_bytes h =
    word h.size
    ++ (word h.version
        ++ (word h.request_type ++ (signed_word h.rc ++ (word h.reserved1 ++ word h.reserved2))))

unfoldable pub request_bytes : Request → List ℕ
unfolding header_bytes word signed_word
request_bytes (mouse_status r) =
    header_bytes r.header
    ++ (word r.mouse_features ++ (signed_word r.pointer_x_pos ++ signed_word r.pointer_y_pos))
request_bytes (mouse_pointer r) =
    header_bytes r.header
    ++ (word r.flags
        ++ (word r.x_hot ++ (word r.y_hot ++ (word r.width ++ (word r.height ++ r.pointer_data)))))

abbrev pub header_of : Request → RequestHeader
header_of (mouse_status r) = r.header
header_of (mouse_pointer r) = r.header

-- A header as it is filled in: VMMDEV_REQUEST_HEADER_VERSION and VERR_GENERAL_FAILURE.
abbrev pub new_header : ℕ → ℕ → RequestHeader
new_header size request_type = record {
  size = size;
  version = 65537;
  request_type = request_type;
  rc = negsuc 0;
  reserved1 = 0;
  reserved2 = 0;
}

-- `Req`, with MouseGuestNeedsHostCursor, and `mpReq`, with VBOX_MOUSE_POINTER_VISIBLE.
abbrev pub status_request : MouseStatus
status_request = record {
  header = new_header 36 2;
  mouse_features = 4;
  pointer_x_pos = pos 0;
  pointer_y_pos = pos 0;
}

abbrev pub shape_request : MousePointer
shape_request = record {
  header = new_header 48 3;
  flags = 1;
  x_hot = 0;
  y_hot = 0;
  width = 0;
  height = 0;
  pointer_data = 0 ∷ 0 ∷ 0 ∷ 0 ∷ [];
}

-- The requests of `init_vbox_touchpanel`, by what the calls return.
unfoldable pub vbox_requests : VboxAnswers → List Request
vbox_requests v =
    if is_error v.vbox_fd
    then []
    else if is_error v.status_ioctl
    then mouse_status status_request ∷ []
    else if is_error v.status_rc
    then mouse_status status_request ∷ []
    else mouse_status status_request ∷ mouse_pointer shape_request ∷ []
