-- ===== src/Gestures/Types.antt =====
-- The data of touchpanel_gestures.h, and `set_event_params` of touchpanel_common.c.
-- Times are those of `gettimeofday`, which are not negative.
use nyx_modules.Base.{ℕ, ◌+◌, ◌/◌, ℤ, pos, List, set, get_or}

-- `time_stamp_t`, a `struct timespec`
pub record TimeStamp : Type 0 where
  pub sec : ℕ
  pub nsec : ℕ

-- `struct timeval`, which has the same layout
pub record TimeVal : Type 0 where
  pub sec : ℕ
  pub usec : ℕ

-- `input_event_t`
pub record InputEvent : Type 0 where
  pub time : TimeVal
  pub type : ℕ
  pub code : ℕ
  pub value : ℤ

-- The event types and codes of linux/input.h.
abbrev pub ev_syn : ℕ
ev_syn = 0

abbrev pub ev_key : ℕ
ev_key = 1

abbrev pub ev_rel : ℕ
ev_rel = 2

abbrev pub ev_abs : ℕ
ev_abs = 3

abbrev pub abs_x : ℕ
abs_x = 0

abbrev pub abs_y : ℕ
abs_y = 1

abbrev pub btn_touch : ℕ
btn_touch = 0x14a

-- `EV_FINGERID`
abbrev pub ev_fingerid : ℕ
ev_fingerid = 0x07

-- `general_settings_t`
pub record GeneralSettings : Type 0 where
  pub coord_buf_size : ℕ
  pub finger_down_threshold : ℤ
  pub position_filter : ℤ

-- `set_event_params` at event `e`: the new event, and the new value of `*pTime`. The assignments run
-- from the event's time to the time stamp.
unfoldable pub set_event_params : InputEvent → TimeStamp → ℕ → ℕ → ℤ → InputEvent × TimeStamp
set_event_params e t type code value = (
  record e { type = type; code = code; value = value },
  record t { sec = e.time.sec; nsec = e.time.usec / 1000 },
)

-- The array `events` with the counter `numEvents`.
pub record EventBuf : Type 0 where
  pub events : List InputEvent
  pub count : ℕ

abbrev pub zero_event : InputEvent
zero_event = record { time = record { sec = 0; usec = 0 }; type = 0; code = 0; value = pos 0 }

-- `set_event_params(&events[numEvents++], &timestamp, …)`. The slot is read for its time and written;
-- a slot outside the array is not written.
unfoldable pub emit : EventBuf → TimeStamp → ℕ → ℕ → ℤ → EventBuf × TimeStamp
unfolding set_event_params
emit b t type code value =
    let slot = get_or b.events b.count zero_event in
    let (e, t') = set_event_params slot t type code value in
    (record b { events = set b.events b.count e; count = b.count + 1 }, t')
