-- ===== src/Gestures/CoordBuf.antt =====
-- The circular coordinate history of a finger.
pub mod History
use nyx_modules.Base.{
  ℕ, zero, suc, ◌+◌, ◌-◌, ◌%◌, ℤ, pos, ◌+ℤ◌, ◌-ℤ◌, ltb_ℤ, ◌==ℤ◌, Bool, not, ◌&&◌, List, [], ◌==◌,
  ltb, Option, none, some, set, get_or, if◌then◌else◌,
}
use nyx_modules.Gestures.Types.{TimeStamp, GeneralSettings}

-- `coord_t`
pub record Coord : Type 0 where
  pub x : ℤ
  pub y : ℤ
  pub time_stamp : TimeStamp

abbrev pub zero_coord : Coord
zero_coord = record { x = pos 0; y = pos 0; time_stamp = record { sec = 0; nsec = 0 } }

-- `coord_buf_t`
pub record CoordBuf : Type 0 where
  pub coords : List Coord
  pub head : ℕ
  pub tail : ℕ
  pub num_items : ℕ
  pub size : ℕ

-- `create_coord_buffer` of a buffer that is not NULL. `memory` is what `malloc` returns: an array of
-- `buf_size` coordinates with any content, or NULL. The Boolean says that the result is 0.
unfoldable pub create_coord_buffer : CoordBuf → ℕ → Option (List Coord) → CoordBuf × Bool
create_coord_buffer b buf_size none = (record b { coords = [] }, Bool.false)
create_coord_buffer b buf_size (some memory) =
    (record { coords = memory; head = 0; tail = 0; num_items = 0; size = buf_size }, Bool.true)

unfoldable pub reset_coord_buffer : CoordBuf → CoordBuf
reset_coord_buffer b = record b { head = 0; tail = 0; num_items = 0 }

-- The position filter moves a coordinate by one towards the one before it.
unfoldable pub filter_towards : ℤ → ℤ → ℤ
filter_towards v prev = if ltb_ℤ v prev then v +ℤ pos 1 else if ltb_ℤ prev v then v -ℤ pos 1 else v

-- The head after a full buffer has dropped its oldest item.
unfoldable pub head_for_new : CoordBuf → ℕ
head_for_new b = if b.head == b.tail && b.num_items == b.size then (b.head + 1) % b.size else b.head

-- The coordinate that `update_coord_buffer` stores.
unfoldable pub new_coord : GeneralSettings → CoordBuf → ℤ → ℤ → TimeStamp → Coord
new_coord s b x y t =
    let prev = get_or b.coords (if b.tail == 0 then b.size - 1 else b.tail - 1) zero_coord in
    if not (s.position_filter ==ℤ pos 0) && not (b.num_items == 0)
    then record { x = filter_towards x prev.x; y = filter_towards y prev.y; time_stamp = t }
    else record { x = x; y = y; time_stamp = t }

-- `update_coord_buffer`. An index outside the array is not written.
unfoldable pub update_coord_buffer : GeneralSettings → CoordBuf → ℤ → ℤ → TimeStamp → CoordBuf
update_coord_buffer s b x y t = record b {
  coords = set b.coords b.tail (new_coord s b x y t);
  head = head_for_new b;
  tail = (b.tail + 1) % b.size;
  num_items = if ltb b.num_items b.size then b.num_items + 1 else b.num_items;
}

-- `get_last_coords`: the item whose fields it hands out. The index is an `int`; it is not negative
-- unless the buffer is empty.
unfoldable pub get_last_coords : CoordBuf → Coord
get_last_coords b = get_or b.coords ((b.head + b.num_items - 1) % b.size) zero_coord
