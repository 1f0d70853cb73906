-- ===== src/Touchpanel/Items.antt =====
-- Touch events and their items, and how one input event changes the event that is being built.
use nyx_modules.Base.{
  ℕ, ◌+◌, ◌*◌, ℤ, pos, negsuc, ◌+ℤ◌, scale_ℤ, ◌==ℤ◌, Bool, true, false, ltb, ◌==◌, if◌then◌else◌,
  List, [], ◌∷◌, ◌++◌, Option, none, some, length,
}
use nyx_modules.Gestures.Types.{
  TimeVal, InputEvent, ev_syn, ev_key, ev_abs, abs_x, abs_y, btn_touch, ev_fingerid,
}

-- The `NYX_TOUCHPANEL_STATE_` constants of nyx-lib that the module uses.
pub data TouchState : Type 0 where
  undefined down up : TouchState

-- `nyx_touchpanel_event_item_t`, without the three fields of type `double`, which `touch_item_reset`
-- sets to constants and nothing reads.
pub record TouchItem : Type 0 where
  pub finger : ℤ
  pub state : TouchState
  pub x : ℤ
  pub y : ℤ
  pub gesture_key : ℤ
  pub timestamp : ℕ

-- `nyx_event_touchpanel_t`: the array up to `item_count`.
abbrev pub TouchEvent : Type 0
TouchEvent = List TouchItem

-- `touch_item_reset`, at an item with the given time stamp
unfoldable pub touch_item_reset : ℕ → TouchItem
touch_item_reset t = record {
  finger = pos 0;
  state = undefined;
  x = pos 0;
  y = pos 0;
  gesture_key = negsuc 0;
  timestamp = t;
}

-- `touch_event_create`, by whether `calloc` returns memory
unfoldable pub touch_event_create : Bool → Option TouchEvent
touch_event_create true = some []
touch_event_create false = none

-- `get_ts_tval`. An `int64_t` holds it for 290 years.
unfoldable pub get_ts_tval : TimeVal → ℕ
get_ts_tval tv = tv.sec * 1000000000 + tv.usec * 1000

-- The item that `EV_FINGERID` fills in.
unfoldable pub new_item : InputEvent → TouchItem
unfolding touch_item_reset get_ts_tval
new_item e =
    let item = touch_item_reset (get_ts_tval e.time) in
    record item { finger = scale_ℤ 1000 e.value +ℤ pos e.code }

-- A change of the item that `touch_event_get_current_item` returns; nothing if there is none.
unfoldable pub with_current_item : (TouchItem → TouchItem) → TouchEvent → TouchEvent
with_current_item g [] = []
with_current_item g (i ∷ []) = g i ∷ []
with_current_item g (i ∷ j ∷ is) = i ∷ with_current_item g (j ∷ is)

unfoldable pub abs_item : InputEvent → TouchItem → TouchItem
abs_item e i =
    if e.code == abs_x
    then record i { x = e.value }
    else if e.code == abs_y
    then record i { y = e.value }
    else i

unfoldable pub key_item : InputEvent → TouchItem → TouchItem
key_item e i =
    if e.code == btn_touch then record i { state = if e.value ==ℤ pos 1 then down else up } else i

-- What one round of the loop leaves behind: the event that is being built, or a generated event and
-- the new `current_event_ptr`, or a failed assertion.
pub data Round : Type 0 where
  building : TouchEvent → Round
  generated : TouchEvent → Option TouchEvent → Round
  aborted : Round

-- `EV_FINGERID` when the event has no free item: it is handed out, and a new one is begun.
unfoldable pub overflow : Option TouchEvent → TouchEvent → InputEvent → Round
unfolding new_item
overflow none cur e = aborted
overflow (some fresh) cur e = generated cur (some (fresh ++ (new_item e ∷ [])))

-- `touch_event_get_next_item`: whether the event has a free item, which the caller puts at its end.
abbrev pub touch_event_get_next_item : ℕ → TouchEvent → Bool
touch_event_get_next_item max_items cur = ltb (length cur) max_items

-- The `switch` of `touchpanel_get_event`. `max_items` is `NYX_MAX_TOUCH_EVENTS` of nyx-lib, and
-- `alloc` says whether `calloc` returns memory. A new event has a free item.
unfoldable pub handle_input : ℕ → Bool → TouchEvent → InputEvent → Round
unfolding touch_event_create overflow with_current_item abs_item key_item
handle_input max_items alloc cur e =
    if e.type == ev_fingerid
    then (if touch_event_get_next_item max_items cur
        then building (cur ++ (new_item e ∷ []))
        else overflow (touch_event_create alloc) cur e)
    else if e.type == ev_abs
    then building (with_current_item (abs_item e) cur)
    else if e.type == ev_key
    then building (with_current_item (key_item e) cur)
    else if e.type == ev_syn
    then generated cur none
    else building cur

-- The `for` loop, over the input events from `event_iter` on: how many it has read, and its end.
unfoldable pub consume : ℕ → Bool → TouchEvent → ℕ → List InputEvent → ℕ × Round
consume max_items alloc cur n [] = (n, building cur)
consume max_items alloc cur n (e ∷ es) = elim (handle_input max_items alloc cur e) [
  | building cur' ↦ consume max_items alloc cur' (n + 1) es
  | generated g next ↦ (n + 1, generated g next)
  | aborted ↦ (n + 1, aborted)
]
