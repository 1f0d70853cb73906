-- ===== src/Keys/Device.antt =====
-- The state of the module, and `keys_get_event`.
use nyx_modules.Base.{
  ℕ, ◌+◌, ◌-◌, ℤ, pos, negsuc, pos_part, ltb_ℤ, ◌==ℤ◌, Bool, true, false, not, ◌==◌, if◌then◌else◌,
  List, [], ◌∷◌, Option, none, some, take, drop, length,
}
use nyx_modules.Nyx.{NyxError, ok, invalid_handle, invalid_value, out_of_memory}
use nyx_modules.Gestures.Types.{InputEvent, ev_key}
use nyx_modules.Keys.Lookup.{Key, KeyType, standard, lookup_key}

-- `nyx_event_keys_t`
pub record KeyEvent : Type 0 where
  pub key_type : KeyType
  pub key : Key
  pub is_press : Bool
  pub is_auto_repeat : Bool

-- The static variables of `keys_get_event` and what they are about: the array `raw_events`, and the
-- two counters. `current_event_ptr` is what the device holds between calls.
pub record Keys : Type 0 where
  pub raw_events : List InputEvent
  pub event_count : ℤ
  pub event_iter : ℕ
  pub current : Bool

-- What one `read` of the loop returns: events, an error EINTR, another error, or 0.
pub data ReadResult : Type 0 where
  got : List InputEvent → ReadResult
  interrupted failed end_of_file : ReadResult

-- The `for (;;)` loop of `read_input_event`, over what the calls of `read` return in turn; `none` when
-- the loop has not ended. It goes on after EINTR, and after 0 too.
unfoldable pub read_loop : List ReadResult → Option (ℤ × List InputEvent)
read_loop [] = none
read_loop (got es ∷ rs) = some (pos (length es), es)
read_loop (failed ∷ rs) = some (negsuc 0, [])
read_loop (interrupted ∷ rs) = read_loop rs
read_loop (end_of_file ∷ rs) = read_loop rs

-- `poll`: nothing or an error, no input, or input with the results of `read`.
pub data Poll : Type 0 where
  quiet no_input : Poll
  input : List ReadResult → Poll

-- `read_input_event` with an array that is not NULL: the result, and what it puts into the array.
unfoldable pub read_input_event : Poll → Option (ℤ × List InputEvent)
unfolding read_loop
read_input_event quiet = some (pos 0, [])
read_input_event no_input = some (pos 0, [])
read_input_event (input rs) = read_loop rs

-- The key event that an `EV_KEY` event becomes.
unfoldable pub key_event : InputEvent → KeyEvent
key_event e =
    let (k, t) = lookup_key e.code standard in
    record {
      key_type = t;
      key = k;
      is_press = not (e.value ==ℤ pos 0);
      is_auto_repeat = ltb_ℤ (pos 1) e.value;
    }

-- The `for` loop, over the events that are left: how many it has taken, and the event it hands out.
unfoldable pub find_key : ℕ → List InputEvent → ℕ × Option KeyEvent
unfolding key_event
find_key n [] = (n, none)
find_key n (e ∷ es) = elim (e.type == ev_key) [
  | true ↦ (n + 1, some (key_event e))
  | false ↦ find_key (n + 1) es
]

-- The events that are left of the last read.
unfoldable pub pending : Keys → List InputEvent
pending k = take (pos_part k.event_count - k.event_iter) (drop k.event_iter k.raw_events)

-- The bookkeeping: at the start of the list, the device is read.
unfoldable pub refill_from : Keys → Option (ℤ × List InputEvent) → Option Keys
refill_from k none = none
refill_from k (some (n, es)) = some (record k { raw_events = es; event_count = n; current = false })

unfoldable pub refill : Poll → Keys → Option Keys
unfolding refill_from
refill poll k = if k.event_iter == 0 then refill_from k (read_input_event poll) else some k

-- `event_iter` behind the loop, which has stopped at `n`.
unfoldable pub next_iter : Keys → ℕ → ℕ
next_iter k n = if ltb_ℤ (pos n) k.event_count then n else 0

-- What the loop does with a key: it is handed out, and `current_event_ptr` is NULL. Without memory
-- (`held` is false) the loop has written through NULL.
unfoldable pub hand_out : Bool → Keys → Option KeyEvent → Option (Keys × Option KeyEvent)
hand_out held k none = some (k, none)
hand_out true k (some e) = some (record k { current = false }, some e)
hand_out false k (some e) = none

-- The loop and what follows it.
unfoldable pub take_key : Bool → Keys → Option (Keys × Option KeyEvent)
unfolding pending hand_out next_iter
take_key held k =
    let r = find_key k.event_iter (pending k) in
    hand_out held (record k { event_iter = next_iter k r.0; current = held }) r.1

-- `current_event_ptr` is allocated if it is NULL, by whether `calloc` returns memory.
unfoldable pub take_from : Bool → Option Keys → Option (Keys × Option KeyEvent)
take_from alloc none = none
take_from alloc (some k) = take_key (if k.current then true else alloc) k

-- `keys_get_event`: the state and what is written to `*e`, if it is. The outer `none` is a call that
-- does not come back: it still loops on `read`, or crashes for want of memory.
unfoldable pub keys_get_event : Bool → Poll → Keys → Option (Keys × Option KeyEvent)
unfolding refill take_from
keys_get_event alloc poll k = take_from alloc (refill poll k)

-- `nyx_module_open`: `init_keypad` may fail, and its result is not looked at.
unfoldable pub nyx_module_open : Bool → NyxError
nyx_module_open alloc = if alloc then ok else out_of_memory

-- `keys_release_event` and `nyx_module_close`, by whether the arguments are not NULL.
unfoldable pub keys_release_event : Bool → Bool → NyxError
keys_release_event d e = if not d then invalid_handle else if not e then invalid_handle else ok

unfoldable pub nyx_module_close : Bool → NyxError
nyx_module_close d = if not d then invalid_handle else ok

-- `keys_get_event_source`, with what is written to `*f`.
unfoldable pub keys_get_event_source : ℤ → Bool → Bool → NyxError × Option ℤ
keys_get_event_source fd d f =
    if not d then (invalid_handle, none) else if not f then (invalid_value, none) else (ok, some fd)
