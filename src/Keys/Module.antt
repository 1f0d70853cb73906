-- ===== src/Keys/Module.antt =====
-- keys.c: the module with its descriptor and the key events that it allocates.
pub mod Memory
pub mod Reopened
mod Examples
use nyx_modules.Base.{
  ℕ, ◌+◌, ◌-◌, ℤ, pos, negsuc, ltb_ℤ, Bool, true, false, not, ◌==◌, if◌then◌else◌, List, [], ◌∷◌,
  ◌++◌, Option, none, some,
}
use nyx_modules.Runs.{run}
use nyx_modules.Nyx.{NyxError, ok, invalid_handle, out_of_memory}
use nyx_modules.Keys.Device.{KeyEvent, Keys, Poll, refill, take_from, keys_get_event}

-- The variables of the file, with the event that the device holds, and the descriptors that have been
-- opened and not closed. The numbers of key events that are allocated, and of those that the client
-- has been given and has not released.
pub record KeysModule : Type 0 where
  pub keys : Keys
  pub keypad_event_fd : ℤ
  pub descriptors : List ℤ
  pub allocated : ℕ
  pub held : ℕ

-- `init_keypad`, by what `open` returns: `none` without KEYPAD_INPUT_DEVICE.
unfoldable pub init_keypad : Option ℤ → KeysModule → KeysModule × ℤ
init_keypad none m = (m, negsuc 0)
init_keypad (some fd) m =
    if ltb_ℤ fd (pos 0)
    then (record m { keypad_event_fd = fd }, negsuc 0)
    else (record m { keypad_event_fd = fd; descriptors = m.descriptors ++ (fd ∷ []) }, pos 0)

-- `nyx_module_open`, with whether `calloc` returns memory, and whether `*d` is set: the new device holds no event, and the
-- result of `init_keypad` is not looked at.
unfoldable pub open_module : Bool → Option ℤ → KeysModule → KeysModule × NyxError × Bool
unfolding init_keypad
open_module alloc answer m =
    let started = (init_keypad answer m).0 in
    let k = started.keys in
    if not alloc
    then (m, out_of_memory, false)
    else (record started { keys = record k { current = false } }, ok, true)

-- `nyx_module_close` of the device, or of NULL: the event that the device holds is released.
unfoldable pub close_module : Bool → KeysModule → KeysModule × NyxError
close_module d m =
    let k = m.keys in
    let freed = record m { keys = record k { current = false } } in
    if not d
    then (m, invalid_handle)
    else if k.current
    then (record freed { allocated = m.allocated - 1 }, ok)
    else (freed, ok)

-- `keys_event_create` in a call, behind the reading: whether it is called and gets memory.
unfoldable pub event_created : Bool → Option Keys → ℕ
event_created alloc none = 0
event_created alloc (some k) = if k.current then 0 else if alloc then 1 else 0

abbrev pub handed : Option KeyEvent → ℕ
handed none = 0
handed (some e) = 1

-- `keys_get_event` with its memory.
unfoldable pub with_memory :
    ℕ → KeysModule → Option (Keys × Option KeyEvent) → Option (KeysModule × Option KeyEvent)
with_memory new m none = none
with_memory new m (some (k, e)) =
    some (record m { keys = k; allocated = m.allocated + new; held = m.held + handed e }, e)

unfoldable pub get_event : Bool → Poll → KeysModule → Option (KeysModule × Option KeyEvent)
unfolding with_memory event_created
get_event alloc poll m =
    with_memory (event_created alloc (refill poll m.keys)) m (keys_get_event alloc poll m.keys)

-- `keys_release_event` with the device, and an event that the client holds, or NULL for them.
unfoldable pub release_event : Bool → Bool → KeysModule → KeysModule × NyxError
release_event d e m =
    if not d
    then (m, invalid_handle)
    else if not e
    then (m, invalid_handle)
    else (record m { allocated = m.allocated - 1; held = m.held - 1 }, ok)

-- What a client does with the device; `restart` closes the module and opens it again.
pub data KeysAction : Type 0 where
  get : Bool → Poll → KeysAction
  release : KeysAction
  restart : Option ℤ → KeysAction

abbrev pub state_of : Option (KeysModule × Option KeyEvent) → Option KeysModule
state_of none = none
state_of (some (m, e)) = some m

-- One action. A client that holds no event does not release one.
unfoldable pub act : KeysAction → KeysModule → Option KeysModule
unfolding get_event release_event close_module open_module
act (get alloc poll) m = state_of (get_event alloc poll m)
act release m = if m.held == 0 then some m else some (release_event true true m).0
act (restart answer) m = some (open_module true answer (close_module true m).0).0

unfoldable pub acts : List KeysAction → KeysModule → Option KeysModule
unfolding act
acts actions m = run act actions m
