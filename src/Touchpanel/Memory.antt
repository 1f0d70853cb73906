-- ===== src/Touchpanel/Memory.antt =====
-- touchpanel.c: the touch events that the module allocates.
mod Restart
pub mod Account
mod Examples
use nyx_modules.Base.{
  one_if, ℕ, ◌+◌, ◌-◌, ℤ, Bool, true, false, ◌==◌, if◌then◌else◌, List, [], ◌∷◌, Option, none, some,
}
use nyx_modules.Runs.{run}
use nyx_modules.Gestures.Finger.{Finger}
use nyx_modules.Gestures.Types.{InputEvent, ev_fingerid}
use nyx_modules.Touchpanel.Items.{
  TouchEvent, Round, building, generated, aborted, handle_input, touch_event_get_next_item,
}
use nyx_modules.Touchpanel.Source.{Panel, World, Poll}
use nyx_modules.Touchpanel.Device.{begin_event, rewind, pending, touchpanel_get_event}
use nyx_modules.Touchpanel.Start.{Touchpanel, StartAnswers, nyx_module_open, nyx_module_close}

-- The module, with the numbers of touch events that are allocated, and of those that the client has
-- been given and has not released.
pub record TouchMemory (F : Type 0) : Type 0 where
  pub touch : Touchpanel F
  pub allocated : ℕ
  pub held : ℕ

abbrev pub has : Option TouchEvent → ℕ
has none = 0
has (some e) = 1

-- The allocation in the `switch`: an event, if the one that is built is full and there is memory.
unfoldable pub switch_created : ℕ → Bool → TouchEvent → InputEvent → ℕ
switch_created max_items alloc cur e =
    if e.type == ev_fingerid
    then (if touch_event_get_next_item max_items cur then 0 else one_if alloc)
    else 0

-- The allocations of the loop.
unfoldable pub loop_created : ℕ → Bool → TouchEvent → List InputEvent → ℕ
unfolding switch_created
loop_created max_items alloc cur [] = 0
loop_created max_items alloc cur (e ∷ es) = elim (handle_input max_items alloc cur e) [
  | building cur' ↦ switch_created max_items alloc cur e + loop_created max_items alloc cur' es
  | generated g next ↦ switch_created max_items alloc cur e
  | aborted ↦ switch_created max_items alloc cur e
]

-- The allocations of a call from the event that is held on: one before the loop if none is held and there
-- is memory, and those of the loop.
unfoldable pub all_created : ℕ → Bool → Bool → Panel → Option TouchEvent → ℕ
unfolding loop_created
all_created max_items alloc alloc' p none =
    if alloc then 1 + loop_created max_items alloc' [] (pending p) else 0
all_created max_items alloc alloc' p (some cur) = loop_created max_items alloc' cur (pending p)

-- The events that a call of `touchpanel_get_event` allocates.
unfoldable pub call_created : ℕ → World → Poll → Bool → Bool → Panel → ℕ
unfolding all_created
call_created max_items w poll alloc alloc' p =
    let p' = rewind (begin_event w poll p) in all_created max_items alloc alloc' p' p'.current_event

-- What a client does; `restart` closes the module and opens it again.
pub data TouchAction : Type 0 where
  get : World → Poll → Bool → Bool → TouchAction
  release : TouchAction
  restart : StartAnswers → TouchAction

module _ {F : Type 0} (divide : ℤ → ℤ → F) (max_items : ℕ) where
  -- The module behind a call of `touchpanel_get_event` that has allocated `n` events.
  unfoldable pub with_touch_memory :
      ℕ → TouchMemory F → Option (Panel × Option TouchEvent) → Option (TouchMemory F)
  with_touch_memory n m none = none
  with_touch_memory n m (some (p, e)) =
      let t = m.touch in
      some (record m {
        touch = record t { panel = p };
        allocated = m.allocated + n;
        held = m.held + has e;
      })

  -- `nyx_module_close` releases the event of the device.
  unfoldable pub restarted : StartAnswers → TouchMemory F → TouchMemory F
  restarted a m =
      let t = m.touch in
      record m {
        touch = (nyx_module_open divide true a (nyx_module_close t).0).0;
        allocated = m.allocated - has t.panel.current_event;
      }

  -- A restart, by the fingers that are tracked at the closing: `deinit_gesture_state_machine` frees them and
  -- leaves `sFingers` pointing to them, so that with any of them nothing is defined from there on: `none`.
  unfoldable pub restart_with : List Finger → StartAnswers → TouchMemory F → Option (TouchMemory F)
  unfolding restarted
  restart_with [] a m = some (restarted a m)
  restart_with (f ∷ fs) a m = none

  -- One action. A client that holds no event does not release one.
  unfoldable pub touch_act : TouchAction → TouchMemory F → Option (TouchMemory F)
  unfolding with_touch_memory call_created restart_with
  touch_act (get w poll alloc alloc') m =
      with_touch_memory (call_created max_items w poll alloc alloc' m.touch.panel) m
        (touchpanel_get_event max_items w poll alloc alloc' m.touch.panel)
  touch_act release m =
      if m.held == 0
      then some m
      else some (record m { allocated = m.allocated - 1; held = m.held - 1 })
  touch_act (restart a) m = restart_with m.touch.panel.machine.fingers a m

  unfoldable pub touch_acts : List TouchAction → TouchMemory F → Option (TouchMemory F)
  unfolding touch_act
  touch_acts actions m = run touch_act actions m
