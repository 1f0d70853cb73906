-- ===== src/Keys/Module/Reopened.antt =====
-- keys.c: what a module that is closed and opened again keeps, and what idle calls cost.
use nyx_modules.Base.{
  ℕ, zero, suc, ◌+◌, ℤ, pos, ltb_ℤ, Bool, true, false, All, List, [], ◌∷◌, ◌++◌, Option, none, some,
  map, length, replicate, ◌≡◌, refl, sym, ap, ◌∙◌, arith,
}
use mathlib.Core.List.{append_assoc, append-nil}
use nyx_modules.Runs.{run, run-step}
use nyx_modules.Keys.Device.{
  KeyEvent, Keys, Poll, no_input, pending, refill, refill_from, read_input_event, take_from,
  take_key, find_key, hand_out, next_iter, keys_get_event,
}
use nyx_modules.Keys.Pending.{IsValid, left}
use nyx_modules.Keys.Stream.{calls, calls_lem}
use nyx_modules.Keys.Module.{
  KeysModule, KeysAction, get, restart, act, acts, get_event, with_memory, event_created,
  close_module, open_module, init_keypad,
}

-- The module after it has been closed and opened again.
abbrev pub reopened : Option ℤ → KeysModule → KeysModule
reopened answer m = (open_module true answer (close_module true m).0).0

-- The variables of `keys_get_event` are static.
reopened_lem :
    (answer : Option ℤ) (m : KeysModule)
    → (reopened answer m).keys ≡ (let k = m.keys in record k { current = false })
unfolding close_module open_module init_keypad
reopened_lem none m = ground arith
reopened_lem (some fd) m = ground arith

IsValid-current : (k : Keys) (current : Bool) → IsValid k → IsValid (record k { current = current })
IsValid-current k current v = record {
  count = v.count;
  counted = v.counted;
  memory = v.memory;
  inside = v.inside;
}

-- Keys that have been read and not handed out when the module is closed are handed out, all of them
-- and in order, by the first calls after it has been opened again, whatever could be polled meanwhile.
pub stale_lem :
    (answer : Option ℤ) (m : KeysModule) (ps : List Poll) (ks : List KeyEvent)
    → IsValid m.keys
    → left m.keys ≡ ks
    → length ps ≡ length ks
    → (k : Keys) × (calls ps (reopened answer m).keys ≡ some (k, map some ks))
stale_lem answer m ps ks v h n =
    let k = m.keys in
    let fresh = record k { current = false } in
    let same : left fresh ≡ ks = unfold pending in h in
    let (k', run, v', done) = calls_lem ps fresh ks (IsValid-current k false v) same n in
    (k', rw (reopened_lem answer m) run)

reopened-descriptors :
    (fd : ℤ) (m : KeysModule)
    → ltb_ℤ fd (pos 0) ≡ false
    → (reopened (some fd) m).descriptors ≡ m.descriptors ++ (fd ∷ [])
unfolding close_module open_module init_keypad
reopened-descriptors fd m h = ground arith

-- However often the module is closed and opened again, each descriptor that it has opened stays open.
pub descriptors_lem :
    (fds : List ℤ) (m : KeysModule)
    → All (λ (fd : ℤ). ltb_ℤ fd (pos 0) ≡ false) fds
    → (m' : KeysModule) × (acts (map (λ (fd : ℤ). restart (some fd)) fds) m ≡ some m')
      × (m'.descriptors ≡ m.descriptors ++ fds)
unfolding acts run act
descriptors_lem [] m h = (m, refl, sym (append-nil m.descriptors))
descriptors_lem (fd ∷ fds) m h =
    let (m', run, more) = descriptors_lem fds (reopened (some fd) m) h.1 in
    (
      m',
      run,
      more
          ∙ ap (λ (l : List ℤ). l ++ fds) (reopened-descriptors fd m h.0)
          ∙ append_assoc m.descriptors (fd ∷ []) fds,
    )

-- The module after a call that polls no input.
abbrev idle : KeysModule → KeysModule
idle m =
    let k = m.keys in
    record m {
      keys = record k { raw_events = []; event_count = pos 0; event_iter = 0; current = true };
      allocated = m.allocated + 1;
      held = m.held + 0;
    }

idle_step : (m : KeysModule) → m.keys.event_iter ≡ 0 → act (get true no_input) m ≡ some (idle m)
unfolding act get_event with_memory event_created keys_get_event refill refill_from read_input_event
    take_from take_key find_key hand_out next_iter pending
idle_step m h = rw h refl

acts-step :
    (a : KeysAction) (rest : List KeysAction) (m m1 : KeysModule)
    → act a m ≡ some m1
    → acts (a ∷ rest) m ≡ acts rest m1
unfolding acts
acts-step a rest m m1 e = run-step act a rest m m1 e

-- From the start of the list, each call that polls no input allocates one more event; the device holds
-- the last one of them, the client none.
pub idle_lem :
    (n : ℕ) (m : KeysModule)
    → m.keys.event_iter ≡ 0
    → (m' : KeysModule) × (acts (replicate (suc n) (get true no_input)) m ≡ some m')
      × (m'.allocated ≡ m.allocated + suc n)
      × (m'.held ≡ m.held)
      × (m'.keys.current ≡ true)
idle_lem zero m h = (
  idle m,
  acts-step (get true no_input) [] m (idle m) (idle_step m h) ∙ (unfold acts run in refl),
  omega arith,
  omega arith,
  refl,
)
idle_lem (suc n) m h =
    let (m', run, allocated, held, current) = idle_lem n (idle m) refl in
    (
      m',
      acts-step (get true no_input) (replicate (suc n) (get true no_input)) m (idle m)
            (idle_step m h)
          ∙ run,
      omega (arith, allocated),
      omega (arith, held),
      current,
    )
