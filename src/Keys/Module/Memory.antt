-- ===== src/Keys/Module/Memory.antt =====
-- keys.c: the account of the key events that are allocated.
use nyx_modules.Base.{
  one_if, ℕ, ◌+◌, ℤ, Bool, true, false, ◌&&◌, ◌==◌, Bool-cases, Option-cases, List, Option, none,
  some, ◌≡◌, refl, sym, ◌∙◌, inl, inr, arith,
}
use mathlib.Core.Path.{subst}
use mathlib.Core.Option.{none-ne-some, some-injective}
use nyx_modules.Runs.{total, run-keeps}
use nyx_modules.Keys.Device.{
  KeyEvent, Keys, Poll, refill, refill_from, read_input_event, find_key, pending, next_iter,
  hand_out, take_key, take_from, keys_get_event,
}
use nyx_modules.Keys.Module.{
  KeysModule, event_created, handed, with_memory, get_event, KeysAction, get, release, restart, act,
  acts, state_of, release_event, open_module, close_module, init_keypad,
}

-- The event that a call forgets: it reads, and the device held one.
unfoldable pub forgotten : Keys → ℕ
forgotten k = one_if (k.event_iter == 0 && k.current)

hand_out_lem :
    (held : Bool) (k k' : Keys) (o e : Option KeyEvent)
    → k.current ≡ held
    → hand_out held k o ≡ some (k', e)
    → one_if k'.current + handed e ≡ one_if held
unfolding hand_out
hand_out_lem held k k' none e c h = ground arith
hand_out_lem true k k' (some o) e c h = ground arith
hand_out_lem false k k' (some o) e c h = cc

take_key_lem :
    (held : Bool) (k k' : Keys) (e : Option KeyEvent)
    → take_key held k ≡ some (k', e)
    → one_if k'.current + handed e ≡ one_if held
unfolding take_key
take_key_lem held k k' e h =
    let r = find_key k.event_iter (pending k) in
    hand_out_lem held (record k { event_iter = next_iter k r.0; current = held }) k' r.1 e refl h

take_from_lem :
    (alloc : Bool) (k k' : Keys) (e : Option KeyEvent)
    → take_from alloc (some k) ≡ some (k', e)
    → one_if k'.current + handed e ≡ one_if k.current + event_created alloc (some k)
unfolding take_from event_created
take_from_lem alloc k k' e h = elim (Bool-cases k.current) [
  | inl c ↦ ground (arith, take_key_lem true k k' e)
  | inr c ↦ ground (arith, take_key_lem alloc k k' e)
]

-- The reading forgets the event that the device holds.
refill_lem :
    (poll : Poll) (k k' : Keys)
    → refill poll k ≡ some k'
    → one_if k'.current + forgotten k ≡ one_if k.current
unfolding refill refill_from forgotten
refill_lem poll k k' h = elim (Bool-cases (k.event_iter == 0)) [
  | inr later ↦ ground arith
  | inl start ↦ elim (Option-cases (read_input_event poll)) [
    | inl stuck ↦ absurd (none-ne-some _ (rw (start, stuck) at h))
    | inr ((n, es), read) ↦
        let h' : refill_from k (some (n, es)) ≡ some k' = rw (start, read) at h in ground arith
  ]
]

-- A call keeps the account of the events of the device.
get_event_lem :
    (alloc : Bool) (poll : Poll) (k k' : Keys) (e : Option KeyEvent)
    → keys_get_event alloc poll k ≡ some (k', e)
    → one_if k'.current + handed e + forgotten k
      ≡ one_if k.current + event_created alloc (refill poll k)
unfolding keys_get_event
get_event_lem alloc poll k k' e h = elim (Option-cases (refill poll k)) [
  | inl stuck ↦ absurd (none-ne-some _ (unfold take_from in rw stuck at h))
  | inr (k1, read) ↦
      let taken = take_from_lem alloc k1 k' e (rw read at h) in
      rw read (omega (arith, taken, refill_lem poll k k1 read))
]

-- What an action forgets.
abbrev pub forgets : KeysAction → KeysModule → ℕ
forgets (get alloc poll) m = forgotten m.keys
forgets release m = 0
forgets (restart answer) m = 0

-- The events of an account: those of the client and of the device, and those that are forgotten.
abbrev pub account : KeysModule → ℕ → ℕ
account m lost = m.held + one_if m.keys.current + lost

close_lem :
    (m : KeysModule) (lost : ℕ)
    → m.allocated ≡ account m lost
    → (close_module true m).0.allocated ≡ account (close_module true m).0 lost
unfolding close_module
close_lem m lost h = ground arith

open_lem :
    (answer : Option ℤ) (m : KeysModule)
    → ((open_module true answer m).0.allocated ≡ m.allocated)
      × ((open_module true answer m).0.held ≡ m.held)
      × ((open_module true answer m).0.keys.current ≡ false)
unfolding open_module init_keypad
open_lem none m = (refl, refl, refl)
open_lem (some fd) m = (ground arith, ground arith, ground arith)

close_current : (m : KeysModule) → (close_module true m).0.keys.current ≡ false
unfolding close_module
close_current m = ground arith

restart_lem :
    (answer : Option ℤ) (m : KeysModule) (lost : ℕ)
    → m.allocated ≡ account m lost
    → (open_module true answer (close_module true m).0).0.allocated
      ≡ account (open_module true answer (close_module true m).0).0 (lost + 0)
restart_lem answer m lost h =
    let (a, held, current) = open_lem answer (close_module true m).0 in
    let closed = close_lem m lost h in
    let c = close_current m in rw (a, held, current) (closed ∙ rw c (omega arith))

release_lem :
    (m : KeysModule) (lost : ℕ)
    → m.allocated ≡ account m lost
    → (m.held == 0) ≡ false
    → (release_event true true m).0.allocated ≡ account (release_event true true m).0 (lost + 0)
unfolding release_event
release_lem m lost h some_held = ground arith

get_lem :
    (alloc : Bool) (poll : Poll) (m : KeysModule) (k : Keys) (e : Option KeyEvent) (lost : ℕ)
    → m.allocated ≡ account m lost
    → keys_get_event alloc poll m.keys ≡ some (k, e)
    → m.allocated + event_created alloc (refill poll m.keys)
      ≡ m.held + handed e + one_if k.current + (lost + forgotten m.keys)
get_lem alloc poll m k e lost h run = omega (arith, h, get_event_lem alloc poll m.keys k e run)

act_lem :
    (a : KeysAction) (m m' : KeysModule) (lost : ℕ)
    → m.allocated ≡ account m lost
    → act a m ≡ some m'
    → m'.allocated ≡ account m' (lost + forgets a m)
unfolding act
act_lem (restart answer) m m' lost h e =
    subst (λ (m : KeysModule). m.allocated ≡ account m (lost + 0)) (some-injective _ _ e)
      (restart_lem answer m lost h)
act_lem release m m' lost h e = elim (Bool-cases (m.held == 0)) [
  | inl nothing ↦
      subst (λ (m : KeysModule). m.allocated ≡ account m (lost + 0))
        (some-injective _ _ (rw nothing at e)) (omega (arith, h))
  | inr some_held ↦
      subst (λ (m : KeysModule). m.allocated ≡ account m (lost + 0))
        (some-injective _ _ (rw some_held at e)) (release_lem m lost h some_held)
]
act_lem (get alloc poll) m m' lost h e = elim (Option-cases (keys_get_event alloc poll m.keys)) [
  | inl stuck ↦ absurd (none-ne-some _ (unfold get_event with_memory in rw stuck at e))
  | inr ((k, event), run) ↦
      let after = record m {
        keys = k;
        allocated = m.allocated + event_created alloc (refill poll m.keys);
        held = m.held + handed event;
      } in
      let same : state_of (get_event alloc poll m) ≡ some after =
        unfold get_event with_memory in rw run refl in
      subst (λ (m' : KeysModule). m'.allocated ≡ account m' (lost + forgotten m.keys))
        (some-injective _ _ (sym same ∙ e)) (get_lem alloc poll m k event lost h run)
]

-- What a sequence of actions forgets.
unfoldable pub all_forgotten : List KeysAction → KeysModule → ℕ
all_forgotten actions m = total act forgets actions m

-- Whatever a client does with the module, as long as the calls come back: the key events that are
-- allocated are at every time those that the client holds, the one that the device holds, if any, and
-- one for each call that has read while the device held one, which nothing can release any more.
pub account_lem :
    (actions : List KeysAction) (m m' : KeysModule) (lost : ℕ)
    → m.allocated ≡ account m lost
    → acts actions m ≡ some m'
    → m'.allocated ≡ account m' (lost + all_forgotten actions m)
unfolding acts all_forgotten
account_lem actions m m' lost h e =
    run-keeps act forgets (λ m n. m.allocated ≡ account m n)
      (λ a m m' n h one. act_lem a m m' n h one) actions m m' lost h e
