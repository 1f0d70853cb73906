-- ===== src/Touchpanel/Memory/Account.antt =====
-- touchpanel.c: the account of the touch events that are allocated.
use nyx_modules.Base.{
  ℕ, ◌+◌, ℤ, Bool, true, false, ◌==◌, ltb, Bool-cases, if_elim, List, [], ◌∷◌, Option, none, some,
  ◌≡◌, refl, inl, inr, arith, if◌then◌else◌, length, Option-cases,
}
use mathlib.Core.Path.{subst}
use mathlib.Core.Option.{none-ne-some, some-injective}
use nyx_modules.Runs.{total, run-keeps}
use nyx_modules.Gestures.Finger.{Finger}
use nyx_modules.Gestures.Types.{InputEvent, ev_fingerid, ev_abs, ev_key, ev_syn}
use nyx_modules.Touchpanel.Items.{
  TouchEvent, Round, building, generated, aborted, handle_input, consume, touch_event_create,
  overflow,
}
use nyx_modules.Touchpanel.Source.{Panel, World, Poll}
use nyx_modules.Touchpanel.Device.{
  begin_event, rewind, event_count, event_iter, pending, hold_event, after_loop, run_loop,
  touchpanel_get_event,
}
use nyx_modules.Touchpanel.Safety.{Round-cases}
use nyx_modules.Touchpanel.Memory.Restart.{restart-current}
use nyx_modules.Touchpanel.Start.{StartAnswers}
use nyx_modules.Touchpanel.Memory.{
  TouchMemory, has, switch_created, loop_created, all_created, call_created, TouchAction, get,
  release, restart, with_touch_memory, restarted, restart_with, touch_act, touch_acts,
}

-- A round that has not aborted, with what it has allocated: one event if it is the one that is left.
abbrev Balanced : Round → ℕ → Type 0
Balanced (building c) n = n ≡ 0
Balanced (generated g next) n = n ≡ has next
Balanced aborted n = Unit

handle_input-Balanced :
    (max_items : ℕ) (alloc : Bool) (cur : TouchEvent) (e : InputEvent)
    → Balanced (handle_input max_items alloc cur e) (switch_created max_items alloc cur e)
unfolding handle_input switch_created
handle_input-Balanced max_items alloc cur e = elim (Bool-cases (e.type == ev_fingerid)) [
  | inl finger ↦ elim (Bool-cases (ltb (length cur) max_items)) [
    | inl room ↦ rw (finger, room) refl
    | inr full ↦ elim (Bool-cases alloc) [
      | inl memory ↦ rw (finger, full, memory) (unfold touch_event_create overflow in refl)
      | inr out ↦ rw (finger, full, out) (unfold touch_event_create overflow in tt)
    ]
  ]
  | inr other ↦ rw other (
      if_elim (λ (r : Round). Balanced r 0) (e.type == ev_abs) refl
        (if_elim (λ (r : Round). Balanced r 0) (e.type == ev_key) refl
          (if_elim (λ (r : Round). Balanced r 0) (e.type == ev_syn) refl refl)))
]

zero_add : (n : ℕ) → 0 + n ≡ n
zero_add n = omega arith

consume-Balanced :
    (max_items : ℕ) (alloc : Bool) (cur : TouchEvent) (n : ℕ) (es : List InputEvent)
    → Balanced (consume max_items alloc cur n es).1 (loop_created max_items alloc cur es)
unfolding consume loop_created
consume-Balanced max_items alloc cur n [] = refl
consume-Balanced max_items alloc cur n (e ∷ es) =
    let b = handle_input-Balanced max_items alloc cur e in
    elim (Round-cases (handle_input max_items alloc cur e)) [
      | inl (c, eq) ↦
          rw (eq, consume, loop_created, rw eq at b)
            (rw (zero_add _) (consume-Balanced max_items alloc c (n + 1) es))
      | inr (inl (g, next, eq)) ↦ rw (eq, consume, loop_created) (rw eq at b)
      | inr (inr eq) ↦ rw (eq, consume, loop_created) tt
    ]

after_loop_lem :
    (p p' : Panel) (e : Option TouchEvent) (n m : ℕ) (r : Round)
    → Balanced r m
    → after_loop p (n, r) ≡ some (p', e)
    → has p'.current_event + has e ≡ 1 + m
unfolding after_loop
after_loop_lem p p' e n m (building c) b h =
    subst (λ (x : Panel × Option TouchEvent). has x.0.current_event + has x.1 ≡ 1 + m)
      (some-injective _ _ h) (omega (arith, b))
after_loop_lem p p' e n m (generated g next) b h =
    subst (λ (x : Panel × Option TouchEvent). has x.0.current_event + has x.1 ≡ 1 + m)
      (some-injective _ _ h) (omega (arith, b))
after_loop_lem p p' e n m aborted b h = absurd (none-ne-some _ h)

run_loop_lem :
    (max_items : ℕ) (alloc alloc' : Bool) (p p' : Panel) (o e : Option TouchEvent)
    → run_loop max_items alloc' p (hold_event alloc o) ≡ some (p', e)
    → has p'.current_event + has e ≡ has o + all_created max_items alloc alloc' p o
unfolding run_loop hold_event touch_event_create all_created
run_loop_lem max_items alloc alloc' p p' (some cur) e h =
    after_loop_lem p p' e _ _ _ (consume-Balanced max_items alloc' cur 0 (pending p)) h
run_loop_lem max_items true alloc' p p' none e h =
    let b = consume-Balanced max_items alloc' [] 0 (pending p) in
    omega (arith, after_loop_lem p p' e _ _ _ b h)
run_loop_lem max_items false alloc' p p' none e h = absurd (none-ne-some _ h)

-- The event that a call forgets: it reads, and the device held one.
unfoldable pub forgotten : Panel → ℕ
forgotten p = if p.read_input then 0 else has p.current_event

rewind-current : (p : Panel) → (rewind p).current_event ≡ p.current_event
unfolding rewind
rewind-current p =
    if_elim (λ (x : Panel). x.current_event ≡ p.current_event) (event_iter p == event_count p) refl
      refl

begin_lem :
    (w : World) (poll : Poll) (p : Panel)
    → has (rewind (begin_event w poll p)).current_event + forgotten p ≡ has p.current_event
unfolding begin_event forgotten
begin_lem w poll p = rw (rewind-current (begin_event w poll p)) (elim (Bool-cases p.read_input) [
  | inl more ↦ simp more (omega arith)
  | inr reads ↦ simp reads (omega arith)
])

-- A call keeps the account of the events of the device.
get_event_lem :
    (max_items : ℕ) (w : World) (poll : Poll) (alloc alloc' : Bool) (p p' : Panel)
    (e : Option TouchEvent)
    → touchpanel_get_event max_items w poll alloc alloc' p ≡ some (p', e)
    → has p'.current_event + has e + forgotten p
      ≡ has p.current_event + call_created max_items w poll alloc alloc' p
unfolding touchpanel_get_event call_created
get_event_lem max_items w poll alloc alloc' p p' e h =
    let q = rewind (begin_event w poll p) in
    omega (arith, run_loop_lem max_items alloc alloc' q p' q.current_event e h, begin_lem w poll p)

-- What an action forgets.
unfoldable pub forgets : {F : Type 0} → TouchAction → TouchMemory F → ℕ
unfolding forgotten
forgets (get w poll alloc alloc') m = forgotten m.touch.panel
forgets release m = 0
forgets (restart a) m = 0

-- The events of an account: those of the client and of the device, and those that are forgotten.
abbrev pub account : {F : Type 0} → TouchMemory F → ℕ → ℕ
account m lost = m.held + has m.touch.panel.current_event + lost

module _ {F : Type 0} (divide : ℤ → ℤ → F) (max_items : ℕ) where
  restart_lem :
      (fingers : List Finger) (a : StartAnswers) (m m' : TouchMemory F) (lost : ℕ)
      → m.allocated ≡ account m lost
      → restart_with divide max_items fingers a m ≡ some m'
      → m'.allocated ≡ account m' (lost + 0)
  unfolding restart_with restarted
  restart_lem (f ∷ fs) a m m' lost h e = absurd (none-ne-some _ e)
  restart_lem [] a m m' lost h e =
      subst (λ (m : TouchMemory F). m.allocated ≡ account m (lost + 0)) (some-injective _ _ e)
        (rw (restart-current divide a m.touch) (omega (arith, h)))

  touch_act_lem :
      (a : TouchAction) (m m' : TouchMemory F) (lost : ℕ)
      → m.allocated ≡ account m lost
      → touch_act divide max_items a m ≡ some m'
      → m'.allocated ≡ account m' (lost + forgets a m)
  unfolding touch_act with_touch_memory forgets
  touch_act_lem (restart a) m m' lost h e =
      restart_lem m.touch.panel.machine.fingers a m m' lost h e
  touch_act_lem release m m' lost h e = elim (Bool-cases (m.held == 0)) [
    | inl nothing ↦
        subst (λ (m : TouchMemory F). m.allocated ≡ account m (lost + 0))
          (some-injective _ _ (rw nothing at e)) (omega (arith, h))
    | inr some_held ↦
        subst (λ (m : TouchMemory F). m.allocated ≡ account m (lost + 0))
          (some-injective _ _ (rw some_held at e)) (ground arith)
  ]
  touch_act_lem (get w poll alloc alloc') m m' lost h e =
      elim (Option-cases (touchpanel_get_event max_items w poll alloc alloc' m.touch.panel)) [
        | inl stuck ↦ absurd (none-ne-some _ (rw stuck at e))
        | inr ((p, event), run) ↦
            let kept = get_event_lem max_items w poll alloc alloc' m.touch.panel p event run in
            subst
              (λ (m' : TouchMemory F). m'.allocated ≡ account m' (lost + forgotten m.touch.panel))
              (some-injective _ _ (rw run at e)) (omega (arith, h, kept))
      ]

  -- What a sequence of actions forgets.
  unfoldable pub all_forgotten : List TouchAction → TouchMemory F → ℕ
  all_forgotten actions m = total (touch_act divide max_items) forgets actions m

  -- Whatever a client does with the module, as long as the calls come back and no finger is tracked when it
  -- is closed: the touch events that are allocated are at every time those that the client holds, the one that the device holds, if any, and
  -- one for each call that has read while the device held one, which nothing can release any more.
  pub touch_account :
      (actions : List TouchAction) (m m' : TouchMemory F) (lost : ℕ)
      → m.allocated ≡ account m lost
      → touch_acts divide max_items actions m ≡ some m'
      → m'.allocated ≡ account m' (lost + all_forgotten actions m)
  unfolding touch_acts all_forgotten
  touch_account actions m m' lost h e =
      run-keeps (touch_act divide max_items) forgets (λ m n. m.allocated ≡ account m n)
        (λ a m m' n h one. touch_act_lem a m m' n h one) actions m m' lost h e
