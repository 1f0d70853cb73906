-- ===== src/Touchpanel/Safety.antt =====
-- Memory safety: the event list of the module, its counters, and the items of a touch event.
use mathlib.Core.Path.{subst}
use mathlib.Core.Option.{some-injective}
use nyx_modules.Base.{
  ℕ, zero, suc, ◌+◌, ◌-◌, ◌*◌, ◌≤◌, ◌≡◌, refl, ap, Bool, true, false, ◌==◌, Bool-cases, if_elim,
  ◌⊎◌, inl, inr, List, [], ◌∷◌, arith, Option, none, some, length, take, drop,
}
use nyx_modules.Gestures.Types.{InputEvent}
use nyx_modules.Touchpanel.Items.{
  TouchEvent, Round, building, generated, aborted, handle_input, consume,
}
use nyx_modules.Touchpanel.Source.{Panel, event_size, World, Poll, read_input_event}
use nyx_modules.Touchpanel.Device.{
  begin_event, rewind, event_count, event_iter, pending, hold_event, after_loop, run_loop,
  touchpanel_get_event,
}
use nyx_modules.Touchpanel.Validity.{IsValid, read_input_event-IsValid}

flags-IsValid :
    (p : Panel) (r : Bool) (c : Option TouchEvent)
    → IsValid p
    → IsValid (record p { read_input = r; current_event = c })
unfolding event_count event_iter
flags-IsValid p r c v = record {
  machine = v.machine;
  room = v.room;
  array = v.array;
  filled = v.filled;
  read = v.read;
  inside = v.inside;
  limit = v.limit;
}

begin_event-IsValid :
    (w : World) (poll : Poll) (p : Panel) → IsValid p → IsValid (begin_event w poll p)
unfolding begin_event
begin_event-IsValid w poll p v =
    if_elim IsValid p.read_input v
      (flags-IsValid (read_input_event w poll p) true none (read_input_event-IsValid w poll p v))

rewind-IsValid : (p : Panel) → IsValid p → IsValid (rewind p)
unfolding rewind
rewind-IsValid p v = elim (Bool-cases (event_iter p == event_count p)) [
  | inl done ↦ rw done (flags-IsValid p false p.current_event v)
  | inr more ↦ rw more v
]

pub Round-cases :
    (r : Round)
    → ((c : TouchEvent) × (r ≡ building c))
      ⊎ (((g : TouchEvent) × (next : Option TouchEvent) × (r ≡ generated g next)) ⊎ (r ≡ aborted))
Round-cases (building c) = inl (c, refl)
Round-cases (generated g next) = inr (inl (g, next, refl))
Round-cases aborted = inr (inr refl)

-- The loop reads no more events than there are.
consume_limits :
    (max_items : ℕ) (alloc : Bool) (cur : TouchEvent) (n : ℕ) (es : List InputEvent)
    → (consume max_items alloc cur n es).0 ≤ n + length es
unfolding consume
consume_limits max_items alloc cur n [] = omega arith
consume_limits max_items alloc cur n (e ∷ es) =
    elim (Round-cases (handle_input max_items alloc cur e)) [
      | inl (c, h) ↦ rw (h, consume) (omega (arith, consume_limits max_items alloc c (n + 1) es))
      | inr (inl (g, next, h)) ↦ rw (h, consume) (omega arith)
      | inr (inr h) ↦ rw (h, consume) (omega arith)
    ]

length-take-le : (n : ℕ) (es : List InputEvent) → length (take n es) ≤ n
length-take-le zero es = omega arith
length-take-le (suc n) [] = omega arith
length-take-le (suc n) (e ∷ es) = omega (arith, length-take-le n es)

-- What the loop has read moves the counter, but not past what is filled.
advance-IsValid :
    (p : Panel) (n : ℕ) (c : Option TouchEvent)
    → n ≤ event_count p - event_iter p
    → IsValid p
    → let l = p.events in
      IsValid (record p {
        events = record l { input_read = l.input_read + n * event_size };
        current_event = c;
      })
unfolding event_count event_iter
advance-IsValid p n c h v = record {
  machine = v.machine;
  room = v.room;
  array = v.array;
  filled = v.filled;
  read = omega (arith, v.read);
  inside = omega (arith, v.read, v.filled, v.inside, h);
  limit = v.limit;
}

after_loop-IsValid :
    (p : Panel) (n : ℕ) (r : Round) {p' : Panel} {e : Option TouchEvent}
    → n ≤ event_count p - event_iter p
    → IsValid p
    → after_loop p (n, r) ≡ some (p', e)
    → IsValid p'
unfolding after_loop
after_loop-IsValid p n (building cur) h v eq =
    subst IsValid (ap (λ (q : Panel × Option TouchEvent). q.0) (some-injective _ _ eq))
      (advance-IsValid p n (some cur) h v)
after_loop-IsValid p n (generated g next) h v eq =
    subst IsValid (ap (λ (q : Panel × Option TouchEvent). q.0) (some-injective _ _ eq))
      (advance-IsValid p n next h v)
after_loop-IsValid p n aborted h v eq = cc

run_loop-IsValid :
    (max_items : ℕ) (alloc : Bool) (q : Panel) (o : Option TouchEvent) {p' : Panel}
    {e : Option TouchEvent}
    → IsValid q
    → run_loop max_items alloc q o ≡ some (p', e)
    → IsValid p'
unfolding run_loop pending
run_loop-IsValid max_items alloc q none v h = cc
run_loop-IsValid max_items alloc q (some cur) v h =
    let es = pending q in
    let r = consume max_items alloc cur 0 es in
    after_loop-IsValid q r.0 r.1
      (omega (
        arith,
        consume_limits max_items alloc cur 0 es,
        length-take-le (event_count q - event_iter q) (drop (event_iter q) q.events.input),
      ))
      v h

-- A call from a valid state that does not crash leaves the module valid: the finger machine keeps
-- its invariant, the event array keeps its size, and what has been read lies inside what is filled,
-- which lies inside the array.
pub get_event-IsValid :
    (max_items : ℕ) (w : World) (poll : Poll) (alloc alloc' : Bool) (p : Panel) {p' : Panel}
    {e : Option TouchEvent}
    → IsValid p
    → touchpanel_get_event max_items w poll alloc alloc' p ≡ some (p', e)
    → IsValid p'
unfolding touchpanel_get_event
get_event-IsValid max_items w poll alloc alloc' p v h =
    let q = rewind (begin_event w poll p) in
    run_loop-IsValid max_items alloc' q (hold_event alloc q.current_event)
      (rewind-IsValid (begin_event w poll p) (begin_event-IsValid w poll p v)) h
