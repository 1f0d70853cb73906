-- ===== src/Touchpanel/Limits.antt =====
-- A touch event never has more items than its array holds, and a call returns while memory lasts.
use nyx_modules.Base.{
  ℕ, suc, ◌+◌, ◌≤◌, ◌<◌, ◌≡◌, refl, ap, true, ltb, ◌==◌, Bool-cases, if_elim, inl, inr, List, [],
  ◌∷◌, arith, Option, none, some, length, length-append,
}
use nyx_modules.Gestures.Types.{InputEvent, ev_fingerid, ev_abs, ev_key, ev_syn}
use nyx_modules.Touchpanel.Items.{
  TouchEvent, TouchItem, Round, building, generated, aborted, handle_input, new_item,
  with_current_item, abs_item, key_item, consume,
}
use nyx_modules.Touchpanel.Source.{Panel, World, Poll}
use nyx_modules.Touchpanel.Device.{
  begin_event, rewind, event_count, event_iter, pending, hold_event, after_loop, run_loop,
  touchpanel_get_event,
}
use nyx_modules.Touchpanel.Safety.{Round-cases}

-- An event, if there is one, fits its array.
abbrev pub IsSmall : ℕ → Option TouchEvent → Type 0
IsSmall max_items none = Unit
IsSmall max_items (some c) = length c ≤ max_items

-- A round that has not aborted, with no event over its limit.
abbrev Fits : ℕ → Round → Type 0
Fits max_items (building c) = IsSmall max_items (some c)
Fits max_items (generated g next) = IsSmall max_items (some g) × IsSmall max_items next
Fits max_items aborted = ⊥

length-with_current_item :
    (g : TouchItem → TouchItem) (is : TouchEvent) → length (with_current_item g is) ≡ length is
unfolding with_current_item
length-with_current_item g [] = refl
length-with_current_item g (i ∷ []) = refl
length-with_current_item g (i ∷ j ∷ is) = ap suc (length-with_current_item g (j ∷ is))

handle_input-Fits :
    (max_items : ℕ) (cur : TouchEvent) (e : InputEvent)
    → 0 < max_items
    → length cur ≤ max_items
    → Fits max_items (handle_input max_items true cur e)
unfolding handle_input
handle_input-Fits max_items cur e p h =
    if_elim (Fits max_items) (e.type == ev_fingerid)
      (elim (Bool-cases (ltb (length cur) max_items)) [
        | inl room ↦ rw room (rw (length-append cur (new_item e ∷ [])) (ground arith))
        | inr full ↦ rw full (h, omega arith)
      ])
      (if_elim (Fits max_items) (e.type == ev_abs)
        (rw (length-with_current_item (abs_item e) cur) h)
        (if_elim (Fits max_items) (e.type == ev_key)
          (rw (length-with_current_item (key_item e) cur) h)
          (if_elim (Fits max_items) (e.type == ev_syn) (h, tt) h)))

consume-Fits :
    (max_items : ℕ) (cur : TouchEvent) (n : ℕ) (es : List InputEvent)
    → 0 < max_items
    → length cur ≤ max_items
    → Fits max_items (consume max_items true cur n es).1
unfolding consume
consume-Fits max_items cur n [] p h = h
consume-Fits max_items cur n (e ∷ es) p h =
    let f = handle_input-Fits max_items cur e p h in
    elim (Round-cases (handle_input max_items true cur e)) [
      | inl (c, eq) ↦ rw (eq, consume) (consume-Fits max_items c (n + 1) es p (rw eq at f))
      | inr (inl (g, next, eq)) ↦ rw (eq, consume) (rw eq at f)
      | inr (inr eq) ↦ absurd (rw eq at f)
    ]

-- A call returns, and neither the event that it hands out nor the one that it holds is over the
-- limit.
abbrev pub Returns : ℕ → Option (Panel × Option TouchEvent) → Type 0
Returns max_items none = ⊥
Returns max_items (some (p, g)) = IsSmall max_items g × IsSmall max_items p.current_event

after_loop-Returns :
    (max_items : ℕ) (p : Panel) (n : ℕ) (r : Round)
    → Fits max_items r
    → Returns max_items (after_loop p (n, r))
unfolding after_loop
after_loop-Returns max_items p n (building c) f = (tt, f)
after_loop-Returns max_items p n (generated g next) f = f
after_loop-Returns max_items p n aborted f = absurd f

run_loop-Returns :
    (max_items : ℕ) (p : Panel) (o : Option TouchEvent)
    → 0 < max_items
    → IsSmall max_items o
    → Returns max_items (run_loop max_items true p (hold_event true o))
unfolding run_loop hold_event
run_loop-Returns max_items p none h small =
    let r = consume max_items true [] 0 (pending p) in
    after_loop-Returns max_items p r.0 r.1 (consume-Fits max_items [] 0 (pending p) h (omega arith))
run_loop-Returns max_items p (some cur) h small =
    let r = consume max_items true cur 0 (pending p) in
    after_loop-Returns max_items p r.0 r.1 (consume-Fits max_items cur 0 (pending p) h small)

-- While memory lasts, with room for at least one item in an event and no event held that is over
-- the limit, a call always returns, whatever is polled, and neither the event that it hands out nor
-- the one that it keeps has more items than its array holds.
pub get_event-Returns :
    (max_items : ℕ) (w : World) (poll : Poll) (p : Panel)
    → 0 < max_items
    → IsSmall max_items p.current_event
    → Returns max_items (touchpanel_get_event max_items w poll true true p)
unfolding touchpanel_get_event rewind begin_event
get_event-Returns max_items w poll p h small =
    let q = begin_event w poll p in
    let begun : IsSmall max_items q.current_event =
      if_elim (λ (x : Panel). IsSmall max_items x.current_event) p.read_input small tt in
    run_loop-Returns max_items (rewind q) (rewind q).current_event h (
      if_elim (λ (x : Panel). IsSmall max_items x.current_event) (event_iter q == event_count q)
        begun begun)
