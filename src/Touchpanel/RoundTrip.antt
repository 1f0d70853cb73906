-- ===== src/Touchpanel/RoundTrip.antt =====
-- What the gesture state machine reports of its fingers is what the client reads in a touch event.
use mathlib.Core.List.{append_assoc, append-nil, map-append}
use native.Mathlib.Nat.{add-zero}
use nyx_modules.Base.{
  ℕ, ◌+◌, ◌≤◌, ◌<◌, ◌≡◌, refl, sym, ap, ap₂, ◌∙◌, ℤ, pos, ◌+ℤ◌, scale_ℤ, signed32, Bool, true,
  false, ltb, if◌then◌else◌, inl, inr, List, [], ◌∷◌, ◌++◌, map, arith, none, All, length,
  length-append,
}
use nyx_modules.Gestures.Types.{
  InputEvent, ev_syn, ev_key, ev_abs, abs_x, abs_y, btn_touch, ev_fingerid,
}
use nyx_modules.Gestures.CoordBuf.{get_last_coords}
use nyx_modules.Gestures.Finger.{
  Finger, GestureState, start, unused, finger_down, finger_down_after_quick_launch,
}
use nyx_modules.Gestures.Finger.Report.{Signal, signal, press, report}
use nyx_modules.Gestures.Machine.Events.{reports}
use nyx_modules.Touchpanel.Items.{
  undefined, TouchEvent, new_item, touch_item_reset, Round, generated, consume,
}
use nyx_modules.Touchpanel.Decode.{
  read_item, readings, touch_state, finger_reading, uncons, on_id, on_syn, consume_building,
  consume_generated, update_all, IsUpdate, advance,
}

-- The signals of a report behind the id.
abbrev tail_signals : Finger → List Signal
tail_signals f =
    let last = get_last_coords f.coords in
    press f.state.state
    ++ ((ev_abs, abs_x, last.x)
        ∷ (ev_abs, abs_y, last.y)
        ∷ (if ltb 0 f.min_dist then (ev_key, btn_touch, pos 0) ∷ [] else []))

updates_of :
    (st : GestureState) (b : Bool) (x y : ℤ)
    → All IsUpdate (
        press st
        ++ ((ev_abs, abs_x, x)
            ∷ (ev_abs, abs_y, y)
            ∷ (if b then (ev_key, btn_touch, pos 0) ∷ [] else [])))
updates_of start true x y = (inr refl, (inl refl, (inl refl, (inr refl, tt))))
updates_of start false x y = (inr refl, (inl refl, (inl refl, tt)))
updates_of finger_down true x y = (inl refl, (inl refl, (inr refl, tt)))
updates_of finger_down false x y = (inl refl, (inl refl, tt))
updates_of finger_down_after_quick_launch true x y = (inl refl, (inl refl, (inr refl, tt)))
updates_of finger_down_after_quick_launch false x y = (inl refl, (inl refl, tt))
updates_of unused true x y = (inl refl, (inl refl, (inr refl, tt)))
updates_of unused false x y = (inl refl, (inl refl, tt))

update_all_tail :
    (st : GestureState) (b : Bool) (x y z : ℤ)
    → update_all
        (press st
          ++ ((ev_abs, abs_x, x)
              ∷ (ev_abs, abs_y, y)
              ∷ (if b then (ev_key, btn_touch, pos 0) ∷ [] else [])))
        (record { finger = z; state = undefined; x = pos 0; y = pos 0 })
      ≡ record { finger = z; state = touch_state st b; x = x; y = y }
update_all_tail start true x y z = refl
update_all_tail start false x y z = refl
update_all_tail finger_down true x y z = refl
update_all_tail finger_down false x y z = refl
update_all_tail finger_down_after_quick_launch true x y z = refl
update_all_tail finger_down_after_quick_launch false x y z = refl
update_all_tail unused true x y z = refl
update_all_tail unused false x y z = refl

read-new_item :
    (e : InputEvent) (v : ℤ)
    → e.code ≡ 0
    → e.value ≡ v
    → read_item (new_item e)
      ≡ record { finger = scale_ℤ 1000 v +ℤ pos 0; state = undefined; x = pos 0; y = pos 0 }
unfolding new_item touch_item_reset
read-new_item e v c h =
    ap₂
      (λ (k : ℕ) (w : ℤ). record {
        finger = scale_ℤ 1000 w +ℤ pos k;
        state = undefined;
        x = pos 0;
        y = pos 0;
      })
      c h

module _ (max_items : ℕ) (alloc : Bool) where
  -- The loop reads the reports of `fs`, and appends their items.
  record Reads (cur : TouchEvent) (es : List InputEvent) (fs : List Finger) (rest : List Signal)
      : Type 0 where
    es' : List InputEvent
    cur' : TouchEvent
    steps :
        (n : ℕ)
        → consume max_items alloc cur n es
          ≡ consume max_items alloc cur' (n + length (reports fs)) es'
    left : map signal es' ≡ rest
    reads : readings cur' ≡ readings cur ++ map finger_reading fs
    more : length cur' ≡ length cur + length fs

  read_report :
      (cur : TouchEvent) (f : Finger) (es : List InputEvent) (rest : List Signal)
      → length cur < max_items
      → map signal es ≡ report f ++ rest
      → Reads cur es (f ∷ []) rest
  unfolding report reports
  read_report cur f es rest room h =
      let last = get_last_coords f.coords in
      let (e, r, eq, et, ec, ev, left) =
        uncons es (ev_fingerid, 0, signed32 f.id) (tail_signals f ++ rest) h in
      let a =
        advance max_items alloc cur (tail_signals f) (new_item e) r rest
          (updates_of f.state.state (ltb 0 f.min_dist) last.x last.y) left in
      record {
        es' = a.es';
        cur' = cur ++ (a.i' ∷ []);
        steps = λ n.
            rw eq (consume_building max_items alloc _ _ n e r (on_id max_items alloc cur e et room))
            ∙ a.steps (n + 1)
            ∙ ap (λ k. consume max_items alloc (cur ++ (a.i' ∷ [])) k a.es')
                (rw append-nil (omega arith));
        left = a.left;
        reads =
            map-append read_item cur (a.i' ∷ [])
            ∙ ap (λ q. readings cur ++ (q ∷ []))
                (a.reads
                  ∙ ap (update_all (tail_signals f)) (read-new_item e (signed32 f.id) ec ev)
                  ∙ update_all_tail f.state.state (ltb 0 f.min_dist) last.x last.y _);
        more = length-append cur (a.i' ∷ []);
      }

  read_reports :
      (fs : List Finger) (cur : TouchEvent) (es : List InputEvent) (rest : List Signal)
      → length cur + length fs ≤ max_items
      → map signal es ≡ reports fs ++ rest
      → Reads cur es fs rest
  unfolding reports
  read_reports [] cur es rest room h = record {
    es' = es;
    cur' = cur;
    steps = λ n. rw add-zero;
    left = h;
    reads = sym (append-nil (readings cur));
    more = omega arith;
  }
  read_reports (f ∷ fs) cur es rest room h =
      let a =
        read_report cur f es (reports fs ++ rest) (omega arith)
          (h ∙ append_assoc (report f) (reports fs) rest) in
      let b = read_reports fs a.cur' a.es' rest (omega (arith, a.more)) a.left in
      record {
        es' = b.es';
        cur' = b.cur';
        steps = λ n.
            a.steps n
            ∙ b.steps (n + length (reports (f ∷ [])))
            ∙ ap (λ k. consume max_items alloc b.cur' k b.es')
                (rw (length-append (report f) (reports fs), length-append (report f) [])
                  (omega arith));
        left = b.left;
        reads =
            b.reads
            ∙ ap (λ l. l ++ map finger_reading fs) a.reads
            ∙ append_assoc (readings cur) (finger_reading f ∷ []) (map finger_reading fs);
        more = omega (arith, a.more, b.more);
      }

  -- Where the input events say the reports of `fs` and the end of the frame, and a touch event has an
  -- item for each, the loop reads all of them and hands out an event with one item for each finger,
  -- in order: its id times 1000, down for a new finger, up for a lost one, and its last position.
  pub decode_frame :
      (fs : List Finger) (es : List InputEvent)
      → length fs ≤ max_items
      → map signal es ≡ reports fs ++ ((ev_syn, 0, pos 0) ∷ [])
      → (g : TouchEvent) × (consume max_items alloc [] 0 es
          ≡ (length (reports fs) + 1, generated g none))
        × (readings g ≡ map finger_reading fs)
  decode_frame fs es room h =
      let a = read_reports fs [] es ((ev_syn, 0, pos 0) ∷ []) (omega arith) h in
      let (e, r, eq, et, ec, ev, left) = uncons a.es' (ev_syn, 0, pos 0) [] a.left in
      let n = 0 + length (reports fs) in
      let finish : consume max_items alloc a.cur' n a.es' ≡ (n + 1, generated a.cur' none) = rw eq (
        consume_generated max_items alloc a.cur' a.cur' n e r
          (on_syn max_items alloc a.cur' e et)) in
      let count : n ≡ length (reports fs) = omega arith in
      (
        a.cur',
        a.steps 0 ∙ finish ∙ ap {B = ℕ × Round} (λ (k : ℕ). (k + 1, generated a.cur' none)) count,
        a.reads,
      )
