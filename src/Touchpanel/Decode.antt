-- ===== src/Touchpanel/Decode.antt =====
-- How the loop of `touchpanel_get_event` reads the signals of one item.
use native.Mathlib.Nat.{add-zero}
use nyx_modules.Base.{
  ℕ, ◌+◌, ◌<◌, ◌≡◌, refl, ap, ◌∙◌, ℤ, pos, ◌+ℤ◌, scale_ℤ, signed32, Bool, true, false, ltb, ◌==◌,
  if◌then◌else◌, ◌⊎◌, ◌==ℤ◌, inl, inr, List, [], ◌∷◌, ◌++◌, map, arith, none, All, length,
}
use nyx_modules.Gestures.Types.{
  InputEvent, ev_syn, ev_key, ev_abs, abs_x, abs_y, btn_touch, ev_fingerid,
}
use nyx_modules.Gestures.CoordBuf.{get_last_coords}
use nyx_modules.Gestures.Finger.{
  Finger, GestureState, start, unused, finger_down, finger_down_after_quick_launch,
}
use nyx_modules.Gestures.Finger.Report.{Signal, signal}
use nyx_modules.Touchpanel.Items.{
  TouchState, undefined, down, up, TouchItem, TouchEvent, new_item, with_current_item, abs_item,
  key_item, building, generated, handle_input, consume,
}

-- What a client reads of an item, but for its time stamp.
pub record Reading : Type 0 where
  pub finger : ℤ
  pub state : TouchState
  pub x : ℤ
  pub y : ℤ

abbrev pub read_item : TouchItem → Reading
read_item i = record { finger = i.finger; state = i.state; x = i.x; y = i.y }

abbrev pub readings : TouchEvent → List Reading
readings = map read_item

-- A new finger is down, a lost one is up, and any other moves.
abbrev pub touch_state : GestureState → Bool → TouchState
touch_state st true = up
touch_state start false = down
touch_state finger_down false = undefined
touch_state finger_down_after_quick_launch false = undefined
touch_state unused false = undefined

-- What a client is to read of a finger.
abbrev pub finger_reading : Finger → Reading
finger_reading f =
    let last = get_last_coords f.coords in
    record {
      finger = scale_ℤ 1000 (signed32 f.id) +ℤ pos 0;
      state = touch_state f.state.state (ltb 0 f.min_dist);
      x = last.x;
      y = last.y;
    }

pub uncons :
    (es : List InputEvent) (s : Signal) (ss : List Signal)
    → map signal es ≡ s ∷ ss
    → (e : InputEvent) × (r : List InputEvent) × (es ≡ e ∷ r)
      × (e.type ≡ s.0)
      × (e.code ≡ s.1)
      × (e.value ≡ s.2)
      × (map signal r ≡ ss)
uncons [] s ss h = cc
uncons (e ∷ r) s ss h = (e, r, refl, ground arith, ground arith, ground arith, ground arith)

with_current_item-append :
    (g : TouchItem → TouchItem) (is : TouchEvent) (i : TouchItem)
    → with_current_item g (is ++ (i ∷ [])) ≡ is ++ (g i ∷ [])
unfolding with_current_item
with_current_item-append g [] i = refl
with_current_item-append g (j ∷ []) i = refl
with_current_item-append g (j ∷ k ∷ is) i = ap (λ l. j ∷ l) (with_current_item-append g (k ∷ is) i)

module _ (max_items : ℕ) (alloc : Bool) where
  pub on_id :
      (cur : TouchEvent) (e : InputEvent)
      → e.type ≡ ev_fingerid
      → length cur < max_items
      → handle_input max_items alloc cur e ≡ building (cur ++ (new_item e ∷ []))
  unfolding handle_input
  on_id cur e t h = ground arith

  pub on_abs :
      (is : TouchEvent) (i : TouchItem) (e : InputEvent)
      → e.type ≡ ev_abs
      → handle_input max_items alloc (is ++ (i ∷ [])) e ≡ building (is ++ (abs_item e i ∷ []))
  unfolding handle_input
  on_abs is i e t = ground (arith, with_current_item-append (abs_item e) is i)

  pub on_key :
      (is : TouchEvent) (i : TouchItem) (e : InputEvent)
      → e.type ≡ ev_key
      → handle_input max_items alloc (is ++ (i ∷ [])) e ≡ building (is ++ (key_item e i ∷ []))
  unfolding handle_input
  on_key is i e t = ground (arith, with_current_item-append (key_item e) is i)

  pub on_syn :
      (cur : TouchEvent) (e : InputEvent)
      → e.type ≡ ev_syn
      → handle_input max_items alloc cur e ≡ generated cur none
  unfolding handle_input
  on_syn cur e t = ground arith

  pub consume_building :
      (cur cur' : TouchEvent) (n : ℕ) (e : InputEvent) (es : List InputEvent)
      → handle_input max_items alloc cur e ≡ building cur'
      → consume max_items alloc cur n (e ∷ es) ≡ consume max_items alloc cur' (n + 1) es
  unfolding consume
  consume_building cur cur' n e es h = rw (h, consume)

  pub consume_generated :
      (cur g : TouchEvent) (n : ℕ) (e : InputEvent) (es : List InputEvent)
      → handle_input max_items alloc cur e ≡ generated g none
      → consume max_items alloc cur n (e ∷ es) ≡ (n + 1, generated g none)
  unfolding consume
  consume_generated cur g n e es h = rw (h, consume)

-- What a signal does to the current item, as the client reads it.
abbrev pub update : Signal → Reading → Reading
update s r =
    if s.0 == ev_abs
    then (if s.1 == abs_x
        then record r { x = s.2 }
        else if s.1 == abs_y
        then record r { y = s.2 }
        else r)
    else if s.1 == btn_touch
    then record r { state = if s.2 ==ℤ pos 1 then down else up }
    else r

abbrev pub update_all : List Signal → Reading → Reading
update_all [] r = r
update_all (s ∷ ss) r = update_all ss (update s r)

abbrev pub IsUpdate : Signal → Type 0
IsUpdate s = (s.0 ≡ ev_abs) ⊎ (s.0 ≡ ev_key)

read-abs_item :
    (e : InputEvent) (i : TouchItem) (s : Signal)
    → s.0 ≡ ev_abs
    → e.code ≡ s.1
    → e.value ≡ s.2
    → read_item (abs_item e i) ≡ update s (read_item i)
unfolding abs_item
read-abs_item e i s t c v = ground arith

read-key_item :
    (e : InputEvent) (i : TouchItem) (s : Signal)
    → s.0 ≡ ev_key
    → e.code ≡ s.1
    → e.value ≡ s.2
    → read_item (key_item e i) ≡ update s (read_item i)
unfolding key_item
read-key_item e i s t c v = ground (arith, ap (λ (z : ℤ). z ==ℤ pos 1) v)

module _ (max_items : ℕ) (alloc : Bool) where
  -- The loop reads the signals `ss`, which change the current item.
  pub record Advance (cur : TouchEvent) (i : TouchItem) (es : List InputEvent)
      (ss rest : List Signal) : Type 0 where
    pub es' : List InputEvent
    pub i' : TouchItem
    pub steps :
        (n : ℕ)
        → consume max_items alloc (cur ++ (i ∷ [])) n es
          ≡ consume max_items alloc (cur ++ (i' ∷ [])) (n + length ss) es'
    pub left : map signal es' ≡ rest
    pub reads : read_item i' ≡ update_all ss (read_item i)

  signal-Advance :
      (cur : TouchEvent) (i : TouchItem) (es : List InputEvent) (s : Signal) (rest : List Signal)
      → IsUpdate s
      → map signal es ≡ s ∷ rest
      → Advance cur i es (s ∷ []) rest
  signal-Advance cur i es s rest (inl t) h =
      let (e, r, eq, et, ec, ev, left) = uncons es s rest h in
      record {
        es' = r;
        i' = abs_item e i;
        steps = λ n.
            rw eq (
              consume_building max_items alloc _ _ n e r (on_abs max_items alloc cur i e (et ∙ t)));
        left = left;
        reads = read-abs_item e i s t ec ev;
      }
  signal-Advance cur i es s rest (inr t) h =
      let (e, r, eq, et, ec, ev, left) = uncons es s rest h in
      record {
        es' = r;
        i' = key_item e i;
        steps = λ n.
            rw eq (
              consume_building max_items alloc _ _ n e r (on_key max_items alloc cur i e (et ∙ t)));
        left = left;
        reads = read-key_item e i s t ec ev;
      }

  pub advance :
      (cur : TouchEvent) (ss : List Signal) (i : TouchItem) (es : List InputEvent)
      (rest : List Signal)
      → All IsUpdate ss
      → map signal es ≡ ss ++ rest
      → Advance cur i es ss rest
  advance cur [] i es rest u h = record {
    es' = es;
    i' = i;
    steps = λ n. rw add-zero;
    left = h;
    reads = refl;
  }
  advance cur (s ∷ ss) i es rest u h =
      let a = signal-Advance cur i es s (ss ++ rest) u.0 h in
      let b = advance cur ss a.i' a.es' rest u.1 a.left in
      record {
        es' = b.es';
        i' = b.i';
        steps = λ n.
            a.steps n
            ∙ b.steps (n + 1)
            ∙ ap (λ k. consume max_items alloc (cur ++ (b.i' ∷ [])) k b.es') (omega arith);
        left = b.left;
        reads = b.reads ∙ ap (update_all ss) a.reads;
      }
