-- ===== src/Keys/Pending.antt =====
-- keys.c: the keys that a call finds in what is pending.
use native.Mathlib.Nat.{add-zero}
use native.Mathlib.Numerals.{add-one}
use nyx_modules.Base.{
  ℕ, suc, ◌+◌, ◌-◌, ◌≤◌, ◌<◌, ◌≡◌, refl, sym, ap, ◌∙◌, ◌⊎◌, inl, inr, pos, true, false, ltb, ◌==◌,
  if◌then◌else◌, Bool-cases, List, [], ◌∷◌, Option, none, some, take, drop, length, length-drop,
  length-take_of_le, drop-take, drop-drop, drop_all, ne→==, arith,
}
use nyx_modules.Gestures.Types.{InputEvent, ev_key}
use nyx_modules.Keys.Device.{
  KeyEvent, Keys, key_event, find_key, pending, hand_out, next_iter, take_key,
}

-- The key events of a list of input events.
unfoldable pub key_events : List InputEvent → List KeyEvent
key_events [] = []
key_events (e ∷ es) = if e.type == ev_key then key_event e ∷ key_events es else key_events es

-- The loop stops behind the first key of the list.
pub record Finds (n : ℕ) (es : List InputEvent) (r : ℕ × Option KeyEvent) : Type 0 where
  nothing : key_events es ≡ [] → r ≡ (n + length es, none)
  first :
      (k : KeyEvent) (ks : List KeyEvent)
      → key_events es ≡ k ∷ ks
      → (j : ℕ) × (r ≡ (n + suc j, some k))
        × (suc j ≤ length es)
        × (key_events (drop (suc j) es) ≡ ks)

pub find_key-Finds : (n : ℕ) (es : List InputEvent) → Finds n es (find_key n es)
unfolding find_key key_events
find_key-Finds n [] = record { nothing = λ h. rw add-zero; first = λ k ks h. cc }
find_key-Finds n (e ∷ es) =
    let ih = find_key-Finds (n + 1) es in
    elim (Bool-cases (e.type == ev_key)) [
      | inl key ↦ record {
        nothing = λ h. ground arith;
        first = λ k ks h. (0, ground (arith, add-one n), omega arith, ground arith);
      }
      | inr other ↦ record {
        nothing = λ h. ground (arith, ih.nothing);
        first = λ k ks h.
            let (j, found, inside, rest) = ih.first k ks (ground arith) in
            (suc j, ground (arith, found), omega (arith, inside), rest);
      }
    ]

-- The counters are those of a read, and an index that is not 0 has not reached the end.
pub record IsValid (k : Keys) : Type 0 where
  pub count : ℕ
  pub counted : k.event_count ≡ pos count
  pub memory : count ≤ length k.raw_events
  pub inside : (k.event_iter < count) ⊎ (k.event_iter ≡ 0)

-- The keys that later calls hand out without a new read.
abbrev pub left : Keys → List KeyEvent
left k = if k.event_iter == 0 then [] else key_events (pending k)

pub length-pending : (k : Keys) (v : IsValid k) → length (pending k) ≡ v.count - k.event_iter
unfolding pending
length-pending k v = rw v.counted (
    length-take_of_le (v.count - k.event_iter) (drop k.event_iter k.raw_events)
      (omega (arith, length-drop k.event_iter k.raw_events, v.memory)))

-- After some events of the read have been taken, the others are pending.
pub drop-pending :
    (k : Keys) (v : IsValid k) (j : ℕ)
    → k.event_iter + j < v.count
    → drop j (pending k) ≡ pending (record k { event_iter = k.event_iter + j; current = false })
unfolding pending
drop-pending k v j h = rw v.counted (
    ap (λ m. drop j (take m (drop k.event_iter k.raw_events))) (omega arith)
    ∙ drop-take j (v.count - (k.event_iter + j)) (drop k.event_iter k.raw_events)
    ∙ ap (take (v.count - (k.event_iter + j))) (drop-drop j k.event_iter k.raw_events))

pub next_iter_lem :
    (k : Keys) (v : IsValid k) (n : ℕ) → next_iter k n ≡ (if ltb n v.count then n else 0)
unfolding next_iter
next_iter_lem k v n = rw v.counted (ground arith)

-- Where there is a key to come, the call hands it out and keeps the others.
pub take_key_first :
    (k : Keys) (e : KeyEvent) (ks : List KeyEvent)
    → IsValid k
    → key_events (pending k) ≡ e ∷ ks
    → (k' : Keys) × (take_key true k ≡ some (k', some e)) × IsValid k' × (left k' ≡ ks)
unfolding take_key hand_out key_events
take_key_first k e ks v h =
    let (j, found, short, rest) = (find_key-Finds k.event_iter (pending k)).first e ks h in
    let n = k.event_iter + suc j in
    let run =
      ap (λ r. hand_out true (record k { event_iter = next_iter k r.0; current = true }) r.1) found
      ∙ ap (λ (i : ℕ). some (record k { event_iter = i; current = false }, some e))
          (next_iter_lem k v n) in
    elim (Bool-cases (ltb n v.count)) [
      | inl more ↦ (
        record k { event_iter = n; current = false },
        run ∙ rw more,
        record {
          count = v.count;
          counted = v.counted;
          memory = v.memory;
          inside = inl (ground arith);
        },
        rw (ne→== n 0 (λ z. omega arith))
            (ap key_events (sym (drop-pending k v (suc j) (ground arith))) ∙ rest),
      )
      | inr last ↦ (
        record k { event_iter = 0; current = false },
        run ∙ rw last,
        record { count = v.count; counted = v.counted; memory = v.memory; inside = inr refl },
        ap key_events (sym (drop_all (suc j) (pending k) (ground (arith, length-pending k v))))
            ∙ rest,
      )
    ]
