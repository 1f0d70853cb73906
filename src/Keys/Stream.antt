-- ===== src/Keys/Stream.antt =====
-- What a client reads over many calls: every key of what was read, once and in order.
use nyx_modules.Base.{
  ℕ, zero, suc, ◌-◌, ◌≡◌, refl, sym, ap, ◌∙◌, inl, inr, pos, Bool, true, false, ◌==◌, if◌then◌else◌,
  Bool-cases, List, [], ◌∷◌, Option, map, ◌++◌, none, some, take, drop, length, take_all, eq→==,
  arith, replicate,
}
use nyx_modules.Gestures.Types.{InputEvent}
use nyx_modules.Keys.Device.{
  KeyEvent, Keys, ReadResult, got, interrupted, end_of_file, read_loop, Poll, input,
  read_input_event, take_from, pending, refill, refill_from, take_key, keys_get_event,
}
use nyx_modules.Keys.Pending.{key_events, IsValid, left, take_key_first}

-- A number of calls, with what is polled in each: the state and the events that they hand out.
unfoldable pub with_event :
    Option KeyEvent
    → Option (Keys × List (Option KeyEvent))
    → Option (Keys × List (Option KeyEvent))
with_event e none = none
with_event e (some (k, es)) = some (k, e ∷ es)

unfoldable pub calls : List Poll → Keys → Option (Keys × List (Option KeyEvent))
calls [] k = some (k, [])
calls (p ∷ ps) k = elim (keys_get_event true p k) [
  | none ↦ none
  | some (k', e) ↦ with_event e (calls ps k')
]

-- A call in the middle of a read does not read, whatever could be polled.
get_event_left :
    (p : Poll) (k : Keys) (e : KeyEvent) (ks : List KeyEvent)
    → IsValid k
    → left k ≡ e ∷ ks
    → (k' : Keys) × (keys_get_event true p k ≡ some (k', some e)) × IsValid k' × (left k' ≡ ks)
unfolding keys_get_event
get_event_left p k e ks v h = elim (Bool-cases (k.event_iter == 0)) [
  | inl start ↦ ground (arith, h, ap (λ (b : Bool). if b then [] else key_events (pending k)) start)
  | inr going ↦
      let (k', run, v', rest) =
        take_key_first k e ks v
          (ap (λ (b : Bool). if b then [] else key_events (pending k)) (sym going) ∙ h) in
      let kept : refill p k ≡ some k = unfold refill in rw going in
      let held : (if k.current then true else true) ≡ true = ground arith in
      (
        k',
        ap (take_from true) kept ∙ (unfold take_from in ap (λ b. take_key b k) held ∙ run),
        v',
        rest,
      )
]

-- From a valid state and while memory lasts, as many calls as keys are left of a read hand out
-- every one of them, once and in order, whatever could be polled meanwhile, and nothing is left
-- then.
pub calls_lem :
    (ps : List Poll) (k : Keys) (ks : List KeyEvent)
    → IsValid k
    → left k ≡ ks
    → length ps ≡ length ks
    → (k' : Keys) × (calls ps k ≡ some (k', map some ks)) × IsValid k' × (left k' ≡ [])
unfolding calls with_event
calls_lem [] k [] v h n = (k, refl, v, h)
calls_lem [] k (e ∷ ks) v h n = absurd (omega arith)
calls_lem (p ∷ ps) k [] v h n = absurd (omega arith)
calls_lem (p ∷ ps) k (e ∷ ks) v h n =
    let (k1, run, v1, rest) = get_event_left p k e ks v h in
    let (k2, runs, v2, done) = calls_lem ps k1 ks v1 rest (omega arith) in
    (k2, rw (run, calls) (rw (runs, with_event)), v2, done)

read_loop_interrupted :
    (i : ℕ) (rs : List ReadResult) → read_loop (replicate i interrupted ++ rs) ≡ read_loop rs
unfolding read_loop
read_loop_interrupted zero rs = refl
read_loop_interrupted (suc i) rs = read_loop_interrupted i rs

-- The state behind a read.
abbrev filled : Keys → List InputEvent → Keys
filled k es = record k { raw_events = es; event_count = pos (length es); current = false }

refill_reads :
    (i : ℕ) (es : List InputEvent) (more : List ReadResult) (k : Keys)
    → k.event_iter ≡ 0
    → refill (input (replicate i interrupted ++ (got es ∷ more))) k ≡ some (filled k es)
unfolding refill read_input_event
refill_reads i es more k start =
    ap
      (λ (b : Bool).
        if b
        then refill_from k (read_loop (replicate i interrupted ++ (got es ∷ more)))
        else some k)
      (eq→== k.event_iter 0 start)
    ∙ ap (refill_from k) (read_loop_interrupted i (got es ∷ more))
    ∙ unfold refill_from read_loop in refl

pending_filled : (k : Keys) (es : List InputEvent) → k.event_iter ≡ 0 → pending (filled k es) ≡ es
unfolding pending
pending_filled k es start =
    ap (λ i. take (length es - i) (drop i es)) start
    ∙ ap (λ n. take n es) (omega arith)
    ∙ take_all es

-- At the start of the list and while memory lasts, a call that reads events with a key hands out
-- the first key and leaves the others, in order, in a valid state; interruptions before the read
-- make no difference.
pub get_event_reads :
    (interruptions : ℕ) (es : List InputEvent) (more : List ReadResult) (k : Keys) (e : KeyEvent)
    (ks : List KeyEvent)
    → k.event_iter ≡ 0
    → key_events es ≡ e ∷ ks
    → (k' : Keys) × (keys_get_event true
          (input (replicate interruptions interrupted ++ (got es ∷ more)))
          k
        ≡ some (k', some e))
      × IsValid k'
      × (left k' ≡ ks)
unfolding keys_get_event
get_event_reads i es more k e ks start h =
    let v : IsValid (filled k es) = record {
      count = length es;
      counted = refl;
      memory = omega arith;
      inside = inr start;
    } in
    let (k', run, v', rest) =
      take_key_first (filled k es) e ks v (ap key_events (pending_filled k es start) ∙ h) in
    (k', ap (take_from true) (refill_reads i es more k start) ∙ (unfold take_from in run), v', rest)

read_loop_end : (n : ℕ) → read_loop (replicate n end_of_file) ≡ none
unfolding read_loop
read_loop_end zero = refl
read_loop_end (suc n) = read_loop_end n

-- At the start of the list, a device at the end of its file is read for ever: however often `read`
-- returns 0, the call has not come back.
pub end_of_file_hangs :
    (n : ℕ) (alloc : Bool) (k : Keys)
    → k.event_iter ≡ 0
    → keys_get_event alloc (input (replicate n end_of_file)) k ≡ none
unfolding keys_get_event refill read_input_event refill_from take_from
end_of_file_hangs n alloc k start = rw start (rw (read_loop_end n))
