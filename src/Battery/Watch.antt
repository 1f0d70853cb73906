-- ===== src/Battery/Watch.antt =====
-- battery/device/battery.c: a client that asks for the status when it is called back.
use nyx_modules.Base.{
  ℤ, ◌==ℤ◌, ==ℤ→≡, Bool, true, false, not, ◌||◌, if◌then◌else◌, List, [], ◌∷◌, Option, none, some,
  Bool-cases, All, ◌≡◌, refl, sym, ap₂, ◌∙◌, inl, inr,
}
use mathlib.Core.Bool.{false≢true}
use nyx_modules.Battery.Status.{
  SysfsFiles, BatteryStatus, battery_read_status, has_changed, notify, handle_event,
}

-- What a client watches.
abbrev pub watched : BatteryStatus → Bool × ℤ
watched s = (s.present, s.percentage)

-- The state of the module and what a client has seen of it, after an event: the client looks at the new
-- state if it is called back.
unfoldable pub see : Bool × ℤ → Option (BatteryStatus × Bool) → Option (BatteryStatus × (Bool × ℤ))
see seen none = none
see seen (some (s, called)) = some (s, if called then watched s else seen)

-- A client that is registered, over the files as they are at each event.
unfoldable pub watch :
    List SysfsFiles → BatteryStatus → Bool × ℤ → Option (BatteryStatus × (Bool × ℤ))
watch [] s seen = some (s, seen)
watch (f ∷ fs) s seen = elim (see seen (handle_event true f s)) [
  | none ↦ none
  | some (s', seen') ↦ watch fs s' seen'
]

neither : (a b c : Bool) → ((if a then not b else b) || not c) ≡ false → (a ≡ b) × (c ≡ true)
neither true true true h = (refl, refl)
neither false false true h = (refl, refl)
neither true true false h = absurd (false≢true (sym h))
neither false false false h = absurd (false≢true (sym h))
neither true false c h = absurd (false≢true (sym h))
neither false true c h = absurd (false≢true (sym h))

unchanged : (old new : BatteryStatus) → has_changed old new ≡ false → watched new ≡ watched old
unfolding has_changed
unchanged old new h =
    let (same, equal) = neither new.present old.present (new.percentage ==ℤ old.percentage) h in
    ap₂ (λ (b : Bool) (n : ℤ). (b, n)) same (==ℤ→≡ new.percentage old.percentage equal)

see_lem :
    (old new : BatteryStatus) (seen : Bool × ℤ)
    → seen ≡ watched old
    → (r : Bool × ℤ) × (see seen (notify true old (some new)) ≡ some (new, r)) × (r ≡ watched new)
unfolding see notify
see_lem old new seen h = elim (Bool-cases (has_changed old new)) [
  | inl e ↦ (watched new, rw e refl, refl)
  | inr e ↦ (seen, rw e refl, h ∙ sym (unchanged old new e))
]

-- The files of an event can be read without a division by zero.
abbrev pub IsReadable : SysfsFiles → Type 0
IsReadable f = (s : BatteryStatus) × (battery_read_status f ≡ some s)

-- A client that starts with what the state says, and asks for the status when it is called back, knows
-- the presence and the percentage of the battery after any sequence of events whose files can be read
-- without a division by zero; every event of it is handled.
pub client_knows :
    (fs : List SysfsFiles) (s : BatteryStatus) (seen : Bool × ℤ)
    → All IsReadable fs
    → seen ≡ watched s
    → (s' : BatteryStatus) × (seen' : Bool × ℤ) × (watch fs s seen ≡ some (s', seen'))
      × (seen' ≡ watched s')
unfolding watch handle_event
client_knows [] s seen reads h = (s, seen, refl, h)
client_knows (f ∷ fs) s seen reads h =
    let (new, e) = reads.0 in
    let (r, saw, known) = see_lem s new seen h in
    let (s', seen', run, end) = client_knows fs new r reads.1 known in
    (s', seen', rw (e, saw, watch) run, end)
