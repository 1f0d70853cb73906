-- ===== src/Battery/Fake.antt =====
-- battery/emulator/fake_battery.c: when the battery of the emulator is there, and what its status says.
use nyx_modules.Base.{
  Text, ℕ, ◌/◌, ◌≤◌, ◌<◌, ℤ, pos, negsuc, pos_part, ltb_ℤ, ltb, true, false, if◌then◌else◌,
  Bool-cases, none, some, ◌≡◌, refl, sym, ◌∙◌, ◌⊎◌, ◌↔◌, inl, inr, arith,
}
use native.Mathlib.Nat.{div-eq_of_lt}
use mathlib.Core.Bool.{false≢true}
use nyx_modules.Utils.Files.{file_get_double, store_number}
use nyx_modules.Battery.Emulator.{
  FakeFiles, fake_voltage, fake_current, fake_is_present, Numbers, number_or, fake_coulomb,
  fake_read_status,
}

millis_pos : (n : ℕ) → (if ltb_ℤ (pos n) (pos 0) then negsuc 0 else pos (n / 1000)) ≡ pos (n / 1000)
millis_pos n = ground arith

millis_neg : (n : ℕ) → (if ltb_ℤ (negsuc n) (pos 0) then negsuc 0 else pos 0) ≡ negsuc 0
millis_neg n = ground arith

-- A value in micro-units is turned to milli-units: it is positive exactly from 1000 on.
unfoldable IsMillis : ℤ → ℤ → Type 0
IsMillis file value =
    ((1000 ≤ pos_part file) × (value ≡ pos (pos_part file / 1000)) × (ltb_ℤ (pos 0) value ≡ true))
    ⊎ ((pos_part file < 1000) × (ltb_ℤ (pos 0) value ≡ false))

is_positive : (q : ℕ) → 1 ≤ q → ltb_ℤ (pos 0) (pos q) ≡ true
is_positive q h = ground arith

below_one : (n : ℕ) → n < 1000 → ltb_ℤ (pos 0) (pos (n / 1000)) ≡ false
below_one n h = rw (div-eq_of_lt h) refl

one_at_least : (n : ℕ) → 1000 ≤ n → 1 ≤ n / 1000
one_at_least n h = omega arith

below : (n : ℕ) → ltb n 1000 ≡ true → n < 1000
below n h = ground arith

above : (n : ℕ) → ltb n 1000 ≡ false → 1000 ≤ n
above n h = ground arith

millis_lem :
    (file : ℤ) → IsMillis file (if ltb_ℤ file (pos 0) then negsuc 0 else pos (pos_part file / 1000))
unfolding IsMillis
millis_lem (pos n) = elim (Bool-cases (ltb n 1000)) [
  | inl e ↦ rw (millis_pos n) (inr (below n e, below_one n (below n e)))
  | inr e ↦
      rw (millis_pos n) (inl (above n e, refl, is_positive (n / 1000) (one_at_least n (above n e))))
]
millis_lem (negsuc n) = rw (millis_neg n) (inr (omega arith, refl))

voltage-IsMillis : (f : FakeFiles) → IsMillis f.voltage (fake_voltage f)
unfolding fake_voltage
voltage-IsMillis f = millis_lem f.voltage

current-IsMillis : (f : FakeFiles) → IsMillis f.current (fake_current f)
unfolding fake_current
current-IsMillis f = millis_lem f.current

positive_iff :
    (file value : ℤ) → IsMillis file value → (ltb_ℤ (pos 0) value ≡ true) ↔ (1000 ≤ pos_part file)
unfolding IsMillis
positive_iff file value (inl (big, v, e)) = (λ h. big, λ h. e)
positive_iff file value (inr (small, e)) =
    (λ h. absurd (false≢true (sym e ∙ h)), λ h. absurd (omega arith))

module _ {D : Type 0} (num : Numbers D) where
  -- The battery of the emulator, with any contents of its files: it is present in the status exactly if the
  -- file of the voltage says 1000 microvolts at least, and then the status has that voltage in millivolts and
  -- says that it charges exactly if the file of the current says 1000 microamperes at least. A battery that is
  -- not present does not charge and has the percentage 0.
  pub fake_status_lem :
      (before : D) (f : FakeFiles)
      → ((1000 ≤ pos_part f.voltage)
          × ((fake_read_status num before f).present ≡ true)
          × ((fake_read_status num before f).voltage ≡ pos (pos_part f.voltage / 1000))
          × (((fake_read_status num before f).charging ≡ true) ↔ (1000 ≤ pos_part f.current)))
        ⊎ ((pos_part f.voltage < 1000)
            × ((fake_read_status num before f).present ≡ false)
            × ((fake_read_status num before f).charging ≡ false)
            × ((fake_read_status num before f).percentage ≡ pos 0))
  unfolding IsMillis fake_read_status fake_is_present
  fake_status_lem before f = elim (voltage-IsMillis f) [
    | inl (big, v, e) ↦
        rw e (inl (big, refl, v, positive_iff f.current (fake_current f) (current-IsMillis f)))
    | inr (small, e) ↦ rw e (inr (small, refl, refl, refl))
  ]

  -- A file of a number that can be read but holds no number gives what the variable of the function happened to
  -- hold, where a file that cannot be read gives -1.
  pub number_lem :
      (before : D) (f : FakeFiles) (contents : Text)
      → f.coulomb ≡ some contents
      → num.strtod contents ≡ none
      → (fake_coulomb num before f ≡ before)
        × (fake_coulomb num before (record f { coulomb = none }) ≡ num.minus_one)
  unfolding fake_coulomb file_get_double store_number number_or
  number_lem before f contents h e = (rw (h, e) refl, refl)
