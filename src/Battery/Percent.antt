-- ===== src/Battery/Percent.antt =====
-- battery/device/battery.c: what `battery_percent` returns.
use native.Mathlib.Nat.{div-eq_of_lt}
use nyx_modules.Base.{
  ℕ, ◌/◌, ◌<◌, ℤ, pos, negsuc, ◌&&◌, ◌==◌, ne→==, ==_iff, Bool-cases, if◌then◌else◌, if_elim,
  Option, none, some, is_some, ◌≡◌, refl, ap, ◌∙◌, ◌⊎◌, inl, inr, arith,
}
use nyx_modules.Battery.Status.{
  SysfsFiles, readable, quotient, fallback, capacity_or, battery_percent,
}

readable_pos : (n : ℕ) → readable (some (pos n)) ≡ some (pos n)
unfolding readable
readable_pos n = ground arith

quotient_small :
    (now full : ℕ)
    → now < full
    → quotient (readable (some (pos now))) (readable (some (pos full))) ≡ some (pos 0)
unfolding quotient
quotient_small now full h =
    rw (readable_pos now, readable_pos full)
      (rw (ne→== full 0 (λ e. omega arith)) (ap (λ (n : ℕ). some (pos n)) (div-eq_of_lt h)))

-- Without a capacity that can be read, a battery that is less than full by its energy is at 0.
pub below_full :
    (f : SysfsFiles) (now full : ℕ)
    → readable f.capacity ≡ none
    → f.energy_now ≡ some (pos now)
    → f.energy_full ≡ some (pos full)
    → now < full
    → battery_percent f ≡ some (pos 0)
unfolding battery_percent fallback capacity_or
below_full f now full c en ef h = rw (c, en, ef) (quotient_small now full h)

readable_cases :
    (o : Option ℤ)
    → (readable o ≡ none) ⊎ ((n : ℕ) × (readable o ≡ some (pos n)) × (o ≡ some (pos n)))
unfolding readable
readable_cases none = inl refl
readable_cases (some (pos n)) = inr (n, readable_pos n, refl)
readable_cases (some (negsuc n)) = inl (ground arith)

-- What a result of `battery_percent` can be, where a division by zero needs the fact `Z`.
unfoldable IsResult : Type 0 → Option ℤ → Type 0
IsResult Z o = ((o ≡ none) × Z) ⊎ ((o ≡ some (negsuc 0)) ⊎ ((n : ℕ) × (o ≡ some (pos n))))

quotient-IsResult :
    (Z : Type 0) (a b : Option ℤ)
    → (b ≡ some (pos 0) → Z)
    → IsResult Z (quotient (readable a) (readable b))
unfolding quotient IsResult
quotient-IsResult Z a b z = elim (readable_cases a) [
  | inl e ↦ rw e (inr (inl refl))
  | inr (n, e, from) ↦ elim (readable_cases b) [
    | inl e' ↦ rw (e, e') (inr (inl refl))
    | inr (m, e', from') ↦
        rw (e, e') (by_zero n m (λ h. z (from' ∙ ap (λ (k : ℕ). some (pos k)) h)))
  ]
]
  where
    by_zero : (n m : ℕ) → (m ≡ 0 → Z) → IsResult Z (if m == 0 then none else some (pos (n / m)))
    by_zero n m zero_of = elim (Bool-cases (m == 0)) [
      | inl e ↦ rw e (inl (refl, zero_of ((==_iff m 0).0 e)))
      | inr e ↦ rw e (inr (inr (n / m, refl)))
    ]

-- A percentage that is returned is -1 or not negative, and the function crashes only if a file says that
-- a full battery has no energy or no charge.
pub percent_lem :
    (f : SysfsFiles)
    → ((battery_percent f ≡ none)
        × ((f.energy_full ≡ some (pos 0)) ⊎ (f.charge_full ≡ some (pos 0))))
      ⊎ ((battery_percent f ≡ some (negsuc 0)) ⊎ ((n : ℕ) × (battery_percent f ≡ some (pos n))))
unfolding battery_percent fallback capacity_or IsResult
percent_lem f =
    let Z = (f.energy_full ≡ some (pos 0)) ⊎ (f.charge_full ≡ some (pos 0)) in
    elim (readable_cases f.capacity) [
      | inr (n, e, from) ↦ rw e (inr (inr (n, refl)))
      | inl e ↦ rw e (
          if_elim (IsResult Z) (is_some f.energy_now && is_some f.energy_full)
            (quotient-IsResult Z f.energy_now f.energy_full (λ h. inl h))
            (if_elim (IsResult Z) (is_some f.charge_full && is_some f.charge_now)
              (quotient-IsResult Z f.charge_now f.charge_full (λ h. inr h)) (inr (inl refl))))
    ]
