-- ===== src/Runs.antt =====
-- Sequences of actions on a state, each of which may not come back, and what they cost.
use nyx_modules.Base.{
  ℕ, ◌+◌, ◌≡◌, refl, List, [], ◌∷◌, Option, none, some, Option-cases, inl, inr, arith,
}
use mathlib.Core.Path.{subst}
use mathlib.Core.Option.{none-ne-some, some-injective}

module _ {A S : Type 0} (act : A → S → Option S) where
  unfoldable pub run : List A → S → Option S
  run [] s = some s
  run (a ∷ rest) s = elim (act a s) [ none ↦ none | some s' ↦ run rest s' ]

  pub run-step :
      (a : A) (rest : List A) (s s1 : S) → act a s ≡ some s1 → run (a ∷ rest) s ≡ run rest s1
  unfolding run
  run-step a rest s s1 e = rw (run, e) refl

  module _ (cost : A → S → ℕ) where
    -- The sum of what the actions cost, each in the state that it finds.
    unfoldable pub total : List A → S → ℕ
    total [] s = 0
    total (a ∷ rest) s = elim (act a s) [ none ↦ 0 | some s' ↦ cost a s + total rest s' ]

    -- What each action keeps, with its cost added, a sequence keeps with its total.
    pub run-keeps :
        (P : S → ℕ → Type 0)
        → ((a : A) (s s' : S) (n : ℕ) → P s n → act a s ≡ some s' → P s' (n + cost a s))
        → (actions : List A) (s s' : S) (n : ℕ) → P s n
        → run actions s ≡ some s'
        → P s' (n + total actions s)
    unfolding run total
    run-keeps P step [] s s' n p e =
        subst (λ (m : ℕ). P s' m) (omega arith) (subst (λ (s : S). P s n) (some-injective _ _ e) p)
    run-keeps P step (a ∷ rest) s s' n p e = elim (Option-cases (act a s)) [
      | inl stuck ↦ absurd (none-ne-some _ (rw (stuck, run) at e))
      | inr (s1, one) ↦
          let ih =
            run-keeps P step rest s1 s' (n + cost a s) (step a s s1 n p one) (rw (one, run) at e) in
          rw (total, one) (subst (λ (m : ℕ). P s' m) (omega arith) ih)
    ]
